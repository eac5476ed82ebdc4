-- ===== src/Visualizer/Atomic.antt =====
-- The transfer happens as a whole or not at all.
use system_design_course.Common.{
  ◌==◌, if◌then◌else◌, Bool-cases, if_both, Text, ℕ, ◌+◌, ◌-◌, ◌≡◌, refl, ◌⊎◌, inl, inr, Bool, true,
  false, ◌||◌, Option, none, some, List, arith,
}
use system_design_course.Visualizer.Transfer.{
  Statement, Database, Step, Outcome, Session, begin_at, wrote, undo, finish, after_insert, move,
  no_course, after_select, transfer, IsDatabase, begin, select_from, select_to, delete_row,
  update_from, insert_row, update_to, commit, rollback, raised, course_missing, undone, done,
}

abbrev pub is_done : Outcome → Bool
is_done raised = false
is_done course_missing = false
is_done (undone steps) = false
is_done (done steps) = true

-- The rows of a course after one row left `from` and one came to `to`.
abbrev pub shifted : ℕ → ℕ → ℕ → ℕ → ℕ
shifted from to c n =
    let less = if c == from then n - 1 else n in if c == to then less + 1 else less

module _ {S : Type 0} (db : Database S) (broken : Statement → Bool) (landed : Bool)
    (rows enrolled : ℕ → S → ℕ) where
  -- The move happened: it is reported, or an exception is, at a COMMIT that was carried out.
  abbrev Reported : Outcome → Type 0
  Reported o = (is_done o ≡ true) ⊎ ((o ≡ raised) × (broken commit ≡ true) × (landed ≡ true))

  Whole : ℕ → ℕ → S → Outcome × S → Type 0
  Whole from to s r =
      ((is_done r.0 ≡ false) × (r.1 ≡ s))
      ⊎ (Reported r.0 × ((c : ℕ) → rows c r.1 ≡ shifted from to c (rows c s)))

  undo-Whole :
      (from to : ℕ) (steps : List Step) (t : Session S)
      → Whole from to t.durable (undo db broken landed steps t)
  unfolding undo Whole
  undo-Whole from to steps t =
      if_both (Whole from to t.durable) (broken rollback) _ _ (inl (refl, refl)) (inl (refl, refl))

  finish-Whole :
      (from to : ℕ) (steps : List Step) (t : Session S)
      → ((c : ℕ) → rows c t.working ≡ shifted from to c (rows c t.durable))
      → Whole from to t.durable (finish db broken landed steps t)
  unfolding finish Whole
  finish-Whole from to steps t h = elim (Bool-cases (broken commit)) [
    | inr e ↦ rw e (inr (inl refl, h))
    | inl e ↦ elim (Bool-cases landed) [
      | inl l ↦ rw (e, l) (inr (inr (refl, refl, refl), h))
      | inr l ↦ rw (e, l) (inl (refl, refl))
    ]
  ]

  after_insert-Whole :
      IsDatabase db rows enrolled
      → (student from to : ℕ) (s : S) (o : Option S)
      → ((db.delete_enrollment student from s).0 == 0) ≡ false
      → db.insert_enrollment student to (db.decrement from (db.delete_enrollment student from s).1)
        ≡ o
      → Whole from to s (
          after_insert db broken landed to
            (wrote (db.decrement from (db.delete_enrollment student from s).1) (begin_at s))
            o)
  unfolding after_insert Whole
  after_insert-Whole laws student from to s none one e =
      undo-Whole from to _
        (wrote (db.decrement from (db.delete_enrollment student from s).1) (begin_at s))
  after_insert-Whole laws student from to s (some s3) one e =
      let s1 = (db.delete_enrollment student from s).1 in
      if_both (Whole from to s) (broken update_to) _ _ (inl (refl, refl)) (
        finish-Whole from to _ (wrote (db.increment to s3) (begin_at s)) (λ c. ground (
          arith,
          one,
          laws.deleted_rows student from c s,
          (laws.deleted_count student from s).0,
          laws.decrement_rows from c s1,
          laws.inserted_rows student to c (db.decrement from s1) s3 e,
          laws.increment_rows to c s3,
        )))

  move-Whole :
      IsDatabase db rows enrolled
      → (student from to : ℕ) (s : S)
      → Whole from to s (move db broken landed student from to (begin_at s))
  unfolding move Whole
  move-Whole laws student from to s =
      let (affected, s1) = db.delete_enrollment student from s in
      if_both (Whole from to s) (broken delete_row) _ _ (inl (refl, refl))
        (elim (Bool-cases (affected == 0)) [
          | inl e ↦ rw e (undo-Whole from to _ (wrote s1 (begin_at s)))
          | inr e ↦ rw e (
              if_both (Whole from to s) (broken update_from || broken insert_row) _ _
                (inl (refl, refl)) (after_insert-Whole laws student from to s _ e refl))
        ])

  -- The transfer between two courses that are found.
  Between : Text → Text → S → Outcome × S → Type 0
  Between from_code to_code s r =
      ((is_done r.0 ≡ false) × (r.1 ≡ s))
      ⊎ ((from : ℕ) × (to : ℕ) × (db.course_id from_code s ≡ some from)
          × (db.course_id to_code s ≡ some to)
          × ((is_done r.0 ≡ true) ⊎ ((r.0 ≡ raised) × (broken commit ≡ true) × (landed ≡ true)))
          × ((c : ℕ) → rows c r.1 ≡ shifted from to c (rows c s)))

  after_select-Between :
      IsDatabase db rows enrolled
      → (student : ℕ) (from_code to_code : Text) (s : S) (from to : Option ℕ)
      → db.course_id from_code s ≡ from
      → db.course_id to_code s ≡ to
      → Between from_code to_code s (after_select db broken landed student (begin_at s) from to)
  unfolding after_select no_course Between Whole
  after_select-Between laws student from_code to_code s none to e f =
      if_both (Between from_code to_code s) (broken rollback) _ _ (inl (refl, refl))
        (inl (refl, refl))
  after_select-Between laws student from_code to_code s (some from) none e f =
      if_both (Between from_code to_code s) (broken rollback) _ _ (inl (refl, refl))
        (inl (refl, refl))
  after_select-Between laws student from_code to_code s (some from) (some to) e f =
      elim (move-Whole laws student from to s) [
        | inl h ↦ inl h
        | inr (d, h) ↦ inr (from, to, e, f, d, h)
      ]

  -- A transfer either does not report success and leaves the database as it was, or has found both
  -- courses, has moved one enrollment from the first to the second and touched no other course, and
  -- reports success. The one exception is a COMMIT that raises although it was carried out: then an
  -- error is reported after the move.
  pub transfer_atomic :
      IsDatabase db rows enrolled
      → (student : ℕ) (from_code to_code : Text) (s : S)
      → let result = transfer db broken landed student from_code to_code s in
        ((is_done result.0 ≡ false) × (result.1 ≡ s))
        ⊎ ((from : ℕ) × (to : ℕ) × (db.course_id from_code s ≡ some from)
            × (db.course_id to_code s ≡ some to)
            × ((is_done result.0 ≡ true)
                ⊎ ((result.0 ≡ raised) × (broken commit ≡ true) × (landed ≡ true)))
            × ((c : ℕ) → rows c result.1 ≡ shifted from to c (rows c s)))
  unfolding transfer Between
  transfer_atomic laws student from_code to_code s =
      if_both (Between from_code to_code s)
        (broken begin || (broken select_from || broken select_to)) _ _ (inl (refl, refl))
        (after_select-Between laws student from_code to_code s _ _ refl refl)
