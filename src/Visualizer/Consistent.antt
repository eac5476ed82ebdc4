-- ===== src/Visualizer/Consistent.antt =====
-- The transfer keeps the counts of the courses in step with the enrollments.
use system_design_course.Common.{
  ◌==◌, Bool-cases, if_both, Text, ℕ, ◌≡◌, refl, inl, inr, Bool, false, ◌||◌, Option, none, some,
  List, arith,
}
use system_design_course.Visualizer.Transfer.{
  Statement, Database, Step, Outcome, Session, begin_at, wrote, undo, finish, after_insert, move,
  no_course, after_select, transfer, IsDatabase, begin, select_from, select_to, delete_row,
  update_from, insert_row, update_to, commit, rollback,
}

module _ {S : Type 0} (db : Database S) (broken : Statement → Bool) (landed : Bool)
    (rows enrolled : ℕ → S → ℕ) where
  -- The column of each course is the number of its rows.
  unfoldable pub InStep : S → Type 0
  InStep s = (c : ℕ) → enrolled c s ≡ rows c s

  -- One row deleted and one off the column.
  moved_out :
      IsDatabase db rows enrolled
      → (student from : ℕ) (s : S) → InStep s
      → ((db.delete_enrollment student from s).0 == 0) ≡ false
      → InStep (db.decrement from (db.delete_enrollment student from s).1)
  unfolding InStep
  moved_out laws student from s h one c = ground (
    arith,
    one,
    h c,
    laws.deleted_rows student from c s,
    (laws.deleted_count student from s).0,
    laws.deleted_enrolled student from c s,
    laws.decrement_rows from c (db.delete_enrollment student from s).1,
    laws.decrement_enrolled from c (db.delete_enrollment student from s).1,
  )

  moved_in :
      IsDatabase db rows enrolled
      → (student to : ℕ) (s s' : S) → InStep s
      → db.insert_enrollment student to s ≡ some s'
      → InStep (db.increment to s')
  unfolding InStep
  moved_in laws student to s s' h e c = ground (
    arith,
    h c,
    laws.inserted_rows student to c s s' e,
    laws.inserted_enrolled student to c s s' e,
    laws.increment_rows to c s',
    laws.increment_enrolled to c s',
  )

  -- Whether it commits, is undone or raises, a transaction whose work is in step leaves a state that is.
  finish-InStep :
      (steps : List Step) (t : Session S)
      → InStep t.durable
      → InStep t.working
      → InStep (finish db broken landed steps t).1
  unfolding finish
  finish-InStep steps t h h2 =
      if_both {A = Outcome × S} (λ r. InStep r.1) (broken commit) _ _
        (if_both {A = Outcome × S} (λ r. InStep r.1) landed _ _ h2 h) h2

  undo-InStep :
      (steps : List Step) (t : Session S)
      → InStep t.durable
      → InStep (undo db broken landed steps t).1
  unfolding undo
  undo-InStep steps t h = if_both {A = Outcome × S} (λ r. InStep r.1) (broken rollback) _ _ h h

  after_insert-InStep :
      IsDatabase db rows enrolled
      → (student to : ℕ) (t : Session S) (o : Option S) → InStep t.durable
      → InStep t.working
      → db.insert_enrollment student to t.working ≡ o
      → InStep (after_insert db broken landed to t o).1
  unfolding after_insert
  after_insert-InStep laws student to t none h h2 e = undo-InStep _ t h
  after_insert-InStep laws student to t (some s3) h h2 e =
      if_both {A = Outcome × S} (λ r. InStep r.1) (broken update_to) _ _ h
        (finish-InStep _ (wrote (db.increment to s3) t) h
          (moved_in laws student to t.working s3 h2 e))

  move-InStep :
      IsDatabase db rows enrolled
      → (student from to : ℕ) (s : S) → InStep s
      → InStep (move db broken landed student from to (begin_at s)).1
  unfolding move
  move-InStep laws student from to s h =
      let (affected, s1) = db.delete_enrollment student from s in
      if_both {A = Outcome × S} (λ r. InStep r.1) (broken delete_row) _ _ h
        (elim (Bool-cases (affected == 0)) [
          | inl e ↦ rw e (undo-InStep _ (wrote s1 (begin_at s)) h)
          | inr e ↦ rw e (
              if_both {A = Outcome × S} (λ r. InStep r.1) (broken update_from || broken insert_row)
                _ _ h
                (after_insert-InStep laws student to (wrote (db.decrement from s1) (begin_at s)) _ h
                  (moved_out laws student from s h e) refl))
        ])

  after_select-InStep :
      IsDatabase db rows enrolled
      → (student : ℕ) (s : S) (from to : Option ℕ) → InStep s
      → InStep (after_select db broken landed student (begin_at s) from to).1
  unfolding after_select no_course
  after_select-InStep laws student s none to h =
      if_both {A = Outcome × S} (λ r. InStep r.1) (broken rollback) _ _ h h
  after_select-InStep laws student s (some from) none h =
      if_both {A = Outcome × S} (λ r. InStep r.1) (broken rollback) _ _ h h
  after_select-InStep laws student s (some from) (some to) h = move-InStep laws student from to s h

  -- If the column `enrolled` of each course is the number of its enrollments, so it is after a transfer,
  -- whichever way it ends: committed, undone, a course that is missing, or an exception at any statement,
  -- a COMMIT that was carried out all the same included.
  pub transfer-InStep :
      IsDatabase db rows enrolled
      → (student : ℕ) (from_code to_code : Text) (s : S) → InStep s
      → InStep (transfer db broken landed student from_code to_code s).1
  unfolding transfer
  transfer-InStep laws student from_code to_code s h =
      if_both {A = Outcome × S} (λ r. InStep r.1)
        (broken begin || (broken select_from || broken select_to)) _ _ h
        (after_select-InStep laws student s (db.course_id from_code s) (db.course_id to_code s) h)
