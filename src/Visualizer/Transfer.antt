-- ===== src/Visualizer/Transfer.antt =====
-- server.py, `consistency_transfer`, after the fields of its body are read. MySQL is outside: a database
-- is its state with the statements of the transaction, and `IsDatabase` is what they promise.
-- `broken` says which statement raises an exception; a COMMIT that raises may have been carried out all
-- the same (`landed`), since its answer can be lost. Times, rendered SQL and the texts that explain are left out.
use system_design_course.Common.{
  ◌==◌, if◌then◌else◌, Text, ℕ, ◌+◌, ◌-◌, ◌≤◌, ◌≡◌, Bool, ◌||◌, Option, none, some, List, [], ◌∷◌,
}

pub data Statement : Type 0 where
  begin select_from select_to delete_row update_from insert_row update_to commit rollback :
      Statement

-- The statements of the program, with its WHERE clauses: the id of a course by its code, the number of
-- rows deleted, `enrolled - 1` where it is above 0, the row inserted or an IntegrityError, `enrolled + 1`.
pub record Database (S : Type 0) : Type 0 where
  pub course_id : Text → S → Option ℕ
  pub delete_enrollment : ℕ → ℕ → S → ℕ × S
  pub decrement : ℕ → S → S
  pub insert_enrollment : ℕ → ℕ → S → Option S
  pub increment : ℕ → S → S

pub data Action : Type 0 where
  began deleted counted_down inserted counted_up rolled_back committed : Action

pub data Status : Type 0 where
  ok not_enrolled violation : Status

-- A step of the reply: its number, what it did and its status.
pub record Step : Type 0 where
  pub seq : ℕ
  pub action : Action
  pub status : Status

pub data Outcome : Type 0 where
  raised course_missing : Outcome
  undone done : List Step → Outcome

abbrev pub step : ℕ → Action → Status → Step
step seq action status = record { seq = seq; action = action; status = status }

-- A transaction: what the database keeps without it, and what its own statements see.
pub record Session (S : Type 0) : Type 0 where
  pub durable : S
  pub working : S

module _ {S : Type 0} where
  abbrev pub begin_at : S → Session S
  begin_at s = record { durable = s; working = s }

  abbrev pub wrote : S → Session S → Session S
  wrote s t = record t { working = s }

  abbrev pub commit_work : Session S → Session S
  commit_work t = record t { durable = t.working }

  abbrev pub roll_back : Session S → Session S
  roll_back t = record t { working = t.durable }

  -- The handler of exceptions: ROLLBACK and close.
  abbrev pub failed : Session S → Outcome × S
  failed t = (raised, (roll_back t).durable)

module _ {S : Type 0} (db : Database S) (broken : Statement → Bool) (landed : Bool) where
  -- ROLLBACK in the body of the transaction, with the steps to report.
  unfoldable pub undo : List Step → Session S → Outcome × S
  undo steps t = if broken rollback then failed t else (undone steps, (roll_back t).durable)

  unfoldable pub finish : List Step → Session S → Outcome × S
  finish steps t =
      if broken commit
      then (if landed then failed (commit_work t) else failed t)
      else (done steps, (commit_work t).durable)

  -- What follows the INSERT.
  unfoldable pub after_insert : ℕ → Session S → Option S → Outcome × S
  unfolding undo finish
  after_insert to t none =
      undo
        (step 1 began ok
          ∷ step 2 deleted ok
          ∷ step 3 counted_down ok
          ∷ step 4 inserted violation
          ∷ step 5 rolled_back ok
          ∷ [])
        t
  after_insert to t (some s3) =
      if broken update_to
      then failed (wrote s3 t)
      else finish
          (step 1 began ok
            ∷ step 2 deleted ok
            ∷ step 3 counted_down ok
            ∷ step 4 inserted ok
            ∷ step 5 counted_up ok
            ∷ step 6 committed ok
            ∷ [])
          (wrote (db.increment to s3) t)

  -- From the DELETE on.
  unfoldable pub move : ℕ → ℕ → ℕ → Session S → Outcome × S
  unfolding undo
  move student from to t =
      let (affected, s1) = db.delete_enrollment student from t.working in
      if broken delete_row
      then failed t
      else (if affected == 0
          then undo (step 1 began ok ∷ step 2 deleted not_enrolled ∷ step 3 rolled_back ok ∷ [])
              (wrote s1 t)
          else (if broken update_from || broken insert_row
              then failed (wrote s1 t)
              else after_insert to (wrote (db.decrement from s1) t)
                  (db.insert_enrollment student to (db.decrement from s1))))

  -- ROLLBACK where a course is not found.
  unfoldable pub no_course : Session S → Outcome × S
  no_course t = if broken rollback then failed t else (course_missing, (roll_back t).durable)

  -- The ids of the two courses, where their codes are known.
  unfoldable pub after_select : ℕ → Session S → Option ℕ → Option ℕ → Outcome × S
  unfolding no_course
  after_select student t none to = no_course t
  after_select student t (some from) none = no_course t
  after_select student t (some from) (some to) = move student from to t

  -- The outcome, and the state that the database keeps.
  unfoldable pub transfer : ℕ → Text → Text → S → Outcome × S
  transfer student from_code to_code s =
      if broken begin || (broken select_from || broken select_to)
      then failed (begin_at s)
      else after_select student (begin_at s) (db.course_id from_code s) (db.course_id to_code s)

-- What the statements do to the rows of `enrollments` of each course and to the column `enrolled`.
pub record IsDatabase {S : Type 0} (db : Database S) (rows enrolled : ℕ → S → ℕ) : Type 0 where
  pub deleted_rows :
      (student course c : ℕ) (s : S)
      → rows c (db.delete_enrollment student course s).1
        ≡ (if c == course then rows c s - (db.delete_enrollment student course s).0 else rows c s)
  pub deleted_count :
      (student course : ℕ) (s : S)
      → ((db.delete_enrollment student course s).0 ≤ 1)
        × ((db.delete_enrollment student course s).0 ≤ rows course s)
  pub deleted_enrolled :
      (student course c : ℕ) (s : S)
      → enrolled c (db.delete_enrollment student course s).1 ≡ enrolled c s
  pub decrement_rows : (course c : ℕ) (s : S) → rows c (db.decrement course s) ≡ rows c s
  pub decrement_enrolled :
      (course c : ℕ) (s : S)
      → enrolled c (db.decrement course s)
        ≡ (if c == course then enrolled c s - 1 else enrolled c s)
  pub inserted_rows :
      (student course c : ℕ) (s s' : S)
      → db.insert_enrollment student course s ≡ some s'
      → rows c s' ≡ (if c == course then rows c s + 1 else rows c s)
  pub inserted_enrolled :
      (student course c : ℕ) (s s' : S)
      → db.insert_enrollment student course s ≡ some s'
      → enrolled c s' ≡ enrolled c s
  pub increment_rows : (course c : ℕ) (s : S) → rows c (db.increment course s) ≡ rows c s
  pub increment_enrolled :
      (course c : ℕ) (s : S)
      → enrolled c (db.increment course s)
        ≡ (if c == course then enrolled c s + 1 else enrolled c s)
