-- ===== src/Visualizer/Tests.antt =====
-- A transfer between two courses, on a database that keeps two numbers for each course: its rows and its
-- column.
use system_design_course.Common.{
  ◌==◌, if◌then◌else◌, codes, text_eq, ℕ, ◌+◌, ◌-◌, ◌≡◌, refl, ◌⊎◌, Bool, true, false, some, arith,
}
use system_design_course.Visualizer.Transfer.{
  Statement, Database, finish, after_insert, move, after_select, transfer, IsDatabase, commit,
  raised,
}
use system_design_course.Visualizer.Atomic.{is_done, shifted, transfer_atomic}
use system_design_course.Visualizer.Consistent.{InStep, transfer-InStep}

record Tables : Type 0 where
  row_count : ℕ → ℕ
  column : ℕ → ℕ

abbrev change : (ℕ → ℕ) → ℕ → (ℕ → ℕ) → ℕ → ℕ
change f course new c = if c == course then new (f c) else f c

abbrev delete_one : ℕ → Tables → ℕ × Tables
delete_one course s =
    let n = if s.row_count course == 0 then 0 else 1 in
    (n, record s { row_count = change s.row_count course (λ k. k - n) })

abbrev counts : Database Tables
counts = record {
  course_id = λ code s. if text_eq code (codes "CS101") then some 1 else some 2;
  delete_enrollment = λ student course s. delete_one course s;
  decrement = λ course s. record s { column = change s.column course (λ k. k - 1) };
  insert_enrollment =
      λ student course s. some (record s { row_count = change s.row_count course (λ k. k + 1) });
  increment = λ course s. record s { column = change s.column course (λ k. k + 1) };
}

abbrev rows_of : ℕ → Tables → ℕ
rows_of c s = s.row_count c

abbrev column_of : ℕ → Tables → ℕ
column_of c s = s.column c

counts-IsDatabase : IsDatabase counts rows_of column_of
counts-IsDatabase = record {
  deleted_rows = λ student course c s. refl;
  deleted_count = λ student course s. (ground arith, ground arith);
  deleted_enrolled = λ student course c s. refl;
  decrement_rows = λ course c s. refl;
  decrement_enrolled = λ course c s. refl;
  inserted_rows = λ student course c s s' e. ground (arith, e);
  inserted_enrolled = λ student course c s s' e. ground (arith, e);
  increment_rows = λ course c s. refl;
  increment_enrolled = λ course c s. refl;
}

abbrev three_each : Tables
three_each = record { row_count = λ c. 3; column = λ c. 3 }

abbrev nothing_broken : Statement → Bool
nothing_broken st = false

moved_one :
    let s =
      (transfer counts nothing_broken false 7 (codes "CS101") (codes "PHYS101") three_each).1 in
    (s.row_count 1 ≡ 2) × (s.column 1 ≡ 2) × (s.row_count 2 ≡ 4) × (s.column 2 ≡ 4)
unfolding transfer after_select move after_insert finish text_eq
moved_one = (refl, refl, refl, refl)

transfer-InStep_example :
    InStep counts nothing_broken false rows_of column_of
      (transfer counts nothing_broken false 7 (codes "CS101") (codes "PHYS101") three_each).1
unfolding InStep
transfer-InStep_example =
    transfer-InStep counts nothing_broken false rows_of column_of counts-IsDatabase 7
      (codes "CS101") (codes "PHYS101") three_each (λ c. refl)

transfer_atomic_example :
    let result =
      transfer counts nothing_broken false 7 (codes "CS101") (codes "PHYS101") three_each in
    ((is_done result.0 ≡ false) × (result.1 ≡ three_each))
    ⊎ ((from : ℕ) × (to : ℕ) × (counts.course_id (codes "CS101") three_each ≡ some from)
        × (counts.course_id (codes "PHYS101") three_each ≡ some to)
        × ((is_done result.0 ≡ true)
            ⊎ ((result.0 ≡ raised) × (nothing_broken commit ≡ true) × (false ≡ true)))
        × ((c : ℕ) → rows_of c result.1 ≡ shifted from to c 3))
transfer_atomic_example =
    transfer_atomic counts nothing_broken false rows_of column_of counts-IsDatabase 7
      (codes "CS101") (codes "PHYS101") three_each
