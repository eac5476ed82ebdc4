-- ===== src/KvNode/Merge.antt =====
-- `Store.apply` of kv_node.py as a merge: the newer record of a key wins, whatever else happens.
use system_design_course.Common.{
  if◌then◌else◌, Bool-cases, Text, text_eq, text_eq_iff, text_eq_self, lookup, lookup-insert,
  lookup-insert_self, max, ◌≡◌, refl, ◌⊎◌, inl, inr, true, false, Option, none, some, arith,
}
use system_design_course.KvNode.Version.{
  Record, version_gt, is_newer, version_gt_irrefl, version_gt_asymm,
}
use system_design_course.KvNode.Store.{Store, apply}

-- The record that a key holds once `r` has been offered to it.
unfoldable pub newest : Record → Option Record → Record
newest r none = r
newest r (some current) = if version_gt r.version current.version then r else current

-- Last-writer-wins: after `apply` the key holds the newer of the two records, every other key is
-- as before, and the clock is at least the record's counter.
pub lookup-apply :
    (key j : Text) (r : Record) (s : Store)
    → lookup j (apply key r s).1.entries
      ≡ (if text_eq key j then some (newest r (lookup j s.entries)) else lookup j s.entries)
unfolding apply is_newer newest
lookup-apply key j r s = ground (arith, lookup-insert key j r s.entries, text_eq_iff key j)

pub clock-apply :
    (key : Text) (r : Record) (s : Store) → (apply key r s).1.clock ≡ max s.clock r.version.counter
unfolding apply
clock-apply key r s = ground arith

-- `apply` reports whether the key now holds the record that it did not hold before.
pub apply_reports :
    (key : Text) (r : Record) (s : Store) → (apply key r s).0 ≡ is_newer r (lookup key s.entries)
unfolding apply
apply_reports key r s = ground arith

-- A second delivery of the same record changes nothing and is reported as not applied.
apply_idem :
    (key : Text) (r : Record) (s : Store)
    → (apply key r (apply key r s).1) ≡ (false, (apply key r s).1)
unfolding apply is_newer
apply_idem key r s = ground (arith, lookup-insert_self key r s.entries, version_gt_irrefl r.version)

pub newest-ngt : (r old : Record) → version_gt old.version (newest r (some old)).version ≡ false
unfolding newest
newest-ngt r old = elim (Bool-cases (version_gt r.version old.version)) [
  | inl gt ↦ rw gt (version_gt_asymm r.version old.version gt)
  | inr ngt ↦ rw ngt (version_gt_irrefl old.version)
]

pub newest-ngt_self :
    (r : Record) (o : Option Record) → version_gt r.version (newest r o).version ≡ false
unfolding newest
newest-ngt_self r none = version_gt_irrefl r.version
newest-ngt_self r (some old) = elim (Bool-cases (version_gt r.version old.version)) [
  | inl gt ↦ rw gt (version_gt_irrefl r.version)
  | inr ngt ↦ rw ngt ngt
]

-- The key of an applied record holds a record that is not older.
pub apply_covers :
    (key : Text) (r : Record) (s : Store)
    → (new : Record) × (lookup key (apply key r s).1.entries ≡ some new)
      × (version_gt r.version new.version ≡ false)
apply_covers key r s = (
  newest r (lookup key s.entries),
  rw (lookup-apply key key r s, text_eq_self key) refl,
  newest-ngt_self r (lookup key s.entries),
)

-- Where a record of the store comes from.
pub apply_origin :
    (key j : Text) (r new : Record) (s : Store)
    → lookup j (apply key r s).1.entries ≡ some new
    → ((text_eq key j ≡ true) × (r ≡ new)) ⊎ (lookup j s.entries ≡ some new)
unfolding newest
apply_origin key j r new s h = ground (arith, lookup-apply key j r s)

-- No key ever goes back to an older record.
pub apply_monotone :
    (key j : Text) (r old : Record) (s : Store)
    → lookup j s.entries ≡ some old
    → (new : Record) × (lookup j (apply key r s).1.entries ≡ some new)
      × (version_gt old.version new.version ≡ false)
apply_monotone key j r old s h = elim (Bool-cases (text_eq key j)) [
  | inl same ↦ (newest r (some old), rw (lookup-apply key j r s, same, h) refl, newest-ngt r old)
  | inr other ↦ (old, rw (lookup-apply key j r s, other) h, version_gt_irrefl old.version)
]
