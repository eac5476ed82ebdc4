-- ===== src/KvNode/Convergence.antt =====
-- Strong eventual consistency of kv_node.py: replicas that received the same records agree,
-- whatever the order and the number of the deliveries.
use system_design_course.Common.{
  Option-cases, In, Text, text_eq_iff, Dict, lookup, ◌≡◌, refl, sym, ap, ◌∙◌, ◌⊎◌, inl, inr, false,
  Option, none, some, [], ◌∷◌,
}
use system_design_course.KvNode.Version.{
  Version, Record, version_gt, version_gt_total, version_ngt_trans,
}
use mathlib.Core.Path.{subst}
use system_design_course.KvNode.Store.{Config, Store, init, apply}
use system_design_course.KvNode.Sync.{apply_all}
use system_design_course.KvNode.Merge.{apply_covers, apply_origin, apply_monotone}

-- The record that a key holds is at least as new as the given one.
abbrev pub Covers : Dict Record → Text → Record → Type 0
Covers d key r =
    (new : Record) × (lookup key d ≡ some new) × (version_gt r.version new.version ≡ false)

-- What a client can see of a record.
abbrev pub content : Record → Text × Version
content r = (r.value, r.version)

pub Covers-apply :
    (key j : Text) (r old : Record) (s : Store)
    → Covers s.entries j old
    → Covers (apply key r s).1.entries j old
Covers-apply key j r old s (cur, found, le) =
    let (new, found', le') = apply_monotone key j r cur s found in
    (new, found', version_ngt_trans old.version cur.version new.version le le')

pub Covers-apply_all :
    (items : Dict Record) (j : Text) (old : Record) (s : Store)
    → Covers s.entries j old
    → Covers (apply_all items s).1.entries j old
unfolding apply_all
Covers-apply_all [] j old s h = h
Covers-apply_all ((key, r) ∷ items) j old s h =
    Covers-apply_all items j old (apply key r s).1 (Covers-apply key j r old s h)

-- Every delivered record is covered.
pub delivered-Covers :
    (items : Dict Record) (key : Text) (r : Record) (s : Store)
    → In (key, r) items
    → Covers (apply_all items s).1.entries key r
unfolding apply_all
delivered-Covers [] key r s h = absurd h
delivered-Covers ((j, q) ∷ items) key r s (inl e) =
    Covers-apply_all items key r (apply j q s).1
      (subst (λ (x : Text × Record). Covers (apply j q s).1.entries x.0 x.1) e (apply_covers j q s))
delivered-Covers ((j, q) ∷ items) key r s (inr h) = delivered-Covers items key r (apply j q s).1 h

-- Every stored record was delivered or was there before.
pub stored_origin :
    (items : Dict Record) (key : Text) (new : Record) (s : Store)
    → lookup key (apply_all items s).1.entries ≡ some new
    → In (key, new) items ⊎ (lookup key s.entries ≡ some new)
unfolding apply_all
stored_origin [] key new s h = inr h
stored_origin ((j, q) ∷ items) key new s h = elim (stored_origin items key new (apply j q s).1 h) [
  | inl later ↦ inl (inr later)
  | inr now ↦ elim (apply_origin j key q new s now) [
    | inl here ↦ inl (inl (cc ((text_eq_iff j key).0 here.0, here.1)))
    | inr before ↦ inr before
  ]
]

-- Every item of the first list has one with the same key, value and version in the second.
abbrev pub Within : Dict Record → Dict Record → Type 0
Within xs ys =
    (key : Text) (r : Record)
    → In (key, r) xs
    → (q : Record) × In (key, q) ys × (content r ≡ content q)

-- For a key, a version stands for one value.
abbrev pub Unambiguous : Dict Record → Type 0
Unambiguous xs =
    (key : Text) (r q : Record)
    → In (key, r) xs
    → In (key, q) xs
    → r.version ≡ q.version
    → r.value ≡ q.value

-- What a read of the key shows.
unfoldable pub seen : Option Record → Option (Text × Version)
seen none = none
seen (some r) = some (content r)

module _ (cfg : Config) where
  init_origin :
      (items : Dict Record) (key : Text) (r : Record)
      → lookup key (apply_all items (init cfg)).1.entries ≡ some r
      → In (key, r) items
  unfolding init lookup
  init_origin items key r h = elim (stored_origin items key r (init cfg) h) [
    | inl delivered ↦ delivered
    | inr before ↦ absurd (cc before)
  ]

-- A delivered record is no newer than what the other replica holds.
replica-Covers :
    (cfg : Config) (xs ys : Dict Record) (key : Text) (r : Record)
    → Within xs ys
    → In (key, r) xs
    → Covers (apply_all ys (init cfg)).1.entries key r
replica-Covers cfg xs ys key r within h =
    let (q, inside, same) = within key r h in
    let (new, found, le) = delivered-Covers ys key q (init cfg) inside in
    (new, found, cc (le, ap (λ (c : Text × Version). c.1) same))

module _ (a b : Config) (xs ys : Dict Record) (to : Within xs ys) (back : Within ys xs) where
  same_record :
      Unambiguous xs
      → (key : Text) (r q : Record) → lookup key (apply_all xs (init a)).1.entries ≡ some r
      → lookup key (apply_all ys (init b)).1.entries ≡ some q
      → content r ≡ content q
  same_record one key r q hr hq =
      let r_in = init_origin a xs key r hr in
      let q_in = init_origin b ys key q hq in
      let (q', q'_found, q'_le) = replica-Covers b xs ys key r to r_in in
      let (r', r'_found, r'_le) = replica-Covers a ys xs key q back q_in in
      let (p, p_in, p_same) = back key q q_in in
      let versions : r.version ≡ q.version =
        version_gt_total r.version q.version (cc (q'_le, q'_found, hq))
          (cc (r'_le, r'_found, hr)) in
      let p_version : p.version ≡ q.version = sym (ap (λ (c : Text × Version). c.1) p_same) in
      let values : r.value ≡ p.value = one key r p r_in p_in (versions ∙ sym p_version) in
      let p_value : p.value ≡ q.value = sym (ap (λ (c : Text × Version). c.0) p_same) in
      cc (values ∙ p_value, versions)

  missing_both :
      (key : Text)
      → lookup key (apply_all xs (init a)).1.entries ≡ none
      → lookup key (apply_all ys (init b)).1.entries ≡ none
  missing_both key h = elim (Option-cases (lookup key (apply_all ys (init b)).1.entries)) [
    | inl missing ↦ missing
    | inr (q, found) ↦
        let (r, r_found, _) = replica-Covers a ys xs key q back (init_origin b ys key q found) in
        absurd (cc (h, r_found))
  ]

-- Two replicas that start empty and receive the same records, each in any order and any number of
-- times, show the same value and version for every key, if a version stands for one value of a key.
pub convergence :
    (a b : Config) (xs ys : Dict Record)
    → Within xs ys
    → Within ys xs
    → Unambiguous xs
    → (key : Text)
    → seen (lookup key (apply_all xs (init a)).1.entries)
      ≡ seen (lookup key (apply_all ys (init b)).1.entries)
unfolding seen
convergence a b xs ys to back one key =
    elim (Option-cases (lookup key (apply_all xs (init a)).1.entries)) [
      | inl missing ↦ rw (missing, missing_both a b xs ys to back key missing) refl
      | inr (r, found) ↦
          let (q, q_found, _) = replica-Covers b xs ys key r to (init_origin a xs key r found) in
          rw (found, q_found) (ap some (same_record a b xs ys to back one key r q found q_found))
    ]
