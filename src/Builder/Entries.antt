-- ===== src/Builder/Entries.antt =====
-- Facts about the entries of a dict that hold of every look-up, for the proofs on build.py.
use mathlib.Core.Path.{subst}
use system_design_course.Common.{
  Bool-cases, Option-cases, In, All, Text, text_eq, text_eq_iff, among, times, Dict, lookup,
  has_key, ℕ, ◌≤◌, ◌≡◌, ap, ◌∙◌, inl, inr, true, some, List, [], ◌∷◌, map, arith,
}
use system_design_course.Builder.Puzzle.{index_by, has_key-index_by, count_in}

-- What holds of every key holds of a key that is there.
pub All-has_key {ℓ κ} :
    {V : Type ℓ} (Q : Text → Type κ) (d : Dict V) (k : Text)
    → All (λ e. Q e.0) d
    → has_key k d ≡ true
    → Q k
unfolding has_key lookup
All-has_key Q [] k h i = absurd (cc i)
All-has_key Q ((j, v) ∷ d) k h i = elim (Bool-cases (text_eq j k)) [
  | inl e ↦ subst Q ((text_eq_iff j k).0 e) h.0
  | inr e ↦ All-has_key Q d k h.1 (ground (arith, e, i))
]

-- What holds of every entry holds of an entry that is found.
pub All-lookup {ℓ κ} :
    {V : Type ℓ} (Q : Text → V → Type κ) (d : Dict V) (k : Text) (v : V)
    → All (λ e. Q e.0 e.1) d
    → lookup k d ≡ some v
    → Q k v
unfolding lookup
All-lookup Q [] k v h i = absurd (cc i)
All-lookup Q ((j, w) ∷ d) k v h i = elim (Bool-cases (text_eq j k)) [
  | inl e ↦
      let same : w ≡ v = ground (arith, e, i) in
      subst (λ u. Q k u) same (subst (λ t. Q t w) ((text_eq_iff j k).0 e) h.0)
  | inr e ↦ All-lookup Q d k v h.1 (ground (arith, e, i))
]

pub among-In : (a : Text) (xs : List Text) → In a xs → among a xs ≡ true
unfolding among
among-In a [] w = absurd w
among-In a (x ∷ xs) (inl e) = ground (arith, (text_eq_iff x a).1 e)
among-In a (x ∷ xs) (inr w) = ground (arith, among-In a xs w)

pub In-map : {A : Type 0} (f : A → Text) (a : A) (xs : List A) → In a xs → In (f a) (map f xs)
In-map f a [] w = absurd w
In-map f a (x ∷ xs) (inl e) = inl (ap f e)
In-map f a (x ∷ xs) (inr w) = inr (In-map f a xs w)

-- The key of a member is in the index.
pub index_by-In :
    {A : Type 0} (key : A → Text) (a : A) (xs : List A)
    → In a xs
    → has_key (key a) (index_by key xs) ≡ true
index_by-In key a xs w =
    has_key-index_by key (key a) xs ∙ among-In (key a) (map key xs) (In-map key a xs w)

pub has_key-times : (k : Text) (xs : List Text) → among k xs ≡ true → 1 ≤ times k xs
unfolding among times
has_key-times k [] h = absurd (cc h)
has_key-times k (x ∷ xs) h = ground (arith, has_key-times k xs)

pub has_key-count_in : (k : Text) (d : Dict ℕ) → 1 ≤ count_in k d → has_key k d ≡ true
unfolding count_in has_key
has_key-count_in k d h = elim (Option-cases (lookup k d)) [
  | inl e ↦ ground (arith, e, h)
  | inr (n, e) ↦ ground (arith, e)
]
