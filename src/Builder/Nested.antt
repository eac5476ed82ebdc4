-- ===== src/Builder/Nested.antt =====
-- The groups of a puzzle that build.py accepts: each lies inside all its ancestors, and the chain of
-- ancestors ends.
use mathlib.Core.Path.{subst}
use system_design_course.Common.{
  leb, Bool-cases, Option-cases, length, In, All-In, concat_map, when, Text, text_eq, text_eq_iff,
  Dict, lookup, insert, lookup-insert, ℕ, zero, suc, ◌+◌, ◌≤◌, ◌<◌, ◌≡◌, refl, sym, ap, ◌∙◌, ◌≢◌,
  ◌⊎◌, inl, inr, false, Option, none, some, List, [], ◌∷◌, arith,
}
use system_design_course.Builder.Puzzle.{Area, Group, Puzzle, index_onto, index_by}
use system_design_course.Builder.Problem.{
  Clean, Clean-append, Clean-concat_map, Clean-when, parent_cycle, margins,
}
use system_design_course.Builder.Geometry.{breaks_margins, chain_from, chain}
use system_design_course.Builder.Layout.{some_id, check_margins, check_nesting, check_geometry}
use system_design_course.Builder.Spaced.{geometry_parts}

-- A chain shorter than its guard is not cut: with any larger guard it is the same.
chain_step-longer :
    (n more : ℕ) (groups : Dict Group) (gid : Option Text)
    → length (chain_from (suc n) groups gid) < suc n
    → ((gid' : Option Text)
        → length (chain_from n groups gid') < n
        → chain_from (more + n) groups gid' ≡ chain_from n groups gid')
    → chain_from (suc (more + n)) groups gid ≡ chain_from (suc n) groups gid
unfolding chain_from
chain_step-longer n more groups none h ih = refl
chain_step-longer n more groups (some id) h ih = elim (Option-cases (lookup id groups)) [
  | inl e ↦ ground (arith, e)
  | inr (g, e) ↦ ground (arith, e, h, ih g.parent)
]

chain_from-longer :
    (n more : ℕ) (groups : Dict Group) (gid : Option Text)
    → length (chain_from n groups gid) < n
    → chain_from (more + n) groups gid ≡ chain_from n groups gid
unfolding chain_from
chain_from-longer zero more groups gid h = absurd (omega arith)
chain_from-longer (suc n) more groups gid h =
    let count : suc (more + n) ≡ more + suc n = omega arith in
    subst (λ k. chain_from k groups gid ≡ chain_from (suc n) groups gid) count
      (chain_step-longer n more groups gid h (chain_from-longer n more groups))

-- a lies inside b.
pub Within : Area → Area → Type 0
Within a b = (b.c ≤ a.c) × (a.c + a.w ≤ b.c + b.w) × (b.r ≤ a.r) × (a.r + a.h ≤ b.r + b.h)

Within-refl : (a : Area) → Within a a
unfolding Within
Within-refl a = (omega arith, omega arith, omega arith, omega arith)

Within-trans : (a b c : Area) → Within a b → Within b c → Within a c
unfolding Within
Within-trans a b c h k = (omega arith, omega arith, omega arith, omega arith)

margins-Within : (a b : Area) → breaks_margins a b ≡ false → Within a b
unfolding breaks_margins Within
margins-Within a b h = (ground (arith, h), ground (arith, h), ground (arith, h), ground (arith, h))

lookup-onto :
    {A : Type 0} (key : A → Text) (k : Text) (v : A) (d : Dict A) (xs : List A)
    → lookup k (index_onto key d xs) ≡ some v
    → (In v xs × (key v ≡ k)) ⊎ (lookup k d ≡ some v)
unfolding index_onto
lookup-onto key k v d [] h = inr h
lookup-onto key k v d (x ∷ xs) h = elim (lookup-onto key k v (insert (key x) x d) xs h) [
  | inl (w, e) ↦ inl (inr w, e)
  | inr found ↦ elim (Bool-cases (text_eq (key x) k)) [
    | inl e ↦
        let same : x ≡ v = ground (arith, found, e, lookup-insert (key x) k x d) in
        inl (inl same, ap key (sym same) ∙ (text_eq_iff (key x) k).0 e)
    | inr e ↦ inr (ground (arith, found, e, lookup-insert (key x) k x d))
  ]
]

pub lookup-index_by :
    {A : Type 0} (key : A → Text) (k : Text) (v : A) (xs : List A)
    → lookup k (index_by key xs) ≡ some v
    → In v xs × (key v ≡ k)
unfolding index_by lookup
lookup-index_by key k v xs h = elim (lookup-onto key k v [] xs h) [
  | inl found ↦ found
  | inr e ↦ absurd (cc e)
]

-- The group of an id lies inside the group of its parent's id.
ParentHolds : Dict Group → Type 0
ParentHolds groups =
    (g h : Group) (id : Text)
    → (gid : Text) → lookup gid groups ≡ some g
    → g.parent ≡ some id
    → lookup id groups ≡ some h
    → Within g.cell h.cell

chain_from-none : (n : ℕ) (groups : Dict Group) (k : Text) → ¬ In k (chain_from n groups none)
unfolding chain_from
chain_from-none zero groups k w = w
chain_from-none (suc n) groups k w = w

chain_from-lost :
    (n : ℕ) (groups : Dict Group) (id k : Text)
    → lookup id groups ≡ none
    → ¬ In k (chain_from n groups (some id))
unfolding chain_from
chain_from-lost zero groups id k e w = w
chain_from-lost (suc n) groups id k e w =
    let empty : chain_from (suc n) groups (some id) ≡ [] = ground (arith, e) in
    subst (λ ks. In k ks) empty w

chain_from-step :
    (n : ℕ) (groups : Dict Group) (id : Text) (g : Group)
    → lookup id groups ≡ some g
    → chain_from (suc n) groups (some id) ≡ id ∷ chain_from n groups g.parent
unfolding chain_from
chain_from-step n groups id g e = ground (arith, e)

check_nesting-short :
    (groups : Dict Group) (g : Group)
    → Clean (check_nesting groups g)
    → length (chain groups g.id) < 50
unfolding check_nesting check_margins
check_nesting-short groups g h =
    let (cycle, margin) =
      Clean-append (when (leb 50 (length (chain groups g.id))) (parent_cycle g.id))
        (check_margins groups g) h in
    ground (arith, Clean-when (leb 50 (length (chain groups g.id))) (parent_cycle g.id) refl cycle)

check_nesting-Within :
    (groups : Dict Group) (g h : Group) (id : Text)
    → some_id g.parent ≡ some id
    → lookup id groups ≡ some h
    → Clean (check_nesting groups g)
    → Within g.cell h.cell
unfolding check_nesting check_margins
check_nesting-Within groups g h id e f clean =
    let (cycle, margin) =
      Clean-append (when (leb 50 (length (chain groups g.id))) (parent_cycle g.id))
        (check_margins groups g) clean in
    let own : Clean (when (breaks_margins g.cell h.cell) (margins g.id h.id)) =
      ground (arith, e, f, margin) in
    margins-Within g.cell h.cell
      (Clean-when (breaks_margins g.cell h.cell) (margins g.id h.id) refl own)

some_id-cons : (id : Text) → id ≢ [] → some_id (some id) ≡ some id
some_id-cons [] h = absurd (h refl)
some_id-cons (c ∷ cs) h = refl

nesting-ParentHolds :
    (p : Puzzle)
    → let groups = index_by Group.id p.groups in
      lookup [] groups ≡ none
      → Clean (concat_map (check_nesting groups) p.groups)
      → ParentHolds groups
unfolding ParentHolds
nesting-ParentHolds p no_empty nesting g h id gid found parent found' =
    let groups = index_by Group.id p.groups in
    let (member, key) = lookup-index_by Group.id gid g p.groups found in
    let own =
      All-In (λ x. Clean (check_nesting groups x)) g p.groups
        (Clean-concat_map (check_nesting groups) p.groups nesting) member in
    let named : id ≢ [] = λ e. cc (ap (λ i. lookup i groups) e, found', no_empty) in
    check_nesting-Within groups g h id (ap some_id parent ∙ some_id-cons id named) found' own

chain_from-Within :
    (n : ℕ) (groups : Dict Group) (id k : Text) (g anc : Group)
    → ParentHolds groups
    → lookup id groups ≡ some g
    → In k (chain_from n groups (some id))
    → lookup k groups ≡ some anc
    → Within g.cell anc.cell
unfolding chain_from ParentHolds
chain_from-Within zero groups id k g anc holds e w f = absurd w
chain_from-Within (suc n) groups id k g anc holds e w f =
    let step : chain_from (suc n) groups (some id) ≡ id ∷ chain_from n groups g.parent =
      chain_from-step n groups id g e in
    elim (subst (λ ks. In k ks) step w) [
      | inl same ↦
          let groups_eq : g ≡ anc = ground (arith, e, f, ap (λ i. lookup i groups) same) in
          subst (λ a. Within g.cell (Group.cell a)) groups_eq (Within-refl g.cell)
      | inr later ↦ elim (Option-cases g.parent) [
        | inl root ↦
            absurd
              (chain_from-none n groups k (subst (λ u. In k (chain_from n groups u)) root later))
        | inr (pid, has) ↦
            let later' = subst (λ u. In k (chain_from n groups u)) has later in
            elim (Option-cases (lookup pid groups)) [
              | inl lost ↦ absurd (chain_from-lost n groups pid k lost later')
              | inr (h, found) ↦
                  Within-trans g.cell h.cell anc.cell (holds g h pid id e has found)
                    (chain_from-Within n groups pid k h anc holds found later' f)
            ]
      ]
    ]

-- The group of every ancestor of a group, the group itself included, holds the group inside it, when
-- the layout raises no error. No group has the empty id.
pub ancestors-Within :
    (p : Puzzle) (g anc : Group) (id k : Text)
    → let groups = index_by Group.id p.groups in
      lookup [] groups ≡ none
      → Clean (check_geometry p)
      → lookup id groups ≡ some g
      → In k (chain groups id)
      → lookup k groups ≡ some anc
      → Within g.cell anc.cell
ancestors-Within p g anc id k no_empty clean e w f =
    chain_from-Within 50 (index_by Group.id p.groups) id k g anc
      (nesting-ParentHolds p no_empty (geometry_parts p clean).0) e w f

-- The chain of ancestors of a group ends before the limit of fifty when the layout raises no error: a
-- larger limit gives the same chain.
pub chain_ends :
    (p : Puzzle) (g : Group) (more : ℕ)
    → Clean (check_geometry p)
    → In g p.groups
    → let groups = index_by Group.id p.groups in
      chain_from (more + 50) groups (some g.id) ≡ chain groups g.id
chain_ends p g more clean w =
    let groups = index_by Group.id p.groups in
    let nesting = Clean-concat_map (check_nesting groups) p.groups (geometry_parts p clean).0 in
    let own = All-In (λ h. Clean (check_nesting groups h)) g p.groups nesting w in
    chain_from-longer 50 more groups (some g.id) (check_nesting-short groups g own)
