-- ===== src/Builder/Spaced.antt =====
-- The layout of a puzzle that build.py accepts: what lies apart and what lies inside what.
use system_design_course.Common.{
  Bool-cases, All, concat_map, when, All-map, Text, among, ◌+◌, ◌*◌, ◌≤◌, ◌≡◌, refl, ◌⊎◌, inl, inr,
  true, false, not, ◌||◌, List, [], ◌∷◌, arith,
}
use system_design_course.Builder.Puzzle.{Cell, Group, Puzzle, index_by}
use system_design_course.Builder.Problem.{
  Problem, Clean, Clean-append, Clean-concat_map, Clean-when, Clean-error, item_outside,
  unknown_group, not_in_group, in_other_group, items_overlap,
}
use system_design_course.Builder.Geometry.{
  unit, node_box, group_rect, crossing, half_unit, inside, overlap,
}
use system_design_course.Builder.Layout.{
  check_nesting, check_pairs, Item, items, check_borders, check_against, on_grid, allowed_of,
  group_known, group_name, check_place, check_item, check_apart, check_geometry,
}

-- The relation holds of each element and each later one.
unfoldable pub Pairs : {A : Type 0} → (A → A → Type 0) → List A → Type 0
Pairs R [] = Unit
Pairs R (x ∷ xs) = All (R x) xs × Pairs R xs

check_pairs-Pairs :
    {A : Type 0} (check : A → A → List Problem) (xs : List A)
    → Clean (check_pairs check xs)
    → Pairs (λ x y. Clean (check x y)) xs
unfolding check_pairs Pairs
check_pairs-Pairs check [] h = tt
check_pairs-Pairs check (x ∷ xs) h =
    let (first, later) = Clean-append _ _ h in
    (Clean-concat_map (check x) xs first, check_pairs-Pairs check xs later)

-- Two cells whose boxes overlap by less than two units across or less than two units down: the columns
-- differ by 106 units or the rows by 102.
pub Apart : Cell → Cell → Type 0
Apart a b =
    ((a.c * 120 + 106 * unit ≤ b.c * 120) ⊎ (b.c * 120 + 106 * unit ≤ a.c * 120))
    ⊎ ((a.r * 112 + 102 * unit ≤ b.r * 112) ⊎ (b.r * 112 + 102 * unit ≤ a.r * 112))

not_overlap : (a b : Cell) → overlap (node_box a) (node_box b) (2 * unit) ≡ false → Apart a b
unfolding overlap node_box Apart
not_overlap a b h = ground (arith, h)

check_apart-Apart : (a b : Item) → Clean (check_apart a b) → Apart a.cell b.cell
unfolding check_apart Apart
check_apart-Apart a b h =
    let free =
      Clean-when (overlap (node_box a.cell) (node_box b.cell) (2 * unit)) (items_overlap a.id b.id)
        refl h in
    not_overlap a.cell b.cell free

All-Pairs :
    {A : Type 0} {P Q : A → A → Type 0} (f : (a b : A) → P a b → Q a b) (xs : List A)
    → Pairs P xs
    → Pairs Q xs
unfolding Pairs
All-Pairs f [] h = tt
All-Pairs f (x ∷ xs) h = (All-map (f x) xs h.0, All-Pairs f xs h.1)

-- The five parts of the layout check.
pub geometry_parts :
    (p : Puzzle)
    → Clean (check_geometry p)
    → let groups = index_by Group.id p.groups in
      Clean (concat_map (check_nesting groups) p.groups)
      × Clean (concat_map (check_item p groups) (items p))
      × Clean (check_pairs check_apart (items p))
unfolding check_geometry
geometry_parts p h =
    let (each, rest) = Clean-append _ _ h in
    let (nesting, rest') = Clean-append _ _ rest in
    let (siblings, rest'') = Clean-append _ _ rest' in
    let (placed, apart) = Clean-append _ _ rest'' in (nesting, placed, apart)

-- No two nodes or slots of a puzzle whose layout raises no error cover each other: their columns
-- differ by 106 units or their rows by 102.
pub items-Apart :
    (p : Puzzle) → Clean (check_geometry p) → Pairs (λ x y. Apart x.cell y.cell) (items p)
items-Apart p h =
    let (nesting, placed, apart) = geometry_parts p h in
    All-Pairs (λ a b c. check_apart-Apart a b c) (items p)
      (check_pairs-Pairs check_apart (items p) apart)

-- An item lies on the grid, inside its group and every ancestor of that, and inside no other group but
-- one of a crossing kind.
pub IsBeside : Item → List Text → Group → Type 0
IsBeside x allowed g =
    let inner = inside (node_box x.cell) (group_rect g.cell) half_unit in
    ((not (among g.id allowed) || inner) ≡ true)
    × ((among g.id allowed || (among g.kind crossing || not inner)) ≡ true)

pub IsPlaced : Puzzle → Item → Type 0
IsPlaced p x =
    (on_grid p x.cell ≡ true)
    × All (IsBeside x (allowed_of (index_by Group.id p.groups) x)) p.groups

check_against-IsBeside :
    (x : Item) (allowed : List Text) (g : Group)
    → Clean (check_against x allowed g)
    → IsBeside x allowed g
unfolding check_against check_borders IsBeside
check_against-IsBeside x allowed g h =
    let inner = inside (node_box x.cell) (group_rect g.cell) half_unit in
    let (first, label) = Clean-append (check_borders x allowed g) _ h in
    elim (Bool-cases (among g.id allowed)) [
      | inl a ↦
          let own : Clean (when (not inner) (not_in_group x.id g.id)) = ground (arith, a, first) in
          let i = Clean-when (not inner) (not_in_group x.id g.id) refl own in
          (ground (arith, a, i), ground (arith, a))
      | inr a ↦ elim (Bool-cases (among g.kind crossing)) [
        | inl c ↦ (ground (arith, a), ground (arith, a, c))
        | inr c ↦ elim (Bool-cases inner) [
          | inl i ↦ Clean-error (in_other_group x.id g.id) refl (ground (arith, a, c, i, first))
          | inr i ↦ (ground (arith, a), ground (arith, a, c, i))
        ]
      ]
    ]

check_item-IsPlaced :
    (p : Puzzle) (x : Item) → Clean (check_item p (index_by Group.id p.groups) x) → IsPlaced p x
unfolding check_item check_place IsPlaced
check_item-IsPlaced p x h =
    let groups = index_by Group.id p.groups in
    let (decimals, rest) = Clean-append _ (check_place p groups x) h in
    elim (Bool-cases (on_grid p x.cell)) [
      | inr off ↦ Clean-error (item_outside x.id) refl (ground (arith, off, rest))
      | inl on ↦ elim (Bool-cases (group_known groups x)) [
        | inr lost ↦
            Clean-error (unknown_group x.id (group_name x)) refl (ground (arith, on, lost, rest))
        | inl known ↦
            let against : Clean (concat_map (check_against x (allowed_of groups x)) p.groups) =
              ground (arith, on, known, rest) in
            (
              on,
              All-map (check_against-IsBeside x (allowed_of groups x)) p.groups
                  (Clean-concat_map (check_against x (allowed_of groups x)) p.groups against),
            )
      ]
    ]

-- Every node and slot of a puzzle whose layout raises no error is placed so.
pub items-IsPlaced : (p : Puzzle) → Clean (check_geometry p) → All (IsPlaced p) (items p)
items-IsPlaced p h =
    let (nesting, placed, apart) = geometry_parts p h in
    All-map (check_item-IsPlaced p) (items p)
      (Clean-concat_map (check_item p (index_by Group.id p.groups)) (items p) placed)
