-- ===== src/Builder/Filled.antt =====
-- `normalize` of puzzles whose palettes raise no error.
use system_design_course.Common.{
  Bool-cases, Option-cases, is_some, In, All, All-append, concat_map, All-split, All-map, Text,
  codes, text_eq, text_eq_iff, among, Dict, lookup, has_key, insert, lookup-insert, ◌≡◌, refl, inl,
  inr, Bool, true, ◌||◌, Option, none, some, List, [], ◌∷◌, map, arith,
}
use mathlib.Core.Path.{subst}
use system_design_course.Builder.Entries.{All-lookup}
use system_design_course.Builder.Puzzle.{Node, Slot, Tile, Puzzle, Service, Context}
use system_design_course.Builder.Problem.{
  Clean, Clean-append, Clean-concat_map, Clean-error, unknown_icon,
}
use system_design_course.Builder.Palette.{
  palette_onto, palette_of, needs, check_answer, check_other, check_icon, icons_of, check_palette,
}
use system_design_course.Builder.Difficulty.{score_of}
use system_design_course.Builder.Overlay.{Overlay}
use system_design_course.Builder.Unique.{answer-uses}
use system_design_course.Builder.Bounds.{difficulty_total}
use system_design_course.Builder.Output.{
  or_default, fill_slot, fill_slots, fill_tile, fill_node, Normalized, final_level, without_id,
  fill_puzzle, normalize, is_chosen, normalize_all, puzzle_icons,
}

palette_onto-key :
    (k : Text) (pal : Dict Tile) (ts : List Tile)
    → has_key k (palette_onto pal ts).1 ≡ (among k (map Tile.service ts) || has_key k pal)
unfolding palette_onto among has_key
palette_onto-key k pal [] = ground arith
palette_onto-key k pal (t ∷ ts) =
    ground (arith, palette_onto-key k (insert t.service t pal) ts, lookup-insert t.service k t pal)

icon_known :
    (ctx : Context) (cloud : Text) (e : Text × Text)
    → Clean (check_icon ctx cloud e)
    → has_key e.1 ctx.services ≡ true
unfolding check_icon has_key
icon_known ctx cloud e h = elim (Option-cases (lookup e.1 ctx.services)) [
  | inl f ↦ Clean-error (unknown_icon e.0 e.1) refl (ground (arith, f, h))
  | inr (svc, f) ↦ ground (arith, f)
]

All-under {ℓ} :
    {A B : Type 0} (P : B → Type ℓ) (f : A → B) (xs : List A)
    → All P (map f xs)
    → All (λ x. P (f x)) xs
All-under P f [] h = tt
All-under P f (x ∷ xs) h = (h.0, All-under P f xs h.1)

-- Every icon of a puzzle whose palette raises no error is in the registry.
icons_known :
    (ctx : Context) (p : Puzzle)
    → Clean (check_palette ctx p)
    → All (λ n. has_key (Node.icon n) ctx.services ≡ true) p.nodes
      × All (λ t. has_key (Tile.service t) ctx.services ≡ true) p.palette
unfolding check_palette
icons_known ctx p h =
    let r1 = (Clean-append (palette_onto [] p.palette).0 _ h).1 in
    let r2 = (Clean-append (concat_map (check_answer (palette_of p)) (needs p)) _ r1).1 in
    let r3 = (Clean-append (concat_map (check_other (needs p)) (palette_of p)) _ r2).1 in
    let icons = All-map (icon_known ctx p.cloud) (icons_of p) (
      Clean-concat_map (check_icon ctx p.cloud) (icons_of p)
        (Clean-append (concat_map (check_icon ctx p.cloud) (icons_of p)) _ r3).0) in
    let known : Text × Text → Type 0 = λ e. has_key e.1 ctx.services ≡ true in
    let (nodes, tiles) = All-split known (map (λ n. (codes "nodo", Node.icon n)) p.nodes) _ icons in
    (All-under known _ p.nodes nodes, All-under known _ p.palette tiles)

known-among :
    (ctx : Context) (a : Text) (ts : List Tile)
    → All (λ t. has_key (Tile.service t) ctx.services ≡ true) ts
    → among a (map Tile.service ts) ≡ true
    → has_key a ctx.services ≡ true
unfolding among
known-among ctx a [] h e = absurd (cc e)
known-among ctx a (t ∷ ts) h e = elim (Bool-cases (text_eq t.service a)) [
  | inl f ↦ subst (λ i. has_key i ctx.services ≡ true) ((text_eq_iff t.service a).0 f) h.0
  | inr f ↦ known-among ctx a ts h.1 (ground (arith, e, f))
]

answer_known :
    (ctx : Context) (p : Puzzle) (s : Slot)
    → Clean (check_palette ctx p)
    → In s p.slots
    → has_key s.accept ctx.services ≡ true
unfolding has_key lookup
answer_known ctx p s h w =
    let answer = answer-uses ctx p s h w in
    let there : has_key s.accept (palette_of p) ≡ true = ground (arith, answer.1) in
    known-among ctx s.accept p.palette (icons_known ctx p h).1
      (ground (arith, there, palette_onto-key s.accept [] p.palette))

-- Each entry of the registry has a category.
unfoldable pub HasCategories : Context → Type 0
HasCategories ctx = All (λ e. is_some (Service.category e.1) ≡ true) ctx.services

slot_filled :
    (ctx : Context) (s : Slot)
    → HasCategories ctx
    → has_key s.accept ctx.services ≡ true
    → (s' : Slot) × (fill_slot ctx s ≡ some s')
unfolding fill_slot has_key HasCategories
slot_filled ctx s cats h = elim (Option-cases (lookup s.accept ctx.services)) [
  | inl f ↦ absurd (ground (arith, f, h))
  | inr (svc, f) ↦ elim (Option-cases svc.category) [
    | inl g ↦ absurd (
        ground (
          arith,
          g,
          All-lookup (λ i v. is_some (Service.category v) ≡ true) ctx.services s.accept svc cats f,
        ))
    | inr (c, g) ↦ (
      record s { category = or_default s.category c; label = or_default s.label [] },
      ground (arith, f, g),
    )
  ]
]

slots_filled :
    (ctx : Context) (ss : List Slot)
    → HasCategories ctx
    → ((s : Slot) → In s ss → has_key s.accept ctx.services ≡ true)
    → (ss' : List Slot) × (fill_slots ctx ss ≡ some ss')
unfolding fill_slots
slots_filled ctx [] cats h = ([], refl)
slots_filled ctx (s ∷ ss) cats h =
    let (s', e) = slot_filled ctx s cats (h s (inl refl)) in
    let (ss', e') = slots_filled ctx ss cats (λ a w. h a (inr w)) in
    (s' ∷ ss', ground (arith, e, e'))

-- The icons of what is published are in the registry.
abbrev pub IsKnown : Context → Text → Type 0
IsKnown ctx i = has_key i ctx.services ≡ true

nodes-IsKnown :
    (ctx : Context) (ns : List Node)
    → All (λ n. IsKnown ctx (Node.icon n)) ns
    → All (IsKnown ctx) (map Node.icon (map fill_node ns))
nodes-IsKnown ctx [] h = tt
nodes-IsKnown ctx (n ∷ ns) h = (h.0, nodes-IsKnown ctx ns h.1)

tiles-IsKnown :
    (ctx : Context) (answers : List Text) (ts : List Tile)
    → All (λ t. IsKnown ctx (Tile.service t)) ts
    → All (IsKnown ctx) (map Tile.service (map (fill_tile answers) ts))
tiles-IsKnown ctx answers [] h = tt
tiles-IsKnown ctx answers (t ∷ ts) h = (h.0, tiles-IsKnown ctx answers ts h.1)

normalized :
    (ctx : Context) (p : Puzzle) (overlay : Option Overlay)
    → HasCategories ctx
    → Clean (check_palette ctx p)
    → (n : Normalized) × (normalize ctx p overlay ≡ some n) × All (IsKnown ctx) (puzzle_icons n)
unfolding normalize
normalized ctx p overlay cats h =
    let (level, e, _, _, _) = difficulty_total ctx p in
    let (slots, f) = slots_filled ctx p.slots cats (λ s w. answer_known ctx p s h w) in
    let (nodes, tiles) = icons_known ctx p h in
    (
      record {
        puzzle = fill_puzzle p slots;
        score = score_of ctx p;
        level = final_level p.difficulty_override level;
        english = elim overlay [ none ↦ none | some texts ↦ some (without_id texts) ];
      },
      ground (arith, e, f),
      All-append (IsKnown ctx) _ _ (nodes-IsKnown ctx p.nodes nodes)
          (tiles-IsKnown ctx _ p.palette tiles),
    )

-- Puzzles that raise no error in their palettes.
pub puzzles_normalized :
    (ctx : Context) (published_only : Bool) (ps : List (Puzzle × Option Overlay))
    → HasCategories ctx
    → All (λ q. Clean (check_palette ctx q.0)) ps
    → (ns : List Normalized) × (normalize_all ctx published_only ps ≡ some ns)
      × All (IsKnown ctx) (concat_map puzzle_icons ns)
unfolding normalize_all concat_map
puzzles_normalized ctx published_only [] cats h = ([], refl, tt)
puzzles_normalized ctx published_only ((p, overlay) ∷ ps) cats h =
    let (ns, e, known) = puzzles_normalized ctx published_only ps cats h.1 in
    let (n, f, known') = normalized ctx p overlay cats h.0 in
    elim (Bool-cases (is_chosen published_only p)) [
      | inl c ↦ (
        n ∷ ns,
        ground (arith, e, f, c),
        All-append (IsKnown ctx) (puzzle_icons n) _ known' known,
      )
      | inr c ↦ (ns, ground (arith, e, c), known)
    ]
