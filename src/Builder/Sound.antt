-- ===== src/Builder/Sound.antt =====
-- What a puzzle is that the commands of build.py let through: the specification that the checks
-- implement.
use system_design_course.Common.{
  leb, if◌then◌else◌, length, In, All, concat_map, All-map, Text, codes, text_eq, text_eq_iff,
  among, times, lookup, ℕ, ◌≤◌, ◌≡◌, refl, sym, ap, ◌∙◌, ◌≢◌, inl, inr, true, not, ◌&&◌, Option,
  some, List, [], ◌∷◌, ◌++◌, map, arith,
}
use system_design_course.Builder.Puzzle.{Slot, Edge, Tile, Puzzle, Patterns, Context}
use system_design_course.Builder.Problem.{
  errors, Clean, errors-Clean, Clean-append, Clean-concat_map, Clean-when, unknown_end, loop_edge,
}
use system_design_course.Builder.Names.{all_ids, check_ids, all_tokens, check_tokens}
use system_design_course.Builder.Palette.{uses_of, role_or_answer, palette_of, check_palette}
use system_design_course.Builder.Numbers.{
  count_number, diagram_numbers, requirement_numbers, check_numbers, arrow_ends, check_edge,
  steps_of, check_steps, check_edges,
}
use system_design_course.Builder.Layout.{items, check_geometry}
use system_design_course.Builder.Validate.{
  check_fields, validate, File, check_translation_file, check_file, cmd_validate, all_errors,
  admitted,
}
use system_design_course.Builder.Unique.{all_ids-times, slot-times, answer-uses}
use system_design_course.Builder.Permuted.{numbers_permuted, steps_counted}
use system_design_course.Builder.Spaced.{Pairs, Apart, items-Apart, IsPlaced, items-IsPlaced}
use system_design_course.Builder.Gate.{append_nil, all_errors-count_bad, cmd_validate-count_bad}

-- The arrow joins two different ends of the diagram.
pub IsJoined : List Text → Edge → Type 0
IsJoined ends e =
    (among e.source ends ≡ true) × (among e.target ends ≡ true) × (e.source ≢ e.target)

check_edge-IsJoined : (ends : List Text) (e : Edge) → Clean (check_edge ends e) → IsJoined ends e
unfolding check_edge IsJoined
check_edge-IsJoined ends e h =
    let (from_known, rest) = Clean-append _ _ h in
    let (to_known, rest') = Clean-append _ _ rest in
    let (straight, routed) = Clean-append _ _ rest' in
    let loop = Clean-when (text_eq e.source e.target) (loop_edge e.id) refl straight in
    (
      ground (
        arith,
        Clean-when (not (among e.source ends)) (unknown_end e.id e.source) refl from_known,
      ),
      ground
          (arith, Clean-when (not (among e.target ends)) (unknown_end e.id e.target) refl to_known),
      (λ same. cc (loop, (text_eq_iff e.source e.target).1 same)),
    )

-- The palette has the answer of the slot, as an answer, to be used as often as it answers a slot.
pub IsAnswered : Puzzle → Slot → Type 0
IsAnswered p s =
    (t : Tile) × (lookup s.accept (palette_of p) ≡ some t)
    × (uses_of t ≡ times s.accept (map Slot.accept p.slots))
    × (role_or_answer t ≡ codes "answer")

In-All : {A : Type 0} {P : A → Type 0} (xs : List A) → ((a : A) → In a xs → P a) → All P xs
In-All [] f = tt
In-All (x ∷ xs) f = (f x (inl refl), In-All xs (λ a w. f a (inr w)))

-- A consistent puzzle: its ids, blanks, numbers, steps and answers agree, and its parts do not cover
-- each other.
pub record IsConsistent (x : Patterns) (p : Puzzle) : Type 0 where
  pub ids_unique : (id : Text) → times id (all_ids p) ≤ 1
  pub one_blank : All (λ s. times (Slot.id s) (all_tokens x p) ≡ 1) p.slots
  pub same_numbers :
      (n : ℕ) → count_number n (diagram_numbers p) ≡ count_number n (requirement_numbers p)
  pub numbers_unique : (n : ℕ) → count_number n (requirement_numbers p) ≤ 1
  pub steps_in_order :
      (n : ℕ)
      → count_number n (steps_of p) ≡ (if leb 1 n && leb n (length (steps_of p)) then 1 else 0)
  pub arrows_joined : All (IsJoined (arrow_ends p)) p.edges
  pub answer_uses : All (IsAnswered p) p.slots
  pub items_apart : Pairs (λ a b. Apart a.cell b.cell) (items p)
  pub items_placed : All (IsPlaced p) (items p)

check_fields-IsConsistent :
    (ctx : Context) (p : Puzzle) (stem : Option Text)
    → Clean (check_fields ctx p stem)
    → IsConsistent ctx.patterns p
unfolding check_fields check_edges IsAnswered
check_fields-IsConsistent ctx p stem h =
    let (ids, r1) = Clean-append (check_ids p stem) _ h in
    let (tokens, r2) = Clean-append (check_tokens ctx.patterns p) _ r1 in
    let (palette, r3) = Clean-append (check_palette ctx p) _ r2 in
    let (numbers, r4) = Clean-append (check_numbers p) _ r3 in
    let (layout, r5) = Clean-append (check_geometry p) _ r4 in
    let (edges, r6) = Clean-append (check_edges p) _ r5 in
    let (joined, steps) =
      Clean-append (concat_map (check_edge (arrow_ends p)) p.edges) (check_steps (steps_of p))
        edges in
    record {
      ids_unique = λ id. all_ids-times p stem id ids;
      one_blank = In-All p.slots (λ s w. slot-times ctx.patterns p s tokens w);
      same_numbers = λ n. (numbers_permuted p n numbers).0;
      numbers_unique = λ n. (numbers_permuted p n numbers).1;
      steps_in_order = λ n. steps_counted (steps_of p) n steps;
      arrows_joined =
          All-map (check_edge-IsJoined (arrow_ends p)) p.edges
            (Clean-concat_map (check_edge (arrow_ends p)) p.edges joined);
      answer_uses = In-All p.slots (λ s w. answer-uses ctx p s palette w);
      items_apart = items-Apart p layout;
      items_placed = items-IsPlaced p layout;
    }

pub concat_map_nil :
    {A : Type 0} {B : Type 0} (f : A → List B) (a : A) (xs : List A)
    → concat_map f xs ≡ []
    → In a xs
    → f a ≡ []
unfolding concat_map
concat_map_nil f a [] h w = absurd w
concat_map_nil f a (x ∷ xs) h (inl e) = ap f (sym e) ∙ ((append_nil (f x) (concat_map f xs)).0 h).0
concat_map_nil f a (x ∷ xs) h (inr w) =
    concat_map_nil f a xs ((append_nil (f x) (concat_map f xs)).0 h).1 w

pub check_file-Clean :
    (ctx : Context) (f : File) (p : Puzzle)
    → f.puzzle ≡ some (admitted p)
    → errors (check_file ctx f) ≡ []
    → Clean (check_fields ctx p (some f.stem))
unfolding check_file validate
check_file-Clean ctx f p e h =
    let log = check_fields ctx p (some f.stem) in
    let translated = check_translation_file ctx (admitted p) f.translation log in
    let whole : errors (log ++ translated) ≡ [] = ground (arith, e, h) in
    (Clean-append log translated (errors-Clean (log ++ translated) whole)).0

-- If `validate` exits with 0, every puzzle among its files is consistent: no id is used twice; each
-- slot has one blank in the requirements; nodes and slots have just the numbers of the requirements,
-- each once; the steps of the arrows are 1 to their number, each once, and an arrow joins two
-- different items; the answer of a slot is in the palette as often as it is needed; no two items cover
-- each other, and each lies on the grid, inside its own groups and, but for groups of a crossing kind,
-- inside no other.
pub cmd_validate-IsConsistent :
    (ctx : Context) (files : List File) (f : File) (p : Puzzle)
    → cmd_validate ctx files ≡ 0
    → In f files
    → f.puzzle ≡ some (admitted p)
    → IsConsistent ctx.patterns p
unfolding all_errors
cmd_validate-IsConsistent ctx files f p h w e =
    let none_bad = (all_errors-count_bad ctx files).0 (cmd_validate-count_bad ctx files h) in
    let own = concat_map_nil (λ g. errors (check_file ctx g)) f files none_bad w in
    check_fields-IsConsistent ctx p (some f.stem) (check_file-Clean ctx f p e own)
