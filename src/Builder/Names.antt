-- ===== src/Builder/Names.antt =====
-- build.py, `validate` 1 and 2: the ids of a puzzle, and the blanks {{sN}} in its requirements.
use system_design_course.Common.{
  ltb, ◌==◌, if◌then◌else◌, length, concat_map, when, Text, codes, text_eq, Dict, lookup, has_key,
  ℕ, Bool, true, false, not, ◌&&◌, Option, none, some, List, [], ◌∷◌, ◌++◌, map,
}
use system_design_course.Builder.Puzzle.{
  Group, Node, Slot, Edge, Requirement, Puzzle, Patterns, index_by, count_in, tally,
}
use system_design_course.Builder.Problem.{
  Problem, id_format, file_name, id_repeated, many_tokens, unknown_token, unknown_slot,
  wrong_tokens, stray_token, token_count, wrong_number,
}

-- The ids of groups, nodes, slots and edges, in the order in which they are counted.
abbrev pub all_ids : Puzzle → List Text
all_ids p =
    map Group.id p.groups ++ (map Node.id p.nodes ++ (map Slot.id p.slots ++ map Edge.id p.edges))

abbrev pub repeated_id : Text × ℕ → List Problem
repeated_id (id, n) = when (ltb 1 n) (id_repeated id n)

-- `stem` is the name of the file without its suffix, when it is known.
unfoldable pub check_ids : Puzzle → Option Text → List Problem
check_ids p stem =
    when (not (text_eq p.id (p.scenario ++ (codes "-" ++ p.cloud)))) (id_format p.id)
    ++ (elim stem [ none ↦ [] | some name ↦ when (not (text_eq name p.id)) (file_name name p.id) ]
        ++ concat_map repeated_id (tally (all_ids p)))

abbrev pub text_lists_eq : List Text → List Text → Bool
text_lists_eq [] [] = true
text_lists_eq [] (y ∷ ys) = false
text_lists_eq (x ∷ xs) [] = false
text_lists_eq (x ∷ xs) (y ∷ ys) = text_eq x y && text_lists_eq xs ys

abbrev is_empty {ℓ} : {A : Type ℓ} → List A → Bool
is_empty [] = true
is_empty (x ∷ xs) = false

-- The slot that a requirement names, against its blanks.
unfoldable pub check_target : Dict Slot → Requirement → List Text → List Problem
check_target slots r tokens = elim r.slot [
  | none ↦ when (not (is_empty tokens)) (stray_token r.n)
  | some sid ↦ elim (lookup sid slots) [
    | none ↦ unknown_slot r.n sid ∷ []
    | some s ↦
        if not (text_lists_eq tokens (sid ∷ []))
        then wrong_tokens r.n sid tokens ∷ []
        else when (not (s.number == r.n)) (wrong_number r.n sid s.number)
  ]
]

unfoldable pub check_requirement : Patterns → Dict Slot → Requirement → List Problem
check_requirement x slots r =
    let tokens = x.find_tokens r.text in
    when (ltb 1 (length tokens)) (many_tokens r.n (length tokens))
    ++ (concat_map (λ t. when (not (has_key t slots)) (unknown_token r.n t)) tokens
        ++ check_target slots r tokens)

-- The blanks of all requirements, in order: `token_owner` has a list with one entry for each.
abbrev pub all_tokens : Patterns → Puzzle → List Text
all_tokens x p = concat_map (λ r. x.find_tokens r.text) p.requirements

abbrev pub count_tokens : Dict ℕ → Text × Slot → List Problem
count_tokens owners (sid, s) =
    when (not (count_in sid owners == 1)) (token_count sid (count_in sid owners))

unfoldable pub check_tokens : Patterns → Puzzle → List Problem
check_tokens x p =
    let slots = index_by Slot.id p.slots in
    concat_map (check_requirement x slots) p.requirements
    ++ concat_map (count_tokens (tally (all_tokens x p))) slots
