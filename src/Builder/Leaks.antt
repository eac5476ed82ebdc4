-- ===== src/Builder/Leaks.antt =====
-- build.py, `service_names` and `leaks`: no text of a puzzle may name an answer. Of two names of equal
-- length, the one that was found first is tried first.
use system_design_course.Common.{
  ltb, leb, if◌then◌else◌, length, concat_map, when, Text, codes, text_eq, starts_with, drop, among,
  Dict, lookup, insert, ◌+◌, not, ◌&&◌, none, some, List, [], ◌∷◌, ◌++◌, map,
}
use system_design_course.Builder.Puzzle.{Slot, Puzzle, Service, Patterns, Context}
use system_design_course.Builder.Problem.{Problem, leak}

-- PREFIXES
abbrev prefixes : List Text
prefixes =
    codes "Amazon "
    ∷ codes "AWS "
    ∷ codes "Azure "
    ∷ codes "Microsoft "
    ∷ codes "Google Cloud "
    ∷ codes "Google "
    ∷ codes "Oracle "
    ∷ codes "OCI "
    ∷ []

-- names.add(name)
unfoldable pub add_name : Text → List Text → List Text
add_name n names = if among n names then names else names ++ n ∷ []

unfoldable pub add_names : List Text → List Text → List Text
add_names [] names = names
add_names (n ∷ ns) names = add_names ns (add_name n names)

-- The name without each prefix that leaves more than two letters.
unfoldable pub without_prefixes : Text → List Text → List Text
without_prefixes n [] = []
without_prefixes n (pre ∷ pres) =
    let rest = without_prefixes n pres in
    if starts_with n pre && ltb (length pre + 2) (length n)
    then drop (length pre) n ∷ rest
    else rest

-- Longest first, stable.
unfoldable pub place_name : Text → List Text → List Text
place_name n [] = n ∷ []
place_name n (m ∷ ms) =
    let rest = place_name n ms in if leb (length m) (length n) then n ∷ m ∷ ms else m ∷ rest

-- The names of two letters or more, longest first.
unfoldable pub sort_names : List Text → List Text
sort_names [] = []
sort_names (n ∷ ns) =
    let rest = sort_names ns in if leb 2 (length n) then place_name n rest else rest

abbrev parts_of : Patterns → Text → List Text
parts_of x label = elim (x.parenthesis label) [ none ↦ [] | some (a, b) ↦ a ∷ b ∷ [] ]

unfoldable pub service_names : Patterns → Service → List Text
service_names x svc =
    let names = add_names (svc.label ∷ svc.short ∷ (svc.aliases ++ parts_of x svc.label)) [] in
    sort_names (add_names (concat_map (λ n. without_prefixes n prefixes) names) names)

-- The slots that a service answers, by service.
unfoldable pub answers_onto : Dict (List Text) → List Slot → Dict (List Text)
answers_onto d [] = d
answers_onto d (s ∷ ss) =
    let ids : List Text = elim (lookup s.accept d) [ none ↦ [] | some ids ↦ ids ] in
    answers_onto (insert s.accept (add_name s.id ids) d) ss

-- f"slot {slot_id} label"
abbrev pub slot_label : Text → Text
slot_label id = codes "slot " ++ (id ++ codes " label")

unfoldable pub leaks_in : Patterns → Text → Text → List Text → Text → Text × Text → List Problem
leaks_in x lang sid slot_ids nm (where_found, text) =
    if among where_found (map slot_label slot_ids)
    then []
    else when (not (text_eq text []) && x.names nm text) (leak lang where_found sid nm)

unfoldable pub leaks_of :
    Context → Text → List Text → List (Text × Text) → Text × List Text → List Problem
leaks_of ctx lang allow texts (sid, slot_ids) =
    if among sid allow then [] else (elim (lookup sid ctx.services) [
      | none ↦ []
      | some svc ↦
          concat_map (λ nm. concat_map (leaks_in ctx.patterns lang sid slot_ids nm) texts)
            (service_names ctx.patterns svc)
    ])

unfoldable pub leaks : Puzzle → Context → List (Text × Text) → Text → List Problem
leaks p ctx texts lang =
    concat_map (leaks_of ctx lang p.allow_mention texts) (answers_onto [] p.slots)
