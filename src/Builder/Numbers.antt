-- ===== src/Builder/Numbers.antt =====
-- build.py, `validate` 4 and 6: the numbers of the diagram against those of the requirements, the
-- arrows and their steps.
use system_design_course.Common.{
  ltb, ◌==◌, if◌then◌else◌, length, concat_map, when, Text, codes, text_eq, among, ℕ, zero, suc,
  ◌+◌, Bool, true, false, not, ◌&&◌, ◌||◌, Option, none, some, List, [], ◌∷◌, ◌++◌, map,
}
use system_design_course.Builder.Puzzle.{Cell, Node, Slot, Edge, Requirement, Puzzle}
use system_design_course.Builder.Problem.{
  Problem, number_repeated, requirements_repeated, numbers_differ, unknown_end, loop_edge,
  points_missing, steps_repeated, steps_gap,
}

unfoldable pub contains_number : ℕ → List ℕ → Bool
contains_number n [] = false
contains_number n (m ∷ ms) = (m == n) || contains_number n ms

-- nums.count(n)
unfoldable pub count_number : ℕ → List ℕ → ℕ
count_number n [] = 0
count_number n (m ∷ ms) = let rest = count_number n ms in if m == n then rest + 1 else rest

unfoldable pub place_number : ℕ → List ℕ → List ℕ
place_number n [] = n ∷ []
place_number n (m ∷ ms) =
    let rest = place_number n ms in
    if ltb n m then n ∷ m ∷ ms else (if n == m then m ∷ ms else m ∷ rest)

-- sorted(set(nums))
unfoldable pub sorted_set : List ℕ → List ℕ
sorted_set [] = []
sorted_set (n ∷ ns) = place_number n (sorted_set ns)

-- The numbers that are there.
unfoldable pub present : List (Option ℕ) → List ℕ
present [] = []
present (none ∷ ns) = present ns
present (some n ∷ ns) = n ∷ present ns

abbrev pub diagram_numbers : Puzzle → List ℕ
diagram_numbers p = present (map Node.number p.nodes) ++ map Slot.number p.slots

abbrev pub requirement_numbers : Puzzle → List ℕ
requirement_numbers p = map Requirement.n p.requirements

-- sorted({x for x in nums if nums.count(x) > 1})
unfoldable pub repeated_from : List ℕ → List ℕ → List ℕ
repeated_from nums [] = []
repeated_from nums (n ∷ ns) =
    let rest = repeated_from nums ns in
    if ltb 1 (count_number n nums) then place_number n rest else rest

unfoldable pub check_numbers : Puzzle → List Problem
check_numbers p =
    let nums = diagram_numbers p in
    let reqs = requirement_numbers p in
    map number_repeated (repeated_from nums nums)
    ++ (when (not (length (sorted_set reqs) == length reqs)) requirements_repeated
        ++ when (not (text_eq (sorted_set nums) (sorted_set reqs)))
            (numbers_differ (sorted_set nums) (sorted_set reqs)))

-- set(nodes) | set(slots)
abbrev pub arrow_ends : Puzzle → List Text
arrow_ends p = map Node.id p.nodes ++ map Slot.id p.slots

abbrev no_points : Option (List Cell) → Bool
no_points none = true
no_points (some []) = true
no_points (some (c ∷ cs)) = false

abbrev is_routed : Option Text → Bool
is_routed none = false
is_routed (some route) = text_eq route (codes "points")

unfoldable pub check_edge : List Text → Edge → List Problem
check_edge ends e =
    when (not (among e.source ends)) (unknown_end e.id e.source)
    ++ (when (not (among e.target ends)) (unknown_end e.id e.target)
        ++ (when (text_eq e.source e.target) (loop_edge e.id)
            ++ when (is_routed e.route && no_points e.points) (points_missing e.id)))

-- list(range(first, first + count))
unfoldable pub range_from : ℕ → ℕ → List ℕ
range_from first zero = []
range_from first (suc count) = first ∷ range_from (first + 1) count

abbrev pub steps_of : Puzzle → List ℕ
steps_of p = present (map Edge.step p.edges)

unfoldable pub check_steps : List ℕ → List Problem
check_steps steps =
    when (not (length (sorted_set steps) == length steps)) steps_repeated
    ++ when (not (text_eq (sorted_set steps) (range_from 1 (length (sorted_set steps)))))
        (steps_gap steps)

unfoldable pub check_edges : Puzzle → List Problem
check_edges p = concat_map (check_edge (arrow_ends p)) p.edges ++ check_steps (steps_of p)
