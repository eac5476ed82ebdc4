-- ===== src/Builder/Choices.antt =====
-- build.py, `validate` 7: the distractors of the palette, and the near miss of each slot.
use system_design_course.Common.{
  ltb, if◌then◌else◌, length, concat_map, when, Text, codes, text_eq, Dict, lookup, has_key, ℕ, ◌+◌,
  ◌*◌, ◌/◌, max, Bool, true, false, not, ◌&&◌, ◌||◌, none, some, List, [], ◌∷◌, ◌++◌,
}
use system_design_course.Builder.Puzzle.{Slot, Tile, Puzzle, index_by}
use system_design_course.Builder.Problem.{
  Problem, few_distractors, many_fillers, many_tiles, why_not_missing, why_not_slot, near_miss_tile,
  near_miss_role, near_miss_reason,
}
use system_design_course.Builder.Palette.{role_or_answer, palette_of, needs}

-- [t for s, t in pal.items() if s not in need]
unfoldable pub distractors : Dict ℕ → Dict Tile → List Tile
distractors need [] = []
distractors need ((sid, t) ∷ pal) =
    let rest = distractors need pal in if has_key sid need then rest else t ∷ rest

abbrev pub has_role : Text → Tile → Bool
has_role role t = elim t.role [ none ↦ false | some r ↦ text_eq r role ]

unfoldable pub fillers : List Tile → List Tile
fillers [] = []
fillers (t ∷ ts) = let rest = fillers ts in if has_role (codes "filler") t then t ∷ rest else rest

-- t.get("why_not", {})
abbrev pub reasons : Tile → Dict Text
reasons t = elim t.why_not [ none ↦ [] | some d ↦ d ]

abbrev no_entries : Dict Text → Bool
no_entries [] = true
no_entries (e ∷ d) = false

abbrev star : Text
star = codes "*"

unfoldable pub check_distractor : Dict Slot → Tile → List Problem
check_distractor slots t =
    when
      ((has_role (codes "near-miss") t || has_role (codes "distractor") t)
        && no_entries (reasons t))
      (why_not_missing t.service (role_or_answer t))
    ++ concat_map
        (λ (key, reason).
          when (not (text_eq key star) && not (has_key key slots)) (why_not_slot t.service key))
        (reasons t)

unfoldable pub check_near_miss : Dict Tile → Dict ℕ → Slot → List Problem
check_near_miss pal need s = elim s.near_miss [
  | none ↦ []
  | some nm ↦ elim (lookup nm pal) [
    | none ↦ near_miss_tile nm s.id ∷ []
    | some t ↦
        if has_key nm need
        then near_miss_tile nm s.id ∷ []
        else (if not (has_role (codes "near-miss") t)
            then near_miss_role nm s.id ∷ []
            else when (not (has_key s.id (reasons t)) && not (has_key star (reasons t)))
                (near_miss_reason nm s.id))
  ]
]

-- math.ceil(0.75 * n)
abbrev pub minimum_distractors : ℕ → ℕ
minimum_distractors n = (3 * n + 3) / 4

abbrev no_tiles : List Tile → Bool
no_tiles [] = true
no_tiles (t ∷ ts) = false

unfoldable pub check_choices : Puzzle → List Problem
check_choices p =
    let pal = palette_of p in
    let need = needs p in
    let slots = index_by Slot.id p.slots in
    let distract = distractors need pal in
    when (ltb (length distract) (minimum_distractors (length p.slots)))
      (few_distractors (length distract) (length p.slots))
    ++ (when
          (not (no_tiles distract) && ltb (max 1 (length distract / 4)) (length (fillers distract)))
          (many_fillers (length (fillers distract)) (length distract))
        ++ (when (ltb 20 (length p.palette)) (many_tiles (length p.palette))
            ++ (concat_map (check_distractor slots) distract
                ++ concat_map (check_near_miss pal need) p.slots)))
