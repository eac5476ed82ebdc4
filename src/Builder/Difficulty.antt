-- ===== src/Builder/Difficulty.antt =====
-- build.py, `difficulty`: the score of a puzzle and its level.
use system_design_course.Common.{
  ltb, leb, if◌then◌else◌, length, Text, codes, text_eq, among, lookup, ℕ, zero, suc, ◌+◌, ◌*◌, min,
  Bool, true, false, not, ◌&&◌, ◌||◌, Option, none, some, List, [], ◌∷◌, map,
}
use system_design_course.Builder.Puzzle.{Slot, Edge, Requirement, Tile, Puzzle, Context}
use system_design_course.Builder.Palette.{no_text}
use system_design_course.Builder.Wording.{requirement_of}

-- reg.get(sid, {}).get("category")
abbrev pub category_of : Context → Text → Option Text
category_of ctx sid = elim (lookup sid ctx.services) [ none ↦ none | some svc ↦ svc.category ]

abbrev pub points : Bool → ℕ
points b = if b then 1 else 0

unfoldable pub slots_score : ℕ → ℕ
slots_score n = if leb 7 n then 2 else (if leb 5 n then 1 else 0)

-- The tiles that answer no slot: those of `palette`, not of the dict.
unfoldable pub wrong_tiles : List Text → List Tile → ℕ
wrong_tiles answers [] = 0
wrong_tiles answers (t ∷ ts) =
    let rest = wrong_tiles answers ts in if among t.service answers then rest else rest + 1

-- Twice as many distractors as slots, or one and a half times as many; without slots the ratio is 0.
unfoldable pub ratio_score : ℕ → ℕ → ℕ
ratio_score distract zero = 0
ratio_score distract (suc n) =
    if leb (2 * suc n) distract then 2 else (if leb (3 * suc n) (2 * distract) then 1 else 0)

abbrev option_eq : Option Text → Option Text → Bool
option_eq none none = true
option_eq (some a) (some b) = text_eq a b
option_eq _ _ = false

unfoldable pub is_near : Context → Slot → Bool
is_near ctx s = elim s.near_miss [
  | none ↦ false
  | some nm ↦ not (no_text (some nm)) && option_eq (category_of ctx nm) (category_of ctx s.accept)
]

unfoldable pub count_if : {A : Type 0} → (A → Bool) → List A → ℕ
count_if test [] = 0
count_if test (x ∷ xs) = let rest = count_if test xs in if test x then rest + 1 else rest

unfoldable pub any_of : {A : Type 0} → (A → Bool) → List A → Bool
any_of test [] = false
any_of test (x ∷ xs) = test x || any_of test xs

-- `s.get("category") or cat(s["accept"][0]) or ""`
abbrev slot_category : Context → Slot → Text
slot_category ctx s = elim (no_text s.category) [
  | false ↦ elim s.category [ none ↦ [] | some c ↦ c ]
  | true ↦ elim (category_of ctx s.accept) [ none ↦ [] | some c ↦ c ]
]

-- The requirement of the slot names the category of its answer.
unfoldable pub is_named : Context → List Requirement → Slot → Bool
is_named ctx requirements s =
    let text : Text = elim (requirement_of s.id requirements) [ none ↦ [] | some r ↦ r.text ] in
    elim (ctx.patterns.category_words (slot_category ctx s)) [
      | none ↦ false
      | some found ↦ found (ctx.patterns.strip_tokens text)
    ]

abbrev pub is_niche : Slot → Bool
is_niche s = elim s.niche [ none ↦ false | some b ↦ b ]

unfoldable pub score_of : Context → Puzzle → ℕ
score_of ctx p =
    let n = length p.slots in
    slots_score n
    + (ratio_score (wrong_tiles (map Slot.accept p.slots) p.palette) n
        + (min 3 (count_if (is_near ctx) p.slots)
            + (points (ltb (length p.nodes) 2)
                + (points (any_of (λ e. no_text (Edge.label e)) p.edges)
                    + (points (ltb (count_if (is_named ctx p.requirements) p.slots * 2) n)
                        + points (any_of is_niche p.slots))))))

pub data Level : Type 0 where
  easy medium hard : Level

-- The first of LEVELS whose top is at least the score; `none` is StopIteration.
unfoldable pub level_of : ℕ → Option Level
level_of score =
    if leb score 3
    then some easy
    else (if leb score 6 then some medium else (if leb score 99 then some hard else none))

unfoldable pub difficulty : Context → Puzzle → Option (ℕ × Level)
difficulty ctx p = elim (level_of (score_of ctx p)) [
  | none ↦ none
  | some level ↦ some (score_of ctx p, level)
]

-- BAND
abbrev pub band : Level → ℕ
band easy = 0
band medium = 1
band hard = 2

-- The name of a level; `none` is the KeyError of BAND.
unfoldable pub level_named : Text → Option Level
level_named name =
    if text_eq name (codes "easy")
    then some easy
    else (if text_eq name (codes "medium")
        then some medium
        else (if text_eq name (codes "hard") then some hard else none))

abbrev pub level_name : Level → Text
level_name easy = codes "easy"
level_name medium = codes "medium"
level_name hard = codes "hard"
