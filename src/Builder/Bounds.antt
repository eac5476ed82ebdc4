-- ===== src/Builder/Bounds.antt =====
-- The difficulty that build.py computes is bounded, so it always has a level.
use system_design_course.Common.{
  ltb, leb, Bool-cases, length, ℕ, zero, suc, ◌*◌, ◌≤◌, ◌≡◌, ◌↔◌, inl, inr, Bool, true, false, some,
  map, arith,
}
use system_design_course.Builder.Puzzle.{Slot, Edge, Puzzle, Context}
use system_design_course.Builder.Palette.{no_text}
use system_design_course.Builder.Difficulty.{
  points, slots_score, wrong_tiles, ratio_score, count_if, any_of, is_named, is_niche, score_of,
  Level, level_of, difficulty, easy, medium, hard,
}

slots_score-le : (n : ℕ) → slots_score n ≤ 2
unfolding slots_score
slots_score-le n = ground arith

ratio_score-le : (d n : ℕ) → ratio_score d n ≤ 2
unfolding ratio_score
ratio_score-le d zero = omega arith
ratio_score-le d (suc n) = ground arith

points-le : (b : Bool) → points b ≤ 1
points-le true = omega arith
points-le false = omega arith

-- The score of every puzzle is at most 11.
score_of-le : (ctx : Context) (p : Puzzle) → score_of ctx p ≤ 11
unfolding score_of
score_of-le ctx p = omega (
  arith,
  slots_score-le (length p.slots),
  ratio_score-le (wrong_tiles (map Slot.accept p.slots) p.palette) (length p.slots),
  points-le (ltb (length p.nodes) 2),
  points-le (any_of (λ e. no_text (Edge.label e)) p.edges),
  points-le (ltb (count_if (is_named ctx p.requirements) p.slots * 2) (length p.slots)),
  points-le (any_of is_niche p.slots),
)

-- The search for a level never runs out of levels: every puzzle has a difficulty, with a score of at
-- most 11. Its level is easy just up to 3, and hard just from 7.
pub difficulty_total :
    (ctx : Context) (p : Puzzle)
    → (level : Level) × (difficulty ctx p ≡ some (score_of ctx p, level))
      × (score_of ctx p ≤ 11)
      × ((level ≡ easy) ↔ (score_of ctx p ≤ 3))
      × ((level ≡ hard) ↔ (7 ≤ score_of ctx p))
unfolding difficulty level_of
difficulty_total ctx p =
    let bound = score_of-le ctx p in
    elim (Bool-cases (leb (score_of ctx p) 3)) [
      | inl e ↦ (easy, ground (arith, e), bound, ground (arith, e), ground (arith, e))
      | inr e ↦ elim (Bool-cases (leb (score_of ctx p) 6)) [
        | inl f ↦ (medium, ground (arith, e, f), bound, ground (arith, e, f), ground (arith, e, f))
        | inr f ↦
            (hard, ground (arith, e, f, bound), bound, ground (arith, e, f), ground (arith, e, f))
      ]
    ]
