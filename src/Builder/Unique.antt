-- ===== src/Builder/Unique.antt =====
-- The ids and the blanks of a puzzle that build.py accepts.
use system_design_course.Common.{
  ltb, ◌==◌, Bool-cases, Option-cases, In, All, when, All-map, Text, codes, text_eq, text_eq_iff,
  times, Dict, lookup, has_key, ℕ, ◌≤◌, ◌≡◌, refl, sym, ◌∙◌, ◌≢◌, inl, inr, true, false, not,
  Option, none, some, [], ◌∷◌, map, arith,
}
use system_design_course.Builder.Puzzle.{
  Slot, Tile, Puzzle, Patterns, Context, index_by, count_in, tally, count_in-tally,
}
use system_design_course.Builder.Problem.{
  Clean, Clean-append, Clean-concat_map, Clean-when, Clean-error, id_repeated, token_count,
  answer_missing, wrong_uses, answer_role,
}
use system_design_course.Builder.Names.{
  all_ids, repeated_id, check_ids, all_tokens, count_tokens, check_tokens,
}
use system_design_course.Builder.Palette.{
  uses_of, role_or_answer, palette_of, needs, check_answer, check_palette,
}
use system_design_course.Builder.Entries.{
  All-has_key, All-lookup, among-In, In-map, index_by-In, has_key-times, has_key-count_in,
}

count_in-bound : (k : Text) (d : Dict ℕ) → All (λ e. ltb 1 e.1 ≡ false) d → count_in k d ≤ 1
unfolding count_in lookup
count_in-bound k [] h = omega arith
count_in-bound k ((j, n) ∷ d) h = ground (arith, h.0, count_in-bound k d h.1)

-- In a puzzle whose ids raise no error, no two groups, nodes, slots and arrows share an id.
pub all_ids-times :
    (p : Puzzle) (stem : Option Text) (id : Text)
    → Clean (check_ids p stem)
    → times id (all_ids p) ≤ 1
unfolding check_ids
all_ids-times p stem id h =
    let parts = (Clean-append _ _ (Clean-append _ _ h).1).1 in
    let each =
      All-map (λ e c. Clean-when (ltb 1 e.1) (id_repeated e.0 e.1) refl c) (tally (all_ids p))
        (Clean-concat_map repeated_id (tally (all_ids p)) parts) in
    ground (arith, count_in-bound id (tally (all_ids p)) each, count_in-tally id (all_ids p))

-- In a puzzle whose blanks raise no error, each slot has exactly one blank in the requirements.
pub slot-times :
    (x : Patterns) (p : Puzzle) (s : Slot)
    → Clean (check_tokens x p)
    → In s p.slots
    → times s.id (all_tokens x p) ≡ 1
unfolding check_tokens
slot-times x p s h w =
    let slots = index_by Slot.id p.slots in
    let owners = tally (all_tokens x p) in
    let counts = Clean-concat_map (count_tokens owners) slots (Clean-append _ _ h).1 in
    let each =
      All-map
        (λ e c.
          Clean-when (not (count_in e.0 owners == 1)) (token_count e.0 (count_in e.0 owners)) refl
            c)
        slots counts in
    let found =
      All-has_key (λ k. not (count_in k owners == 1) ≡ false) slots s.id each
        (index_by-In Slot.id s p.slots w) in
    ground (arith, found, count_in-tally s.id (all_tokens x p))

check_answer-Clean :
    (pal : Dict Tile) (sid : Text) (n : ℕ)
    → Clean (check_answer pal (sid, n))
    → (t : Tile) × (lookup sid pal ≡ some t) × (uses_of t ≡ n) × (role_or_answer t ≡ codes "answer")
unfolding check_answer
check_answer-Clean pal sid n h = elim (Option-cases (lookup sid pal)) [
  | inl e ↦ Clean-error (answer_missing sid) refl (ground (arith, e, h))
  | inr (t, e) ↦ elim (Bool-cases (uses_of t == n)) [
    | inr f ↦ Clean-error (wrong_uses sid n (uses_of t)) refl (ground (arith, e, f, h))
    | inl f ↦
        let rest : Clean (
            when (not (text_eq (role_or_answer t) (codes "answer")))
              (answer_role sid (role_or_answer t))) =
          ground (arith, e, f, h) in
        let role = Clean-when _ (answer_role sid (role_or_answer t)) refl rest in
        (
          t,
          e,
          ground (arith, f),
          (text_eq_iff (role_or_answer t) (codes "answer")).0 (ground (arith, role)),
        )
  ]
]

missing-has_key {ℓ} : {V : Type ℓ} (k : Text) (d : Dict V) → lookup k d ≡ none → has_key k d ≢ true
unfolding has_key
missing-has_key k d e h = ground (arith, e, h)

found-count_in : (k : Text) (n : ℕ) (d : Dict ℕ) → lookup k d ≡ some n → count_in k d ≡ n
unfolding count_in
found-count_in k n d e = ground (arith, e)

-- A palette that raises no error has a tile for the answer of each slot, marked as an answer, to be
-- used as often as there are slots with that answer.
pub answer-uses :
    (ctx : Context) (p : Puzzle) (s : Slot)
    → Clean (check_palette ctx p)
    → In s p.slots
    → (t : Tile) × (lookup s.accept (palette_of p) ≡ some t)
      × (uses_of t ≡ times s.accept (map Slot.accept p.slots))
      × (role_or_answer t ≡ codes "answer")
unfolding check_palette
answer-uses ctx p s h w =
    let need = needs p in
    let pal = palette_of p in
    let times_in = count_in-tally s.accept (map Slot.accept p.slots) in
    let there = has_key-count_in s.accept need (
      ground (
        arith,
        times_in,
        has_key-times s.accept (map Slot.accept p.slots)
            (among-In s.accept (map Slot.accept p.slots) (In-map Slot.accept s p.slots w)),
      )) in
    let each =
      Clean-concat_map (check_answer pal) need (Clean-append _ _ (Clean-append _ _ h).1).0 in
    elim (Option-cases (lookup s.accept need)) [
      | inl e ↦ absurd (missing-has_key s.accept need e there)
      | inr (n, e) ↦
          let (t, found, uses, role) =
            check_answer-Clean pal s.accept n
              (All-lookup (λ k m. Clean (check_answer pal (k, m))) need s.accept n each e) in
          (t, found, uses ∙ (sym (found-count_in s.accept n need e) ∙ times_in), role)
    ]
