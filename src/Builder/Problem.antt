-- ===== src/Builder/Problem.antt =====
-- build.py: what `Report.err` and `Report.warn` record. A problem stands for one call, with the values
-- that its message shows; `code_of` is the code of the call.
use system_design_course.Common.{
  if◌then◌else◌, Bool-cases, All, concat_map, when, All-split, All-concat_map, Text, ℕ, ◌≡◌, refl,
  inl, inr, Bool, true, false, Option, List, [], ◌∷◌, ◌++◌, arith,
}

pub data Code : Type 0 where
  e_schema e_id e_token e_number e_palette e_icon e_cloud e_label w_cloud e_geom w_geom w_label
        e_edge e_step e_distract w_distract e_nearmiss e_leak e_article e_cue e_src e_expl w_length
        w_diff e_overlay e_json :
      Code

pub data Problem : Type 0 where
  schema_error : Text → Problem
  id_format : Text → Problem
  file_name : Text → Text → Problem
  id_repeated : Text → ℕ → Problem
  many_tokens : ℕ → ℕ → Problem
  unknown_token : ℕ → Text → Problem
  unknown_slot : ℕ → Text → Problem
  wrong_tokens : ℕ → Text → (List Text) → Problem
  stray_token : ℕ → Problem
  token_count : Text → ℕ → Problem
  wrong_number : ℕ → Text → ℕ → Problem
  number_repeated : ℕ → Problem
  requirements_repeated : Problem
  numbers_differ : (List ℕ) → (List ℕ) → Problem
  tile_repeated : Text → Problem
  answer_missing : Text → Problem
  wrong_uses : Text → ℕ → ℕ → Problem
  answer_role : Text → Text → Problem
  role_missing : Text → Problem
  many_uses : Text → Problem
  unknown_icon : Text → Text → Problem
  other_cloud : Text → (Option Text) → Text → Problem
  generic_icon : Text → Problem
  group_cloud : Text → Text → Text → Problem
  group_decimals : Text → Problem
  group_outside : Text → Problem
  unknown_parent : Text → Text → Problem
  parent_cycle : Text → Problem
  margins : Text → Text → Problem
  siblings_overlap : Text → Text → Problem
  item_decimals : Text → Problem
  item_outside : Text → Problem
  unknown_group : Text → Text → Problem
  not_in_group : Text → Text → Problem
  in_other_group : Text → Text → Problem
  crosses_border : Text → Text → Problem
  covers_label : Text → Text → Problem
  items_overlap : Text → Text → Problem
  unknown_end : Text → Text → Problem
  loop_edge : Text → Problem
  points_missing : Text → Problem
  steps_repeated : Problem
  steps_gap : (List ℕ) → Problem
  few_distractors : ℕ → ℕ → Problem
  many_fillers : ℕ → ℕ → Problem
  many_tiles : ℕ → Problem
  why_not_missing : Text → Text → Problem
  why_not_slot : Text → Text → Problem
  near_miss_tile : Text → Text → Problem
  near_miss_role : Text → Text → Problem
  near_miss_reason : Text → Text → Problem
  leak : Text → Text → Text → Text → Problem
  article : ℕ → Problem
  translated_article : Text → Problem
  other_tokens : Text → List Text → Problem
  wrong_cue : Text → Text → ℕ → Problem
  translated_cue : Text → Problem
  unknown_source : Text → Text → Problem
  em_dash : Text → Problem
  long_requirement : ℕ → Problem
  level_differs : Text → ℕ → Text → Problem
  unknown_key : Text → Problem
  other_id : Text → Text → Problem
  unknown_requirement : Text → Problem
  unknown_member : Text → Text → Problem
  why_not_service : Text → Problem
  unknown_fields : Text → (List Text) → Problem
  text_length : Text → Problem
  not_json : Problem

-- The code with which each message is recorded.
abbrev pub code_of : Problem → Code
code_of (schema_error _) = e_schema
code_of (id_format _) = e_id
code_of (file_name _ _) = e_id
code_of (id_repeated _ _) = e_id
code_of (many_tokens _ _) = e_token
code_of (unknown_token _ _) = e_token
code_of (unknown_slot _ _) = e_token
code_of (wrong_tokens _ _ _) = e_token
code_of (stray_token _) = e_token
code_of (token_count _ _) = e_token
code_of (wrong_number _ _ _) = e_number
code_of (number_repeated _) = e_number
code_of requirements_repeated = e_number
code_of (numbers_differ _ _) = e_number
code_of (tile_repeated _) = e_palette
code_of (answer_missing _) = e_palette
code_of (wrong_uses _ _ _) = e_palette
code_of (answer_role _ _) = e_palette
code_of (role_missing _) = e_palette
code_of (many_uses _) = e_palette
code_of (unknown_icon _ _) = e_icon
code_of (other_cloud _ _ _) = e_cloud
code_of (generic_icon _) = e_label
code_of (group_cloud _ _ _) = w_cloud
code_of (group_decimals _) = e_geom
code_of (group_outside _) = e_geom
code_of (unknown_parent _ _) = e_geom
code_of (parent_cycle _) = e_geom
code_of (margins _ _) = e_geom
code_of (siblings_overlap _ _) = e_geom
code_of (item_decimals _) = e_geom
code_of (item_outside _) = e_geom
code_of (unknown_group _ _) = e_geom
code_of (not_in_group _ _) = e_geom
code_of (in_other_group _ _) = e_geom
code_of (crosses_border _ _) = w_geom
code_of (covers_label _ _) = w_label
code_of (items_overlap _ _) = e_geom
code_of (unknown_end _ _) = e_edge
code_of (loop_edge _) = e_edge
code_of (points_missing _) = e_edge
code_of steps_repeated = e_step
code_of (steps_gap _) = e_step
code_of (few_distractors _ _) = e_distract
code_of (many_fillers _ _) = w_distract
code_of (many_tiles _) = w_distract
code_of (why_not_missing _ _) = e_nearmiss
code_of (why_not_slot _ _) = e_nearmiss
code_of (near_miss_tile _ _) = e_nearmiss
code_of (near_miss_role _ _) = e_nearmiss
code_of (near_miss_reason _ _) = e_nearmiss
code_of (leak _ _ _ _) = e_leak
code_of (article _) = e_article
code_of (translated_article _) = e_article
code_of (other_tokens _ _) = e_token
code_of (wrong_cue _ _ _) = e_cue
code_of (translated_cue _) = e_cue
code_of (unknown_source _ _) = e_src
code_of (em_dash _) = e_expl
code_of (long_requirement _) = w_length
code_of (level_differs _ _ _) = w_diff
code_of (unknown_key _) = e_overlay
code_of (other_id _ _) = e_overlay
code_of (unknown_requirement _) = e_overlay
code_of (unknown_member _ _) = e_overlay
code_of (why_not_service _) = e_overlay
code_of (unknown_fields _ _) = e_overlay
code_of (text_length _) = e_expl
code_of not_json = e_json

-- Codes that begin with W are warnings.
abbrev pub is_error_code : Code → Bool
is_error_code w_cloud = false
is_error_code w_geom = false
is_error_code w_label = false
is_error_code w_distract = false
is_error_code w_length = false
is_error_code w_diff = false
is_error_code _ = true

abbrev pub is_error : Problem → Bool
is_error p = is_error_code (code_of p)

unfoldable pub errors : List Problem → List Problem
errors [] = []
errors (p ∷ log) = let rest = errors log in if is_error p then p ∷ rest else rest

unfoldable pub warnings : List Problem → List Problem
warnings [] = []
warnings (p ∷ log) = let rest = warnings log in if is_error p then rest else p ∷ rest

-- No error is recorded.
unfoldable pub Clean : List Problem → Type 0
Clean log = All (λ p. is_error p ≡ false) log

-- A log without errors is clean, part by part.
pub errors-Clean : (log : List Problem) → errors log ≡ [] → Clean log
unfolding errors Clean
errors-Clean [] h = tt
errors-Clean (p ∷ log) h = elim (Bool-cases (is_error p)) [
  | inl e ↦ absurd (ground (arith, e, h))
  | inr e ↦ (e, errors-Clean log (ground (arith, e, h)))
]

pub Clean-errors : (log : List Problem) → Clean log → errors log ≡ []
unfolding errors Clean
Clean-errors [] h = refl
Clean-errors (p ∷ log) h = ground (arith, h.0, Clean-errors log h.1)

pub Clean-append : (xs ys : List Problem) → Clean (xs ++ ys) → Clean xs × Clean ys
unfolding Clean
Clean-append xs ys h = All-split (λ p. is_error p ≡ false) xs ys h

pub Clean-concat_map :
    {A : Type 0} (f : A → List Problem) (xs : List A)
    → Clean (concat_map f xs)
    → All (λ x. Clean (f x)) xs
unfolding Clean
Clean-concat_map f xs h = All-concat_map (λ p. is_error p ≡ false) f xs h

-- An error that is not recorded has its test false.
pub Clean-when :
    (test : Bool) (p : Problem) → is_error p ≡ true → Clean (when test p) → test ≡ false
unfolding Clean
Clean-when true p e h = absurd (cc (e, h.0))
Clean-when false p e h = refl

-- A single error is not clean.
pub Clean-error : {A : Type 0} (p : Problem) → is_error p ≡ true → Clean (p ∷ []) → A
unfolding Clean
Clean-error p e h = absurd (cc (e, h.0))
