-- ===== src/Builder/Validate.antt =====
-- build.py: `validate` as a whole, a puzzle file with its translation, and the commands that stop at an
-- error.
use system_design_course.Common.{
  ltb, ◌==◌, if◌then◌else◌, concat_map, when, Text, among, ℕ, ◌+◌, Bool, true, false, ◌&&◌, ◌||◌,
  Option, none, some, List, [], ◌∷◌, ◌++◌, map,
}
use system_design_course.Builder.Puzzle.{Puzzle, Context}
use system_design_course.Builder.Problem.{Problem, errors, schema_error, level_differs, not_json}
use system_design_course.Builder.Names.{check_ids, check_tokens}
use system_design_course.Builder.Palette.{check_palette}
use system_design_course.Builder.Numbers.{check_numbers, check_edges}
use system_design_course.Builder.Layout.{check_geometry}
use system_design_course.Builder.Choices.{check_choices}
use system_design_course.Builder.Wording.{check_wording}
use system_design_course.Builder.Difficulty.{Level, difficulty, band, level_named, level_name}
use system_design_course.Builder.Overlay.{Overlay, validate_overlay}

-- BAND differs by two: abs(a - b) > 1.
abbrev far_apart : Level → Level → Bool
far_apart a b = ltb (band a + 1) (band b) || ltb (band b + 1) (band a)

unfoldable pub check_override : Context → Puzzle → List Problem
check_override ctx p = elim p.difficulty_override [
  | none ↦ []
  | some name ↦ elim (difficulty ctx p) [
    | none ↦ []
    | some (score, level) ↦ elim (level_named name) [
      | none ↦ []
      | some fixed ↦ when (far_apart level fixed) (level_differs (level_name level) score name)
    ]
  ]
]

unfoldable pub check_fields : Context → Puzzle → Option Text → List Problem
check_fields ctx p stem =
    check_ids p stem
    ++ (check_tokens ctx.patterns p
        ++ (check_palette ctx p
            ++ (check_numbers p
                ++ (check_geometry p
                    ++ (check_edges p
                        ++ (check_choices p ++ (check_wording ctx p ++ check_override ctx p)))))))

-- A decoded file: what the schema refuses in it, or the puzzle that it admits.
pub data Decoded : Type 0 where
  refused : Text → List Text → Decoded
  admitted : Puzzle → Decoded

unfoldable pub validate : Context → Decoded → Option Text → List Problem
validate ctx (refused e es) stem = schema_error e ∷ map schema_error es
validate ctx (admitted p) stem = check_fields ctx p stem

-- A translation file: absent, no JSON, or decoded.
pub data Translation : Type 0 where
  absent unreadable : Translation
  decoded : Overlay → Translation

-- A puzzle file with its translation; `none` is no JSON.
pub record File : Type 0 where
  pub stem : Text
  pub puzzle : Option Decoded
  pub translation : Translation

abbrev pub is_clean : List Problem → Bool
is_clean log = elim (errors log) [ [] ↦ true | ◌∷◌ _ _ ↦ false ]

unfoldable pub check_translation_file :
    Context → Decoded → Translation → List Problem → List Problem
check_translation_file ctx d absent log = []
check_translation_file ctx d unreadable log = not_json ∷ []
check_translation_file ctx (refused e es) (decoded tr) log = []
check_translation_file ctx (admitted p) (decoded tr) log =
    if is_clean log then validate_overlay p tr ctx else []

unfoldable pub check_file : Context → File → List Problem
check_file ctx f = elim f.puzzle [
  | none ↦ not_json ∷ []
  | some d ↦
      let log = validate ctx d (some f.stem) in
      log ++ check_translation_file ctx d f.translation log
]

unfoldable pub count_bad : Context → List File → ℕ
count_bad ctx [] = 0
count_bad ctx (f ∷ fs) =
    let rest = count_bad ctx fs in if is_clean (check_file ctx f) then rest else rest + 1

abbrev pub no_files : List File → Bool
no_files [] = true
no_files (f ∷ fs) = false

-- The exit code of `validate`.
unfoldable pub cmd_validate : Context → List File → ℕ
cmd_validate ctx files = if no_files files then 1 else (if count_bad ctx files == 0 then 0 else 1)

-- The puzzles and translations that were decoded.
unfoldable pub loaded : List File → List (Puzzle × Option Overlay)
loaded [] = []
loaded (f ∷ fs) =
    let rest = loaded fs in
    elim f.puzzle [
      | none ↦ rest
      | some (refused e es) ↦ rest
      | some (admitted p) ↦ (p, elim f.translation [ decoded tr ↦ some tr | _ ↦ none ]) ∷ rest
    ]

-- The keys of app/i18n/es.json and en.json.
pub record Strings : Type 0 where
  pub es : List Text
  pub en : List Text

abbrev pub all_among : List Text → List Text → Bool
all_among [] ts = true
all_among (k ∷ ks) ts = among k ts && all_among ks ts

-- not set(es) ^ set(en)
unfoldable pub keys_agree : Strings → Bool
keys_agree s = all_among s.es s.en && all_among s.en s.es

-- How `build` goes on after the checks: a BuildError for the strings, or with the errors of all
-- files, or the puzzles.
pub data Gate : Type 0 where
  strings_differ : Gate
  build_error : List Problem → Gate
  passes : List (Puzzle × Option Overlay) → Gate

unfoldable pub all_errors : Context → List File → List Problem
all_errors ctx files = concat_map (λ f. errors (check_file ctx f)) files

unfoldable pub gate_files : Context → List File → Gate
gate_files ctx [] = build_error []
gate_files ctx (f ∷ fs) = elim (all_errors ctx (f ∷ fs)) [
  | [] ↦ passes (loaded (f ∷ fs))
  | ◌∷◌ e es ↦ build_error (e ∷ es)
]

unfoldable pub build_gate : Context → Strings → List File → Gate
build_gate ctx strings files = if keys_agree strings then gate_files ctx files else strings_differ
