-- ===== src/Builder/Gate.antt =====
-- The two commands of build.py agree on which files are good.
use system_design_course.Common.{
  if◌then◌else◌, Bool-cases, concat_map, ◌+◌, ◌≡◌, refl, ◌≢◌, ◌↔◌, inl, inr, true, false, Option,
  List, [], ◌∷◌, ◌++◌, arith,
}
use system_design_course.Builder.Puzzle.{Puzzle, Context}
use system_design_course.Builder.Overlay.{Overlay}
use system_design_course.Builder.Problem.{Problem, errors}
use system_design_course.Builder.Validate.{
  File, check_file, count_bad, cmd_validate, loaded, all_errors, gate_files, build_gate, Strings,
  keys_agree, strings_differ, build_error, passes,
}

bad_step :
    (ctx : Context) (f : File) (fs : List File)
    → (count_bad ctx (f ∷ fs) ≡ 0) ↔ ((errors (check_file ctx f) ≡ []) × (count_bad ctx fs ≡ 0))
unfolding count_bad
bad_step ctx f fs = go (errors (check_file ctx f))
  where
    go :
        (es : List Problem)
        → ((if (elim es [ [] ↦ true | ◌∷◌ _ _ ↦ false ])
              then count_bad ctx fs
              else count_bad ctx fs + 1)
            ≡ 0)
          ↔ ((es ≡ []) × (count_bad ctx fs ≡ 0))
    go [] = ((λ h. (refl, h)), (λ h. h.1))
    go (e ∷ es) = ((λ h. absurd (omega arith)), (λ h. absurd (cc (h.0))))

pub append_nil : {B : Type 0} (xs ys : List B) → (xs ++ ys ≡ []) ↔ ((xs ≡ []) × (ys ≡ []))
append_nil [] ys = ((λ h. (refl, h)), (λ h. h.1))
append_nil (x ∷ xs) ys = ((λ h. absurd (cc h)), (λ h. absurd (cc (h.0))))

count_bad_nil : (ctx : Context) → count_bad ctx [] ≡ 0
unfolding count_bad
count_bad_nil ctx = refl

pub all_errors-count_bad :
    (ctx : Context) (fs : List File) → (count_bad ctx fs ≡ 0) ↔ (all_errors ctx fs ≡ [])
unfolding all_errors concat_map
all_errors-count_bad ctx [] = ((λ h. refl), (λ h. count_bad_nil ctx))
all_errors-count_bad ctx (f ∷ fs) =
    let (down, up) = all_errors-count_bad ctx fs in
    let (split, join) = append_nil (errors (check_file ctx f)) (all_errors ctx fs) in
    let (open_bad, close_bad) = bad_step ctx f fs in
    (
      (λ h. join ((open_bad h).0, down ((open_bad h).1))),
      (λ h. close_bad ((split h).0, up ((split h).1))),
    )

gate_files-passes :
    (ctx : Context) (f : File) (fs : List File)
    → (gate_files ctx (f ∷ fs) ≡ passes (loaded (f ∷ fs))) ↔ (all_errors ctx (f ∷ fs) ≡ [])
unfolding gate_files
gate_files-passes ctx f fs = go (all_errors ctx (f ∷ fs))
  where
    go :
        (es : List Problem)
        → ((elim es [ [] ↦ passes (loaded (f ∷ fs)) | ◌∷◌ e es' ↦ build_error (e ∷ es') ])
            ≡ passes (loaded (f ∷ fs)))
          ↔ (es ≡ [])
    go [] = ((λ h. refl), (λ h. refl))
    go (e ∷ es) = ((λ h. absurd (cc h)), (λ h. absurd (cc h)))

build_nothing :
    (ctx : Context) → (cmd_validate ctx [] ≡ 0) ↔ (gate_files ctx [] ≡ passes (loaded []))
unfolding cmd_validate gate_files
build_nothing ctx = ((λ h. absurd (ground (arith, h))), (λ h. absurd (cc h)))

gate_differs : (ps : List (Puzzle × Option Overlay)) → strings_differ ≢ passes ps
gate_differs ps h = cc h

cmd_validate-gate_files :
    (ctx : Context) (files : List File)
    → (cmd_validate ctx files ≡ 0) ↔ (gate_files ctx files ≡ passes (loaded files))
unfolding cmd_validate
cmd_validate-gate_files ctx [] = build_nothing ctx
cmd_validate-gate_files ctx (f ∷ fs) =
    let (down, up) = all_errors-count_bad ctx (f ∷ fs) in
    let (passed, pass) = gate_files-passes ctx f fs in
    ((λ h. pass (down (ground (arith, h)))), (λ h. ground (arith, up (passed h))))

-- `build` goes on with the puzzles of a set of files exactly when `validate` exits with 0 for it and
-- the Spanish and the English strings of the page have the same keys.
pub cmd_validate-build_gate :
    (ctx : Context) (strings : Strings) (files : List File)
    → ((cmd_validate ctx files ≡ 0) × (keys_agree strings ≡ true))
      ↔ (build_gate ctx strings files ≡ passes (loaded files))
unfolding build_gate
cmd_validate-build_gate ctx strings files =
    let (passed, pass) = cmd_validate-gate_files ctx files in
    elim (Bool-cases (keys_agree strings)) [
      | inl e ↦ ((λ h. ground (arith, e, passed h.0)), (λ h. (pass (ground (arith, e, h)), e)))
      | inr e ↦ (
        (λ h. absurd (ground (arith, e, h.1))),
        (λ h. absurd (gate_differs (loaded files) (ground (arith, e, h)))),
      )
    ]

pub cmd_validate-count_bad :
    (ctx : Context) (files : List File) → cmd_validate ctx files ≡ 0 → count_bad ctx files ≡ 0
unfolding cmd_validate
cmd_validate-count_bad ctx [] h = count_bad_nil ctx
cmd_validate-count_bad ctx (f ∷ fs) h = ground (arith, h)
