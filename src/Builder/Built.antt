-- ===== src/Builder/Built.antt =====
-- `build` after checks that find no error.
use system_design_course.Common.{
  Option-cases, if_both, length, In, All, concat_map, Text, text_eq, text_lt, Dict, ◌≡◌, refl, sym,
  ◌⊎◌, inl, inr, Bool, true, Option, none, some, List, [], ◌∷◌, arith,
}
use mathlib.Core.Path.{subst}
use system_design_course.Builder.Puzzle.{Puzzle, Context}
use system_design_course.Builder.Problem.{errors, Clean, Clean-append}
use system_design_course.Builder.Names.{check_ids, check_tokens}
use system_design_course.Builder.Palette.{check_palette}
use system_design_course.Builder.Overlay.{Overlay}
use system_design_course.Builder.Validate.{
  check_fields, Decoded, File, check_file, cmd_validate, loaded, Strings, keys_agree, all_errors,
  refused, admitted,
}
use system_design_course.Builder.Gate.{
  append_nil, all_errors-count_bad, cmd_validate-build_gate, cmd_validate-count_bad,
}
use system_design_course.Builder.Sound.{check_file-Clean}
use mathlib.Core.Option
use system_design_course.Builder.Drawn.{IsFault, HasFiles, draw_all-cases}
use system_design_course.Builder.Assemble.{
  Cloud, game_clouds, Package, load_packages, Assets, Built, kinds_of, sprite_names, all_known,
  assemble, build, no_manifest, game,
}
use system_design_course.Builder.Output.{
  Normalized, normalize_all, place_text, sorted_texts, puzzle_icons, used_icons, used_kinds,
}
use system_design_course.Builder.Filled.{HasCategories, IsKnown, puzzles_normalized}

place_text-All :
    (P : Text → Type 0) (t : Text) (ts : List Text) → P t → All P ts → All P (place_text t ts)
unfolding place_text
place_text-All P t [] h hs = (h, tt)
place_text-All P t (u ∷ us) h hs =
    if_both (All P) (text_eq t u) _ _ hs
      (if_both (All P) (text_lt t u) _ _ (h, hs) (hs.0, place_text-All P t us h hs.1))

sorted_texts-All : (P : Text → Type 0) (ts : List Text) → All P ts → All P (sorted_texts ts)
unfolding sorted_texts
sorted_texts-All P [] h = tt
sorted_texts-All P (t ∷ ts) h = place_text-All P t (sorted_texts ts) h.0 (sorted_texts-All P ts h.1)

All-known : (ctx : Context) (is : List Text) → All (IsKnown ctx) is → all_known ctx is ≡ true
unfolding all_known
All-known ctx [] h = refl
All-known ctx (i ∷ is) h = ground (arith, h.0, All-known ctx is h.1)

check_fields-palette :
    (ctx : Context) (p : Puzzle) (stem : Option Text)
    → Clean (check_fields ctx p stem)
    → Clean (check_palette ctx p)
unfolding check_fields
check_fields-palette ctx p stem h =
    let r1 = (Clean-append (check_ids p stem) _ h).1 in
    let r2 = (Clean-append (check_tokens ctx.patterns p) _ r1).1 in
    (Clean-append (check_palette ctx p) _ r2).0

AllClean : Context → List (Puzzle × Option Overlay) → Type 0
AllClean ctx ps = All (λ q. Clean (check_palette ctx q.0)) ps

-- The first of the files that are loaded.
loaded_first :
    (ctx : Context) (d : Option Decoded) (overlay : Option Overlay)
    (rest : List (Puzzle × Option Overlay))
    → ((p : Puzzle) → d ≡ some (admitted p) → Clean (check_palette ctx p))
    → AllClean ctx rest
    → AllClean ctx (elim d [
      | none ↦ rest
      | some (refused e es) ↦ rest
      | some (admitted p) ↦ (p, overlay) ∷ rest
    ])
unfolding AllClean
loaded_first ctx none overlay rest own hr = hr
loaded_first ctx (some (refused e es)) overlay rest own hr = hr
loaded_first ctx (some (admitted p)) overlay rest own hr = (own p refl, hr)

loaded-AllClean :
    (ctx : Context) (files : List File) → all_errors ctx files ≡ [] → AllClean ctx (loaded files)
unfolding all_errors loaded concat_map AllClean
loaded-AllClean ctx [] h = tt
loaded-AllClean ctx (f ∷ fs) h =
    let (own, others) = (append_nil (errors (check_file ctx f)) (all_errors ctx fs)).0 h in
    loaded_first ctx f.puzzle _ (loaded fs)
      (λ p e. check_fields-palette ctx p (some f.stem) (check_file-Clean ctx f p e own))
      (loaded-AllClean ctx fs others)

-- What can come of the puzzles once they are normalized: no manifest, an icon of the sprite that is not in
-- it or cannot be drawn, or the game with a symbol for each icon.
pub IsOutcome : Assets → List Normalized → List Text → Dict Cloud → List Package → Built → Type 0
IsOutcome a ns known clouds packages result =
    let kinds = used_kinds known ns in
    let names = sprite_names (used_icons ns) kinds clouds in
    ((a.manifest ≡ none) × (result ≡ no_manifest))
    ⊎ ((m : Dict (Option Text)) × (a.manifest ≡ some m)
        × (((i : Text) × In i names × IsFault a m i result)
            ⊎ ((symbols : List Text) × (length symbols ≡ length names)
                × (result
                    ≡ game record {
                      puzzles = ns;
                      icons = used_icons ns;
                      kinds = kinds;
                      clouds = clouds;
                      packages = packages;
                      sprite = symbols;
                    }))))

-- The entries of the manifest, when it is there, have their files.
unfoldable pub ManifestFiles : Option (Dict (Option Text)) → Type 0
unfolding HasFiles
ManifestFiles none = Unit
ManifestFiles (some m) = HasFiles m

-- The registry has its groups, clouds and categories, packages.tsv can be read, and the entries of the
-- manifest have their files.
pub record IsComplete (a : Assets) (known : List Text) (clouds : Dict Cloud)
    (packages : List Package) : Type 0 where
  pub groups : a.groups ≡ some known
  pub clouds_read : Option.bind a.clouds game_clouds ≡ some clouds
  pub packages_read : load_packages a.package_lines ≡ some packages
  pub categories : a.has_categories ≡ true
  pub files : ManifestFiles a.manifest

assemble-IsOutcome :
    (ctx : Context) (a : Assets) (ns : List Normalized) (known : List Text) (clouds : Dict Cloud)
    (packages : List Package)
    → IsComplete a known clouds packages
    → All (IsKnown ctx) (concat_map puzzle_icons ns)
    → IsOutcome a ns known clouds packages (assemble ctx a ns)
unfolding IsOutcome assemble ManifestFiles kinds_of
assemble-IsOutcome ctx a ns known clouds packages whole all_in =
    let icons = All-known ctx (used_icons ns) (sorted_texts-All (IsKnown ctx) _ all_in) in
    let names = sprite_names (used_icons ns) (used_kinds known ns) clouds in
    elim (Option-cases a.manifest) [
      | inl e ↦ inl (e, ground (arith, e, whole.groups))
      | inr (m, e) ↦ elim (draw_all-cases a m names (subst ManifestFiles e whole.files)) [
        | inl (i, b, inside, why, g) ↦
            let result : assemble ctx a ns ≡ b =
              ground (arith, e, g, whole.groups, whole.clouds_read) in
            inr (m, e, inl (i, inside, subst (IsFault a m i) (sym result) why))
        | inr (symbols, same, g) ↦ inr (
          m,
          e,
          inr (
            symbols,
            same,
            ground (
              arith, e, g, whole.groups, whole.clouds_read, whole.packages_read, whole.categories,
              icons,
            ),
          ),
        )
      ]
    ]

-- When `validate` exits with 0, the strings have the same keys, each service of the registry has a
-- category and the rest of what `build` reads is complete, `build` raises no KeyError and no error of
-- the checks: it normalizes every puzzle that it was asked for, and then reports that the manifest is
-- not there, or an icon of the sprite that is not in it or whose file cannot be drawn, or makes the game
-- with a symbol for each of them.
pub build-IsOutcome :
    (ctx : Context) (a : Assets) (strings : Strings) (published_only : Bool) (files : List File)
    (known : List Text) (clouds : Dict Cloud) (packages : List Package)
    → HasCategories ctx
    → IsComplete a known clouds packages
    → keys_agree strings ≡ true
    → cmd_validate ctx files ≡ 0
    → (ns : List Normalized) × (normalize_all ctx published_only (loaded files) ≡ some ns)
      × IsOutcome a ns known clouds packages (build ctx a strings published_only files)
unfolding build AllClean
build-IsOutcome ctx a strings published_only files known clouds packages cats whole agree h =
    let no_errors = (all_errors-count_bad ctx files).0 (cmd_validate-count_bad ctx files h) in
    let (ns, e, all_in) =
      puzzles_normalized ctx published_only (loaded files) cats
        (loaded-AllClean ctx files no_errors) in
    let result : build ctx a strings published_only files ≡ assemble ctx a ns =
      ground (arith, e, (cmd_validate-build_gate ctx strings files).0 (h, agree)) in
    (
      ns,
      e,
      subst (IsOutcome a ns known clouds packages) (sym result)
          (assemble-IsOutcome ctx a ns known clouds packages whole all_in),
    )
