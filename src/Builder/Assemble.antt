-- ===== src/Builder/Assemble.antt =====
-- build.py: `build` after its checks, up to the files that it writes, with `load_packages`. What `build`
-- reads comes decoded from outside: the registry, the manifest of the icons and the lines of
-- packages.tsv. So does each drawing, which `svg_symbol` makes of a file.
use mathlib.Core.Option
use system_design_course.Common.{
  ◌==◌, if◌then◌else◌, is_some, ◌>>=◌, Text, codes, text_eq, starts_with, strip, among, Dict,
  lookup, has_key, Bool, true, false, ◌&&◌, ◌||◌, Option, none, some, List, [], ◌∷◌, ◌++◌, map,
}
use system_design_course.Builder.Puzzle.{Context}
use system_design_course.Builder.Problem.{Problem}
use system_design_course.Builder.Validate.{
  File, Strings, build_gate, strings_differ, build_error, passes,
}
use system_design_course.Builder.Output.{Normalized, normalize_all, used_icons, used_kinds}

-- An entry of registry["clouds"]: its texts "label", "name" and "package", where they are there, and whether it has a logo, and one
-- that is the written name.
pub record CloudEntry : Type 0 where
  pub label : Option Text
  pub name : Option Text
  pub package_id : Option Text
  pub has_logo : Bool
  pub is_wordmark : Bool

pub record Cloud : Type 0 where
  pub label : Text
  pub name : Text
  pub package_id : Text
  pub logo : Option Text
  pub wordmark : Bool

-- CLOUDS
abbrev cloud_ids : List Text
cloud_ids = codes "aws" ∷ codes "azure" ∷ codes "gcp" ∷ codes "oci" ∷ []

unfoldable pub game_cloud : Text → CloudEntry → Option Cloud
game_cloud id e = do
  label ← e.label
  name ← e.name
  package_id ← e.package_id
  some record {
    label = label;
    name = name;
    package_id = package_id;
    logo = if e.has_logo then some (codes "gi-cloud-" ++ id) else none;
    wordmark = e.has_logo && e.is_wordmark;
  }

-- `none` is a KeyError.
unfoldable pub game_clouds : Dict CloudEntry → Option (Dict Cloud)
unfolding game_cloud
game_clouds [] = some []
game_clouds ((id, e) ∷ es) =
    let rest = game_clouds es in
    if among id cloud_ids
    then (do cloud ← game_cloud id e; clouds ← rest; some ((id, cloud) ∷ clouds))
    else rest

unfoldable pub logo_names : Dict Cloud → List Text
logo_names [] = []
logo_names ((id, cloud) ∷ clouds) =
    let rest = logo_names clouds in
    if is_some cloud.logo then (codes "cloud-" ++ id) ∷ rest else rest

-- A row of packages.tsv, without the checksum, which the game does not use.
pub record Package : Type 0 where
  pub id : Text
  pub file : Text
  pub url : Text

-- line.split("\t")
unfoldable pub split_tab : Text → List Text
split_tab [] = [] ∷ []
split_tab (c ∷ cs) = elim (split_tab cs) [
  | [] ↦ [] ∷ []
  | ◌∷◌ part parts ↦ if c == 9 then [] ∷ part ∷ parts else (c ∷ part) ∷ parts
]

-- `none` is the ValueError of a row that has not four columns.
unfoldable pub package_of : List Text → Option Package
package_of (id ∷ file ∷ checksum ∷ url ∷ []) = some record { id = id; file = file; url = url }
package_of _ = none

abbrev is_skipped : Text → Bool
is_skipped line = text_eq (strip line) [] || starts_with line (codes "#")

unfoldable pub load_packages : List Text → Option (List Package)
unfolding package_of split_tab
load_packages [] = some []
load_packages (line ∷ lines) =
    let rest = load_packages lines in
    if is_skipped line
    then rest
    else (do row ← package_of (split_tab line); rows ← rest; some (row ∷ rows))

-- What becomes of an icon's file: the symbol that `svg_symbol` makes of it, its BuildError, or another
-- exception, of the file or of the drawing.
pub data Drawing : Type 0 where
  symbol : Text → Drawing
  no_svg broken_file : Drawing

-- What `build` reads besides the puzzles: the keys of registry["groups"] and the entries of
-- registry["clouds"], where these are there, whether there is registry["categories"], the lines of
-- packages.tsv, the "file" of each entry of the manifest, when the manifest is there, and the drawing
-- of a file under an id.
pub record Assets : Type 0 where
  pub groups : Option (List Text)
  pub clouds : Option (Dict CloudEntry)
  pub has_categories : Bool
  pub package_lines : List Text
  pub manifest : Option (Dict (Option Text))
  pub draw : Text → Text → Drawing

-- What the game's data holds, but for the texts that are copied.
pub record Game : Type 0 where
  pub puzzles : List Normalized
  pub icons : List Text
  pub kinds : List Text
  pub clouds : Dict Cloud
  pub packages : List Package
  pub sprite : List Text

-- How `build` ends: a BuildError for the strings, of the checks, for the manifest, for an icon that is
-- not in it or is no SVG, a KeyError, the exception of an icon's file or of packages.tsv, or the game.
pub data Built : Type 0 where
  strings_mismatch no_manifest key_error bad_packages : Built
  checks_failed : List Problem → Built
  icon_missing not_svg unreadable_icon : Text → Built
  game : Game → Built

pub data Sprite : Type 0 where
  drawn : List Text → Sprite
  failed : Built → Sprite

abbrev pub symbol_id : Text → Text
symbol_id i = codes "gi-" ++ i

unfoldable pub add_symbol : Text → Sprite → Sprite
add_symbol s (drawn ss) = drawn (s ∷ ss)
add_symbol s (failed b) = failed b

-- The loop over the icons of the sprite, which ends at the first that fails.
unfoldable pub draw_all : (Text → Text → Drawing) → Dict (Option Text) → List Text → Sprite
unfolding add_symbol
draw_all draw m [] = drawn []
draw_all draw m (i ∷ is) = elim (lookup i m) [
  | none ↦ failed (icon_missing i)
  | some none ↦ failed key_error
  | some (some file) ↦ elim (draw file (symbol_id i)) [
    | no_svg ↦ failed (not_svg i)
    | broken_file ↦ failed (unreadable_icon i)
    | symbol s ↦ add_symbol s (draw_all draw m is)
  ]
]

abbrev no_groups : List Normalized → Bool
no_groups [] = true
no_groups (n ∷ ns) = elim n.puzzle.groups [ [] ↦ no_groups ns | ◌∷◌ _ _ ↦ false ]

-- registry["groups"] is read for each group.
unfoldable pub kinds_of : Option (List Text) → List Normalized → Option (List Text)
kinds_of none ns = if no_groups ns then some [] else none
kinds_of (some known) ns = some (used_kinds known ns)

abbrev pub sprite_names : List Text → List Text → Dict Cloud → List Text
sprite_names icons kinds clouds =
    icons ++ (map (λ k. codes "group-" ++ k) kinds ++ logo_names clouds)

unfoldable pub all_known : Context → List Text → Bool
all_known ctx [] = true
all_known ctx (i ∷ is) = has_key i ctx.services && all_known ctx is

unfoldable pub assemble : Context → Assets → List Normalized → Built
unfolding draw_all logo_names
assemble ctx a ns = elim (kinds_of a.groups ns) [
  | none ↦ key_error
  | some kinds ↦ elim a.manifest [
    | none ↦ no_manifest
    | some m ↦ elim (Option.bind a.clouds game_clouds) [
      | none ↦ key_error
      | some clouds ↦ elim (draw_all a.draw m (sprite_names (used_icons ns) kinds clouds)) [
        | failed b ↦ b
        | drawn symbols ↦ elim (load_packages a.package_lines) [
          | none ↦ bad_packages
          | some packages ↦
              if a.has_categories && all_known ctx (used_icons ns)
              then game record {
                puzzles = ns;
                icons = used_icons ns;
                kinds = kinds;
                clouds = clouds;
                packages = packages;
                sprite = symbols;
              }
              else key_error
        ]
      ]
    ]
  ]
]

unfoldable pub build : Context → Assets → Strings → Bool → List File → Built
build ctx a strings published_only files = elim (build_gate ctx strings files) [
  | strings_differ ↦ strings_mismatch
  | build_error es ↦ checks_failed es
  | passes ps ↦ elim (normalize_all ctx published_only ps) [
    | none ↦ key_error
    | some ns ↦ assemble ctx a ns
  ]
]
