-- ===== src/Builder/Tests.antt =====
-- A small puzzle that the model of build.py accepts, and each theorem at it.
use mathlib.Core.Option.{bind}
use system_design_course.Common.{
  concat_map, codes, text_eq, text_lt, starts_with, strip, show_nat, among, times, Dict, lookup,
  has_key, insert, erase, ◌+◌, ◌≤◌, ◌≡◌, refl, ap, ◌↔◌, inl, inr, true, false, none, some, List, [],
  ◌∷◌,
}
use system_design_course.Builder.Names.{check_ids, check_target, check_requirement, check_tokens}
use system_design_course.Builder.Palette.{
  palette_onto, check_answer, check_other, check_icon, check_label, check_kind, check_palette,
}
use system_design_course.Builder.Numbers.{
  contains_number, count_number, place_number, sorted_set, present, repeated_from, check_numbers,
  check_edge, range_from, check_steps, check_edges,
}
use system_design_course.Builder.Choices.{
  distractors, fillers, check_distractor, check_near_miss, check_choices,
}
use system_design_course.Builder.Leaks.{
  add_name, add_names, without_prefixes, place_name, sort_names, service_names, answers_onto,
  leaks_in, leaks_of, leaks,
}
use system_design_course.Builder.Wording.{
  shown_texts, is_part, requirement_of, check_cue, plain_texts, check_wording,
}
use system_design_course.Builder.Puzzle.{index_onto, index_by, count_in, tally_onto, tally}
use system_design_course.Builder.Problem.{errors, warnings, Clean, errors-Clean}
use system_design_course.Builder.Geometry.{
  node_box, group_rect, label_box, inside, overlap, decimals_ok, grid_box, breaks_margins,
  chain_from, chain,
}
use system_design_course.Builder.Layout.{
  check_group, check_margins, check_nesting, check_siblings, check_pairs, check_borders,
  check_against, on_grid, check_place, check_item, check_apart, check_geometry,
}
use system_design_course.Builder.Difficulty.{
  slots_score, wrong_tiles, ratio_score, is_near, count_if, any_of, is_named, score_of, Level,
  level_of, difficulty, level_named, easy, hard,
}
use system_design_course.Builder.Validate.{
  check_override, check_fields, validate, check_translation_file, check_file, count_bad,
  cmd_validate, loaded, Strings, keys_agree, all_errors, build_gate, passes,
}
use system_design_course.Builder.Sound.{IsConsistent, cmd_validate-IsConsistent}
use system_design_course.Builder.Nested.{Within, ancestors-Within, chain_ends}
use system_design_course.Builder.Bounds.{difficulty_total}
use system_design_course.Builder.Gate.{cmd_validate-build_gate}
use system_design_course.Builder.Sample.{network, subnet, small, context, good, groups_by_id}
use system_design_course.Builder.Output.{Normalized, normalize_all}
use system_design_course.Builder.Assemble.{
  Cloud, game_cloud, game_clouds, load_packages, Assets, build, symbol,
}
use system_design_course.Builder.Filled.{HasCategories}
use system_design_course.Builder.Drawn.{HasFiles}
use system_design_course.Builder.Built.{IsOutcome, ManifestFiles, IsComplete, build-IsOutcome}

small_accepted : cmd_validate context (good ∷ []) ≡ 0
unfolding index_onto index_by count_in tally_onto tally errors warnings Clean check_ids check_target
    check_requirement check_tokens palette_onto check_answer check_other check_icon check_label
    check_kind check_palette contains_number count_number place_number sorted_set present
    repeated_from check_numbers check_edge range_from check_steps check_edges node_box group_rect
    label_box inside overlap decimals_ok grid_box breaks_margins chain_from check_group
    check_margins check_nesting check_siblings check_pairs check_borders check_against on_grid
    check_place check_item check_apart check_geometry distractors fillers check_distractor
    check_near_miss check_choices add_name add_names without_prefixes place_name sort_names
    service_names answers_onto leaks_in leaks_of leaks shown_texts is_part requirement_of check_cue
    plain_texts check_wording slots_score wrong_tiles ratio_score is_near count_if any_of is_named
    score_of level_of difficulty level_named check_override check_fields validate
    check_translation_file check_file count_bad cmd_validate loaded all_errors build_gate concat_map
    text_eq text_lt starts_with strip show_nat among times lookup has_key insert erase
small_accepted = refl

cmd_validate-IsConsistent_example : IsConsistent context.patterns small
cmd_validate-IsConsistent_example =
    cmd_validate-IsConsistent context (good ∷ []) good small small_accepted (inl refl) refl

abbrev texts : Strings
texts = record { es = codes "title" ∷ codes "next" ∷ []; en = codes "next" ∷ codes "title" ∷ [] }

cmd_validate-build_gate_example :
    ((cmd_validate context (good ∷ []) ≡ 0) × (keys_agree texts ≡ true))
    ↔ (build_gate context texts (good ∷ []) ≡ passes (loaded (good ∷ [])))
cmd_validate-build_gate_example = cmd_validate-build_gate context texts (good ∷ [])

small_laid_out : check_geometry small ≡ []
unfolding index_onto index_by count_in tally_onto tally errors warnings Clean check_ids check_target
    check_requirement check_tokens palette_onto check_answer check_other check_icon check_label
    check_kind check_palette contains_number count_number place_number sorted_set present
    repeated_from check_numbers check_edge range_from check_steps check_edges node_box group_rect
    label_box inside overlap decimals_ok grid_box breaks_margins chain_from check_group
    check_margins check_nesting check_siblings check_pairs check_borders check_against on_grid
    check_place check_item check_apart check_geometry distractors fillers check_distractor
    check_near_miss check_choices add_name add_names without_prefixes place_name sort_names
    service_names answers_onto leaks_in leaks_of leaks shown_texts is_part requirement_of check_cue
    plain_texts check_wording slots_score wrong_tiles ratio_score is_near count_if any_of is_named
    score_of level_of difficulty level_named check_override check_fields validate
    check_translation_file check_file count_bad cmd_validate loaded all_errors build_gate concat_map
    text_eq text_lt starts_with strip show_nat among times lookup has_key insert erase
small_laid_out = refl

small-Clean : Clean (check_geometry small)
unfolding errors
small-Clean = errors-Clean (check_geometry small) (ap errors small_laid_out)

no_empty_id : lookup [] groups_by_id ≡ none
unfolding lookup index_by index_onto insert text_eq
no_empty_id = refl

subnet_found : lookup (codes "g-sub") groups_by_id ≡ some subnet
unfolding lookup index_by index_onto insert text_eq
subnet_found = refl

network_found : lookup (codes "g-net") groups_by_id ≡ some network
unfolding lookup index_by index_onto insert text_eq
network_found = refl

subnet_chain : chain groups_by_id (codes "g-sub") ≡ codes "g-sub" ∷ codes "g-net" ∷ []
unfolding chain_from lookup index_by index_onto insert text_eq
subnet_chain = refl

ancestors-Within_example : Within subnet.cell network.cell
unfolding chain_from lookup index_by index_onto insert text_eq
ancestors-Within_example =
    ancestors-Within small subnet network (codes "g-sub") (codes "g-net") no_empty_id small-Clean
      subnet_found (inr (inl refl)) network_found

chain_ends_example :
    chain_from (7 + 50) groups_by_id (some (codes "g-sub")) ≡ chain groups_by_id (codes "g-sub")
chain_ends_example = chain_ends small subnet 7 small-Clean (inr (inl refl))

difficulty_total_example :
    (level : Level) × (difficulty context small ≡ some (score_of context small, level))
    × (score_of context small ≤ 11)
    × ((level ≡ easy) ↔ (score_of context small ≤ 3))
    × ((level ≡ hard) ↔ (7 ≤ score_of context small))
difficulty_total_example = difficulty_total context small

context-HasCategories : HasCategories context
unfolding HasCategories
context-HasCategories = (refl, (refl, tt))

abbrev extracted : Assets
extracted = record {
  groups = some (codes "vpc" ∷ []);
  clouds = some (
      (
        codes "aws",
        record {
          label = some (codes "AWS");
          name = some (codes "Amazon Web Services");
          package_id = some (codes "aws");
          has_logo = false;
          is_wordmark = false;
        },
      )
      ∷ []);
  has_categories = true;
  package_lines = codes "# id" ∷ [];
  manifest = some ((codes "vm", some (codes "vm.svg")) ∷ (codes "db", some (codes "db.svg")) ∷ []);
  draw = λ file id. symbol id;
}

abbrev only_aws : Dict Cloud
only_aws =
    (
      codes "aws",
      record {
        label = codes "AWS";
        name = codes "Amazon Web Services";
        package_id = codes "aws";
        logo = none;
        wordmark = false;
      },
    )
    ∷ []

extracted-IsComplete : IsComplete extracted (codes "vpc" ∷ []) only_aws []
unfolding game_clouds game_cloud load_packages text_eq strip starts_with ManifestFiles HasFiles bind
    among
extracted-IsComplete = record {
  groups = refl;
  clouds_read = refl;
  packages_read = refl;
  categories = refl;
  files = (refl, (refl, tt));
}

texts_agree : keys_agree texts ≡ true
unfolding keys_agree text_eq among
texts_agree = refl

build-IsOutcome_example :
    (ns : List Normalized) × (normalize_all context false (loaded (good ∷ [])) ≡ some ns)
    × IsOutcome extracted ns
        (codes "vpc" ∷ [])
        only_aws
        []
        (build context extracted texts false (good ∷ []))
build-IsOutcome_example =
    build-IsOutcome context extracted texts false (good ∷ []) (codes "vpc" ∷ []) only_aws []
      context-HasCategories extracted-IsComplete texts_agree small_accepted
