-- ===== src/Builder/Overlay.antt =====
-- build.py, `validate_overlay` and `overlay_texts`: the English translation of a puzzle. A key that is
-- absent, null or empty is an empty dict; `keys` are all the keys of the file.
use system_design_course.Common.{
  leb, if◌then◌else◌, length, concat_map, when, Text, codes, text_eq, show_nat, among, Dict, lookup,
  ℕ, Bool, true, false, not, ◌&&◌, Option, none, some, List, [], ◌∷◌, ◌++◌, map,
}
use system_design_course.Builder.Puzzle.{
  Group, Node, Slot, Edge, Requirement, Tile, Puzzle, Patterns, Context, index_by,
}
use system_design_course.Builder.Problem.{
  Problem, why_not_slot, translated_article, other_tokens, translated_cue, unknown_key, other_id,
  unknown_requirement, unknown_member, why_not_service, unknown_fields, text_length,
}
use system_design_course.Builder.Names.{text_lists_eq}
use system_design_course.Builder.Palette.{no_text}
use system_design_course.Builder.Leaks.{leaks}
use system_design_course.Builder.Wording.{
  text_or_empty, label_of, is_part, requirement_of, check_dash,
}

pub record Overlay : Type 0 where
  pub keys : List Text
  pub id : Option Text
  pub title : Option Text
  pub summary : Option Text
  pub requirements : Dict Text
  pub slots : Dict (Dict Text)
  pub nodes : Dict Text
  pub edges : Dict Text
  pub groups : Dict Text
  pub why_not : Dict (Dict Text)

-- OVERLAY_KEYS
abbrev overlay_keys : List Text
overlay_keys =
    codes "id"
    ∷ codes "title"
    ∷ codes "summary"
    ∷ codes "requirements"
    ∷ codes "slots"
    ∷ codes "nodes"
    ∷ codes "edges"
    ∷ codes "groups"
    ∷ codes "why_not"
    ∷ []

abbrev check_key : Text → List Problem
check_key k = when (not (among k overlay_keys)) (unknown_key k)

abbrev same_id : Option Text → Text → Bool
same_id none id = false
same_id (some id') id = text_eq id' id

-- {str(r["n"]): r for r in requirements}
abbrev by_number : Puzzle → Dict Requirement
by_number p = index_by (λ r. show_nat (Requirement.n r)) p.requirements

unfoldable pub check_translation : Patterns → Dict Requirement → Text × Text → List Problem
check_translation x by_n (n, text) = elim (lookup n by_n) [
  | none ↦ unknown_requirement n ∷ []
  | some r ↦
      when (not (text_lists_eq (x.find_tokens text) (x.find_tokens r.text)))
        (other_tokens n (x.find_tokens r.text))
      ++ when (x.article_en text) (translated_article n)
]

unfoldable pub check_members : {A : Type 0} → Text → List Text → Dict A → List Problem
check_members coll ids d = concat_map (λ e. when (not (among e.0 ids)) (unknown_member coll e.0)) d

-- not low <= len(text) <= high
abbrev out_of_range : ℕ → ℕ → Text → Bool
out_of_range low high text = not (leb low (length text) && leb (length text) high)

abbrev check_reason : List Text → Text → Text × Text → List Problem
check_reason slots svc (k, text) =
    when (not (text_eq k (codes "*")) && not (among k slots)) (why_not_slot svc k)
    ++ when (out_of_range 15 300 text) (text_length k)

unfoldable pub check_reasons : List Text → List Text → Text × Dict Text → List Problem
check_reasons services slots (svc, m) =
    when (not (among svc services)) (why_not_service svc) ++ concat_map (check_reason slots svc) m

unfoldable pub unknown_of : List Text → Dict Text → List Text
unknown_of known [] = []
unknown_of known ((k, v) ∷ d) =
    let rest = unknown_of known d in if among k known then rest else k ∷ rest

abbrev slot_fields : List Text
slot_fields = codes "explanation" ∷ codes "hint_cue" ∷ codes "label" ∷ []

abbrev some_unknown : List Text → Bool
some_unknown [] = false
some_unknown (k ∷ ks) = true

-- The text of the requirement of the slot in the translation; the empty text where it is missing.
abbrev translated : Overlay → Requirement → Text
translated tr r = text_or_empty (lookup (show_nat r.n) tr.requirements)

unfoldable pub check_slot_texts : Puzzle → Overlay → Text × Dict Text → List Problem
check_slot_texts p tr (sid, f) =
    when (some_unknown (unknown_of slot_fields f)) (unknown_fields sid (unknown_of slot_fields f))
    ++ ((elim (lookup (codes "explanation") f) [
      | none ↦ []
      | some text ↦ when (out_of_range 20 300 text) (text_length sid)
    ])
        ++ (elim (requirement_of sid p.requirements) [
          | none ↦ []
          | some r ↦
              when
                (not (no_text (lookup (codes "hint_cue") f))
                  && not (is_part (text_or_empty (lookup (codes "hint_cue") f)) (translated tr r)))
                (translated_cue sid)
        ]))

-- `(k, tr[k])` for a title or summary that is there and not empty.
abbrev headline : Text → Option Text → List (Text × Text)
headline k t = if no_text t then [] else (k, text_or_empty t) ∷ []

-- f"{word} {k}"
abbrev named : Text → Text × Text → Text × Text
named word (k, text) = (word ++ (codes " " ++ k), text)

unfoldable pub overlay_texts : Overlay → List (Text × Text)
overlay_texts tr =
    headline (codes "title") tr.title
    ++ (headline (codes "summary") tr.summary
        ++ (map (named (codes "requisito")) tr.requirements
            ++ (concat_map (λ e. map (named (codes "slot " ++ e.0)) e.1) tr.slots
                ++ (concat_map (λ e. map (named (codes "why_not " ++ e.0)) e.1) tr.why_not
                    ++ (map (named (codes "nodes")) tr.nodes
                        ++ (map (named (codes "edges")) tr.edges
                            ++ map (named (codes "groups")) tr.groups))))))

abbrev labelled : Text → Text × Text → Text × Text
labelled word (k, text) = (label_of word k, text)

-- The texts in which an answer could leak.
unfoldable pub overlay_shown : Patterns → Overlay → List (Text × Text)
overlay_shown x tr =
    headline (codes "title") tr.title
    ++ (headline (codes "summary") tr.summary
        ++ (map (λ e. (codes "requisito " ++ e.0, x.strip_tokens e.1)) tr.requirements
            ++ (map (labelled (codes "nodo")) tr.nodes
                ++ (map (labelled (codes "flecha")) tr.edges
                    ++ (map (labelled (codes "grupo")) tr.groups
                        ++ map
                            (λ e. (
                              label_of (codes "slot") e.0,
                              text_or_empty (lookup (codes "label") e.1),
                            ))
                            tr.slots)))))

unfoldable pub validate_overlay : Puzzle → Overlay → Context → List Problem
validate_overlay p tr ctx =
    let x = ctx.patterns in
    let slots = map Slot.id p.slots in
    concat_map check_key tr.keys
    ++ (when (not (same_id tr.id p.id)) (other_id (text_or_empty tr.id) p.id)
        ++ (concat_map (check_translation x (by_number p)) tr.requirements
            ++ (check_members (codes "slots") slots tr.slots
                ++ (check_members (codes "nodes") (map Node.id p.nodes) tr.nodes
                    ++ (check_members (codes "edges") (map Edge.id p.edges) tr.edges
                        ++ (check_members (codes "groups") (map Group.id p.groups) tr.groups
                            ++ (concat_map (check_reasons (map Tile.service p.palette) slots)
                                  tr.why_not
                                ++ (concat_map (check_slot_texts p tr) tr.slots
                                    ++ (concat_map check_dash (overlay_texts tr)
                                        ++ leaks p ctx (overlay_shown x tr) (codes "en"))))))))))
