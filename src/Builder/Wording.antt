-- ===== src/Builder/Wording.antt =====
-- build.py, `validate` 8 to 10: the texts of a puzzle in Spanish.
use system_design_course.Common.{
  ltb, ◌==◌, if◌then◌else◌, length, concat_map, when, Text, codes, text_eq, starts_with, show_nat,
  among, Bool, false, not, ◌||◌, Option, none, some, List, [], ◌∷◌, ◌++◌, map,
}
use system_design_course.Builder.Puzzle.{
  Group, Node, Slot, Edge, Requirement, Tile, Puzzle, Patterns, Context,
}
use system_design_course.Builder.Problem.{
  Problem, article, wrong_cue, unknown_source, em_dash, long_requirement,
}
use system_design_course.Builder.Choices.{reasons}
use system_design_course.Builder.Leaks.{leaks, slot_label}

-- x.get("label", "")
abbrev pub text_or_empty : Option Text → Text
text_or_empty t = elim t [ none ↦ [] | some text ↦ text ]

-- f"{word} {id} label"
abbrev pub label_of : Text → Text → Text
label_of word id = word ++ (codes " " ++ (id ++ codes " label"))

abbrev pub requirement_name : Requirement → Text
requirement_name r = codes "requisito " ++ show_nat r.n

abbrev title_and_summary : Puzzle → List (Text × Text)
title_and_summary p = (codes "title", p.title) ∷ (codes "summary", p.summary) ∷ []

-- The texts in which an answer could leak.
unfoldable pub shown_texts : Patterns → Puzzle → List (Text × Text)
shown_texts x p =
    title_and_summary p
    ++ (map (λ r. (requirement_name r, x.strip_tokens (Requirement.text r))) p.requirements
        ++ (map (λ n. (label_of (codes "nodo") (Node.id n), text_or_empty (Node.label n))) p.nodes
            ++ (map (λ s. (slot_label (Slot.id s), text_or_empty (Slot.label s))) p.slots
                ++ (map (λ e. (label_of (codes "flecha") (Edge.id e), text_or_empty (Edge.label e)))
                      p.edges
                    ++ map (λ g. (label_of (codes "grupo") (Group.id g), Group.label g))
                        p.groups))))

abbrev check_article : Patterns → Requirement → List Problem
check_article x r = when (x.article_es r.text) (article r.n)

-- part in text
unfoldable pub is_part : Text → Text → Bool
is_part part [] = text_eq part []
is_part part (c ∷ cs) = starts_with (c ∷ cs) part || is_part part cs

-- The first requirement of a slot.
unfoldable pub requirement_of : Text → List Requirement → Option Requirement
requirement_of sid [] = none
requirement_of sid (r ∷ rs) =
    let later = requirement_of sid rs in
    elim r.slot [ none ↦ later | some s ↦ if text_eq s sid then some r else later ]

unfoldable pub check_cue : Puzzle → Slot → List Problem
check_cue p s =
    (elim (requirement_of s.id p.requirements) [
      | none ↦ []
      | some r ↦ when (not (is_part s.hint_cue r.text)) (wrong_cue s.hint_cue s.id r.n)
    ])
    ++ concat_map (λ u. when (not (among u p.urls)) (unknown_source s.id u)) s.refs

abbrev pub em_dash_in : Text → Bool
em_dash_in [] = false
em_dash_in (c ∷ cs) = (c == 0x2014) || em_dash_in cs

abbrev reason_texts : Tile → List (Text × Text)
reason_texts t = map (λ e. (codes "why_not " ++ (t.service ++ (codes " " ++ e.0)), e.1)) (reasons t)

-- The texts in which no long dash may stand.
unfoldable pub plain_texts : Puzzle → List (Text × Text)
plain_texts p =
    title_and_summary p
    ++ (map (λ r. (requirement_name r, Requirement.text r)) p.requirements
        ++ (map (λ s. (codes "slot " ++ (Slot.id s ++ codes " explanation"), Slot.explanation s))
              p.slots
            ++ concat_map reason_texts p.palette))

abbrev pub check_dash : Text × Text → List Problem
check_dash (where_found, text) = when (em_dash_in text) (em_dash where_found)

abbrev check_length : Requirement → List Problem
check_length r = when (ltb 220 (length r.text)) (long_requirement r.n)

unfoldable pub check_wording : Context → Puzzle → List Problem
check_wording ctx p =
    leaks p ctx (shown_texts ctx.patterns p) (codes "es")
    ++ (concat_map (check_article ctx.patterns) p.requirements
        ++ (concat_map (check_cue p) p.slots
            ++ (concat_map check_dash (plain_texts p) ++ concat_map check_length p.requirements)))
