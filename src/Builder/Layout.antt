-- ===== src/Builder/Layout.antt =====
-- build.py, `check_geometry`: the groups, nodes and slots of a puzzle on its grid.
use system_design_course.Common.{
  leb, if◌then◌else◌, length, concat_map, when, Text, codes, text_eq, among, Dict, lookup, has_key,
  ◌+◌, ◌*◌, Bool, true, false, not, ◌&&◌, Option, none, some, List, [], ◌∷◌, ◌++◌, map,
}
use system_design_course.Builder.Puzzle.{Cell, Group, Node, Slot, Puzzle, index_by}
use system_design_course.Builder.Problem.{
  Problem, group_decimals, group_outside, unknown_parent, parent_cycle, margins, siblings_overlap,
  item_decimals, item_outside, unknown_group, not_in_group, in_other_group, crosses_border,
  covers_label, items_overlap,
}
use system_design_course.Builder.Geometry.{
  unit, node_box, group_rect, crossing, label_box, half_unit, inside, overlap, decimals_ok,
  grid_box, breaks_margins, chain,
}

-- `none` is no id, and neither is the empty one.
abbrev pub some_id : Option Text → Option Text
some_id none = none
some_id (some []) = none
some_id (some (c ∷ cs)) = some (c ∷ cs)

abbrev parent_known : Dict Group → Group → List Problem
parent_known groups g = elim g.parent [
  | none ↦ []
  | some id ↦ when (not (has_key id groups)) (unknown_parent g.id id)
]

unfoldable pub check_group : Puzzle → Dict Group → Group → List Problem
check_group p groups g =
    when
      (not (
        decimals_ok g.cell.c
        && (decimals_ok g.cell.r && (decimals_ok g.cell.w && decimals_ok g.cell.h))))
      (group_decimals g.id)
    ++ (when (not (inside (group_rect g.cell) (grid_box p) half_unit)) (group_outside g.id)
        ++ parent_known groups g)

-- `groups.get(g["parent"]) if g["parent"] else None`
abbrev pub parent_of : Dict Group → Group → Option Group
parent_of groups g = elim (some_id g.parent) [ none ↦ none | some id ↦ lookup id groups ]

unfoldable pub check_margins : Dict Group → Group → List Problem
check_margins groups g = elim (parent_of groups g) [
  | none ↦ []
  | some par ↦ when (breaks_margins g.cell par.cell) (margins g.id par.id)
]

unfoldable pub check_nesting : Dict Group → Group → List Problem
check_nesting groups g =
    when (leb 50 (length (chain groups g.id))) (parent_cycle g.id) ++ check_margins groups g

abbrev same_parent : Option Text → Option Text → Bool
same_parent none none = true
same_parent (some a) (some b) = text_eq a b
same_parent _ _ = false

unfoldable pub check_siblings : Group → Group → List Problem
check_siblings g h =
    when
      (same_parent g.parent h.parent
        && (not (among g.kind crossing)
            && (not (among h.kind crossing)
                && overlap (group_rect g.cell) (group_rect h.cell) half_unit)))
      (siblings_overlap g.id h.id)

-- `for i, g in enumerate(xs): for h in xs[i + 1 :]`
unfoldable pub check_pairs : {A : Type 0} → (A → A → List Problem) → List A → List Problem
check_pairs check [] = []
check_pairs check (x ∷ xs) = concat_map (check x) xs ++ check_pairs check xs

-- A node or a slot: its id, cell, group and icon.
pub record Item : Type 0 where
  pub id : Text
  pub cell : Cell
  pub group : Option Text
  pub icon : Text

abbrev pub node_item : Node → Item
node_item n = record { id = n.id; cell = n.cell; group = n.group; icon = n.icon }

abbrev pub slot_item : Slot → Item
slot_item s = record { id = s.id; cell = s.cell; group = s.group; icon = s.accept }

abbrev pub items : Puzzle → List Item
items p = map node_item p.nodes ++ map slot_item p.slots

-- STRADDLE
abbrev straddle : List Text
straddle = codes "aws-internet-gateway" ∷ codes "aws-nat-gateway" ∷ codes "aws-vpc-endpoint" ∷ []

-- The borders of one group; `allowed` are the item's group and the ancestors of that.
unfoldable pub check_borders : Item → List Text → Group → List Problem
check_borders x allowed g =
    let box = node_box x.cell in
    let r = group_rect g.cell in
    if among g.id allowed
    then when (not (inside box r half_unit)) (not_in_group x.id g.id)
    else (if among g.kind crossing
        then []
        else (if inside box r half_unit
            then in_other_group x.id g.id ∷ []
            else when (overlap box r half_unit && not (among x.icon straddle))
                (crosses_border x.id g.id)))

abbrev check_cover : Item → Group → List Problem
check_cover x g = when (overlap (node_box x.cell) (label_box g) half_unit) (covers_label x.id g.id)

unfoldable pub check_against : Item → List Text → Group → List Problem
check_against x allowed g = check_borders x allowed g ++ check_cover x g

-- The cell lies on the grid.
unfoldable pub on_grid : Puzzle → Cell → Bool
on_grid p cell = leb (cell.c + unit) (p.cols * unit) && leb (cell.r + unit) p.rows

abbrev pub allowed_of : Dict Group → Item → List Text
allowed_of groups x = elim (some_id x.group) [ none ↦ [] | some id ↦ chain groups id ]

abbrev pub group_known : Dict Group → Item → Bool
group_known groups x = elim x.group [ none ↦ true | some id ↦ has_key id groups ]

abbrev pub group_name : Item → Text
group_name x = elim x.group [ none ↦ [] | some id ↦ id ]

-- An item off the grid, or of a group that is not there, is not compared with the groups.
unfoldable pub check_place : Puzzle → Dict Group → Item → List Problem
check_place p groups x =
    if not (on_grid p x.cell)
    then item_outside x.id ∷ []
    else (if not (group_known groups x)
        then unknown_group x.id (group_name x) ∷ []
        else concat_map (check_against x (allowed_of groups x)) p.groups)

unfoldable pub check_item : Puzzle → Dict Group → Item → List Problem
check_item p groups x =
    when (not (decimals_ok x.cell.c && decimals_ok x.cell.r)) (item_decimals x.id)
    ++ check_place p groups x

unfoldable pub check_apart : Item → Item → List Problem
check_apart a b =
    when (overlap (node_box a.cell) (node_box b.cell) (2 * unit)) (items_overlap a.id b.id)

unfoldable pub check_geometry : Puzzle → List Problem
check_geometry p =
    let groups = index_by Group.id p.groups in
    concat_map (check_group p groups) p.groups
    ++ (concat_map (check_nesting groups) p.groups
        ++ (check_pairs check_siblings p.groups
            ++ (concat_map (check_item p groups) (items p) ++ check_pairs check_apart (items p))))
