-- ===== src/Builder/Geometry.antt =====
-- build.py, the geometry in SVG units: boxes of nodes, groups and labels, in millionths of a unit. A
-- box may begin left of the drawing, so its left side is a difference of two numbers, `left - less`.
use system_design_course.Common.{
  ltb, leb, ◌==◌, if◌then◌else◌, length, Text, codes, among, Dict, lookup, ℕ, zero, suc, ◌+◌, ◌*◌,
  ◌%◌, min, Bool, ◌&&◌, ◌||◌, Option, none, some, List, [], ◌∷◌,
}
use system_design_course.Builder.Puzzle.{Cell, Area, Group, Puzzle}

abbrev pub unit : ℕ
unit = 1000000

-- CW and CH
abbrev pub cell_width : ℕ
cell_width = 120

abbrev pub cell_height : ℕ
cell_height = 112

pub record Box : Type 0 where
  pub left : ℕ
  pub less : ℕ
  pub top : ℕ
  pub right : ℕ
  pub bottom : ℕ

-- NODE_BOX is (-54, 0, 54, 104) around the middle of the top of the cell.
unfoldable pub node_box : Cell → Box
node_box cell =
    let cx = cell.c * cell_width + 60 * unit in
    let top = cell.r * cell_height in
    record {
      left = cx;
      less = 54 * unit;
      top = top;
      right = cx + 54 * unit;
      bottom = top + 104 * unit;
    }

unfoldable pub group_rect : Area → Box
group_rect cell = record {
  left = cell.c * cell_width;
  less = 0;
  top = cell.r * cell_height;
  right = (cell.c + cell.w) * cell_width;
  bottom = (cell.r + cell.h) * cell_height;
}

-- CROSSING
abbrev pub crossing : List Text
crossing =
    codes "auto-scaling-group"
    ∷ codes "security-group"
    ∷ codes "az"
    ∷ codes "azure-zone"
    ∷ codes "gcp-zone"
    ∷ codes "oci-ad"
    ∷ codes "oci-fault-domain"
    ∷ []

-- LABEL_H, LABEL_CHAR and LABEL_PAD are 26, 8.2 and 34.
unfoldable pub label_box : Group → Box
label_box g =
    let rect = group_rect g.cell in
    if among g.kind crossing
    then record {
      left = (g.cell.c + (g.cell.c + g.cell.w)) * 60;
      less = 4100000 * length g.label;
      top = rect.top;
      right = (g.cell.c + (g.cell.c + g.cell.w)) * 60 + 4100000 * length g.label;
      bottom = rect.top + 26 * unit;
    }
    else record {
      left = rect.left;
      less = 0;
      top = rect.top;
      right = min rect.right (rect.left + (34 * unit + 8200000 * length g.label));
      bottom = rect.top + 26 * unit;
    }

-- The default of `eps` is 0.5.
abbrev pub half_unit : ℕ
half_unit = 500000

unfoldable pub inside : Box → Box → ℕ → Bool
inside a b eps =
    leb (b.left + a.less) (a.left + (b.less + eps))
    && (leb b.top (a.top + eps) && (leb a.right (b.right + eps) && leb a.bottom (b.bottom + eps)))

unfoldable pub overlap : Box → Box → ℕ → Bool
overlap a b eps =
    ltb (a.left + eps) (b.right + a.less)
    && (ltb (b.left + eps) (a.right + b.less)
        && (ltb (a.top + eps) b.bottom && ltb (b.top + eps) a.bottom))

-- At most two decimals.
unfoldable pub decimals_ok : ℕ → Bool
decimals_ok x = x % 10000 == 0

-- The grid of the layout: (0, 0, cols * CW, rows * CH).
unfoldable pub grid_box : Puzzle → Box
grid_box p = record {
  left = 0;
  less = 0;
  top = 0;
  right = p.cols * unit * cell_width;
  bottom = p.rows * cell_height;
}

-- MARGIN_X, MARGIN_TOP and MARGIN_BOTTOM are 0.06, 0.22 and 0.06; the slack of each comparison is one
-- millionth.
unfoldable pub breaks_margins : Area → Area → Bool
breaks_margins a b =
    ltb (a.c + 1) (b.c + 60000)
    || (ltb (b.c + b.w + 1) (a.c + a.w + 60000)
        || (ltb (a.r + 1) (b.r + 220000) || ltb (b.r + b.h + 1) (a.r + a.h + 60000)))

-- `chain`: a group and its ancestors, as far as they are known, at most so many.
unfoldable pub chain_from : ℕ → Dict Group → Option Text → List Text
chain_from zero groups gid = []
chain_from (suc guard) groups none = []
chain_from (suc guard) groups (some id) = elim (lookup id groups) [
  | none ↦ []
  | some g ↦ id ∷ chain_from guard groups g.parent
]

abbrev pub chain : Dict Group → Text → List Text
chain groups id = chain_from 50 groups (some id)
