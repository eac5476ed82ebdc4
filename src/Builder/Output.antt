-- ===== src/Builder/Output.antt =====
-- build.py: `normalize`, and what `build` collects from the normalized puzzles. `none` is a KeyError.
use system_design_course.Common.{
  if◌then◌else◌, ◌>>=◌, concat_map, Text, codes, text_eq, text_lt, among, lookup, ℕ, Bool, not,
  ◌||◌, Option, none, some, List, [], ◌∷◌, ◌++◌, map,
}
use system_design_course.Builder.Puzzle.{Group, Node, Slot, Edge, Tile, Puzzle, Context}
use system_design_course.Builder.Difficulty.{Level, difficulty, level_name}
use system_design_course.Builder.Overlay.{Overlay}

-- d.setdefault(key, value)
abbrev pub or_default {ℓ} : {A : Type ℓ} → Option A → A → Option A
or_default none d = some d
or_default (some a) d = some a

-- The category of the answer is looked up also where the slot has its own.
unfoldable pub fill_slot : Context → Slot → Option Slot
fill_slot ctx s = elim (lookup s.accept ctx.services) [
  | none ↦ none
  | some svc ↦ elim svc.category [
    | none ↦ none
    | some c ↦ some (record s { category = or_default s.category c; label = or_default s.label [] })
  ]
]

unfoldable pub fill_slots : Context → List Slot → Option (List Slot)
fill_slots ctx [] = some []
fill_slots ctx (s ∷ ss) = do s' ← fill_slot ctx s; ss' ← fill_slots ctx ss; some (s' ∷ ss')

abbrev pub fill_tile : List Text → Tile → Tile
fill_tile answers t = record t {
  uses = or_default t.uses 1;
  role = or_default t.role (if among t.service answers then codes "answer" else codes "distractor");
  why_not = or_default t.why_not [];
}

abbrev pub fill_edge : Edge → Edge
fill_edge e = record e { route = or_default e.route (codes "auto"); label = or_default e.label [] }

-- A number that is absent is None before and after.
abbrev pub fill_node : Node → Node
fill_node n = record n { label = or_default n.label [] }

-- `puzzle` is the puzzle with its defaults and without `allow_mention`.
pub record Normalized : Type 0 where
  pub puzzle : Puzzle
  pub score : ℕ
  pub level : Text
  pub english : Option Overlay

-- The difficulty that is fixed, or else the one that was computed.
abbrev pub final_level : Option Text → Level → Text
final_level none level = level_name level
final_level (some fixed) level = fixed

-- tr without its id
abbrev pub without_id : Overlay → Overlay
without_id tr = record tr { id = none }

abbrev pub fill_puzzle : Puzzle → List Slot → Puzzle
fill_puzzle p slots = record p {
  nodes = map fill_node p.nodes;
  slots = slots;
  edges = map fill_edge p.edges;
  palette = map (fill_tile (map Slot.accept slots)) p.palette;
  allow_mention = [];
  topics = or_default p.topics [];
}

unfoldable pub normalize : Context → Puzzle → Option Overlay → Option Normalized
normalize ctx p overlay = do
  (score, level) ← difficulty ctx p
  slots ← fill_slots ctx p.slots
  some record {
    puzzle = fill_puzzle p slots;
    score = score;
    level = final_level p.difficulty_override level;
    english = elim overlay [ none ↦ none | some texts ↦ some (without_id texts) ];
  }

abbrev pub is_chosen : Bool → Puzzle → Bool
is_chosen published_only p = not published_only || text_eq p.status (codes "published")

unfoldable pub normalize_all :
    Context → Bool → List (Puzzle × Option Overlay) → Option (List Normalized)
normalize_all ctx published_only [] = some []
normalize_all ctx published_only ((p, tr) ∷ ps) =
    let rest = normalize_all ctx published_only ps in
    if is_chosen published_only p
    then elim (normalize ctx p tr) [
      | none ↦ none
      | some n ↦ elim rest [ none ↦ none | some ns ↦ some (n ∷ ns) ]
    ]
    else rest

unfoldable pub place_text : Text → List Text → List Text
place_text t [] = t ∷ []
place_text t (u ∷ us) =
    let rest = place_text t us in
    if text_eq t u then u ∷ us else (if text_lt t u then t ∷ u ∷ us else u ∷ rest)

-- sorted(set(texts))
unfoldable pub sorted_texts : List Text → List Text
sorted_texts [] = []
sorted_texts (t ∷ ts) = place_text t (sorted_texts ts)

-- The icons of the nodes and of the palette of each puzzle.
abbrev pub puzzle_icons : Normalized → List Text
puzzle_icons n = map Node.icon n.puzzle.nodes ++ map Tile.service n.puzzle.palette

abbrev pub used_icons : List Normalized → List Text
used_icons ns = sorted_texts (concat_map puzzle_icons ns)

unfoldable pub known_kinds : List Text → List Group → List Text
known_kinds known [] = []
known_kinds known (g ∷ gs) =
    let rest = known_kinds known gs in if among g.kind known then g.kind ∷ rest else rest

-- The kinds of groups that the registry has an icon for.
abbrev pub used_kinds : List Text → List Normalized → List Text
used_kinds known ns = sorted_texts (concat_map (λ n. known_kinds known n.puzzle.groups) ns)
