-- ===== src/Builder/Puzzle.antt =====
-- build.py: a puzzle as the schema admits it, the registry of services and the constants. A length on
-- the grid is a number of millionths, in which every number that the checks compare is exact; the
-- rounding of floats is not modelled. An optional field that is absent is `none`.
use system_design_course.Common.{
  Text, text_eq_iff, among, times, Dict, lookup, has_key, insert, lookup-insert, ℕ, ◌+◌, ◌≡◌, Bool,
  ◌||◌, Option, none, some, List, [], ◌∷◌, map, arith,
}

pub record Cell : Type 0 where
  pub c : ℕ
  pub r : ℕ

pub record Area : Type 0 where
  pub c : ℕ
  pub r : ℕ
  pub w : ℕ
  pub h : ℕ

pub record Group : Type 0 where
  pub id : Text
  pub kind : Text
  pub label : Text
  pub parent : Option Text
  pub cell : Area

pub record Node : Type 0 where
  pub id : Text
  pub icon : Text
  pub label : Option Text
  pub number : Option ℕ
  pub cell : Cell
  pub group : Option Text

-- `accept` is the one service of the list, which the schema fixes to one.
pub record Slot : Type 0 where
  pub id : Text
  pub number : ℕ
  pub cell : Cell
  pub group : Option Text
  pub accept : Text
  pub near_miss : Option Text
  pub hint_cue : Text
  pub category : Option Text
  pub label : Option Text
  pub niche : Option Bool
  pub explanation : Text
  pub refs : List Text

pub record Edge : Type 0 where
  pub id : Text
  pub source : Text
  pub target : Text
  pub step : Option ℕ
  pub label : Option Text
  pub route : Option Text
  pub points : Option (List Cell)

pub record Requirement : Type 0 where
  pub n : ℕ
  pub slot : Option Text
  pub text : Text

pub record Tile : Type 0 where
  pub service : Text
  pub uses : Option ℕ
  pub role : Option Text
  pub why_not : Option (Dict Text)

pub record Puzzle : Type 0 where
  pub id : Text
  pub scenario : Text
  pub cloud : Text
  pub title : Text
  pub summary : Text
  pub status : Text
  pub cols : ℕ
  pub rows : ℕ
  pub groups : List Group
  pub nodes : List Node
  pub slots : List Slot
  pub edges : List Edge
  pub requirements : List Requirement
  pub palette : List Tile
  pub urls : List Text
  pub allow_mention : List Text
  pub topics : Option (List Text)
  pub difficulty_override : Option Text

-- An entry of `icons/registry.json`.
pub record Service : Type 0 where
  pub label : Text
  pub short : Text
  pub aliases : List Text
  pub category : Option Text
  pub cloud : Option Text

-- What the regular expressions of the file find: TOKEN.findall, TOKEN.sub(" ", _), ARTICLE_ES and
-- ARTICLE_EN, the parts of a label before and inside its parentheses, `name_regex` of a name, and the
-- expression of CATEGORY_WORDS for a category; `none` for a category that has none.
pub record Patterns : Type 0 where
  pub find_tokens : Text → List Text
  pub strip_tokens : Text → Text
  pub article_es : Text → Bool
  pub article_en : Text → Bool
  pub parenthesis : Text → Option (Text × Text)
  pub names : Text → Text → Bool
  pub category_words : Text → Option (Text → Bool)

-- The registry and the patterns.
pub record Context : Type 0 where
  pub services : Dict Service
  pub patterns : Patterns

module _ {ℓ} {A : Type ℓ} where
  unfoldable pub index_onto : (A → Text) → Dict A → List A → Dict A
  index_onto key d [] = d
  index_onto key d (x ∷ xs) = index_onto key (insert (key x) x d) xs

  -- `{key(x): x for x in xs}`: the last of two with one key stays.
  unfoldable pub index_by : (A → Text) → List A → Dict A
  unfolding index_onto
  index_by key xs = index_onto key [] xs

  onto_key :
      (key : A → Text) (k : Text) (d : Dict A) (xs : List A)
      → has_key k (index_onto key d xs) ≡ (among k (map key xs) || has_key k d)
  unfolding index_onto among has_key
  onto_key key k d [] = ground arith
  onto_key key k d (x ∷ xs) =
      ground (arith, onto_key key k (insert (key x) x d) xs, lookup-insert (key x) k x d)

  pub has_key-index_by :
      (key : A → Text) (k : Text) (xs : List A) → has_key k (index_by key xs) ≡ among k (map key xs)
  unfolding index_by has_key lookup
  has_key-index_by key k xs = ground (arith, onto_key key k [] xs)

-- d.get(k, 0)
unfoldable pub count_in : Text → Dict ℕ → ℕ
count_in k d = elim (lookup k d) [ none ↦ 0 | some n ↦ n ]

-- d.get(k, 0) + 1 under k, for each of the keys in turn.
unfoldable pub tally_onto : Dict ℕ → List Text → Dict ℕ
tally_onto d [] = d
tally_onto d (x ∷ xs) = tally_onto (insert x (count_in x d + 1) d) xs

unfoldable pub tally : List Text → Dict ℕ
tally xs = tally_onto [] xs

tally_onto-times :
    (k : Text) (d : Dict ℕ) (xs : List Text)
    → count_in k (tally_onto d xs) ≡ count_in k d + times k xs
unfolding tally_onto times count_in
tally_onto-times k d [] = omega arith
tally_onto-times k d (x ∷ xs) = ground (
  arith,
  tally_onto-times k (insert x (count_in x d + 1) d) xs,
  lookup-insert x k (count_in x d + 1) d,
  text_eq_iff x k,
)

-- A tally counts each key as often as it occurs.
pub count_in-tally : (k : Text) (xs : List Text) → count_in k (tally xs) ≡ times k xs
unfolding tally count_in lookup
count_in-tally k xs = ground (arith, tally_onto-times k [] xs)
