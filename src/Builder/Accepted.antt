-- ===== src/Builder/Accepted.antt =====
-- What a schema admits, read as conditions that all hold, and how deep a schema nests.
use system_design_course.Common.{
  leb, ◌==◌, if◌then◌else◌, length, Text, ℕ, zero, suc, ◌+◌, Bool, true, false, not, ◌&&◌, ◌||◌,
  Option, none, some, List, [], ◌∷◌,
}
use system_design_course.Common.Json.{
  Json, Items, Fields, null, bool, num, neg, float, str, arr, obj, nil, cons, end, field, get_field,
}
use system_design_course.Builder.Schema.{
  Keywords, Schema, Schemas, Child, Members, Additional, Python, type_ok, count_items, same_json,
  in_values, less, at_most, count_distinct, dump_all, reference, one_of, keywords, no_schema,
  schema, no_child, child, no_member, member, allowed, forbidden, checked,
}
use system_design_course.Builder.SchemaErrors.{Root, resolve, find_member}

abbrev pub holds {ℓ} : {A : Type ℓ} → Option A → (A → Bool) → Bool
holds none test = true
holds (some a) test = test a

abbrev pub text_holds : Python → Text → Keywords → Bool
text_holds x t k =
    holds k.min_length (λ n. leb n (length t))
    && (holds k.max_length (λ n. leb (length t) n) && holds k.regex (λ r. x.search r t))

abbrev pub number_holds : Python → Json → Keywords → Bool
number_holds x v k =
    holds k.minimum (λ w. not (less x v w))
    && (holds k.maximum (λ w. not (less x w v))
        && holds k.exclusive_minimum (λ w. not (at_most x v w)))

abbrev pub list_holds : Python → Items → Keywords → Bool
list_holds x vs k =
    holds k.min_items (λ n. leb n (count_items vs))
    && (holds k.max_items (λ n. leb (count_items vs) n)
        && (not k.unique_items || count_distinct (dump_all x vs) == count_items vs))

unfoldable pub has_all : List Text → Fields → Bool
has_all [] fs = true
has_all (key ∷ keys) fs =
    elim (get_field key fs) [ none ↦ false | some v ↦ true ] && has_all keys fs

unfoldable pub own_holds : Python → Json → Keywords → Bool
own_holds x (str t) k = text_holds x t k
own_holds x (num n) k = number_holds x (num n) k
own_holds x (neg n) k = number_holds x (neg n) k
own_holds x (float t) k = number_holds x (float t) k
own_holds x (arr vs) k = list_holds x vs k
own_holds x (obj fs) k = has_all k.required fs
own_holds x null k = true
own_holds x (bool b) k = true

module _ (admits : Json → Schema → Bool) where
  unfoldable pub admitting : Json → Schemas → ℕ
  admitting v no_schema = 0
  admitting v (schema s ss) = let rest = admitting v ss in if admits v s then rest + 1 else rest

  unfoldable pub all_admitted : Items → Schema → Bool
  all_admitted nil s = true
  all_admitted (cons v vs) s = admits v s && all_admitted vs s

  abbrev pub child_admits : Child → Json → Bool
  child_admits no_child v = true
  child_admits (child s) v = admits v s

  abbrev pub extra_admits : Additional → Json → Bool
  extra_admits allowed v = true
  extra_admits forbidden v = false
  extra_admits (checked s) v = admits v s

  unfoldable pub fields_admitted : Members → Child → Additional → Fields → Bool
  fields_admitted props names extra end = true
  fields_admitted props names extra (field key v fs) =
      (child_admits names (str key)
        && elim (find_member key props) [ some s ↦ admits v s | none ↦ extra_admits extra v ])
      && fields_admitted props names extra fs

  unfoldable pub inside_admits : Json → Child → Members → Child → Additional → Bool
  inside_admits (arr vs) items props names extra = elim items [
    | no_child ↦ true
    | child s ↦ all_admitted vs s
  ]
  inside_admits (obj fs) items props names extra = fields_admitted props names extra fs
  inside_admits _ items props names extra = true

-- The value satisfies the schema, read to a depth.
unfoldable pub accepts : Python → Root → ℕ → Json → Schema → Bool
accepts x root zero v s = false
accepts x root (suc depth) v (reference r) = elim (resolve root r) [
  | none ↦ false
  | some s ↦ accepts x root depth v s
]
accepts x root (suc depth) v (one_of ss) = admitting (accepts x root depth) v ss == 1
accepts x root (suc depth) v (keywords k items props names extra) =
    holds k.types (type_ok v)
    && ((holds k.const (same_json x v) && (holds k.enum (in_values x v) && own_holds x v k))
        && inside_admits (accepts x root depth) v items props names extra)

module _ (fits : Schema → Bool) where
  unfoldable pub all_fit : Schemas → Bool
  all_fit no_schema = true
  all_fit (schema s ss) = fits s && all_fit ss

  abbrev pub child_fits : Child → Bool
  child_fits no_child = true
  child_fits (child s) = fits s

  unfoldable pub members_fit : Members → Bool
  members_fit no_member = true
  members_fit (member k s ms) = fits s && members_fit ms

  abbrev pub extra_fits : Additional → Bool
  extra_fits allowed = true
  extra_fits forbidden = true
  extra_fits (checked s) = fits s

-- Every reference of the schema leads somewhere, and its schemas nest at most so deep.
unfoldable pub fits_in : Root → ℕ → Schema → Bool
fits_in root zero s = false
fits_in root (suc depth) (reference r) = elim (resolve root r) [
  | none ↦ false
  | some s ↦ fits_in root depth s
]
fits_in root (suc depth) (one_of ss) = all_fit (fits_in root depth) ss
fits_in root (suc depth) (keywords k items props names extra) =
    (child_fits (fits_in root depth) items && members_fit (fits_in root depth) props)
    && (child_fits (fits_in root depth) names && extra_fits (fits_in root depth) extra)
