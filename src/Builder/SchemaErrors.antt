-- ===== src/Builder/SchemaErrors.antt =====
-- build.py: `schema_errors`. Fuel bounds how deep the checks of one value nest; `none` is an exception
-- (a reference that leads nowhere) or fuel that ran out.
use system_design_course.Common.{
  ltb, ◌==◌, if◌then◌else◌, length, when, Text, codes, text_eq, starts_with, drop, show_nat, Dict,
  lookup, ℕ, zero, suc, ◌+◌, Bool, true, not, ◌&&◌, Option, none, some, List, [], ◌∷◌, ◌++◌,
}
use system_design_course.Common.Json.{
  Json, Items, Fields, null, bool, num, neg, float, str, arr, obj, nil, cons, end, field, get_field,
}
use system_design_course.Builder.Schema.{
  Keywords, Schema, Schemas, Child, Members, Additional, Python, Fault, type_ok, count_items,
  same_json, in_values, less, at_most, count_distinct, dump_all, reference, one_of, keywords,
  no_schema, schema, no_child, child, no_member, member, allowed, forbidden, checked, not_one_form,
  wrong_type, wrong_const, not_in_enum, too_short, too_long, too_few, too_many, no_match, below,
  above, not_above, items_repeated, key_missing, unexpected_key,
}

-- The schemas by the parts of the pointer that leads to them from the root.
abbrev pub Root : Type 0
Root = Dict Schema

-- A reference that does not begin with #/ is a BuildError, a part that is not there a KeyError.
unfoldable pub resolve : Root → Text → Option Schema
resolve root r = if starts_with r (codes "#/") then lookup (drop 2 r) root else none

-- The faults of one check, then those of the next.
unfoldable pub both : Option (List Fault) → Option (List Fault) → Option (List Fault)
both none ys = none
both (some xs) none = none
both (some xs) (some ys) = some (xs ++ ys)

unfoldable pub const_faults : Python → Json → Keywords → Text → List Fault
const_faults x v k path = elim k.const [
  | none ↦ []
  | some w ↦ when (not (same_json x v w)) (wrong_const path)
]

unfoldable pub enum_faults : Python → Json → Keywords → Text → List Fault
enum_faults x v k path = elim k.enum [
  | none ↦ []
  | some ws ↦ when (not (in_values x v ws)) (not_in_enum path)
]

-- A limit that is there and broken.
abbrev pub limit {ℓ} : {A : Type ℓ} → Option A → (A → Bool) → (A → Fault) → List Fault
limit none broken fault = []
limit (some n) broken fault = when (broken n) (fault n)

unfoldable pub text_faults : Python → Text → Keywords → Text → List Fault
text_faults x t k path =
    limit k.min_length (λ n. ltb (length t) n) (too_short path)
    ++ (limit k.max_length (λ n. ltb n (length t)) (too_long path)
        ++ limit k.regex (λ r. not (x.search r t)) (no_match path t))

unfoldable pub number_faults : Python → Json → Keywords → Text → List Fault
number_faults x v k path =
    limit k.minimum (λ w. less x v w) (below path)
    ++ (limit k.maximum (λ w. less x w v) (above path)
        ++ limit k.exclusive_minimum (λ w. at_most x v w) (not_above path))

unfoldable pub list_faults : Python → Items → Keywords → Text → List Fault
list_faults x vs k path =
    limit k.min_items (λ n. ltb (count_items vs) n) (too_few path)
    ++ (limit k.max_items (λ n. ltb n (count_items vs)) (too_many path)
        ++ when (k.unique_items && not (count_distinct (dump_all x vs) == count_items vs))
            (items_repeated path))

unfoldable pub required_faults : List Text → Fields → Text → List Fault
required_faults [] fs path = []
required_faults (key ∷ keys) fs path =
    elim (get_field key fs) [ none ↦ key_missing path key ∷ [] | some v ↦ [] ]
    ++ required_faults keys fs path

unfoldable pub find_member : Text → Members → Option Schema
find_member key no_member = none
find_member key (member k s ms) = if text_eq k key then some s else find_member key ms

-- f"{path}[{i}]", f"{path}.{k}" and f"{path}.{k} (llave)"
abbrev pub item_path : Text → ℕ → Text
item_path path i = path ++ (codes "[" ++ (show_nat i ++ codes "]"))

abbrev pub field_path : Text → Text → Text
field_path path k = path ++ (codes "." ++ k)

abbrev pub key_path : Text → Text → Text
key_path path k = field_path path k ++ codes " (llave)"

-- What the keywords say of a value of its type, but for the schemas inside.
unfoldable pub own_faults : Python → Json → Keywords → Text → List Fault
own_faults x (str t) k path = text_faults x t k path
own_faults x (num n) k path = number_faults x (num n) k path
own_faults x (neg n) k path = number_faults x (neg n) k path
own_faults x (float t) k path = number_faults x (float t) k path
own_faults x (arr vs) k path = list_faults x vs k path
own_faults x (obj fs) k path = required_faults k.required fs path
own_faults x null k path = []
own_faults x (bool b) k path = []

-- The checks of the schemas inside, by the check of one value.
module _ (check : Json → Schema → Text → Option (List Fault)) where
  -- How many of the forms have no fault.
  unfoldable pub count_forms : Json → Schemas → Text → Option ℕ
  count_forms v no_schema path = some 0
  count_forms v (schema s ss) path =
      let rest = count_forms v ss path in
      elim (check v s path) [
        | none ↦ none
        | some [] ↦ elim rest [ none ↦ none | some n ↦ some (n + 1) ]
        | some (◌∷◌ e es) ↦ rest
      ]

  unfoldable pub check_items : Items → Schema → Text → ℕ → Option (List Fault)
  check_items nil s path i = some []
  check_items (cons v vs) s path i =
      both (check v s (item_path path i)) (check_items vs s path (i + 1))

  unfoldable pub check_child : Child → Json → Text → Option (List Fault)
  check_child no_child v path = some []
  check_child (child s) v path = check v s path

  unfoldable pub check_extra : Additional → Text → Json → Text → Option (List Fault)
  check_extra allowed key v path = some []
  check_extra forbidden key v path = some (unexpected_key path key ∷ [])
  check_extra (checked s) key v path = check v s (field_path path key)

  -- One field of an object.
  unfoldable pub check_field :
      Members → Child → Additional → Text → Json → Text → Option (List Fault)
  check_field props names extra key v path =
      both (check_child names (str key) (key_path path key)) (elim (find_member key props) [
        | some s ↦ check v s (field_path path key)
        | none ↦ check_extra extra key v path
      ])

  unfoldable pub check_members : Members → Child → Additional → Fields → Text → Option (List Fault)
  check_members props names extra end path = some []
  check_members props names extra (field key v fs) path =
      both (check_field props names extra key v path) (check_members props names extra fs path)

  unfoldable pub check_inside :
      Json → Child → Members → Child → Additional → Text → Option (List Fault)
  check_inside (arr vs) items props names extra path = elim items [
    | no_child ↦ some []
    | child s ↦ check_items vs s path 0
  ]
  check_inside (obj fs) items props names extra path = check_members props names extra fs path
  check_inside _ items props names extra path = some []

unfoldable pub check_value : Python → Root → ℕ → Json → Schema → Text → Option (List Fault)
unfolding check_inside
check_value x root zero v s path = none
check_value x root (suc fuel) v (reference r) path = elim (resolve root r) [
  | none ↦ none
  | some s ↦ check_value x root fuel v s path
]
check_value x root (suc fuel) v (one_of ss) path =
    elim (count_forms (check_value x root fuel) v ss path) [
      | none ↦ none
      | some n ↦ some (when (not (n == 1)) (not_one_form path))
    ]
check_value x root (suc fuel) v (keywords k items props names extra) path =
    let inside = check_inside (check_value x root fuel) v items props names extra path in
    if elim k.types [ none ↦ true | some ts ↦ type_ok v ts ]
    then both (some (const_faults x v k path ++ (enum_faults x v k path ++ own_faults x v k path)))
        inside
    else some (wrong_type path ∷ [])

-- `schema_errors` of a schema: the path of the whole value is $.
unfoldable pub schema_errors : Python → Root → ℕ → Json → Schema → Option (List Fault)
schema_errors x root fuel v s = check_value x root fuel v s (codes "$")
