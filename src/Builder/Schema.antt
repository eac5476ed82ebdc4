-- ===== src/Builder/Schema.antt =====
-- build.py: the part of JSON Schema that `schema_errors` reads. A schema is taken as it is read: a
-- `$ref` or a `oneOf` hides the keywords beside it. `Python` has what the language does with floats,
-- `re.search` and `json.dumps(_, sort_keys=True)`.
use system_design_course.Common.{
  ltb, leb, ◌==◌, if◌then◌else◌, Text, text_eq, among, ℕ, ◌+◌, Bool, true, false, ◌&&◌, ◌||◌,
  Option, none, some, List, [], ◌∷◌,
}
use system_design_course.Common.Json.{
  Json, Items, Fields, null, bool, num, neg, float, str, arr, obj, nil, cons, end, field, get_field,
}

pub data Kind : Type 0 where
  object_kind array_kind string_kind integer_kind number_kind boolean_kind null_kind : Kind

-- The keywords that have no schema inside. `types` is a name or a list of names.
pub record Keywords : Type 0 where
  pub types : Option (List Kind)
  pub const : Option Json
  pub enum : Option (List Json)
  pub min_length : Option ℕ
  pub max_length : Option ℕ
  pub regex : Option Text
  pub minimum : Option Json
  pub maximum : Option Json
  pub exclusive_minimum : Option Json
  pub min_items : Option ℕ
  pub max_items : Option ℕ
  pub unique_items : Bool
  pub required : List Text

mutual
  -- A `$ref`, a `oneOf`, or keywords with `items`, `properties`, `propertyNames` and
  -- `additionalProperties`.
  pub data Schema : Type 0 where
    reference : Text → Schema
    one_of : Schemas → Schema
    keywords : Keywords → Child → Members → Child → Additional → Schema

  pub data Schemas : Type 0 where
    no_schema : Schemas
    schema : Schema → Schemas → Schemas

  pub data Child : Type 0 where
    no_child : Child
    child : Schema → Child

  pub data Members : Type 0 where
    no_member : Members
    member : Text → Schema → Members → Members

  -- Absent or true, false, or a schema.
  pub data Additional : Type 0 where
    allowed forbidden : Additional
    checked : Schema → Additional

pub record Python : Type 0 where
  pub float_eq : Json → Json → Bool
  pub float_lt : Json → Json → Bool
  pub float_le : Json → Json → Bool
  pub search : Text → Text → Bool
  pub dumps : Json → Text

-- The messages, with the path of the value.
pub data Fault : Type 0 where
  not_one_form wrong_type wrong_const not_in_enum : Text → Fault
  too_short too_long too_few too_many : Text → ℕ → Fault
  no_match : Text → Text → Text → Fault
  below above not_above : Text → Json → Fault
  items_repeated : Text → Fault
  key_missing unexpected_key : Text → Text → Fault

abbrev is_int : Json → Bool
is_int (num n) = true
is_int (neg n) = true
is_int _ = false

abbrev pub is_number : Json → Bool
is_number (num n) = true
is_number (neg n) = true
is_number (float t) = true
is_number _ = false

abbrev pub type_is : Json → Kind → Bool
type_is v object_kind = elim v [ obj fs ↦ true | _ ↦ false ]
type_is v array_kind = elim v [ arr xs ↦ true | _ ↦ false ]
type_is v string_kind = elim v [ str t ↦ true | _ ↦ false ]
type_is v integer_kind = is_int v
type_is v number_kind = is_number v
type_is v boolean_kind = elim v [ bool b ↦ true | _ ↦ false ]
type_is v null_kind = elim v [ null ↦ true | _ ↦ false ]

unfoldable pub type_ok : Json → List Kind → Bool
type_ok v [] = false
type_ok v (t ∷ ts) = type_is v t || type_ok v ts

-- True and False are the numbers 1 and 0 where Python compares.
abbrev as_number : Json → Json
as_number (bool true) = num 1
as_number (bool false) = num 0
as_number v = v

unfoldable pub same_number : Python → Json → Json → Bool
same_number x (num a) (num b) = a == b
same_number x (neg a) (neg b) = a == b
same_number x (num a) (neg b) = false
same_number x (neg a) (num b) = false
same_number x (float a) w = is_number w && x.float_eq (float a) w
same_number x v (float b) = is_number v && x.float_eq v (float b)
same_number x v w = false

unfoldable pub count_items : Items → ℕ
count_items nil = 0
count_items (cons y ys) = count_items ys + 1

unfoldable pub count_fields : Fields → ℕ
count_fields end = 0
count_fields (field k w fs) = count_fields fs + 1

-- v == w: the fields of an object in any order.
unfoldable mutual
  pub same_json : Python → Json → Json → Bool
  same_json x null w = elim w [ null ↦ true | _ ↦ false ]
  same_json x (bool b) w = same_number x (as_number (bool b)) (as_number w)
  same_json x (num n) w = same_number x (num n) (as_number w)
  same_json x (neg n) w = same_number x (neg n) (as_number w)
  same_json x (float t) w = same_number x (float t) (as_number w)
  same_json x (str t) w = elim w [ str u ↦ text_eq t u | _ ↦ false ]
  same_json x (arr ys) w = elim w [ arr zs ↦ same_items x ys zs | _ ↦ false ]
  same_json x (obj fs) w = elim w [
    | obj gs ↦ count_fields fs == count_fields gs && same_fields x fs gs
    | _ ↦ false
  ]

  same_items : Python → Items → Items → Bool
  same_items x nil zs = elim zs [ nil ↦ true | cons _ _ ↦ false ]
  same_items x (cons v ys) zs = elim zs [
    | nil ↦ false
    | cons w zs' ↦ same_json x v w && same_items x ys zs'
  ]

  same_fields : Python → Fields → Fields → Bool
  same_fields x end gs = true
  same_fields x (field k v fs) gs =
      let rest = same_fields x fs gs in
      elim (get_field k gs) [ none ↦ false | some w ↦ same_json x v w && rest ]

-- v in values
unfoldable pub in_values : Python → Json → List Json → Bool
in_values x v [] = false
in_values x v (w ∷ ws) = same_json x v w || in_values x v ws

unfoldable pub less : Python → Json → Json → Bool
less x (num a) (num b) = ltb a b
less x (num a) (neg b) = false
less x (neg a) (num b) = true
less x (neg a) (neg b) = ltb b a
less x v w = x.float_lt v w

unfoldable pub at_most : Python → Json → Json → Bool
at_most x (num a) (num b) = leb a b
at_most x (num a) (neg b) = false
at_most x (neg a) (num b) = true
at_most x (neg a) (neg b) = leb b a
at_most x v w = x.float_le v w

-- The number of different texts.
unfoldable pub count_distinct : List Text → ℕ
count_distinct [] = 0
count_distinct (t ∷ ts) = let rest = count_distinct ts in if among t ts then rest else rest + 1

unfoldable pub dump_all : Python → Items → List Text
dump_all x nil = []
dump_all x (cons v vs) = x.dumps v ∷ dump_all x vs
