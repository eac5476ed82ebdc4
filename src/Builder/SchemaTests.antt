-- ===== src/Builder/SchemaTests.antt =====
-- The schema of a tile, `$defs.tile` of schema/puzzle.schema.json, and two tiles.
use system_design_course.Common.{
  codes, text_eq, starts_with, show_nat, among, lookup, ◌≡◌, refl, ◌↔◌, true, false, not, none,
  some, List, [], ◌∷◌, arith,
}
use system_design_course.Common.Json.{num, str, obj, end, field, get_field, Json}
use system_design_course.Builder.Schema.{
  Keywords, Schema, Python, Fault, type_ok, same_number, count_items, count_fields, in_values, less,
  at_most, count_distinct, dump_all, object_kind, string_kind, integer_kind, reference, keywords,
  no_child, child, no_member, member, allowed, forbidden, checked, no_match, above, unexpected_key,
}
use system_design_course.Builder.SchemaErrors.{
  Root, resolve, both, const_faults, enum_faults, text_faults, number_faults, list_faults,
  required_faults, find_member, own_faults, count_forms, check_items, check_child, check_extra,
  check_field, check_members, check_inside, check_value, schema_errors,
}
use system_design_course.Builder.Accepted.{
  has_all, own_holds, admitting, all_admitted, fields_admitted, inside_admits, accepts, all_fit,
  members_fit, fits_in,
}
use system_design_course.Builder.Decided.{schema_errors-accepts}

abbrev no_keywords : Keywords
no_keywords = record {
  types = none;
  const = none;
  enum = none;
  min_length = none;
  max_length = none;
  regex = none;
  minimum = none;
  maximum = none;
  exclusive_minimum = none;
  min_items = none;
  max_items = none;
  unique_items = false;
  required = [];
}

abbrev leaf : Keywords → Schema
leaf k = keywords k no_child no_member no_child allowed

abbrev service_id : Schema
service_id = leaf (record no_keywords {
  types = some (string_kind ∷ []);
  regex = some (codes "^[a-z0-9]+(-[a-z0-9]+)*$");
})

abbrev uses : Schema
uses = leaf (record no_keywords {
  types = some (integer_kind ∷ []);
  minimum = some (num 1);
  maximum = some (num 4);
})

abbrev role : Schema
role = leaf (record no_keywords {
  enum = some (
      str (codes "answer")
      ∷ str (codes "near-miss")
      ∷ str (codes "distractor")
      ∷ str (codes "filler")
      ∷ []);
})

abbrev why_not : Schema
why_not =
    keywords (record no_keywords { types = some (object_kind ∷ []) }) no_child no_member
      (child (leaf (record no_keywords { regex = some (codes "^(s[0-9]{1,2}|\\*)$") })))
      (checked (
        leaf (record no_keywords {
          types = some (string_kind ∷ []);
          min_length = some 15;
          max_length = some 300;
        })))

abbrev tile : Schema
tile =
    keywords
      (record no_keywords { types = some (object_kind ∷ []); required = codes "service" ∷ [] })
      no_child
      (member (codes "service") (reference (codes "#/$defs/serviceId")) (
        member (codes "uses") uses
          (member (codes "role") role (member (codes "why_not") why_not no_member))))
      no_child forbidden

abbrev root : Root
root = (codes "$defs/serviceId", service_id) ∷ []

abbrev python : Python
python = record {
  float_eq = λ v w. false;
  float_lt = λ v w. false;
  float_le = λ v w. false;
  search = λ r t. not (text_eq t (codes "DB"));
  dumps = λ v. [];
}

abbrev db_tile : Json
db_tile = obj (field (codes "service") (str (codes "db")) (field (codes "uses") (num 2) end))

-- Too many uses, a service in capitals and a field too many.
abbrev bad_tile : Json
bad_tile = obj (
    field (codes "service") (str (codes "DB"))
      (field (codes "uses") (num 5) (field (codes "price") (num 1) end)))

db_tile_errors : schema_errors python root 3 db_tile tile ≡ some []
unfolding type_ok same_number count_items count_fields in_values less at_most count_distinct
    dump_all resolve both const_faults enum_faults text_faults number_faults list_faults
    required_faults find_member own_faults count_forms check_items check_child check_extra
    check_field check_members check_inside check_value schema_errors has_all own_holds admitting
    all_admitted fields_admitted inside_admits accepts all_fit members_fit fits_in text_eq lookup
    starts_with show_nat among get_field
db_tile_errors = refl

bad_tile_errors :
    schema_errors python root 3 bad_tile tile
    ≡ some (
        no_match (codes "$.service") (codes "DB") (codes "^[a-z0-9]+(-[a-z0-9]+)*$")
        ∷ above (codes "$.uses") (num 4)
        ∷ unexpected_key (codes "$") (codes "price")
        ∷ [])
unfolding type_ok same_number count_items count_fields in_values less at_most count_distinct
    dump_all resolve both const_faults enum_faults text_faults number_faults list_faults
    required_faults find_member own_faults count_forms check_items check_child check_extra
    check_field check_members check_inside check_value schema_errors has_all own_holds admitting
    all_admitted fields_admitted inside_admits accepts all_fit members_fit fits_in text_eq lookup
    starts_with show_nat among get_field
bad_tile_errors = refl

tile_fits : fits_in root 3 tile ≡ true
unfolding type_ok same_number count_items count_fields in_values less at_most count_distinct
    dump_all resolve both const_faults enum_faults text_faults number_faults list_faults
    required_faults find_member own_faults count_forms check_items check_child check_extra
    check_field check_members check_inside check_value schema_errors has_all own_holds admitting
    all_admitted fields_admitted inside_admits accepts all_fit members_fit fits_in text_eq lookup
    starts_with show_nat among get_field
tile_fits = refl

schema_errors-accepts_example :
    (es : List Fault) × (schema_errors python root 7 bad_tile tile ≡ some es)
    × ((es ≡ []) ↔ (accepts python root 3 bad_tile tile ≡ true))
schema_errors-accepts_example =
    schema_errors-accepts python root 7 3 bad_tile tile (omega arith) tile_fits
