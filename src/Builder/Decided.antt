-- ===== src/Builder/Decided.antt =====
-- `schema_errors` against the conditions of a schema.
use system_design_course.Common.{
  ◌==◌, if◌then◌else◌, Bool-cases, when, Text, codes, text_eq, ℕ, zero, suc, ◌+◌, ◌≤◌, ◌≡◌, refl,
  sym, ◌↔◌, inl, inr, Bool, true, false, not, ◌&&◌, Option, none, some, List, [], ◌∷◌, ◌++◌, arith,
}
use system_design_course.Common.Json.{
  null, bool, num, neg, float, str, arr, obj, nil, cons, end, field, Json, Items, Fields,
}
use system_design_course.Builder.Schema.{
  Keywords, Schema, Schemas, Child, Members, Additional, Python, Fault, type_ok, same_json,
  in_values, reference, one_of, keywords, no_schema, schema, no_child, child, no_member, member,
  allowed, forbidden, checked, not_one_form, wrong_type, unexpected_key,
}
use system_design_course.Builder.SchemaErrors.{
  Root, resolve, both, const_faults, enum_faults, find_member, item_path, field_path, key_path,
  own_faults, count_forms, check_items, check_child, check_extra, check_field, check_members,
  check_inside, check_value, schema_errors,
}
use system_design_course.Builder.Accepted.{
  holds, own_holds, admitting, all_admitted, child_admits, extra_admits, fields_admitted,
  inside_admits, accepts, all_fit, child_fits, members_fit, extra_fits, fits_in,
}
use system_design_course.Builder.Faults.{
  no_faults, no_faults-append, const-holds, enum-holds, three_faults, own_faults-holds,
}

-- The check ends, and finds nothing just where the test holds.
pub Decides : Option (List Fault) → Bool → Type 0
Decides r b = (es : List Fault) × (r ≡ some es) × (no_faults es ≡ b)

both-Decides :
    (r q : Option (List Fault)) (a b : Bool)
    → Decides r a
    → Decides q b
    → Decides (both r q) (a && b)
unfolding Decides both
both-Decides r q a b (xs, ex, hx) (ys, ey, hy) =
    (xs ++ ys, ground (arith, ex, ey), ground (arith, no_faults-append xs ys, hx, hy))

-- The loops over what is inside, when the check of one value decides for each schema that fits.
module _ (check : Json → Schema → Text → Option (List Fault)) (admits : Json → Schema → Bool)
    (fits : Schema → Bool)
    (decides : (v : Json) (s : Schema) (path : Text)
      → fits s ≡ true
      → Decides (check v s path) (admits v s)) where
  forms_step :
      (v : Json) (s : Schema) (ss : Schemas) (path : Text) (es : List Fault)
      → check v s path ≡ some es
      → no_faults es ≡ admits v s
      → count_forms check v ss path ≡ some (admitting admits v ss)
      → count_forms check v (schema s ss) path ≡ some (admitting admits v (schema s ss))
  unfolding count_forms admitting
  forms_step v s ss path [] e d rest = ground (arith, e, d, rest)
  forms_step v s ss path (f ∷ fs) e d rest = ground (arith, e, d, rest)

  forms_counted :
      (v : Json) (ss : Schemas) (path : Text)
      → all_fit fits ss ≡ true
      → count_forms check v ss path ≡ some (admitting admits v ss)
  unfolding all_fit count_forms admitting Decides
  forms_counted v no_schema path h = refl
  forms_counted v (schema s ss) path h =
      let (es, e, d) = decides v s path (ground (arith, h)) in
      forms_step v s ss path es e d (forms_counted v ss path (ground (arith, h)))

  items_decided :
      (vs : Items) (s : Schema) (path : Text) (i : ℕ)
      → fits s ≡ true
      → Decides (check_items check vs s path i) (all_admitted admits vs s)
  unfolding Decides check_items all_admitted
  items_decided nil s path i h = ([], refl, refl)
  items_decided (cons v vs) s path i h =
      both-Decides _ _ _ _ (decides v s (item_path path i) h) (items_decided vs s path (i + 1) h)

  child_decided :
      (c : Child) (v : Json) (path : Text)
      → child_fits fits c ≡ true
      → Decides (check_child check c v path) (child_admits admits c v)
  unfolding Decides check_child
  child_decided no_child v path h = ([], refl, refl)
  child_decided (child s) v path h = decides v s path h

  extra_decided :
      (extra : Additional) (key : Text) (v : Json) (path : Text)
      → extra_fits fits extra ≡ true
      → Decides (check_extra check extra key v path) (extra_admits admits extra v)
  unfolding Decides check_extra
  extra_decided allowed key v path h = ([], refl, refl)
  extra_decided forbidden key v path h = (unexpected_key path key ∷ [], refl, refl)
  extra_decided (checked s) key v path h = decides v s (field_path path key) h

  member_fits :
      (key : Text) (ms : Members) (s : Schema)
      → members_fit fits ms ≡ true
      → find_member key ms ≡ some s
      → fits s ≡ true
  unfolding members_fit find_member
  member_fits key no_member s h e = absurd (cc e)
  member_fits key (member k s' ms) s h e = elim (Bool-cases (text_eq k key)) [
    | inl t ↦ ground (arith, h, e, t)
    | inr t ↦ member_fits key ms s (ground (arith, h)) (ground (arith, e, t))
  ]

  module _ (props : Members) (names : Child) (extra : Additional)
      (props_fit : members_fit fits props ≡ true) (names_fit : child_fits fits names ≡ true)
      (extra_fit : extra_fits fits extra ≡ true) where
    value_decided :
        (key : Text) (v : Json) (path : Text) (found : Option Schema)
        → ((s : Schema) → found ≡ some s → fits s ≡ true)
        → Decides
            (elim found [
              | some s ↦ check v s (field_path path key)
              | none ↦ check_extra check extra key v path
            ])
            (elim found [ some s ↦ admits v s | none ↦ extra_admits admits extra v ])
    value_decided key v path none h = extra_decided extra key v path extra_fit
    value_decided key v path (some s) h = decides v s (field_path path key) (h s refl)

    members_decided :
        (fs : Fields) (path : Text)
        → Decides
            (check_members check props names extra fs path)
            (fields_admitted admits props names extra fs)
    unfolding Decides check_members check_field fields_admitted
    members_decided end path = ([], refl, refl)
    members_decided (field key v fs) path =
        both-Decides _ _ _ _
          (both-Decides _ _ _ _ (child_decided names (str key) (key_path path key) names_fit) (
            value_decided key v path (find_member key props)
              (λ s e. member_fits key props s props_fit e)))
          (members_decided fs path)

  reference_decided :
      (v : Json) (found : Option Schema) (path : Text)
      → elim found [ none ↦ false | some s ↦ fits s ] ≡ true
      → Decides
          (elim found [ none ↦ none | some s ↦ check v s path ])
          (elim found [ none ↦ false | some s ↦ admits v s ])
  reference_decided v none path h = absurd (cc h)
  reference_decided v (some s) path h = decides v s path h

  inside_decided :
      (v : Json) (items : Child) (props : Members) (names : Child) (extra : Additional)
      (path : Text)
      → child_fits fits items ≡ true
      → members_fit fits props ≡ true
      → child_fits fits names ≡ true
      → extra_fits fits extra ≡ true
      → Decides
          (check_inside check v items props names extra path)
          (inside_admits admits v items props names extra)
  unfolding Decides check_inside inside_admits
  inside_decided (arr vs) no_child props names extra path hi hp hn he = ([], refl, refl)
  inside_decided (arr vs) (child s) props names extra path hi hp hn he =
      items_decided vs s path 0 hi
  inside_decided (obj fs) items props names extra path hi hp hn he =
      members_decided props names extra hp hn he fs path
  inside_decided null items props names extra path hi hp hn he = ([], refl, refl)
  inside_decided (bool b) items props names extra path hi hp hn he = ([], refl, refl)
  inside_decided (num n) items props names extra path hi hp hn he = ([], refl, refl)
  inside_decided (neg n) items props names extra path hi hp hn he = ([], refl, refl)
  inside_decided (float t) items props names extra path hi hp hn he = ([], refl, refl)
  inside_decided (str t) items props names extra path hi hp hn he = ([], refl, refl)

-- A value of a type that the keywords admit is checked further, any other has one fault.
keywords_decided :
    (x : Python) (v : Json) (k : Keywords) (path : Text) (inside : Option (List Fault)) (b : Bool)
    → Decides inside b
    → Decides
        (if elim k.types [ none ↦ true | some ts ↦ type_ok v ts ]
          then both
              (some (const_faults x v k path ++ (enum_faults x v k path ++ own_faults x v k path)))
              inside
          else some (wrong_type path ∷ []))
        (holds k.types (type_ok v)
          && ((holds k.const (same_json x v) && (holds k.enum (in_values x v) && own_holds x v k))
              && b))
unfolding Decides both
keywords_decided x v k path inside b (es, e, d) =
    let own = const_faults x v k path ++ (enum_faults x v k path ++ own_faults x v k path) in
    let own_part =
      three_faults _ _ _ _ _ _ (const-holds x v k path) (enum-holds x v k path)
        (own_faults-holds x v k path) in
    elim (Bool-cases (holds k.types (type_ok v))) [
      | inl t ↦
          (own ++ es, ground (arith, e, t), ground (arith, no_faults-append own es, own_part, t, d))
      | inr t ↦ (wrong_type path ∷ [], ground (arith, t), ground (arith, t))
    ]

no_faults-nil : (es : List Fault) (b : Bool) → no_faults es ≡ b → (es ≡ []) ↔ (b ≡ true)
no_faults-nil [] b h = ((λ e. sym h), (λ e. refl))
no_faults-nil (f ∷ fs) b h = ((λ e. absurd (cc e)), (λ e. absurd (ground (arith, e, h))))

check_value-Decides :
    (x : Python) (root : Root) (fuel depth : ℕ) (v : Json) (s : Schema) (path : Text)
    → depth ≤ fuel
    → fits_in root depth s ≡ true
    → Decides (check_value x root fuel v s path) (accepts x root depth v s)
unfolding check_value fits_in accepts Decides
check_value-Decides x root fuel zero v s path le h = absurd (cc h)
check_value-Decides x root zero (suc depth) v s path le h = absurd (omega (arith, le))
check_value-Decides x root (suc fuel) (suc depth) v (reference r) path le h =
    reference_decided (check_value x root fuel) (accepts x root depth) (fits_in root depth)
      (λ w s p f. check_value-Decides x root fuel depth w s p (omega (arith, le)) f) v
      (resolve root r) path h
check_value-Decides x root (suc fuel) (suc depth) v (one_of ss) path le h =
    let counted =
      forms_counted (check_value x root fuel) (accepts x root depth) (fits_in root depth)
        (λ w s p f. check_value-Decides x root fuel depth w s p (omega (arith, le)) f) v ss path
        h in
    (
      when (not (admitting (accepts x root depth) v ss == 1)) (not_one_form path),
      ground (arith, counted),
      ground arith,
    )
check_value-Decides x root (suc fuel) (suc depth) v (keywords k items props names extra) path le h =
    keywords_decided x v k path _ _ (
      inside_decided (check_value x root fuel) (accepts x root depth) (fits_in root depth)
        (λ w s p f. check_value-Decides x root fuel depth w s p (omega (arith, le)) f) v items props
        names extra path (ground (arith, h)) (ground (arith, h)) (ground (arith, h))
        (ground (arith, h)))

-- A schema whose references lead somewhere and whose schemas nest at most `depth` deep: `schema_errors`
-- ends for every value, at any limit from there on, and finds no fault just in the values that satisfy
-- the schema.
pub schema_errors-accepts :
    (x : Python) (root : Root) (fuel depth : ℕ) (v : Json) (s : Schema)
    → depth ≤ fuel
    → fits_in root depth s ≡ true
    → (es : List Fault) × (schema_errors x root fuel v s ≡ some es)
      × ((es ≡ []) ↔ (accepts x root depth v s ≡ true))
unfolding schema_errors Decides
schema_errors-accepts x root fuel depth v s le h =
    let (es, e, d) = check_value-Decides x root fuel depth v s (codes "$") le h in
    (es, e, no_faults-nil es _ d)
