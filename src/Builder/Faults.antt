-- ===== src/Builder/Faults.antt =====
-- The faults that the keywords of a schema find in a value, against its conditions.
use system_design_course.Common.{
  leb, Option-cases, length, Text, ◌≡◌, refl, inl, inr, Bool, true, false, not, ◌&&◌, Option, none,
  some, List, [], ◌∷◌, ◌++◌, arith,
}
use system_design_course.Common.Json.{
  null, bool, num, neg, float, str, arr, obj, get_field, Json, Items, Fields,
}
use system_design_course.Builder.Schema.{
  Keywords, Python, Fault, count_items, same_json, in_values, less, at_most, too_short, too_long,
  too_few, too_many, no_match, below, above, not_above,
}
use system_design_course.Builder.SchemaErrors.{
  const_faults, enum_faults, limit, text_faults, number_faults, list_faults, required_faults,
  own_faults,
}
use system_design_course.Builder.Accepted.{
  holds, text_holds, number_holds, list_holds, has_all, own_holds,
}

abbrev pub no_faults : List Fault → Bool
no_faults [] = true
no_faults (e ∷ es) = false

pub no_faults-append : (xs ys : List Fault) → no_faults (xs ++ ys) ≡ (no_faults xs && no_faults ys)
no_faults-append [] ys = refl
no_faults-append (e ∷ es) ys = refl

limit-holds {ℓ} :
    {A : Type ℓ} (m : Option A) (broken test : A → Bool) (fault : A → Fault)
    → ((a : A) → test a ≡ not (broken a))
    → no_faults (limit m broken fault) ≡ holds m test
limit-holds none broken test fault h = refl
limit-holds (some a) broken test fault h = ground (arith, h a)

pub const-holds :
    (x : Python) (v : Json) (k : Keywords) (path : Text)
    → no_faults (const_faults x v k path) ≡ holds k.const (same_json x v)
unfolding const_faults
const-holds x v k path = ground arith

pub enum-holds :
    (x : Python) (v : Json) (k : Keywords) (path : Text)
    → no_faults (enum_faults x v k path) ≡ holds k.enum (in_values x v)
unfolding enum_faults
enum-holds x v k path = ground arith

pub three_faults :
    (xs ys zs : List Fault) (a b c : Bool)
    → no_faults xs ≡ a
    → no_faults ys ≡ b
    → no_faults zs ≡ c
    → no_faults (xs ++ (ys ++ zs)) ≡ (a && (b && c))
three_faults xs ys zs a b c ha hb hc =
    ground (arith, no_faults-append xs (ys ++ zs), no_faults-append ys zs)

text_faults-holds :
    (x : Python) (t : Text) (k : Keywords) (path : Text)
    → no_faults (text_faults x t k path) ≡ text_holds x t k
unfolding text_faults
text_faults-holds x t k path =
    three_faults _ _ _ _ _ _
      (limit-holds k.min_length _ (λ n. leb n (length t)) (too_short path) (λ n. ground arith))
      (limit-holds k.max_length _ (λ n. leb (length t) n) (too_long path) (λ n. ground arith))
      (limit-holds k.regex _ (λ r. x.search r t) (no_match path t) (λ r. ground arith))

number_faults-holds :
    (x : Python) (v : Json) (k : Keywords) (path : Text)
    → no_faults (number_faults x v k path) ≡ number_holds x v k
unfolding number_faults
number_faults-holds x v k path =
    three_faults _ _ _ _ _ _
      (limit-holds k.minimum _ (λ w. not (less x v w)) (below path) (λ w. refl))
      (limit-holds k.maximum _ (λ w. not (less x w v)) (above path) (λ w. refl))
      (limit-holds k.exclusive_minimum _ (λ w. not (at_most x v w)) (not_above path) (λ w. refl))

list_faults-holds :
    (x : Python) (vs : Items) (k : Keywords) (path : Text)
    → no_faults (list_faults x vs k path) ≡ list_holds x vs k
unfolding list_faults
list_faults-holds x vs k path =
    three_faults _ _ _ _ _ _
      (limit-holds k.min_items _ (λ n. leb n (count_items vs)) (too_few path) (λ n. ground arith))
      (limit-holds k.max_items _ (λ n. leb (count_items vs) n) (too_many path) (λ n. ground arith))
      (ground arith)

required-holds :
    (keys : List Text) (fs : Fields) (path : Text)
    → no_faults (required_faults keys fs path) ≡ has_all keys fs
unfolding required_faults has_all
required-holds [] fs path = refl
required-holds (key ∷ keys) fs path = elim (Option-cases (get_field key fs)) [
  | inl e ↦ ground (arith, e)
  | inr (v, e) ↦ ground (arith, e, required-holds keys fs path)
]

pub own_faults-holds :
    (x : Python) (v : Json) (k : Keywords) (path : Text)
    → no_faults (own_faults x v k path) ≡ own_holds x v k
unfolding own_faults own_holds
own_faults-holds x (str t) k path = text_faults-holds x t k path
own_faults-holds x (num n) k path = number_faults-holds x (num n) k path
own_faults-holds x (neg n) k path = number_faults-holds x (neg n) k path
own_faults-holds x (float t) k path = number_faults-holds x (float t) k path
own_faults-holds x (arr vs) k path = list_faults-holds x vs k path
own_faults-holds x (obj fs) k path = required-holds k.required fs path
own_faults-holds x null k path = refl
own_faults-holds x (bool b) k path = refl
