-- ===== src/Common/Json.antt =====
-- Values that `json.loads` returns. A negative integer -(n + 1) is `neg n`, and a float is kept as the
-- text that Python prints for it.
use Prim.Native.Nat.{ℕ, zero, suc}
use mathlib.Core.Bool.{Bool, true, false, not, ◌||◌}
use mathlib.Core.Option.{Option, none, some}
use mathlib.Core.List.{List, [], ◌∷◌}
use system_design_course.Common.Tests.{if◌then◌else◌}
use system_design_course.Common.Strings.{Text, codes, text_eq}

mutual
  pub data Json : Type 0 where
    null : Json
    bool : Bool → Json
    num neg : ℕ → Json
    float : Text → Json
    str : Text → Json
    arr : Items → Json
    obj : Fields → Json

  pub data Items : Type 0 where
    nil : Items
    cons : Json → Items → Items

  pub data Fields : Type 0 where
    end : Fields
    field : Text → Json → Fields → Fields

-- d.get(key) on a decoded object
unfoldable pub get_field : Text → Fields → Option Json
get_field key end = none
get_field key (field k v fields) = if text_eq k key then some v else get_field key fields

abbrev pub items_list : Items → List Json
items_list nil = []
items_list (cons x xs) = x ∷ items_list xs

-- Iterating over a dict gives its keys, over a str its characters.
abbrev pub field_keys : Fields → List Json
field_keys end = []
field_keys (field k v fields) = str k ∷ field_keys fields

abbrev pub characters : Text → List Json
characters [] = []
characters (c ∷ cs) = str (c ∷ []) ∷ characters cs

-- `for item in value`: `none` is the TypeError of a value that cannot be iterated.
unfoldable pub iterate : Json → Option (List Json)
iterate (arr xs) = some (items_list xs)
iterate (obj fields) = some (field_keys fields)
iterate (str s) = some (characters s)
iterate _ = none

-- bool(value)
unfoldable pub truthy : Json → Bool
truthy null = false
truthy (bool b) = b
truthy (num zero) = false
truthy (num (suc n)) = true
truthy (neg n) = true
truthy (float t) = not (text_eq t (codes "0.0") || text_eq t (codes "-0.0"))
truthy (str []) = false
truthy (str (c ∷ cs)) = true
truthy (arr nil) = false
truthy (arr (cons x xs)) = true
truthy (obj end) = false
truthy (obj (field k v fs)) = true
