-- ===== src/Caching/Patterns.antt =====
-- cache_lab.py: cache-aside, read-through, write-through and write-back. Redis is outside: a cache is
-- its state with the calls the lab makes, and `IsCache` is what they promise. The backend's answers
-- to HTTP calls come from outside too; an exception of an HTTP call ends the operation, and Redis is
-- taken to answer.
use system_design_course.Common.{
  ◌==◌, if◌then◌else◌, In, Text, codes, text_eq, ℕ, ◌≡◌, Bool, true, false, ◌||◌, Option, none,
  some, List, [], ◌∷◌, ◌++◌,
}

-- GET, SET, SET with EX, SADD and SREM on `dirty_keys`, and its sorted SMEMBERS.
pub record Cache (S : Type 0) : Type 0 where
  pub get : Text → S → Option Text
  pub set : Text → Text → S → S
  pub set_ex : Text → Text → ℕ → S → S
  pub mark : Text → S → S
  pub unmark : Text → S → S
  pub is_dirty : Text → S → Bool
  pub dirty_keys : S → List Text

-- f"product:{product_id}"
abbrev pub product_key : Text → Text
product_key product_id = codes "product:" ++ product_id

-- The text after the first colon: `key.split(":", 1)[1]`; `none` is the IndexError.
unfoldable pub after_colon : Text → Option Text
after_colon [] = none
after_colon (c ∷ cs) = if c == b':' then some cs else after_colon cs

-- The result and the cache; `none` is an exception of the HTTP call. `fetch` is the backend's answer.
unfoldable pub get_product :
    {S : Type 0} → Cache S → (Text → Option Text) → Text → S → Option Text × S
get_product cache fetch product_id s = elim (cache.get (product_key product_id) s) [
  | some cached ↦ (some cached, s)
  | none ↦ elim (fetch product_id) [
    | none ↦ (none, s)
    | some data_text ↦ (some data_text, cache.set (product_key product_id) data_text s)
  ]
]

unfoldable pub read_through : {S : Type 0} → Cache S → Text → ℕ → Option Text → S → Option Text × S
read_through cache key ttl_seconds fetched s = elim (cache.get key s) [
  | some cached ↦ (some cached, s)
  | none ↦ elim fetched [
    | none ↦ (none, s)
    | some data_text ↦ (some data_text, cache.set_ex key data_text ttl_seconds s)
  ]
]

-- `put` is the backend's answer to a PUT of a product.
unfoldable pub update_product :
    {S : Type 0} → Cache S → (Text → Text → Option Text) → Text → Text → S → Bool × S
update_product cache put product_id json_data s = elim (put product_id json_data) [
  | none ↦ (false, s)
  | some response ↦ (true, cache.set (product_key product_id) response s)
]

unfoldable pub update_product_async : {S : Type 0} → Cache S → Text → Text → S → S
update_product_async cache product_id json_data s =
    cache.mark (product_key product_id) (cache.set (product_key product_id) json_data s)

-- A flush: whether it came to its end, the PUTs that the backend answered, in order, and the cache.
pub record Flushed (S : Type 0) : Type 0 where
  pub finished : Bool
  pub puts : List (Text × Text)
  pub cache : S

unfoldable pub flush_keys :
    {S : Type 0} → Cache S → (Text → Text → Option Text) → List Text → S → Flushed S
flush_keys cache put [] s = record { finished = true; puts = []; cache = s }
flush_keys cache put (key ∷ keys) s =
    let stop : Flushed _ = record { finished = false; puts = []; cache = s } in
    elim (cache.get key s) [
      | none ↦ flush_keys cache put keys (cache.unmark key s)
      | some data_text ↦ elim (after_colon key) [
        | none ↦ stop
        | some product_id ↦ elim (put product_id data_text) [
          | none ↦ stop
          | some response ↦
              let rest = flush_keys cache put keys (cache.unmark key s) in
              record rest { puts = (product_id, data_text) ∷ rest.puts }
        ]
      ]
    ]

unfoldable pub flush_dirty : {S : Type 0} → Cache S → (Text → Text → Option Text) → S → Flushed S
flush_dirty cache put s = flush_keys cache put (cache.dirty_keys s) s

-- What Redis promises of these calls.
pub record IsCache {S : Type 0} (cache : Cache S) : Type 0 where
  pub get_set :
      (k j v : Text) (s : S)
      → cache.get j (cache.set k v s) ≡ (if text_eq k j then some v else cache.get j s)
  pub get_mark : (k j : Text) (s : S) → cache.get j (cache.mark k s) ≡ cache.get j s
  pub get_unmark : (k j : Text) (s : S) → cache.get j (cache.unmark k s) ≡ cache.get j s
  pub dirty_set : (k j v : Text) (s : S) → cache.is_dirty j (cache.set k v s) ≡ cache.is_dirty j s
  pub dirty_mark :
      (k j : Text) (s : S) → cache.is_dirty j (cache.mark k s) ≡ (text_eq k j || cache.is_dirty j s)
  pub dirty_unmark :
      (k j : Text) (s : S)
      → cache.is_dirty j (cache.unmark k s) ≡ (if text_eq k j then false else cache.is_dirty j s)
  pub dirty_members : (j : Text) (s : S) → cache.is_dirty j s ≡ true → In j (cache.dirty_keys s)
