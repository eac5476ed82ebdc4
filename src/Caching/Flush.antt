-- ===== src/Caching/Flush.antt =====
-- The write-back cache of cache_lab.py: no write is lost on its way to the backend.
use mathlib.Core.Path.{subst}
use system_design_course.Common.{
  Bool-cases, Option-cases, In, Text, text_eq, text_eq_iff, ◌≡◌, refl, ap, ◌∙◌, ◌⊎◌, inl, inr, true,
  false, Option, none, some, List, [], ◌∷◌, arith,
}
use system_design_course.Caching.Patterns.{
  Cache, after_colon, Flushed, flush_keys, flush_dirty, IsCache,
}

abbrev add_put : {S : Type 0} → Text × Text → Flushed S → Flushed S
add_put p r = record r { puts = p ∷ r.puts }

-- What a flush does with its first key: skip it, stop before it, or write it to the backend.
data Turn {S : Type 0} (cache : Cache S) (put : Text → Text → Option Text) (key : Text)
    (keys : List Text) (s : S) : Flushed S → Type 0 where
  skipped :
      cache.get key s ≡ none
      → Turn cache put key keys s (flush_keys cache put keys (cache.unmark key s))
  stopped : Turn cache put key keys s (record { finished = false; puts = []; cache = s })
  written :
      (data_text product_id : Text)
      → cache.get key s ≡ some data_text
      → after_colon key ≡ some product_id
      → Turn cache put key keys s
          (add_put (product_id, data_text) (flush_keys cache put keys (cache.unmark key s)))

flush_keys-Turn :
    {S : Type 0} (cache : Cache S) (put : Text → Text → Option Text) (key : Text) (keys : List Text)
    (s : S)
    → Turn cache put key keys s (flush_keys cache put (key ∷ keys) s)
unfolding flush_keys
flush_keys-Turn {S = S} cache put key keys s =
    let T = λ (r : Flushed S). Turn cache put key keys s r in
    elim (Option-cases (cache.get key s)) [
      | inl e ↦ subst T (ground (arith, e)) (skipped e)
      | inr (d, e) ↦ elim (Option-cases (after_colon key)) [
        | inl f ↦ subst T (ground (arith, e, f)) stopped
        | inr (id, f) ↦ elim (Option-cases (put id d)) [
          | inl g ↦ subst T (ground (arith, e, f, g)) stopped
          | inr (response, g) ↦ subst T (ground (arith, e, f, g)) (written d id e f)
        ]
      ]
    ]

-- The value v that the cache holds for a key is still there and marked, or was put to the backend.
abbrev pub IsKept : {S : Type 0} → Cache S → Text → Text → Text → Flushed S → Type 0
IsKept cache j id v r =
    ((cache.is_dirty j r.cache ≡ true) × (cache.get j r.cache ≡ some v)) ⊎ In (id, v) r.puts

later_put-IsKept :
    {S : Type 0} (cache : Cache S) (j id v : Text) (p : Text × Text) (r : Flushed S)
    → IsKept cache j id v r
    → IsKept cache j id v (add_put p r)
later_put-IsKept cache j id v p r (inl k) = inl k
later_put-IsKept cache j id v p r (inr w) = inr (inr w)

unmark-dirty :
    {S : Type 0} (cache : Cache S) (laws : IsCache cache) (k j : Text) (s : S)
    → text_eq k j ≡ false
    → cache.is_dirty j s ≡ true
    → cache.is_dirty j (cache.unmark k s) ≡ true
unmark-dirty cache laws k j s ne h = ground (arith, laws.dirty_unmark k j s, ne, h)

Turn-IsKept :
    {S : Type 0} (cache : Cache S) (laws : IsCache cache) (put : Text → Text → Option Text)
    (key : Text) (keys : List Text) (s : S) (j id v : Text)
    → cache.is_dirty j s ≡ true
    → cache.get j s ≡ some v
    → after_colon j ≡ some id
    → (r : Flushed S)
    → (text_eq key j ≡ false → IsKept cache j id v (flush_keys cache put keys (cache.unmark key s)))
    → Turn cache put key keys s r
    → IsKept cache j id v r
Turn-IsKept cache laws put key keys s j id v d g a r ih (skipped e) =
    elim (Bool-cases (text_eq key j)) [
      | inl same ↦
          absurd (ground (arith, e, g, ap (λ k. cache.get k s) ((text_eq_iff key j).0 same)))
      | inr ne ↦ ih ne
    ]
Turn-IsKept cache laws put key keys s j id v d g a r ih stopped = inl (d, g)
Turn-IsKept cache laws put key keys s j id v d g a r ih (written d' id' e f) =
    elim (Bool-cases (text_eq key j)) [
      | inl same ↦
          let k : key ≡ j = (text_eq_iff key j).0 same in
          let ids : id' ≡ id = ground (arith, f, a, ap after_colon k) in
          let texts : d' ≡ v = ground (arith, e, g, ap (λ k. cache.get k s) k) in
          inr (inl (ap (λ i. (i, d')) ids ∙ ap (λ t. (id, t)) texts))
      | inr ne ↦
          later_put-IsKept cache j id v (id', d') (flush_keys cache put keys (cache.unmark key s))
            (ih ne)
    ]

flush_keys-IsKept :
    {S : Type 0} (cache : Cache S) (laws : IsCache cache) (put : Text → Text → Option Text)
    (keys : List Text) (s : S) (j id v : Text)
    → cache.is_dirty j s ≡ true
    → cache.get j s ≡ some v
    → after_colon j ≡ some id
    → IsKept cache j id v (flush_keys cache put keys s)
unfolding flush_keys
flush_keys-IsKept cache laws put [] s j id v d g a = inl (d, g)
flush_keys-IsKept cache laws put (key ∷ keys) s j id v d g a =
    Turn-IsKept cache laws put key keys s j id v d g a (flush_keys cache put (key ∷ keys) s)
      (λ ne.
        flush_keys-IsKept cache laws put keys (cache.unmark key s) j id v
          (unmark-dirty cache laws key j s ne d) (laws.get_unmark key j s ∙ g) a)
      (flush_keys-Turn cache put key keys s)

-- Whatever the backend answers, and if the flush breaks off at an error, a write that the cache holds
-- dirty is not lost: it is still there and marked, or the backend has received it.
pub flush_dirty-IsKept :
    {S : Type 0} (cache : Cache S) (laws : IsCache cache) (put : Text → Text → Option Text) (s : S)
    (j id v : Text)
    → cache.is_dirty j s ≡ true
    → cache.get j s ≡ some v
    → after_colon j ≡ some id
    → IsKept cache j id v (flush_dirty cache put s)
unfolding flush_dirty
flush_dirty-IsKept cache laws put s j id v d g a =
    flush_keys-IsKept cache laws put (cache.dirty_keys s) s j id v d g a

Turn-clean :
    {S : Type 0} (cache : Cache S) (put : Text → Text → Option Text) (key : Text) (keys : List Text)
    (s : S) (j : Text) (r : Flushed S)
    → cache.is_dirty j s ≡ false
    → cache.is_dirty j (flush_keys cache put keys (cache.unmark key s)).cache ≡ false
    → Turn cache put key keys s r
    → cache.is_dirty j r.cache ≡ false
Turn-clean cache put key keys s j r c later (skipped e) = later
Turn-clean cache put key keys s j r c later stopped = c
Turn-clean cache put key keys s j r c later (written d id e f) = later

flush_keys-clean :
    {S : Type 0} (cache : Cache S) (laws : IsCache cache) (put : Text → Text → Option Text)
    (keys : List Text) (s : S) (j : Text)
    → cache.is_dirty j s ≡ false
    → cache.is_dirty j (flush_keys cache put keys s).cache ≡ false
unfolding flush_keys
flush_keys-clean cache laws put [] s j c = c
flush_keys-clean cache laws put (key ∷ keys) s j c =
    Turn-clean cache put key keys s j (flush_keys cache put (key ∷ keys) s) c
      (flush_keys-clean cache laws put keys (cache.unmark key s) j
        (ground (arith, laws.dirty_unmark key j s, c)))
      (flush_keys-Turn cache put key keys s)

Turn-finished :
    {S : Type 0} (cache : Cache S) (put : Text → Text → Option Text) (key : Text) (keys : List Text)
    (s : S) (r : Flushed S)
    → Turn cache put key keys s r
    → r.finished ≡ true
    → (r.cache ≡ (flush_keys cache put keys (cache.unmark key s)).cache)
      × ((flush_keys cache put keys (cache.unmark key s)).finished ≡ true)
Turn-finished cache put key keys s r (skipped e) h = (refl, h)
Turn-finished cache put key keys s r stopped h = absurd (cc h)
Turn-finished cache put key keys s r (written d id e f) h = (refl, h)

flush_keys-finished :
    {S : Type 0} (cache : Cache S) (laws : IsCache cache) (put : Text → Text → Option Text)
    (keys : List Text) (s : S) (j : Text)
    → In j keys
    → (flush_keys cache put keys s).finished ≡ true
    → cache.is_dirty j (flush_keys cache put keys s).cache ≡ false
flush_keys-finished cache laws put [] s j w h = absurd w
flush_keys-finished cache laws put (key ∷ keys) s j w h =
    let r = flush_keys cache put (key ∷ keys) s in
    let s' = cache.unmark key s in
    let (same, later) =
      Turn-finished cache put key keys s r (flush_keys-Turn cache put key keys s) h in
    ap (λ c. cache.is_dirty j c) same ∙ elim w [
      | inl e ↦
          flush_keys-clean cache laws put keys s' j
            (ground (arith, laws.dirty_unmark key j s, (text_eq_iff key j).1 e))
      | inr there ↦ flush_keys-finished cache laws put keys s' j there later
    ]

-- A flush that comes to its end leaves no key dirty.
pub flush_dirty-finished :
    {S : Type 0} (cache : Cache S) (laws : IsCache cache) (put : Text → Text → Option Text) (s : S)
    (j : Text)
    → (flush_dirty cache put s).finished ≡ true
    → cache.is_dirty j (flush_dirty cache put s).cache ≡ false
unfolding flush_dirty
flush_dirty-finished cache laws put s j h = elim (Bool-cases (cache.is_dirty j s)) [
  | inl d ↦ flush_keys-finished cache laws put (cache.dirty_keys s) s j (laws.dirty_members j s d) h
  | inr c ↦ flush_keys-clean cache laws put (cache.dirty_keys s) s j c
]
