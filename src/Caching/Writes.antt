-- ===== src/Caching/Writes.antt =====
-- What cache_lab.py reads after a write, and that a write behind the cache reaches the backend.
use system_design_course.Common.{
  Option-cases, In, Text, text_eq_self, ◌≡◌, refl, inl, inr, true, Option, some, arith,
}
use system_design_course.Caching.Patterns.{
  Cache, product_key, after_colon, get_product, update_product, update_product_async, flush_dirty,
  IsCache,
}
use system_design_course.Caching.Flush.{flush_dirty-IsKept, flush_dirty-finished}

after_colon-product_key :
    (product_id : Text) → after_colon (product_key product_id) ≡ some product_id
unfolding after_colon
after_colon-product_key product_id = refl

get-update_product_async :
    {S : Type 0} (cache : Cache S) (laws : IsCache cache) (product_id v : Text) (s : S)
    → cache.get (product_key product_id) (update_product_async cache product_id v s) ≡ some v
unfolding update_product_async
get-update_product_async cache laws product_id v s =
    let k = product_key product_id in
    ground (arith, laws.get_mark k k (cache.set k v s), laws.get_set k k v s, text_eq_self k)

dirty-update_product_async :
    {S : Type 0} (cache : Cache S) (laws : IsCache cache) (product_id v : Text) (s : S)
    → cache.is_dirty (product_key product_id) (update_product_async cache product_id v s) ≡ true
unfolding update_product_async
dirty-update_product_async cache laws product_id v s =
    let k = product_key product_id in
    ground (arith, laws.dirty_mark k k (cache.set k v s), text_eq_self k)

-- A product written behind the cache reaches the backend, under its own id and with the text that was
-- written, by the next flush that comes to its end, if nothing is written in between.
pub async_write-flush_dirty :
    {S : Type 0} (cache : Cache S) (laws : IsCache cache) (put : Text → Text → Option Text)
    (product_id v : Text) (s : S)
    → (flush_dirty cache put (update_product_async cache product_id v s)).finished ≡ true
    → In (product_id, v) (flush_dirty cache put (update_product_async cache product_id v s)).puts
async_write-flush_dirty cache laws put product_id v s h =
    let s' = update_product_async cache product_id v s in
    let k = product_key product_id in
    let clean = flush_dirty-finished cache laws put s' k h in
    elim (flush_dirty-IsKept cache laws put s' k product_id v
      (dirty-update_product_async cache laws product_id v s)
      (get-update_product_async cache laws product_id v s) (after_colon-product_key product_id)) [
        | inl (d, g) ↦ absurd (ground (arith, clean, d))
        | inr w ↦ w
      ]

-- A product that was read, written through or written behind is read next from the cache, whatever
-- the backend would answer: as it was read, as the backend answered the write, or as it was written.
next_read :
    {S : Type 0} (cache : Cache S) (laws : IsCache cache) (fetch fetch' : Text → Option Text)
    (put : Text → Text → Option Text) (product_id v d response : Text) (s : S)
    → (get_product cache fetch product_id s).0 ≡ some d
    → put product_id v ≡ some response
    → ((get_product cache fetch' product_id (get_product cache fetch product_id s).1).0 ≡ some d)
      × ((get_product cache fetch' product_id (update_product cache put product_id v s).1).0
          ≡ some response)
      × ((get_product cache fetch' product_id (update_product_async cache product_id v s)).0
          ≡ some v)
unfolding get_product update_product
next_read cache laws fetch fetch' put product_id v d response s h p =
    let k = product_key product_id in
    let own = text_eq_self k in
    (
      elim (Option-cases (cache.get k s)) [
        | inr (c, e) ↦ ground (arith, e, h)
        | inl e ↦ elim (Option-cases (fetch product_id)) [
          | inl f ↦ absurd (ground (arith, e, f, h))
          | inr (x, f) ↦ ground (arith, e, f, h, laws.get_set k k x s, own)
        ]
      ],
      ground (arith, p, laws.get_set k k response s, own),
      ground (arith, get-update_product_async cache laws product_id v s),
    )
