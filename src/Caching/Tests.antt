-- ===== src/Caching/Tests.antt =====
-- Runs of the model of cache_lab.py, and each theorem at an input that meets its hypotheses, with a
-- cache in memory.
use system_design_course.Common.{
  if◌then◌else◌, Bool-cases, In, Text, codes, text_eq, text_eq_iff, Dict, lookup, insert,
  lookup-insert, ◌≡◌, refl, inl, inr, Bool, true, false, ◌||◌, Option, none, some, List, [], ◌∷◌,
  arith,
}
use system_design_course.Caching.Patterns.{
  Cache, after_colon, get_product, update_product_async, flush_keys, flush_dirty, IsCache,
}
use system_design_course.Caching.Flush.{IsKept, flush_dirty-IsKept}
use system_design_course.Caching.Writes.{async_write-flush_dirty}

record Memory : Type 0 where
  values : Dict Text
  marks : List Text

has : Text → List Text → Bool
has j [] = false
has j (x ∷ xs) = text_eq x j || has j xs

without : Text → List Text → List Text
without k [] = []
without k (x ∷ xs) = let rest = without k xs in if text_eq k x then rest else x ∷ rest

abbrev memory : Cache Memory
memory = record {
  get = λ k s. lookup k s.values;
  set = λ k v s. record s { values = insert k v s.values };
  set_ex = λ k v ttl s. record s { values = insert k v s.values };
  mark = λ k s. record s { marks = k ∷ s.marks };
  unmark = λ k s. record s { marks = without k s.marks };
  is_dirty = λ k s. has k s.marks;
  dirty_keys = λ s. s.marks;
}

has-without :
    (k j : Text) (xs : List Text) → has j (without k xs) ≡ (if text_eq k j then false else has j xs)
unfolding has without
has-without k j [] = ground arith
has-without k j (x ∷ xs) =
    ground (arith, has-without k j xs, text_eq_iff k x, text_eq_iff k j, text_eq_iff x j)

has-cons : (k j : Text) (xs : List Text) → has j (k ∷ xs) ≡ (text_eq k j || has j xs)
unfolding has
has-cons k j xs = refl

has-In : (j : Text) (xs : List Text) → has j xs ≡ true → In j xs
unfolding has
has-In j [] h = absurd (cc h)
has-In j (x ∷ xs) h = elim (Bool-cases (text_eq x j)) [
  | inl e ↦ inl ((text_eq_iff x j).0 e)
  | inr e ↦ inr (has-In j xs (ground (arith, e, h)))
]

memory-IsCache : IsCache memory
memory-IsCache = record {
  get_set = λ k j v s. lookup-insert k j v s.values;
  get_mark = λ k j s. refl;
  get_unmark = λ k j s. refl;
  dirty_set = λ k j v s. refl;
  dirty_mark = λ k j s. has-cons k j s.marks;
  dirty_unmark = λ k j s. has-without k j s.marks;
  dirty_members = λ j s h. has-In j s.marks h;
}

-- The backend answers a PUT with the text it was sent.
abbrev echo : Text → Text → Option Text
echo product_id v = some v

abbrev down : Text → Text → Option Text
down product_id v = none

abbrev nothing : Memory
nothing = record { values = []; marks = [] }

abbrev written : Memory
written = record { values = (codes "product:3", codes "new") ∷ []; marks = codes "product:3" ∷ [] }

written_flushed : (flush_dirty memory echo written).finished ≡ true
unfolding flush_dirty flush_keys after_colon lookup text_eq
written_flushed = refl

async_flushed :
    (flush_dirty memory echo
      (update_product_async memory (codes "3") (codes "new") nothing)).finished
    ≡ true
unfolding flush_dirty flush_keys after_colon lookup text_eq update_product_async insert
async_flushed = refl

-- The backend is down: the flush breaks off and the write stays.
flush_dirty-IsKept_example :
    IsKept memory (codes "product:3") (codes "3") (codes "new") (flush_dirty memory down written)
unfolding has text_eq lookup after_colon
flush_dirty-IsKept_example =
    flush_dirty-IsKept memory memory-IsCache down written (codes "product:3") (codes "3")
      (codes "new") refl refl refl

async_write-flush_dirty_example :
    In
      (codes "3", codes "new")
      (flush_dirty memory echo (update_product_async memory (codes "3") (codes "new") nothing)).puts
async_write-flush_dirty_example =
    async_write-flush_dirty memory memory-IsCache echo (codes "3") (codes "new") nothing
      async_flushed

abbrev backend : Text → Option Text
backend product_id = some (codes "old")

abbrev offline : Text → Option Text
offline product_id = none

first_read : (get_product memory backend (codes "3") nothing).0 ≡ some (codes "old")
unfolding get_product lookup
first_read = refl
