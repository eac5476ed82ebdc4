-- ===== src/Gateway/Exclusion.antt =====
-- The environment pool of gateway.py: an environment runs one request at a time, and a request is
-- throttled only when every running environment is busy.
use mathlib.Core.Path.{subst}
use system_design_course.Common.{
  Option-cases, length, In, All, Text, Dict, ℕ, ◌+◌, ◌≡◌, refl, ap, ◌∙◌, inl, inr, true, false,
  Option, none, some, List, [], ◌∷◌, arith,
}
use system_design_course.Gateway.Pool.{
  Pool, empty_pool, contains, Lookup, see, place, sort_addresses, addresses, first_idle, Turn,
  choose, acquire_turn, discard, release, name, no_environment, granted, busy_all,
}

first_idle_free :
    (busy found : List Text) (a : Text)
    → first_idle busy found ≡ some a
    → (contains a busy ≡ false) × In a found
unfolding first_idle
first_idle_free busy [] a h = cc
first_idle_free busy (x ∷ found) a h = ground (arith, first_idle_free busy found a)

first_idle-none :
    (busy found : List Text)
    → first_idle busy found ≡ none
    → All (λ a. contains a busy ≡ true) found
unfolding first_idle
first_idle-none busy [] h = tt
first_idle-none busy (x ∷ found) h = ground (arith, first_idle-none busy found)

length-place :
    (order : Dict ℕ) (a : Text) (bs : List Text) → length (place order a bs) ≡ length bs + 1
unfolding place
length-place order a [] = omega arith
length-place order a (b ∷ bs) = ground (arith, length-place order a bs)

-- `sorted` returns as many addresses as DNS gave.
length-sort_addresses :
    (order : Dict ℕ) (found : List Text) → length (sort_addresses order found) ≡ length found
unfolding sort_addresses
length-sort_addresses order [] = refl
length-sort_addresses order (a ∷ found) =
    omega
      (arith, length-place order a (sort_addresses order found), length-sort_addresses order found)

-- What a turn of `acquire` promises by its result, for the addresses it looked at and the addresses
-- that were busy before.
abbrev pub Promise : List Text → List Text → Turn × Pool → Type 0
Promise found busy (no_environment, p') = (found ≡ []) × (p'.busy ≡ busy)
Promise found busy (granted a n, p') =
    (contains a busy ≡ false) × In a found × (n ≡ length found) × (p'.busy ≡ a ∷ busy)
Promise found busy (busy_all n, p') =
    All (λ a. contains a busy ≡ true) found × (n ≡ length found) × (p'.busy ≡ busy)

-- The number of running environments by the answer of DNS.
abbrev pub running : Lookup → ℕ
running none = 0
running (some (found, now)) = length found

length-addresses : (answer : Lookup) (p : Pool) → length (addresses answer p).0 ≡ running answer
unfolding addresses
length-addresses none p = refl
length-addresses (some (found, now)) p = length-sort_addresses (see now found p.order) found

busy-addresses : (answer : Lookup) (p : Pool) → (addresses answer p).1.busy ≡ p.busy
unfolding addresses
busy-addresses none p = refl
busy-addresses (some (found, now)) p = refl

choose-Promise : (found : List Text) (p : Pool) → Promise found p.busy (choose found p)
unfolding choose
choose-Promise [] p = (refl, refl)
choose-Promise (a ∷ rest) p = elim (Option-cases (first_idle p.busy (a ∷ rest))) [
  | inl all_busy ↦ rw (all_busy, choose) (first_idle-none p.busy (a ∷ rest) all_busy, refl, refl)
  | inr (free, e) ↦
      let (idle, inside) = first_idle_free p.busy (a ∷ rest) free e in
      rw (e, choose) (idle, inside, refl, refl)
]

-- One turn of `acquire` looks at as many addresses as DNS reports. It reserves one that was idle,
-- or reports that there is none at all, or that every one is busy and how many there are; the busy
-- set gains just the reserved address.
pub acquire_turn-Promise :
    (answer : Lookup) (p : Pool)
    → let found = (addresses answer p).0 in
      Promise found p.busy (acquire_turn answer p) × (length found ≡ running answer)
unfolding acquire_turn
acquire_turn-Promise answer p =
    let (found, p') = addresses answer p in
    (
      subst (λ (busy : List Text). Promise found busy (choose found p')) (busy-addresses answer p)
          (choose-Promise found p'),
      length-addresses answer p,
    )

-- The requests that run, by the address that each has reserved.
pub record Running : Type 0 where
  pub pool : Pool
  pub holders : List Text

-- The locked sections of the request threads: a turn of `acquire` that reserves an address or does
-- not, the naming of an address, and the release of one that a request holds.
pub data PoolStep : Running → Running → Type 0 where
  starts :
      (answer : Lookup) (a : Text) (n : ℕ) (p : Pool) (s : Running)
      → acquire_turn answer s.pool ≡ (granted a n, p)
      → PoolStep s (record { pool = p; holders = a ∷ s.holders })
  finds_none :
      (answer : Lookup) (p : Pool) (s : Running)
      → acquire_turn answer s.pool ≡ (no_environment, p)
      → PoolStep s (record s { pool = p })
  finds_busy :
      (answer : Lookup) (n : ℕ) (p : Pool) (s : Running)
      → acquire_turn answer s.pool ≡ (busy_all n, p)
      → PoolStep s (record s { pool = p })
  names_it :
      (resolved : Text → Option Text) (a : Text) (s : Running)
      → PoolStep s (record s { pool = (name resolved a s.pool).1 })
  ends :
      (a : Text) (s : Running)
      → PoolStep s (record { pool = release a s.pool; holders = discard a s.holders })

pub data PoolReach : Running → Type 0 where
  created : PoolReach (record { pool = empty_pool; holders = [] })
  step : {s t : Running} → PoolReach s → PoolStep s t → PoolReach t

abbrev pub Distinct : List Text → Type 0
Distinct [] = Unit
Distinct (a ∷ xs) = (contains a xs ≡ false) × Distinct xs

contains-discard :
    (a b : Text) (xs : List Text) → contains b xs ≡ false → contains b (discard a xs) ≡ false
unfolding contains discard
contains-discard a b [] h = refl
contains-discard a b (x ∷ xs) h = ground (arith, contains-discard a b xs)

discard-Distinct : (a : Text) (xs : List Text) → Distinct xs → Distinct (discard a xs)
unfolding discard
discard-Distinct a [] h = tt
discard-Distinct a (x ∷ xs) h =
    ground (arith, discard-Distinct a xs h.1, contains-discard a x xs h.0)

-- The busy set is the list of the addresses that requests hold, and no two hold the same.
pub record IsExclusive (s : Running) : Type 0 where
  pub tracked : s.pool.busy ≡ s.holders
  pub distinct : Distinct s.holders

pub busy-name :
    (resolved : Text → Option Text) (a : Text) (p : Pool) → (name resolved a p).1.busy ≡ p.busy
unfolding name
busy-name resolved a p = ground arith

PoolStep-IsExclusive : {s t : Running} → PoolStep s t → IsExclusive s → IsExclusive t
unfolding release
PoolStep-IsExclusive (starts answer a n p s e) h =
    let (idle, inside, count, busy) =
      subst (Promise (addresses answer s.pool).0 s.pool.busy) e
        (acquire_turn-Promise answer s.pool).0 in
    record {
      tracked = busy ∙ ap (λ (xs : List Text). a ∷ xs) h.tracked;
      distinct = (subst (λ (xs : List Text). contains a xs ≡ false) h.tracked idle, h.distinct);
    }
PoolStep-IsExclusive (finds_none answer p s e) h =
    let (empty, busy) =
      subst (Promise (addresses answer s.pool).0 s.pool.busy) e
        (acquire_turn-Promise answer s.pool).0 in
    record { tracked = busy ∙ h.tracked; distinct = h.distinct }
PoolStep-IsExclusive (finds_busy answer n p s e) h =
    let (all_busy, count, busy) =
      subst (Promise (addresses answer s.pool).0 s.pool.busy) e
        (acquire_turn-Promise answer s.pool).0 in
    record { tracked = busy ∙ h.tracked; distinct = h.distinct }
PoolStep-IsExclusive (names_it resolved a s) h = record {
  tracked = busy-name resolved a s.pool ∙ h.tracked;
  distinct = h.distinct;
}
PoolStep-IsExclusive (ends a s) h = record {
  tracked = ap (discard a) h.tracked;
  distinct = discard-Distinct a s.holders h.distinct;
}

-- Whatever the interleaving of the request threads, and whatever DNS answers, no two requests hold
-- the same environment, and an environment is busy exactly while a request holds it.
pub PoolReach-IsExclusive : {s : Running} → PoolReach s → IsExclusive s
PoolReach-IsExclusive created = record { tracked = refl; distinct = tt }
PoolReach-IsExclusive (step reach st) = PoolStep-IsExclusive st (PoolReach-IsExclusive reach)
