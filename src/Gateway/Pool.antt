-- ===== src/Gateway/Pool.antt =====
-- gateway.py, `class EnvironmentPool`: which execution environments (containers) are busy. The DNS
-- answers and the monotonic time of each look-up come from outside.
use system_design_course.Common.{
  leb, ◌==◌, if◌then◌else◌, length, Text, text_eq, Dict, lookup, has_key, insert, ℕ, Bool, true,
  false, ◌||◌, Option, none, some, List, [], ◌∷◌,
}

-- `busy` is the set of reserved addresses, `order` the time at which each address was first seen.
pub record Pool : Type 0 where
  pub busy : List Text
  pub order : Dict ℕ
  pub names : Dict Text

abbrev pub empty_pool : Pool
empty_pool = record { busy = []; order = []; names = [] }

unfoldable pub contains : Text → List Text → Bool
contains a [] = false
contains a (b ∷ bs) = text_eq a b || contains a bs

-- One DNS look-up: `none` is `socket.gaierror`; else the set of addresses, in the order in which it
-- is iterated, and the time.
abbrev pub Lookup : Type 0
Lookup = Option (List Text × ℕ)

-- `self._order.setdefault(address, time.monotonic())` for each address
unfoldable pub see : ℕ → List Text → Dict ℕ → Dict ℕ
see now [] order = order
see now (a ∷ as') order = see now as' (if has_key a order then order else insert a now order)

abbrev pub seen_at : Dict ℕ → Text → ℕ
seen_at order a = elim (lookup a order) [ none ↦ 0 | some t ↦ t ]

-- `sorted(addresses, key=self._order.get)`, which is stable.
unfoldable pub place : Dict ℕ → Text → List Text → List Text
place order a [] = a ∷ []
place order a (b ∷ bs) =
    let rest = place order a bs in
    if leb (seen_at order a) (seen_at order b) then a ∷ b ∷ bs else b ∷ rest

unfoldable pub sort_addresses : Dict ℕ → List Text → List Text
unfolding place
sort_addresses order [] = []
sort_addresses order (a ∷ as') = place order a (sort_addresses order as')

unfoldable pub addresses : Lookup → Pool → List Text × Pool
unfolding see sort_addresses
addresses none p = ([], p)
addresses (some (found, now)) p =
    let order = see now found p.order in (sort_addresses order found, record p { order = order })

-- The first address that is not busy.
unfoldable pub first_idle : List Text → List Text → Option Text
unfolding contains
first_idle busy [] = none
first_idle busy (a ∷ as') = if contains a busy then first_idle busy as' else some a

-- What one turn of the loop in `acquire` decides; `busy_all` goes on to wait or to throttle.
pub data Turn : Type 0 where
  no_environment : Turn
  granted : Text → ℕ → Turn
  busy_all : ℕ → Turn

unfoldable pub choose : List Text → Pool → Turn × Pool
unfolding first_idle
choose [] p = (no_environment, p)
choose (a ∷ rest) p = elim (first_idle p.busy (a ∷ rest)) [
  | none ↦ (busy_all (length (a ∷ rest)), p)
  | some free ↦ (granted free (length (a ∷ rest)), record p { busy = free ∷ p.busy })
]

unfoldable pub acquire_turn : Lookup → Pool → Turn × Pool
unfolding addresses choose
acquire_turn answer p = let (found, p') = addresses answer p in choose found p'

-- A wait ends by `notify_all` or after half a second. What other threads did to the pool meanwhile,
-- and the next DNS answer, are one element of `wakes`; the list ends where the wait goes on.
unfoldable pub acquire_waiting : Lookup → List ((Pool → Pool) × Lookup) → Pool → Turn × Pool
unfolding acquire_turn
acquire_waiting answer [] p = acquire_turn answer p
acquire_waiting answer ((others, next_answer) ∷ wakes) p =
    let (turn, p') = acquire_turn answer p in
    let later = acquire_waiting next_answer wakes (others p') in
    elim turn [
      | no_environment ↦ (no_environment, p')
      | granted a n ↦ (granted a n, p')
      | busy_all n ↦ later
    ]

-- Without `wait` the first turn decides.
unfoldable pub acquire : Bool → Lookup → List ((Pool → Pool) × Lookup) → Pool → Turn × Pool
unfolding acquire_turn acquire_waiting
acquire true answer wakes p = acquire_waiting answer wakes p
acquire false answer wakes p = acquire_turn answer p

-- `self._busy.discard(address)`
unfoldable pub discard : Text → List Text → List Text
discard a [] = []
discard a (b ∷ bs) = let rest = discard a bs in if text_eq a b then rest else b ∷ rest

unfoldable pub release : Text → Pool → Pool
unfolding discard
release a p = record p { busy = discard a p.busy }

-- The text before the first dot: `host.split(".")[0]`.
unfoldable pub before_dot : Text → Text
before_dot [] = []
before_dot (c ∷ cs) = if c == b'.' then [] else c ∷ before_dot cs

-- `resolved` is the host of `gethostbyaddr`, or `none` for an OSError.
unfoldable pub name : (Text → Option Text) → Text → Pool → Text × Pool
unfolding before_dot
name resolved a p = elim (lookup a p.names) [
  | some known ↦ (known, p)
  | none ↦
      let fresh : Text = elim (resolved a) [ none ↦ a | some host ↦ before_dot host ] in
      (fresh, record p { names = insert a fresh p.names })
]
