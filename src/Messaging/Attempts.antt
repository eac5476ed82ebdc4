-- ===== src/Messaging/Attempts.antt =====
-- The connection attempts of broker.py and the messages that producer.py publishes.
use system_design_course.Common.{
  if◌then◌else◌, length, ℕ, zero, suc, ◌+◌, ◌≤◌, min, ◌≡◌, refl, ◌⊎◌, inr, Option, none, some, List,
  [], ◌∷◌, arith,
}
use system_design_course.Messaging.Broker.{connect_loop, connect, connected, gives_up}
use system_design_course.Messaging.Producer.{Order, make_order, orders_from, published}

-- Failed attempts, and then what the list goes on with.
unfoldable pub failing : {C : Type 0} → ℕ → List (Option C) → List (Option C)
failing zero later = later
failing (suc n) later = none ∷ failing n later

connect_loop-connected :
    {C : Type 0} (retries attempt failures : ℕ) (c : C) (later : List (Option C))
    → (failures ≡ 0) ⊎ (attempt + failures ≤ retries)
    → connect_loop retries attempt (failing failures (some c ∷ later)) ≡ connected c
unfolding connect_loop failing
connect_loop-connected retries attempt zero c later few = refl
connect_loop-connected retries attempt (suc n) c later few =
    ground (
      arith,
      few,
      connect_loop-connected retries (attempt + 1) n c later (inr (ground (arith, few))),
    )

connect_loop-gives_up :
    {C : Type 0} (left retries attempt : ℕ) (later : List (Option C))
    → attempt + left ≡ retries
    → connect_loop retries attempt (failing (suc left) later) ≡ gives_up
unfolding connect_loop failing
connect_loop-gives_up zero retries attempt later sum = ground (arith, sum)
connect_loop-gives_up (suc left) retries attempt later sum =
    ground (arith, sum, connect_loop-gives_up left retries (attempt + 1) later (omega arith))

-- The connection is opened when the broker accepts it within the first `retries` attempts, and the
-- error of the last of `retries` attempts, at least one, is raised when all of them fail.
connect_outcomes :
    {C : Type 0} (more failures : ℕ) (c : C) (later : List (Option C))
    → failures ≤ more
    → (connect (suc more) (failing failures (some c ∷ later)) ≡ connected c)
      × (connect (suc more) (failing (suc more) later) ≡ gives_up)
unfolding connect
connect_outcomes more failures c later few = (
  connect_loop-connected (suc more) 1 failures c later (inr (omega arith)),
  connect_loop-gives_up more (suc more) 1 later (omega arith),
)

-- How many of the orders are poison.
unfoldable pub poison_count : List Order → ℕ
poison_count [] = 0
poison_count (o ∷ os) = let rest = poison_count os in if o.poison then rest + 1 else rest

orders_from-poison_count :
    (start poison index rounds : ℕ)
    → poison_count (orders_from start poison index rounds) + min index poison
      ≡ min (index + rounds) poison
unfolding orders_from poison_count make_order
orders_from-poison_count start poison index zero = omega arith
orders_from-poison_count start poison index (suc rounds) =
    ground (arith, orders_from-poison_count start poison (index + 1) rounds)

length-orders_from :
    (start poison index rounds : ℕ) → length (orders_from start poison index rounds) ≡ rounds
unfolding orders_from
length-orders_from start poison index zero = refl
length-orders_from start poison index (suc rounds) =
    ground (arith, length-orders_from start poison (index + 1) rounds)

-- A run of the producer publishes as many orders as `--count` says, of which `--poison` are poison,
-- or all of them where fewer are published.
published-poison_count :
    (start count poison : ℕ)
    → (length (published start count poison) ≡ count)
      × (poison_count (published start count poison) ≡ min count poison)
unfolding published
published-poison_count start count poison = (
  length-orders_from start poison 0 count,
  ground (arith, orders_from-poison_count start poison 0 count),
)
