-- ===== src/Gateway/Tests.antt =====
-- Runs of the model of gateway.py at concrete inputs, and each theorem at an input that meets its
-- hypotheses.
use system_design_course.Common.{
  if◌then◌else◌, length, In, Text, codes, text_eq, starts_with, lookup, insert, ◌≡◌, refl, ◌≢◌, ◌⊎◌,
  inl, Bool, true, false, none, some, List, [], ◌∷◌, arith,
}
use system_design_course.Common.Json.{get_field, str, arr, obj, nil, cons, end, field}
use system_design_course.Gateway.Queue.{
  Settings, Message, Queue, empty_queue, new_message, send, take_message, receive, fail, string,
  dumped,
}
use system_design_course.Gateway.Pool.{
  Pool, empty_pool, contains, addresses, acquire_turn, acquire, release, name,
}
use system_design_course.Gateway.Invoke.{
  Codec, Invocation, World, is_function_error, outcome_of, run_on, invoke, answered,
}
use system_design_course.Gateway.Poller.{
  sqs_record, records_of, ids_of, settle_batch, poll_once, polled, raises,
}
use system_design_course.Gateway.Settle.{settled, lookup-settle_batch, IsWellFormed}
use system_design_course.Gateway.Retries.{no_early_redelivery}
use system_design_course.Gateway.Bound.{IsRetriable, CountsNothing, poll_once-IsRetriable}
use system_design_course.Gateway.Conservation.{
  Op, run_ops, total, AllNew, run_ops_accounts, sent, received, removed, failed,
}
use system_design_course.Gateway.Exclusion.{
  Promise, acquire_turn-Promise, Running, PoolStep, PoolReach, IsExclusive, PoolReach-IsExclusive,
}
use system_design_course.Gateway.Outcomes.{invoke_success}

abbrev lab : Settings
lab = record { batch_size = 10; visibility_timeout = 12; max_receive_count = 3 }

abbrev first : Message
first = new_message 5 (codes "m1") (string (codes "pay"))

abbrev second : Message
second = new_message 6 (codes "m2") (dumped (codes "[]"))

abbrev two : Queue
two = record {
  messages = (codes "m1", first) ∷ (codes "m2", second) ∷ [];
  dead_letters = [];
  deleted = 0;
}

two_sent :
    (send 5 ((codes "m1", string (codes "pay")) ∷ []) empty_queue).1.messages
    ≡ (codes "m1", first) ∷ []
unfolding send insert
two_sent = refl

-- Both are received once, and hidden until time 21.
two_received : ids_of (receive lab 9 100 10 two).0 ≡ codes "m1" ∷ codes "m2" ∷ []
unfolding receive take_message
two_received = refl

abbrev codec : Codec
codec = record {
  loads = λ _. some (
      obj (
        field (codes "batchItemFailures")
          (arr (cons (obj (field (codes "itemIdentifier") (str (codes "m2")) end)) nil)) end));
  dumps = λ _. [];
  base64 = λ t. t;
  md5 = λ t. some t;
}

abbrev one_container : World
one_container = record {
  dns = some (codes "10.0.0.2" ∷ [], 1);
  wakes = [];
  resolved = λ _. none;
  exchange = λ _ _. answered 200 (codes "{}");
  others = λ p. p;
  duration = 4;
}

abbrev nothing : Queue → Queue
nothing q = q

-- The processor reports `m2` as failed: `m1` is deleted, `m2` stays.
one_turn : Queue × Pool
one_turn = elim (poll_once lab codec one_container nothing 9 100 two empty_pool) [
  | none ↦ (two, empty_pool)
  | some (polled more q p) ↦ (q, p)
  | some (raises q p) ↦ (q, p)
]

one_turn_lem :
    poll_once lab codec one_container nothing 9 100 two empty_pool
    ≡ some (polled true one_turn.0 one_turn.1)
unfolding one_turn poll_once records_of sqs_record receive invoke acquire run_on release name
one_turn_lem = refl

two-IsWellFormed : IsWellFormed two
unfolding lookup text_eq
two-IsWellFormed = record { unique = (refl, (refl, tt)); keyed = (refl, (refl, tt)) }

two-IsRetriable : IsRetriable lab two
unfolding lookup
two-IsRetriable k m h = ground arith

nothing-CountsNothing : CountsNothing lab nothing
nothing-CountsNothing q k m h = inl h

abbrev earlier : Message
earlier = take_message lab 9 100 first

abbrev later : Message
later = take_message lab 20 200 second

first_batch : In earlier (receive lab 9 100 1 two).0
unfolding receive
first_batch = inl refl

second_batch :
    In later
      (receive lab 20 200 1
        (settle_batch lab (codes "m1" ∷ []) (codes "m1" ∷ []) (receive lab 9 100 1 two).1)).0
unfolding receive settle_batch fail lookup text_eq contains take_message
second_batch = inl refl

-- The failed `m1` stays hidden at time 20, so the second batch is `m2`.
no_early_redelivery_example : earlier.message_id ≢ later.message_id
no_early_redelivery_example =
    no_early_redelivery lab 9 100 20 200 1 (codes "m1" ∷ []) (codes "m1" ∷ []) two earlier later
      two-IsWellFormed (omega arith) first_batch second_batch

poll_once-IsRetriable_example :
    (poll_once lab codec one_container nothing 9 100 two empty_pool ≡ none)
    ⊎ ((more : Bool) × (q' : Queue) × (p' : Pool) × (poll_once lab codec one_container nothing 9 100
            two empty_pool
          ≡ some (polled more q' p'))
        × IsRetriable lab q')
    ⊎ ((m : Message) × In m (receive lab 9 100 10 two).0
        × (codec.md5 m.body ≡ none)
        × (poll_once lab codec one_container nothing 9 100 two empty_pool
            ≡ some (raises (receive lab 9 100 10 two).1 empty_pool)))
poll_once-IsRetriable_example =
    poll_once-IsRetriable lab codec one_container nothing 9 100 two empty_pool two-IsWellFormed
      two-IsRetriable nothing-CountsNothing

lookup-settle_batch_example :
    lookup
      (codes "m2")
      (settle_batch lab (codes "m2" ∷ []) (codes "m1" ∷ codes "m2" ∷ []) two).messages
    ≡ (if contains (codes "m2") (codes "m1" ∷ codes "m2" ∷ [])
        then settled lab
            (contains (codes "m2") (codes "m2" ∷ []))
            (lookup (codes "m2") two.messages)
        else lookup (codes "m2") two.messages)
lookup-settle_batch_example =
    lookup-settle_batch lab (codes "m2" ∷ []) (codes "m1" ∷ codes "m2" ∷ []) (codes "m2") two

abbrev script : List Op
script =
    sent 1 ((codes "m3", string (codes "a")) ∷ (codes "m4", string (codes "b")) ∷ [])
    ∷ received 9 100 3
    ∷ removed (codes "m3")
    ∷ failed (codes "m1")
    ∷ []

script-AllNew : AllNew lab script two
unfolding send lookup insert text_eq
script-AllNew = ((refl, (refl, tt)), tt)

run_ops_accounts_example : total (run_ops lab script two) ≡ 4
run_ops_accounts_example = run_ops_accounts lab script two two-IsWellFormed script-AllNew

acquire_turn-Promise_example :
    let found = (addresses one_container.dns empty_pool).0 in
    Promise found [] (acquire_turn one_container.dns empty_pool) × (length found ≡ 1)
acquire_turn-Promise_example = acquire_turn-Promise one_container.dns empty_pool

abbrev at_start : Running
at_start = record { pool = empty_pool; holders = [] }

abbrev address : Text
address = codes "10.0.0.2"

taken_pool : Pool
taken_pool = (acquire_turn one_container.dns empty_pool).1

one_request : PoolReach (record { pool = taken_pool; holders = address ∷ [] })
unfolding acquire_turn taken_pool
one_request =
    PoolReach.step PoolReach.created
      (PoolStep.starts one_container.dns address 1 taken_pool at_start refl)

PoolReach-IsExclusive_example : IsExclusive (record { pool = taken_pool; holders = address ∷ [] })
PoolReach-IsExclusive_example = PoolReach-IsExclusive one_request

ran : Invocation × Pool
ran = run_on codec one_container (codes "lab15-work") [] address taken_pool

ran_lem : invoke codec one_container (codes "lab15-work") [] false empty_pool ≡ some (ran.0, ran.1)
unfolding ran invoke acquire taken_pool
ran_lem = refl

ran_no_error : ran.0.error ≡ []
unfolding ran run_on outcome_of is_function_error get_field starts_with text_eq
ran_no_error = refl

invoke_success_example :
    (a : Text) × (one_container.exchange a [] ≡ answered 200 ran.0.payload)
    × (is_function_error codec ran.0.payload ≡ false)
invoke_success_example =
    invoke_success codec one_container (codes "lab15-work") [] false empty_pool ran.1 ran.0 ran_lem
      ran_no_error
