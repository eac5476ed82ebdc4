-- ===== src/Gateway/Settle.antt =====
-- Settling a batch in `poll_once` of gateway.py, key by key.
use system_design_course.Common.{
  leb, if◌then◌else◌, Text, text_eq, text_eq_iff, lookup, lookup-erase, UniqueKeys,
  erase-UniqueKeys, ◌≡◌, refl, Bool, true, false, Option, none, some, List, [], ◌∷◌, arith,
}
use system_design_course.Gateway.Queue.{Settings, Message, Queue, delete, fail}
use system_design_course.Gateway.Pool.{contains}
use system_design_course.Gateway.Receive.{IsKeyed, erase-IsKeyed}
use system_design_course.Gateway.Poller.{settle_message, settle_batch}

-- What `poll_once` makes of a message that it handed to the processor: deleted if it succeeded,
-- dead-lettered if it failed and was received too often, else left in the queue.
unfoldable pub settled : Settings → Bool → Option Message → Option Message
settled cfg has_failed none = none
settled cfg false (some m) = none
settled cfg true (some m) = if leb cfg.max_receive_count m.receive_count then none else some m

module _ (cfg : Settings) (failed : List Text) where
  lookup-settle_message :
      (id k : Text) (q : Queue)
      → lookup k (settle_message cfg failed id q).messages ≡ (
          if text_eq id k
          then settled cfg (contains k failed) (lookup k q.messages)
          else lookup k q.messages)
  unfolding settle_message fail delete settled
  lookup-settle_message id k q = ground (arith, lookup-erase id k q.messages, text_eq_iff id k)

  settled_idem : (b : Bool) (o : Option Message) → settled cfg b (settled cfg b o) ≡ settled cfg b o
  unfolding settled
  settled_idem b o = ground arith

  -- Settling a batch is a function of each key: the ids of the batch are settled by whether they
  -- failed, and every other message stays as it is.
  pub lookup-settle_batch :
      (ids : List Text) (k : Text) (q : Queue)
      → lookup k (settle_batch cfg failed ids q).messages ≡ (
          if contains k ids
          then settled cfg (contains k failed) (lookup k q.messages)
          else lookup k q.messages)
  unfolding settle_batch contains
  lookup-settle_batch [] k q = refl
  lookup-settle_batch (id ∷ ids) k q = ground (
    arith,
    lookup-settle_batch ids k (settle_message cfg failed id q),
    lookup-settle_message id k q,
    settled_idem (contains k failed) (lookup k q.messages),
    text_eq_iff id k,
    text_eq_iff k id,
  )

-- A queue as `send` builds it: no id twice, and each message under its own id.
pub record IsWellFormed (q : Queue) : Type 0 where
  pub unique : UniqueKeys q.messages
  pub keyed : IsKeyed q.messages

pub delete-IsWellFormed : (id : Text) (q : Queue) → IsWellFormed q → IsWellFormed (delete id q)
unfolding delete
delete-IsWellFormed id q h =
    ground (arith, erase-UniqueKeys id q.messages h.unique, erase-IsKeyed id q.messages h.keyed)

pub fail-IsWellFormed :
    (cfg : Settings) (id : Text) (q : Queue) → IsWellFormed q → IsWellFormed (fail cfg id q).1
unfolding fail
fail-IsWellFormed cfg id q h =
    ground (arith, erase-UniqueKeys id q.messages h.unique, erase-IsKeyed id q.messages h.keyed)

settle_message-IsWellFormed :
    (cfg : Settings) (failed : List Text) (id : Text) (q : Queue)
    → IsWellFormed q
    → IsWellFormed (settle_message cfg failed id q)
unfolding settle_message
settle_message-IsWellFormed cfg failed id q h =
    ground (arith, delete-IsWellFormed id q h, fail-IsWellFormed cfg id q h)

pub settle_batch-IsWellFormed :
    (cfg : Settings) (failed ids : List Text) (q : Queue)
    → IsWellFormed q
    → IsWellFormed (settle_batch cfg failed ids q)
unfolding settle_batch
settle_batch-IsWellFormed cfg failed [] q h = h
settle_batch-IsWellFormed cfg failed (id ∷ ids) q h =
    settle_batch-IsWellFormed cfg failed ids (settle_message cfg failed id q)
      (settle_message-IsWellFormed cfg failed id q h)

-- Settling brings no message into the queue and changes none.
pub settle_batch_origin :
    (cfg : Settings) (failed ids : List Text) (k : Text) (m : Message) (q : Queue)
    → lookup k (settle_batch cfg failed ids q).messages ≡ some m
    → lookup k q.messages ≡ some m
unfolding settled
settle_batch_origin cfg failed ids k m q h = ground (arith, lookup-settle_batch cfg failed ids k q)
