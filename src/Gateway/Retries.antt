-- ===== src/Gateway/Retries.antt =====
-- The guarantees of the queue in gateway.py around `receive` and `poll_once`: batches and their
-- limit, invisibility until the timeout, and the bound on the number of receives.
use mathlib.Core.Option.{some-injective}
use system_design_course.Common.{
  length, In, All-In, Text, ℕ, ◌+◌, ◌<◌, min, ◌≡◌, ap, ◌≢◌, List, arith,
}
use system_design_course.Gateway.Queue.{
  Settings, Message, Queue, receive_loop, receive, count_visible,
}
use system_design_course.Gateway.Poller.{settle_batch}
use system_design_course.Gateway.Receive.{
  length-receive_loop, receive_loop-hides, receive_loop-UniqueKeys, receive_loop-IsKeyed,
  length-receive_loop_messages, loop_source, loop_stored,
}
use system_design_course.Gateway.Settle.{
  IsWellFormed, settle_batch-IsWellFormed, settle_batch_origin,
}

-- `receive` takes as many visible messages as the limit allows, and keeps the queue well formed
-- and of the same length.
pub receive_batch :
    (cfg : Settings) (now now_ms limit : ℕ) (q : Queue)
    → IsWellFormed q
    → let (batch, q') = receive cfg now now_ms limit q in
      (length batch ≡ min limit (count_visible now q.messages))
      × (length q'.messages ≡ length q.messages)
      × IsWellFormed q'
unfolding receive
receive_batch cfg now now_ms limit q h = (
  omega (arith, length-receive_loop cfg now now_ms limit 0 q.messages),
  length-receive_loop_messages cfg now now_ms limit 0 q.messages,
  record {
    unique = receive_loop-UniqueKeys cfg now now_ms limit 0 q.messages h.unique;
    keyed = receive_loop-IsKeyed cfg now now_ms limit 0 q.messages h.keyed;
  },
)

-- Whatever is settled in between, a message that was received is not received again before the
-- visibility timeout has passed.
pub no_early_redelivery :
    (cfg : Settings) (now now_ms later later_ms limit : ℕ) (failed ids : List Text) (q : Queue)
    (m m' : Message)
    → IsWellFormed q
    → later < now + cfg.visibility_timeout
    → In m (receive cfg now now_ms limit q).0
    → In m'
        (receive cfg later later_ms limit
          (settle_batch cfg failed ids (receive cfg now now_ms limit q).1)).0
    → m.message_id ≢ m'.message_id
unfolding receive
no_early_redelivery cfg now now_ms later later_ms limit failed ids q m m' h early inside inside'
      same =
    let first = receive_loop cfg now now_ms limit 0 q.messages in
    let q' = record q { messages = first.1 } in
    let good : IsWellFormed q' = (receive_batch cfg now now_ms limit q h).2 in
    let good' = settle_batch-IsWellFormed cfg failed ids q' good in
    let between = (settle_batch cfg failed ids q').messages in
    let (x, found, visible, _) =
      loop_source cfg later later_ms limit m' 0 between good'.unique good'.keyed inside' in
    let here = settle_batch_origin cfg failed ids m'.message_id x q' found in
    let stored = loop_stored cfg now now_ms limit m 0 q.messages h.unique h.keyed inside in
    let hidden =
      All-In (λ (y : Message). y.visible_at ≡ now + cfg.visibility_timeout) m first.0
        (receive_loop-hides cfg now now_ms limit 0 q.messages) inside in
    let x_is_m : x ≡ m = some-injective x m (cc (here, stored, same)) in
    absurd (omega (arith, ap (λ (y : Message). y.visible_at) x_is_m))
