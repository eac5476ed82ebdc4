-- ===== src/Gateway/Bound.antt =====
-- The bound on receives in gateway.py: a turn of the poller leaves no message in the queue that was
-- received MAX_RECEIVE_COUNT times, however the processor answers.
use mathlib.Core.Path.{subst}
use system_design_course.Common.{
  Bool-cases, Option-cases, In, Text, codes, text_eq_iff, lookup, ℕ, ◌<◌, ◌≡◌, refl, ap, ◌⊎◌, inl,
  inr, Bool, true, false, Option, none, some, List, [], ◌∷◌, arith,
}
use system_design_course.Common.Json.{Items, arr, obj, end, field}
use system_design_course.Gateway.Queue.{Settings, Message, Queue, receive_loop, receive}
use system_design_course.Gateway.Pool.{Pool, contains}
use system_design_course.Gateway.Invoke.{Codec, World, invoke}
use system_design_course.Gateway.Poller.{
  sqs_record, records_of, ids_of, failed_ids, settle_batch, Polled, process_batch, poll_once,
  polled, raises,
}
use system_design_course.Gateway.Receive.{lookup-IsKeyed, receive_loop-IsKeyed, loop_origin}
use system_design_course.Gateway.Settle.{settled, lookup-settle_batch, IsWellFormed}

-- Every message of the queue can be received once more before it is dead-lettered.
abbrev pub IsRetriable : Settings → Queue → Type 0
IsRetriable cfg q =
    (k : Text) (m : Message)
    → lookup k q.messages ≡ some m
    → m.receive_count < cfg.max_receive_count

-- What other threads do during an invocation: they may take messages away and add messages that
-- were received less often, but not count a receive of one that is there.
abbrev pub CountsNothing : Settings → (Queue → Queue) → Type 0
CountsNothing cfg meanwhile =
    (q : Queue) (k : Text) (m : Message)
    → lookup k (meanwhile q).messages ≡ some m
    → (lookup k q.messages ≡ some m) ⊎ (m.receive_count < cfg.max_receive_count)

contains-ids_of :
    (m : Message) (batch : List Message) → In m batch → contains m.message_id (ids_of batch) ≡ true
unfolding contains
contains-ids_of m [] h = absurd h
contains-ids_of m (x ∷ batch) (inl e) =
    ground (arith, text_eq_iff m.message_id x.message_id, ap (λ (y : Message). y.message_id) e)
contains-ids_of m (x ∷ batch) (inr h) = ground (arith, contains-ids_of m batch h)

-- A message that a settled batch leaves behind was handed out less often than the limit.
settled_bound :
    (cfg : Settings) (b : Bool) (o : Option Message) (m : Message)
    → settled cfg b o ≡ some m
    → m.receive_count < cfg.max_receive_count
unfolding settled
settled_bound cfg b o m h = ground arith

-- After a received batch, only its messages can have reached the limit.
received_bound :
    (cfg : Settings) (now now_ms limit : ℕ) (q : Queue) (k : Text) (m : Message)
    → IsWellFormed q
    → IsRetriable cfg q
    → lookup k (receive cfg now now_ms limit q).1.messages ≡ some m
    → (m.receive_count < cfg.max_receive_count)
      ⊎ (contains k (ids_of (receive cfg now now_ms limit q).0) ≡ true)
unfolding receive
received_bound cfg now now_ms limit q k m h small found =
    elim (loop_origin cfg now now_ms limit k m 0 q.messages found) [
      | inl before ↦ inl (small k m before)
      | inr taken ↦
          let batch = (receive_loop cfg now now_ms limit 0 q.messages).0 in
          let keyed = receive_loop-IsKeyed cfg now now_ms limit 0 q.messages h.keyed in
          let id =
            lookup-IsKeyed k m (receive_loop cfg now now_ms limit 0 q.messages).1 keyed found in
          inr (
            subst (λ (t : Text). contains t (ids_of batch) ≡ true) id
              (contains-ids_of m batch taken))
    ]

settle_batch-IsRetriable :
    (cfg : Settings) (failed ids : List Text) (q : Queue)
    → ((k : Text) (m : Message)
        → lookup k q.messages ≡ some m
        → (m.receive_count < cfg.max_receive_count) ⊎ (contains k ids ≡ true))
    → IsRetriable cfg (settle_batch cfg failed ids q)
settle_batch-IsRetriable cfg failed ids q h k m found = elim (Bool-cases (contains k ids)) [
  | inl inside ↦
      settled_bound cfg (contains k failed) (lookup k q.messages) m
        (rw (lookup-settle_batch cfg failed ids k q, inside) at found)
  | inr outside ↦ elim (h k m (rw (lookup-settle_batch cfg failed ids k q, outside) at found)) [
    | inl small ↦ small
    | inr inside ↦ absurd (cc (inside, outside))
  ]
]

unencodable :
    (codec : Codec) (batch : List Message)
    → records_of codec batch ≡ none
    → (m : Message) × In m batch × (codec.md5 m.body ≡ none)
unfolding records_of sqs_record
unencodable codec [] h = absurd (cc h)
unencodable codec (m ∷ batch) h = elim (Option-cases (codec.md5 m.body)) [
  | inl e ↦ (m, inl refl, e)
  | inr (digest, e) ↦ elim (Option-cases (records_of codec batch)) [
    | inl f ↦ let (x, w, g) = unencodable codec batch f in (x, inr w, g)
    | inr (rs, f) ↦ absurd (ground (arith, h, e, f))
  ]
]

-- How a turn with a batch can end: it waits, it settled the batch, or a body does not encode.
EndsWell : Settings → Codec → List Message → Queue → Pool → Option Polled → Type 0
EndsWell cfg codec batch q p result =
    (result ≡ none)
    ⊎ ((more : Bool) × (q' : Queue) × (p' : Pool) × (result ≡ some (polled more q' p'))
        × IsRetriable cfg q')
    ⊎ ((m : Message) × In m batch × (codec.md5 m.body ≡ none) × (result ≡ some (raises q p)))

process_batch-EndsWell :
    (cfg : Settings) (codec : Codec) (w : World) (meanwhile : Queue → Queue) (batch : List Message)
    (q : Queue) (p : Pool)
    → CountsNothing cfg meanwhile
    → ((k : Text) (m : Message)
        → lookup k q.messages ≡ some m
        → (m.receive_count < cfg.max_receive_count) ⊎ (contains k (ids_of batch) ≡ true))
    → EndsWell cfg codec batch q p (process_batch cfg codec w meanwhile batch q p)
unfolding process_batch contains EndsWell
process_batch-EndsWell cfg codec w meanwhile [] q p keeps h = inr (
    inl (
      false,
      q,
      p,
      refl,
      (λ k m found. elim (h k m found) [ inl small ↦ small | inr inside ↦ absurd (cc inside) ]),
    ))
process_batch-EndsWell cfg codec w meanwhile (m ∷ ms) q p keeps h =
    elim (Option-cases (records_of codec (m ∷ ms))) [
      | inl e ↦
          let (x, inside, f) = unencodable codec (m ∷ ms) e in
          inr (inr (x, inside, f, ground (arith, e)))
      | inr (rs, e) ↦
          elim (Option-cases (invoke codec w (codes "lab15-processor") (payload rs) true p)) [
            | inl waiting ↦ inl (ground (arith, e, waiting))
            | inr ((result, r), done) ↦ inr (
                inl (
                  true,
                  settle_batch cfg (failed_ids codec result ids) ids (meanwhile q),
                  r,
                  ground (arith, e, done),
                  settle_batch-IsRetriable cfg (failed_ids codec result ids) ids (meanwhile q)
                      (λ k x found. elim (keeps q k x found) [
                        | inl old ↦ h k x old
                        | inr small ↦ inl small
                      ]),
                ))
          ]
    ]
  where
    ids : List Text
    ids = ids_of (m ∷ ms)

    payload : Items → Text
    payload rs = codec.dumps (obj (field (codes "Records") (arr rs) end))

-- If every message of the queue was received less often than the limit, a turn of the poller either
-- still waits for an environment, or ends with a queue of which that is true again, whatever the
-- processor answers and even if it never runs: a message that reaches the limit has left the queue. Or
-- the batch has a body that does not encode: then the turn raises, and the queue is as the batch was
-- taken from it, unsettled. Other threads may send, delete and purge meanwhile.
pub poll_once-IsRetriable :
    (cfg : Settings) (codec : Codec) (w : World) (meanwhile : Queue → Queue) (now now_ms : ℕ)
    (q : Queue) (p : Pool)
    → IsWellFormed q
    → IsRetriable cfg q
    → CountsNothing cfg meanwhile
    → (poll_once cfg codec w meanwhile now now_ms q p ≡ none)
      ⊎ ((more : Bool) × (q' : Queue) × (p' : Pool) × (poll_once cfg codec w meanwhile now now_ms q
              p
            ≡ some (polled more q' p'))
          × IsRetriable cfg q')
      ⊎ ((m : Message) × In m (receive cfg now now_ms cfg.batch_size q).0
          × (codec.md5 m.body ≡ none)
          × (poll_once cfg codec w meanwhile now now_ms q p
              ≡ some (raises (receive cfg now now_ms cfg.batch_size q).1 p)))
unfolding poll_once EndsWell
poll_once-IsRetriable cfg codec w meanwhile now now_ms q p h small keeps =
    process_batch-EndsWell cfg codec w meanwhile (receive cfg now now_ms cfg.batch_size q).0
      (receive cfg now now_ms cfg.batch_size q).1 p keeps
      (λ k m found. received_bound cfg now now_ms cfg.batch_size q k m h small found)
