-- ===== src/Gateway/Poller.antt =====
-- gateway.py, the event source mapping: `poll_once` receives a batch, invokes the processor with it
-- and settles each message.
use mathlib.Core.Option
use system_design_course.Common.{
  if◌then◌else◌, Text, codes, text_eq, show_nat, ℕ, Bool, true, false, Option, none, some, List, [],
  ◌∷◌, ◌++◌,
}
use system_design_course.Common.Json.{
  Json, Items, get_field, iterate, str, arr, obj, nil, cons, end, field,
}
use system_design_course.Gateway.Queue.{Settings, Message, Queue, receive, delete, fail}
use system_design_course.Gateway.Pool.{Pool, contains}
use system_design_course.Gateway.Invoke.{Codec, Invocation, World, invoke}

-- str(message["first_receive_ms"])
abbrev pub show_first : Option ℕ → Text
show_first none = codes "None"
show_first (some n) = show_nat n

-- `none` where `.encode()` raises on the body.
unfoldable pub sqs_record : Codec → Message → Option Json
sqs_record codec m = elim (codec.md5 m.body) [
  | none ↦ none
  | some digest ↦ some (
      obj (
        field (codes "messageId") (str m.message_id) (
          field (codes "receiptHandle")
            (str (codec.base64 (m.message_id ++ (codes ":" ++ show_nat m.receive_count))))
            (field (codes "body") (str m.body) (
              field (codes "attributes")
                (obj (
                  field (codes "ApproximateReceiveCount") (str (show_nat m.receive_count)) (
                    field (codes "SentTimestamp") (str (show_nat m.sent_ms)) (
                      field (codes "SenderId") (str (codes "lab15-gateway")) (
                        field (codes "ApproximateFirstReceiveTimestamp")
                          (str (show_first m.first_receive_ms)) end)))))
                (field (codes "messageAttributes") (obj end) (
                  field (codes "md5OfBody") (str digest) (
                    field (codes "eventSource") (str (codes "aws:sqs")) (
                      field (codes "eventSourceARN")
                        (str (codes "arn:aws:sqs:us-east-1:000000000000:lab15-orders"))
                        (field (codes "awsRegion") (str (codes "us-east-1")) end))))))))))
]

unfoldable pub records_of : Codec → List Message → Option Items
records_of codec [] = some nil
records_of codec (m ∷ batch) = elim (sqs_record codec m) [
  | none ↦ none
  | some r ↦ elim (records_of codec batch) [ none ↦ none | some rs ↦ some (cons r rs) ]
]

-- `item["itemIdentifier"]` as an element of a set: `none` where the subscript or the hash raises,
-- the empty list for a hashable value that is no text and so equals no message id.
unfoldable pub identifier : Json → Option (List Text)
identifier (obj fields) = elim (get_field (codes "itemIdentifier") fields) [
  | some (str t) ↦ some (t ∷ [])
  | some (arr xs) ↦ none
  | some (obj fs) ↦ none
  | some _ ↦ some []
  | none ↦ none
]
identifier _ = none

unfoldable pub identifiers : List Json → Option (List Text)
unfolding identifier
identifiers [] = some []
identifiers (item ∷ items) = elim (identifier item) [
  | none ↦ none
  | some ids ↦ Option.map (λ rest. ids ++ rest) (identifiers items)
]

-- `{item["itemIdentifier"] for item in payload.get("batchItemFailures", [])}`, `none` where a
-- ValueError, AttributeError, KeyError or TypeError is caught.
unfoldable pub reported_failures : Codec → Text → Option (List Text)
unfolding identifiers
reported_failures codec payload = elim (codec.loads payload) [
  | some (obj fields) ↦ elim (get_field (codes "batchItemFailures") fields) [
    | none ↦ some []
    | some value ↦ Option.bind (iterate value) identifiers
  ]
  | _ ↦ none
]

abbrev pub ids_of : List Message → List Text
ids_of [] = []
ids_of (m ∷ batch) = m.message_id ∷ ids_of batch

-- A failed invocation, or a response that cannot be read, fails the whole batch.
unfoldable pub failed_ids : Codec → Invocation → List Text → List Text
failed_ids codec result ids =
    if text_eq result.error []
    then elim (reported_failures codec result.payload) [ none ↦ ids | some failed ↦ failed ]
    else ids

unfoldable pub settle_message : Settings → List Text → Text → Queue → Queue
settle_message cfg failed message_id q =
    if contains message_id failed then (fail cfg message_id q).1 else delete message_id q

unfoldable pub settle_batch : Settings → List Text → List Text → Queue → Queue
unfolding settle_message
settle_batch cfg failed [] q = q
settle_batch cfg failed (message_id ∷ ids) q =
    settle_batch cfg failed ids (settle_message cfg failed message_id q)

-- How a turn ends: with a flag that is false if the queue had no visible message, or with an exception,
-- which `poll_queue` logs.
pub data Polled : Type 0 where
  polled : Bool → Queue → Pool → Polled
  raises : Queue → Pool → Polled

-- The rest of `poll_once` for a batch; `meanwhile` is what other threads did to the queue during the
-- invocation. `none` is an invocation that still waits for an environment.
unfoldable pub process_batch :
    Settings → Codec → World → (Queue → Queue) → List Message → Queue → Pool → Option Polled
process_batch cfg codec w meanwhile [] q p = some (polled false q p)
process_batch cfg codec w meanwhile (m ∷ ms) q p = elim (records_of codec (m ∷ ms)) [
  | none ↦ some (raises q p)
  | some records ↦
      let event = obj (field (codes "Records") (arr records) end) in
      elim (invoke codec w (codes "lab15-processor") (codec.dumps event) true p) [
        | none ↦ none
        | some (result, p') ↦
            let ids = ids_of (m ∷ ms) in
            some (polled true (settle_batch cfg (failed_ids codec result ids) ids (meanwhile q)) p')
      ]
]

-- One turn at monotonic time `now`.
unfoldable pub poll_once :
    Settings → Codec → World → (Queue → Queue) → ℕ → ℕ → Queue → Pool → Option Polled
unfolding process_batch
poll_once cfg codec w meanwhile now now_ms q p =
    let (batch, q') = receive cfg now now_ms cfg.batch_size q in
    process_batch cfg codec w meanwhile batch q' p
