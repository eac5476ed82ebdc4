-- ===== src/Messaging/Worker.antt =====
-- worker.py: the handler of one message of the work queue. `json.loads` comes from outside, as does
-- whether the broker confirms a published copy. What is printed and slept is left out.
use system_design_course.Common.{
  ltb, if◌then◌else◌, is_some, Text, codes, Dict, lookup, insert, ℕ, ◌+◌, Bool, false, Option, none,
  some, List, [], ◌∷◌,
}
use system_design_course.Common.Json.{Json, Fields, get_field, truthy, obj}
use system_design_course.Messaging.Broker.{orders_queue}

-- A header value: an int, or any other value by its text, on which `int` may raise.
pub data Header : Type 0 where
  int : ℕ → Header
  other : Text → Header

-- The fields of `BasicProperties` that the worker reads or copies.
pub record Properties : Type 0 where
  pub content_type : Option Text
  pub delivery_mode : Option ℕ
  pub message_id : Option Text
  pub headers : Option (Dict Header)

pub record Delivery : Type 0 where
  pub delivery_tag : ℕ
  pub properties : Properties
  pub body : Text

-- The calls on the channel; a publish carries whether the broker confirmed it.
pub data Call : Type 0 where
  basic_publish : Text → Text → Properties → Bool → Call
  basic_ack : ℕ → Call
  basic_nack_requeue : ℕ → Call
  basic_reject : ℕ → Call

abbrev pub max_attempts : ℕ
max_attempts = 3

-- The outside of one run: the decoder, `int` on other header values, and the answer to a publish.
pub record Outside : Type 0 where
  pub loads : Text → Option Json
  pub parse_int : Text → Option ℕ
  pub confirms : Bool

-- The order of a body, or `none` when it is not a JSON object with an order_id.
unfoldable pub parse_order : Outside → Text → Option Fields
parse_order o body = elim (o.loads body) [
  | some (obj order) ↦ if is_some (get_field (codes "order_id") order) then some order else none
  | _ ↦ none
]

-- Whether `process_order` raises PoisonMessageError: `order.get("poison")` is truthy.
unfoldable pub is_poison : Fields → Bool
is_poison order = elim (get_field (codes "poison") order) [ none ↦ false | some v ↦ truthy v ]

-- `properties.headers or {}`
abbrev pub headers_of : Properties → Dict Header
headers_of p = elim p.headers [ none ↦ [] | some h ↦ h ]

-- `int(headers.get("attempt", 1))`, `none` where `int` raises.
unfoldable pub attempt_of : Outside → Properties → Option ℕ
attempt_of o p = elim (lookup (codes "attempt") (headers_of p)) [
  | none ↦ some 1
  | some (int n) ↦ some n
  | some (other t) ↦ o.parse_int t
]

unfoldable pub retry_properties : Properties → ℕ → Properties
retry_properties p attempt = record {
  content_type = p.content_type;
  delivery_mode = p.delivery_mode;
  message_id = p.message_id;
  headers = some (insert (codes "attempt") (int (attempt + 1)) (headers_of p));
}

unfoldable pub retry_later : Outside → Delivery → ℕ → List Call
retry_later o d attempt =
    basic_publish orders_queue d.body (retry_properties d.properties attempt) o.confirms
    ∷ (if o.confirms then basic_ack d.delivery_tag else basic_nack_requeue d.delivery_tag)
    ∷ []

-- `on_message`: the calls and the number processed. `none` is the ValueError of a header that is no
-- number, which ends the worker with the message unsettled.
unfoldable pub on_message : Outside → Delivery → ℕ → Option (List Call × ℕ)
on_message o d processed = elim (parse_order o d.body) [
  | none ↦ some (basic_reject d.delivery_tag ∷ [], processed)
  | some order ↦ elim (attempt_of o d.properties) [
    | none ↦ none
    | some attempt ↦ some (
        if is_poison order
        then (if ltb attempt max_attempts
            then (retry_later o d attempt, processed)
            else (basic_reject d.delivery_tag ∷ [], processed))
        else (basic_ack d.delivery_tag ∷ [], processed + 1))
  ]
]
