-- ===== src/Messaging/Lifecycle.antt =====
-- The whole life of a poison message of worker.py, from its first delivery to the dead letter queue.
use system_design_course.Common.{
  if◌then◌else◌, Bool-cases, codes, lookup-insert_self, ℕ, zero, suc, ◌+◌, ◌≤◌, ◌<◌, ◌≡◌, ap, ◌∙◌,
  inl, inr, true, Option, none, some, List, [], ◌∷◌, ◌++◌, arith,
}
use system_design_course.Common.Json.{Fields}
use system_design_course.Messaging.Worker.{
  Properties, Delivery, Call, max_attempts, Outside, parse_order, is_poison, headers_of, attempt_of,
  retry_properties, retry_later, on_message, int, basic_publish, basic_ack, basic_nack_requeue,
  basic_reject,
}

-- The delivery, under the given tag, of the copy that a list of calls stores in the broker.
unfoldable pub copy_of : ℕ → List Call → Option Delivery
copy_of tag [] = none
copy_of tag (basic_publish key body props confirmed ∷ cs) =
    let rest = copy_of tag cs in
    if confirmed
    then some (record { delivery_tag = tag; properties = props; body = body })
    else rest
copy_of tag (basic_ack t ∷ cs) = copy_of tag cs
copy_of tag (basic_nack_requeue t ∷ cs) = copy_of tag cs
copy_of tag (basic_reject t ∷ cs) = copy_of tag cs

-- All the calls made for a message and for the copies that follow from it, for so many deliveries.
unfoldable pub life : ℕ → Outside → Delivery → List Call
unfolding copy_of
life zero o d = []
life (suc fuel) o d = elim (on_message o d 0) [
  | none ↦ []
  | some (cs, n) ↦ elim (copy_of (d.delivery_tag + 1) cs) [
    | none ↦ cs
    | some d' ↦ cs ++ life fuel o d'
  ]
]

-- How many copies a list of calls publishes, and how many messages it rejects.
unfoldable pub copies : List Call → ℕ
copies [] = 0
copies (basic_publish key body props confirmed ∷ cs) = copies cs + 1
copies (basic_ack t ∷ cs) = copies cs
copies (basic_nack_requeue t ∷ cs) = copies cs
copies (basic_reject t ∷ cs) = copies cs

unfoldable pub rejected : List Call → ℕ
rejected [] = 0
rejected (basic_publish key body props confirmed ∷ cs) = rejected cs
rejected (basic_ack t ∷ cs) = rejected cs
rejected (basic_nack_requeue t ∷ cs) = rejected cs
rejected (basic_reject t ∷ cs) = rejected cs + 1

-- The copy of a retry carries the next attempt number, whatever headers the message had.
attempt_of-retry_properties :
    (o : Outside) (p : Properties) (a : ℕ) → attempt_of o (retry_properties p a) ≡ some (a + 1)
unfolding attempt_of retry_properties
attempt_of-retry_properties o p a =
    ground (arith, lookup-insert_self (codes "attempt") (int (a + 1)) (headers_of p))

-- The delivery of the copy that a confirmed retry publishes.
abbrev next_delivery : Delivery → ℕ → Delivery
next_delivery d a = record {
  delivery_tag = d.delivery_tag + 1;
  properties = retry_properties d.properties a;
  body = d.body;
}

copy_of-retry_later :
    (o : Outside) (d : Delivery) (a : ℕ)
    → o.confirms ≡ true
    → copy_of (d.delivery_tag + 1) (retry_later o d a) ≡ some (next_delivery d a)
unfolding copy_of retry_later
copy_of-retry_later o d a c = ground (arith, c)

life_retried :
    (fuel : ℕ) (o : Outside) (d : Delivery) (order : Fields) (a : ℕ)
    → parse_order o d.body ≡ some order
    → is_poison order ≡ true
    → o.confirms ≡ true
    → attempt_of o d.properties ≡ some a
    → a < max_attempts
    → life (suc fuel) o d ≡ retry_later o d a ++ life fuel o (next_delivery d a)
unfolding life on_message
life_retried fuel o d order a e p c f l = ground (arith, e, p, f, l, copy_of-retry_later o d a c)

copies-retry_later :
    (o : Outside) (d : Delivery) (a : ℕ) (cs : List Call)
    → (copies (retry_later o d a ++ cs) ≡ copies cs + 1)
      × (rejected (retry_later o d a ++ cs) ≡ rejected cs)
unfolding copies rejected retry_later
copies-retry_later o d a cs = elim (Bool-cases o.confirms) [
  | inl e ↦ (ground (arith, e), ground (arith, e))
  | inr e ↦ (ground (arith, e), ground (arith, e))
]

life_dropped :
    (fuel : ℕ) (o : Outside) (d : Delivery) (order : Fields) (a : ℕ)
    → parse_order o d.body ≡ some order
    → is_poison order ≡ true
    → attempt_of o d.properties ≡ some a
    → max_attempts ≤ a
    → life (suc fuel) o d ≡ basic_reject d.delivery_tag ∷ []
unfolding life on_message copy_of
life_dropped fuel o d order a e p f l = ground (arith, e, p, f, l)

-- A poison order at attempt number a, when the broker confirms the copies, leads to 3 - a copies
-- and then to one rejection, to the dead letter queue, within 4 - a deliveries. At the first attempt
-- that is two copies and three tries in all.
pub life-published :
    (left fuel : ℕ) (o : Outside) (d : Delivery) (order : Fields) (a : ℕ)
    → parse_order o d.body ≡ some order
    → is_poison order ≡ true
    → o.confirms ≡ true
    → attempt_of o d.properties ≡ some a
    → a + left ≡ max_attempts
    → left < fuel
    → (copies (life fuel o d) ≡ left) × (rejected (life fuel o d) ≡ 1)
unfolding copies rejected
life-published left zero o d order a e p c f sum bound = absurd (omega arith)
life-published zero (suc fuel) o d order a e p c f sum bound =
    let over = life_dropped fuel o d order a e p f (omega arith) in
    (ap copies over, ap rejected over)
life-published (suc left) (suc fuel) o d order a e p c f sum bound =
    let below : a < max_attempts = omega arith in
    let again = life_retried fuel o d order a e p c f below in
    let (more, same) = copies-retry_later o d a (life fuel o (next_delivery d a)) in
    let f' = attempt_of-retry_properties o d.properties a in
    let (ih, last) =
      life-published left fuel o (next_delivery d a) order (a + 1) e p c f' (omega arith)
        (omega arith) in
    let count = ap copies again ∙ more in (omega arith, ap rejected again ∙ same ∙ last)
