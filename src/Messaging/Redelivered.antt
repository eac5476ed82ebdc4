-- ===== src/Messaging/Redelivered.antt =====
-- What payment.py charges without `--idempotent`, and what it loses in automatic mode.
use system_design_course.Common.{
  if◌then◌else◌, Option-cases, Text, ℕ, ◌+◌, ◌≡◌, refl, ap, ◌∙◌, ◌≢◌, inl, inr, Bool, false, Option,
  none, some, List, [], ◌∷◌, arith,
}
use system_design_course.Messaging.Payment.{
  Charge, Ledger, Order, is_id, insert_charge, charge, Crash, Payment, handle, consume, key_error,
  no_crash, before_charge, after_charge, drained,
}
use system_design_course.Messaging.Exactly.{charge_count, charge_count-snoc}
use system_design_course.Messaging.Drained.{consume_cons-drained, consume_cons-ledger}

-- How many deliveries carry the message id.
unfoldable pub delivered_count : Text → List Payment → ℕ
unfolding is_id
delivered_count id [] = 0
delivered_count id (p ∷ ps) =
    let rest = delivered_count id ps in if is_id id p.message_id then rest + 1 else rest

charge_plain-count :
    (order : Order) (m : Option Text) (db : Ledger) (id : Text)
    → (charge order m false db).0 ≢ key_error
    → charge_count id (charge order m false db).1.charges
      ≡ charge_count id db.charges + (if is_id id m then 1 else 0)
unfolding charge insert_charge
charge_plain-count order m db id ok = elim (Option-cases order.order_id) [
  | inl e ↦ ground (arith, e, ok)
  | inr (o, e) ↦ elim (Option-cases order.amount) [
    | inl f ↦ ground (arith, e, f, ok)
    | inr (a, f) ↦
        let c : Charge = record { order_id = o; amount = a; message_id = m } in
        ground (arith, e, f, charge_count-snoc id db.charges c)
  ]
]

handle_plain_order-count :
    (crash : Crash) (p : Payment) (db : Ledger) (id : Text) (order : Order) (o : Text)
    → p.order ≡ some order
    → order.order_id ≡ some o
    → (handle false crash p db).1 ≡ none
    → charge_count id (handle false crash p db).0.charges
      ≡ charge_count id db.charges + (if is_id id p.message_id then 1 else 0)
unfolding handle
handle_plain_order-count before_charge p db id order o e f h = ground (arith, e, f, h)
handle_plain_order-count after_charge p db id order o e f h = ground (arith, e, f, h)
handle_plain_order-count no_crash p db id order o e f h =
    ground (arith, e, f, h, charge_plain-count order p.message_id db id)

handle_plain-count :
    (crash : Crash) (p : Payment) (db : Ledger) (id : Text)
    → (handle false crash p db).1 ≡ none
    → charge_count id (handle false crash p db).0.charges
      ≡ charge_count id db.charges + (if is_id id p.message_id then 1 else 0)
unfolding handle
handle_plain-count crash p db id h = elim (Option-cases p.order) [
  | inl e ↦ ground (arith, e, h)
  | inr (order, e) ↦ elim (Option-cases order.order_id) [
    | inl f ↦ ground (arith, e, f, h)
    | inr (o, f) ↦ handle_plain_order-count crash p db id order o e f h
  ]
]

consume_nil :
    (auto_ack : Bool) (crash : Crash) (db : Ledger) (id : Text)
    → charge_count id (consume auto_ack false crash [] db).0.charges
      ≡ charge_count id db.charges + delivered_count id []
unfolding consume delivered_count
consume_nil auto_ack crash db id = omega arith

delivered_cons :
    (a b c : ℕ) (id : Text) (p : Payment) (ps : List Payment)
    → b ≡ c + (if is_id id p.message_id then 1 else 0)
    → a ≡ b + delivered_count id ps
    → a ≡ c + delivered_count id (p ∷ ps)
unfolding delivered_count
delivered_cons a b c id p ps h k = ground (arith, h, k)

-- Without `--idempotent`, a run that drains its queue adds one row of charges for every delivery of
-- a message id, redeliveries included.
pub plain_run-charge_count :
    (auto_ack : Bool) (crash : Crash) (ps : List Payment) (db : Ledger) (id : Text)
    → (consume auto_ack false crash ps db).2 ≡ drained
    → charge_count id (consume auto_ack false crash ps db).0.charges
      ≡ charge_count id db.charges + delivered_count id ps
plain_run-charge_count auto_ack crash [] db id h = consume_nil auto_ack crash db id
plain_run-charge_count auto_ack crash (p ∷ ps) db id h =
    let (first, later) = consume_cons-drained auto_ack false crash p ps db h in
    let db' = (handle false crash p db).0 in
    ap (λ l. charge_count id (Ledger.charges l))
      (consume_cons-ledger auto_ack false crash p ps db first)
    ∙ delivered_cons _ _ _ id p ps (handle_plain-count crash p db id first)
        (plain_run-charge_count auto_ack crash ps db' id later)

-- A consumer that dies before it charges acknowledges nothing and leaves the ledger as it was.
before_charge-lost :
    (auto_ack idempotent : Bool) (ps : List Payment) (db : Ledger)
    → ((consume auto_ack idempotent before_charge ps db).0 ≡ db)
      × ((consume auto_ack idempotent before_charge ps db).1 ≡ [])
unfolding consume handle
before_charge-lost auto_ack idempotent [] db = (refl, refl)
before_charge-lost auto_ack idempotent (p ∷ ps) db = elim (Option-cases p.order) [
  | inl e ↦ ground (arith, e)
  | inr (order, e) ↦ elim (Option-cases order.order_id) [
    | inl f ↦ ground (arith, e, f)
    | inr (o, f) ↦ ground (arith, e, f)
  ]
]
