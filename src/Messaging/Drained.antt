-- ===== src/Messaging/Drained.antt =====
-- What a run of payment.py that drains its queue has charged and acknowledged.
use mathlib.Core.Path.{subst}
use system_design_course.Common.{
  if◌then◌else◌, Bool-cases, Option-cases, In, Text, text_eq_self, ℕ, ◌≡◌, sym, ap, ◌∙◌, ◌≢◌, inl,
  inr, Bool, true, Option, none, some, List, [], ◌∷◌, arith,
}
use system_design_course.Messaging.Payment.{
  Ledger, Order, is_id, is_processed, insert_charge, charge, Crash, Payment, handle, consume,
  empty_ledger, Run, run_all, key_error, no_crash, before_charge, after_charge, drained,
}
use system_design_course.Messaging.Exactly.{
  charge_count, expected, consume-expected, empty-expected, run_all-expected,
}

unfoldable pub tags : List Payment → List ℕ
tags [] = []
tags (p ∷ ps) = p.delivery_tag ∷ tags ps

insert_charge-keeps :
    (order : Order) (m : Option Text) (before db : Ledger) (id : Text)
    → is_processed (some id) before.processed ≡ true
    → is_processed (some id) db.processed ≡ true
    → is_processed (some id) (insert_charge order m before db).1.processed ≡ true
unfolding insert_charge
insert_charge-keeps order m before db id h k = elim (Option-cases order.order_id) [
  | inl e ↦ ground (arith, e, h)
  | inr (o, e) ↦ elim (Option-cases order.amount) [
    | inl f ↦ ground (arith, e, f, h)
    | inr (a, f) ↦ ground (arith, e, f, k)
  ]
]

is_processed-cons :
    (id : Text) (m : Option Text) (ids : List (Option Text))
    → is_processed (some id) ids ≡ true
    → is_processed (some id) (m ∷ ids) ≡ true
unfolding is_processed
is_processed-cons id m ids h = ground (arith, h)

is_processed-head :
    (id : Text) (ids : List (Option Text)) → is_processed (some id) (some id ∷ ids) ≡ true
unfolding is_processed is_id
is_processed-head id ids = ground (arith, text_eq_self id)

charge-keeps :
    (order : Order) (m : Option Text) (db : Ledger) (id : Text)
    → is_processed (some id) db.processed ≡ true
    → is_processed (some id) (charge order m true db).1.processed ≡ true
unfolding charge
charge-keeps order m db id h = elim (Bool-cases (is_processed m db.processed)) [
  | inl e ↦ ground (arith, e, h)
  | inr e ↦
      let db' : Ledger = record db { processed = m ∷ db.processed } in
      ground
        (arith, e, insert_charge-keeps order m db db' id h (is_processed-cons id m db.processed h))
]

handle-keeps :
    (crash : Crash) (p : Payment) (db : Ledger) (id : Text)
    → is_processed (some id) db.processed ≡ true
    → is_processed (some id) (handle true crash p db).0.processed ≡ true
unfolding handle
handle-keeps crash p db id h = elim (Option-cases p.order) [
  | inl e ↦ ground (arith, e, h)
  | inr (order, e) ↦ elim (Option-cases order.order_id) [
    | inl f ↦ ground (arith, e, f, h)
    | inr (o, f) ↦
        elim crash as (λ k. is_processed (some id) (handle true k p db).0.processed ≡ true) [
          | before_charge ↦ ground (arith, e, f, h)
          | after_charge ↦ ground (arith, e, f, charge-keeps order p.message_id db id h)
          | no_crash ↦ ground (arith, e, f, charge-keeps order p.message_id db id h)
        ]
  ]
]

consume-keeps :
    (auto_ack : Bool) (crash : Crash) (ps : List Payment) (db : Ledger) (id : Text)
    → is_processed (some id) db.processed ≡ true
    → is_processed (some id) (consume auto_ack true crash ps db).0.processed ≡ true
unfolding consume
consume-keeps auto_ack crash [] db id h = h
consume-keeps auto_ack crash (p ∷ ps) db id h =
    let db' = (handle true crash p db).0 in
    let ih = consume-keeps auto_ack crash ps db' id (handle-keeps crash p db id h) in
    ground (arith, handle-keeps crash p db id h, ih)

insert_charge-new :
    (order : Order) (id : Text) (db : Ledger)
    → let r = insert_charge order (some id) db (record db { processed = some id ∷ db.processed }) in
      r.0 ≢ key_error → is_processed (some id) r.1.processed ≡ true
unfolding insert_charge
insert_charge-new order id db ok = elim (Option-cases order.order_id) [
  | inl e ↦ ground (arith, e, ok)
  | inr (o, e) ↦ elim (Option-cases order.amount) [
    | inl f ↦ ground (arith, e, f, ok)
    | inr (a, f) ↦ ground (arith, e, f, is_processed-head id db.processed)
  ]
]

charge-new :
    (order : Order) (id : Text) (db : Ledger)
    → (charge order (some id) true db).0 ≢ key_error
    → is_processed (some id) (charge order (some id) true db).1.processed ≡ true
unfolding charge
charge-new order id db ok = elim (Bool-cases (is_processed (some id) db.processed)) [
  | inl e ↦ ground (arith, e)
  | inr e ↦ ground (arith, e, ok, insert_charge-new order id db)
]

handle-new_order :
    (crash : Crash) (p : Payment) (db : Ledger) (id : Text) (order : Order) (o : Text)
    → p.order ≡ some order
    → order.order_id ≡ some o
    → p.message_id ≡ some id
    → (handle true crash p db).1 ≡ none
    → is_processed (some id) (handle true crash p db).0.processed ≡ true
unfolding handle
handle-new_order before_charge p db id order o e f m h = ground (arith, e, f, h)
handle-new_order after_charge p db id order o e f m h = ground (arith, e, f, h)
handle-new_order no_crash p db id order o e f m h =
    ground (arith, e, f, m, h, charge-new order id db)

handle-new :
    (crash : Crash) (p : Payment) (db : Ledger) (id : Text)
    → p.message_id ≡ some id
    → (handle true crash p db).1 ≡ none
    → is_processed (some id) (handle true crash p db).0.processed ≡ true
unfolding handle
handle-new crash p db id m h = elim (Option-cases p.order) [
  | inl e ↦ ground (arith, e, h)
  | inr (order, e) ↦ elim (Option-cases order.order_id) [
    | inl f ↦ ground (arith, e, f, h)
    | inr (o, f) ↦ handle-new_order crash p db id order o e f m h
  ]
]

handle_order-drained :
    (idempotent : Bool) (crash : Crash) (p : Payment) (db : Ledger) (order : Order) (o : Text)
    → p.order ≡ some order
    → order.order_id ≡ some o
    → (handle idempotent crash p db).1 ≢ some drained
unfolding handle
handle_order-drained idempotent before_charge p db order o e f h = ground (arith, e, f, h)
handle_order-drained idempotent after_charge p db order o e f h = ground (arith, e, f, h)
handle_order-drained idempotent no_crash p db order o e f h = ground (arith, e, f, h)

handle-drained :
    (idempotent : Bool) (crash : Crash) (p : Payment) (db : Ledger)
    → (handle idempotent crash p db).1 ≢ some drained
unfolding handle
handle-drained idempotent crash p db h = elim (Option-cases p.order) [
  | inl e ↦ ground (arith, e, h)
  | inr (order, e) ↦ elim (Option-cases order.order_id) [
    | inl f ↦ ground (arith, e, f, h)
    | inr (o, f) ↦ handle_order-drained idempotent crash p db order o e f h
  ]
]

-- A run that drains its queue handles the first delivery to its end and drains the others.
pub consume_cons-drained :
    (auto_ack idempotent : Bool) (crash : Crash) (p : Payment) (ps : List Payment) (db : Ledger)
    → (consume auto_ack idempotent crash (p ∷ ps) db).2 ≡ drained
    → ((handle idempotent crash p db).1 ≡ none)
      × ((consume auto_ack idempotent crash ps (handle idempotent crash p db).0).2 ≡ drained)
unfolding consume
consume_cons-drained auto_ack idempotent crash p ps db h =
    elim (Option-cases (handle idempotent crash p db).1) [
      | inl e ↦ ground (arith, e, h)
      | inr (x, e) ↦ ground (arith, e, h, handle-drained idempotent crash p db)
    ]

pub consume_cons-ledger :
    (auto_ack idempotent : Bool) (crash : Crash) (p : Payment) (ps : List Payment) (db : Ledger)
    → (handle idempotent crash p db).1 ≡ none
    → (consume auto_ack idempotent crash (p ∷ ps) db).0
      ≡ (consume auto_ack idempotent crash ps (handle idempotent crash p db).0).0
unfolding consume
consume_cons-ledger auto_ack idempotent crash p ps db e = ground (arith, e)

consume-drained :
    (auto_ack : Bool) (crash : Crash) (ps : List Payment) (db : Ledger) (p : Payment) (id : Text)
    → In p ps
    → p.message_id ≡ some id
    → (consume auto_ack true crash ps db).2 ≡ drained
    → is_processed (some id) (consume auto_ack true crash ps db).0.processed ≡ true
consume-drained auto_ack crash [] db p id w m h = absurd w
consume-drained auto_ack crash (x ∷ ps) db p id (inl e) m h =
    let (first, later) = consume_cons-drained auto_ack true crash x ps db h in
    let m' = ap Payment.message_id e ∙ m in
    subst (λ l. is_processed (some id) (Ledger.processed l) ≡ true)
      (sym (consume_cons-ledger auto_ack true crash x ps db first))
      (consume-keeps auto_ack crash ps (handle true crash x db).0 id
        (handle-new crash x db id m' first))
consume-drained auto_ack crash (x ∷ ps) db p id (inr w) m h =
    let (first, later) = consume_cons-drained auto_ack true crash x ps db h in
    subst (λ l. is_processed (some id) (Ledger.processed l) ≡ true)
      (sym (consume_cons-ledger auto_ack true crash x ps db first))
      (consume-drained auto_ack crash ps (handle true crash x db).0 p id w m later)

-- With `--idempotent`, after any series of starts on an empty ledger, whatever their crashes and
-- redeliveries, a run that drains its queue leaves exactly one row of charges for the message id of
-- each of its deliveries.
pub drained_run-charge_count :
    (rs : List Run) (r : Run) (p : Payment) (id : Text)
    → In p r.deliveries
    → p.message_id ≡ some id
    → (consume r.auto_ack true r.crash r.deliveries (run_all true rs empty_ledger)).2 ≡ drained
    → charge_count id
        (consume r.auto_ack true r.crash r.deliveries (run_all true rs empty_ledger)).0.charges
      ≡ 1
unfolding expected
drained_run-charge_count rs r p id w m h =
    let db = run_all true rs empty_ledger in
    let before = run_all-expected rs empty_ledger id (empty-expected id) in
    ground (
      arith,
      consume-drained r.auto_ack r.crash r.deliveries db p id w m h,
      consume-expected r.auto_ack r.crash r.deliveries db id before,
    )

-- A run that drains its queue acknowledges every delivery, in order, in manual mode, and makes no
-- acknowledgement in automatic mode, where the broker has made it.
drained_run-acks :
    (auto_ack idempotent : Bool) (crash : Crash) (ps : List Payment) (db : Ledger)
    → (consume auto_ack idempotent crash ps db).2 ≡ drained
    → (consume auto_ack idempotent crash ps db).1 ≡ (if auto_ack then [] else tags ps)
unfolding consume tags
drained_run-acks auto_ack idempotent crash [] db h = ground arith
drained_run-acks auto_ack idempotent crash (p ∷ ps) db h =
    let (first, later) = consume_cons-drained auto_ack idempotent crash p ps db h in
    let ih = drained_run-acks auto_ack idempotent crash ps (handle idempotent crash p db).0 later in
    ground (arith, first, ih)
