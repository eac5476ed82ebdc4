-- ===== src/Messaging/Exactly.antt =====
-- Charging a message id once, over redeliveries, crashes and restarts of payment.py.
use system_design_course.Common.{
  if◌then◌else◌, Bool-cases, Option-cases, Text, text_eq, text_eq_iff, ℕ, ◌+◌, ◌≡◌, refl, ap, ◌∙◌,
  inl, inr, Bool, true, false, Option, none, some, List, [], ◌∷◌, ◌++◌, arith,
}
use system_design_course.Messaging.Payment.{
  Charge, Ledger, Order, is_id, is_processed, insert_charge, charge, Crash, Payment, handle,
  consume, empty_ledger, Run, run_all, no_crash, before_charge, after_charge,
}

-- How many rows of `charges` carry the message id.
unfoldable pub charge_count : Text → List Charge → ℕ
unfolding is_id
charge_count id [] = 0
charge_count id (c ∷ cs) =
    let rest = charge_count id cs in if is_id id c.message_id then rest + 1 else rest

-- How many rows the table of processed ids asks for.
unfoldable pub expected : Text → Ledger → ℕ
unfolding is_processed
expected id db = if is_processed (some id) db.processed then 1 else 0

charge_count-append :
    (id : Text) (cs ds : List Charge)
    → charge_count id (cs ++ ds) ≡ charge_count id cs + charge_count id ds
unfolding charge_count
charge_count-append id [] ds = omega arith
charge_count-append id (c ∷ cs) ds = ground (arith, charge_count-append id cs ds)

-- A row with the message id is one charge more, any other row none.
pub charge_count-snoc :
    (id : Text) (cs : List Charge) (c : Charge)
    → charge_count id (cs ++ c ∷ []) ≡ charge_count id cs + (if is_id id c.message_id then 1 else 0)
unfolding charge_count
charge_count-snoc id cs c = ground (arith, charge_count-append id cs (c ∷ []))

insert_charge-expected :
    (order : Order) (m : Option Text) (db : Ledger) (id : Text)
    → is_processed m db.processed ≡ false
    → charge_count id db.charges ≡ expected id db
    → let db' = (insert_charge order m db (record db { processed = m ∷ db.processed })).1 in
      charge_count id db'.charges ≡ expected id db'
unfolding insert_charge expected is_processed is_id
insert_charge-expected order none db id fresh h = elim (Option-cases order.order_id) [
  | inl e ↦ ground (arith, e, h)
  | inr (o, e) ↦ elim (Option-cases order.amount) [
    | inl f ↦ ground (arith, e, f, h)
    | inr (a, f) ↦
        let c : Charge = record { order_id = o; amount = a; message_id = none } in
        ground (arith, e, f, h, charge_count-snoc id db.charges c)
  ]
]
insert_charge-expected order (some m) db id fresh h = elim (Option-cases order.order_id) [
  | inl e ↦ ground (arith, e, h)
  | inr (o, e) ↦ elim (Option-cases order.amount) [
    | inl f ↦ ground (arith, e, f, h)
    | inr (a, f) ↦
        let c : Charge = record { order_id = o; amount = a; message_id = some m } in
        elim (Bool-cases (text_eq id m)) [
          | inl same ↦
              let fresh' =
                ap (λ x. is_processed (some x) db.processed) ((text_eq_iff id m).0 same) ∙ fresh in
              ground (arith, e, f, h, same, fresh', charge_count-snoc id db.charges c)
          | inr other ↦ ground (arith, e, f, h, other, charge_count-snoc id db.charges c)
        ]
  ]
]

charge-expected :
    (order : Order) (m : Option Text) (db : Ledger) (id : Text)
    → charge_count id db.charges ≡ expected id db
    → charge_count id (charge order m true db).1.charges ≡ expected id (charge order m true db).1
unfolding charge
charge-expected order m db id h = elim (Bool-cases (is_processed m db.processed)) [
  | inl e ↦ ground (arith, e, h)
  | inr e ↦ ground (arith, e, insert_charge-expected order m db id e h)
]

handle-expected :
    (crash : Crash) (p : Payment) (db : Ledger) (id : Text)
    → charge_count id db.charges ≡ expected id db
    → charge_count id (handle true crash p db).0.charges ≡ expected id (handle true crash p db).0
unfolding handle
handle-expected crash p db id h = elim (Option-cases p.order) [
  | inl e ↦ ground (arith, e, h)
  | inr (order, e) ↦ elim (Option-cases order.order_id) [
    | inl f ↦ ground (arith, e, f, h)
    | inr (o, f) ↦
        elim crash
          as (λ k.
            charge_count id (handle true k p db).0.charges ≡ expected id (handle true k p db).0) [
              | before_charge ↦ ground (arith, e, f, h)
              | after_charge ↦ ground (arith, e, f, charge-expected order p.message_id db id h)
              | no_crash ↦ ground (arith, e, f, charge-expected order p.message_id db id h)
            ]
  ]
]

pub consume-expected :
    (auto_ack : Bool) (crash : Crash) (ps : List Payment) (db : Ledger) (id : Text)
    → charge_count id db.charges ≡ expected id db
    → charge_count id (consume auto_ack true crash ps db).0.charges
      ≡ expected id (consume auto_ack true crash ps db).0
unfolding consume
consume-expected auto_ack crash [] db id h = h
consume-expected auto_ack crash (p ∷ ps) db id h =
    let db' = (handle true crash p db).0 in
    let ih = consume-expected auto_ack crash ps db' id (handle-expected crash p db id h) in
    ground (arith, handle-expected crash p db id h, ih)

pub empty-expected : (id : Text) → charge_count id [] ≡ expected id empty_ledger
unfolding charge_count expected is_processed
empty-expected id = refl

-- With `--idempotent`, a message id has one row of charges where it is among the processed ids and
-- none where it is not, after any series of starts, each with its acknowledgement mode, its crash
-- and its deliveries and redeliveries, when that was so before.
pub run_all-expected :
    (rs : List Run) (db : Ledger) (id : Text)
    → charge_count id db.charges ≡ expected id db
    → charge_count id (run_all true rs db).charges ≡ expected id (run_all true rs db)
unfolding run_all
run_all-expected [] db id h = h
run_all-expected (r ∷ rs) db id h =
    run_all-expected rs (consume r.auto_ack true r.crash r.deliveries db).0 id
      (consume-expected r.auto_ack r.crash r.deliveries db id h)
