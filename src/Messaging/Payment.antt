-- ===== src/Messaging/Payment.antt =====
-- payment.py: charging an order in the ledger, and the loop of the consumer. The two tables of
-- ledger.py stand for the SQLite database; a transaction commits both inserts or neither.
use system_design_course.Common.{
  if◌then◌else◌, Text, text_eq, ℕ, Bool, false, ◌||◌, Option, none, some, List, [], ◌∷◌, ◌++◌,
}

-- A row of `charges`; the amount is a number of hundredths, and `none` is NULL.
pub record Charge : Type 0 where
  pub order_id : Text
  pub amount : ℕ
  pub message_id : Option Text

pub record Ledger : Type 0 where
  pub charges : List Charge
  pub processed : List (Option Text)

-- A decoded order: `none` for a field that is missing, whose subscript raises KeyError.
pub record Order : Type 0 where
  pub order_id : Option Text
  pub amount : Option ℕ

-- Whether a stored id is the given one; NULL equals nothing.
unfoldable pub is_id : Text → Option Text → Bool
is_id id none = false
is_id id (some id') = text_eq id id'

-- What `PRIMARY KEY` refuses: an id that is there. SQLite admits any number of NULLs.
unfoldable pub is_processed : Option Text → List (Option Text) → Bool
unfolding is_id
is_processed none ids = false
is_processed (some id) [] = false
is_processed (some id) (m ∷ ids) = is_id id m || is_processed (some id) ids

-- How `charge` ends: True, False or a KeyError.
pub data Charged : Type 0 where
  charged duplicate key_error : Charged

-- The second insert; a KeyError rolls the transaction back to `before`.
unfoldable pub insert_charge : Order → Option Text → Ledger → Ledger → Charged × Ledger
insert_charge order message_id before db = elim order.order_id [
  | none ↦ (key_error, before)
  | some id ↦ elim order.amount [
    | none ↦ (key_error, before)
    | some amount ↦ (
      charged,
      record db {
        charges =
            db.charges ++ record { order_id = id; amount = amount; message_id = message_id } ∷ [];
      },
    )
  ]
]

unfoldable pub charge : Order → Option Text → Bool → Ledger → Charged × Ledger
charge order message_id idempotent db =
    if idempotent
    then (if is_processed message_id db.processed
        then (duplicate, db)
        else insert_charge order message_id db
            (record db { processed = message_id ∷ db.processed }))
    else insert_charge order message_id db db

pub data Crash : Type 0 where
  no_crash before_charge after_charge : Crash

-- A delivery; its order is `none` where `json.loads` raises.
pub record Payment : Type 0 where
  pub delivery_tag : ℕ
  pub message_id : Option Text
  pub order : Option Order

-- How a run of the consumer ends: the queue is drained, the process dies, or an exception ends it.
pub data Ending : Type 0 where
  drained died failed : Ending

-- The body of the loop up to the acknowledgement: `none` where it comes to that, and otherwise how
-- the run ends in it. The first print raises KeyError for an order without an order_id.
unfoldable pub handle : Bool → Crash → Payment → Ledger → Ledger × Option Ending
handle idempotent crash p db = elim p.order [
  | none ↦ (db, some failed)
  | some order ↦ elim order.order_id [
    | none ↦ (db, some failed)
    | some id ↦ elim crash [
      | before_charge ↦ (db, some died)
      | after_charge ↦
          let (result, db') = charge order p.message_id idempotent db in
          (db', elim result [ key_error ↦ some failed | _ ↦ some died ])
      | no_crash ↦
          let (result, db') = charge order p.message_id idempotent db in
          (db', elim result [ key_error ↦ some failed | _ ↦ none ])
    ]
  ]
]

-- The loop over the deliveries of one run: the ledger, the tags acknowledged in order, the ending.
unfoldable pub consume : Bool → Bool → Crash → List Payment → Ledger → Ledger × List ℕ × Ending
consume auto_ack idempotent crash [] db = (db, [], drained)
consume auto_ack idempotent crash (p ∷ ps) db =
    let (db', ended) = handle idempotent crash p db in
    let (db'', acks, ending) = consume auto_ack idempotent crash ps db' in
    elim ended [
      | some e ↦ (db', [], e)
      | none ↦ (db'', (if auto_ack then acks else p.delivery_tag ∷ acks), ending)
    ]

-- The ledger that `open_ledger` creates.
abbrev pub empty_ledger : Ledger
empty_ledger = record { charges = []; processed = [] }

-- `ledger.py --reset`
unfoldable pub reset : Ledger → Ledger
reset db = record { charges = []; processed = [] }

-- One start of the consumer: its options and what the broker delivers to it.
pub record Run : Type 0 where
  pub auto_ack : Bool
  pub crash : Crash
  pub deliveries : List Payment

-- The ledger after a series of starts with the same `--idempotent`.
unfoldable pub run_all : Bool → List Run → Ledger → Ledger
run_all idempotent [] db = db
run_all idempotent (r ∷ rs) db =
    run_all idempotent rs (consume r.auto_ack idempotent r.crash r.deliveries db).0
