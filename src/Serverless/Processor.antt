-- ===== src/Serverless/Processor.antt =====
-- functions/processor/app.py: the function that charges the payments of a batch. DynamoDB is outside:
-- a table is its state with the two calls the function makes, whose requests are written out here, and
-- `IsTable` is what it promises of them.
use Prim.Native.Nat.{◌^◌}
use system_design_course.Common.{
  ltb, leb, if◌then◌else◌, Text, codes, text_eq, strip, ℕ, ◌+◌, ◌*◌, ◌≡◌, ◌⊎◌, Bool, true, false,
  not, ◌&&◌, Option, none, some, List, [], ◌∷◌, ◌++◌,
}
use system_design_course.Common.Json.{Json, Fields, get_field, truthy, str, obj}

-- A Decimal: infinite or NaN, or a number with a sign, coefficient * 10 ^ -places.
pub data Decimal : Type 0 where
  not_finite : Decimal
  finite : Bool → ℕ → ℕ → Decimal

abbrev pub max_amount : ℕ
max_amount = 1000000

-- amount.is_finite() and 0 < amount <= MAX_AMOUNT
unfoldable pub is_chargeable : Decimal → Bool
is_chargeable not_finite = false
is_chargeable (finite negative coefficient places) =
    not negative && ltb 0 coefficient && leb coefficient (max_amount * 10 ^ places)

-- What `json.loads` and `Decimal(str(value))` give; `none` is JSONDecodeError or InvalidOperation.
pub record Reader : Type 0 where
  pub loads : Text → Option Json
  pub decimal : Json → Option Decimal

-- How `_parse` ends: the payment, InvalidPaymentError or RuntimeError.
pub data Parsed : Type 0 where
  payment : Text → Decimal → Parsed
  invalid crashes : Parsed

unfoldable pub parse_amount : Reader → Text → Fields → Parsed
parse_amount r order_id fields = elim (get_field (codes "amount") fields) [
  | none ↦ invalid
  | some value ↦ elim (r.decimal value) [
    | none ↦ invalid
    | some amount ↦ if is_chargeable amount then payment order_id amount else invalid
  ]
]

unfoldable pub parse_fields : Reader → Fields → Parsed
parse_fields r fields = elim (get_field (codes "order_id") fields) [
  | some (str order_id) ↦ elim (strip order_id) [
    | [] ↦ invalid
    | ◌∷◌ c cs ↦ parse_amount r order_id fields
  ]
  | _ ↦ invalid
]

-- bool(payment.get("crash"))
unfoldable pub is_crash : Fields → Bool
is_crash fields = elim (get_field (codes "crash") fields) [ none ↦ false | some v ↦ truthy v ]

unfoldable pub parse : Reader → Text → Parsed
parse r body = elim (r.loads body) [
  | some (obj fields) ↦ if is_crash fields then crashes else parse_fields r fields
  | _ ↦ invalid
]

-- A ConditionExpression: attribute_not_exists(pk).
pub data Condition : Type 0 where
  attribute_not_exists : Condition

-- The Put of a transaction: its primary key, its other attribute and its condition.
pub record Put : Type 0 where
  pub key : Text
  pub message_id : Text
  pub condition : Option Condition

-- An Update: its primary key and what it ADDs to `charges` and `charged_total`.
pub record Update : Type 0 where
  pub key : Text
  pub charges : ℕ
  pub charged_total : Decimal

-- How `transact_write_items` ends: committed, cancelled since the condition of the first item does not
-- hold, or another error, which is raised, with the state that it leaves.
pub data Transacted (S : Type 0) : Type 0 where
  committed : S → Transacted S
  condition_failed : Transacted S
  fails : S → Transacted S

-- A table: `update` is `update_item`, whose flag is false where it raises. `exists` says whether there is
-- an item with a key, `charges_of` is its number of charges.
pub record Table (S : Type 0) : Type 0 where
  pub update : Update → S → Bool × S
  pub transact : Put → Update → S → Transacted S
  pub exists : Text → S → Bool
  pub charges_of : Text → S → ℕ

abbrev pub idempotency_key : Text → Text
idempotency_key order_id = codes "IDEMPOTENCY#" ++ order_id

abbrev pub payment_key : Text → Text
payment_key order_id = codes "PAYMENT#" ++ order_id

unfoldable pub charge_update : Text → Decimal → Update
charge_update order_id amount = record {
  key = payment_key order_id;
  charges = 1;
  charged_total = amount;
}

unfoldable pub idempotency_put : Text → Text → Put
idempotency_put order_id message_id = record {
  key = idempotency_key order_id;
  message_id = message_id;
  condition = some attribute_not_exists;
}

pub data Charged : Type 0 where
  charged duplicate : Charged

-- `_charge`; `none` is an exception of the database.
unfoldable pub charge :
    {S : Type 0} → Table S → Bool → Text → Decimal → Text → S → Option Charged × S
charge db false order_id amount message_id s =
    let (succeeded, s') = db.update (charge_update order_id amount) s in
    (if succeeded then some charged else none, s')
charge db true order_id amount message_id s =
    elim (db.transact (idempotency_put order_id message_id) (charge_update order_id amount) s) [
      | committed s' ↦ (some charged, s')
      | condition_failed ↦ (some duplicate, s)
      | fails s' ↦ (none, s')
    ]

-- A record of the event, as `_sqs_record` of the gateway makes it.
pub record SqsRecord : Type 0 where
  pub message_id : Text
  pub body : Text

-- How a batch ends: the ids in `batchItemFailures`, or an exception that fails the invocation.
pub data Answer : Type 0 where
  failures : List Text → Answer
  raised : Answer

unfoldable pub report : Text → Answer → Answer
report id (failures ids) = failures (id ∷ ids)
report id raised = raised

unfoldable pub handler : {S : Type 0} → Reader → Table S → Bool → List SqsRecord → S → Answer × S
unfolding report
handler r db idempotent [] s = (failures [], s)
handler r db idempotent (x ∷ xs) s = elim (parse r x.body) [
  | crashes ↦ (raised, s)
  | invalid ↦ let (answer, s') = handler r db idempotent xs s in (report x.message_id answer, s')
  | payment order_id amount ↦
      let (outcome, s') = charge db idempotent order_id amount x.message_id s in
      elim outcome [ none ↦ (raised, s') | some _ ↦ handler r db idempotent xs s' ]
]

-- Successive invocations, redeliveries included.
unfoldable pub handle_batches :
    {S : Type 0} → Reader → Table S → Bool → List (List SqsRecord) → S → S
handle_batches r db idempotent [] s = s
handle_batches r db idempotent (xs ∷ batches) s =
    handle_batches r db idempotent batches (handler r db idempotent xs s).1

-- Whether the condition of a Put holds.
unfoldable pub allows : {S : Type 0} → Table S → Put → S → Bool
allows db p s = elim p.condition [
  | none ↦ true
  | some attribute_not_exists ↦ not (db.exists p.key s)
]

-- What a committed transaction does to the items: the condition of the Put held, its item is there, the
-- item of the Update has the charges that it adds, and no other item is touched.
pub record IsApplied {S : Type 0} (db : Table S) (p : Put) (u : Update) (s s' : S) : Type 0 where
  pub allowed : allows db p s ≡ true
  pub put : db.exists p.key s' ≡ true
  pub added : db.charges_of u.key s' ≡ db.charges_of u.key s + u.charges
  pub others :
      (k : Text)
      → text_eq p.key k ≡ false
      → text_eq u.key k ≡ false
      → (db.exists k s' ≡ db.exists k s) × (db.charges_of k s' ≡ db.charges_of k s)

-- What DynamoDB promises of a transaction: all of it happens or nothing does, and it is refused for the
-- condition only where that does not hold. One that raises may have been committed all the same.
pub record IsTable {S : Type 0} (db : Table S) : Type 0 where
  pub commits :
      (p : Put) (u : Update) (s s' : S) → db.transact p u s ≡ committed s' → IsApplied db p u s s'
  pub refused :
      (p : Put) (u : Update) (s : S) → db.transact p u s ≡ condition_failed → allows db p s ≡ false
  pub raises :
      (p : Put) (u : Update) (s s' : S)
      → db.transact p u s ≡ fails s'
      → (s' ≡ s) ⊎ IsApplied db p u s s'
