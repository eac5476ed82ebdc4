-- ===== src/Serverless/Tests.antt =====
-- Runs of the model of the serverless functions at concrete inputs, and each theorem at an input that
-- meets its hypotheses, with a table in memory.
use system_design_course.Common.{
  if◌then◌else◌, Text, codes, text_eq, text_eq_self, strip, ℕ, ◌+◌, ◌≡◌, refl, inl, Bool, true,
  false, not, ◌||◌, Option, none, some, List, [], ◌∷◌, arith,
}
use system_design_course.Common.Json.{get_field, num, str, obj, end, field}
use system_design_course.Serverless.Processor.{
  is_chargeable, Reader, parse_amount, parse_fields, is_crash, parse, Put, Update, Transacted,
  Table, charge_update, idempotency_put, charge, SqsRecord, handler, handle_batches, allows,
  IsApplied, IsTable, finite, attribute_not_exists, committed, condition_failed, fails, failures,
}
use system_design_course.Serverless.Once.{IsOnce, handle_batches-IsOnce}
use system_design_course.Serverless.Partial.{invalid_ids, handler_reports_invalid}
use system_design_course.Serverless.Orders.{Event, Item, Store, Context}
use system_design_course.Serverless.Redelivery.{redelivery-unchanged}

record Memory : Type 0 where
  has : Text → Bool
  charge_count : Text → ℕ

-- Two actions on one item are refused, as DynamoDB does.
abbrev write_both : Put → Update → Memory → Transacted Memory
write_both p u s =
    let allowed : Bool = elim p.condition [
      | none ↦ true
      | some attribute_not_exists ↦ not (s.has p.key)
    ] in
    if text_eq p.key u.key
    then fails s
    else if not allowed
    then condition_failed
    else committed (record {
      has = λ k. text_eq p.key k || (text_eq u.key k || s.has k);
      charge_count = λ k.
          if text_eq u.key k
          then s.charge_count k + u.charges
          else if text_eq p.key k
          then 0
          else s.charge_count k;
    })

abbrev memory : Table Memory
memory = record {
  update = λ u s. (
    true,
    record {
      has = λ k. text_eq u.key k || s.has k;
      charge_count =
          λ k. if text_eq u.key k then s.charge_count k + u.charges else s.charge_count k;
    },
  );
  transact = λ p u s. write_both p u s;
  exists = λ k s. s.has k;
  charges_of = λ k s. s.charge_count k;
}

applied_lem :
    (p : Put) (u : Update) (s s' : Memory)
    → write_both p u s ≡ committed s'
    → IsApplied memory p u s s'
unfolding allows
applied_lem p u s s' h = record {
  allowed = ground (arith, h);
  put = ground (arith, h, text_eq_self p.key);
  added = ground (arith, h, text_eq_self u.key);
  others = λ k e f. (ground (arith, h, e, f), ground (arith, h, e, f));
}

memory-IsTable : IsTable memory
unfolding allows
memory-IsTable = record {
  commits = applied_lem;
  refused = λ p u s h. ground (arith, h);
  raises = λ p u s s' h. inl (ground (arith, h));
}

-- A body is an order id; every amount is 25.00, but the body "bad" is no JSON.
abbrev reader : Reader
reader = record {
  loads = λ t.
      if text_eq t (codes "bad")
      then none
      else some (obj (field (codes "order_id") (str t) (field (codes "amount") (num 25) end)));
  decimal = λ v. some (finite false 2500 2);
}

abbrev mixed_records : List SqsRecord
mixed_records =
    record { message_id = codes "m1"; body = codes "A" }
    ∷ record { message_id = codes "m2"; body = codes "bad" }
    ∷ record { message_id = codes "m3"; body = codes "A" }
    ∷ []

abbrev nothing : Memory
nothing = record { has = λ k. false; charge_count = λ k. 0 }

mixed_answered : (handler reader memory true mixed_records nothing).0 ≡ failures (codes "m2" ∷ [])
unfolding handler parse text_eq is_crash get_field parse_fields strip parse_amount is_chargeable
    charge charge_update idempotency_put
mixed_answered = refl

handle_batches-IsOnce_example :
    IsOnce memory
      (codes "A")
      nothing
      (handle_batches reader memory true (mixed_records ∷ mixed_records ∷ []) nothing)
handle_batches-IsOnce_example =
    handle_batches-IsOnce reader memory memory-IsTable (mixed_records ∷ mixed_records ∷ []) nothing
      (codes "A")

handler_reports_invalid_example : codes "m2" ∷ [] ≡ invalid_ids reader mixed_records
handler_reports_invalid_example =
    handler_reports_invalid reader memory true mixed_records nothing (codes "m2" ∷ [])
      mixed_answered

redelivery-unchanged_example :
    (handler reader memory true mixed_records
      (handler reader memory true mixed_records nothing).1).1
    ≡ (handler reader memory true mixed_records nothing).1
redelivery-unchanged_example =
    redelivery-unchanged reader memory memory-IsTable mixed_records nothing (codes "m2" ∷ [])
      mixed_answered

-- Every put, the last one first; a read gives the last put of its key.
versions_of : Text → List (Text × Item) → List (Option Item)
versions_of k [] = none ∷ []
versions_of k ((j, v) ∷ puts) =
    let rest = versions_of k puts in if text_eq j k then some v ∷ rest else rest

abbrev latest : List (Option Item) → Option Item
latest [] = none
latest (v ∷ vs) = v

abbrev orders_table : Store (List (Text × Item))
orders_table = record {
  put_item = λ k v s. (k, v) ∷ s;
  get_item = λ k s. latest (versions_of k s);
  add_visit = λ s. (1, s);
}

abbrev context : Context
context = record {
  reader = record {
    loads = λ _.
        some
          (obj (field (codes "item") (str (codes "book")) (field (codes "amount") (num 12) end)));
    decimal = λ v. some (finite false 125 1);
  };
  show = λ v. codes "book";
  new_digits = codes "0a1b2c3d";
  environment = codes "env-1";
}

abbrev posted : Event
posted = record {
  route_key = codes "POST /orders";
  path_parameters = [];
  method = codes "POST";
  raw_path = codes "/orders";
  body = some (codes "an order");
}

-- The route of this one comes from its path.
abbrev asked : Event
asked = record {
  route_key = codes "$default";
  path_parameters = [];
  method = codes "GET";
  raw_path = codes "/orders/ORD-0a1b2c3d/";
  body = none;
}
