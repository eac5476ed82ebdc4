-- ===== src/Messaging/Tests.antt =====
-- Runs of the model of the messaging lab at concrete inputs, and each theorem at an input that meets
-- its hypotheses.
use system_design_course.Common.{
  length, codes, text_eq, lookup, ℕ, ◌+◌, ◌≡◌, refl, inl, true, false, none, some, [], ◌∷◌, arith,
}
use system_design_course.Common.Json.{field, end, str, obj, bool, Fields, get_field, truthy}
use system_design_course.Messaging.Worker.{
  Outside, Delivery, on_message, retry_later, parse_order, is_poison, attempt_of,
}
use system_design_course.Messaging.Payment.{
  Order, Payment, Run, consume, run_all, empty_ledger, handle, charge, insert_charge, is_processed,
  is_id, drained, no_crash, after_charge,
}
use system_design_course.Messaging.Exactly.{
  charge_count, expected, run_all-expected, empty-expected,
}
use system_design_course.Messaging.Drained.{drained_run-charge_count}
use system_design_course.Messaging.Redelivered.{delivered_count, plain_run-charge_count}
use system_design_course.Messaging.Retry.{settled, on_message-settled}
use system_design_course.Messaging.Lifecycle.{copies, life, rejected, life-published}

abbrev order : Order
order = record { order_id = some (codes "ORD-1"); amount = some 1750 }

abbrev delivery : ℕ → Payment
delivery tag = record { delivery_tag = tag; message_id = some (codes "m1"); order = some order }

-- A run that dies between the charge and the acknowledgement.
abbrev crashing : Run
crashing = record { auto_ack = false; crash = after_charge; deliveries = delivery 1 ∷ [] }

-- The redelivery, twice, to a run without a crash.
abbrev redelivered : Run
redelivered = record {
  auto_ack = false;
  crash = no_crash;
  deliveries = delivery 1 ∷ delivery 2 ∷ [];
}

-- Without `--idempotent` the order is charged once more for each delivery.
double_charge : length (run_all false (crashing ∷ redelivered ∷ []) empty_ledger).charges ≡ 3
unfolding run_all consume handle charge insert_charge
double_charge = refl

run_all-expected_example :
    charge_count (codes "m1") (run_all true (crashing ∷ redelivered ∷ []) empty_ledger).charges
    ≡ expected (codes "m1") (run_all true (crashing ∷ redelivered ∷ []) empty_ledger)
run_all-expected_example =
    run_all-expected (crashing ∷ redelivered ∷ []) empty_ledger (codes "m1")
      (empty-expected (codes "m1"))

redelivered_drained :
    (consume false true no_crash redelivered.deliveries
      (run_all true (crashing ∷ []) empty_ledger)).2
    ≡ drained
unfolding run_all consume handle charge insert_charge is_processed is_id text_eq
redelivered_drained = refl

drained_run-charge_count_example :
    charge_count
      (codes "m1")
      (consume false true no_crash redelivered.deliveries
        (run_all true (crashing ∷ []) empty_ledger)).0.charges
    ≡ 1
drained_run-charge_count_example =
    drained_run-charge_count (crashing ∷ []) redelivered (delivery 1) (codes "m1") (inl refl) refl
      redelivered_drained

plain_drained : (consume false false no_crash redelivered.deliveries empty_ledger).2 ≡ drained
unfolding consume handle charge insert_charge
plain_drained = refl

plain_run-charge_count_example :
    charge_count
      (codes "m1")
      (consume false false no_crash redelivered.deliveries empty_ledger).0.charges
    ≡ charge_count (codes "m1") [] + delivered_count (codes "m1") redelivered.deliveries
plain_run-charge_count_example =
    plain_run-charge_count false no_crash redelivered.deliveries empty_ledger (codes "m1")
      plain_drained

abbrev poison_order : Fields
poison_order =
    field (codes "order_id") (str (codes "ORD-7")) (field (codes "poison") (bool true) end)

abbrev outside : Outside
outside = record { loads = λ _. some (obj poison_order); parse_int = λ _. none; confirms = true }

abbrev first : Delivery
first = record {
  delivery_tag = 4;
  properties = record {
    content_type = some (codes "application/json");
    delivery_mode = some 2;
    message_id = some (codes "ORD-7");
    headers = none;
  };
  body = codes "order 7";
}

retried_once : on_message outside first 5 ≡ some (retry_later outside first 1, 5)
unfolding on_message parse_order is_poison attempt_of get_field text_eq truthy lookup
retried_once = refl

on_message-settled_example : settled (retry_later outside first 1) ≡ 4 ∷ []
on_message-settled_example =
    on_message-settled outside first 5 (retry_later outside first 1) 5 retried_once

-- Two copies, and then the dead letter queue.
poison_parsed :
    (parse_order outside first.body ≡ some poison_order)
    × (is_poison poison_order ≡ true)
    × (attempt_of outside first.properties ≡ some 1)
unfolding parse_order is_poison attempt_of get_field text_eq truthy lookup
poison_parsed = (refl, refl, refl)

life-published_example : (copies (life 3 outside first) ≡ 2) × (rejected (life 3 outside first) ≡ 1)
life-published_example =
    life-published 2 3 outside first poison_order 1 poison_parsed.0 poison_parsed.1 refl
      poison_parsed.2 refl (omega arith)
