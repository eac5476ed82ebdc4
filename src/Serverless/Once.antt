-- ===== src/Serverless/Once.antt =====
-- Charging each order once, over batches, redeliveries and crashes of the processor.
use mathlib.Core.Path.{subst}
use system_design_course.Common.{
  if◌then◌else◌, Bool-cases, Option-cases, Text, text_eq, text_eq_iff, ◌+◌, ◌≡◌, refl, sym, ◌⊎◌,
  inl, inr, true, List, [], ◌∷◌, arith,
}
use system_design_course.Serverless.Transaction.{charges, is_recorded, charge-cases}
use system_design_course.Serverless.Processor.{
  Decimal, Reader, Parsed, parse, Table, charge, SqsRecord, handler, handle_batches, IsTable,
  payment, invalid, crashes,
}

pub Parsed-cases :
    (p : Parsed)
    → ((id : Text) × (a : Decimal) × (p ≡ payment id a)) ⊎ ((p ≡ invalid) ⊎ (p ≡ crashes))
Parsed-cases (payment id a) = inl (id, a, refl)
Parsed-cases invalid = inr (inl refl)
Parsed-cases crashes = inr (inr refl)

-- From one state to a later one, an order has one charge more if its idempotency record was put in
-- between, and else as many as before.
abbrev pub IsOnce : {S : Type 0} → Table S → Text → S → S → Type 0
IsOnce db j s s' =
    charges db j s' + (if is_recorded db j s then 1 else 0)
    ≡ charges db j s + (if is_recorded db j s' then 1 else 0)

charge-IsOnce :
    {S : Type 0} (db : Table S) (laws : IsTable db) (id : Text) (a : Decimal) (m : Text) (s : S)
    (j : Text)
    → IsOnce db j s (charge db true id a m s).1
charge-IsOnce db laws id a m s j = elim (charge-cases db laws id a m s) [
  | inr (same, why) ↦ subst (IsOnce db j s) (sym same) refl
  | inl (before, after, one, others) ↦ elim (Bool-cases (text_eq id j)) [
    | inl e ↦
        let same : id ≡ j = (text_eq_iff id j).0 e in
        subst (λ k. IsOnce db k s (charge db true id a m s).1) same
          (ground (arith, before, after, one))
    | inr e ↦ ground (arith, others j e)
  ]
]

handler-IsOnce :
    {S : Type 0} (r : Reader) (db : Table S) (laws : IsTable db) (xs : List SqsRecord) (s : S)
    (j : Text)
    → IsOnce db j s (handler r db true xs s).1
unfolding handler
handler-IsOnce r db laws [] s j = refl
handler-IsOnce r db laws (x ∷ xs) s j = elim (Parsed-cases (parse r x.body)) [
  | inl (id, a, e) ↦
      let s' = (charge db true id a x.message_id s).1 in
      let now = charge-IsOnce db laws id a x.message_id s j in
      elim (Option-cases (charge db true id a x.message_id s).0) [
        | inl f ↦ ground (arith, e, f, now)
        | inr (c, f) ↦ ground (arith, e, f, now, handler-IsOnce r db laws xs s' j)
      ]
  | inr (inl e) ↦ ground (arith, e, handler-IsOnce r db laws xs s j)
  | inr (inr e) ↦ ground (arith, e)
]

-- With idempotency on, over any series of batches, with redeliveries, invalid payments, crashes and
-- database errors, also where a transaction that raises was committed, an order gets one charge if its
-- idempotency record was put in the course of them, and else none: it is never charged twice. The table
-- is assumed to do all of a transaction or nothing, and only where the condition of its Put holds.
pub handle_batches-IsOnce :
    {S : Type 0} (r : Reader) (db : Table S) (laws : IsTable db) (batches : List (List SqsRecord))
    (s : S) (j : Text)
    → IsOnce db j s (handle_batches r db true batches s)
unfolding handle_batches
handle_batches-IsOnce r db laws [] s j = refl
handle_batches-IsOnce r db laws (xs ∷ batches) s j = ground (
  arith,
  handler-IsOnce r db laws xs s j,
  handle_batches-IsOnce r db laws batches (handler r db true xs s).1 j,
)
