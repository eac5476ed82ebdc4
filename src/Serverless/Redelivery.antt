-- ===== src/Serverless/Redelivery.antt =====
-- A redelivery of a batch that the processor has answered changes nothing.
use mathlib.Core.Path.{subst}
use system_design_course.Common.{
  Bool-cases, Option-cases, Text, text_eq, text_eq_iff, ◌≡◌, refl, sym, ap, ◌∙◌, ◌⊎◌, inl, inr,
  true, some, List, [], ◌∷◌, arith,
}
use system_design_course.Serverless.Processor.{
  Decimal, Reader, Parsed, parse, Table, Charged, charge, SqsRecord, handler, IsTable, payment,
  invalid, crashes, failures,
}
use system_design_course.Serverless.Once.{Parsed-cases}
use system_design_course.Serverless.Transaction.{is_recorded, charge-cases}
use system_design_course.Serverless.Partial.{report-failures}

charge-recorded :
    {S : Type 0} (db : Table S) (laws : IsTable db) (id : Text) (a : Decimal) (m : Text) (s : S)
    (c : Charged)
    → (charge db true id a m s).0 ≡ some c
    → is_recorded db id (charge db true id a m s).1 ≡ true
charge-recorded db laws id a m s c h = elim (charge-cases db laws id a m s) [
  | inl done ↦ done.1
  | inr (same, inl e) ↦ absurd (cc (h, e))
  | inr (same, inr (there, e)) ↦ ap (is_recorded db id) same ∙ there
]

charge-keeps :
    {S : Type 0} (db : Table S) (laws : IsTable db) (id : Text) (a : Decimal) (m : Text) (s : S)
    (j : Text)
    → is_recorded db j s ≡ true
    → is_recorded db j (charge db true id a m s).1 ≡ true
charge-keeps db laws id a m s j k = elim (charge-cases db laws id a m s) [
  | inr (same, why) ↦ ap (is_recorded db j) same ∙ k
  | inl (before, after, one, others) ↦ elim (Bool-cases (text_eq id j)) [
    | inl f ↦
        subst (λ i. is_recorded db i (charge db true id a m s).1 ≡ true) ((text_eq_iff id j).0 f)
          after
    | inr f ↦ (others j f).0 ∙ k
  ]
]

handler-keeps :
    {S : Type 0} (r : Reader) (db : Table S) (laws : IsTable db) (xs : List SqsRecord) (s : S)
    (j : Text)
    → is_recorded db j s ≡ true
    → is_recorded db j (handler r db true xs s).1 ≡ true
unfolding handler
handler-keeps r db laws [] s j h = h
handler-keeps r db laws (x ∷ xs) s j h = elim (Parsed-cases (parse r x.body)) [
  | inl (id, a, e) ↦
      let s' = (charge db true id a x.message_id s).1 in
      let now = charge-keeps db laws id a x.message_id s j h in
      elim (Option-cases (charge db true id a x.message_id s).0) [
        | inl f ↦ ground (arith, e, f, now)
        | inr (c, f) ↦ ground (arith, e, f, handler-keeps r db laws xs s' j now)
      ]
  | inr (inl e) ↦ ground (arith, e, handler-keeps r db laws xs s j h)
  | inr (inr e) ↦ ground (arith, e, h)
]

-- The idempotency record of a payment is there.
IsCharged : {S : Type 0} → Table S → S → Parsed → Type 0
IsCharged db s (payment id a) = is_recorded db id s ≡ true
IsCharged db s invalid = Unit
IsCharged db s crashes = ⊥

AllCharged : {S : Type 0} → Reader → Table S → S → List SqsRecord → Type 0
unfolding IsCharged
AllCharged r db s [] = Unit
AllCharged r db s (x ∷ xs) = IsCharged db s (parse r x.body) × AllCharged r db s xs

payment-IsCharged :
    {S : Type 0} (db : Table S) (s : S) (p : Parsed) (id : Text) (a : Decimal)
    → p ≡ payment id a
    → is_recorded db id s ≡ true
    → IsCharged db s p
unfolding IsCharged
payment-IsCharged db s p id a e h = subst (λ q. IsCharged db s q) (sym e) h

invalid-IsCharged :
    {S : Type 0} (db : Table S) (s : S) (p : Parsed) → p ≡ invalid → IsCharged db s p
unfolding IsCharged
invalid-IsCharged db s p e = subst (λ q. IsCharged db s q) (sym e) tt

-- What the processor does with the first message of a batch that it answers.
First : {S : Type 0} → Reader → Table S → SqsRecord → S → S → Type 0
First r db x s s' =
    ((id : Text) × (a : Decimal) × (c : Charged) × (parse r x.body ≡ payment id a)
      × ((charge db true id a x.message_id s).0 ≡ some c)
      × ((charge db true id a x.message_id s).1 ≡ s'))
    ⊎ ((parse r x.body ≡ invalid) × (s ≡ s'))

handler-First :
    {S : Type 0} (r : Reader) (db : Table S) (x : SqsRecord) (xs : List SqsRecord) (s : S)
    (ids : List Text)
    → (handler r db true (x ∷ xs) s).0 ≡ failures ids
    → (s' : S) × (rest : List Text) × First r db x s s'
      × ((handler r db true xs s').0 ≡ failures rest)
      × ((handler r db true (x ∷ xs) s).1 ≡ (handler r db true xs s').1)
unfolding handler First
handler-First r db x xs s ids h = elim (Parsed-cases (parse r x.body)) [
  | inl (id, a, e) ↦ elim (Option-cases (charge db true id a x.message_id s).0) [
    | inl f ↦ absurd (ground (arith, e, f, h))
    | inr (c, f) ↦ (
      (charge db true id a x.message_id s).1,
      ids,
      inl (id, a, c, e, f, refl),
      ground (arith, e, f, h),
      ground (arith, e, f),
    )
  ]
  | inr (inl e) ↦
      let (rest, f, g) =
        report-failures x.message_id (handler r db true xs s).0 ids (ground (arith, e, h)) in
      (s, rest, inr (e, refl), f, ground (arith, e))
  | inr (inr e) ↦ absurd (ground (arith, e, h))
]

handler-AllCharged :
    {S : Type 0} (r : Reader) (db : Table S) (laws : IsTable db) (xs : List SqsRecord) (s : S)
    (ids : List Text)
    → (handler r db true xs s).0 ≡ failures ids
    → AllCharged r db (handler r db true xs s).1 xs
unfolding AllCharged First
handler-AllCharged r db laws [] s ids h = tt
handler-AllCharged r db laws (x ∷ xs) s ids h =
    let (s', rest, first, later, end_state) = handler-First r db x xs s ids h in
    let ih = handler-AllCharged r db laws xs s' rest later in
    subst (λ u. IsCharged db u (parse r x.body) × AllCharged r db u xs) (sym end_state)
      (
        elim first [
          | inl (id, a, c, e, f, same) ↦
              payment-IsCharged db (handler r db true xs s').1 (parse r x.body) id a e (
                handler-keeps r db laws xs s' id (
                  subst (λ u. is_recorded db id u ≡ true) same
                    (charge-recorded db laws id a x.message_id s c f)))
          | inr (e, same) ↦ invalid-IsCharged db (handler r db true xs s').1 (parse r x.body) e
        ],
        ih,
      )

recorded_charge :
    {S : Type 0} (db : Table S) (laws : IsTable db) (id : Text) (a : Decimal) (m : Text) (s : S)
    → is_recorded db id s ≡ true
    → (charge db true id a m s).1 ≡ s
recorded_charge db laws id a m s h = elim (charge-cases db laws id a m s) [
  | inl done ↦ absurd (cc (h, done.0))
  | inr (same, why) ↦ same
]

charged_batch-unchanged :
    {S : Type 0} (r : Reader) (db : Table S) (laws : IsTable db) (xs : List SqsRecord) (s : S)
    → AllCharged r db s xs
    → (handler r db true xs s).1 ≡ s
unfolding handler AllCharged IsCharged
charged_batch-unchanged r db laws [] s h = refl
charged_batch-unchanged r db laws (x ∷ xs) s h = elim (Parsed-cases (parse r x.body)) [
  | inl (id, a, e) ↦
      let there : is_recorded db id s ≡ true = subst (λ p. IsCharged db s p) e h.0 in
      let same = recorded_charge db laws id a x.message_id s there in
      let rest = charged_batch-unchanged r db laws xs s h.1 in
      elim (Option-cases (charge db true id a x.message_id s).0) [
        | inl f ↦ ground (arith, e, f, same)
        | inr (c, f) ↦ ground (arith, e, f, same, rest)
      ]
  | inr (inl e) ↦ ground (arith, e, charged_batch-unchanged r db laws xs s h.1)
  | inr (inr e) ↦ ground (arith, e)
]

-- With idempotency on, a batch that the processor has answered can be delivered again: the table
-- stays as it is, whether or not the database raises then. The table is assumed to do all of a
-- transaction or nothing, and only where the condition of its Put holds.
pub redelivery-unchanged :
    {S : Type 0} (r : Reader) (db : Table S) (laws : IsTable db) (xs : List SqsRecord) (s : S)
    (ids : List Text)
    → (handler r db true xs s).0 ≡ failures ids
    → (handler r db true xs (handler r db true xs s).1).1 ≡ (handler r db true xs s).1
redelivery-unchanged r db laws xs s ids h =
    charged_batch-unchanged r db laws xs (handler r db true xs s).1
      (handler-AllCharged r db laws xs s ids h)
