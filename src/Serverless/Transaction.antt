-- ===== src/Serverless/Transaction.antt =====
-- What the transaction of functions/processor/app.py does to the items of each order.
use system_design_course.Common.{
  Text, text_eq, ℕ, ◌+◌, ◌≡◌, refl, ◌∙◌, ◌⊎◌, inl, inr, Bool, true, false, none, some, arith,
}
use system_design_course.Serverless.Processor.{
  Decimal, Transacted, Table, idempotency_key, payment_key, charge_update, idempotency_put, charge,
  allows, IsApplied, IsTable, committed, condition_failed, fails, duplicate,
}

-- The number of charges of an order, and whether its idempotency record is there.
module _ {S : Type 0} (db : Table S) where
  abbrev pub charges : Text → S → ℕ
  charges order_id s = db.charges_of (payment_key order_id) s

  abbrev pub is_recorded : Text → S → Bool
  is_recorded order_id s = db.exists (idempotency_key order_id) s

-- One charge and the record of an order that had no record, and nothing of another order.
abbrev pub IsCharge : {S : Type 0} → Table S → Text → S → S → Type 0
IsCharge db id s s' =
    (is_recorded db id s ≡ false)
    × (is_recorded db id s' ≡ true)
    × (charges db id s' ≡ charges db id s + 1)
    × ((j : Text)
        → text_eq id j ≡ false
        → (is_recorded db j s' ≡ is_recorded db j s) × (charges db j s' ≡ charges db j s))

Transacted-cases :
    {S : Type 0} (t : Transacted S)
    → ((s : S) × (t ≡ committed s)) ⊎ (t ≡ condition_failed) ⊎ ((s : S) × (t ≡ fails s))
Transacted-cases (committed s) = inl (s, refl)
Transacted-cases condition_failed = inr (inl refl)
Transacted-cases (fails s) = inr (inr (s, refl))

idempotency_keys : (a b : Text) → text_eq (idempotency_key a) (idempotency_key b) ≡ text_eq a b
unfolding text_eq
idempotency_keys a b = refl

payment_keys : (a b : Text) → text_eq (payment_key a) (payment_key b) ≡ text_eq a b
unfolding text_eq
payment_keys a b = refl

keys_apart :
    (a b : Text)
    → (text_eq (idempotency_key a) (payment_key b) ≡ false)
      × (text_eq (payment_key b) (idempotency_key a) ≡ false)
unfolding text_eq
keys_apart a b = (refl, refl)

applied-IsCharge :
    {S : Type 0} (db : Table S) (id : Text) (a : Decimal) (m : Text) (s s' : S)
    → IsApplied db (idempotency_put id m) (charge_update id a) s s'
    → IsCharge db id s s'
unfolding idempotency_put charge_update allows
applied-IsCharge db id a m s s' h = (
  ground (arith, h.allowed),
  h.put,
  h.added,
  (λ j e. (
    (h.others (idempotency_key j) (idempotency_keys id j ∙ e) ((keys_apart j id).1)).0,
    (h.others (payment_key j) ((keys_apart id j).0) (payment_keys id j ∙ e)).1,
  )),
)

refused_record :
    {S : Type 0} (db : Table S) (laws : IsTable db) (id : Text) (a : Decimal) (m : Text) (s : S)
    → db.transact (idempotency_put id m) (charge_update id a) s ≡ condition_failed
    → is_recorded db id s ≡ true
unfolding allows idempotency_put
refused_record db laws id a m s e =
    ground (arith, laws.refused (idempotency_put id m) (charge_update id a) s e)

-- A charge with idempotency on has charged an order without a record, or it has changed nothing: then
-- it raised, or the record was there.
pub charge-cases :
    {S : Type 0} (db : Table S) (laws : IsTable db) (id : Text) (a : Decimal) (m : Text) (s : S)
    → IsCharge db id s (charge db true id a m s).1
      ⊎ (((charge db true id a m s).1 ≡ s)
          × (((charge db true id a m s).0 ≡ none)
              ⊎ ((is_recorded db id s ≡ true) × ((charge db true id a m s).0 ≡ some duplicate))))
unfolding charge
charge-cases db laws id a m s =
    elim (Transacted-cases (db.transact (idempotency_put id m) (charge_update id a) s)) [
      | inl (t, e) ↦
          rw (e, charge)
            (inl (
              applied-IsCharge db id a m s t
                (laws.commits (idempotency_put id m) (charge_update id a) s t e)))
      | inr (inl e) ↦ rw (e, charge) (inr (refl, inr (refused_record db laws id a m s e, refl)))
      | inr (inr (t, e)) ↦
          rw (e, charge)
            (elim (laws.raises (idempotency_put id m) (charge_update id a) s t e) [
              | inl same ↦ inr (same, inl refl)
              | inr done ↦ inl (applied-IsCharge db id a m s t done)
            ])
    ]
