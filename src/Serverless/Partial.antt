-- ===== src/Serverless/Partial.antt =====
-- The partial batch response of the processor: which messages it reports, and what it has charged
-- when it answers.
use system_design_course.Common.{
  if◌then◌else◌, Option-cases, Text, ◌≡◌, refl, inl, inr, Bool, true, false, List, [], ◌∷◌, arith,
}
use system_design_course.Serverless.Processor.{
  Reader, Parsed, parse, Table, charge, SqsRecord, Answer, report, handler, invalid, failures,
  raised,
}
use system_design_course.Serverless.Once.{Parsed-cases}

unfoldable pub is_invalid : Parsed → Bool
is_invalid invalid = true
is_invalid _ = false

-- The ids of the messages whose payment is invalid, in the order of the batch.
unfoldable pub invalid_ids : Reader → List SqsRecord → List Text
invalid_ids r [] = []
invalid_ids r (x ∷ xs) =
    let rest = invalid_ids r xs in if is_invalid (parse r x.body) then x.message_id ∷ rest else rest

pub report-failures :
    (id : Text) (answer : Answer) (ids : List Text)
    → report id answer ≡ failures ids
    → (rest : List Text) × (answer ≡ failures rest) × (ids ≡ id ∷ rest)
unfolding report
report-failures id (failures rest) ids h = (rest, refl, ground (arith, h))
report-failures id raised ids h = absurd (cc h)

-- When the processor answers, `batchItemFailures` names just the messages with an invalid payment,
-- in the order of the batch, with idempotency on and off.
pub handler_reports_invalid :
    {S : Type 0} (r : Reader) (db : Table S) (idempotent : Bool) (xs : List SqsRecord) (s : S)
    (ids : List Text)
    → (handler r db idempotent xs s).0 ≡ failures ids
    → ids ≡ invalid_ids r xs
unfolding handler invalid_ids is_invalid
handler_reports_invalid r db idempotent [] s ids h = ground (arith, h)
handler_reports_invalid r db idempotent (x ∷ xs) s ids h = elim (Parsed-cases (parse r x.body)) [
  | inl (id, a, e) ↦
      let s' = (charge db idempotent id a x.message_id s).1 in
      elim (Option-cases (charge db idempotent id a x.message_id s).0) [
        | inl f ↦ absurd (ground (arith, e, f, h))
        | inr (c, f) ↦
            let later : (handler r db idempotent xs s').0 ≡ failures ids =
              ground (arith, e, f, h) in
            ground (arith, e, handler_reports_invalid r db idempotent xs s' ids later)
      ]
  | inr (inl e) ↦
      let reported : report x.message_id (handler r db idempotent xs s).0 ≡ failures ids =
        ground (arith, e, h) in
      let (rest, f, g) =
        report-failures x.message_id (handler r db idempotent xs s).0 ids reported in
      ground (arith, e, g, handler_reports_invalid r db idempotent xs s rest f)
  | inr (inr e) ↦ absurd (ground (arith, e, h))
]
