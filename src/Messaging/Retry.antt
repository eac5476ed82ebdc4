-- ===== src/Messaging/Retry.antt =====
-- What worker.py promises of each message: one settling call, a confirmed copy before the original
-- is acknowledged, and a bound on the attempts.
use mathlib.Core.Path.{subst}
use system_design_course.Common.{
  ltb, Bool-cases, Option-cases, ℕ, ◌+◌, ◌≤◌, ◌<◌, ◌≡◌, refl, inl, inr, true, false, none, some,
  List, [], ◌∷◌, arith,
}
use system_design_course.Common.Json.{Fields}
use system_design_course.Messaging.Worker.{
  Delivery, Call, max_attempts, Outside, parse_order, is_poison, attempt_of, retry_later,
  on_message, basic_publish, basic_ack, basic_nack_requeue, basic_reject,
}

-- The tags that a list of calls settles.
unfoldable pub settled : List Call → List ℕ
settled [] = []
settled (basic_publish exchange key props confirmed ∷ cs) = settled cs
settled (basic_ack tag ∷ cs) = tag ∷ settled cs
settled (basic_nack_requeue tag ∷ cs) = tag ∷ settled cs
settled (basic_reject tag ∷ cs) = tag ∷ settled cs

retry_later-settled :
    (o : Outside) (d : Delivery) (a : ℕ) → settled (retry_later o d a) ≡ d.delivery_tag ∷ []
unfolding settled retry_later
retry_later-settled o d a = elim (Bool-cases o.confirms) [
  | inl e ↦ ground (arith, e)
  | inr e ↦ ground (arith, e)
]

-- What the handler does, by its branches.
data Handled (o : Outside) (d : Delivery) (n : ℕ) : List Call → ℕ → Type 0 where
  unreadable : parse_order o d.body ≡ none → Handled o d n (basic_reject d.delivery_tag ∷ []) n
  worked :
      (order : Fields)
      → parse_order o d.body ≡ some order
      → is_poison order ≡ false
      → Handled o d n (basic_ack d.delivery_tag ∷ []) (n + 1)
  retried :
      (order : Fields) (a : ℕ)
      → parse_order o d.body ≡ some order
      → is_poison order ≡ true
      → attempt_of o d.properties ≡ some a
      → a < max_attempts
      → Handled o d n (retry_later o d a) n
  dropped :
      (order : Fields) (a : ℕ)
      → parse_order o d.body ≡ some order
      → is_poison order ≡ true
      → attempt_of o d.properties ≡ some a
      → max_attempts ≤ a
      → Handled o d n (basic_reject d.delivery_tag ∷ []) n

Handled-eq :
    (o : Outside) (d : Delivery) (n : ℕ) (cs : List Call) (n' : ℕ) {cs' : List Call} {m : ℕ}
    → cs' ≡ cs
    → m ≡ n'
    → Handled o d n cs' m
    → Handled o d n cs n'
Handled-eq o d n cs n' {m = m} e f h =
    subst (λ k. Handled o d n cs k) f (subst (λ l. Handled o d n l m) e h)

handle_order-Handled :
    (o : Outside) (d : Delivery) (n : ℕ) (order : Fields) (a : ℕ) (cs : List Call) (n' : ℕ)
    → parse_order o d.body ≡ some order
    → attempt_of o d.properties ≡ some a
    → on_message o d n ≡ some (cs, n')
    → Handled o d n cs n'
unfolding on_message
handle_order-Handled o d n order a cs n' e f h = elim (Bool-cases (is_poison order)) [
  | inl p ↦ elim (Bool-cases (ltb a max_attempts)) [
    | inl l ↦
        Handled-eq o d n cs n' (ground (arith, e, f, h, p, l)) (ground (arith, e, f, h, p, l))
          (retried order a e p f (ground (arith, l)))
    | inr l ↦
        Handled-eq o d n cs n' (ground (arith, e, f, h, p, l)) (ground (arith, e, f, h, p, l))
          (dropped order a e p f (ground (arith, l)))
  ]
  | inr p ↦
      Handled-eq o d n cs n' (ground (arith, e, f, h, p)) (ground (arith, e, f, h, p))
        (worked order e p)
]

-- Whenever the handler of a message returns, the message was unreadable and rejected, or processed,
-- acknowledged and counted, or poison below the last attempt and retried, or poison at the last
-- attempt and rejected.
on_message-Handled :
    (o : Outside) (d : Delivery) (n : ℕ) (cs : List Call) (n' : ℕ)
    → on_message o d n ≡ some (cs, n')
    → Handled o d n cs n'
unfolding on_message
on_message-Handled o d n cs n' h = elim (Option-cases (parse_order o d.body)) [
  | inl e ↦ Handled-eq o d n cs n' (ground (arith, e, h)) (ground (arith, e, h)) (unreadable e)
  | inr (order, e) ↦ elim (Option-cases (attempt_of o d.properties)) [
    | inl f ↦ absurd (ground (arith, e, f, h))
    | inr (a, f) ↦ handle_order-Handled o d n order a cs n' e f h
  ]
]

Handled-settled :
    (o : Outside) (d : Delivery) (n : ℕ) (cs : List Call) (n' : ℕ)
    → Handled o d n cs n'
    → settled cs ≡ d.delivery_tag ∷ []
unfolding settled
Handled-settled o d n cs n' (unreadable e) = refl
Handled-settled o d n cs n' (worked order e p) = refl
Handled-settled o d n cs n' (retried order a e p f l) = retry_later-settled o d a
Handled-settled o d n cs n' (dropped order a e p f l) = refl

-- Every message that the handler returns from is settled by exactly one call, with its own tag.
pub on_message-settled :
    (o : Outside) (d : Delivery) (n : ℕ) (cs : List Call) (n' : ℕ)
    → on_message o d n ≡ some (cs, n')
    → settled cs ≡ d.delivery_tag ∷ []
on_message-settled o d n cs n' h = Handled-settled o d n cs n' (on_message-Handled o d n cs n' h)
