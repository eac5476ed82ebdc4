-- ===== src/Gateway/Outcomes.antt =====
-- How an invocation of gateway.py ends: the environment is given back on every path, and status and
-- error tell the paths apart.
use mathlib.Core.Path.{subst}
use system_design_course.Common.{
  Text, text_eq_self, ℕ, ◌≡◌, refl, ap, ◌∙◌, Bool, true, false, some, List, [], ◌∷◌, arith,
}
use system_design_course.Gateway.Pool.{
  Pool, contains, addresses, Turn, acquire_turn, acquire, discard, release, name, no_environment,
  granted, busy_all,
}
use system_design_course.Gateway.Invoke.{
  Codec, Response, Invocation, World, is_function_error, no_container, throttled, outcome_of,
  run_on, after_turn, invoke, unreachable, answered,
}
use system_design_course.Gateway.Exclusion.{Promise, acquire_turn-Promise, busy-name}

discard_missing : (a : Text) (xs : List Text) → contains a xs ≡ false → discard a xs ≡ xs
unfolding discard contains
discard_missing a [] h = refl
discard_missing a (x ∷ xs) h = ground (arith, discard_missing a xs)

discard_first : (a : Text) (xs : List Text) → contains a xs ≡ false → discard a (a ∷ xs) ≡ xs
unfolding discard
discard_first a xs h = ground (arith, discard_missing a xs h, text_eq_self a)

release_first :
    (a : Text) (p : Pool) (busy : List Text)
    → p.busy ≡ a ∷ busy
    → contains a busy ≡ false
    → (release a p).busy ≡ busy
unfolding release
release_first a p busy e free = ap (discard a) e ∙ discard_first a busy free

after_turn_restores :
    (codec : Codec) (w : World) (function payload : Text) (found : List Text) (p : Pool)
    (turn : Turn) (p' : Pool)
    → ((r : Pool) → (w.others r).busy ≡ r.busy)
    → Promise found p.busy (turn, p')
    → (result : Invocation) × (q : Pool) × (after_turn codec w function payload false turn p'
        ≡ some (result, q))
      × (q.busy ≡ p.busy)
unfolding after_turn run_on
after_turn_restores codec w function payload found p no_environment p' quiet h =
    (no_container codec function, p', refl, h.1)
after_turn_restores codec w function payload found p (busy_all n) p' quiet h =
    (throttled codec function, p', refl, h.2)
after_turn_restores codec w function payload found p (granted a n) p' quiet h =
    let (host, named) = name w.resolved a p' in
    (
      outcome_of codec function host w.duration (w.exchange a payload),
      release a (w.others named),
      refl,
      release_first a (w.others named) p.busy (quiet named ∙ busy-name w.resolved a p' ∙ h.3) h.0,
    )

-- An invocation that does not wait always ends. It gives back the environment that it reserved,
-- also when the exchange fails, if other threads leave the busy set alone meanwhile.
pub invoke_restores :
    (codec : Codec) (w : World) (function payload : Text) (p : Pool)
    → ((r : Pool) → (w.others r).busy ≡ r.busy)
    → (result : Invocation) × (p' : Pool) × (invoke codec w function payload false p
        ≡ some (result, p'))
      × (p'.busy ≡ p.busy)
unfolding invoke acquire
invoke_restores codec w function payload p quiet =
    after_turn_restores codec w function payload (addresses w.dns p).0 p (acquire_turn w.dns p).0
      (acquire_turn w.dns p).1 quiet (acquire_turn-Promise w.dns p).0

outcome_success :
    (codec : Codec) (function host : Text) (duration : ℕ) (response : Response)
    → (outcome_of codec function host duration response).error ≡ []
    → (response ≡ answered 200 (outcome_of codec function host duration response).payload)
      × (is_function_error codec (outcome_of codec function host duration response).payload ≡ false)
unfolding outcome_of
outcome_success codec function host duration (unreachable message) h = absurd (cc h)
outcome_success codec function host duration (answered status payload) h = ground arith

after_turn_success :
    (codec : Codec) (w : World) (function payload : Text) (wait : Bool) (turn : Turn) (p p' : Pool)
    (result : Invocation)
    → after_turn codec w function payload wait turn p ≡ some (result, p')
    → result.error ≡ []
    → (a : Text) × (w.exchange a payload ≡ answered 200 result.payload)
      × (is_function_error codec result.payload ≡ false)
unfolding after_turn run_on no_container throttled
after_turn_success codec w function payload wait no_environment p p' result e h = absurd (cc (e, h))
after_turn_success codec w function payload true (busy_all n) p p' result e h = absurd (cc e)
after_turn_success codec w function payload false (busy_all n) p p' result e h = absurd (cc (e, h))
after_turn_success codec w function payload wait (granted a n) p p' result e h =
    let host = (name w.resolved a p).0 in
    let same : outcome_of codec function host w.duration (w.exchange a payload) ≡ result = cc e in
    let found =
      outcome_success codec function host w.duration (w.exchange a payload)
        (ap (λ (r : Invocation). r.error) same ∙ h) in
    let (answer, sound) =
      subst
        (λ (r : Invocation).
          (w.exchange a payload ≡ answered 200 r.payload)
          × (is_function_error codec r.payload ≡ false))
        same found in
    (a, answer, sound)

-- An invocation with no error was answered by an environment with status 200, and the payload is
-- its answer and no error document of a function.
pub invoke_success :
    (codec : Codec) (w : World) (function payload : Text) (wait : Bool) (p p' : Pool)
    (result : Invocation)
    → invoke codec w function payload wait p ≡ some (result, p')
    → result.error ≡ []
    → (a : Text) × (w.exchange a payload ≡ answered 200 result.payload)
      × (is_function_error codec result.payload ≡ false)
unfolding invoke
invoke_success codec w function payload wait p p' result e h =
    let (turn, r) = acquire wait w.dns w.wakes p in
    after_turn_success codec w function payload wait turn r p' result e h
