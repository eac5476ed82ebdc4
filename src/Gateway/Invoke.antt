-- ===== src/Gateway/Invoke.antt =====
-- gateway.py, `invoke`: one synchronous invocation of a function on an idle environment. The answer
-- of the environment, the clock and the other threads come from outside, and so do `json.loads`
-- and `json.dumps`. Bytes are texts.
use system_design_course.Common.{
  ◌==◌, if◌then◌else◌, Text, codes, starts_with, ℕ, Bool, true, false, not, ◌||◌, Option, none,
  some, List, [], ◌++◌,
}
use system_design_course.Common.Json.{Json, get_field, str, obj, end, field}
use system_design_course.Gateway.Pool.{
  Pool, Lookup, Turn, acquire, release, name, no_environment, granted, busy_all,
}

-- `loads` is `none` where it raises ValueError. `base64` is the encoder of the library; `md5` encodes a
-- text and digests it, `none` where `.encode()` raises, as for a lone surrogate.
pub record Codec : Type 0 where
  pub loads : Text → Option Json
  pub dumps : Json → Text
  pub base64 : Text → Text
  pub md5 : Text → Option Text

-- An HTTP exchange: the text of the OSError or HTTPException, or the status and the body.
pub data Response : Type 0 where
  unreachable : Text → Response
  answered : ℕ → Text → Response

pub record Invocation : Type 0 where
  pub function : Text
  pub status : ℕ
  pub payload : Text
  pub environment : Text
  pub error : Text
  pub duration_ms : ℕ

-- What surrounds one invocation: the DNS answers with the wake-ups of a wait, reverse DNS, the
-- environment's answer to a payload, what other threads do to the pool during the exchange, and the
-- rounded duration.
pub record World : Type 0 where
  pub dns : Lookup
  pub wakes : List ((Pool → Pool) × Lookup)
  pub resolved : Text → Option Text
  pub exchange : Text → Text → Response
  pub others : Pool → Pool
  pub duration : ℕ

unfoldable pub is_function_error : Codec → Text → Bool
is_function_error codec payload =
    if starts_with payload (codes "Task timed out") then true else elim (codec.loads payload) [
      | some (obj fields) ↦ elim (get_field (codes "errorType") fields) [
        | none ↦ false
        | some _ ↦ elim (get_field (codes "errorMessage") fields) [ none ↦ false | some _ ↦ true ]
      ]
      | _ ↦ false
    ]

abbrev error_payload : Codec → Text → Text → Text
error_payload codec kind message =
    codec.dumps
      (obj (field (codes "errorType") (str kind) (field (codes "errorMessage") (str message) end)))

unfoldable pub no_container : Codec → Text → Invocation
no_container codec function = record {
  function = function;
  status = 502;
  payload =
      error_payload codec (codes "NoEnvironment") (codes "no running container for " ++ function);
  environment = [];
  error = codes "NoEnvironment";
  duration_ms = 0;
}

unfoldable pub throttled : Codec → Text → Invocation
throttled codec function = record {
  function = function;
  status = 429;
  payload = error_payload codec (codes "TooManyRequestsException") (codes "Rate Exceeded.");
  environment = [];
  error = codes "TooManyRequestsException";
  duration_ms = 0;
}

-- The result of an exchange with the environment of the given name.
unfoldable pub outcome_of : Codec → Text → Text → ℕ → Response → Invocation
outcome_of codec function environment duration (unreachable message) = record {
  function = function;
  status = 502;
  payload = error_payload codec (codes "ConnectionError") message;
  environment = environment;
  error = codes "ConnectionError";
  duration_ms = duration;
}
outcome_of codec function environment duration (answered status payload) = record {
  function = function;
  status = 200;
  payload = payload;
  environment = environment;
  error = if not (status == 200) || is_function_error codec payload then codes "Unhandled" else [];
  duration_ms = duration;
}

-- After the reservation: name the environment, call it, and release it on every path (`finally`).
unfoldable pub run_on : Codec → World → Text → Text → Text → Pool → Invocation × Pool
run_on codec w function payload address p =
    let (host, p') = name w.resolved address p in
    (
      outcome_of codec function host w.duration (w.exchange address payload),
      release address (w.others p'),
    )

-- What follows the call of `acquire`; `none` is an invocation that still waits.
unfoldable pub after_turn :
    Codec → World → Text → Text → Bool → Turn → Pool → Option (Invocation × Pool)
after_turn codec w function payload wait no_environment p = some (no_container codec function, p)
after_turn codec w function payload wait (busy_all n) p =
    if wait then none else some (throttled codec function, p)
after_turn codec w function payload wait (granted address n) p =
    some (run_on codec w function payload address p)

unfoldable pub invoke : Codec → World → Text → Text → Bool → Pool → Option (Invocation × Pool)
unfolding after_turn
invoke codec w function payload wait p =
    let (turn, p') = acquire wait w.dns w.wakes p in
    after_turn codec w function payload wait turn p'
