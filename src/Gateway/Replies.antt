-- ===== src/Gateway/Replies.antt =====
-- gateway.py: the replies of `Handler._dispatch` with `_lab_headers`. A reply is what `_send` is given;
-- the layout of its JSON, the socket and a negative status are left out.
use system_design_course.Common.{
  if◌then◌else◌, Text, codes, text_eq, Dict, ℕ, Bool, true, false, not, ◌||◌, Option, none, some,
  List, [], ◌∷◌,
}
use system_design_course.Common.Json.{Json, Fields, get_field, truthy, str, obj, end}
use system_design_course.Gateway.Queue.{Stats}
use system_design_course.Gateway.Invoke.{Codec, Invocation, World}
use system_design_course.Gateway.Api.{Stamp}

-- The body of a reply: the bytes of a function, or a value of the gateway.
pub data Content : Type 0 where
  bytes : Text → Content
  json : Json → Content
  healthy route_list invalid_json not_found too_many internal_error : Content
  no_function : Text → Content
  queue_stats : Stats → Content
  purged : ℕ → Content
  queued : ℕ → List Text → Content
  bad_gateway : Text → Content

pub record Reply : Type 0 where
  pub status : ℕ
  pub content : Content
  pub headers : Dict Text

-- What `int` makes of a value: a number, a ValueError or a TypeError, or an OverflowError.
pub data Converted : Type 0 where
  number : ℕ → Converted
  refused overflows : Converted

-- What a request takes from outside: the codec, the world of an invocation of each function, the stamp
-- of an event, the clocks, the ids of `uuid4`, `\w`, `str(duration)`, `int` and `str` of a value,
-- `dict.update` with a value, whose flag is false where it raises, `.encode()`, `none` where it raises,
-- and whether `send_header` takes each of the headers.
pub record Env : Type 0 where
  pub codec : Codec
  pub world : Text → World
  pub stamp : Stamp
  pub now : ℕ
  pub now_ms : ℕ
  pub fresh : ℕ → Text
  pub is_word : ℕ → Bool
  pub duration_text : ℕ → Text
  pub int_of : Json → Converted
  pub str_of : Json → Text
  pub update_with : Json → Dict Text → Bool × Dict Text
  pub encode : Text → Option Text
  pub takes_headers : Dict Text → Bool

abbrev or_dash : Text → Text
or_dash [] = codes "-"
or_dash (c ∷ cs) = c ∷ cs

unfoldable pub lab_headers : Env → Invocation → Dict Text
lab_headers x result =
    (codes "X-Lab-Function", result.function)
    ∷ (codes "X-Lab-Environment", or_dash result.environment)
    ∷ (codes "X-Lab-Duration-Ms", x.duration_text result.duration_ms)
    ∷ (if text_eq result.error (codes "Unhandled")
        then (codes "X-Amz-Function-Error", codes "Unhandled") ∷ []
        else [])

abbrev pub reply : ℕ → Content → Reply
reply status content = record { status = status; content = content; headers = [] }

-- answer.get(key) or default
abbrev field_or : Text → Json → Fields → Json
field_or key default fields = elim (get_field key fields) [
  | none ↦ default
  | some v ↦ if truthy v then v else default
]

abbrev pub bad_response : Dict Text → Reply
bad_response headers = record {
  status = 502;
  content = bad_gateway (codes "InvalidResponse");
  headers = headers;
}

-- headers.update(answer.get("headers") or {})
abbrev pub merged : Env → Dict Text → Fields → Bool × Dict Text
merged x headers fields = x.update_with (field_or (codes "headers") (obj end) fields) headers

-- The reply once the headers are merged; the flag is whether that was without an exception.
unfoldable pub merged_reply : Env → ℕ → Fields → Bool × Dict Text → Reply
merged_reply x code fields (false, headers) = bad_response headers
merged_reply x code fields (true, headers) =
    elim (x.encode (x.str_of (field_or (codes "body") (str []) fields))) [
      | none ↦ bad_response headers
      | some sent ↦ record { status = code; content = bytes sent; headers = headers }
    ]

-- A reply in the format of a function that sets its status. `none` is no reply: an OverflowError, which
-- is not caught, or headers that `send_header` refuses, also those of the reply in the handler.
unfoldable pub function_reply : Env → Dict Text → Json → Fields → Option Reply
function_reply x headers status fields = elim (x.int_of status) [
  | overflows ↦ none
  | refused ↦ some (bad_response headers)
  | number code ↦
      if x.takes_headers (merged x headers fields).1
      then some (merged_reply x code fields (merged x headers fields))
      else none
]

unfoldable pub answer_reply : Env → Dict Text → Option Json → Option Reply
answer_reply x headers none = some (bad_response headers)
answer_reply x headers (some v) =
    let plain : Reply = record { status = 200; content = json v; headers = headers } in
    elim v [
      | obj fields ↦ elim (get_field (codes "statusCode") fields) [
        | none ↦ some plain
        | some status ↦ function_reply x headers status fields
      ]
      | _ ↦ some plain
    ]

-- The reply to a request of the API, from the invocation of its function.
unfoldable pub api_reply : Env → Invocation → Option Reply
api_reply x result =
    let headers = lab_headers x result in
    if text_eq result.error (codes "TooManyRequestsException")
    then some record { status = 429; content = too_many; headers = headers }
    else (if text_eq result.error (codes "NoEnvironment")
          || text_eq result.error (codes "ConnectionError")
        then some record { status = 502; content = bad_gateway result.error; headers = headers }
        else (if not (text_eq result.error [])
            then some record { status = 500; content = internal_error; headers = headers }
            else answer_reply x headers (x.codec.loads result.payload)))

-- A direct invocation: the status and the payload of its result.
abbrev pub invoke_reply : Env → Invocation → Option Reply
invoke_reply x result = some record {
  status = result.status;
  content = bytes result.payload;
  headers = lab_headers x result;
}
