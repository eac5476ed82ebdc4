-- ===== src/Gateway/Dispatch.antt =====
-- gateway.py: `Handler._dispatch`, from a request to its reply. `urlsplit` and the reading of the body
-- come before.
use mathlib.Core.List.{reverse}
use system_design_course.Common.{
  ◌==◌, if◌then◌else◌, length, Text, codes, text_eq, among, ℕ, ◌+◌, Bool, true, false, not, ◌&&◌,
  ◌||◌, Option, none, some, List, [], ◌∷◌,
}
use system_design_course.Common.Json.{Json, items_list, str, arr}
use system_design_course.Serverless.Orders.{split_slash, lstrip_slash}
use system_design_course.Gateway.Queue.{Queue, Body, send, purge, stats, string, dumped}
use system_design_course.Gateway.Pool.{Pool}
use system_design_course.Gateway.Replies.{
  Reply, Env, reply, api_reply, invoke_reply, healthy, route_list, invalid_json, not_found,
  no_function, queue_stats, purged, queued,
}
use system_design_course.Gateway.Invoke.{Codec, Invocation, invoke}
use system_design_course.Gateway.Api.{
  Method, same_method, match_route, Request, api_event, get, post, delete_method,
}

-- FUNCTIONS
abbrev pub functions : List Text
functions = codes "lab15-orders" ∷ codes "lab15-processor" ∷ codes "lab15-work" ∷ []

-- text.rstrip("/") or "/"
unfoldable pub clean_path : Text → Text
clean_path t = elim (reverse (lstrip_slash (reverse t))) [ [] ↦ b'/' ∷ [] | ◌∷◌ c cs ↦ c ∷ cs ]

unfoldable pub all_words : (ℕ → Bool) → Text → Bool
all_words is_word [] = true
all_words is_word (c ∷ cs) = (is_word c || c == b'-') && all_words is_word cs

abbrev is_function_name : (ℕ → Bool) → Text → Bool
is_function_name is_word [] = false
is_function_name is_word (c ∷ cs) = all_words is_word (c ∷ cs)

-- The function of a path /2015-03-31/functions/<name>/invocations.
unfoldable pub invoked_in : (ℕ → Bool) → List Text → Option Text
invoked_in is_word (a ∷ b ∷ c ∷ name ∷ d ∷ []) =
    if text_eq a []
      && (text_eq b (codes "2015-03-31")
          && (text_eq c (codes "functions")
              && (text_eq d (codes "invocations") && is_function_name is_word name)))
    then some name
    else none
invoked_in is_word _ = none

-- The bodies to send with the ids drawn for them.
abbrev body_of : Codec → Json → Body
body_of codec (str t) = string t
body_of codec v = dumped (codec.dumps v)

unfoldable pub bodies_of : Codec → (ℕ → Text) → ℕ → List Json → List (Text × Body)
bodies_of codec fresh i [] = []
bodies_of codec fresh i (v ∷ vs) = (fresh i, body_of codec v) ∷ bodies_of codec fresh (i + 1) vs

abbrev pub messages_of : Json → List Json
messages_of (arr xs) = items_list xs
messages_of v = v ∷ []

-- body or b"null", body or b"{}"
abbrev pub or_text : Text → Text → Text
or_text [] t = t
or_text (c ∷ cs) t = c ∷ cs

unfoldable pub queue_request : Env → Method → Text → Queue → Reply × Queue
queue_request x get body q = (reply 200 (queue_stats (stats x.now q)), q)
queue_request x delete_method body q =
    let (removed, q') = purge q in (reply 200 (purged removed), q')
queue_request x post body q = elim (x.codec.loads (or_text body (codes "null"))) [
  | none ↦ (reply 400 invalid_json, q)
  | some v ↦
      let (ids, q') = send x.now_ms (bodies_of x.codec x.fresh 0 (messages_of v)) q in
      (reply 200 (queued (length ids) ids), q')
]

-- What the handlers share.
pub record Shared : Type 0 where
  pub queue : Queue
  pub pool : Pool

-- Invokes a function without waiting; `none` does not return, an answer that is `none` is an exception
-- that ends the request without a reply.
unfoldable pub call :
    Env → Text → Text → (Invocation → Option Reply) → Shared → Option (Option Reply × Shared)
call x function payload reply_of s =
    elim (invoke x.codec (x.world function) function payload false s.pool) [
      | none ↦ none
      | some (result, pool) ↦ some (reply_of result, record s { pool = pool })
    ]

unfoldable pub api_request : Env → Request → Text → Shared → Option (Option Reply × Shared)
api_request x r path s = elim (match_route r.method path) [
  | none ↦ some (some (reply 404 not_found), s)
  | some m ↦ call x m.function (x.codec.dumps (api_event x.stamp path r m)) (api_reply x) s
]

unfoldable pub dispatch_path : Env → Request → Text → Shared → Option (Option Reply × Shared)
dispatch_path x r path s =
    if same_method r.method get && text_eq path (codes "/health")
    then some (some (reply 200 healthy), s)
    else (if same_method r.method get && text_eq path (codes "/")
        then some (some (reply 200 route_list), s)
        else elim (if same_method r.method post
            then invoked_in x.is_word (split_slash path)
            else none) [
              | some function ↦
                  if not (among function functions)
                  then some (some (reply 404 (no_function function)), s)
                  else call x function (or_text r.body (codes "{}")) (invoke_reply x) s
              | none ↦
                  if text_eq path (codes "/queues/orders")
                  then (let (answer, q) = queue_request x r.method r.body s.queue in
                      some (some answer, record s { queue = q }))
                  else api_request x r path s
            ])

unfoldable pub dispatch : Env → Request → Shared → Option (Option Reply × Shared)
dispatch x r s = dispatch_path x r (clean_path r.url_path) s
