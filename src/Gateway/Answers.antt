-- ===== src/Gateway/Answers.antt =====
-- The replies of the gateway's HTTP server.
use system_design_course.Common.{
  if◌then◌else◌, Option-cases, if_both, Text, codes, text_eq, text_eq_iff, among, ◌≡◌, refl, ◌⊎◌,
  inl, inr, Bool, true, false, not, ◌&&◌, Option, none, some, arith,
}
use system_design_course.Serverless.Orders.{split_slash}
use system_design_course.Gateway.Sent.{IsUnsent, api_reply-sent}
use system_design_course.Gateway.Replies.{
  Reply, Env, reply, api_reply, invoke_reply, healthy, route_list, not_found, no_function,
}
use system_design_course.Gateway.Pool.{Pool}
use system_design_course.Gateway.Invoke.{Invocation, invoke}
use system_design_course.Gateway.Outcomes.{invoke_restores}
use system_design_course.Gateway.Api.{
  same_method, Match, match_route, Request, api_event, get, post,
}
use system_design_course.Gateway.Dispatch.{
  functions, clean_path, invoked_in, or_text, queue_request, Shared, call, api_request,
  dispatch_path, dispatch,
}

-- Other threads leave the environments reserved that they found reserved.
unfoldable pub IsQuiet : Env → Type 0
IsQuiet x = (function : Text) (p : Pool) → ((x.world function).others p).busy ≡ p.busy

-- A request ends, and gives back what it reserved.
IsAnsweredBy : Env → Request → Shared → Option (Option Reply × Shared) → Type 0
IsAnsweredBy x r s outcome =
    (answer : Option Reply) × (s' : Shared) × (outcome ≡ some (answer, s'))
    × (s'.pool.busy ≡ s.pool.busy)
    × (((sent : Reply) × (answer ≡ some sent))
        ⊎ ((answer ≡ none)
            × ((m : Match) × (result : Invocation) × (p : Pool) × (match_route r.method
                    (clean_path r.url_path)
                  ≡ some m)
                × (invoke x.codec (x.world m.function) m.function
                      (x.codec.dumps (api_event x.stamp (clean_path r.url_path) r m)) false s.pool
                    ≡ some (result, p))
                × IsUnsent x result)))

invoke_answers :
    (x : Env) (r : Request) (function payload : Text) (s : Shared)
    → IsQuiet x
    → IsAnsweredBy x r s (call x function payload (invoke_reply x) s)
unfolding IsQuiet IsAnsweredBy call
invoke_answers x r function payload s quiet =
    let (result, pool, e, h) =
      invoke_restores x.codec (x.world function) function payload s.pool (quiet function) in
    (invoke_reply x result, record s { pool = pool }, ground (arith, e), h, inl (_, refl))

api_answers :
    (x : Env) (r : Request) (s : Shared)
    → IsQuiet x
    → IsAnsweredBy x r s (api_request x r (clean_path r.url_path) s)
unfolding IsQuiet IsAnsweredBy api_request call
api_answers x r s quiet = elim (Option-cases (match_route r.method (clean_path r.url_path))) [
  | inl e ↦ (some (reply 404 not_found), s, ground (arith, e), refl, inl (_, refl))
  | inr (m, e) ↦
      let payload = x.codec.dumps (api_event x.stamp (clean_path r.url_path) r m) in
      let (result, pool, f, h) =
        invoke_restores x.codec (x.world m.function) m.function payload s.pool (quiet m.function) in
      (
        api_reply x result,
        record s { pool = pool },
        ground (arith, e, f),
        h,
        elim (api_reply-sent x result) [
          | inl sent ↦ inl sent
          | inr (g, unsent) ↦ inr (g, (m, result, pool, e, f, unsent))
        ],
      )
]

-- What holds of each way to answer a request holds of its answer.
dispatch_elim :
    (P : Option (Option Reply × Shared) → Type 0) (x : Env) (r : Request) (s : Shared)
    → P (some (some (reply 200 healthy), s))
    → P (some (some (reply 200 route_list), s))
    → ((function : Text) → P (some (some (reply 404 (no_function function)), s)))
    → ((function : Text) → P (call x function (or_text r.body (codes "{}")) (invoke_reply x) s))
    → (text_eq (clean_path r.url_path) (codes "/queues/orders") ≡ true
        → P (
            let (answer, q) = queue_request x r.method r.body s.queue in
            some (some answer, record s { queue = q })))
    → P (api_request x r (clean_path r.url_path) s)
    → P (dispatch x r s)
unfolding dispatch dispatch_path
dispatch_elim P x r s health listing unknown invoked queue_path api =
    let path = clean_path r.url_path in
    if_both P (same_method r.method get && text_eq path (codes "/health")) _ _ health (
      if_both P (same_method r.method get && text_eq path (codes "/")) _ _ listing
        (go (if same_method r.method post then invoked_in x.is_word (split_slash path) else none)))
  where
    on_queue :
        (b : Bool)
        → (b ≡ true
            → P (
                let (answer, q) = queue_request x r.method r.body s.queue in
                some (some answer, record s { queue = q })))
        → P (
            if b
            then (let (answer, q) = queue_request x r.method r.body s.queue in
                some (some answer, record s { queue = q }))
            else api_request x r (clean_path r.url_path) s)
    on_queue true h = h refl
    on_queue false h = api

    go :
        (found : Option Text)
        → P (elim found [
          | some function ↦
              if not (among function functions)
              then some (some (reply 404 (no_function function)), s)
              else call x function (or_text r.body (codes "{}")) (invoke_reply x) s
          | none ↦
              if text_eq (clean_path r.url_path) (codes "/queues/orders")
              then (let (answer, q) = queue_request x r.method r.body s.queue in
                  some (some answer, record s { queue = q }))
              else api_request x r (clean_path r.url_path) s
        ])
    go (some function) =
        if_both P (not (among function functions)) _ _ (unknown function) (invoked function)
    go none = on_queue (text_eq (clean_path r.url_path) (codes "/queues/orders")) queue_path

-- Every request ends, whatever it is and however its function fails, and leaves the environments
-- reserved that were reserved before, if other threads leave the busy set alone meanwhile. It is
-- answered, but for one case: its function was invoked, and answered an object with a `statusCode` for
-- which `int` overflows, or with headers that cannot be sent.
pub dispatch_answers :
    (x : Env) (r : Request) (s : Shared)
    → IsQuiet x
    → (answer : Option Reply) × (s' : Shared) × (dispatch x r s ≡ some (answer, s'))
      × (s'.pool.busy ≡ s.pool.busy)
      × (((sent : Reply) × (answer ≡ some sent))
          ⊎ ((answer ≡ none)
              × ((m : Match) × (result : Invocation) × (p : Pool) × (match_route r.method
                      (clean_path r.url_path)
                    ≡ some m)
                  × (invoke x.codec
                        (x.world m.function)
                        m.function
                        (x.codec.dumps (api_event x.stamp (clean_path r.url_path) r m))
                        false
                        s.pool
                      ≡ some (result, p))
                  × IsUnsent x result)))
unfolding IsAnsweredBy
dispatch_answers x r s quiet =
    dispatch_elim (IsAnsweredBy x r s) x r s
      (some (reply 200 healthy), s, refl, refl, inl (_, refl))
      (some (reply 200 route_list), s, refl, refl, inl (_, refl))
      (λ function. (some (reply 404 (no_function function)), s, refl, refl, inl (_, refl)))
      (λ function. invoke_answers x r function (or_text r.body (codes "{}")) s quiet)
      (λ e. (_, _, refl, refl, inl (_, refl))) (api_answers x r s quiet)

-- The queue is as it was, or the request was one for the queue.
Separates : Env → Request → Shared → Option (Option Reply × Shared) → Type 0
Separates x r s result =
    (answer : Option Reply) (s' : Shared)
    → result ≡ some (answer, s')
    → (s'.queue ≡ s.queue)
      ⊎ ((clean_path r.url_path ≡ codes "/queues/orders")
          × (answer ≡ some (queue_request x r.method r.body s.queue).0)
          × (s'.queue ≡ (queue_request x r.method r.body s.queue).1)
          × (s'.pool ≡ s.pool))

call-Separates :
    (x : Env) (r : Request) (function payload : Text) (reply_of : Invocation → Option Reply)
    (s : Shared)
    → Separates x r s (call x function payload reply_of s)
unfolding Separates call
call-Separates x r function payload reply_of s answer s' e =
    elim (Option-cases (invoke x.codec (x.world function) function payload false s.pool)) [
      | inl f ↦ absurd (ground (arith, e, f))
      | inr ((result, pool), f) ↦ inl (ground (arith, e, f))
    ]

api-Separates :
    (x : Env) (r : Request) (path : Text) (s : Shared) → Separates x r s (api_request x r path s)
unfolding Separates api_request
api-Separates x r path s answer s' e = elim (Option-cases (match_route r.method path)) [
  | inl f ↦ inl (ground (arith, e, f))
  | inr (m, f) ↦
      call-Separates x r m.function (x.codec.dumps (api_event x.stamp path r m)) (api_reply x) s
        answer s' (ground (arith, e, f))
]

-- A request leaves the queue as it is, or its path is that of the queue: then the answer and the queue
-- are those of the queue's own handler, and no environment is touched.
pub dispatch_separates :
    (x : Env) (r : Request) (s s' : Shared) (answer : Option Reply)
    → dispatch x r s ≡ some (answer, s')
    → (s'.queue ≡ s.queue)
      ⊎ ((clean_path r.url_path ≡ codes "/queues/orders")
          × (answer ≡ some (queue_request x r.method r.body s.queue).0)
          × (s'.queue ≡ (queue_request x r.method r.body s.queue).1)
          × (s'.pool ≡ s.pool))
unfolding Separates
dispatch_separates x r s s' answer e =
    dispatch_elim (Separates x r s) x r s (λ a t f. inl (ground (arith, f)))
      (λ a t f. inl (ground (arith, f))) (λ function a t f. inl (ground (arith, f)))
      (λ function. call-Separates x r function (or_text r.body (codes "{}")) (invoke_reply x) s)
      (λ h a t f. inr (
        (text_eq_iff (clean_path r.url_path) (codes "/queues/orders")).0 h,
        ground (arith, f),
        ground (arith, f),
        ground (arith, f),
      ))
      (api-Separates x r (clean_path r.url_path) s) answer s' e
