-- ===== src/Gateway/HttpTests.antt =====
-- Requests to the gateway's HTTP server, and each theorem at one.
use system_design_course.Common.{
  codes, text_eq, show_nat, ◌≡◌, refl, ◌⊎◌, true, false, Option, none, some, [], ◌∷◌,
}
use system_design_course.Common.Json.{str, arr, nil, cons, null}
use system_design_course.Serverless.Orders.{default_route, strip_slash, split_slash, lstrip_slash}
use system_design_course.Gateway.Agreement.{match_route-default_route}
use system_design_course.Gateway.Queue.{Queue, empty_queue}
use system_design_course.Gateway.Pool.{Pool, empty_pool}
use system_design_course.Gateway.Invoke.{Invocation, invoke, answered}
use system_design_course.Gateway.Api.{
  match_parts, same_method, Match, match_in, match_route, Request, api_event, get, post,
}
use system_design_course.Gateway.Sent.{IsUnsent}
use system_design_course.Gateway.Replies.{Reply, Env, number}
use system_design_course.Gateway.Dispatch.{
  clean_path, invoked_in, queue_request, Shared, dispatch_path, dispatch,
}
use system_design_course.Gateway.Answers.{IsQuiet, dispatch_answers, dispatch_separates}

abbrev env : Env
env = record {
  codec = record {
    loads = λ t. some (arr (cons (str (codes "pay")) (cons null nil)));
    dumps = λ v. codes "null";
    base64 = λ t. t;
    md5 = λ t. some t;
  };
  world = λ function. record {
    dns = some (codes "10.0.0.2" ∷ [], 1);
    wakes = [];
    resolved = λ a. none;
    exchange = λ a t. answered 200 (codes "{}");
    others = λ p. p;
    duration = 4;
  };
  stamp = record {
    lower = λ t. t;
    parse_query = λ t. [];
    decode = λ t. t;
    request_id = codes "r1";
    time = codes "now";
    epoch_ms = 100;
  };
  now = 9;
  now_ms = 100;
  fresh = λ i. b'm' ∷ show_nat i;
  is_word = λ c. true;
  duration_text = show_nat;
  int_of = λ v. number 200;
  str_of = λ v. [];
  update_with = λ v d. (true, d);
  encode = λ t. some t;
  takes_headers = λ d. true;
}

abbrev idle : Shared
idle = record { queue = empty_queue; pool = empty_pool }

abbrev order_request : Request
order_request = record {
  method = get;
  url_path = codes "/orders/7/";
  query = [];
  headers = [];
  body = [];
}

abbrev two_messages : Request
two_messages = record {
  method = post;
  url_path = codes "/queues/orders";
  query = [];
  headers = [];
  body = codes "[\"pay\", null]";
}

one_order_route :
    match_route get (clean_path order_request.url_path)
    ≡ some record {
      route_key = codes "GET /orders/{id}";
      function = codes "lab15-orders";
      parameters = (codes "id", codes "7") ∷ [];
    }
unfolding match_route match_in match_parts same_method split_slash lstrip_slash clean_path text_eq
one_order_route = refl

dispatch_answers_example :
    (answer : Option Reply) × (s' : Shared) × (dispatch env order_request idle ≡ some (answer, s'))
    × (s'.pool.busy ≡ [])
    × (((sent : Reply) × (answer ≡ some sent))
        ⊎ ((answer ≡ none)
            × ((m : Match) × (result : Invocation) × (p : Pool) × (match_route get
                    (clean_path order_request.url_path)
                  ≡ some m)
                × (invoke env.codec
                      (env.world m.function)
                      m.function
                      (env.codec.dumps
                        (api_event env.stamp (clean_path order_request.url_path) order_request m))
                      false
                      idle.pool
                    ≡ some (result, p))
                × IsUnsent env result)))
unfolding IsQuiet
dispatch_answers_example = dispatch_answers env order_request idle (λ function p. refl)

abbrev after_two : Reply × Queue
after_two = queue_request env post two_messages.body empty_queue

two_sent :
    dispatch env two_messages idle ≡ some (some after_two.0, record idle { queue = after_two.1 })
unfolding dispatch dispatch_path invoked_in same_method split_slash lstrip_slash clean_path text_eq
    queue_request
two_sent = refl

dispatch_separates_example :
    (after_two.1 ≡ empty_queue)
    ⊎ ((clean_path two_messages.url_path ≡ codes "/queues/orders")
        × (some after_two.0
            ≡ some (queue_request env two_messages.method two_messages.body empty_queue).0)
        × (after_two.1 ≡ (queue_request env two_messages.method two_messages.body empty_queue).1)
        × (empty_pool ≡ empty_pool))
dispatch_separates_example =
    dispatch_separates env two_messages idle (record idle { queue = after_two.1 })
      (some after_two.0) two_sent

match_route-default_route_example :
    default_route (codes "GET") (split_slash (strip_slash (codes "/orders/7")))
    ≡ (codes "GET /orders/{id}", (codes "id", codes "7") ∷ [])
unfolding clean_path lstrip_slash
match_route-default_route_example =
    match_route-default_route get (codes "/orders/7")
      (record {
        route_key = codes "GET /orders/{id}";
        function = codes "lab15-orders";
        parameters = (codes "id", codes "7") ∷ [];
      })
      one_order_route refl
