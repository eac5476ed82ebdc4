-- ===== src/Gateway/Api.antt =====
-- gateway.py: ROUTES, `_match_route` and `_api_event`. The parts of a path between its slashes are
-- matched with those of a template; a parameter takes one part that is not empty.
use mathlib.Core.Option
use system_design_course.Common.{
  if◌then◌else◌, Text, codes, text_eq, Dict, lookup, insert, ℕ, Bool, true, false, Option, none,
  some, List, [], ◌∷◌, ◌++◌,
}
use system_design_course.Common.Json.{Json, Fields, bool, num, str, obj, end, field}
use system_design_course.Serverless.Orders.{split_slash}

pub data Method : Type 0 where
  get post delete_method : Method

abbrev pub method_name : Method → Text
method_name get = codes "GET"
method_name post = codes "POST"
method_name delete_method = codes "DELETE"

-- One part of a template, as in /orders/{id}.
pub data Part : Type 0 where
  literal parameter : Text → Part

pub record Route : Type 0 where
  pub method : Method
  pub template : Text
  pub parts : List Part
  pub function : Text

abbrev pub orders_function : Text
orders_function = codes "lab15-orders"

-- ROUTES
abbrev pub routes : List Route
routes =
    record {
      method = post;
      template = codes "/orders";
      parts = literal [] ∷ literal (codes "orders") ∷ [];
      function = orders_function;
    }
    ∷ record {
      method = get;
      template = codes "/orders/{id}";
      parts = literal [] ∷ literal (codes "orders") ∷ parameter (codes "id") ∷ [];
      function = orders_function;
    }
    ∷ record {
      method = get;
      template = codes "/visits";
      parts = literal [] ∷ literal (codes "visits") ∷ [];
      function = orders_function;
    }
    ∷ record {
      method = get;
      template = codes "/work";
      parts = literal [] ∷ literal (codes "work") ∷ [];
      function = codes "lab15-work";
    }
    ∷ []

-- match.groupdict(); `none` where the path does not match.
unfoldable pub match_parts : List Part → List Text → Option (Dict Text)
match_parts [] [] = some []
match_parts [] (t ∷ ts) = none
match_parts (p ∷ ps) [] = none
match_parts (literal l ∷ ps) (t ∷ ts) =
    let rest = match_parts ps ts in if text_eq l t then rest else none
match_parts (parameter name ∷ ps) ([] ∷ ts) = none
match_parts (parameter name ∷ ps) ((c ∷ cs) ∷ ts) =
    Option.map (λ found. (name, c ∷ cs) ∷ found) (match_parts ps ts)

unfoldable pub same_method : Method → Method → Bool
same_method get get = true
same_method post post = true
same_method delete_method delete_method = true
same_method _ _ = false

-- The route key, the function and the parameters of the path.
pub record Match : Type 0 where
  pub route_key : Text
  pub function : Text
  pub parameters : Dict Text

unfoldable pub match_in : List Route → Method → List Text → Option Match
match_in [] method parts = none
match_in (r ∷ rs) method parts =
    let rest = match_in rs method parts in
    elim (match_parts r.parts parts) [
      | none ↦ rest
      | some found ↦
          if same_method r.method method
          then some record {
            route_key = method_name r.method ++ (codes " " ++ r.template);
            function = r.function;
            parameters = found;
          }
          else rest
    ]

unfoldable pub match_route : Method → Text → Option Match
match_route method path = match_in routes method (split_slash path)

-- An HTTP request after `urlsplit`, with its body as bytes.
pub record Request : Type 0 where
  pub method : Method
  pub url_path : Text
  pub query : Text
  pub headers : Dict Text
  pub body : Text

-- What an event takes from outside: `str.lower`, `parse_qsl`, `bytes.decode`, the id of `uuid4` and the
-- clock, as text and in milliseconds.
pub record Stamp : Type 0 where
  pub lower : Text → Text
  pub parse_query : Text → List (Text × Text)
  pub decode : Text → Text
  pub request_id : Text
  pub time : Text
  pub epoch_ms : ℕ

-- headers.get(key, default)
abbrev header : Text → Text → Dict Text → Text
header key default headers = elim (lookup key headers) [ none ↦ default | some v ↦ v ]

-- A dict of texts as a value; of two equal keys the last stays, where the first stood.
abbrev text_fields : Dict Text → Fields
text_fields [] = end
text_fields ((k, v) ∷ d) = field k (str v) (text_fields d)

unfoldable pub dict_of : Dict Text → List (Text × Text) → Dict Text
dict_of d [] = d
dict_of d ((k, v) ∷ pairs) = dict_of (insert k v d) pairs

unfoldable pub lower_keys : (Text → Text) → Dict Text → List (Text × Text)
lower_keys lower [] = []
lower_keys lower ((k, v) ∷ d) = (lower k, v) ∷ lower_keys lower d

abbrev is_given : Text → Bool
is_given [] = false
is_given (c ∷ cs) = true

abbrev has_parameters : Dict Text → Bool
has_parameters [] = false
has_parameters (e ∷ es) = true

-- `if value: event[key] = ...`, before the fields that follow.
abbrev optional : Bool → Text → Json → Fields → Fields
optional true key v rest = field key v rest
optional false key v rest = rest

abbrev http_fields : Text → Request → Fields
http_fields path r = field (codes "method") (str (method_name r.method)) (
    field (codes "path") (str path) (
      field (codes "protocol") (str (codes "HTTP/1.1")) (
        field (codes "sourceIp")
          (str (header (codes "X-Forwarded-For") (codes "127.0.0.1") r.headers))
          (field (codes "userAgent") (str (header (codes "User-Agent") [] r.headers)) end))))

abbrev context_fields : Stamp → Text → Request → Text → Fields
context_fields x path r route_key = field (codes "accountId") (str (codes "000000000000")) (
    field (codes "apiId") (str (codes "lab15-gateway")) (
      field (codes "domainName") (str (header (codes "Host") (codes "localhost") r.headers)) (
        field (codes "http") (obj (http_fields path r)) (
          field (codes "requestId") (str x.request_id) (
            field (codes "routeKey") (str route_key) (
              field (codes "stage") (str (codes "$default")) (
                field (codes "time") (str x.time)
                  (field (codes "timeEpoch") (num x.epoch_ms) end))))))))

unfoldable pub api_event : Stamp → Text → Request → Match → Json
api_event x path r m = obj (
    field (codes "version") (str (codes "2.0")) (
      field (codes "routeKey") (str m.route_key) (
        field (codes "rawPath") (str path) (
          field (codes "rawQueryString") (str r.query) (
            field (codes "headers") (obj (text_fields (dict_of [] (lower_keys x.lower r.headers))))
              (field (codes "requestContext") (obj (context_fields x path r m.route_key)) (
                field (codes "isBase64Encoded") (bool false) (
                  optional (is_given r.query) (codes "queryStringParameters")
                    (obj (text_fields (dict_of [] (x.parse_query r.query))))
                    (optional (has_parameters m.parameters) (codes "pathParameters")
                      (obj (text_fields m.parameters))
                      (optional (is_given r.body) (codes "body") (str (x.decode r.body))
                        end))))))))))
