-- ===== src/Serverless/Orders.antt =====
-- functions/orders/app.py: the REST backend of the store. DynamoDB is outside: a table is its state
-- with the calls the function makes, reads that lag behind included, and `IsStore` is what they promise. `str` of a decoded value and
-- the ids of `uuid4` come from outside.
use mathlib.Core.List.{reverse}
use system_design_course.Common.{
  ◌==◌, if◌then◌else◌, In, Text, codes, text_eq, Dict, lookup, ℕ, ◌+◌, ◌≡◌, Option, none, some,
  List, [], ◌∷◌, ◌++◌,
}
use system_design_course.Common.Json.{Json, get_field, obj}
use system_design_course.Serverless.Processor.{Decimal, Reader, is_chargeable}

-- The fields of an event that the function reads; `body` is `none` where it is absent.
pub record Event : Type 0 where
  pub route_key : Text
  pub path_parameters : Dict Text
  pub method : Text
  pub raw_path : Text
  pub body : Option Text

-- An order without its key.
pub record Item : Type 0 where
  pub item : Text
  pub amount : Decimal
  pub status : Text
  pub created_by : Text

pub record Store (S : Type 0) : Type 0 where
  pub put_item : Text → Item → S → S
  pub get_item : Text → S → Option Item
  pub add_visit : S → ℕ × S

-- The JSON payload of a response, without the version and the environment that every one carries: an
-- error, an unknown route, an order with its id, or the two counts of visits.
pub data Payload : Type 0 where
  error no_route : Text → Payload
  order : Text → Item → Payload
  visits : ℕ → ℕ → Payload

pub record Response : Type 0 where
  pub status : ℕ
  pub payload : Payload

-- The text split at every slash: `text.split("/")`.
unfoldable pub split_slash : Text → List Text
split_slash [] = [] ∷ []
split_slash (c ∷ cs) = elim (split_slash cs) [
  | [] ↦ [] ∷ []
  | ◌∷◌ part parts ↦ if c == b'/' then [] ∷ part ∷ parts else (c ∷ part) ∷ parts
]

unfoldable pub join_slash : List Text → Text
join_slash [] = []
join_slash (part ∷ []) = part
join_slash (part ∷ next ∷ parts) = part ++ (b'/' ∷ join_slash (next ∷ parts))

unfoldable pub lstrip_slash : Text → Text
lstrip_slash [] = []
lstrip_slash (c ∷ cs) = if c == b'/' then lstrip_slash cs else c ∷ cs

-- text.strip("/")
unfoldable pub strip_slash : Text → Text
strip_slash text = reverse (lstrip_slash (reverse (lstrip_slash text)))

-- What `_route` makes of the parts of the path of a `$default` event.
unfoldable pub default_route : Text → List Text → Text × Dict Text
default_route method (first ∷ id ∷ []) =
    if text_eq first (codes "orders")
    then (method ++ codes " /orders/{id}", (codes "id", id) ∷ [])
    else (method ++ (codes " /" ++ join_slash (first ∷ id ∷ [])), [])
default_route method parts = (method ++ (codes " /" ++ join_slash parts), [])

unfoldable pub route : Event → Text × Dict Text
route e =
    if text_eq e.route_key (codes "$default")
    then default_route e.method (split_slash (strip_slash e.raw_path))
    else (e.route_key, e.path_parameters)

-- What one invocation takes from outside: `json.loads` and Decimal, `str` of a decoded value, the
-- eight digits of the new id, and the environment's name.
pub record Context : Type 0 where
  pub reader : Reader
  pub show : Json → Text
  pub new_digits : Text
  pub environment : Text

-- The item and the amount of a body, or `none` for one of the exceptions that give a 400.
unfoldable pub read_order : Context → Option Text → Option (Text × Decimal)
read_order x body =
    let text : Text = elim body [
      | none ↦ codes "{}"
      | some [] ↦ codes "{}"
      | some (c ∷ cs) ↦ c ∷ cs
    ] in
    elim (x.reader.loads text) [
      | some (obj fields) ↦ elim (get_field (codes "item") fields) [
        | none ↦ none
        | some item ↦ elim (get_field (codes "amount") fields) [
          | none ↦ none
          | some amount ↦ elim (x.reader.decimal amount) [
            | none ↦ none
            | some number ↦ some (x.show item, number)
          ]
        ]
      ]
      | _ ↦ none
    ]

abbrev pub order_key : Text → Text
order_key order_id = codes "ORDER#" ++ order_id

-- f"ORD-{uuid.uuid4().hex[:8]}"
abbrev pub order_id_of : Context → Text
order_id_of x = codes "ORD-" ++ x.new_digits

abbrev pub new_item : Context → Text → Decimal → Item
new_item x item amount = record {
  item = item;
  amount = amount;
  status = codes "PLACED";
  created_by = x.environment;
}

-- path_parameters.get("id", "")
abbrev pub id_of : Dict Text → Text
id_of path_parameters = elim (lookup (codes "id") path_parameters) [ none ↦ [] | some id ↦ id ]

unfoldable pub create_order : {S : Type 0} → Store S → Context → Event → S → Response × S
create_order db x e s = elim (read_order x e.body) [
  | none ↦ (
    record {
      status = 400;
      payload = error (codes "send a JSON body like {\"item\": \"book\", \"amount\": 12.5}");
    },
    s,
  )
  | some (item, amount) ↦
      if is_chargeable amount
      then (
        record { status = 201; payload = order (order_id_of x) (new_item x item amount) },
        db.put_item (order_key (order_id_of x)) (new_item x item amount) s,
      )
      else (
        record {
          status = 400;
          payload = error (codes "amount must be a positive number up to 1000000");
        },
        s,
      )
]

-- The answer for the item that was read.
unfoldable pub order_response : Text → Option Item → Response
order_response order_id none = record {
  status = 404;
  payload = error (codes "order " ++ (order_id ++ codes " not found"));
}
order_response order_id (some item) = record { status = 200; payload = order order_id item }

unfoldable pub get_order : {S : Type 0} → Store S → Dict Text → S → Response × S
get_order db path_parameters s =
    let order_id = id_of path_parameters in
    (order_response order_id (db.get_item (order_key order_id) s), s)

-- The table and the visits counted in the memory of the environment.
unfoldable pub count_visit : {S : Type 0} → Store S → S → ℕ → Response × S × ℕ
count_visit db s visits_in_memory =
    let (stored, s') = db.add_visit s in
    (
      record { status = 200; payload = visits (visits_in_memory + 1) stored },
      s',
      visits_in_memory + 1,
    )

unfoldable pub handle_event : {S : Type 0} → Store S → Context → Event → S → ℕ → Response × S × ℕ
handle_event db x e s n =
    let (key, path_parameters) = route e in
    if text_eq key (codes "POST /orders")
    then (let (response, s') = create_order db x e s in (response, s', n))
    else (if text_eq key (codes "GET /orders/{id}")
        then (let (response, s') = get_order db path_parameters s in (response, s', n))
        else (if text_eq key (codes "GET /visits")
            then count_visit db s n
            else (record { status = 404; payload = no_route key }, s, n)))

-- What DynamoDB promises of `get_item` where ConsistentRead is not asked for: it gives one of the versions
-- that its key has had, the absence of an item included, and a put adds a version.
pub record IsStore {S : Type 0} (db : Store S) (versions : Text → S → List (Option Item))
    : Type 0 where
  pub reads : (k : Text) (s : S) → In (db.get_item k s) (versions k s)
  pub puts : (k : Text) (v : Item) (s : S) → versions k (db.put_item k v s) ≡ some v ∷ versions k s
