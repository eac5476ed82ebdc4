-- ===== src/Gateway/Sent.antt =====
-- When gateway.py sends no reply to a request of its API.
use system_design_course.Common.{
  if◌then◌else◌, Bool-cases, Option-cases, if_both, Text, codes, text_eq, text_eq_iff, Dict, ◌≡◌,
  refl, ◌⊎◌, inl, inr, false, ◌||◌, Option, none, some, [], arith,
}
use system_design_course.Common.Json.{Json, Fields, get_field, obj}
use system_design_course.Gateway.Invoke.{Invocation}
use system_design_course.Gateway.Replies.{
  Reply, Converted, Env, lab_headers, bad_response, merged, merged_reply, function_reply,
  answer_reply, api_reply, json, number, refused, overflows,
}

-- What keeps the answer of a function from being sent: a status that overflows, or headers that cannot
-- be sent.
unfoldable pub IsUnsent : Env → Invocation → Type 0
IsUnsent x result =
    (fields : Fields) × (status : Json) × (result.error ≡ [])
    × (x.codec.loads result.payload ≡ some (obj fields))
    × (get_field (codes "statusCode") fields ≡ some status)
    × ((x.int_of status ≡ overflows)
        ⊎ (x.takes_headers (merged x (lab_headers x result) fields).1 ≡ false))

function_reply-sent :
    (x : Env) (headers : Dict Text) (status : Json) (fields : Fields)
    → ((answer : Reply) × (function_reply x headers status fields ≡ some answer))
      ⊎ ((function_reply x headers status fields ≡ none)
          × ((x.int_of status ≡ overflows) ⊎ (x.takes_headers (merged x headers fields).1 ≡ false)))
unfolding function_reply
function_reply-sent x headers status fields = by_status (x.int_of status)
  where
    by_status :
        (c : Converted)
        → ((answer : Reply) × ((elim c [
          | overflows ↦ none
          | refused ↦ some (bad_response headers)
          | number code ↦
              if x.takes_headers (merged x headers fields).1
              then some (merged_reply x code fields (merged x headers fields))
              else none
        ])
              ≡ some answer))
          ⊎ (((elim c [
            | overflows ↦ none
            | refused ↦ some (bad_response headers)
            | number code ↦
                if x.takes_headers (merged x headers fields).1
                then some (merged_reply x code fields (merged x headers fields))
                else none
          ])
                ≡ none)
              × ((c ≡ overflows) ⊎ (x.takes_headers (merged x headers fields).1 ≡ false)))
    by_status overflows = inr (refl, inl refl)
    by_status refused = inl (bad_response headers, refl)
    by_status (number code) = elim (Bool-cases (x.takes_headers (merged x headers fields).1)) [
      | inl e ↦ inl (merged_reply x code fields (merged x headers fields), ground (arith, e))
      | inr e ↦ inr (ground (arith, e), inr e)
    ]

-- The answer of a function that can be read, by whether it is an object with a status.
answer_reply-sent :
    (x : Env) (result : Invocation) (v : Json)
    → result.error ≡ []
    → x.codec.loads result.payload ≡ some v
    → ((answer : Reply) × (answer_reply x (lab_headers x result) (some v) ≡ some answer))
      ⊎ ((answer_reply x (lab_headers x result) (some v) ≡ none) × IsUnsent x result)
unfolding answer_reply IsUnsent
answer_reply-sent x result (obj fields) h e =
    let plain : Reply = record {
      status = 200;
      content = json (obj fields);
      headers = lab_headers x result;
    } in
    elim (Option-cases (get_field (codes "statusCode") fields)) [
      | inl f ↦ inl (plain, ground (arith, f))
      | inr (status, f) ↦ elim (function_reply-sent x (lab_headers x result) status fields) [
        | inl (answer, g) ↦ inl (answer, ground (arith, f, g))
        | inr (g, why) ↦ inr (ground (arith, f, g), (fields, status, h, e, f, why))
      ]
    ]
answer_reply-sent x result _ h e = inl (_, refl)

pub api_reply-sent :
    (x : Env) (result : Invocation)
    → ((answer : Reply) × (api_reply x result ≡ some answer))
      ⊎ ((api_reply x result ≡ none) × IsUnsent x result)
unfolding api_reply answer_reply
api_reply-sent x result =
    if_both {A = Option Reply} Sent (text_eq result.error (codes "TooManyRequestsException")) _ _
      (inl (_, refl))
      (if_both {A = Option Reply} Sent
        (text_eq result.error (codes "NoEnvironment")
          || text_eq result.error (codes "ConnectionError"))
        _ _ (inl (_, refl))
        (elim (Bool-cases (text_eq result.error [])) [
          | inr e ↦ rw e (inl (_, refl))
          | inl e ↦ rw e (elim (Option-cases (x.codec.loads result.payload)) [
            | inl f ↦ rw f (inl (bad_response (lab_headers x result), refl))
            | inr (v, f) ↦ rw f (answer_reply-sent x result v ((text_eq_iff result.error []).0 e) f)
          ])
        ]))
  where
    Sent : Option Reply → Type 0
    Sent o = ((answer : Reply) × (o ≡ some answer)) ⊎ ((o ≡ none) × IsUnsent x result)
