-- ===== src/Gateway/Agreement.antt =====
-- The gateway's routes against those that the orders function finds by itself, functions/orders/app.py.
use mathlib.Core.Path.{subst}
use system_design_course.Common.{
  Bool-cases, Option-cases, All, Text, codes, text_eq, text_eq_iff, Dict, ℕ, ◌≡◌, refl, ap, ◌∙◌,
  inl, inr, true, some, List, [], ◌∷◌, ◌++◌, arith,
}
use system_design_course.Serverless.Orders.{split_slash, strip_slash, join_slash, default_route}
use system_design_course.Gateway.Api.{
  Method, method_name, Route, orders_function, routes, match_parts, same_method, Match, match_in,
  match_route, get, post, delete_method, literal, parameter,
}
use system_design_course.Gateway.Paths.{last_given, stripped_parts}

same_method-eq : (a b : Method) → same_method a b ≡ true → a ≡ b
unfolding same_method
same_method-eq get get h = refl
same_method-eq post post h = refl
same_method-eq delete_method delete_method h = refl
same_method-eq get post h = absurd (cc h)
same_method-eq get delete_method h = absurd (cc h)
same_method-eq post get h = absurd (cc h)
same_method-eq post delete_method h = absurd (cc h)
same_method-eq delete_method get h = absurd (cc h)
same_method-eq delete_method post h = absurd (cc h)

-- The path of a template with one name, and of one with a parameter below it.
matched_name :
    (l : Text) (parts : List Text) (found : Dict Text)
    → match_parts (literal [] ∷ literal l ∷ []) parts ≡ some found
    → (parts ≡ [] ∷ l ∷ []) × (found ≡ [])
unfolding match_parts
matched_name l [] found h = absurd (cc h)
matched_name l (a ∷ []) found h = absurd (ground (arith, h))
matched_name l (a ∷ b ∷ []) found h =
    (ground (arith, h, text_eq_iff [] a, text_eq_iff l b), ground (arith, h))
matched_name l (a ∷ b ∷ c ∷ ds) found h = absurd (ground (arith, h))

matched_parameter :
    (l name : Text) (parts : List Text) (found : Dict Text)
    → match_parts (literal [] ∷ literal l ∷ parameter name ∷ []) parts ≡ some found
    → (c : ℕ) × (cs : Text) × (parts ≡ [] ∷ l ∷ (c ∷ cs) ∷ []) × (found ≡ (name, c ∷ cs) ∷ [])
unfolding match_parts
matched_parameter l name [] found h = absurd (cc h)
matched_parameter l name (a ∷ []) found h = absurd (ground (arith, h))
matched_parameter l name (a ∷ b ∷ []) found h = absurd (ground (arith, h))
matched_parameter l name (a ∷ b ∷ [] ∷ ds) found h = absurd (ground (arith, h))
matched_parameter l name (a ∷ b ∷ (c ∷ cs) ∷ []) found h =
    (c, cs, ground (arith, h, text_eq_iff [] a, text_eq_iff l b), ground (arith, h))
matched_parameter l name (a ∷ b ∷ (c ∷ cs) ∷ d ∷ ds) found h = absurd (ground (arith, h))

-- What holds of a match with each route holds of the match that is found.
match_elim :
    (P : Match → Type 0) (method : Method) (parts : List Text) (rs : List Route) (m : Match)
    → All
        (λ r.
          (found : Dict Text)
          → match_parts (Route.parts r) parts ≡ some found
          → Route.method r ≡ method
          → P record {
            route_key = method_name (Route.method r) ++ (codes " " ++ Route.template r);
            function = Route.function r;
            parameters = found;
          })
        rs
    → match_in rs method parts ≡ some m
    → P m
unfolding match_in
match_elim P method parts [] m each h = absurd (cc h)
match_elim P method parts (r ∷ rs) m each h = elim (Option-cases (match_parts r.parts parts)) [
  | inl e ↦ match_elim P method parts rs m each.1 (ground (arith, e, h))
  | inr (found, e) ↦ elim (Bool-cases (same_method r.method method)) [
    | inr f ↦ match_elim P method parts rs m each.1 (ground (arith, e, f, h))
    | inl f ↦ subst P (ground (arith, e, f, h)) (each.0 found e (same_method-eq r.method method f))
  ]
]

-- The function's own reading of a path, for a route with one name.
named_route :
    (k method : Method) (path : Text) (c : ℕ) (cs : Text) (found : Dict Text)
    → match_parts (literal [] ∷ literal (c ∷ cs) ∷ []) (split_slash path) ≡ some found
    → k ≡ method
    → default_route (method_name method) (split_slash (strip_slash path))
      ≡ (method_name k ++ (codes " " ++ (b'/' ∷ c ∷ cs)), found)
unfolding default_route join_slash last_given
named_route k method path c cs found h e =
    let (parts, none_found) = matched_name (c ∷ cs) (split_slash path) found h in
    let stripped = stripped_parts path c cs [] parts refl in
    ap (λ ps. default_route (method_name method) ps) stripped ∙ ground (arith, e, none_found)

order_route :
    (k method : Method) (path : Text) (found : Dict Text)
    → match_parts
        (literal [] ∷ literal (codes "orders") ∷ parameter (codes "id") ∷ [])
        (split_slash path)
      ≡ some found
    → k ≡ method
    → default_route (method_name method) (split_slash (strip_slash path))
      ≡ (method_name k ++ (codes " " ++ codes "/orders/{id}"), found)
unfolding default_route last_given text_eq
order_route k method path found h e =
    let (c, cs, parts, one_found) =
      matched_parameter (codes "orders") (codes "id") (split_slash path) found h in
    let stripped = stripped_parts path b'o' (codes "rders") ((c ∷ cs) ∷ []) parts refl in
    ap (λ ps. default_route (method_name method) ps) stripped ∙ ground (arith, e, one_found)

-- For a path that one of its routes to the orders function matches, the gateway's event names the route
-- and the parameters that the function would find in the path by itself.
pub match_route-default_route :
    (method : Method) (path : Text) (m : Match)
    → match_route method path ≡ some m
    → m.function ≡ orders_function
    → default_route (method_name method) (split_slash (strip_slash path))
      ≡ (m.route_key, m.parameters)
unfolding match_route
match_route-default_route method path m h f =
    match_elim
      (λ n.
        n.function ≡ orders_function
        → default_route (method_name method) (split_slash (strip_slash path))
          ≡ (n.route_key, n.parameters))
      method (split_slash path) routes m
      (
        (λ found e k g. named_route post method path b'o' (codes "rders") found e k),
        (
          (λ found e k g. order_route get method path found e k),
          (
            (λ found e k g. named_route get method path b'v' (codes "isits") found e k),
            ((λ found e k g. absurd (cc g)), tt),
          ),
        ),
      )
      h f
