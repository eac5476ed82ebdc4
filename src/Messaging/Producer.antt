-- ===== src/Messaging/Producer.antt =====
-- producer.py: the orders that a run publishes. An amount is in tenths, exact for every number below
-- 2 ^ 50, where 7.5 times the number is an exact float.
use system_design_course.Common.{
  ltb, Text, codes, show_nat, ℕ, zero, suc, ◌+◌, ◌*◌, ◌%◌, Bool, List, [], ◌∷◌, ◌++◌,
}

pub record Order : Type 0 where
  pub order_id : Text
  pub customer : Text
  pub amount_tenths : ℕ
  pub poison : Bool

unfoldable pub make_order : ℕ → Bool → Order
make_order number poison = record {
  order_id = codes "ORD-" ++ show_nat number;
  customer = codes "customer-" ++ show_nat (number % 7);
  amount_tenths = 100 + number * 75 % 900;
  poison = poison;
}

-- The loop over `range(args.count)` from the given index, for so many rounds.
unfoldable pub orders_from : ℕ → ℕ → ℕ → ℕ → List Order
orders_from start_id poison index zero = []
orders_from start_id poison index (suc rounds) =
    make_order (start_id + index) (ltb index poison)
    ∷ orders_from start_id poison (index + 1) rounds

unfoldable pub published : ℕ → ℕ → ℕ → List Order
unfolding orders_from
published start_id count poison = orders_from start_id poison 0 count
