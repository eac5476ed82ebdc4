-- ===== src/KvNode/Version.antt =====
-- kv_node.py: Lamport versions, records and `is_newer`. A version is `[counter, node]`, and Python
-- compares `tuple(version)` lexicographically: the counter first, the node id on a tie.
use system_design_course.Common.{
  ℕ, ◌≡◌, Bool, true, false, Option, none, some, arith, Text, text_lt, text_lt_irrefl,
  text_lt_trans, text_lt_total, ltb, ◌==◌, if◌then◌else◌,
}

pub record Version : Type 0 where
  pub counter : ℕ
  pub node : Text

-- `ref` stands for the identity of the record object, which `is` compares; no other operation
-- looks at it.
pub record Record : Type 0 where
  pub value : Text
  pub version : Version
  pub ref : ℕ

-- tuple(a) > tuple(b)
unfoldable pub version_gt : Version → Version → Bool
version_gt a b = if a.counter == b.counter then text_lt b.node a.node else ltb b.counter a.counter

unfoldable pub is_newer : Record → Option Record → Bool
is_newer r none = true
is_newer r (some current) = version_gt r.version current.version

pub version_gt_irrefl : (a : Version) → version_gt a a ≡ false
unfolding version_gt
version_gt_irrefl a = ground (arith, text_lt_irrefl a.node)

pub version_gt_trans :
    (a b c : Version) → version_gt a b ≡ true → version_gt b c ≡ true → version_gt a c ≡ true
unfolding version_gt
version_gt_trans a b c h k = ground (arith, text_lt_trans c.node b.node a.node)

pub version_gt_asymm : (a b : Version) → version_gt a b ≡ true → version_gt b a ≡ false
unfolding version_gt
version_gt_asymm a b h = ground (arith, text_lt_trans a.node b.node a.node, text_lt_irrefl a.node)

-- Versions that are not ordered either way are equal.
pub version_gt_total : (a b : Version) → version_gt a b ≡ false → version_gt b a ≡ false → a ≡ b
unfolding version_gt
version_gt_total a b h k = ground (arith, text_lt_total a.node b.node)

-- Not-newer is transitive.
pub version_ngt_trans :
    (a b c : Version) → version_gt a b ≡ false → version_gt b c ≡ false → version_gt a c ≡ false
unfolding version_gt
version_ngt_trans a b c h k =
    ground (arith, text_lt_trans c.node a.node b.node, text_lt_total a.node b.node)
