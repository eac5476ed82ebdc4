-- ===== src/KvNode/Majority.antt =====
-- Quorum counting in kv_node.py: what `count_until_quorum` returns, and why two majorities meet.
use system_design_course.Common.{
  leb, leb→le, Bool-cases, length, ℕ, zero, suc, ◌+◌, ◌≤◌, ◌<◌, min, ◌≡◌, refl, sym, ◌∙◌, inl, inr,
  Bool, true, false, List, [], ◌∷◌, arith,
}
use system_design_course.KvNode.Store.{Config, cluster_size, quorum}
use system_design_course.KvNode.Quorum.{count_votes, count_until_quorum}

-- The positive answers of a list, however they arrive.
abbrev pub positives : List Bool → ℕ
positives [] = 0
positives (true ∷ results) = suc (positives results)
positives (false ∷ results) = positives results

count_votes-eq-min :
    (q votes : ℕ) (results : List Bool)
    → votes < q
    → count_votes q votes results ≡ min q (votes + positives results)
unfolding count_votes
count_votes-eq-min q votes [] h = omega arith
count_votes-eq-min q votes (true ∷ results) h = elim (Bool-cases (leb q (votes + 1))) [
  | inl reached ↦ rw reached (omega (arith, leb→le q (votes + 1) reached))
  | inr more ↦ ground (arith, count_votes-eq-min q (votes + 1) results)
]
count_votes-eq-min q votes (false ∷ results) h = ground (arith, count_votes-eq-min q votes results)

-- With a quorum of two or more, the answer is the number of positive nodes, this one included, cut
-- at the quorum: the order in which the peers answer does not change it.
pub count_until_quorum-eq-min :
    (q : ℕ) (results : List Bool)
    → 2 ≤ q
    → count_until_quorum q results ≡ min q (1 + positives results)
unfolding count_until_quorum
count_until_quorum-eq-min q results h = count_votes-eq-min q 1 results h

-- A cluster with at least one peer needs two votes or more.
pub two-le-quorum : (cfg : Config) → 1 ≤ length cfg.peers → 2 ≤ quorum cfg
unfolding quorum
two-le-quorum cfg h = omega arith

-- If two groups of nodes share no member, they cannot both be majorities.
pub disjoint_majorities :
    (cfg : Config) (m n : ℕ) → m + n ≤ cluster_size cfg → quorum cfg ≤ m → ¬ (quorum cfg ≤ n)
unfolding quorum
disjoint_majorities cfg m n fit h k = absurd (omega arith)

-- Whether the node at a position belongs to a group of nodes.
abbrev pub member : List Bool → ℕ → Bool
member [] i = false
member (b ∷ bs) zero = b
member (b ∷ bs) (suc i) = member bs i

positives-le-length : (xs : List Bool) → positives xs ≤ length xs
positives-le-length [] = omega arith
positives-le-length (true ∷ xs) = omega (arith, positives-le-length xs)
positives-le-length (false ∷ xs) = omega (arith, positives-le-length xs)

pub common_member :
    (xs ys : List Bool)
    → length xs ≡ length ys
    → length xs < positives xs + positives ys
    → (i : ℕ) × (member xs i ≡ true) × (member ys i ≡ true)
common_member [] [] e h = absurd (omega arith)
common_member [] (y ∷ ys) e h = absurd (omega arith)
common_member (x ∷ xs) [] e h = absurd (omega arith)
common_member (true ∷ xs) (true ∷ ys) e h = (0, refl, refl)
common_member (true ∷ xs) (false ∷ ys) e h =
    let (i, p, q) = common_member xs ys (omega arith) (omega arith) in (suc i, p, q)
common_member (false ∷ xs) (true ∷ ys) e h =
    let (i, p, q) = common_member xs ys (omega arith) (omega arith) in (suc i, p, q)
common_member (false ∷ xs) (false ∷ ys) e h =
    let (i, p, q) = common_member xs ys (omega arith) (omega arith) in (suc i, p, q)

-- Two groups of nodes of one cluster, each with at least a quorum of members, share a node.
majorities_meet :
    (cfg : Config) (xs ys : List Bool)
    → length xs ≡ cluster_size cfg
    → length ys ≡ cluster_size cfg
    → quorum cfg ≤ positives xs
    → quorum cfg ≤ positives ys
    → (i : ℕ) × (member xs i ≡ true) × (member ys i ≡ true)
unfolding quorum
majorities_meet cfg xs ys hx hy qx qy = common_member xs ys (hx ∙ sym hy) (omega arith)
