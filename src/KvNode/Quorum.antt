-- ===== src/KvNode/Quorum.antt =====
-- kv_node.py: counting answers up to a majority, and the CP paths that use it. The answers of the
-- peers, and the order in which they arrive, come from outside.
use system_design_course.Common.{
  leb, if◌then◌else◌, Text, ℕ, ◌+◌, Bool, Option, none, some, List, [], ◌∷◌, map,
}
use system_design_course.KvNode.Version.{Record}
use mathlib.Core.Option
use system_design_course.KvNode.Store.{Config, quorum, Store, enqueue}

-- What the network does during one request: `answers` is whether the call to a peer succeeds, and
-- `order` lists the peers in the order in which their futures complete.
pub record Network : Type 0 where
  pub answers : Text → Bool
  pub order : List Text

-- The loop of `count_until_quorum`: `break` as soon as the votes reach the quorum.
unfoldable pub count_votes : ℕ → ℕ → List Bool → ℕ
count_votes q votes [] = votes
count_votes q votes (result ∷ results) =
    let votes' = if result then votes + 1 else votes in
    let rest = count_votes q votes' results in if leb q votes' then votes' else rest

unfoldable pub count_until_quorum : ℕ → List Bool → ℕ
unfolding count_votes
count_until_quorum q results = count_votes q 1 results

unfoldable pub visible_nodes : Config → Network → ℕ
unfolding count_until_quorum
visible_nodes cfg net = count_until_quorum (quorum cfg) (map net.answers net.order)

-- The callbacks on the futures, in the order of PEERS: a peer that misses the write is queued. A
-- future that is still running when the reply goes out runs its callback later; its `enqueue`
-- touches `pending` alone, which neither `apply` nor the reply reads.
unfoldable pub queue_missed : (Text → Bool) → List Text → Text → Record → Store → Option Store
queue_missed answers [] key r s = some s
queue_missed answers (peer ∷ peers) key r s =
    if answers peer
    then queue_missed answers peers key r s
    else elim (enqueue (peer ∷ []) key r s) [
      | none ↦ none
      | some s' ↦ queue_missed answers peers key r s'
    ]

unfoldable pub replicate_sync : Config → Network → Text → Record → Store → Option (ℕ × Store)
unfolding count_until_quorum queue_missed
replicate_sync cfg net key r s =
    let acks = count_until_quorum (quorum cfg) (map net.answers net.order) in
    if leb (quorum cfg) acks
    then Option.map (λ s'. (acks, s')) (queue_missed net.answers cfg.peers key r s)
    else some (acks, s)
