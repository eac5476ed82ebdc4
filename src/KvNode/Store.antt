-- ===== src/KvNode/Store.antt =====
-- kv_node.py, `class Store`: the in-memory data, the Lamport clock and the queue of writes that each
-- peer still has to receive. Each method holds the lock for its whole body, so it is one step.
use system_design_course.Common.{
  if◌then◌else◌, length, Text, Dict, lookup, insert, ℕ, ◌+◌, ◌/◌, max, Bool, true, false, Option,
  none, some, List, [], ◌∷◌,
}
use mathlib.Core.Option
use system_design_course.KvNode.Version.{Record, is_newer}

-- The environment variables NODE_ID, PEERS (its names, in order) and MODE.
pub record Config : Type 0 where
  pub node_id : Text
  pub peers : List Text
  pub mode_default : Text

unfoldable pub cluster_size : Config → ℕ
cluster_size cfg = length cfg.peers + 1

unfoldable pub quorum : Config → ℕ
unfolding cluster_size
quorum cfg = cluster_size cfg / 2 + 1

-- `entries` is `self.data`; `next_ref` numbers the record objects that the node creates.
pub record Store : Type 0 where
  pub entries : Dict Record
  pub clock : ℕ
  pub pending : Dict (Dict Record)
  pub mode : Text
  pub ready : Bool
  pub next_ref : ℕ

unfoldable pub empty_queues : List Text → Dict (Dict Record)
empty_queues [] = []
empty_queues (peer ∷ peers) = (peer, []) ∷ empty_queues peers

unfoldable pub init : Config → Store
unfolding empty_queues
init cfg = record {
  entries = [];
  clock = 0;
  pending = empty_queues cfg.peers;
  mode = cfg.mode_default;
  ready = false;
  next_ref = 0;
}

unfoldable pub new_record : Config → Text → Store → Record × Store
new_record cfg value s =
    let clock = s.clock + 1 in
    (
      record {
        value = value;
        version = record { counter = clock; node = cfg.node_id };
        ref = s.next_ref;
      },
      record s { clock = clock; next_ref = s.next_ref + 1 },
    )

-- The result is whether the record was stored.
unfoldable pub apply : Text → Record → Store → Bool × Store
apply key r s =
    let ticked = record s { clock = max s.clock r.version.counter } in
    if is_newer r (lookup key s.entries)
    then (true, record ticked { entries = insert key r s.entries })
    else (false, ticked)

-- `if is_newer(record, queue.get(key)): queue[key] = record`
unfoldable pub offer : Text → Record → Dict Record → Dict Record
offer key r queue = if is_newer r (lookup key queue) then insert key r queue else queue

-- The loop of `enqueue` over `self.pending`; `none` is the KeyError of `self.pending[peer]` for a
-- name that is no peer.
unfoldable pub enqueue_queues :
    List Text → Text → Record → Dict (Dict Record) → Option (Dict (Dict Record))
enqueue_queues [] key r pending = some pending
enqueue_queues (peer ∷ peers) key r pending = elim (lookup peer pending) [
  | none ↦ none
  | some queue ↦ enqueue_queues peers key r (insert peer (offer key r queue) pending)
]

unfoldable pub enqueue : List Text → Text → Record → Store → Option Store
enqueue peers key r s =
    Option.map (λ pending. record s { pending = pending }) (enqueue_queues peers key r s.pending)

pub record Snapshot : Type 0 where
  pub clock : ℕ
  pub entries : Dict Record

unfoldable pub snapshot : Store → Snapshot
snapshot s = record { clock = s.clock; entries = s.entries }
