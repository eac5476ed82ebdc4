-- ===== src/KvNode/Sync.antt =====
-- kv_node.py: background anti-entropy (`sync_loop`), the delivery of a batch at the peer, and the
-- start of a node (`warm_up`). One round is modelled; what other threads do to the store while a
-- batch is in flight is a parameter.
use system_design_course.Common.{
  ◌==◌, if◌then◌else◌, Text, Dict, lookup, insert, erase, ℕ, ◌+◌, Bool, true, Option, none, some,
  List, [], ◌∷◌,
}
use system_design_course.KvNode.Version.{Record}
use system_design_course.KvNode.Store.{Store, apply}

-- Under the lock after a delivered batch: `if pending.get(key) is record: del pending[key]`.
unfoldable pub settle_one : Text → Record → Dict Record → Dict Record
settle_one key r queue = elim (lookup key queue) [
  | none ↦ queue
  | some current ↦ if current.ref == r.ref then erase key queue else queue
]

unfoldable pub settle_queue : Dict Record → Dict Record → Dict Record
settle_queue [] queue = queue
settle_queue ((key, r) ∷ queued) queue = settle_queue queued (settle_one key r queue)

-- One peer's turn in the loop. `send` says whether the peer acknowledged the batch, `meanwhile` is
-- what other threads did to the store during the call. `none` is the KeyError on `pending[peer]`.
unfoldable pub sync_peer : (Dict Record → Bool) → (Store → Store) → Text → Store → Option Store
unfolding settle_queue
sync_peer send meanwhile peer s = elim (lookup peer s.pending) [
  | none ↦ none
  | some [] ↦ some s
  | some (e ∷ queued) ↦
      let s' = meanwhile s in
      if send (e ∷ queued)
      then elim (lookup peer s'.pending) [
        | none ↦ none
        | some queue ↦
            some (record s' { pending = insert peer (settle_queue (e ∷ queued) queue) s'.pending })
      ]
      else some s'
]

unfoldable pub sync_round :
    (Text → Dict Record → Bool) → (Text → Store → Store) → List Text → Store → Option Store
unfolding sync_peer
sync_round send meanwhile [] s = some s
sync_round send meanwhile (peer ∷ peers) s = elim (sync_peer (send peer) (meanwhile peer) peer s) [
  | none ↦ none
  | some s' ↦ sync_round send meanwhile peers s'
]

-- `sum(STORE.apply(item["key"], item["record"]) for item in records)`: the number applied.
unfoldable pub apply_all : Dict Record → Store → ℕ × Store
apply_all [] s = (0, s)
apply_all ((key, r) ∷ items) s =
    let (stored, s') = apply key r s in
    let (count, s'') = apply_all items s' in ((if stored then count + 1 else count), s'')

-- `snapshots` holds each peer's answer to /internal/snapshot: `none` where the call failed.
unfoldable pub warm_up : List (Option (Dict Record)) → Store → Store
unfolding apply_all
warm_up [] s = record s { ready = true }
warm_up (none ∷ snapshots) s = warm_up snapshots s
warm_up (some snap ∷ snapshots) s = warm_up snapshots (apply_all snap s).1
