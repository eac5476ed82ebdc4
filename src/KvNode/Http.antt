-- ===== src/KvNode/Http.antt =====
-- kv_node.py, `class Handler`: the HTTP interface of a node. A request is its path and its decoded
-- body; a handler gives the reply that it sends and the store that it leaves. A handler is run
-- without other threads in between; KvNode/Clock.antt takes the locked steps apart.
use system_design_course.Common.{
  ltb, if◌then◌else◌, length, Text, codes, text_eq, starts_with, drop, strip, Dict, lookup, ℕ, Bool,
  not, ◌&&◌, Option, none, some, [], ◌∷◌,
}
use system_design_course.KvNode.Version.{Version, Record}
use system_design_course.KvNode.Store.{Config, quorum, Store, new_record, apply, enqueue, snapshot}
use system_design_course.KvNode.Quorum.{Network, visible_nodes, replicate_sync}

-- The values of the JSON objects that the node sends; `tenths n` is the float n / 10.
pub data Field : Type 0 where
  text : Text → Field
  number tenths : ℕ → Field
  flag : Bool → Field
  version : Version → Field
  records : Dict Record → Field
  counts : Dict ℕ → Field

pub record Reply : Type 0 where
  pub status : ℕ
  pub payload : Dict Field

abbrev pub reply : ℕ → Dict Field → Reply
reply status payload = record { status = status; payload = payload }

-- How a handler ends: with a reply, with a reply and the end of the process, or by an exception
-- that leaves the request without a reply.
pub data Outcome : Type 0 where
  replied : Reply → Store → Outcome
  exits : Reply → Outcome
  raises : Store → Outcome

abbrev pub kv_prefix : Text
kv_prefix = codes "/kv/"

unfoldable pub not_ready : Config → Reply
not_ready cfg =
    reply 503 ((codes "node", text cfg.node_id) ∷ (codes "error", text (codes "warming up")) ∷ [])

unfoldable pub not_found : Reply
not_found = reply 404 ((codes "error", text (codes "not found")) ∷ [])

unfoldable pub is_cp : Store → Bool
is_cp s = text_eq s.mode (codes "cp")

-- STORE.data.get(key), and the reply that shows it
unfoldable pub show_key : Config → Text → Option Record → Reply
show_key cfg key none = reply 404 (
    (codes "node", text cfg.node_id)
    ∷ (codes "key", text key)
    ∷ (codes "error", text (codes "not found"))
    ∷ [])
show_key cfg key (some r) = reply 200 (
    (codes "node", text cfg.node_id)
    ∷ (codes "key", text key)
    ∷ (codes "value", text r.value)
    ∷ (codes "version", version r.version)
    ∷ [])

unfoldable pub no_quorum_read : Config → ℕ → Reply
no_quorum_read cfg visible = reply 503 (
    (codes "node", text cfg.node_id)
    ∷ (codes "error", text (codes "no quorum"))
    ∷ (codes "visible_nodes", number visible)
    ∷ (codes "quorum", number (quorum cfg))
    ∷ [])

unfoldable pub get_key : Config → Network → Text → Store → Reply
unfolding not_ready is_cp
get_key cfg net key s =
    if not s.ready
    then not_ready cfg
    else if is_cp s && ltb (visible_nodes cfg net) (quorum cfg)
    then no_quorum_read cfg (visible_nodes cfg net)
    else show_key cfg key (lookup key s.entries)

abbrev pub queue_lengths : Dict (Dict Record) → Dict ℕ
queue_lengths [] = []
queue_lengths ((peer, queue) ∷ pending) = (peer, length queue) ∷ queue_lengths pending

unfoldable pub admin_state : Config → Store → Reply
admin_state cfg s = reply 200 (
    (codes "node", text cfg.node_id)
    ∷ (codes "mode", text s.mode)
    ∷ (codes "ready", flag s.ready)
    ∷ (codes "clock", number s.clock)
    ∷ (codes "keys", number (length s.entries))
    ∷ (codes "pending", counts (queue_lengths s.pending))
    ∷ [])

-- `uptime` is the rounded uptime in tenths of a second.
unfoldable pub do_get : Config → Network → ℕ → Text → Store → Reply
unfolding get_key admin_state not_found
do_get cfg net uptime path s =
    if text_eq path (codes "/health/live")
    then reply 200 (
        (codes "node", text cfg.node_id)
        ∷ (codes "status", text (codes "alive"))
        ∷ (codes "uptime_s", tenths uptime)
        ∷ [])
    else if text_eq path (codes "/health/ready")
    then reply (if s.ready then 200 else 503) (
        (codes "node", text cfg.node_id)
        ∷ (codes "status", text (if s.ready then codes "ready" else codes "warming up"))
        ∷ [])
    else if text_eq path (codes "/internal/snapshot")
    then reply 200 (
        (codes "clock", number (snapshot s).clock)
        ∷ (codes "data", records (snapshot s).entries)
        ∷ [])
    else if text_eq path (codes "/admin/state")
    then admin_state cfg s
    else if starts_with path kv_prefix
    then get_key cfg net (drop (length kv_prefix) path) s
    else not_found

unfoldable pub rejected : Config → ℕ → Reply
rejected cfg acks = reply 503 (
    (codes "node", text cfg.node_id)
    ∷ (codes "mode", text (codes "cp"))
    ∷ (codes "error", text (codes "no quorum"))
    ∷ (codes "acks", number acks)
    ∷ (codes "quorum", number (quorum cfg))
    ∷ [])

unfoldable pub committed : Config → Text → Record → ℕ → Reply
committed cfg key r acks = reply 200 (
    (codes "node", text cfg.node_id)
    ∷ (codes "mode", text (codes "cp"))
    ∷ (codes "key", text key)
    ∷ (codes "version", version r.version)
    ∷ (codes "acks", number acks)
    ∷ (codes "quorum", number (quorum cfg))
    ∷ [])

unfoldable pub accepted : Config → Text → Record → Reply
accepted cfg key r = reply 200 (
    (codes "node", text cfg.node_id)
    ∷ (codes "mode", text (codes "ap"))
    ∷ (codes "key", text key)
    ∷ (codes "version", version r.version)
    ∷ (codes "acks", number 1)
    ∷ (codes "replication", text (codes "async"))
    ∷ [])

-- The CP branch of `do_PUT`, from the new record on.
unfoldable pub put_cp : Config → Network → Text → Record → Store → Outcome
put_cp cfg net key r s = elim (replicate_sync cfg net key r s) [
  | none ↦ raises s
  | some (acks, s') ↦
      if ltb acks (quorum cfg)
      then replied (rejected cfg acks) s'
      else replied (committed cfg key r acks) (apply key r s').1
]

-- The AP branch.
unfoldable pub put_ap : Config → Text → Record → Store → Outcome
put_ap cfg key r s =
    let s' = (apply key r s).1 in
    elim (enqueue cfg.peers key r s') [
      | none ↦ raises s'
      | some s'' ↦ replied (accepted cfg key r) s''
    ]

unfoldable pub do_put : Config → Network → Text → Text → Store → Outcome
unfolding not_found not_ready is_cp
do_put cfg net path body s =
    if not (starts_with path kv_prefix)
    then replied not_found s
    else if not s.ready
    then replied (not_ready cfg) s
    else let key = drop (length kv_prefix) path in
      let (r, s') = new_record cfg (strip body) s in
      if is_cp s' then put_cp cfg net key r s' else put_ap cfg key r s'
