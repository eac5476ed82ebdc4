-- ===== src/KvNode/Replies.antt =====
-- What a client of kv_node.py sees: the availability of both replication modes, and reading what
-- was written.
use system_design_course.Common.{
  ltb, if◌then◌else◌, length, Text, text_eq, starts_with, strip, lookup, insert, lookup-insert_self,
  ℕ, ◌+◌, ◌≤◌, ◌<◌, min, ◌≡◌, refl, ◌∙◌, true, false, ◌&&◌, some, [], ◌++◌, map, arith,
}
use system_design_course.KvNode.Version.{Record}
use system_design_course.KvNode.Store.{Config, quorum, Store, new_record, apply}
use system_design_course.KvNode.Quorum.{Network, visible_nodes, replicate_sync}
use system_design_course.KvNode.Http.{
  kv_prefix, not_ready, is_cp, show_key, no_quorum_read, get_key, do_get, rejected, committed,
  accepted, put_cp, put_ap, do_put, replied,
}
use system_design_course.KvNode.Majority.{positives, count_until_quorum-eq-min, two-le-quorum}
use system_design_course.KvNode.Frame.{AllQueued, SameButQueues, enqueue_total, queue_missed_total}
use system_design_course.KvNode.Clock.{Node, Reach, own_write_wins}

-- The nodes that answer during a request, this one included.
abbrev pub answering : Network → ℕ
answering net = 1 + positives (map net.answers net.order)

visible-eq-min :
    (cfg : Config) (net : Network)
    → 1 ≤ length cfg.peers
    → visible_nodes cfg net ≡ min (quorum cfg) (answering net)
unfolding visible_nodes
visible-eq-min cfg net h =
    count_until_quorum-eq-min (quorum cfg) (map net.answers net.order) (two-le-quorum cfg h)

-- In CP mode a ready node refuses a read exactly when fewer nodes than the quorum answer, and then
-- reports how many; otherwise, and in AP mode always, it shows what it stores.
pub get_key_availability :
    (cfg : Config) (net : Network) (key : Text) (s : Store)
    → 1 ≤ length cfg.peers
    → s.ready ≡ true
    → get_key cfg net key s ≡ (
        if is_cp s && ltb (answering net) (quorum cfg)
        then no_quorum_read cfg (answering net)
        else show_key cfg key (lookup key s.entries))
unfolding get_key
get_key_availability cfg net key s h ready = ground (arith, visible-eq-min cfg net h)

read_path :
    (cfg : Config) (net : Network) (uptime : ℕ) (key : Text) (s : Store)
    → do_get cfg net uptime (kv_prefix ++ key) s ≡ get_key cfg net key s
unfolding do_get text_eq starts_with
read_path cfg net uptime key s = refl

-- The record that a PUT of the text makes.
abbrev made : Config → Text → Store → Record × Store
made cfg body s = new_record cfg (strip body) s

put_path :
    (cfg : Config) (net : Network) (key body : Text) (s : Store)
    → s.ready ≡ true
    → do_put cfg net (kv_prefix ++ key) body s ≡ (
        let (r, t) = made cfg body s in
        if is_cp s then put_cp cfg net key r t else put_ap cfg key r t)
unfolding do_put starts_with is_cp new_record
put_path cfg net key body s ready = rw ready refl

-- Before the node is ready, it answers reads and writes of keys with 503 and changes nothing.
refuses_until_ready :
    (cfg : Config) (net : Network) (uptime : ℕ) (key body : Text) (s : Store)
    → s.ready ≡ false
    → (do_get cfg net uptime (kv_prefix ++ key) s ≡ not_ready cfg)
      × (do_put cfg net (kv_prefix ++ key) body s ≡ replied (not_ready cfg) s)
unfolding do_put starts_with get_key
refuses_until_ready cfg net uptime key body s ready =
    (read_path cfg net uptime key s ∙ rw (ready, get_key) refl, rw ready refl)

put_ap_lem :
    (cfg : Config) (key : Text) (r : Record) (s : Store)
    → apply key r s ≡ (true, record s { entries = insert key r s.entries })
    → AllQueued cfg.peers s.pending
    → (t : Store) × (put_ap cfg key r s ≡ replied (accepted cfg key r) t)
      × SameButQueues (record s { entries = insert key r s.entries }) t
unfolding put_ap
put_ap_lem cfg key r s wins queued =
    let (t, sent, same, _) =
      enqueue_total cfg.peers [] key r (record s { entries = insert key r s.entries }) queued tt in
    (t, rw (wins, put_ap) (rw (sent, put_ap) refl), same)

-- In AP mode a ready node acknowledges a write whatever the network does, and a read of the key
-- then shows the stripped text with the version of that write.
pub ap_put_then_get :
    (cfg : Config) (net net' : Network) (uptime : ℕ) (key body : Text) (n : Node)
    → Reach cfg n
    → n.store.ready ≡ true
    → is_cp n.store ≡ false
    → AllQueued cfg.peers n.store.pending
    → let r = (made cfg body n.store).0 in
      (t : Store) × (do_put cfg net (kv_prefix ++ key) body n.store
        ≡ replied (accepted cfg key r) t)
      × (do_get cfg net' uptime (kv_prefix ++ key) t ≡ show_key cfg key (some r))
unfolding new_record is_cp get_key
ap_put_then_get cfg net net' uptime key body n reach ready is_ap queued =
    let (r, s) = made cfg body n.store in
    let (t, put, same) =
      put_ap_lem cfg key r s (own_write_wins cfg n key (strip body) reach) queued in
    (
      t,
      put_path cfg net key body n.store ready ∙ rw is_ap put,
      read_path cfg net' uptime key t
          ∙ ground (arith, same.ready, same.mode, same.entries, lookup-insert_self key r s.entries),
    )

replicate_commits :
    (cfg : Config) (net : Network) (key : Text) (r : Record) (s : Store)
    → 1 ≤ length cfg.peers
    → AllQueued cfg.peers s.pending
    → quorum cfg ≤ answering net
    → (t : Store) × (replicate_sync cfg net key r s ≡ some (quorum cfg, t)) × SameButQueues s t
unfolding replicate_sync visible_nodes
replicate_commits cfg net key r s h queued reached =
    let (t, e, same) = queue_missed_total net.answers cfg.peers key r s queued in
    (t, ground (arith, visible-eq-min cfg net h), same)

replicate_rejects :
    (cfg : Config) (net : Network) (key : Text) (r : Record) (s : Store)
    → 1 ≤ length cfg.peers
    → answering net < quorum cfg
    → replicate_sync cfg net key r s ≡ some (answering net, s)
unfolding replicate_sync visible_nodes
replicate_rejects cfg net key r s h few = ground (arith, visible-eq-min cfg net h)

-- In CP mode a ready node commits a write if a quorum of nodes, itself included, answers: the reply
-- then counts a quorum of acknowledgements, and the record has been applied to what was stored.
pub cp_put_commits :
    (cfg : Config) (net : Network) (key body : Text) (s : Store)
    → 1 ≤ length cfg.peers
    → s.ready ≡ true
    → is_cp s ≡ true
    → AllQueued cfg.peers s.pending
    → quorum cfg ≤ answering net
    → let r = (made cfg body s).0 in
      (t : Store) × (do_put cfg net (kv_prefix ++ key) body s
        ≡ replied (committed cfg key r (quorum cfg)) (apply key r t).1)
      × (t.entries ≡ s.entries)
unfolding put_cp new_record
cp_put_commits cfg net key body s h ready cp queued reached =
    let (r, u) = made cfg body s in
    let (t, e, same) = replicate_commits cfg net key r u h queued reached in
    (t, put_path cfg net key body s ready ∙ rw cp (rw (e, put_cp) (ground arith)), same.entries)

-- In CP mode a write that fewer nodes than the quorum answer is rejected with their number, and
-- nothing but the clock and the numbering of records has changed.
pub cp_put_rejects :
    (cfg : Config) (net : Network) (key body : Text) (s : Store)
    → 1 ≤ length cfg.peers
    → s.ready ≡ true
    → is_cp s ≡ true
    → answering net < quorum cfg
    → do_put cfg net (kv_prefix ++ key) body s
      ≡ replied
          (rejected cfg (answering net))
          (record s { clock = s.clock + 1; next_ref = s.next_ref + 1 })
unfolding put_cp new_record
cp_put_rejects cfg net key body s h ready cp few =
    let (r, u) = made cfg body s in
    put_path cfg net key body s ready
    ∙ rw cp (rw (replicate_rejects cfg net key r u h few, put_cp) (ground arith))
