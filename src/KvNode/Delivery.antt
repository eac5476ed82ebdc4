-- ===== src/KvNode/Delivery.antt =====
-- The queues of unacknowledged writes in kv_node.py: what `enqueue` and the settling of a batch do
-- to one queue, and why no write is lost between a queue and its peer.
use mathlib.Core.Path.{subst}
use system_design_course.Common.{
  ◌==◌, if◌then◌else◌, Bool-cases, In, Text, text_eq, text_eq_iff, text_eq_self, Dict, lookup,
  lookup-insert, lookup-erase, ◌≡◌, refl, ◌⊎◌, inl, inr, false, some, [], ◌∷◌, arith,
}
use system_design_course.KvNode.Version.{Record, version_gt, is_newer, version_ngt_trans}
use system_design_course.KvNode.Store.{Store, apply, offer}
use system_design_course.KvNode.Sync.{settle_one, settle_queue, apply_all}
use system_design_course.KvNode.Merge.{newest, newest-ngt, newest-ngt_self}
use system_design_course.KvNode.Convergence.{
  Covers, Covers-apply, Covers-apply_all, delivered-Covers,
}

-- The newer record of a key stays queued, in whichever order two writes arrive.
pub lookup-offer :
    (key j : Text) (r : Record) (q : Dict Record)
    → lookup j (offer key r q)
      ≡ (if text_eq key j then some (newest r (lookup j q)) else lookup j q)
unfolding offer is_newer newest
lookup-offer key j r q = ground (arith, lookup-insert key j r q, text_eq_iff key j)

offer-Covers : (key : Text) (r : Record) (q : Dict Record) → Covers (offer key r q) key r
offer-Covers key r q = (
  newest r (lookup key q),
  rw (lookup-offer key key r q, text_eq_self key) refl,
  newest-ngt_self r (lookup key q),
)

Covers-offer :
    (key j : Text) (r old : Record) (q : Dict Record)
    → Covers q j old
    → Covers (offer key r q) j old
Covers-offer key j r old q (cur, found, le) = elim (Bool-cases (text_eq key j)) [
  | inl same ↦ (
    newest r (some cur),
    rw (lookup-offer key j r q, same, found) refl,
    version_ngt_trans old.version cur.version (newest r (some cur)).version le (newest-ngt r cur),
  )
  | inr other ↦ (cur, rw (lookup-offer key j r q, other) found, le)
]

-- `is` compares objects: an item of the batch with the identity of a queued record is that record.
abbrev pub SameObjects : Dict Record → Dict Record → Type 0
SameObjects batch queue =
    (key : Text) (r : Record)
    → In (key, r) batch
    → (q : Record) → lookup key queue ≡ some q
    → q.ref ≡ r.ref
    → q ≡ r

lookup-settle_one :
    (k j : Text) (b q : Record) (queue : Dict Record)
    → lookup j (settle_one k b queue) ≡ some q
    → lookup j queue ≡ some q
unfolding settle_one
lookup-settle_one k j b q queue h = ground (arith, lookup-erase k j queue)

settle_one-Covers :
    (k key : Text) (b r : Record) (queue : Dict Record)
    → ((q : Record) → lookup k queue ≡ some q → q.ref ≡ b.ref → q ≡ b)
    → Covers queue key r
    → Covers (settle_one k b queue) key r ⊎ ((k ≡ key) × (version_gt r.version b.version ≡ false))
unfolding settle_one
settle_one-Covers k key b r queue same (cur, found, le) = elim (Bool-cases (text_eq k key)) [
  | inl here ↦
      let e : k ≡ key = (text_eq_iff k key).0 here in
      let found' : lookup k queue ≡ some cur = rw e found in
      elim (Bool-cases (cur.ref == b.ref)) [
        | inl ref ↦ inr (e, rw (same cur found' (ground arith)) at le)
        | inr other ↦ inl (cur, rw (found', settle_one) (rw other found), le)
      ]
  | inr apart ↦ inl (cur, ground (arith, lookup-erase k key queue), le)
]

-- The record of a key leaves the queue only by a settled item of the batch that is no older.
pub settle-Covers :
    (batch queue : Dict Record) (key : Text) (r : Record)
    → SameObjects batch queue
    → Covers queue key r
    → Covers (settle_queue batch queue) key r
      ⊎ ((q : Record) × In (key, q) batch × (version_gt r.version q.version ≡ false))
unfolding settle_queue
settle-Covers [] queue key r same h = inl h
settle-Covers ((k, b) ∷ batch) queue key r same h =
    elim (settle_one-Covers k key b r queue (same k b (inl refl)) h) [
      | inr (e, le) ↦ inr (b, inl (cc e), le)
      | inl still ↦
          elim (settle-Covers batch (settle_one k b queue) key r
            (λ j x here q found ref.
              same j x (inr here) q (lookup-settle_one k j b q queue found) ref)
            still) [ inl kept ↦ inl kept | inr (q, inside, le) ↦ inr (q, inr inside, le) ]
    ]

-- A node's queue for one peer, the store of that peer, and all that was ever queued for it.
pub record Link : Type 0 where
  pub offered : Dict Record
  pub queue : Dict Record
  pub peer : Store

-- A write is queued; the peer stores any record, from this node or another, acknowledged or not;
-- a batch is acknowledged, so the peer has stored it and the node settles it in its queue, which may
-- have changed since the batch was copied from it.
pub data LinkStep : Link → Link → Type 0 where
  write :
      (key : Text) (r : Record) (l : Link)
      → LinkStep l (record l { offered = (key, r) ∷ l.offered; queue = offer key r l.queue })
  receive :
      (key : Text) (r : Record) (l : Link) → LinkStep l (record l { peer = (apply key r l.peer).1 })
  acknowledge :
      (batch : Dict Record) (l : Link)
      → SameObjects batch l.queue
      → LinkStep l
          (record l { queue = settle_queue batch l.queue; peer = (apply_all batch l.peer).1 })

pub data LinkReach (start : Store) : Link → Type 0 where
  opened : LinkReach start (record { offered = []; queue = []; peer = start })
  after : {l m : Link} → LinkReach start l → LinkStep l m → LinkReach start m

-- Every queued write is still queued in that or a newer version, or the peer stores it so.
abbrev pub IsSafe : Link → Type 0
IsSafe l =
    (key : Text) (r : Record)
    → In (key, r) l.offered
    → Covers l.queue key r ⊎ Covers l.peer.entries key r

write-IsSafe :
    (key : Text) (r : Record) (l : Link)
    → IsSafe l
    → IsSafe (record l { offered = (key, r) ∷ l.offered; queue = offer key r l.queue })
write-IsSafe key r l safe j q (inl e) = inl (
    subst (λ (x : Text × Record). Covers (offer key r l.queue) x.0 x.1) e
      (offer-Covers key r l.queue))
write-IsSafe key r l safe j q (inr h) = elim (safe j q h) [
  | inl queued ↦ inl (Covers-offer key j r q l.queue queued)
  | inr stored ↦ inr stored
]

acknowledge-IsSafe :
    (batch : Dict Record) (l : Link)
    → SameObjects batch l.queue
    → IsSafe l
    → IsSafe (record l { queue = settle_queue batch l.queue; peer = (apply_all batch l.peer).1 })
acknowledge-IsSafe batch l same safe j q h = elim (safe j q h) [
  | inr stored ↦ inr (Covers-apply_all batch j q l.peer stored)
  | inl queued ↦ elim (settle-Covers batch l.queue j q same queued) [
    | inl kept ↦ inl kept
    | inr (b, inside, le) ↦
        let (new, found, le') = delivered-Covers batch j b l.peer inside in
        inr (new, found, version_ngt_trans q.version b.version new.version le le')
  ]
]

LinkStep-IsSafe : {l m : Link} → LinkStep l m → IsSafe l → IsSafe m
LinkStep-IsSafe (write key r l) safe = write-IsSafe key r l safe
LinkStep-IsSafe (receive key r l) safe = λ j q h. elim (safe j q h) [
  | inl queued ↦ inl queued
  | inr stored ↦ inr (Covers-apply key j r q l.peer stored)
]
LinkStep-IsSafe (acknowledge batch l same) safe = acknowledge-IsSafe batch l same safe

-- However queueing, deliveries and acknowledged batches interleave, no write is lost: for each
-- record ever queued for a peer, the queue or the peer's store holds one of its key that is no older.
pub LinkReach-IsSafe : {start : Store} {l : Link} → LinkReach start l → IsSafe l
LinkReach-IsSafe opened = λ key r h. absurd h
LinkReach-IsSafe (after reach step) = LinkStep-IsSafe step (LinkReach-IsSafe reach)
