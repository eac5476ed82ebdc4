-- ===== src/KvNode/Frame.antt =====
-- What `Store.enqueue` of kv_node.py leaves alone, and when it cannot raise.
use mathlib.Core.Option.{some-injective}
use mathlib.Core.Path.{subst}
use system_design_course.Common.{
  Bool-cases, Option-cases, All, Text, text_eq_self, Dict, lookup, has_key, insert, lookup-insert,
  ◌≡◌, refl, ◌∙◌, inl, inr, Bool, true, some, List, [], ◌∷◌, arith,
}
use system_design_course.KvNode.Version.{Record}
use system_design_course.KvNode.Store.{
  Config, Store, empty_queues, init, offer, enqueue_queues, enqueue,
}
use system_design_course.KvNode.Quorum.{queue_missed}

module _ (peers : List Text) (key : Text) (r : Record) (s t : Store)
    (h : enqueue peers key r s ≡ some t) where
  pub entries-enqueue : t.entries ≡ s.entries
  unfolding enqueue
  entries-enqueue = ground (arith)

  pub clock-enqueue : t.clock ≡ s.clock
  unfolding enqueue
  clock-enqueue = ground (arith)

-- Every name of the list has a queue.
abbrev pub AllQueued : List Text → Dict (Dict Record) → Type 0
AllQueued peers pending = All (λ peer. has_key peer pending ≡ true) peers

has_key-insert :
    (k j : Text) (q : Dict Record) (pending : Dict (Dict Record))
    → has_key j pending ≡ true
    → has_key j (insert k q pending) ≡ true
unfolding has_key
has_key-insert k j q pending h = ground (arith, lookup-insert k j q pending)

AllQueued-insert :
    (peers : List Text) (k : Text) (q : Dict Record) (pending : Dict (Dict Record))
    → AllQueued peers pending
    → AllQueued peers (insert k q pending)
AllQueued-insert [] k q pending h = tt
AllQueued-insert (p ∷ peers) k q pending h =
    (has_key-insert k p q pending h.0, AllQueued-insert peers k q pending h.1)

enqueue_queues_total :
    (peers : List Text) (key : Text) (r : Record) (pending : Dict (Dict Record))
    → AllQueued peers pending
    → (result : Dict (Dict Record)) × (enqueue_queues peers key r pending ≡ some result)
unfolding enqueue_queues has_key
enqueue_queues_total [] key r pending h = (pending, refl)
enqueue_queues_total (peer ∷ peers) key r pending h = elim (Option-cases (lookup peer pending)) [
  | inl missing ↦ absurd (cc (missing, h.0))
  | inr (queue, found) ↦
      let (result, e) =
        enqueue_queues_total peers key r (insert peer (offer key r queue) pending)
          (AllQueued-insert peers peer (offer key r queue) pending h.1) in
      (result, rw (found, enqueue_queues) e)
]

enqueue_queues-AllQueued :
    (peers others : List Text) (key : Text) (r : Record) (pending result : Dict (Dict Record))
    → enqueue_queues peers key r pending ≡ some result
    → AllQueued others pending
    → AllQueued others result
unfolding enqueue_queues
enqueue_queues-AllQueued [] others key r pending result e h =
    subst (AllQueued others) (some-injective pending result e) h
enqueue_queues-AllQueued (peer ∷ peers) others key r pending result e h =
    elim (Option-cases (lookup peer pending)) [
      | inl missing ↦ absurd (cc (rw (missing, enqueue_queues) at e))
      | inr (queue, found) ↦
          enqueue_queues-AllQueued peers others key r (insert peer (offer key r queue) pending)
            result (rw (found, enqueue_queues) at e)
            (AllQueued-insert others peer (offer key r queue) pending h)
    ]

-- The second store differs from the first in its queues alone.
pub record SameButQueues (s t : Store) : Type 0 where
  pub entries : t.entries ≡ s.entries
  pub clock : t.clock ≡ s.clock
  pub mode : t.mode ≡ s.mode
  pub ready : t.ready ≡ s.ready

-- While every peer has its queue, `enqueue` for peers never raises, changes nothing but queues and
-- takes none away.
pub enqueue_total :
    (peers others : List Text) (key : Text) (r : Record) (s : Store)
    → AllQueued peers s.pending
    → AllQueued others s.pending
    → (t : Store) × (enqueue peers key r s ≡ some t)
      × SameButQueues s t
      × AllQueued others t.pending
unfolding enqueue
enqueue_total peers others key r s h k =
    let (result, e) = enqueue_queues_total peers key r s.pending h in
    (
      record s { pending = result },
      rw e refl,
      record { entries = refl; clock = refl; mode = refl; ready = refl },
      enqueue_queues-AllQueued peers others key r s.pending result e k,
    )

-- So too for the callbacks of a committed CP write.
pub queue_missed_total :
    (answers : Text → Bool) (peers : List Text) (key : Text) (r : Record) (s : Store)
    → AllQueued peers s.pending
    → (t : Store) × (queue_missed answers peers key r s ≡ some t) × SameButQueues s t
unfolding queue_missed
queue_missed_total answers [] key r s h =
    (s, refl, record { entries = refl; clock = refl; mode = refl; ready = refl })
queue_missed_total answers (peer ∷ peers) key r s h = elim (Bool-cases (answers peer)) [
  | inl stored ↦
      let (t, e, same) = queue_missed_total answers peers key r s h.1 in (t, rw stored e, same)
  | inr missed ↦
      let (u, sent, same, k) = enqueue_total (peer ∷ []) peers key r s (h.0, tt) h.1 in
      let (t, e, same') = queue_missed_total answers peers key r u k in
      (
        t,
        rw missed (rw (sent, queue_missed) e),
        record {
          entries = same'.entries ∙ same.entries;
          clock = same'.clock ∙ same.clock;
          mode = same'.mode ∙ same.mode;
          ready = same'.ready ∙ same.ready;
        },
      )
]

has_key-cons :
    (k j : Text) (q : Dict Record) (pending : Dict (Dict Record))
    → has_key j pending ≡ true
    → has_key j ((k, q) ∷ pending) ≡ true
unfolding has_key
has_key-cons k j q pending h = ground arith

AllQueued-cons :
    (peers : List Text) (k : Text) (q : Dict Record) (pending : Dict (Dict Record))
    → AllQueued peers pending
    → AllQueued peers ((k, q) ∷ pending)
AllQueued-cons [] k q pending h = tt
AllQueued-cons (p ∷ peers) k q pending h =
    (has_key-cons k p q pending h.0, AllQueued-cons peers k q pending h.1)

has_key-cons_self :
    (k : Text) (q : Dict Record) (pending : Dict (Dict Record))
    → has_key k ((k, q) ∷ pending) ≡ true
unfolding has_key
has_key-cons_self k q pending = ground (arith, text_eq_self k)

AllQueued-empty_queues : (peers : List Text) → AllQueued peers (empty_queues peers)
unfolding empty_queues
AllQueued-empty_queues [] = tt
AllQueued-empty_queues (peer ∷ peers) = (
  has_key-cons_self peer [] (empty_queues peers),
  AllQueued-cons peers peer [] (empty_queues peers) (AllQueued-empty_queues peers),
)

-- A node starts with a queue for each peer.
pub init-AllQueued : (cfg : Config) → AllQueued cfg.peers (init cfg).pending
unfolding init
init-AllQueued cfg = AllQueued-empty_queues cfg.peers
