-- ===== src/KvNode/Clock.antt =====
-- The Lamport clock of kv_node.py under any interleaving of the locked sections that the handler,
-- sync and callback threads run. A node's state is its store with every record that the store, a
-- queue or a running handler may still hand on; `issued` lists the versions that it has given out.
use system_design_course.Common.{
  Option-cases, All, Text, Dict, lookup, insert, lookup-insert, ℕ, ◌+◌, ◌≤◌, ◌<◌, ◌≡◌, inl, inr,
  true, some, List, [], ◌∷◌, arith,
}
use system_design_course.KvNode.Version.{Version, Record, version_gt, is_newer}
use system_design_course.KvNode.Store.{Config, Store, init, new_record, apply, enqueue}
use system_design_course.KvNode.Sync.{settle_queue}
use system_design_course.KvNode.Frame.{entries-enqueue, clock-enqueue}

pub record Node : Type 0 where
  pub store : Store
  pub issued : List Version

abbrev pub fresh_node : Config → Node
fresh_node cfg = record { store = init cfg; issued = [] }

-- One locked section. A PUT takes `issue`, then `receive` and `queue` for the record that it made;
-- /internal/replicate and `warm_up` take `receive`, the callbacks `queue`, `sync_loop` `settle`.
pub data Step (cfg : Config) : Node → Node → Type 0 where
  issue :
      (value : Text) (n : Node)
      → Step cfg n (record n {
        store = (new_record cfg value n.store).1;
        issued = (new_record cfg value n.store).0.version ∷ n.issued;
      })
  receive :
      (key : Text) (r : Record) (n : Node)
      → Step cfg n (record n { store = (apply key r n.store).1 })
  queue :
      (key : Text) (r : Record) (peers : List Text) {s : Store} (n : Node)
      → enqueue peers key r n.store ≡ some s
      → Step cfg n (record n { store = s })
  settle :
      (peer : Text) (batch pending : Dict Record) (n : Node)
      → lookup peer n.store.pending ≡ some pending
      → Step cfg n (record n {
        store = record (n.store) {
          pending = insert peer (settle_queue batch pending) n.store.pending;
        };
      })
  switch :
      (mode : Text) (n : Node) → Step cfg n (record n { store = record (n.store) { mode = mode } })
  serve : (n : Node) → Step cfg n (record n { store = record (n.store) { ready = true } })

pub data Reach (cfg : Config) : Node → Type 0 where
  boot : Reach cfg (fresh_node cfg)
  next : {m n : Node} → Reach cfg m → Step cfg m n → Reach cfg n

abbrev pub BoundedBy : ℕ → List Version → Type 0
BoundedBy c = All (λ v. v.counter ≤ c)

-- Each version has a greater counter than those given out before it.
abbrev pub Decreasing : List Version → Type 0
Decreasing [] = Unit
Decreasing (v ∷ vs) = All (λ w. w.counter < v.counter) vs × Decreasing vs

pub record IsClocked (n : Node) : Type 0 where
  pub stored :
      (key : Text) (r : Record)
      → lookup key n.store.entries ≡ some r
      → r.version.counter ≤ n.store.clock
  pub bounded : BoundedBy n.store.clock n.issued
  pub decreasing : Decreasing n.issued

BoundedBy-mono : (c d : ℕ) (vs : List Version) → c ≤ d → BoundedBy c vs → BoundedBy d vs
BoundedBy-mono c d [] h b = tt
BoundedBy-mono c d (v ∷ vs) h b = (omega arith, BoundedBy-mono c d vs h b.1)

BoundedBy-lt : (c : ℕ) (vs : List Version) → BoundedBy c vs → All (λ w. w.counter < c + 1) vs
BoundedBy-lt c [] b = tt
BoundedBy-lt c (v ∷ vs) b = (omega arith, BoundedBy-lt c vs b.1)

receive-stored :
    (key : Text) (r : Record) (s : Store)
    → ((j : Text) (q : Record) → lookup j s.entries ≡ some q → q.version.counter ≤ s.clock)
    → (j : Text) (q : Record) → lookup j (apply key r s).1.entries ≡ some q
    → q.version.counter ≤ (apply key r s).1.clock
unfolding apply
receive-stored key r s old j q h = ground (arith, lookup-insert key j r s.entries, old j q)

apply_clock : (key : Text) (r : Record) (s : Store) → s.clock ≤ (apply key r s).1.clock
unfolding apply
apply_clock key r s = ground arith

Step-IsClocked : (cfg : Config) {m n : Node} → Step cfg m n → IsClocked m → IsClocked n
unfolding new_record
Step-IsClocked cfg (issue value n) h = record {
  stored = λ key r found. ground (arith, h.stored key r found);
  bounded = (
    omega arith,
    BoundedBy-mono n.store.clock (n.store.clock + 1) n.issued (omega arith) h.bounded,
  );
  decreasing = (BoundedBy-lt n.store.clock n.issued h.bounded, h.decreasing);
}
Step-IsClocked cfg (receive key r n) h = record {
  stored = receive-stored key r n.store h.stored;
  bounded =
      BoundedBy-mono n.store.clock (apply key r n.store).1.clock n.issued
        (apply_clock key r n.store) h.bounded;
  decreasing = h.decreasing;
}
Step-IsClocked cfg (queue key r peers {s} n e) h = record {
  stored = λ j q found.
      rw (clock-enqueue peers key r n.store s e)
        (h.stored j q (rw (entries-enqueue peers key r n.store s e) at found));
  bounded = rw (clock-enqueue peers key r n.store s e) h.bounded;
  decreasing = h.decreasing;
}
Step-IsClocked cfg (settle peer batch pending n e) h = record {
  stored = h.stored;
  bounded = h.bounded;
  decreasing = h.decreasing;
}
Step-IsClocked cfg (switch mode n) h = record {
  stored = h.stored;
  bounded = h.bounded;
  decreasing = h.decreasing;
}
Step-IsClocked cfg (serve n) h = record {
  stored = h.stored;
  bounded = h.bounded;
  decreasing = h.decreasing;
}

fresh-IsClocked : (cfg : Config) → IsClocked (fresh_node cfg)
unfolding init lookup
fresh-IsClocked cfg = record {
  stored = λ key r found. absurd (cc found);
  bounded = tt;
  decreasing = tt;
}

-- Under every interleaving of the locked sections since the start of the process, the clock is at
-- least the counter of every stored record, and each version that the node gave out has a greater
-- counter than those before it, so no two are equal.
pub Reach-IsClocked : (cfg : Config) {n : Node} → Reach cfg n → IsClocked n
Reach-IsClocked cfg boot = fresh-IsClocked cfg
Reach-IsClocked cfg (next r st) = Step-IsClocked cfg st (Reach-IsClocked cfg r)

-- A record that a node has just made is newer than what it stores, so its own write wins there.
pub own_write_wins :
    (cfg : Config) (n : Node) (key value : Text)
    → Reach cfg n
    → let (r, s) = new_record cfg value n.store in
      apply key r s ≡ (true, record s { entries = insert key r s.entries })
unfolding new_record apply is_newer version_gt
own_write_wins cfg n key value reach = elim (Option-cases (lookup key n.store.entries)) [
  | inl missing ↦ ground arith
  | inr (cur, found) ↦ ground (arith, (Reach-IsClocked cfg reach).stored key cur found)
]
