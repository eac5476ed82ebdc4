-- ===== src/Gateway/Conservation.antt =====
-- No message is lost or counted twice in gateway.py: what was sent since the last purge is waiting,
-- dead-lettered or deleted, through every sequence of operations.
use system_design_course.Common.{
  Option-cases, length, length-append, Text, text_eq_iff, Dict, lookup, insert, insert-UniqueKeys,
  length-erase, length-insert_new, ℕ, ◌+◌, ◌≡◌, refl, ap, ◌∙◌, inl, inr, none, List, [], ◌∷◌, arith,
}
use system_design_course.Gateway.Queue.{
  Settings, Message, Queue, Body, new_message, send, receive, delete, fail, purge,
}
use system_design_course.Gateway.Receive.{IsKeyed, length-receive_loop_messages}
use system_design_course.Gateway.Settle.{IsWellFormed, delete-IsWellFormed, fail-IsWellFormed}
use system_design_course.Gateway.Retries.{receive_batch}

-- The calls that change a queue.
pub data Op : Type 0 where
  sent : ℕ → List (Text × Body) → Op
  received : ℕ → ℕ → ℕ → Op
  removed : Text → Op
  failed : Text → Op
  purged : Op

unfoldable pub run_op : Settings → Op → Queue → Queue
run_op cfg (sent now_ms bodies) q = (send now_ms bodies q).1
run_op cfg (received now now_ms limit) q = (receive cfg now now_ms limit q).1
run_op cfg (removed message_id) q = delete message_id q
run_op cfg (failed message_id) q = (fail cfg message_id q).1
run_op cfg purged q = (purge q).1

unfoldable pub run_ops : Settings → List Op → Queue → Queue
run_ops cfg [] q = q
run_ops cfg (op ∷ ops) q = run_ops cfg ops (run_op cfg op q)

-- Every message that the queue accounts for.
abbrev pub total : Queue → ℕ
total q = length q.messages + length q.dead_letters + q.deleted

-- The messages sent since the last purge, after so many before.
abbrev pub sent_after : List Op → ℕ → ℕ
sent_after [] n = n
sent_after (sent now_ms bodies ∷ ops) n = sent_after ops (n + length bodies)
sent_after (purged ∷ ops) n = sent_after ops 0
sent_after (_ ∷ ops) n = sent_after ops n

-- The queue with a message of the given id and body.
abbrev put : ℕ → Text × Body → Queue → Queue
put now_ms e q = (send now_ms (e ∷ []) q).1

-- `uuid4` draws ids that the queue does not hold, the ones drawn before included.
abbrev pub NewIds : ℕ → List (Text × Body) → Queue → Type 0
NewIds now_ms [] q = Unit
NewIds now_ms (e ∷ bodies) q =
    (lookup e.0 q.messages ≡ none) × NewIds now_ms bodies (put now_ms e q)

insert-IsKeyed :
    (k : Text) (m : Message) (d : Dict Message)
    → m.message_id ≡ k
    → IsKeyed d
    → IsKeyed (insert k m d)
unfolding insert
insert-IsKeyed k m [] e h = (e, tt)
insert-IsKeyed k m ((j, x) ∷ d) e h = ground (arith, insert-IsKeyed k m d e h.1, text_eq_iff j k)

put_accounts :
    (now_ms : ℕ) (e : Text × Body) (q : Queue)
    → lookup e.0 q.messages ≡ none
    → IsWellFormed q
    → (total (put now_ms e q) ≡ total q + 1) × IsWellFormed (put now_ms e q)
unfolding send
put_accounts now_ms (id, body) q new h =
    let m = new_message now_ms id body in
    (
      omega (arith, length-insert_new id m q.messages new),
      record {
        unique = insert-UniqueKeys id m q.messages h.unique;
        keyed = insert-IsKeyed id m q.messages refl h.keyed;
      },
    )

send_accounts :
    (now_ms : ℕ) (bodies : List (Text × Body)) (q : Queue)
    → NewIds now_ms bodies q
    → IsWellFormed q
    → (total (send now_ms bodies q).1 ≡ total q + length bodies)
      × IsWellFormed (send now_ms bodies q).1
unfolding send
send_accounts now_ms [] q new h = (omega arith, h)
send_accounts now_ms (e ∷ bodies) q new h =
    let (one, h') = put_accounts now_ms e q new.0 h in
    let (more, h'') = send_accounts now_ms bodies (put now_ms e q) new.1 h' in
    (omega (arith, one, more), h'')

delete_accounts : (id : Text) (q : Queue) → IsWellFormed q → total (delete id q) ≡ total q
unfolding delete
delete_accounts id q h = elim (Option-cases (lookup id q.messages)) [
  | inl missing ↦ ground (arith, missing)
  | inr (m, found) ↦ ground (arith, found, length-erase id m q.messages h.unique found)
]

fail_accounts :
    (cfg : Settings) (id : Text) (q : Queue) → IsWellFormed q → total (fail cfg id q).1 ≡ total q
unfolding fail
fail_accounts cfg id q h = elim (Option-cases (lookup id q.messages)) [
  | inl missing ↦ ground (arith, missing)
  | inr (m, found) ↦
      grind (arith, found, length-erase id m q.messages h.unique found, length-append)
]

receive_accounts :
    (cfg : Settings) (now now_ms limit : ℕ) (q : Queue)
    → IsWellFormed q
    → total (receive cfg now now_ms limit q).1 ≡ total q
unfolding receive
receive_accounts cfg now now_ms limit q h =
    omega (arith, length-receive_loop_messages cfg now now_ms limit 0 q.messages)

-- Every `send` of the sequence draws new ids.
abbrev pub AllNew : Settings → List Op → Queue → Type 0
AllNew cfg [] q = Unit
AllNew cfg (sent now_ms bodies ∷ ops) q =
    NewIds now_ms bodies q × AllNew cfg ops (send now_ms bodies q).1
AllNew cfg (op ∷ ops) q = AllNew cfg ops (run_op cfg op q)

-- After any sequence of sends with new ids, receives, deletions, failures and purges, the messages
-- that wait, were dead-lettered and were deleted are as many as were accounted for at the start and
-- sent since, counted from the last purge.
pub run_ops_accounts :
    (cfg : Settings) (ops : List Op) (q : Queue)
    → IsWellFormed q
    → AllNew cfg ops q
    → total (run_ops cfg ops q) ≡ sent_after ops (total q)
unfolding run_ops run_op purge
run_ops_accounts cfg [] q h new = refl
run_ops_accounts cfg (sent now_ms bodies ∷ ops) q h new =
    let (count, h') = send_accounts now_ms bodies q new.0 h in
    run_ops_accounts cfg ops (send now_ms bodies q).1 h' new.1 ∙ ap (sent_after ops) count
run_ops_accounts cfg (received now now_ms limit ∷ ops) q h new =
    run_ops_accounts cfg ops (receive cfg now now_ms limit q).1
      (receive_batch cfg now now_ms limit q h).2 new
    ∙ ap (sent_after ops) (receive_accounts cfg now now_ms limit q h)
run_ops_accounts cfg (removed id ∷ ops) q h new =
    run_ops_accounts cfg ops (delete id q) (delete-IsWellFormed id q h) new
    ∙ ap (sent_after ops) (delete_accounts id q h)
run_ops_accounts cfg (failed id ∷ ops) q h new =
    run_ops_accounts cfg ops (fail cfg id q).1 (fail-IsWellFormed cfg id q h) new
    ∙ ap (sent_after ops) (fail_accounts cfg id q h)
run_ops_accounts cfg (purged ∷ ops) q h new =
    run_ops_accounts cfg ops (purge q).1 (record { unique = tt; keyed = tt }) new
