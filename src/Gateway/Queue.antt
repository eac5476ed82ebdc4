-- ===== src/Gateway/Queue.antt =====
-- gateway.py, `class Queue`: an SQS standard queue with a redrive policy. Each method holds the lock,
-- so it is one step. Times are natural numbers of one unit: `now` is the monotonic clock, `now_ms`
-- the wall clock in milliseconds; both, and the ids of `uuid.uuid4`, come from outside.
use system_design_course.Common.{
  ltb, leb, if◌then◌else◌, length, Text, Dict, lookup, insert, erase, ℕ, zero, suc, ◌+◌, ◌-◌, Bool,
  true, false, ◌&&◌, Option, none, some, List, [], ◌∷◌, ◌++◌,
}

-- QUEUE_BATCH_SIZE, QUEUE_VISIBILITY_TIMEOUT_S and QUEUE_MAX_RECEIVE_COUNT.
pub record Settings : Type 0 where
  pub batch_size : ℕ
  pub visibility_timeout : ℕ
  pub max_receive_count : ℕ

pub record Message : Type 0 where
  pub message_id : Text
  pub body : Text
  pub receive_count : ℕ
  pub visible_at : ℕ
  pub sent_ms : ℕ
  pub first_receive_ms : Option ℕ

pub record DeadLetter : Type 0 where
  pub message_id : Text
  pub body : Text
  pub receive_count : ℕ

pub record Queue : Type 0 where
  pub messages : Dict Message
  pub dead_letters : List DeadLetter
  pub deleted : ℕ

abbrev pub empty_queue : Queue
empty_queue = record { messages = []; dead_letters = []; deleted = 0 }

-- A body that is sent: a str as it is, any other value through `json.dumps`, given with its text.
pub data Body : Type 0 where
  string dumped : Text → Body

abbrev body_text : Body → Text
body_text (string t) = t
body_text (dumped t) = t

abbrev pub new_message : ℕ → Text → Body → Message
new_message now_ms message_id body = record {
  message_id = message_id;
  body = body_text body;
  receive_count = 0;
  visible_at = 0;
  sent_ms = now_ms;
  first_receive_ms = none;
}

-- Each body comes with the id that `uuid4` drew for it.
unfoldable pub send : ℕ → List (Text × Body) → Queue → List Text × Queue
send now_ms [] q = ([], q)
send now_ms ((message_id, body) ∷ bodies) q =
    let message = new_message now_ms message_id body in
    let (ids, q') =
      send now_ms bodies (record q { messages = insert message_id message q.messages }) in
    (message_id ∷ ids, q')

-- `first_receive_ms or now_ms`: 0 counts as absent.
unfoldable pub first_receive : Option ℕ → ℕ → ℕ
first_receive none now_ms = now_ms
first_receive (some zero) now_ms = now_ms
first_receive (some (suc n)) now_ms = suc n

unfoldable pub take_message : Settings → ℕ → ℕ → Message → Message
take_message cfg now now_ms m = record m {
  receive_count = m.receive_count + 1;
  visible_at = now + cfg.visibility_timeout;
  first_receive_ms = some (first_receive m.first_receive_ms now_ms);
}

-- The loop of `receive`, with the length of the batch so far.
unfoldable pub receive_loop : Settings → ℕ → ℕ → ℕ → ℕ → Dict Message → List Message × Dict Message
receive_loop cfg now now_ms limit taken [] = ([], [])
receive_loop cfg now now_ms limit taken ((key, m) ∷ rest) =
    let taking = leb m.visible_at now && ltb taken limit in
    let (batch, rest') =
      receive_loop cfg now now_ms limit (if taking then taken + 1 else taken) rest in
    let m' = take_message cfg now now_ms m in
    if taking then (m' ∷ batch, (key, m') ∷ rest') else (batch, (key, m) ∷ rest')

unfoldable pub receive : Settings → ℕ → ℕ → ℕ → Queue → List Message × Queue
unfolding receive_loop
receive cfg now now_ms limit q =
    let (batch, messages) = receive_loop cfg now now_ms limit 0 q.messages in
    (batch, record q { messages = messages })

unfoldable pub delete : Text → Queue → Queue
delete message_id q = elim (lookup message_id q.messages) [
  | none ↦ q
  | some _ ↦ record q { messages = erase message_id q.messages; deleted = q.deleted + 1 }
]

-- The result is whether the message was dead-lettered.
unfoldable pub fail : Settings → Text → Queue → Bool × Queue
fail cfg message_id q = elim (lookup message_id q.messages) [
  | none ↦ (false, q)
  | some m ↦
      if leb cfg.max_receive_count m.receive_count
      then (
        true,
        record q {
          messages = erase message_id q.messages;
          dead_letters =
              q.dead_letters
              ++ record { message_id = message_id; body = m.body; receive_count = m.receive_count }
                ∷ [];
        },
      )
      else (false, q)
]

unfoldable pub purge : Queue → ℕ × Queue
purge q = (length q.messages + length q.dead_letters, empty_queue)

abbrev pub count_visible : ℕ → Dict Message → ℕ
count_visible now [] = 0
count_visible now ((key, m) ∷ rest) =
    if leb m.visible_at now then suc (count_visible now rest) else count_visible now rest

pub record Stats : Type 0 where
  pub visible : ℕ
  pub in_flight : ℕ
  pub deleted : ℕ
  pub dead_letter_queue : List DeadLetter

unfoldable pub stats : ℕ → Queue → Stats
stats now q = record {
  visible = count_visible now q.messages;
  in_flight = length q.messages - count_visible now q.messages;
  deleted = q.deleted;
  dead_letter_queue = q.dead_letters;
}
