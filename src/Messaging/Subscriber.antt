-- ===== src/Messaging/Subscriber.antt =====
-- subscriber.py: reading a queue, either consuming each message or peeking and giving all back.
use system_design_course.Common.{ℕ, ◌+◌, Option, none, some, List, [], ◌∷◌}

pub data Call : Type 0 where
  basic_ack : ℕ → Call
  basic_nack_multiple : ℕ → Call
  cancel close : Call

-- The peek loop: `tags` are the delivery tags that `basic_get` hands out until the queue is empty.
-- The result is the last tag and the number received.
unfoldable pub peek_loop : Option ℕ → ℕ → List ℕ → Option ℕ × ℕ
peek_loop last_tag received [] = (last_tag, received)
peek_loop last_tag received (tag ∷ tags) = peek_loop (some tag) (received + 1) tags

unfoldable pub peek : List ℕ → List Call × ℕ
unfolding peek_loop
peek tags =
    let (last_tag, received) = peek_loop none 0 tags in
    (
      elim last_tag [ none ↦ close ∷ [] | some tag ↦ basic_nack_multiple tag ∷ close ∷ [] ],
      received,
    )

unfoldable pub consume_loop : ℕ → List ℕ → List Call × ℕ
consume_loop received [] = (cancel ∷ close ∷ [], received)
consume_loop received (tag ∷ tags) =
    let (calls, count) = consume_loop (received + 1) tags in (basic_ack tag ∷ calls, count)
