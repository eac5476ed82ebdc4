-- ===== src/Messaging/Broker.antt =====
-- broker.py: connecting with retries, and the declarations of exchanges, queues and bindings.
use system_design_course.Common.{
  leb, if◌then◌else◌, Text, codes, ℕ, ◌+◌, Option, none, some, List, [], ◌∷◌, ◌++◌,
}

-- One attempt of `pika.BlockingConnection` gives a connection or an AMQPConnectionError. `attempts`
-- lists what each attempt from now on gives.
pub data Connected (C : Type 0) : Type 0 where
  connected : C → Connected C
  gives_up : Connected C
  still_trying : Connected C

-- The loop of `connect` from the given attempt number; `none` is an AMQPConnectionError.
unfoldable pub connect_loop : {C : Type 0} → ℕ → ℕ → List (Option C) → Connected C
connect_loop retries attempt [] = still_trying
connect_loop retries attempt (some c ∷ attempts) = connected c
connect_loop retries attempt (none ∷ attempts) =
    let later = connect_loop retries (attempt + 1) attempts in
    if leb retries attempt then gives_up else later

unfoldable pub connect : {C : Type 0} → ℕ → List (Option C) → Connected C
unfolding connect_loop
connect retries attempts = connect_loop retries 1 attempts

-- The calls of `declare_topology` on the channel; every one has durable=True but the bindings.
pub data Call : Type 0 where
  exchange_declare : Text → Text → Call
  queue_declare : Text → List (Text × Text) → Call
  queue_bind : Text → Text → Text → Call

abbrev pub orders_queue : Text
orders_queue = codes "orders"

abbrev dlx_exchange : Text
dlx_exchange = codes "orders.dlx"

abbrev dlq_queue : Text
dlq_queue = codes "orders.dlq"

abbrev events_exchange : Text
events_exchange = codes "order-events"

abbrev fanout_queues : List Text
fanout_queues = codes "notification" ∷ codes "analytics" ∷ codes "inventory" ∷ []

abbrev topic_exchange : Text
topic_exchange = codes "order-topic"

abbrev topic_bindings : List (Text × Text)
topic_bindings =
    (codes "mx-orders", codes "order.*.mx")
    ∷ (codes "cancellations", codes "order.cancelled.*")
    ∷ (codes "audit", codes "order.#")
    ∷ []

abbrev pub payments_queue : Text
payments_queue = codes "payments"

declare_fanout : List Text → List Call
declare_fanout [] = []
declare_fanout (queue ∷ queues) =
    queue_declare queue [] ∷ queue_bind queue events_exchange [] ∷ declare_fanout queues

declare_topics : List (Text × Text) → List Call
declare_topics [] = []
declare_topics ((queue, pattern_key) ∷ bindings) =
    queue_declare queue [] ∷ queue_bind queue topic_exchange pattern_key ∷ declare_topics bindings

unfoldable pub declare_topology : List Call
unfolding declare_fanout declare_topics
declare_topology =
    exchange_declare dlx_exchange (codes "fanout")
    ∷ queue_declare dlq_queue []
    ∷ queue_bind dlq_queue dlx_exchange []
    ∷ queue_declare orders_queue (
        (codes "x-queue-type", codes "quorum")
        ∷ (codes "x-dead-letter-exchange", dlx_exchange)
        ∷ [])
    ∷ exchange_declare events_exchange (codes "fanout")
    ∷ (declare_fanout fanout_queues
        ++ (exchange_declare topic_exchange (codes "topic")
            ∷ (declare_topics topic_bindings
                ++ (queue_declare (codes "scratch") [] ∷ queue_declare payments_queue [] ∷ []))))
