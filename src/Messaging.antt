-- ===== src/Messaging.antt =====
-- The order messaging of lab 14, 14-distributed-messaging/app: the work queue's consumer (Worker),
-- the payment consumer and its ledger (Payment), the producer (Producer), the queue reader
-- (Subscriber) and the connection and topology shared by all (Broker). RabbitMQ is outside: a
-- handler's effect is the list of its calls on the channel.
pub mod Broker
pub mod Worker
pub mod Payment
pub mod Exactly
pub mod Drained
pub mod Redelivered
pub mod Retry
pub mod Lifecycle
pub mod Attempts
pub mod Tests
pub mod Producer
pub mod Subscriber
