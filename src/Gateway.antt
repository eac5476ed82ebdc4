-- ===== src/Gateway.antt =====
-- The lab 15 gateway, 15-serverless/gateway/gateway.py: the in-memory SQS queue (Queue), the pool of
-- execution environments (Pool), one synchronous invocation (Invoke) and the event source mapping
-- that drains the queue (Poller). The other modules hold the proofs.
pub mod Queue
pub mod Pool
pub mod Invoke
pub mod Poller
pub mod Api
pub mod Dispatch
pub mod Replies
pub mod Sent
mod Receive
mod Settle
mod Retries
mod Bound
mod Conservation
mod Exclusion
mod Outcomes
mod Answers
mod Paths
mod Agreement
mod HttpTests
mod Tests
