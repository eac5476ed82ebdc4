-- ===== src/Serverless.antt =====
-- The functions of lab 15, 15-serverless/functions.
pub mod Processor
mod Transaction
pub mod Once
pub mod Partial
pub mod Redelivery
pub mod Orders
pub mod Stored
pub mod Tests
