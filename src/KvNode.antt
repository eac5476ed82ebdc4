-- ===== src/KvNode.antt =====
-- The replicated key-value node of lab 05, 05-distributed-systems-high-availability/app/kv_node.py:
-- versions and records (Version), the locked operations of `class Store` (Store), quorum counting
-- and the CP paths (Quorum), background sync (Sync), the HTTP handlers (Http). The other modules
-- hold the proofs.
pub mod Version
pub mod Store
pub mod Quorum
pub mod Sync
pub mod Http
pub mod Post
mod Majority
mod Merge
mod Frame
mod Convergence
mod Delivery
mod Clock
mod Replies
mod Intake
mod Tests
