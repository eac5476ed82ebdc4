-- ===== src/Visualizer.antt =====
-- The database visualizer of lab 10, 10-databases/visualizer/server.py: the transfer of an enrollment in
-- one transaction (Transfer). The other modules hold the proofs.
pub mod Transfer
mod Consistent
mod Atomic
mod Tests
