-- ===== src/Caching.antt =====
-- The cache patterns of lab 11, 11-caching/python/cache_lab.py.
pub mod Patterns
pub mod Flush
pub mod Writes
pub mod Tests
