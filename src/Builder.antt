-- ===== src/Builder.antt =====
-- The puzzle builder of lab 13, 13-solutions-architecture/arch-builder/tools/build.py: what it checks
-- of a puzzle, how hard it says a puzzle is, and what it writes.
pub mod Schema
pub mod SchemaErrors
pub mod Accepted
pub mod Faults
pub mod Decided
pub mod SchemaTests
pub mod Output
pub mod Assemble
pub mod Drawn
pub mod Built
pub mod Sample
pub mod Filled
pub mod Puzzle
pub mod Problem
pub mod Names
pub mod Palette
pub mod Numbers
pub mod Geometry
pub mod Layout
pub mod Choices
pub mod Leaks
pub mod Wording
pub mod Difficulty
pub mod Overlay
pub mod Entries
pub mod Unique
pub mod Permuted
pub mod Spaced
pub mod Nested
pub mod Bounds
pub mod Gate
pub mod Sound
pub mod Tests
pub mod Validate
