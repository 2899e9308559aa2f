-- ===== src/Tests.antt =====
-- Concrete runs: an archive of six bytes that does not change, one that was written over, an entry
-- of four bytes that is stored, and an open file with idle decoders.
pub mod Data
pub mod Archive
pub mod Entries
pub mod Pools
pub mod Options
pub mod Names
pub mod Tree
pub mod Links
pub mod Plus
pub mod Requests
