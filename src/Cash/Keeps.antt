-- ===== src/Cash/Keeps.antt =====
-- The invariant under each way in which a handler writes the tables.
pub mod Write
pub mod Open
pub mod Close
pub mod Actions
pub mod Query
pub mod Cuts
pub mod Requests
