-- ===== src/Engine/Revisions.antt =====
-- How an event changes the rows of the entities.
pub mod Edit
pub mod Events
