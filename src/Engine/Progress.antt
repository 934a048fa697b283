-- ===== src/Engine/Progress.antt =====
-- How an event moves the durable cursor.
pub mod Edit
pub mod Events
