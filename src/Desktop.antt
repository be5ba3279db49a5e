-- ===== src/Desktop.antt =====
-- The desktop application's own logic.
pub mod Grouping
pub mod Mailto
pub mod Reply
