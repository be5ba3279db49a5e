-- ===== src/Storage.antt =====
-- crates/storage: the connection (Storage/Db.antt) over the rows of the tables (Storage/Rows.antt),
-- and the repositories over it.
pub mod Rows
pub mod Db
pub mod Outbox
pub mod Drafts
pub mod Messages
pub mod Threads
pub mod HistorySync
pub mod Samples
pub mod Contacts
pub mod Folders
pub mod OptIns
