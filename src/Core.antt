-- ===== src/Core.antt =====
-- crates/core: the identifiers (Core/Ids.antt), the errors (Core/Error.antt) and the messages
-- (Core/Message.antt).
pub mod Error
pub mod Ids
pub mod Message
pub mod Folder
pub mod Draft
