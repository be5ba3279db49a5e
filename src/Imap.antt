-- ===== src/Imap.antt =====
-- crates/imap-client: the identity of an IMAP message is in Imap/MessageRef.antt.
pub mod MessageRef
pub mod Capabilities
