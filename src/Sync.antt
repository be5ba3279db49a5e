-- ===== src/Sync.antt =====
-- crates/sync: the outbox drain (Sync/Drain.antt), the assembly of threads (Sync/Threading.antt), the pull
-- of history (Sync/History.antt), and the cycle of a folder (Sync/Cycle.antt), with its chunk of headers
-- (Sync/Plan.antt, Sync/Chunk.antt) and the passes behind it (Sync/Folder.antt).
pub mod Backend
pub mod Drain
pub mod Threading
pub mod History
pub mod Plan
pub mod Chunk
pub mod Cycle
pub mod Folder
