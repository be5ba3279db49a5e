-- ===== src/Lib.antt =====
-- QSL, a desktop mail client in Rust: the logic of its core crates.
--
-- The parts and the files that model them, with the paths of the repository:
-- - Core: crates/core/src/ids.rs is Core/Ids.antt (`AccountId::for_provider` is `for_provider`,
--   `FolderId::scoped`, `backend_key` and `display_key` keep their names; a newtype over String is
--   its text); crates/core/src/error.rs is Core/Error.antt, with the Display texts.
-- - Imap: `MessageRef` of crates/imap-client/src/sync_state.rs is Imap/MessageRef.antt, and
--   crates/imap-client/src/capabilities.rs is Imap/Capabilities.antt.
-- - Storage: Storage/Db.antt is a database of tables as lists of rows, on which a statement may
--   fail: the list `faults` of the database says which of the statements to come do, and the
--   theorems hold for every such list unless they say otherwise. A transaction that fails is rolled
--   back. Where a query has no order and takes one row, `choice` of the database says which. Beside it, Storage/Db has rules for actions that write nothing, that change nothing where
--   they fail, that succeed, and that keep a relation between the databases before and after;
--   Storage/Messages/Ensures.antt has rules for what a successful action leaves in the table of
--   messages. crates/storage/src/repos/outbox.rs is Storage/Outbox.antt, with `list_dlq` in
--   Storage/Outbox/Dlq.antt; history_sync.rs beside it is Storage/HistorySync.antt, without the two
--   listings, and contacts.rs is Storage/Contacts.antt, without the prefix search; drafts.rs is
--   Storage/Drafts.antt, with Core/Draft.antt; the parts of threads.rs and messages.rs beside it that
--   the sync engine calls are Storage/Threads.antt and Storage/Messages.antt, where
--   `batch_insert_skip_existing` encodes the rows and inserts them in one transaction, with the
--   other statements in Storage/Messages/Statements.antt. folders.rs and sync_states.rs are
--   Storage/Folders.antt, without the two listings; remote_content_opt_ins.rs is
--   Storage/OptIns.antt, without its listing; crates/core/src/folder.rs is Core/Folder.antt.
-- - Sync: crates/sync/src/outbox_drain.rs is Sync/Drain.antt (`drain`, `process_one`, `dispatch`),
--   a step on a world of the database and the servers; crates/sync/src/threading.rs is
--   Sync/Threading.antt (`attach_to_thread`, `resolve_with_chunk_local`) and
--   Sync/Threading/Subject.antt (`normalize_subject`). crates/sync/src/history.rs is
--   Sync/History.antt, with the steps of `run_producer` and `run_consumer`, and
--   Sync/History/Pipeline.antt: the two halves, the channel of one chunk between them and the
--   cancel flag are a state, a step relation is the interleavings, and `pull` is a sequential pull
--   to compare them with. The database of the pull is not written by others in the model, and
--   waits, locks and logging are left out; a full-text index is no table, so its two statements
--   only may fail.
--   `sync_folder` and `sync_account` of crates/sync/src/lib.rs are Sync/Cycle.antt, a step on the
--   database, the servers with the blobs, and the report; `apply_chunk` is Sync/Plan.antt, which
--   resolves and sorts the headers, and Sync/Chunk.antt, which writes them in a transaction; the
--   passes that remove messages and take over flags are Sync/Folder.antt. A HashMap is a list of
--   entries, and the order in which its values are walked is an argument.
-- - Search: crates/search/src/lib.rs is Search.antt.
-- - Desktop: apps/desktop/ui/src/threading.rs is Desktop/Grouping.antt, the recipients, subjects
--   and references of apps/desktop/ui/src/reply.rs are Desktop/Reply.antt, and `parse_mailto` of
--   apps/desktop/src-tauri/src/mailto.rs is Desktop/Mailto.antt.
--
-- The drain takes the due rows of the outbox table, asks the resolver for the account's backend,
-- hands the operation over, and deletes, postpones or dead-letters the row. Threading looks
-- messages up in the messages table, subjects in the threads table, and writes both. A cycle of a
-- folder writes its row, asks the server for what is new since the cursor, writes the chunk of headers
-- with their threads and contacts, removes what the server no longer has, takes over flags, stores the
-- new cursor, and then fetches the bodies.
--
-- Texts are lists of code points; white space is ASCII's and Unicode's as Prelude/Chars.antt lists
-- it, and lower case is ASCII's, as `to_ascii_lowercase` is in the source, but for `reply_all_cc`,
-- where it is an argument. Prelude holds the functions of Rust's standard library that the code
-- calls. A number is a natural number, with the wrap-around of its width written out: the attempts
-- are a u32, and `backoff_seconds` computes on i64. Times are UNIX seconds, not before 1970, but for
-- those of a draft, which are nanoseconds and are stored in seconds. The
-- clock, random numbers, JSON, base64, chrono's ranges and dates, the URL parser, Unicode's
-- alphanumeric class and lower case, the resolver, the blob store and the servers are arguments. A
-- panic, on a time in a row that chrono does not have, is the result `none`.
-- Two functions have fuel: `strip_prefixes`, the loop of `normalize_subject`, starts with the length
-- of the text, and every round but the last shortens the text; `chunks` starts with the length of
-- the list, and every round takes at least one element.
--
-- Not modelled: the network clients (IMAP, JMAP, SMTP, OAuth), MIME parsing and sanitising, which
-- libraries do; the database driver and the migrations; logging; the rendering of the desktop
-- application; the other repositories.
pub mod Prelude
pub mod Core
pub mod Imap
pub mod Storage
pub mod Sync
pub mod Search
pub mod Desktop
