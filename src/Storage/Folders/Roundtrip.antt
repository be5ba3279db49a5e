-- ===== src/Storage/Folders/Roundtrip.antt =====
-- crates/storage/src/repos/folders.rs: a folder reads back from its row.
use qsl.Core.Folder.{Folder}
use qsl.Storage.Db.{Db}
