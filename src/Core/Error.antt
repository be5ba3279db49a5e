-- ===== src/Core/Error.antt =====
-- crates/core/src/error.rs: the errors of the mail and storage layers and their `Display` texts.
use qsl.Prelude.{ℕ, Text, codes, ◌++◌}
use qsl.Prelude.Decimal.{format_u32}

pub data StorageError : Type 0 where
  db : Text → StorageError
  migration : Text → StorageError
  row_not_found : StorageError
  conflict : Text → StorageError
  serde : Text → StorageError

pub data MailError : Type 0 where
  network : Text → MailError
  auth : Text → MailError
  protocol : Text → MailError
  uid_validity_changed : Text → ℕ → ℕ → MailError
  not_found : Text → MailError
  server_rejected : Text → MailError
  storage : StorageError → MailError
  parse : Text → MailError
  cancelled : MailError
  other : Text → MailError

-- `{e}` of a `StorageError`.
unfoldable pub format_storage_error : StorageError → Text
format_storage_error (db m) = codes "database error: " ++ m
format_storage_error (migration m) = codes "migration error: " ++ m
format_storage_error row_not_found = codes "row not found"
format_storage_error (conflict m) = codes "unique constraint violated: " ++ m
format_storage_error (serde m) = codes "serialization error: " ++ m

-- `{e}` of a `MailError`.
unfoldable pub format_mail_error : MailError → Text
unfolding format_storage_error format_u32
format_mail_error (network m) = codes "network error: " ++ m
format_mail_error (auth m) = codes "authentication failed or token expired: " ++ m
format_mail_error (protocol m) = codes "protocol error: " ++ m
format_mail_error (uid_validity_changed folder cached observed) =
    codes "UIDVALIDITY changed for "
    ++ (folder
        ++ (codes " ("
            ++ (format_u32 cached ++ (codes " → " ++ (format_u32 observed ++ codes ")")))))
format_mail_error (not_found m) = codes "message or folder not found: " ++ m
format_mail_error (server_rejected m) = codes "server rejected operation: " ++ m
format_mail_error (storage e) = codes "storage error: " ++ format_storage_error e
format_mail_error (parse m) = codes "parse error: " ++ m
format_mail_error cancelled = codes "operation cancelled"
format_mail_error (other m) = m
