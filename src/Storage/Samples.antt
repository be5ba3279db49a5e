-- ===== src/Storage/Samples.antt =====
-- Data for the tests of this repository: an empty database, a blank message and its row.
use qsl.Prelude.{Text, codes, [], none, false, true}
use qsl.Core.Message.{MessageFlags, MessageHeaders}
use qsl.Storage.Rows.{MessageRow}
use qsl.Storage.Db.{Db}

abbrev pub empty_db : Db
empty_db = record {
  outbox = [];
  drafts = [];
  messages = [];
  threads = [];
  history = [];
  contacts = [];
  folders = [];
  opt_ins = [];
  faults = [];
  choice = λ rows. 0;
}

abbrev pub no_flags : MessageFlags
no_flags = record {
  seen = false;
  flagged = false;
  answered = false;
  draft = false;
  forwarded = false;
}

abbrev pub blank_row : Text → MessageRow
blank_row id = record {
  id = id;
  account_id = codes "gmail:a@b";
  folder_id = codes "gmail:a@b|INBOX";
  thread_id = none;
  rfc822_message_id = none;
  subject = [];
  from_json = codes "[]";
  reply_to_json = codes "[]";
  to_json = codes "[]";
  cc_json = codes "[]";
  bcc_json = codes "[]";
  date = 0;
  flags_json = codes "{}";
  labels_json = codes "[]";
  snippet = [];
  size = 0;
  has_attachments = false;
  body_path = none;
  in_reply_to = none;
  references_json = codes "[]";
  unread = true;
}

abbrev pub blank_headers : Text → MessageHeaders
blank_headers id = record {
  id = id;
  account_id = codes "gmail:a@b";
  folder_id = codes "gmail:a@b|INBOX";
  thread_id = none;
  rfc822_message_id = none;
  subject = [];
  from = [];
  reply_to = [];
  to = [];
  cc = [];
  bcc = [];
  date = 0;
  flags = no_flags;
  labels = [];
  snippet = [];
  size = 0;
  has_attachments = false;
  in_reply_to = none;
  references = [];
}
