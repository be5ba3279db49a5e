-- ===== src/Sync/Threading/Examples.antt =====
-- Tests of threading: a reply to a message that the account holds.
use qsl.Prelude.{
  ℕ, ◌≡◌, ◌≤◌, ◌++◌, true, refl, arith, Text, codes, List, [], ◌∷◌, Option, none, some, length, inl,
  inr, Bool,
}
use qsl.Prelude.Result.{ok}
use qsl.Prelude.Chars.{to_ascii_lowercase}
use qsl.Storage.Db.{Db, ◌>>=◌, pure}
use qsl.Core.Ids.{ThreadId}
use qsl.Core.Message.{MessageHeaders}
use qsl.Storage.Samples.{empty_db, blank_row, blank_headers}
use qsl.Sync.Threading.{
  attachment, resolve_chain, resolve_subject, resolve_existing_thread, chunk_lookup,
  resolve_with_chunk_local,
}
use qsl.Sync.Threading.Resolve.{
  first_hit, known, chain, resolve_chain-first_hit, resolve_with_chunk_local-empty,
}
use qsl.Sync.Threading.Subject.{normalize_subject, strip_prefixes, strip_one_prefix}
use qsl.Sync.Threading.Subject.Loop.{normalize_subject-lower, strip_prefixes-done}
use qsl.Sync.Threading.Subject.Prefixes.{normalize_subject-prefix}

abbrev reply : MessageHeaders
reply = record (blank_headers (codes "m-2")) {
  subject = codes "Re: Lunch";
  date = 5000000;
  in_reply_to = some (codes "<1@x>");
  references = codes "<0@x>" ∷ [];
}

abbrev db : Db
db = record empty_db {
  messages =
      record (blank_row (codes "m-1")) {
        rfc822_message_id = some (codes "<0@x>");
        thread_id = some (codes "t-1");
      }
      ∷ [];
}

abbrev valid : ℕ → Bool
valid t = true

abbrev no_chunk : Text → Option ThreadId
no_chunk id = none

found_by_reference : (resolve_existing_thread valid 6000000 reply db).0 ≡ ok (some (codes "t-1"))
unfolding resolve_existing_thread qsl.Storage.Messages.find_thread_id_by_rfc822_id
    qsl.Storage.Messages.thread_id_of_match qsl.Prelude.eq_text
found_by_reference = refl

empty_chunk : resolve_with_chunk_local valid 6000000 reply (codes "t-2") no_chunk ≡ (
    resolve_existing_thread valid 6000000 reply >>= λ found.
    pure (attachment (codes "t-2") reply found))
empty_chunk = resolve_with_chunk_local-empty valid 6000000 reply (codes "t-2")

resolve_chain-first_hit_example :
    resolve_chain valid 6000000 reply (chunk_lookup valid 6000000 reply no_chunk) db
    ≡ elim (first_hit (known no_chunk reply db) (chain reply)) [
      | some t ↦ (ok (some t), db)
      | none ↦ resolve_subject valid 6000000 reply db
    ]
resolve_chain-first_hit_example = resolve_chain-first_hit valid 6000000 reply no_chunk db refl

normalized : normalize_subject (codes "  RE: fwd:  Lunch   at NOON ") ≡ codes "lunch at noon"
unfolding normalize_subject strip_prefixes qsl.Prelude.Split.trim_end qsl.Prelude.Split.trim_start
    qsl.Prelude.Chars.is_whitespace strip_one_prefix qsl.Sync.Threading.Subject.strip_ignore_case
    qsl.Prelude.Chars.lower
normalized = refl

normalize_subject-prefix_example :
    normalize_subject (codes "FWD:" ++ codes " Lunch") ≡ normalize_subject (codes " Lunch")
unfolding qsl.Prelude.Chars.lower
normalize_subject-prefix_example =
    normalize_subject-prefix (codes "FWD:") (codes " Lunch")
      (unfold to_ascii_lowercase in inr (inr refl))

lunch_lower :
    normalize_subject (to_ascii_lowercase (codes "Re: LUNCH"))
    ≡ normalize_subject (codes "Re: LUNCH")
lunch_lower = normalize_subject-lower (codes "Re: LUNCH")

strip_prefixes-done_example : strip_one_prefix (strip_prefixes 20 (codes "re: re: fw:x")) ≡ none
strip_prefixes-done_example = strip_prefixes-done 20 (codes "re: re: fw:x") (omega arith)
