-- ===== src/Storage/HistorySync/Progress.antt =====
-- The life of a row: its status, and what a pull adds up to.
use qsl.Prelude.{
  ℕ, ◌+◌, ◌^◌, ◌<◌, ◌≡◌, ◌↔◌, refl, ap, ◌∙◌, arith, Bool, true, false, List, [], ◌∷◌, ◌++◌, map,
  any, Option, none, some, Text, codes, eq_text, eq_text_iff, eq_text_refl, if◌then◌else◌,
  Bool-cases, inl, inr,
}
use qsl.Prelude.Int.{ℤ}
use qsl.Prelude.Result.{ok}
use qsl.Core.Ids.{AccountId, FolderId}
use qsl.Storage.Rows.{HistoryRow}
use qsl.Storage.Db.{Db, Action, ◌>>=◌, ◌>>◌, pure, statement}
use qsl.Storage.HistorySync.{
  HistorySyncStatus, as_str, parse, pending, running, completed, canceled, error, is_row,
  started_row, upsert_rows, start, update_rows, progressed, update_progress, find_row, row_to_state,
  read_row, get,
}

-- The text of a status, and no other text, is read as that status.
pub parse_iff :
    (s : Text) (status : HistorySyncStatus) → (parse s ≡ some status) ↔ (s ≡ as_str status)
parse_iff s status = (read status, written status)
  where
    read : (t : HistorySyncStatus) → parse s ≡ some t → s ≡ as_str t
    read t h =
        unfold parse as_str in
        ground (
          arith,
          eq_text_iff s (codes "pending"),
          eq_text_iff s (codes "running"),
          eq_text_iff s (codes "completed"),
          eq_text_iff s (codes "canceled"),
          eq_text_iff s (codes "error"),
        )

    written : (t : HistorySyncStatus) → s ≡ as_str t → parse s ≡ some t
    written pending h = rw h (unfold parse as_str eq_text in refl)
    written running h = rw h (unfold parse as_str eq_text in refl)
    written completed h = rw h (unfold parse as_str eq_text in refl)
    written canceled h = rw h (unfold parse as_str eq_text in refl)
    written error h = rw h (unfold parse as_str eq_text in refl)

module _ (account : AccountId) (folder : FolderId) where
  pub find_row-update :
      (f : HistoryRow → HistoryRow) (rows : List HistoryRow) (r : HistoryRow)
      → ((r : HistoryRow) → is_row account folder (f r) ≡ is_row account folder r)
      → find_row account folder rows ≡ some r
      → find_row account folder (update_rows account folder f rows) ≡ some (f r)
  unfolding find_row update_rows
  find_row-update f [] r same h = cc
  find_row-update f (s ∷ rows) r same h = ground (arith, same s, find_row-update f rows r same)

  find_row-replaced :
      (row : HistoryRow) (rows : List HistoryRow)
      → is_row account folder row ≡ true
      → any (is_row account folder) rows ≡ true
      → find_row account folder (map (λ r. if is_row account folder r then row else r) rows)
        ≡ some row
  unfolding find_row
  find_row-replaced row [] own e = absurd (ground arith)
  find_row-replaced row (r ∷ rows) own e = ground (arith, find_row-replaced row rows own)

  find_row-appended :
      (row : HistoryRow) (rows : List HistoryRow)
      → is_row account folder row ≡ true
      → any (is_row account folder) rows ≡ false
      → find_row account folder (rows ++ row ∷ []) ≡ some row
  unfolding find_row
  find_row-appended row [] own e = ground arith
  find_row-appended row (r ∷ rows) own e = ground (arith, find_row-appended row rows own)

  pub find_row-upsert :
      (row : HistoryRow) (rows : List HistoryRow)
      → is_row account folder row ≡ true
      → find_row account folder (upsert_rows account folder row rows) ≡ some row
  unfolding upsert_rows
  find_row-upsert row rows own = elim (Bool-cases (any (is_row account folder) rows)) [
    | inl e ↦ rw e (find_row-replaced row rows own e)
    | inr e ↦ rw e (find_row-appended row rows own e)
  ]

  -- The pull reports its chunks one by one: the lowest UID and the count of each.
  unfoldable pub report : ℕ → List (ℤ × ℕ) → Action (Unit {0})
  unfolding ◌>>=◌ pure
  report now [] = pure tt
  report now (chunk ∷ chunks) = do
    update_progress account folder now chunk.0 chunk.1
    report now chunks

  abbrev pub total : List (ℤ × ℕ) → ℕ
  total [] = 0
  total (chunk ∷ chunks) = chunk.1 + total chunks

  abbrev pub last_anchor : Option ℤ → List (ℤ × ℕ) → Option ℤ
  last_anchor anchor [] = anchor
  last_anchor anchor (chunk ∷ chunks) = last_anchor (some chunk.0) chunks

  abbrev pub last_update : ℕ → ℕ → List (ℤ × ℕ) → ℕ
  last_update before now [] = before
  last_update before now (chunk ∷ chunks) = now

  -- The row after the reports.
  abbrev pulled : ℕ → List (ℤ × ℕ) → HistoryRow → HistoryRow
  pulled now chunks r = record r {
    anchor_uid = last_anchor r.anchor_uid chunks;
    fetched = r.fetched + total chunks;
    updated_at = last_update r.updated_at now chunks;
  }

  same_update : (now t : ℕ) (chunks : List (ℤ × ℕ)) → last_update now now chunks ≡ now
  same_update now t [] = refl
  same_update now t (chunk ∷ chunks) = refl

  pulled-cons :
      (now : ℕ) (chunk : ℤ × ℕ) (chunks : List (ℤ × ℕ)) (r : HistoryRow)
      → pulled now chunks (progressed account folder now chunk.0 chunk.1 r)
        ≡ pulled now (chunk ∷ chunks) r
  unfolding progressed
  pulled-cons now chunk chunks r = cc (same_update now now chunks, sums)
    where
      sums : r.fetched + chunk.1 + total chunks ≡ r.fetched + (chunk.1 + total chunks)
      sums = omega arith

  find_row-report :
      (now : ℕ) (chunks : List (ℤ × ℕ)) (d : Db) (r : HistoryRow)
      → d.faults ≡ []
      → find_row account folder d.history ≡ some r
      → (find_row account folder (report now chunks d).1.history ≡ some (pulled now chunks r))
        × ((report now chunks d).1.faults ≡ [])
  find_row-report now [] d r quiet found = unfold report in ground (arith, found)
  find_row-report now (chunk ∷ chunks) d r quiet found =
      let f = progressed account folder now chunk.0 chunk.1 in
      let d' = record d { history = update_rows account folder f d.history } in
      let stepped : report now (chunk ∷ chunks) d ≡ report now chunks d' =
        unfold report update_progress statement in ground arith in
      let (a, b) =
        find_row-report now chunks d' (f r) quiet
          (find_row-update f d.history r (unfold progressed is_row in λ s. refl) found) in
      rw stepped (a ∙ ap some (pulled-cons now chunk chunks r), b)

  get-found :
      (valid : ℕ → Bool) (d : Db) (r : HistoryRow)
      → d.faults ≡ []
      → find_row account folder d.history ≡ some r
      → (get valid account folder d).0 ≡ read_row valid (some r)
  unfolding get statement
  get-found valid d r quiet found = ground (arith, found)

  -- Where no statement fails, chrono accepts the time of the start and that of the reports, and the
  -- counts sum to less than 2 ^ 32: a pull that is started and then reports its chunks is read as
  -- running, with the anchor of the last chunk and the sum of the counts, and no row from before it
  -- shows through.
  pub report-get :
      (valid : ℕ → Bool) (now later : ℕ) (anchor : ℤ) (estimate : Option ℤ) (chunks : List (ℤ × ℕ))
      (d : Db)
      → d.faults ≡ []
      → valid now ≡ true
      → valid later ≡ true
      → total chunks < 2 ^ 32
      → (get valid account folder
          ((start account folder now anchor estimate >> report later chunks) d).1).0
        ≡ some (
            ok (
              some (record {
                account_id = account;
                folder_id = folder;
                status = running;
                anchor_uid = last_anchor (some anchor) chunks;
                total_estimate = estimate;
                fetched = total chunks;
                started_at = now;
                updated_at = last_update now later chunks;
                completed_at = none;
                last_error = none;
              })))
  report-get valid now later anchor estimate chunks d quiet started_valid later_valid fits =
      let row = started_row account folder anchor estimate now in
      let d' = record d { history = upsert_rows account folder row d.history } in
      let started : ((start account folder now anchor estimate >> report later chunks) d).1
          ≡ (report later chunks d').1 =
        unfold start statement ◌>>=◌ in ground arith in
      let own : is_row account folder row ≡ true = unfold is_row started_row in simp eq_text_refl in
      let (found, still) =
        find_row-report later chunks d' row quiet (find_row-upsert row d.history own) in
      rw (started, get-found valid (report later chunks d').1 (pulled later chunks row) still found)
        (unfold read_row row_to_state started_row in
          ground (arith, parse_iff (as_str running) running, started_valid, last_valid chunks))
    where
      last_valid : (chunks : List (ℤ × ℕ)) → valid (last_update now later chunks) ≡ true
      last_valid [] = started_valid
      last_valid (chunk ∷ chunks) = later_valid
