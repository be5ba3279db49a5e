-- ===== src/Sync/Drain/Invariant.antt =====
-- A drain keeps the invariant of the outbox table.
use qsl.Prelude.{
  ℕ, ◌+◌, ◌<◌, ◌≡◌, true, false, refl, subst, sym, arith, Text, List, [], ◌∷◌, Option, none,
  eq_text, eq_text_iff, All, All-both,
}
use qsl.Storage.Rows.{OutboxRow}
use qsl.Storage.Outbox.{OutboxEntry, max_attempts, touch, update_rows, delete_rows}
use qsl.Storage.Outbox.Invariant.{TableInv, IsCounted, CountIs, Unique-update, All-update}
use qsl.Storage.Outbox.Select.{All-filter, Unique-filter}
use qsl.Prelude.Result.{Result}
use qsl.Core.Error.{MailError, format_mail_error}
use qsl.Sync.Drain.{Tick}
use qsl.Sync.Drain.Effects.{Effect, unrecorded, deleted, postponed, buried}

-- An entry that was read from a live row, and the table still agrees with it.
pub record IsReady (rows : List OutboxRow) (e : OutboxEntry) : Type 0 where
  pub agrees : CountIs e.id e.attempts rows
  pub live : e.attempts < max_attempts

abbrev pub Apart : Text → List OutboxEntry → Type 0
Apart id = All (λ e. eq_text e.id id ≡ false)

abbrev pub Distinct : List OutboxEntry → Type 0
Distinct [] = Unit
Distinct (e ∷ es) = Apart e.id es × Distinct es

module _ (e : OutboxEntry) (rows : List OutboxRow) where
  touch-TableInv :
      (next : Option ℕ) (error : Text)
      → ((r : OutboxRow) → r.attempts ≡ e.attempts → IsCounted (touch next error r))
      → TableInv rows
      → CountIs e.id e.attempts rows
      → TableInv (update_rows (touch next error) e.id rows)
  touch-TableInv next error hit inv agrees = record {
    counted =
        All-update (touch next error) e.id
          (λ r. IsCounted r × (eq_text r.id e.id ≡ true → r.attempts ≡ e.attempts)) IsCounted rows
          (λ r same h. hit r (h.1 same)) (λ r other h. h.0)
          (All-both IsCounted _ rows inv.counted agrees);
    unique = Unique-update (touch next error) e.id (unfold touch in λ r. refl) rows inv.unique;
  }

  -- Whatever becomes of a ready row, the invariant stays.
  pub Effect-TableInv :
      {tick : Tick} {sent : Result MailError (Unit {0})} {faults : List (Option Text)}
      {rows' : List OutboxRow}
      → Effect tick e sent faults rows rows'
      → TableInv rows
      → IsReady rows e
      → TableInv rows'
  Effect-TableInv (unrecorded failing p) inv ready = subst TableInv (sym p) inv
  Effect-TableInv (deleted ran done p) inv ready = subst TableInv (sym p) (
      unfold delete_rows in
      record {
        counted = All-filter IsCounted _ rows inv.counted;
        unique = Unique-filter _ rows inv.unique;
      })
  Effect-TableInv (postponed why ran failed more p) inv ready = subst TableInv (sym p) (
      touch-TableInv _ (format_mail_error why) (unfold touch in λ r same. more_left r same) inv
        ready.agrees)
    where
      more_left : (r : OutboxRow) → r.attempts ≡ e.attempts → r.attempts + 1 < max_attempts
      more_left r same = ground (arith, ready.live)
  Effect-TableInv (buried why ran failed last p) inv ready = subst TableInv (sym p) (
      touch-TableInv none (format_mail_error why) (unfold touch in λ r same. used_up r same) inv
        ready.agrees)
    where
      used_up : (r : OutboxRow) → r.attempts ≡ e.attempts → r.attempts + 1 ≡ max_attempts
      used_up r same = ground (arith, ready.live)

  touch-CountIs :
      (k : Text) (n : ℕ) (next : Option ℕ) (error : Text)
      → eq_text k e.id ≡ false
      → CountIs k n rows
      → CountIs k n (update_rows (touch next error) e.id rows)
  touch-CountIs k n next error apart h =
      All-update (touch next error) e.id (λ r. eq_text r.id k ≡ true → r.attempts ≡ n)
        (λ r. eq_text r.id k ≡ true → r.attempts ≡ n) rows
        (unfold touch in
          λ r same _ is_k.
            absurd (ground (arith, eq_text_iff r.id k, eq_text_iff r.id e.id, eq_text_iff k e.id)))
        (λ r other g. g) h

  Effect-CountIs :
      {tick : Tick} {sent : Result MailError (Unit {0})} {faults : List (Option Text)}
      {rows' : List OutboxRow} (k : Text) (n : ℕ)
      → Effect tick e sent faults rows rows'
      → eq_text k e.id ≡ false
      → CountIs k n rows
      → CountIs k n rows'
  Effect-CountIs k n (unrecorded failing p) apart h = subst (CountIs k n) (sym p) h
  Effect-CountIs k n (deleted ran done p) apart h =
      subst (CountIs k n) (sym p)
        (unfold delete_rows in All-filter (λ r. eq_text r.id k ≡ true → r.attempts ≡ n) _ rows h)
  Effect-CountIs k n (postponed why ran failed more p) apart h =
      subst (CountIs k n) (sym p) (touch-CountIs k n _ (format_mail_error why) apart h)
  Effect-CountIs k n (buried why ran failed last p) apart h =
      subst (CountIs k n) (sym p) (touch-CountIs k n none (format_mail_error why) apart h)

  pub Effect-IsReady :
      {tick : Tick} {sent : Result MailError (Unit {0})} {faults : List (Option Text)}
      {rows' : List OutboxRow} (es : List OutboxEntry)
      → Effect tick e sent faults rows rows'
      → Apart e.id es
      → All (IsReady rows) es
      → All (IsReady rows') es
  Effect-IsReady [] f a h = tt
  Effect-IsReady (g ∷ es) f a h = (
    record { agrees = Effect-CountIs g.id g.attempts f a.0 h.0.agrees; live = h.0.live },
    Effect-IsReady es f a.1 h.1,
  )
