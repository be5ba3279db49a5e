-- ===== src/Storage/OptIns/Sequence.antt =====
-- crates/storage/src/repos/remote_content_opt_ins.rs: the table against the set of trusted senders.
use qsl.Prelude.{
  ℕ, ◌≡◌, refl, ap, ap₂, ◌∙◌, arith, inl, inr, Bool-cases, Bool, true, false, not, ◌&&◌, ◌||◌, List,
  [], ◌∷◌, map, filter, any, any-append, Text, eq_text, eq_text_iff, if◌then◌else◌,
}
use qsl.Prelude.Chars.{to_ascii_lowercase}
use qsl.Prelude.Result.{Result, ok, err}
use qsl.Core.Error.{StorageError}
use qsl.Core.Ids.{AccountId}
use qsl.Storage.Rows.{OptInRow}
use qsl.Storage.Db.{Db, Action, statement, pure, ◌>>=◌, ◌>>◌}
use qsl.Storage.OptIns.{has_key, insert_or_replace, add, remove, is_trusted}

-- Whether two keys are one.
abbrev same_key : AccountId → Text → AccountId → Text → Bool
same_key a e b f = eq_text a b && eq_text e f

same_key-equal :
    (a : AccountId) (e : Text) (b : AccountId) (f : Text)
    → same_key a e b f ≡ true
    → (a ≡ b) × (e ≡ f)
same_key-equal a e b f h = ((eq_text_iff a b).0 (ground arith), (eq_text_iff e f).0 (ground arith))

-- A row of one key is not of another.
has_key-other :
    (a : AccountId) (e : Text) (b : AccountId) (f : Text) (r : OptInRow)
    → same_key a e b f ≡ false
    → has_key a e r ≡ true
    → has_key b f r ≡ false
has_key-other a e b f r apart h =
    let (i, j) = same_key-equal r.account_id r.email_address a e h in
    ap₂ (λ x y. same_key x y b f) i j ∙ apart

module _ (a : AccountId) (e : Text) (b : AccountId) (f : Text) where
  any-replace :
      (now : ℕ) (rows : List OptInRow)
      → any
          (has_key b f)
          (map (λ r. if has_key a e r then record r { created_at = now } else r) rows)
        ≡ any (has_key b f) rows
  any-replace now [] = refl
  any-replace now (r ∷ rows) = ground (arith, any-replace now rows)

  any-without :
      (rows : List OptInRow)
      → any (has_key b f) (filter (λ r. not (has_key a e r)) rows)
        ≡ (not (same_key a e b f) && any (has_key b f) rows)
  any-without [] = ground arith
  any-without (r ∷ rows) = elim (Bool-cases (same_key a e b f)) [
    | inl one ↦
        let (i, j) = same_key-equal a e b f one in
        let same : has_key a e r ≡ has_key b f r = ap₂ (λ x y. has_key x y r) i j in
        ground (arith, any-without rows, one, same)
    | inr apart ↦ elim (Bool-cases (has_key a e r)) [
      | inl here ↦ ground (arith, any-without rows, apart, here, has_key-other a e b f r apart here)
      | inr there ↦ ground (arith, any-without rows, apart, there)
    ]
  ]

  any-insert :
      (now : ℕ) (rows : List OptInRow)
      → any (has_key b f) (insert_or_replace a e now rows)
        ≡ (same_key a e b f || any (has_key b f) rows)
  unfolding insert_or_replace
  any-insert now rows = elim (Bool-cases (any (has_key a e) rows)) [
    | inl taken ↦ elim (Bool-cases (same_key a e b f)) [
      | inl one ↦
          let (i, j) = same_key-equal a e b f one in
          let same : any (has_key a e) rows ≡ any (has_key b f) rows =
            ap₂ (λ x y. any (has_key x y) rows) i j in
          ground (arith, taken, one, same, any-replace now rows)
      | inr apart ↦ ground (arith, taken, apart, any-replace now rows)
    ]
    | inr free ↦ ground (
      arith,
      free,
      any-append (has_key b f) rows
          (record { account_id = a; email_address = e; created_at = now } ∷ []),
    )
  ]

-- What the user decides, in turn.
pub data Decision : Type 0 where
  trust : ℕ → AccountId → Text → Decision
  distrust : AccountId → Text → Decision

abbrev decide : Decision → Action (Unit {0})
decide (trust now account email) = add now account email
decide (distrust account email) = remove account email

unfoldable pub decide_all : List Decision → Action (Unit {0})
unfolding ◌>>=◌ pure
decide_all [] = pure tt
decide_all (c ∷ decisions) = decide c >> decide_all decisions

-- What follows on a result.
abbrev after : {A B : Type 0} → Action B → Result StorageError A × Db → Result StorageError B × Db
after m t = elim t.0 [ ok a ↦ m t.1 | err e ↦ (err e, t.1) ]

-- The set of the trusted senders, as its test: each decision is on one sender, in any case.
abbrev decided : AccountId → Text → Decision → Bool → Bool
decided b f (trust now a e) before =
    same_key a (to_ascii_lowercase e) b (to_ascii_lowercase f) || before
decided b f (distrust a e) before =
    not (same_key a (to_ascii_lowercase e) b (to_ascii_lowercase f)) && before

unfoldable pub decided_all : AccountId → Text → List Decision → Bool → Bool
decided_all b f [] before = before
decided_all b f (c ∷ decisions) before = decided_all b f decisions (decided b f c before)

module _ (b : AccountId) (f : Text) where
  abbrev trusted_in : List OptInRow → Bool
  trusted_in rows = any (has_key b (to_ascii_lowercase f)) rows

  decide-decided :
      (c : Decision) (d : Db)
      → d.faults ≡ []
      → (rows : List OptInRow) × (decide c d ≡ (ok tt, record d { opt_ins = rows }))
        × (trusted_in rows ≡ decided b f c (trusted_in d.opt_ins))
  unfolding add remove statement
  decide-decided (trust now a e) d quiet = (
    insert_or_replace a (to_ascii_lowercase e) now d.opt_ins,
    ground (arith, quiet),
    any-insert a (to_ascii_lowercase e) b (to_ascii_lowercase f) now d.opt_ins,
  )
  decide-decided (distrust a e) d quiet = (
    filter (λ r. not (has_key a (to_ascii_lowercase e) r)) d.opt_ins,
    ground (arith, quiet),
    any-without a (to_ascii_lowercase e) b (to_ascii_lowercase f) d.opt_ins,
  )

  decide_all-decided :
      (decisions : List Decision) (d : Db)
      → d.faults ≡ []
      → (rows : List OptInRow) × (decide_all decisions d ≡ (ok tt, record d { opt_ins = rows }))
        × (trusted_in rows ≡ decided_all b f decisions (trusted_in d.opt_ins))
  unfolding decide_all decided_all ◌>>=◌ pure
  decide_all-decided [] d quiet = (d.opt_ins, refl, refl)
  decide_all-decided (c ∷ decisions) d quiet =
      let (rows, ran, one) = decide-decided c d quiet in
      let (rows', rest, all) = decide_all-decided decisions (record d { opt_ins = rows }) quiet in
      (
        rows',
        ap (after (decide_all decisions)) ran ∙ rest,
        all ∙ ap (decided_all b f decisions) one,
      )

  -- Where no statement fails, a sender is trusted after any decisions exactly if the last of them on
  -- the same account and address, in any ASCII case, was to trust it, or if there was none and it was
  -- trusted before.
  pub is_trusted-decided :
      (decisions : List Decision) (d : Db)
      → d.faults ≡ []
      → ((decide_all decisions >> is_trusted b f) d).0
        ≡ ok (decided_all b f decisions (trusted_in d.opt_ins))
  unfolding is_trusted statement ◌>>=◌
  is_trusted-decided decisions d quiet =
      let (rows, ran, all) = decide_all-decided decisions d quiet in
      ap (λ t. (after (is_trusted b f) t).0) ran ∙ asked rows ∙ ap ok all
    where
      asked :
          (rows : List OptInRow)
          → (is_trusted b f (record d { opt_ins = rows })).0 ≡ ok (trusted_in rows)
      asked rows = ground (arith, quiet)
