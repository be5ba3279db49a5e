-- ===== src/Sync/Chunk/Sorted.antt =====
-- crates/sync/src/lib.rs, `apply_chunk`: which headers the second phase inserts and heals.
use qsl.Prelude.{
  ◌≡◌, refl, sym, ap, subst, ◌∙◌, arith, Bool, true, List, [], ◌∷◌, ◌++◌, any, any-append, All,
  All-append, Option, none, some, eq_text, eq_text_refl, if◌then◌else◌,
}
use qsl.Prelude.Result
use qsl.Prelude.Result.{Result, ok, err, ok_unique, >>=-eq-ok}
use qsl.Core.Error.{StorageError}
use qsl.Core.Ids.{MessageId}
use qsl.Core.Message.{MessageHeaders}
use qsl.Sync.Threading.{ThreadAttachment}
use qsl.Sync.Plan.{
  Outside, Entries, ExistingRow, Resolutions, Buckets, lookup, is_unchanged, sort_header,
  sort_headers,
}
use qsl.Sync.Chunk.Grows.{is_there}
use qsl.Sync.Chunk.Inserted.{in_thread}

abbrev pub listed : MessageId → List MessageHeaders → Bool
listed id headers = any (λ x. eq_text x.id id) headers

listed-append :
    (id : MessageId) (xs ys : List MessageHeaders)
    → listed id xs ≡ true
    → listed id (xs ++ ys) ≡ true
listed-append id xs ys h = any-append (λ x. eq_text x.id id) xs ys ∙ ground arith

listed-last :
    (h : MessageHeaders) (xs : List MessageHeaders) (x : MessageHeaders)
    → x.id ≡ h.id
    → listed h.id (xs ++ x ∷ []) ≡ true
listed-last h xs x same =
    any-append (λ x'. eq_text x'.id h.id) xs (x ∷ [])
    ∙ ground (arith, ap (λ i. eq_text i h.id) same, eq_text_refl h.id)

-- Whether a header that was resolved is in its bucket.
abbrev pub placed : Option ThreadAttachment → Option ThreadAttachment → Bool → Bool → Bool
placed (some res) healed insert heal = insert
placed none (some res) insert heal = heal
placed none none insert heal = true

placed-weaken :
    (new healed : Option ThreadAttachment) (i i' h h' : Bool)
    → (i ≡ true → i' ≡ true)
    → (h ≡ true → h' ≡ true)
    → placed new healed i h ≡ true
    → placed new healed i' h' ≡ true
placed-weaken (some res) healed i i' h h' f g e = f e
placed-weaken none (some res) i i' h h' f g e = g e
placed-weaken none none i i' h h' f g e = refl

module _ (outside : Outside) (existing : Entries ExistingRow) (s : Resolutions)
    (P : MessageId → Type 0) where
  abbrev pub Placed : Buckets → MessageHeaders → Type 0
  Placed b h =
      placed (lookup h.id s.new) (lookup h.id s.heal) (listed h.id b.to_insert)
        (listed h.id b.to_heal)
      ≡ true

  abbrev pub Inserting : MessageHeaders → Type 0
  Inserting x = (in_thread x.thread_id ≡ true) × (is_there (lookup x.id s.new) ≡ true) × P x.id

  abbrev pub Healing : MessageHeaders → Type 0
  Healing x = (is_there (lookup x.id s.heal) ≡ true) × P x.id

  -- Every header is in its bucket, and each bucket has only headers that were resolved for it.
  pub record Sorting (headers : List MessageHeaders) (b b' : Buckets) : Type 0 where
    pub keeps : (x : MessageHeaders) → Placed b x → Placed b' x
    pub places : All (Placed b') headers
    pub inserts : All Inserting b.to_insert → All Inserting b'.to_insert
    pub heals : All Healing b.to_heal → All Healing b'.to_heal

  sort_header-Sorting :
      (h : MessageHeaders) (b b' : Buckets)
      → P h.id
      → sort_header outside existing s h b ≡ ok b'
      → Sorting (h ∷ []) b b'
  unfolding sort_header
  sort_header-Sorting h b b' p sorted = new (lookup h.id s.new) refl sorted
    where
      plain : (o : Option ExistingRow) → Result StorageError Buckets
      plain o = elim o [
        | none ↦ ok (record b { to_update = b.to_update ++ h ∷ [] })
        | some row ↦
            Result.◌>>=◌ (is_unchanged outside h row)
              λ same. ok (if same then b else record b { to_update = b.to_update ++ h ∷ [] })
      ]

      healed : (o : Option ThreadAttachment) → Result StorageError Buckets
      healed o = elim o [
        | some res ↦ ok (record b { to_heal = b.to_heal ++ h ∷ [] })
        | none ↦ plain (lookup h.id existing)
      ]

      inserted : (o : Option ThreadAttachment) → Result StorageError Buckets
      inserted o = elim o [
        | some res ↦ ok (record b {
          to_insert = b.to_insert ++ record h { thread_id = some res.thread_id } ∷ [];
        })
        | none ↦ healed (lookup h.id s.heal)
      ]

      -- The buckets of the resolved headers are as they were.
      others :
          (i : b'.to_insert ≡ b.to_insert)
          → b'.to_heal ≡ b.to_heal
          → lookup h.id s.new ≡ none
          → lookup h.id s.heal ≡ none
          → Sorting (h ∷ []) b b'
      others i j e f = record {
        keeps = λ x k.
            subst
              (λ xs.
                placed (lookup x.id s.new) (lookup x.id s.heal) (listed x.id xs)
                  (listed x.id b'.to_heal)
                ≡ true)
              (sym i)
              (subst
                (λ xs.
                  placed (lookup x.id s.new) (lookup x.id s.heal) (listed x.id b.to_insert)
                    (listed x.id xs)
                  ≡ true)
                (sym j) k);
        places = (ground (arith, e, f), tt);
        inserts = λ all. subst (All Inserting) (sym i) all;
        heals = λ all. subst (All Healing) (sym j) all;
      }

      same_buckets :
          (c : Buckets)
          → ◌≡◌ {A = Result StorageError Buckets} (ok c) (ok b')
          → c.to_insert ≡ b.to_insert
          → c.to_heal ≡ b.to_heal
          → (b'.to_insert ≡ b.to_insert) × (b'.to_heal ≡ b.to_heal)
      same_buckets c e i j =
          let same = ok_unique (ok c) c b' refl e in
          (ap (λ x. x.to_insert) (sym same) ∙ i, ap (λ x. x.to_heal) (sym same) ∙ j)

      kept :
          (o : Option ExistingRow)
          → plain o ≡ ok b'
          → (b'.to_insert ≡ b.to_insert) × (b'.to_heal ≡ b.to_heal)
      kept none e = same_buckets _ e refl refl
      kept (some row) e =
          let (same, e1, f1) = >>=-eq-ok (is_unchanged outside h row) _ e in
          same_buckets _ e1 (ground arith) (ground arith)

      heal :
          (o : Option ThreadAttachment)
          → lookup h.id s.heal ≡ o
          → lookup h.id s.new ≡ none
          → healed o ≡ ok b'
          → Sorting (h ∷ []) b b'
      heal none e f g = let (i, j) = kept (lookup h.id existing) g in others i j f e
      heal (some res) e f g =
          subst (Sorting (h ∷ []) b) (ok_unique (healed (some res)) _ b' refl g) (record {
            keeps = λ x k.
                placed-weaken (lookup x.id s.new) (lookup x.id s.heal) _ _ _ _ (λ l. l)
                  (listed-append x.id b.to_heal (h ∷ [])) k;
            places = (ground (arith, e, f, listed-last h b.to_heal h refl), tt);
            inserts = λ all. all;
            heals = λ all. All-append Healing b.to_heal (h ∷ []) all ((ap is_there e, p), tt);
          })

      new :
          (o : Option ThreadAttachment)
          → lookup h.id s.new ≡ o
          → inserted o ≡ ok b'
          → Sorting (h ∷ []) b b'
      new none e g = heal (lookup h.id s.heal) refl e g
      new (some res) e g =
          subst (Sorting (h ∷ []) b) (ok_unique (inserted (some res)) _ b' refl g) (record {
            keeps = λ x k.
                placed-weaken (lookup x.id s.new) (lookup x.id s.heal) _ _ _ _
                  (listed-append x.id b.to_insert _) (λ l. l) k;
            places = (
              ground (
                arith,
                e,
                listed-last h b.to_insert (record h { thread_id = some res.thread_id }) refl,
              ),
              tt,
            );
            inserts = λ all. All-append Inserting b.to_insert _ all ((refl, ap is_there e, p), tt);
            heals = λ all. all;
          })

  pub sort_headers-Sorting :
      (headers : List MessageHeaders) (b b' : Buckets)
      → All (λ h. P h.id) headers
      → sort_headers outside existing s headers b ≡ ok b'
      → Sorting headers b b'
  unfolding sort_headers
  sort_headers-Sorting [] b b' all sorted =
      subst (Sorting [] b) (ok_unique (ok b) b b' refl sorted)
        (record { keeps = λ x k. k; places = tt; inserts = λ a. a; heals = λ a. a })
  sort_headers-Sorting (h ∷ headers) b b' (p, all) sorted =
      let (c, e, f) = >>=-eq-ok (sort_header outside existing s h b) _ sorted in
      let first = sort_header-Sorting h b c p f in
      let rest = sort_headers-Sorting headers c b' all e in
      record {
        keeps = λ x k. rest.keeps x (first.keeps x k);
        places = (rest.keeps h first.places.0, rest.places);
        inserts = λ a. rest.inserts (first.inserts a);
        heals = λ a. rest.heals (first.heals a);
      }
