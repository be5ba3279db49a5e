-- ===== src/Desktop/Reply/Recipients.antt =====
-- apps/desktop/ui/src/reply.rs: the copies of a reply to all.
use qsl.Prelude.{
  ◌≡◌, refl, sym, ap, subst, ◌∙◌, arith, List, [], ◌∷◌, ◌++◌, map, any, any-append, any-weaken,
  Bool, true, false, ◌||◌, ◌&&◌, not, Text, eq_text, eq_text_refl, eq_text_iff, Bool-cases, inl,
  inr,
}
use qsl.Core.Message.{EmailAddress, MessageHeaders}
use qsl.Desktop.Reply.{contains_text, unseen, reply_all_cc}

abbrev pub no_repeat : List Text → Bool
no_repeat [] = true
no_repeat (t ∷ texts) = not (contains_text texts t) && no_repeat texts

-- A list within another: some elements of it, in order.
pub data Within {ℓ} {A : Type ℓ} : List A → List A → Type ℓ where
  none_left : Within [] []
  skip : {x : A} {xs ys : List A} → Within xs ys → Within xs (x ∷ ys)
  keep : {x : A} {xs ys : List A} → Within xs ys → Within (x ∷ xs) (x ∷ ys)

module _ (to_lowercase : Text → Text) where
  abbrev pub key : EmailAddress → Text
  key a = to_lowercase a.address

  abbrev pub keys : List EmailAddress → List Text
  keys = map key

  contains-append :
      (xs ys : List Text) (t : Text)
      → contains_text (xs ++ ys) t ≡ (contains_text xs t || contains_text ys t)
  contains-append xs ys t = any-append (eq_text t) xs ys

  unseen-skip :
      (seen : List Text) (a : EmailAddress) (rest : List EmailAddress)
      → contains_text seen (key a) ≡ true
      → unseen to_lowercase seen (a ∷ rest) ≡ unseen to_lowercase seen rest
  unfolding unseen
  unseen-skip seen a rest e = rw e refl

  unseen-keep :
      (seen : List Text) (a : EmailAddress) (rest : List EmailAddress)
      → contains_text seen (key a) ≡ false
      → unseen to_lowercase seen (a ∷ rest) ≡ a ∷ unseen to_lowercase (seen ++ key a ∷ []) rest
  unfolding unseen
  unseen-keep seen a rest e = rw e refl

  -- What is said of the addresses that are left of `given`, behind `seen`.
  pub record Fresh (seen : List Text) (given out : List EmailAddress) : Type 0 where
    pub within : Within out given
    pub new : any (λ a. contains_text seen (key a)) out ≡ false
    pub single : no_repeat (keys out) ≡ true
    pub covered : any (λ a. not (contains_text (seen ++ keys out) (key a))) given ≡ false

  Fresh-skip :
      (seen : List Text) (a : EmailAddress) (given out : List EmailAddress)
      → contains_text seen (key a) ≡ true
      → Fresh seen given out
      → Fresh seen (a ∷ given) out
  Fresh-skip seen a given out e f = record {
    within = skip f.within;
    new = f.new;
    single = f.single;
    covered = ground (arith, f.covered, contains-append seen (keys out) (key a));
  }

  any-keys :
      (p : Text → Bool) (out : List EmailAddress) → any p (keys out) ≡ any (λ a. p (key a)) out
  any-keys p [] = refl
  any-keys p (a ∷ out) = ground (arith, any-keys p out)

  append-cons :
      (seen : List Text) (t : Text) (texts : List Text)
      → (seen ++ t ∷ []) ++ texts ≡ seen ++ t ∷ texts
  append-cons [] t texts = refl
  append-cons (s ∷ seen) t texts = ap (λ rest. s ∷ rest) (append-cons seen t texts)

  new-weaken :
      (seen : List Text) (t : Text) (out : List EmailAddress)
      → any (λ a. contains_text (seen ++ t ∷ []) (key a)) out ≡ false
      → any (λ a. contains_text seen (key a)) out ≡ false
  new-weaken seen t out =
      any-weaken (λ a. contains_text (seen ++ t ∷ []) (key a)) (λ a. contains_text seen (key a)) out
        λ a h. ground (arith, contains-append seen (t ∷ []) (key a))

  new-single :
      (seen : List Text) (t : Text) (out : List EmailAddress)
      → any (λ a. contains_text (seen ++ t ∷ []) (key a)) out ≡ false
      → contains_text (keys out) t ≡ false
  new-single seen t out h =
      any-keys (eq_text t) out
      ∙ any-weaken (λ a. contains_text (seen ++ t ∷ []) (key a)) (λ a. eq_text t (key a)) out
          (λ a e. ground (
            arith,
            contains-append seen (t ∷ []) (key a),
            eq_text_iff t (key a),
            eq_text_iff (key a) t,
          ))
          h

  Fresh-keep :
      (seen : List Text) (a : EmailAddress) (given out : List EmailAddress)
      → contains_text seen (key a) ≡ false
      → Fresh (seen ++ key a ∷ []) given out
      → Fresh seen (a ∷ given) (a ∷ out)
  Fresh-keep seen a given out e f = record {
    within = keep f.within;
    new = ground (arith, new-weaken seen (key a) out f.new);
    single = ground (arith, new-single seen (key a) out f.new, f.single);
    covered =
        ground (arith, contains-append seen (keys (a ∷ out)) (key a), eq_text_refl (key a), others);
  }
    where
      others : any (λ b. not (contains_text (seen ++ key a ∷ keys out) (key b))) given ≡ false
      others =
          subst (λ texts. any (λ b. not (contains_text texts (key b))) given ≡ false)
            (append-cons seen (key a) (keys out)) f.covered

  unseen-Fresh :
      (seen : List Text) (given : List EmailAddress)
      → Fresh seen given (unseen to_lowercase seen given)
  unseen-Fresh seen [] =
      unfold unseen in record { within = none_left; new = refl; single = refl; covered = refl }
  unseen-Fresh seen (a ∷ given) = elim (Bool-cases (contains_text seen (key a))) [
    | inl e ↦
        subst (Fresh seen (a ∷ given)) (sym (unseen-skip seen a given e))
          (Fresh-skip seen a given _ e (unseen-Fresh seen given))
    | inr e ↦
        subst (Fresh seen (a ∷ given)) (sym (unseen-keep seen a given e))
          (Fresh-keep seen a given _ e (unseen-Fresh (seen ++ key a ∷ []) given))
  ]

  -- A reply to all is copied to some of the addresses of To and Cc, in their order: to none that, in
  -- lower case, is one of the primary recipients' or the account's, to none twice, and to all the
  -- others.
  pub reply_all_cc-Fresh :
      (h : MessageHeaders) (primary_to : List EmailAddress) (account_email : Text)
      → Fresh
          (keys primary_to ++ to_lowercase account_email ∷ [])
          (h.to ++ h.cc)
          (reply_all_cc to_lowercase h primary_to account_email)
  unfolding reply_all_cc
  reply_all_cc-Fresh h primary_to account_email =
      unseen-Fresh (keys primary_to ++ to_lowercase account_email ∷ []) (h.to ++ h.cc)
