-- ===== src/Storage/Drafts/Codec.antt =====
-- A codec in the place of JSON for the tests of the drafts: a list of texts is one text, in which each
-- of them ends with a zero and its code points are raised by one.
use qsl.Prelude.{
  ℕ, zero, suc, ◌≡◌, refl, sym, ap, ◌∙◌, subst, arith, Bool, true, false, List, [], ◌∷◌, ◌++◌, map,
  append-nil, append_assoc, Option, none, some, Text, codes,
}
use qsl.Prelude.Result.{Result, ok, err, ◌>>=◌, ok_unique}
use qsl.Core.Error.{StorageError}
use qsl.Core.Message.{EmailAddress}
use qsl.Core.Draft.{DraftAttachment}
use qsl.Storage.Drafts.{DraftJson}
use qsl.Storage.Drafts.Decoded.{ReadsBack}

abbrev pack : List Text → Text
pack [] = []
pack (t ∷ ts) = map suc t ++ (zero ∷ pack ts)

abbrev unpack : Text → Text → List Text
unpack current [] = []
unpack current (zero ∷ s) = current ∷ unpack [] s
unpack current (suc c ∷ s) = unpack (current ++ c ∷ []) s

unpack-text :
    (current t rest : Text)
    → unpack current (map suc t ++ (zero ∷ rest)) ≡ (current ++ t) ∷ unpack [] rest
unpack-text current [] rest = ap (λ u. u ∷ unpack [] rest) (sym (append-nil current))
unpack-text current (c ∷ t) rest =
    unpack-text (current ++ c ∷ []) t rest
    ∙ ap (λ u. u ∷ unpack [] rest) (append_assoc current (c ∷ []) t)

unpack-pack : (ts : List Text) → unpack [] (pack ts) ≡ ts
unpack-pack [] = refl
unpack-pack (t ∷ ts) = unpack-text [] t (pack ts) ∙ ap (λ us. t ∷ us) (unpack-pack ts)

module _ {A : Type 0} (to_texts : A → List Text)
    (from_texts : List Text → Result StorageError A) where
  abbrev encode_list : List A → Result StorageError Text
  encode_list items = ok (pack (map (λ a. pack (to_texts a)) items))

  abbrev read_all : List Text → Result StorageError (List A)
  read_all [] = ok []
  read_all (t ∷ ts) = from_texts (unpack [] t) >>= λ a. read_all ts >>= λ items. ok (a ∷ items)

  abbrev decode_list : Text → Result StorageError (List A)
  decode_list t = read_all (unpack [] t)

  module _ (back : (a : A) → from_texts (to_texts a) ≡ ok a) where
    read_all-texts : (items : List A) → read_all (map (λ a. pack (to_texts a)) items) ≡ ok items
    read_all-texts [] = refl
    read_all-texts (a ∷ items) =
        ap
          (λ ts. from_texts ts >>= λ b.
            read_all (map (λ c. pack (to_texts c)) items) >>= λ bs. ok (b ∷ bs))
          (unpack-pack (to_texts a))
        ∙ ap (λ r. r >>= λ b. read_all (map (λ c. pack (to_texts c)) items) >>= λ bs. ok (b ∷ bs))
            (back a)
        ∙ ap (λ r. r >>= λ bs. ok (a ∷ bs)) (read_all-texts items)

    decode-encode_list :
        (items : List A) (t : Text) → encode_list items ≡ ok t → decode_list t ≡ ok items
    decode-encode_list items t e =
        subst (λ u. decode_list u ≡ ok items) (ok_unique (encode_list items) _ t refl e)
          (ap read_all (unpack-pack (map (λ a. pack (to_texts a)) items)) ∙ read_all-texts items)

abbrev malformed : StorageError
malformed = StorageError.serde (codes "malformed")

abbrev address_texts : EmailAddress → List Text
address_texts a = a.address ∷ elim a.display_name [ none ↦ [] | some name ↦ name ∷ [] ]

abbrev texts_address : List Text → Result StorageError EmailAddress
texts_address [] = err malformed
texts_address (a ∷ []) = ok (record { address = a; display_name = none })
texts_address (a ∷ name ∷ rest) = ok (record { address = a; display_name = some name })

abbrev flag : Bool → ℕ
flag true = 1
flag false = 0

abbrev is_set : ℕ → Bool
is_set zero = false
is_set (suc n) = true

abbrev attachment_texts : DraftAttachment → List Text
attachment_texts a =
    a.file_path ∷ a.filename ∷ a.mime_type ∷ (a.size_bytes ∷ flag a.inline ∷ []) ∷ []

abbrev texts_attachment : List Text → Result StorageError DraftAttachment
texts_attachment (path ∷ name ∷ mime ∷ (size ∷ inline ∷ []) ∷ []) = ok (record {
  file_path = path;
  filename = name;
  mime_type = mime;
  size_bytes = size;
  inline = is_set inline;
})
texts_attachment other = err malformed

abbrev text_texts : Text → List Text
text_texts t = t ∷ []

abbrev texts_text : List Text → Result StorageError Text
texts_text [] = err malformed
texts_text (t ∷ rest) = ok t

abbrev pub packing : DraftJson
packing = record {
  encode_addresses = encode_list address_texts texts_address;
  encode_texts = encode_list text_texts texts_text;
  encode_attachments = encode_list attachment_texts texts_attachment;
  decode_addresses = decode_list address_texts texts_address;
  decode_texts = decode_list text_texts texts_text;
  decode_attachments = decode_list attachment_texts texts_attachment;
}

address_back : (a : EmailAddress) → texts_address (address_texts a) ≡ ok a
address_back a = go a.display_name refl
  where
    go : (o : Option Text) → a.display_name ≡ o → texts_address (address_texts a) ≡ ok a
    go none e = ground (arith, e)
    go (some name) e = ground (arith, e)

is_set-flag : (b : Bool) → is_set (flag b) ≡ b
is_set-flag true = refl
is_set-flag false = refl

attachment_back : (a : DraftAttachment) → texts_attachment (attachment_texts a) ≡ ok a
attachment_back a = ap (λ b. ok (record a { inline = b })) (is_set-flag a.inline)

pub packing-ReadsBack : ReadsBack packing
packing-ReadsBack = record {
  addresses = decode-encode_list address_texts texts_address address_back;
  texts = decode-encode_list text_texts texts_text (λ t. refl);
  attachments = decode-encode_list attachment_texts texts_attachment attachment_back;
}
