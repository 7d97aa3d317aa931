-- ===== src/Bucket/Meta.antt =====
-- What reading attachments keeps, and the keys of the filter for removing them.
use reduct_cpp.Common.{
  ◌≡◌, refl, ap, ◌∙◌, Bool, true, false, Option, none, some, List, [], ◌∷◌, Bytes, ok, ◌=?◌, =?_iff,
  All, starts_with, if◌then◌else◌, arith, Bool-cases, Option-cases, drop, inl, inr,
}
use reduct_cpp.Common.Table.{find, same, same_iff, find-assign, find-erase, bytes_ord}
use reduct_cpp.Json.{Json}
use reduct_cpp.Serialisation.{success}
use reduct_cpp.Batch.{ReadableRecord}
use reduct_cpp.Bucket.Attachments.{
  escape_key, keep_attachment, keep_payload, removes, Reading, label_key,
}

pub same_text : (a b : Bytes) → same a b ≡ (a =? b)
same_text a b = ground (arith, same_iff a b, =?_iff a b)

-- What a record with the key `key` says of the key `k`.
abbrev pub said : Bytes → Bytes → Bool → Bytes → Option Bytes → Option Bytes
said k key removed payload before =
    if key =? k then (if removed then none else some payload) else before

-- What a record says of a key: without a key itself it says nothing.
abbrev pub says : Bytes → Option Bytes → Bool → Bytes → Option Bytes → Option Bytes
says k none removed payload before = before
says k (some key) removed payload before = said k key removed payload before

-- What is known of a key behind some records.
unfoldable pub latest : Bytes → List (ReadableRecord × Bytes) → Option Bytes → Option Bytes
unfolding find removes
latest k [] before = before
latest k ((r, payload) ∷ rest) before =
    latest k rest (says k (find label_key r.labels) (removes r) payload before)

module _ (json : Json) where
  -- The callback on one record after the other, with the data that was read of each.
  unfoldable pub keep_all : List (ReadableRecord × Bytes) → Reading → Reading
  unfolding keep_attachment
  keep_all [] st = st
  keep_all ((r, payload) ∷ rest) st = keep_all rest (keep_attachment json r (success payload) st).1

  -- The payload is a JSON text.
  abbrev pub IsJson : Bytes → Type 0
  IsJson payload = (v : json.J) × (json.parse payload ≡ ok v)

  keep_attachment-find :
      (k : Bytes) (r : ReadableRecord) (payload : Bytes) (st : Reading)
      → IsJson payload
      → find k (keep_attachment json r (success payload) st).1.attachments
        ≡ says k (find label_key r.labels) (removes r) payload (find k st.attachments)
  unfolding keep_attachment keep_payload
  keep_attachment-find k r payload st parsed = elim (Option-cases (find label_key r.labels)) [
    | inl none_ ↦ rw (none_, keep_attachment) refl
    | inr (key, there) ↦ elim (Bool-cases (removes r)) [
      | inl gone ↦
          rw (there, gone, keep_attachment)
            (find-erase key k st.attachments
              ∙ ap (λ t. if t then none else find k st.attachments) (same_text key k))
      | inr kept ↦
          rw (there, kept, keep_attachment, parsed.1, keep_payload)
            (find-assign key k payload st.attachments
              ∙ ap (λ t. if t then some payload else find k st.attachments) (same_text key k))
    ]
  ]

  -- For payloads that are JSON texts, what is kept under a key behind all records is what the last
  -- record with that key says: its payload, or nothing where it has the label that removes it;
  -- other records leave it as it was.
  pub keep_all-latest :
      (k : Bytes) (rs : List (ReadableRecord × Bytes)) (st : Reading)
      → All (λ r. IsJson r.1) rs
      → find k (keep_all rs st).attachments ≡ latest k rs (find k st.attachments)
  unfolding keep_all latest
  keep_all-latest k [] st h = refl
  keep_all-latest k ((r, payload) ∷ rest) st (parsed, h) =
      keep_all-latest k rest (keep_attachment json r (success payload) st).1 h
      ∙ ap (latest k rest) (keep_attachment-find k r payload st parsed)

escaped_eq :
    (a b : Bytes) (p q : Bool)
    → starts_with (b'$' ∷ []) a ≡ p
    → starts_with (b'$' ∷ []) b ≡ q
    → (if p then b'$' ∷ a else a) ≡ (if q then b'$' ∷ b else b)
    → a ≡ b
escaped_eq a b true true hp hq e = ap (drop 1) e
escaped_eq a b false false hp hq e = e
escaped_eq a b true false hp hq e =
    let t : true ≡ starts_with (b'$' ∷ []) b = ap (starts_with (b'$' ∷ [])) e in
    absurd (ground (arith, t, hq))
escaped_eq a b false true hp hq e =
    let t : starts_with (b'$' ∷ []) a ≡ true = ap (starts_with (b'$' ∷ [])) e in
    absurd (ground (arith, t, hp))

-- Keys with the same filter are the same, so no filter stands for two attachments.
pub escape_key-injective : (a b : Bytes) → escape_key a ≡ escape_key b → a ≡ b
unfolding escape_key
escape_key-injective a b e = escaped_eq a b _ _ refl refl e
