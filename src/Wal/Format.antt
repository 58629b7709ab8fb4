-- ===== src/Wal/Format.antt =====
-- internal/wal/wal.go: what one written record reads back as, whole or cut short.
use vortexmq.Prelude.{
  take_append_past, ℕ, zero, suc, ◌+◌, ◌-◌, ◌^◌, ◌≤◌, ◌<◌, true, false, none, some, [], ◌∷◌, ◌++◌,
  if◌then◌else◌, ◌==◌, not-ltb, if-true, if-false, length, take, Bytes, dec_lt, length-take, ◌≡◌,
  ◌≢◌, refl, sym, ap, ap₂, ◌∙◌, arith,
}
use vortexmq.Stream.{read_full, read_full_append, read_full_short}
use vortexmq.Wal.{be32, read_be32, total_len, frame, checked, read_body, after_header, read_record}

-- The record of an operation and a payload, as its comment in `writeRecord` draws it.
abbrev pub header : (Bytes → ℕ) → ℕ → Bytes → Bytes
header crc op payload = be32 (9 + length payload) ++ be32 (crc (op ∷ payload))

abbrev pub encode : (Bytes → ℕ) → ℕ → Bytes → Bytes
encode crc op payload = header crc op payload ++ (op ∷ payload)

-- The length fits its field.
abbrev pub IsFit : Bytes → Type 0
IsFit payload = 9 + length payload < 2 ^ 32

read_be32-be32 : (n : ℕ) → n < 2 ^ 32 → read_be32 (be32 n) ≡ n
unfolding read_be32 be32
read_be32-be32 n h = omega arith

total_len_fit : (payload : Bytes) → IsFit payload → total_len payload ≡ 9 + length payload
total_len_fit payload h = omega arith

take-past_all : (n : ℕ) (xs : Bytes) → length xs ≤ n → take n xs ≡ xs
take-past_all zero [] h = refl
take-past_all (suc n) [] h = refl
take-past_all zero (x ∷ xs) h = absurd (omega arith)
take-past_all (suc n) (x ∷ xs) h = ap (◌∷◌ x) (take-past_all n xs (omega arith))

pub frame_fit :
    (crc : Bytes → ℕ) (op : ℕ) (payload : Bytes)
    → IsFit payload
    → frame crc op payload ≡ some (encode crc op payload)
unfolding frame be32
frame_fit crc op payload h =
    if-false _ _ _ (not-ltb (total_len payload) 9 (omega (arith, total_len_fit payload h)))
    ∙ ap₂ (λ t p. some (be32 t ++ (be32 (crc (op ∷ payload)) ++ (op ∷ p))))
        (total_len_fit payload h)
        (take-past_all (total_len payload - 9) payload (omega (arith, total_len_fit payload h)))

==-refl : (a : ℕ) → (a == a) ≡ true
==-refl a = ground arith

==-ne : (a b : ℕ) → a ≢ b → (a == b) ≡ false
==-ne a b h = ground arith

-- A header with a length in range sends the reader to the body.
read_record-header :
    (crc : Bytes → ℕ) (t c : ℕ) (bs : Bytes)
    → t < 2 ^ 32
    → c < 2 ^ 32
    → 9 ≤ t
    → read_record crc ((be32 t ++ be32 c) ++ bs) ≡ read_body crc t c bs
unfolding read_record after_header be32
read_record-header crc t c bs ht hc h =
    ap (after_header crc) (read_full_append (be32 t ++ be32 c) bs)
    ∙ if-false _ _ _ (not-ltb (read_be32 (be32 t)) 9 (omega (arith, read_be32-be32 t ht)))
    ∙ ap₂ (λ a b. read_body crc a b bs) (read_be32-be32 t ht) (read_be32-be32 c hc)

-- The body of the announced length, before anything that follows it.
read_body_at :
    (crc : Bytes → ℕ) (t c : ℕ) (body rest : Bytes)
    → length body ≡ t - 8
    → read_body crc t c (body ++ rest) ≡ (if crc body == c then some (body, rest) else none)
unfolding read_body checked
read_body_at crc t c body rest h =
    ap (λ n. checked crc c (read_full n (body ++ rest))) (sym h)
    ∙ ap (checked crc c) (read_full_append body rest)

read_body-short :
    (crc : Bytes → ℕ) (t c : ℕ) (bs : Bytes) → length bs < t - 8 → read_body crc t c bs ≡ none
unfolding read_body checked
read_body-short crc t c bs h = ap (checked crc c) (read_full_short (t - 8) bs h)

module _ (crc : Bytes → ℕ) (crc_bound : (bs : Bytes) → crc bs < 2 ^ 32) where
  -- A whole record reads as its body, whatever follows.
  pub read_record-encode :
      (op : ℕ) (payload rest : Bytes)
      → IsFit payload
      → read_record crc (encode crc op payload ++ rest) ≡ some (op ∷ payload, rest)
  unfolding be32
  read_record-encode op payload rest h =
      read_record-header crc (9 + length payload) (crc (op ∷ payload)) ((op ∷ payload) ++ rest) h
        (crc_bound (op ∷ payload)) (omega arith)
      ∙ read_body_at crc (9 + length payload) (crc (op ∷ payload)) (op ∷ payload) rest (omega arith)
      ∙ if-true _ _ _ (==-refl (crc (op ∷ payload)))

  -- A record cut short reads as the end of the log.
  pub read_record-torn :
      (op : ℕ) (payload : Bytes) (k : ℕ)
      → IsFit payload
      → k < length (encode crc op payload)
      → read_record crc (take k (encode crc op payload)) ≡ none
  unfolding read_record after_header be32
  read_record-torn op payload k h less = elim (dec_lt k 8) [
    | yes small ↦ ap (after_header crc) (
        read_full_short 8 (take k (encode crc op payload))
          (omega (arith, length-take k (encode crc op payload))))
    | no large ↦
        ap (read_record crc)
          (take_append_past k (header crc op payload) (op ∷ payload) (omega arith))
        ∙ read_record-header crc (9 + length payload) (crc (op ∷ payload))
            (take (k - 8) (op ∷ payload)) h (crc_bound (op ∷ payload)) (omega arith)
        ∙ read_body-short crc (9 + length payload) (crc (op ∷ payload))
            (take (k - 8) (op ∷ payload)) (omega (arith, length-take (k - 8) (op ∷ payload)))
  ]

  -- A body whose checksum is not the header's reads as the end of the log.
  pub read_record-damaged :
      (c : ℕ) (body rest : Bytes)
      → 0 < length body
      → 8 + length body < 2 ^ 32
      → c < 2 ^ 32
      → crc body ≢ c
      → read_record crc ((be32 (8 + length body) ++ be32 c) ++ (body ++ rest)) ≡ none
  read_record-damaged c body rest some_body h hc e =
      read_record-header crc (8 + length body) c (body ++ rest) h hc (omega arith)
      ∙ read_body_at crc (8 + length body) c body rest (omega arith)
      ∙ if-false _ _ _ (==-ne (crc body) c e)
