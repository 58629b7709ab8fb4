-- ===== src/Resp/Progress.antt =====
-- internal/protocol/resp.go: how much a call reads, and how large its result can be.
use vortexmq.Prelude.{
  ℕ, zero, suc, ◌+◌, ◌≤◌, ◌<◌, Bool, true, false, Option, none, some, List, [], ◌∷◌, ◌++◌, ltb, leb,
  ◌==◌, ltb-false→le, leb→le, Bool-cases, Option-cases, inl, inr, ◌⊎◌, if-true, if-false, length,
  length-take, length-drop, take, Bytes, ◌≡◌, refl, sym, ap, ◌∙◌, subst, arith,
}
use vortexmq.Int.{ℤ, pos, negsuc}
use vortexmq.Stream.{read_full}
use vortexmq.Resp.{
  Command, Read, failed, got, ReadError, Unicode, max_bulk_length, max_command_args, buffer_size,
  split_line, full_chunk, last_chunk, chunk_of, read_chunk, ends_cr, after_chunk, read_line_loop,
  read_line, parse_uint, parse_int, read_body, read_sized, read_bulk, read_arg, read_args,
  read_array, array_command, inline_command, fields, to_upper, bytes_of, read_first,
  read_command_by, read_command,
}
use vortexmq.Resp.RoundTrip.{IsShort, AllShort}

-- What is left of a stream is shorter than `n`, if anything was read.
abbrev Chunks : ℕ → Option (Bytes × Bool × Bytes) → Type 0
Chunks n none = Unit
Chunks n (some (line, prefix, rest)) = length rest < n

abbrev Consumes : ℕ → Option (Bytes × Bytes) → Type 0
Consumes n none = Unit
Consumes n (some (line, rest)) = length rest < n

module _ (size : ℕ) (large : 2 ≤ size) where
  full_chunk-Chunks :
      (bs : Bytes) → size ≤ length bs → Chunks (length bs) (some (full_chunk size bs))
  unfolding full_chunk
  full_chunk-Chunks bs h = elim (Bool-cases (ends_cr (take size bs))) [
    | inl e ↦
        subst (λ c. Chunks (length bs) (some c)) (sym (if-true _ _ _ e))
          (omega (arith, length-drop size bs))
    | inr e ↦
        subst (λ c. Chunks (length bs) (some c)) (sym (if-false _ _ _ e))
          (omega (arith, length-drop size bs))
  ]

  last_chunk-Chunks : (bs : Bytes) → Chunks (length bs) (last_chunk bs)
  unfolding last_chunk
  last_chunk-Chunks [] = tt
  last_chunk-Chunks (c ∷ bs) = omega arith

  split_line-nil : split_line (take size []) ≡ none
  unfolding split_line
  split_line-nil = elim size as (λ n. split_line (take n []) ≡ none) [ zero ↦ refl | suc n ↦ refl ]

  chunk_of-Chunks :
      (bs : Bytes) (s : Option (Bytes × Bytes))
      → split_line (take size bs) ≡ s
      → Chunks (length bs) (chunk_of size bs s)
  unfolding chunk_of
  chunk_of-Chunks bs none e = elim (Bool-cases (leb size (length bs))) [
    | inl f ↦
        subst (Chunks (length bs)) (sym (if-true _ _ _ f))
          (full_chunk-Chunks bs (leb→le size (length bs) f))
    | inr f ↦ subst (Chunks (length bs)) (sym (if-false _ _ _ f)) (last_chunk-Chunks bs)
  ]
  chunk_of-Chunks [] (some p) e = cc (split_line-nil)
  chunk_of-Chunks (c ∷ bs) (some (line, after)) e =
      omega (arith, length-drop (length line + 1) (c ∷ bs))

  after_chunk-Consumes :
      (next : Bytes → Bytes → Option (Bytes × Bytes)) (n m : ℕ)
      → m ≤ n
      → ((acc bs : Bytes) → length bs ≤ n → Consumes n (next acc bs))
      → (acc : Bytes) (r : Option (Bytes × Bool × Bytes)) → Chunks m r
      → Consumes n (after_chunk next acc r)
  unfolding after_chunk
  after_chunk-Consumes next n m le ih acc none h = tt
  after_chunk-Consumes next n m le ih acc (some (line, true, rest)) h =
      ih (acc ++ line) rest (omega arith)
  after_chunk-Consumes next n m le ih acc (some (line, false, rest)) h = omega arith

  read_line_loop-Consumes :
      (fuel n : ℕ) (acc bs : Bytes) → length bs ≤ n → Consumes n (read_line_loop size fuel acc bs)
  unfolding read_line_loop read_chunk
  read_line_loop-Consumes zero n acc bs h = tt
  read_line_loop-Consumes (suc fuel) n acc bs h =
      after_chunk-Consumes (read_line_loop size fuel) n (length bs) h
        (λ acc' bs'. read_line_loop-Consumes fuel n acc' bs') acc (read_chunk size bs)
        (chunk_of-Chunks bs (split_line (take size bs)) refl)

  read_line-Consumes : (bs : Bytes) → Consumes (length bs) (read_line size bs)
  unfolding read_line
  read_line-Consumes bs = read_line_loop-Consumes (suc (length bs)) (length bs) [] bs (omega arith)

pub Read-cases {ℓ} :
    {A : Type ℓ} (r : Read A)
    → ((e : ReadError) × (r ≡ failed e)) ⊎ ((a : A) × (rest : Bytes) × (r ≡ got a rest))
Read-cases (failed e) = inl (e, refl)
Read-cases (got a rest) = inr (a, rest, refl)

-- An argument that was read is short enough, and leaves at most `n` bytes.
abbrev ReadsArg : ℕ → Read (Option Bytes) → Type 0
ReadsArg n (failed e) = Unit
ReadsArg n (got arg rest) = IsShort arg × (length rest ≤ n)

read_body-ReadsArg :
    (n : ℕ) (bs : Bytes) → n ≤ max_bulk_length → ReadsArg (length bs) (read_body n bs)
unfolding read_body read_full
read_body-ReadsArg n bs h = elim (Bool-cases (ltb (length bs) (n + 2))) [
  | inl e ↦ rw (e, read_body) tt
  | inr e ↦
      rw (e, read_body) (omega (arith, length-take n (take (n + 2) bs), length-drop (n + 2) bs))
]

read_sized-ReadsArg : (n : ℤ) (bs : Bytes) → ReadsArg (length bs) (read_sized n bs)
unfolding read_sized
read_sized-ReadsArg (negsuc n) bs = (tt, omega arith)
read_sized-ReadsArg (pos n) bs = elim (Bool-cases (ltb max_bulk_length n)) [
  | inl e ↦ subst (ReadsArg (length bs)) (sym (if-true _ _ _ e)) tt
  | inr e ↦
      subst (ReadsArg (length bs)) (sym (if-false _ _ _ e))
        (read_body-ReadsArg n bs (ltb-false→le max_bulk_length n e))
]

ReadsArg-weaken : (m n : ℕ) (r : Read (Option Bytes)) → m ≤ n → ReadsArg m r → ReadsArg n r
ReadsArg-weaken m n (failed e) h p = tt
ReadsArg-weaken m n (got arg rest) h (p, q) = (p, omega arith)

read_bulk-ReadsArg : (line rest : Bytes) → ReadsArg (length rest) (read_bulk line rest)
unfolding read_bulk
read_bulk-ReadsArg [] rest = tt
read_bulk-ReadsArg (c ∷ digits) rest = elim (Bool-cases (c == b'$')) [
  | inr e ↦ subst (ReadsArg (length rest)) (sym (if-false _ _ _ e)) tt
  | inl e ↦
      subst (ReadsArg (length rest)) (sym (if-true _ _ _ e))
        (elim (Option-cases (parse_int digits)) [
          | inl f ↦ rw (f, read_bulk) tt
          | inr (n, f) ↦ rw (f, read_bulk) (read_sized-ReadsArg n rest)
        ])
]

-- What has been read of a command's arguments.
abbrev ReadsArgs : ℕ → ℕ → Read (List (Option Bytes)) → Type 0
ReadsArgs n k (failed e) = Unit
ReadsArgs n k (got args rest) = AllShort args × (length args ≡ k) × (length rest ≤ n)

-- A command whose name and arguments are the strings of an array that is small enough, the name in
-- capitals.
abbrev pub ReadsCommand : Unicode → ℕ → Read Command → Type 0
ReadsCommand uni n (failed e) = Unit
ReadsCommand uni n (got cmd rest) =
    ((first : Option Bytes) × (cmd.name ≡ to_upper uni (bytes_of first))
      × AllShort (first ∷ cmd.args))
    × (length cmd.args < max_command_args)
    × (length rest ≤ n)

-- A command that was read leaves fewer than `n` bytes.
abbrev pub Advances : ℕ → Read Command → Type 0
Advances n (failed e) = Unit
Advances n (got cmd rest) = length rest < n

ReadsCommand-Advances :
    (uni : Unicode) (m n : ℕ) (r : Read Command) → m < n → ReadsCommand uni m r → Advances n r
ReadsCommand-Advances uni m n (failed e) h p = tt
ReadsCommand-Advances uni m n (got cmd rest) h (p, q, l) = omega (arith, l)

module _ (size : ℕ) (large : 2 ≤ size) where
  read_arg-ReadsArg : (bs : Bytes) → ReadsArg (length bs) (read_arg size bs)
  unfolding read_arg
  read_arg-ReadsArg bs = elim (Option-cases (read_line size bs)) [
    | inl e ↦ rw (e, read_arg) tt
    | inr ((line, rest), e) ↦
        rw (e, read_arg)
          (ReadsArg-weaken (length rest) (length bs) (read_bulk line rest)
            (lt_le (subst (Consumes (length bs)) e (read_line-Consumes size large bs)))
            (read_bulk-ReadsArg line rest))
  ]
    where
      lt_le : {a b : ℕ} → a < b → a ≤ b
      lt_le h = omega arith

  add_arg :
      (n k : ℕ) (arg : Option Bytes) (r : Read (List (Option Bytes)))
      → IsShort arg
      → ReadsArgs n k r
      → ReadsArgs n (suc k) (elim r [ failed e ↦ failed e | got args rest ↦ got (arg ∷ args) rest ])
  add_arg n k arg (failed e) s h = tt
  add_arg n k arg (got args rest) s (p, l, q) = ((s, p), ap suc l, q)

  ReadsArgs-weaken :
      (m n k : ℕ) (r : Read (List (Option Bytes))) → m ≤ n → ReadsArgs m k r → ReadsArgs n k r
  ReadsArgs-weaken m n k (failed e) h p = tt
  ReadsArgs-weaken m n k (got args rest) h (p, l, q) = (p, l, omega arith)

  read_args-ReadsArgs : (k : ℕ) (bs : Bytes) → ReadsArgs (length bs) k (read_args size k bs)
  unfolding read_args
  read_args-ReadsArgs zero bs = (tt, refl, omega arith)
  read_args-ReadsArgs (suc k) bs = elim (Read-cases (read_arg size bs)) [
    | inl (e, p) ↦ rw (p, read_args) tt
    | inr (arg, rest, p) ↦
        let (s, l) = subst (ReadsArg (length bs)) p (read_arg-ReadsArg bs) in
        rw (p, read_args)
          (add_arg (length bs) k arg (read_args size k rest) s (
            ReadsArgs-weaken (length rest) (length bs) k (read_args size k rest) l
              (read_args-ReadsArgs k rest)))
  ]

  module _ (uni : Unicode) where
    array_command-ReadsCommand :
        (n k : ℕ) (r : Read (List (Option Bytes)))
        → k ≤ max_command_args
        → ReadsArgs n k r
        → ReadsCommand uni n
            (elim r [ failed e ↦ failed e | got args rest ↦ array_command uni args rest ])
    unfolding array_command
    array_command-ReadsCommand n k (failed e) h p = tt
    array_command-ReadsCommand n k (got [] rest) h p = tt
    array_command-ReadsCommand n k (got (arg ∷ args) rest) h ((s, ss), l, q) =
        ((arg, refl, (s, ss)), omega (arith, l), q)

    -- A call that reads an array gives a command of at most 65,536 strings, the first of which is the name,
    -- in capitals, and the others the arguments; none of them is longer than 64 MB. What is left of the
    -- stream is no longer than it was.
    pub read_array-ReadsCommand :
        (n : ℤ) (bs : Bytes) → ReadsCommand uni (length bs) (read_array uni size n bs)
    unfolding read_array
    read_array-ReadsCommand (negsuc n) bs = tt
    read_array-ReadsCommand (pos n) bs = elim (Bool-cases (n == 0)) [
      | inl e ↦ subst (ReadsCommand uni (length bs)) (sym (if-true _ _ _ e)) tt
      | inr e ↦ elim (Bool-cases (ltb max_command_args n)) [
        | inl f ↦ subst (ReadsCommand uni (length bs)) (sym (if-false _ _ _ e ∙ if-true _ _ _ f)) tt
        | inr f ↦ subst (ReadsCommand uni (length bs)) (sym (if-false _ _ _ e ∙ if-false _ _ _ f)) (
            array_command-ReadsCommand (length bs) n (read_args size n bs)
              (ltb-false→le max_command_args n f) (read_args-ReadsArgs n bs))
      ]
    ]

    inline_command-Advances :
        (words : List Bytes) (n : ℕ) (rest : Bytes)
        → length rest < n
        → Advances n (inline_command uni words rest)
    unfolding inline_command
    inline_command-Advances [] n rest h = tt
    inline_command-Advances (w ∷ ws) n rest h = h

    read_first-Advances :
        (line rest : Bytes) (n : ℕ) → length rest < n → Advances n (read_first uni size line rest)
    unfolding read_first
    read_first-Advances [] rest n h = tt
    read_first-Advances (c ∷ line) rest n h = elim (Bool-cases (c == b'*')) [
      | inr e ↦
          subst (Advances n) (sym (if-false _ _ _ e))
            (inline_command-Advances (fields uni (c ∷ line)) n rest h)
      | inl e ↦ subst (Advances n) (sym (if-true _ _ _ e)) (elim (Option-cases (parse_uint line)) [
        | inl f ↦ rw (f, read_first) tt
        | inr (k, f) ↦
            rw (f, read_first)
              (ReadsCommand-Advances uni (length rest) n (read_array uni size k rest) h
                (read_array-ReadsCommand k rest))
      ])
    ]

    read_command_by-Advances : (bs : Bytes) → Advances (length bs) (read_command_by uni size bs)
    unfolding read_command_by
    read_command_by-Advances bs = elim (Option-cases (read_line size bs)) [
      | inl e ↦ rw (e, read_command_by) tt
      | inr ((line, rest), e) ↦
          rw (e, read_command_by)
            (read_first-Advances line rest (length bs)
              (subst (Consumes (length bs)) e (read_line-Consumes size large bs)))
    ]

-- A call of `ReadCommand` that gives a command reads at least one byte, whatever the client sends.
pub read_command-Advances :
    (uni : Unicode) (bs : Bytes) → Advances (length bs) (read_command uni bs)
unfolding read_command
read_command-Advances uni bs = read_command_by-Advances buffer_size (omega arith) uni bs
