-- ===== src/Resp/Lines.antt =====
-- internal/protocol/resp.go, readLine: lines against the buffer that they are read through.
use mathlib.Core.Option
use vortexmq.Prelude.{
  ℕ, zero, suc, ◌+◌, ◌-◌, ◌≤◌, ◌<◌, true, false, none, some, [], ◌∷◌, ◌++◌, ◌==◌, ==_iff, le→leb,
  Bool-cases, inl, inr, if-true, if-false, length, take, drop, drop_last, Bytes, take_append_past,
  take-append-drop, length-append, length-drop, append-nil, append_assoc, dec_lt, ◌≡◌, ◌≢◌, refl,
  sym, ap, ap₂, ◌∙◌, arith,
}
use vortexmq.Resp.{
  split_line, drop_cr, ends_cr, full_chunk, chunk_of, read_chunk, after_chunk, read_line_loop,
  read_line,
}

-- No byte is a newline.
abbrev pub NoNewline : Bytes → Type 0
NoNewline [] = Unit
NoNewline (c ∷ bs) = (c ≢ b'\n') × NoNewline bs

pub NoNewline-append : (a b : Bytes) → NoNewline a → NoNewline b → NoNewline (a ++ b)
NoNewline-append [] b p q = q
NoNewline-append (c ∷ a) b (h, p) q = (h, NoNewline-append a b p q)

NoNewline-take : (n : ℕ) (a : Bytes) → NoNewline a → NoNewline (take n a)
NoNewline-take zero a p = tt
NoNewline-take (suc n) [] p = tt
NoNewline-take (suc n) (c ∷ a) (h, p) = (h, NoNewline-take n a p)

NoNewline-drop : (n : ℕ) (a : Bytes) → NoNewline a → NoNewline (drop n a)
NoNewline-drop zero a p = p
NoNewline-drop (suc n) [] p = tt
NoNewline-drop (suc n) (c ∷ a) (h, p) = NoNewline-drop n a p

==-ne : (a b : ℕ) → a ≢ b → (a == b) ≡ false
==-ne a b h = ground arith

pub split_line-at :
    (line rest : Bytes) → NoNewline line → split_line (line ++ (b'\n' ∷ rest)) ≡ some (line, rest)
unfolding split_line
split_line-at [] rest p = refl
split_line-at (c ∷ line) rest (h, p) =
    if-false _ _ _ (==-ne c b'\n' h)
    ∙ ap (Option.map (λ (q : Bytes × Bytes). (c ∷ q.0, q.1))) (split_line-at line rest p)

split_line-none : (bs : Bytes) → NoNewline bs → split_line bs ≡ none
unfolding split_line
split_line-none [] p = refl
split_line-none (c ∷ bs) (h, p) =
    if-false _ _ _ (==-ne c b'\n' h)
    ∙ ap (Option.map (λ (q : Bytes × Bytes). (c ∷ q.0, q.1))) (split_line-none bs p)

drop_cr-append_cons :
    (a : Bytes) (c : ℕ) (b : Bytes) → drop_cr (a ++ (c ∷ b)) ≡ a ++ drop_cr (c ∷ b)
unfolding drop_cr
drop_cr-append_cons [] c b = refl
drop_cr-append_cons (x ∷ []) c b = refl
drop_cr-append_cons (x ∷ y ∷ a) c b = ap (◌∷◌ x) (drop_cr-append_cons (y ∷ a) c b)

drop_cr-kept : (a : Bytes) → ends_cr a ≡ false → drop_cr a ≡ a
unfolding drop_cr ends_cr
drop_cr-kept [] h = refl
drop_cr-kept (c ∷ []) h = if-false _ _ _ h
drop_cr-kept (c ∷ d ∷ a) h = ap (◌∷◌ c) (drop_cr-kept (d ∷ a) h)

drop_last-ends_cr : (a : Bytes) → ends_cr a ≡ true → drop_last a ++ (b'\r' ∷ []) ≡ a
unfolding drop_last ends_cr
drop_last-ends_cr [] h = cc
drop_last-ends_cr (c ∷ []) h = ap (λ x. x ∷ []) (sym ((==_iff c b'\r').0 h))
drop_last-ends_cr (c ∷ d ∷ a) h = ap (◌∷◌ c) (drop_last-ends_cr (d ∷ a) h)

drop_cr-append_kept : (a b : Bytes) → ends_cr a ≡ false → a ++ drop_cr b ≡ drop_cr (a ++ b)
unfolding drop_cr
drop_cr-append_kept a [] h = append-nil a ∙ sym (drop_cr-kept a h) ∙ ap drop_cr (sym (append-nil a))
drop_cr-append_kept a (c ∷ b) h = sym (drop_cr-append_cons a c b)

take_append_short : (n : ℕ) (xs ys : Bytes) → n ≤ length xs → take n (xs ++ ys) ≡ take n xs
take_append_short zero xs ys h = refl
take_append_short (suc n) [] ys h = absurd (omega arith)
take_append_short (suc n) (x ∷ xs) ys h = ap (◌∷◌ x) (take_append_short n xs ys (omega arith))

drop_append_short : (n : ℕ) (xs ys : Bytes) → n ≤ length xs → drop n (xs ++ ys) ≡ drop n xs ++ ys
drop_append_short zero xs ys h = refl
drop_append_short (suc n) [] ys h = absurd (omega arith)
drop_append_short (suc n) (x ∷ xs) ys h = drop_append_short n xs ys (omega arith)

drop-length_suc : (xs ys : Bytes) (y : ℕ) → drop (length xs + 1) (xs ++ (y ∷ ys)) ≡ ys
drop-length_suc [] ys y = refl
drop-length_suc (x ∷ xs) ys y =
    ap (λ n. drop n (x ∷ (xs ++ (y ∷ ys)))) step ∙ drop-length_suc xs ys y
  where
    step : suc (length xs) + 1 ≡ suc (length xs + 1)
    step = omega arith

module _ (size : ℕ) (large : 2 ≤ size) where
  read_chunk-whole :
      (line rest : Bytes)
      → NoNewline line
      → length line < size
      → read_chunk size (line ++ (b'\n' ∷ rest)) ≡ some (drop_cr line, false, rest)
  unfolding read_chunk chunk_of
  read_chunk-whole line rest p h =
      ap (chunk_of size (line ++ (b'\n' ∷ rest))) (ap split_line shown ∙ split_line-at line _ p)
      ∙ ap (λ r. some (drop_cr line, false, r)) (drop-length_suc line rest b'\n')
    where
      left : size - length line ≡ suc (size - length line - 1)
      left = omega arith

      shown :
          take size (line ++ (b'\n' ∷ rest)) ≡ line ++ (b'\n' ∷ take (size - length line - 1) rest)
      shown =
          take_append_past size line (b'\n' ∷ rest) (omega arith)
          ∙ ap (λ j. line ++ take j (b'\n' ∷ rest)) left

  read_chunk-full :
      (line rest : Bytes)
      → NoNewline line
      → size ≤ length line
      → read_chunk size (line ++ rest) ≡ some (full_chunk size (line ++ rest))
  unfolding read_chunk chunk_of
  read_chunk-full line rest p h =
      ap (chunk_of size (line ++ rest)) (
        ap split_line (take_append_short size line rest h)
        ∙ split_line-none (take size line) (NoNewline-take size line p))
      ∙ if-true _ _ _ (le→leb size (length (line ++ rest)) (omega (arith, length-append line rest)))

  module _ (line rest : Bytes) (long : size ≤ length line) where
    full_chunk-cut :
        ends_cr (take size line) ≡ true
        → full_chunk size (line ++ rest)
          ≡ (drop_last (take size line), true, b'\r' ∷ (drop size line ++ rest))
    unfolding full_chunk
    full_chunk-cut e =
        if-true _ _ _ (ap ends_cr (take_append_short size line rest long) ∙ e)
        ∙ ap₂ (λ a b. (drop_last a, true, b'\r' ∷ b)) (take_append_short size line rest long)
            (drop_append_short size line rest long)

    full_chunk-kept :
        ends_cr (take size line) ≡ false
        → full_chunk size (line ++ rest) ≡ (take size line, true, drop size line ++ rest)
    unfolding full_chunk
    full_chunk-kept e =
        if-false _ _ _ (ap ends_cr (take_append_short size line rest long) ∙ e)
        ∙ ap₂ (λ a b. (a, true, b)) (take_append_short size line rest long)
            (drop_append_short size line rest long)

  drop_cr-cut :
      (line : Bytes)
      → ends_cr (take size line) ≡ true
      → drop_last (take size line) ++ drop_cr (b'\r' ∷ drop size line) ≡ drop_cr line
  drop_cr-cut line e =
      sym (drop_cr-append_cons (drop_last (take size line)) b'\r' (drop size line))
      ∙ ap drop_cr (
          sym (append_assoc (drop_last (take size line)) (b'\r' ∷ []) (drop size line))
          ∙ ap (λ a. a ++ drop size line) (drop_last-ends_cr (take size line) e)
          ∙ take-append-drop size line)

  -- The chunks of a line are put together, and a return before the newline is dropped also where the
  -- two fall into different chunks.
  read_line_loop-at :
      (fuel : ℕ) (acc line rest : Bytes)
      → NoNewline line
      → length line < fuel
      → read_line_loop size fuel acc (line ++ (b'\n' ∷ rest)) ≡ some (acc ++ drop_cr line, rest)
  unfolding read_line_loop after_chunk
  read_line_loop-at zero acc line rest p h = elim h [ ]
  read_line_loop-at (suc fuel) acc line rest p h = elim (dec_lt (length line) size) [
    | yes small ↦
        ap (after_chunk (read_line_loop size fuel) acc) (read_chunk-whole line rest p small)
    | no long ↦
        ap (after_chunk (read_line_loop size fuel) acc)
          (read_chunk-full line (b'\n' ∷ rest) p (omega arith))
        ∙ elim (Bool-cases (ends_cr (take size line))) [
          | inl e ↦
              ap (λ c. after_chunk (read_line_loop size fuel) acc (some c))
                (full_chunk-cut line (b'\n' ∷ rest) (omega arith) e)
              ∙ read_line_loop-at fuel (acc ++ drop_last (take size line)) (b'\r' ∷ drop size line)
                  rest (omega arith, NoNewline-drop size line p)
                  (omega (arith, length-drop size line))
              ∙ ap (λ l. some (l, rest))
                  (append_assoc acc (drop_last (take size line)) _
                    ∙ ap (acc ++◌) (drop_cr-cut line e))
          | inr e ↦
              ap (λ c. after_chunk (read_line_loop size fuel) acc (some c))
                (full_chunk-kept line (b'\n' ∷ rest) (omega arith) e)
              ∙ read_line_loop-at fuel (acc ++ take size line) (drop size line) rest
                  (NoNewline-drop size line p) (omega (arith, length-drop size line))
              ∙ ap (λ l. some (l, rest))
                  (append_assoc acc (take size line) _
                    ∙ ap (acc ++◌) (
                        drop_cr-append_kept (take size line) (drop size line) e
                        ∙ ap drop_cr (take-append-drop size line)))
        ]
  ]

  -- `readLine` returns what stands before the next newline, less one carriage return at its end, and
  -- leaves what follows the newline: for a line of any length, and a buffer of two bytes or more.
  pub read_line-at :
      (line rest : Bytes)
      → NoNewline line
      → read_line size (line ++ (b'\n' ∷ rest)) ≡ some (drop_cr line, rest)
  unfolding read_line
  read_line-at line rest p =
      read_line_loop-at (suc (length (line ++ (b'\n' ∷ rest)))) [] line rest p
        (omega (arith, length-append line (b'\n' ∷ rest)))

  -- A line that ends in a return and a newline.
  pub read_line-crlf :
      (line rest : Bytes)
      → NoNewline line
      → read_line size (line ++ (b'\r' ∷ b'\n' ∷ rest)) ≡ some (line, rest)
  unfolding drop_cr
  read_line-crlf line rest p =
      ap (read_line size) (sym (append_assoc line (b'\r' ∷ []) (b'\n' ∷ rest)))
      ∙ read_line-at (line ++ (b'\r' ∷ [])) rest
          (NoNewline-append line (b'\r' ∷ []) p (omega arith))
      ∙ ap (λ l. some (l, rest)) (drop_cr-append_cons line b'\r' [] ∙ append-nil line)
