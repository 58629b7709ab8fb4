-- ===== src/Resp/Numbers.antt =====
-- internal/protocol/resp.go: the integer parsers against the numbers that digits stand for.
use vortexmq.Prelude.{
  ℕ, zero, suc, ◌+◌, ◌-◌, ◌*◌, ◌/◌, ◌%◌, ◌^◌, ◌≤◌, ◌<◌, true, some, [], ◌∷◌, ◌++◌, ltb, leb, ltb→lt,
  ltb-false→le, ◌&&◌, subst, Bool-cases, inl, inr, if-true, if-false, Bytes, word, ◌≡◌, ◌≢◌, refl,
  sym, ap, ◌∙◌, arith,
}
use vortexmq.Int.{pos, ◌+ℤ◌, ◌*ℤ◌, wrap64, of_word, to_word, wrap64-pos}
use vortexmq.Text.{decimal, decimal_fuel}
use vortexmq.Resp.{parse_uint_loop, parse_uint}

-- The number that decimal digits stand for, behind digits that stand for `n`.
unfoldable pub value_from : ℕ → Bytes → ℕ
value_from n [] = n
value_from n (c ∷ bs) = value_from (n * 10 + (c - b'0')) bs

abbrev pub AllDigits : Bytes → Type 0
AllDigits [] = Unit
AllDigits (c ∷ bs) = ((b'0' ≤ c) × (c ≤ b'9')) × AllDigits bs

mul_wrapped : (w : ℕ) → w < word → to_word (of_word w *ℤ pos 10) ≡ w * 10 % word
unfolding to_word of_word ◌*ℤ◌
mul_wrapped w h = ground arith

add_wrapped : (w d : ℕ) → w < word → d < 10 → to_word (of_word w +ℤ pos d) ≡ (w + d) % word
unfolding to_word of_word ◌+ℤ◌
add_wrapped w d h k = ground arith

push_digit :
    (m d : ℕ)
    → d < 10
    → wrap64 (wrap64 (wrap64 (pos m) *ℤ pos 10) +ℤ pos d) ≡ wrap64 (pos (m * 10 + d))
unfolding wrap64 to_word
push_digit m d h =
    ap (λ w. of_word (to_word (of_word w +ℤ pos d))) (mul_wrapped (m % word) (omega arith))
    ∙ ap of_word (add_wrapped (m % word * 10 % word) d (omega arith) h ∙ merged)
  where
    merged : (m % word * 10 % word + d) % word ≡ (m * 10 + d) % word
    merged = omega arith

parse_uint_loop-value :
    (m : ℕ) (bs : Bytes)
    → AllDigits bs
    → parse_uint_loop (wrap64 (pos m)) bs ≡ some (wrap64 (pos (value_from m bs)))
unfolding parse_uint_loop value_from
parse_uint_loop-value m [] h = refl
parse_uint_loop-value m (c ∷ bs) ((lo, hi), h) =
    if-true _ _ _ digit
    ∙ ap (λ n. parse_uint_loop n bs) (push_digit m (c - b'0') (omega arith))
    ∙ parse_uint_loop-value (m * 10 + (c - b'0')) bs h
  where
    digit : (leb b'0' c && leb c b'9') ≡ true
    digit = ground arith

-- `parseUintBytes` takes every string of digits, and gives the number it stands for modulo 2 ^ 64, read
-- as a signed integer: there is no error for a number that does not fit.
pub parse_uint-value :
    (bs : Bytes) → bs ≢ [] → AllDigits bs → parse_uint bs ≡ some (wrap64 (pos (value_from 0 bs)))
unfolding parse_uint wrap64 of_word to_word
parse_uint-value [] ne h = absurd (ne refl)
parse_uint-value (c ∷ bs) ne h = parse_uint_loop-value 0 (c ∷ bs) h

value_from-append : (m : ℕ) (a b : Bytes) → value_from m (a ++ b) ≡ value_from (value_from m a) b
unfolding value_from
value_from-append m [] b = refl
value_from-append m (c ∷ a) b = value_from-append (m * 10 + (c - b'0')) a b

AllDigits-append : (a b : Bytes) → AllDigits a → AllDigits b → AllDigits (a ++ b)
AllDigits-append [] b p q = q
AllDigits-append (c ∷ a) b (h, p) q = (h, AllDigits-append a b p q)

-- What a decimal numeral is: digits, not empty, that stand for its number.
pub record IsNumeral (n : ℕ) (bs : Bytes) : Type 0 where
  pub digits : AllDigits bs
  pub some_digit : bs ≢ []
  pub value : value_from 0 bs ≡ n

append-ne-nil : (a : Bytes) (c : ℕ) → a ++ (c ∷ []) ≢ []
append-ne-nil [] c e = cc
append-ne-nil (x ∷ a) c e = cc

one_digit : (n : ℕ) → n < 10 → IsNumeral n ((b'0' + n) ∷ [])
unfolding value_from
one_digit n h = record { digits = omega arith; some_digit = λ e. cc; value = omega arith }

decimal_fuel-IsNumeral : (f n : ℕ) → n < f → IsNumeral n (decimal_fuel f n)
unfolding decimal_fuel
decimal_fuel-IsNumeral zero n h = elim h [ ]
decimal_fuel-IsNumeral (suc f) n h = elim (Bool-cases (ltb n 10)) [
  | inl e ↦ subst (IsNumeral n) (sym (if-true _ _ _ e)) (one_digit n (ltb→lt n 10 e))
  | inr e ↦
      let r = decimal_fuel-IsNumeral f (n / 10) (omega (arith, ltb-false→le n 10 e)) in
      subst (IsNumeral n) (sym (if-false _ _ _ e)) (more r)
]
  where
    last : value_from (n / 10) ((b'0' + n % 10) ∷ []) ≡ n
    last = unfold value_from in omega arith

    more :
        IsNumeral (n / 10) (decimal_fuel f (n / 10))
        → IsNumeral n (decimal_fuel f (n / 10) ++ ((b'0' + n % 10) ∷ []))
    more r = record {
      digits = AllDigits-append _ _ r.digits (omega arith);
      some_digit = append-ne-nil _ _;
      value =
          value_from-append 0 (decimal_fuel f (n / 10)) _
          ∙ ap (λ m. value_from m ((b'0' + n % 10) ∷ [])) r.value
          ∙ last;
    }

pub decimal-IsNumeral : (n : ℕ) → IsNumeral n (decimal n)
unfolding decimal
decimal-IsNumeral n = decimal_fuel-IsNumeral (suc n) n (omega arith)

pub parse_uint-decimal : (n : ℕ) → n < 2 ^ 63 → parse_uint (decimal n) ≡ some (pos n)
parse_uint-decimal n h =
    let r = decimal-IsNumeral n in
    parse_uint-value (decimal n) r.some_digit r.digits
    ∙ ap (λ m. some (wrap64 (pos m))) r.value
    ∙ ap some (wrap64-pos n h)

-- A numeral for n + 2 ^ 64 parses as one for n.
parse_uint-overflow : (n : ℕ) → parse_uint (decimal (n + word)) ≡ parse_uint (decimal n)
unfolding wrap64 to_word
parse_uint-overflow n =
    let r = decimal-IsNumeral (n + word) in
    let q = decimal-IsNumeral n in
    parse_uint-value _ r.some_digit r.digits
    ∙ ap (λ m. some (of_word (m % word))) r.value
    ∙ ap (λ w. some (of_word w)) wrapped
    ∙ ap (λ m. some (of_word (m % word))) (sym q.value)
    ∙ sym (parse_uint-value _ q.some_digit q.digits)
  where
    wrapped : (n + word) % word ≡ n % word
    wrapped = omega arith
