-- ===== src/Text.antt =====
-- What the source uses of Go's number formatting: strconv.Itoa, strconv.FormatInt and fmt's %d in
-- base ten, hex.EncodeToString, and strconv.Atoi. A string is the list of its bytes.
use Prim.Native.Char.{code}
use Prim.Native.String.{String}
use vortexmq.Prelude.{
  ℕ, zero, suc, ◌+◌, ◌-◌, ◌*◌, ◌/◌, ◌%◌, ◌^◌, Bool, true, false, ◌&&◌, Option, none, some, [], ◌∷◌,
  ◌++◌, ltb, leb, ◌==◌, if◌then◌else◌, Bytes,
}
use vortexmq.Int.{ℤ, pos, negsuc}

-- The bytes of an ASCII literal.
abbrev pub codes : String → Bytes
codes String.[] = []
codes (String.◌∷◌ c s) = code c ∷ codes s

-- The digits of `n`; with more fuel than `n` it does not run out.
unfoldable pub decimal_fuel : ℕ → ℕ → Bytes
decimal_fuel zero n = []
decimal_fuel (suc fuel) n =
    let rest = decimal_fuel fuel (n / 10) ++ ((b'0' + n % 10) ∷ []) in
    if ltb n 10 then (b'0' + n) ∷ [] else rest

unfoldable pub decimal : ℕ → Bytes
unfolding decimal_fuel
decimal n = decimal_fuel (suc n) n

unfoldable pub decimal_ℤ : ℤ → Bytes
unfolding decimal
decimal_ℤ (pos n) = decimal n
decimal_ℤ (negsuc n) = b'-' ∷ decimal (suc n)

hex_digit : ℕ → ℕ
hex_digit d = if ltb d 10 then b'0' + d else b'a' + (d + 246) % 256

unfoldable pub hex : Bytes → Bytes
unfolding hex_digit
hex [] = []
hex (b ∷ bs) = hex_digit (b / 16) ∷ hex_digit (b % 16) ∷ hex bs

-- The number that decimal digits stand for, behind digits that stand for `n`.
unfoldable pub digits_from : ℕ → Bytes → Option ℕ
digits_from n [] = some n
digits_from n (c ∷ bs) =
    let rest = digits_from (n * 10 + (c - b'0')) bs in
    if leb b'0' c && leb c b'9' then rest else none

unfoldable pub digits : Bytes → Option ℕ
digits [] = none
digits (c ∷ bs) = digits_from 0 (c ∷ bs)

-- strconv.Atoi: the number, and whether there is no error. A number out of range gives the nearest one.
unfoldable pub atoi_pos : Option ℕ → ℤ × Bool
atoi_pos none = (pos 0, false)
atoi_pos (some n) = if ltb n (2 ^ 63) then (pos n, true) else (pos (2 ^ 63 - 1), false)

unfoldable pub atoi_neg : Option ℕ → ℤ × Bool
atoi_neg none = (pos 0, false)
atoi_neg (some zero) = (pos 0, true)
atoi_neg (some (suc n)) = if ltb n (2 ^ 63) then (negsuc n, true) else (negsuc (2 ^ 63 - 1), false)

unfoldable pub atoi : Bytes → ℤ × Bool
atoi [] = (pos 0, false)
atoi (c ∷ bs) =
    if c == b'-'
    then atoi_neg (digits bs)
    else if c == b'+'
    then atoi_pos (digits bs)
    else atoi_pos (digits (c ∷ bs))
