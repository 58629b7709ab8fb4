-- ===== src/Resp/Replies.antt =====
-- internal/protocol/resp.go: what the writer's calls append, against the grammar of RESP2 replies.
use vortexmq.Prelude.{
  ℕ, zero, suc, ◌+◌, ◌/◌, ◌%◌, ◌<◌, Bool, true, not, ◌&&◌, ◌||◌, Option, none, some, List, [], ◌∷◌,
  ◌++◌, ltb, ◌==◌, if-true, if-false, Bool-cases, and-intro, and-left, and-right, ltb→lt, inl, inr,
  length, Bytes, subst, sym, ◌≡◌, refl, arith,
}
use vortexmq.Int.{ℤ, pos, negsuc}
use vortexmq.Text.{codes, decimal, decimal_ℤ, decimal_fuel}
use vortexmq.Resp.{
  crlf, null_bulk, pong, ok, empty_array, write_error, write_integer, write_bulk_string,
  write_elements, write_array,
}

-- Text with no line break in it.
unfoldable pub is_text : Bytes → Bool
is_text [] = true
is_text (c ∷ bs) = not (c == b'\r' || c == b'\n') && is_text bs

-- The first bytes of the replies of one line.
abbrev pub is_line_tag : ℕ → Bool
is_line_tag c = c == b'+' || (c == b'-' || c == b':')

-- A bulk string, or the nil one.
pub data IsBulk : Bytes → Type 0 where
  null : IsBulk (codes "$-1" ++ crlf)
  bulk : (b : Bytes) → IsBulk (b'$' ∷ (decimal (length b) ++ (crlf ++ (b ++ crlf))))

pub data IsBulks : ℕ → Bytes → Type 0 where
  nothing : IsBulks 0 []
  bulks : {n : ℕ} {b bs : Bytes} → IsBulk b → IsBulks n bs → IsBulks (suc n) (b ++ bs)

-- One reply: a simple string, an error or an integer on a line, a bulk string, or an array.
pub data IsReply : Bytes → Type 0 where
  line : (c : ℕ) (t : Bytes) → is_line_tag c ≡ true → is_text t ≡ true → IsReply (c ∷ (t ++ crlf))
  one_bulk : {b : Bytes} → IsBulk b → IsReply b
  array : (n : ℕ) (bs : Bytes) → IsBulks n bs → IsReply (b'*' ∷ (decimal n ++ (crlf ++ bs)))

pub is_text-append : (a b : Bytes) → is_text a ≡ true → is_text b ≡ true → is_text (a ++ b) ≡ true
unfolding is_text
is_text-append [] b p q = q
is_text-append (c ∷ a) b p q =
    and-intro (and-left (not (c == b'\r' || c == b'\n')) _ p)
      (is_text-append a b (and-right (not (c == b'\r' || c == b'\n')) _ p) q)

is_text-digit : (d : ℕ) → d < 10 → is_text ((b'0' + d) ∷ []) ≡ true
unfolding is_text
is_text-digit d h = ground arith

is_text-decimal_fuel : (fuel n : ℕ) → is_text (decimal_fuel fuel n) ≡ true
unfolding decimal_fuel is_text
is_text-decimal_fuel zero n = refl
is_text-decimal_fuel (suc fuel) n = elim (Bool-cases (ltb n 10)) [
  | inl e ↦
      subst (λ bs. is_text bs ≡ true) (sym (if-true _ _ _ e)) (is_text-digit n (ltb→lt n 10 e))
  | inr e ↦
      subst (λ bs. is_text bs ≡ true) (sym (if-false _ _ _ e))
        (is_text-append (decimal_fuel fuel (n / 10)) _ (is_text-decimal_fuel fuel (n / 10))
          (is_text-digit (n % 10) (omega arith)))
]

is_text-decimal : (n : ℕ) → is_text (decimal n) ≡ true
unfolding decimal
is_text-decimal n = is_text-decimal_fuel (suc n) n

is_text-decimal_ℤ : (n : ℤ) → is_text (decimal_ℤ n) ≡ true
unfolding decimal_ℤ is_text
is_text-decimal_ℤ (pos n) = is_text-decimal n
is_text-decimal_ℤ (negsuc n) = is_text-decimal (suc n)

err_is_text : is_text (codes "ERR ") ≡ true
unfolding is_text
err_is_text = refl

-- An error is one reply where its text has no line break.
pub write_error-IsReply : (msg : Bytes) → is_text msg ≡ true → IsReply (write_error msg)
unfolding write_error
write_error-IsReply msg h =
    line b'-' (codes "ERR " ++ msg) refl (is_text-append (codes "ERR ") msg err_is_text h)

pub write_integer-IsReply : (n : ℤ) → IsReply (write_integer n)
unfolding write_integer
write_integer-IsReply n = line b':' (decimal_ℤ n) refl (is_text-decimal_ℤ n)

write_bulk_string-IsBulk : (b : Option Bytes) → IsBulk (write_bulk_string b)
unfolding write_bulk_string
write_bulk_string-IsBulk none = null
write_bulk_string-IsBulk (some b) = bulk b

-- A bulk string is one reply whatever its bytes are.
pub write_bulk_string-IsReply : (b : Option Bytes) → IsReply (write_bulk_string b)
write_bulk_string-IsReply b = one_bulk (write_bulk_string-IsBulk b)

write_elements-IsBulks : (els : List (Option Bytes)) → IsBulks (length els) (write_elements els)
unfolding write_elements
write_elements-IsBulks [] = nothing
write_elements-IsBulks (el ∷ els) = bulks (write_bulk_string-IsBulk el) (write_elements-IsBulks els)

pub write_array-IsReply : (els : List (Option Bytes)) → IsReply (write_array els)
unfolding write_array
write_array-IsReply els = array (length els) (write_elements els) (write_elements-IsBulks els)

pub pong-IsReply : IsReply pong
unfolding is_text
pong-IsReply = line b'+' (codes "PONG") refl refl

pub ok-IsReply : IsReply ok
unfolding is_text
ok-IsReply = line b'+' (codes "OK") refl refl

pub null_bulk-IsReply : IsReply null_bulk
null_bulk-IsReply = one_bulk null

pub empty_array-IsReply : IsReply empty_array
unfolding decimal decimal_fuel
empty_array-IsReply = array 0 [] nothing
