-- ===== src/Cli/Display.antt =====
-- cmd/vortexmq-cli/main.go: what the prompt shows of a reply.
use vortexmq.Prelude.{
  ℕ, zero, suc, ◌+◌, ◌-◌, ◌*◌, ◌^◌, ◌≤◌, ◌<◌, true, not, ◌||◌, Option, some, List, [], ◌∷◌, ◌++◌,
  ltb, lt→ltb, ◌==◌, if-true, if-false, and-right, length, length-append, take, replicate,
  take_append, take_append_past, Bytes, append_assoc, ◌≡◌, ◌≢◌, refl, sym, ap, ◌∙◌, arith,
}
use vortexmq.Int.{pos, negsuc}
use vortexmq.Text.{codes, decimal, digits, digits_from}
use vortexmq.Resp.{crlf, null_bulk, is_digit, is_space, split_line, write_bulk_string}
use vortexmq.Resp.Lines.{NoNewline, NoNewline-append, split_line-at}
use vortexmq.Resp.Numbers.{AllDigits, value_from, decimal-IsNumeral}
use vortexmq.Resp.Replies.{is_text, is_line_tag}
use vortexmq.Cli.Input.{whole, read_string, scan_digits, scanned, scanned_neg, scan_int}
use vortexmq.Cli.{
  Client, ended, print, padded, read_payload, show_payload, show_bulk, show_line, going_on,
  show_answer,
}

-- The scanning of a length.
scan_digits-digits : (ds rest : Bytes) → AllDigits ds → scan_digits (ds ++ (b'\r' ∷ rest)) ≡ ds
unfolding scan_digits
scan_digits-digits [] rest h = refl
scan_digits-digits (c ∷ ds) rest ((lo, hi), h) =
    if-true (is_digit c) _ _ (ground arith) ∙ ap (◌∷◌ c) (scan_digits-digits ds rest h)

digits_from-value : (n : ℕ) (ds : Bytes) → AllDigits ds → digits_from n ds ≡ some (value_from n ds)
unfolding digits_from value_from
digits_from-value n [] h = refl
digits_from-value n (c ∷ ds) ((lo, hi), h) =
    if-true (is_digit c) _ _ (ground arith) ∙ digits_from-value (n * 10 + (c - b'0')) ds h

scan_int-digits :
    (ds rest : Bytes)
    → ds ≢ []
    → AllDigits ds
    → scan_int (ds ++ (b'\r' ∷ rest)) ≡ scanned (some (value_from 0 ds))
unfolding scan_int digits
scan_int-digits [] rest ne h = absurd (ne refl)
scan_int-digits (c ∷ ds) rest ne ((lo, hi), h) =
    if-false (c == b'\n') _ _ (ground arith)
    ∙ if-false (is_space c) _ _ (ground arith)
    ∙ if-false (c == b'-') _ _ (ground arith)
    ∙ if-false (c == b'+') _ _ (ground arith)
    ∙ ap (λ x. scanned (digits x)) (scan_digits-digits (c ∷ ds) rest ((lo, hi), h))
    ∙ ap scanned (digits_from-value 0 (c ∷ ds) ((lo, hi), h))

scan_int-decimal : (n : ℕ) → n < 2 ^ 63 → scan_int (decimal n ++ crlf) ≡ pos n
unfolding scanned
scan_int-decimal n h =
    let r = decimal-IsNumeral n in
    scan_int-digits (decimal n) (b'\n' ∷ []) r.some_digit r.digits
    ∙ ap (λ m. scanned (some m)) r.value
    ∙ if-true (ltb n (2 ^ 63)) _ _ (lt→ltb n (2 ^ 63) h)

scan_int-null : scan_int (codes "-1" ++ crlf) ≡ negsuc 0
unfolding scan_int scan_digits digits digits_from scanned_neg
scan_int-null = refl

AllDigits-NoNewline : (bs : Bytes) → AllDigits bs → NoNewline bs
AllDigits-NoNewline [] h = tt
AllDigits-NoNewline (c ∷ bs) ((lo, hi), h) = (omega arith, AllDigits-NoNewline bs h)

is_text-NoNewline : (bs : Bytes) → is_text bs ≡ true → NoNewline bs
unfolding is_text
is_text-NoNewline [] h = tt
is_text-NoNewline (c ∷ bs) h =
    (ground arith, is_text-NoNewline bs (and-right (not (c == b'\r' || c == b'\n')) (is_text bs) h))

-- A line that comes whole in one Read, with what comes behind it in the same Read.
read_string-line :
    (line rest : Bytes) (reads : List (Option Bytes))
    → NoNewline line
    → read_string [] (some (line ++ (crlf ++ rest)) ∷ reads) ≡ whole (line ++ crlf) rest reads
unfolding read_string
read_string-line line rest reads h =
    rw (found, read_string)
      (ap (λ x. whole x rest reads) (append_assoc line (b'\r' ∷ []) (b'\n' ∷ [])))
  where
    found : split_line (line ++ (crlf ++ rest)) ≡ some (line ++ (b'\r' ∷ []), rest)
    found =
        ap split_line (sym (append_assoc line (b'\r' ∷ []) (b'\n' ∷ rest)))
        ∙ split_line-at (line ++ (b'\r' ∷ [])) rest
            (NoNewline-append line (b'\r' ∷ []) h (omega arith))

take-replicate : {A : Type 0} (k m : ℕ) (a : A) → k ≤ m → take k (replicate m a) ≡ replicate k a
take-replicate zero m a h = refl
take-replicate (suc k) zero a h = absurd (omega arith)
take-replicate (suc k) (suc m) a h = ap (◌∷◌ a) (take-replicate k m a (omega arith))

-- A payload that has come whole.
take-padded_whole : (b : Bytes) → take (length b) (padded (length b + 2) (b ++ crlf)) ≡ b
unfolding padded
take-padded_whole b =
    ap (take (length b)) (
      ap (λ n. take n ((b ++ crlf) ++ replicate (length b + 2) 0)) (sym (length-append b crlf))
      ∙ take_append (b ++ crlf) (replicate (length b + 2) 0))
    ∙ take_append b crlf

-- A payload of which a part has come.
take-padded_part :
    (x : Bytes) (n : ℕ) → take (length x + n) (padded (length x + n + 2) x) ≡ x ++ replicate n 0
unfolding padded
take-padded_part x n =
    ap (take (length x + n)) (
      take_append_past (length x + n + 2) x zeros (omega arith)
      ∙ ap (x ++◌)
          (take-replicate (length x + n + 2 - length x) (length x + n + 2) 0 (omega arith)))
    ∙ take_append_past (length x + n) x _ (omega arith)
    ∙ ap (x ++◌)
        (take-replicate (length x + n - length x) (length x + n + 2 - length x) 0 (omega arith))
    ∙ ap (λ k. x ++ replicate k 0) count
  where
    zeros : Bytes
    zeros = replicate (length x + n + 2) 0

    count : length x + n - length x ≡ n
    count = omega arith

-- The replies, and what of each is shown when it comes in one Read: of an array only its first line.
pub data Displays : Bytes → Bytes → Type 0 where
  a_line :
      (c : ℕ) (t : Bytes)
      → is_line_tag c ≡ true
      → is_text t ≡ true
      → Displays (c ∷ (t ++ crlf)) (c ∷ (t ++ crlf))
  a_bulk :
      (b : Bytes)
      → length b + 2 < 2 ^ 63
      → Displays (write_bulk_string (some b)) (b ++ (b'\n' ∷ []))
  a_null : Displays null_bulk (codes "(nil)" ++ (b'\n' ∷ []))
  an_array :
      (n : ℕ) (bs : Bytes)
      → Displays (b'*' ∷ (decimal n ++ (crlf ++ bs))) (b'*' ∷ (decimal n ++ crlf))

module _ (error : Bytes) (reads : List (Option Bytes)) where
  -- The rest of a bulk string's reply, of which `unread` has come with its line.
  show-header :
      (n : ℕ) (b : ℕ) (unread : Bytes) (c : Client)
      → n + 2 < 2 ^ 63
      → show_answer error c
          (read_string [] (some (b'$' ∷ (decimal n ++ (crlf ++ (b ∷ unread)))) ∷ reads))
        ≡ (
          ended (
              print
                (take n (padded (n + 2) (b ∷ unread)) ++ (b'\n' ∷ []))
                (record c { reads = reads })),
          true,
        )
  unfolding show_answer going_on show_line show_bulk read_payload show_payload
  show-header n b unread c h =
      ap (show_answer error c) (
        read_string-line (b'$' ∷ decimal n) (b ∷ unread) reads
          (omega arith, AllDigits-NoNewline _ (decimal-IsNumeral n).digits))
      ∙ ap (λ i. going_on (show_bulk i (b ∷ unread) (record c { reads = reads })))
          (scan_int-decimal n (omega arith))
      ∙ ap going_on (if-true (ltb (n + 2) (2 ^ 63)) _ _ (lt→ltb (n + 2) (2 ^ 63) h))

  show-unread :
      (n : ℕ) (unread : Bytes) (c : Client)
      → unread ≢ []
      → n + 2 < 2 ^ 63
      → show_answer error c (read_string [] (some (b'$' ∷ (decimal n ++ (crlf ++ unread))) ∷ reads))
        ≡ (
          ended
              (print (take n (padded (n + 2) unread) ++ (b'\n' ∷ [])) (record c { reads = reads })),
          true,
        )
  show-unread n [] c ne h = absurd (ne refl)
  show-unread n (b ∷ unread) c ne h = show-header n b unread c h

  append-crlf-ne : (b : Bytes) → b ++ crlf ≢ []
  append-crlf-ne [] e = cc
  append-crlf-ne (x ∷ b) e = cc

  -- A reply that comes whole in one Read of the connection is shown by the prompt as it stands if it is
  -- a line, as its payload if it is a bulk string, and as "(nil)" if it is the null one; of an array
  -- the first line alone is shown. The prompt goes on with what later Reads return.
  pub show_answer-Displays :
      (reply text : Bytes) (c : Client)
      → Displays reply text
      → show_answer error c (read_string [] (some reply ∷ reads))
        ≡ (ended (print text (record c { reads = reads })), true)
  unfolding show_answer going_on show_line show_bulk write_bulk_string
  show_answer-Displays reply text c (a_line b t tag plain) =
      ap (show_answer error c)
        (read_string-line (b ∷ t) [] reads ((ground arith), is_text-NoNewline t plain))
      ∙ ap going_on (if-false (b == b'$') _ _ (ground arith))
  show_answer-Displays reply text c (a_bulk b h) =
      show-unread (length b) (b ++ crlf) c (append-crlf-ne b) h
      ∙ ap (λ x. (ended (print (x ++ (b'\n' ∷ [])) (record c { reads = reads })), true))
          (take-padded_whole b)
  show_answer-Displays reply text c a_null =
      ap (show_answer error c) (read_string-line (codes "$-1") [] reads (omega arith))
      ∙ ap (λ i. going_on (show_bulk i [] (record c { reads = reads }))) scan_int-null
  show_answer-Displays reply text c (an_array n bs) = ap (show_answer error c) (
      read_string-line (b'*' ∷ decimal n) bs reads
        (omega arith, AllDigits-NoNewline _ (decimal-IsNumeral n).digits))

-- Of a bulk string whose payload is cut by the end of a Read, the prompt shows the part that came with
-- the first line, then a NUL byte for each byte that is missing; what is missing is left to be taken
-- for the answer to the next command.
pub show_answer-cut :
    (error : Bytes) (reads : List (Option Bytes)) (x y : Bytes) (c : Client)
    → x ≢ []
    → length (x ++ y) + 2 < 2 ^ 63
    → show_answer error c (
        read_string []
          (some (b'$' ∷ (decimal (length (x ++ y)) ++ (crlf ++ x))) ∷ some (y ++ crlf) ∷ reads))
      ≡ (
        ended (
            print
              (x ++ (replicate (length y) 0 ++ (b'\n' ∷ [])))
              (record c { reads = some (y ++ crlf) ∷ reads })),
        true,
      )
show_answer-cut error reads x y c ne h =
    show-unread error (some (y ++ crlf) ∷ reads) (length (x ++ y)) x c ne h
    ∙ ap (λ t. (ended (print t (record c { reads = some (y ++ crlf) ∷ reads })), true))
        (ap (λ n. take n (padded (n + 2) x) ++ (b'\n' ∷ [])) (length-append x y)
          ∙ ap (λ t. t ++ (b'\n' ∷ [])) (take-padded_part x (length y))
          ∙ append_assoc x (replicate (length y) 0) (b'\n' ∷ []))
