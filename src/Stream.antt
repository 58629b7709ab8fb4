-- ===== src/Stream.antt =====
-- What the source uses of Go's io package (internal/wal/wal.go and internal/protocol/resp.go): a stream
-- is the list of the bytes that are still to be read.
use vortexmq.Prelude.{
  ℕ, ◌<◌, Option, none, some, ◌++◌, if◌then◌else◌, ltb, lt→ltb, not-ltb, if-true, if-false, length,
  take, drop, Bytes, take_append, drop_append, length-append, ◌≡◌, ap₂, ◌∙◌, arith,
}

-- `io.ReadFull` into a buffer of `n` bytes: the buffer and the rest, or an error.
unfoldable pub read_full : ℕ → Bytes → Option (Bytes × Bytes)
read_full n bs = if ltb (length bs) n then none else some (take n bs, drop n bs)

pub read_full_append : (xs ys : Bytes) → read_full (length xs) (xs ++ ys) ≡ some (xs, ys)
unfolding read_full
read_full_append xs ys =
    if-false _ _ _ (not-ltb (length (xs ++ ys)) (length xs) (omega (arith, length-append xs ys)))
    ∙ ap₂ (λ a b. some (a, b)) (take_append xs ys) (drop_append xs ys)

pub read_full_short : (n : ℕ) (xs : Bytes) → length xs < n → read_full n xs ≡ none
unfolding read_full
read_full_short n xs h = if-true _ _ _ (lt→ltb (length xs) n h)
