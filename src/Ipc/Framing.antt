-- ===== src/Ipc/Framing.antt =====
-- Messages over a stream: internal/ipc/stream.go. A stream is the bytes that are under way in it.
use vic_cloudless.Prelude.{
  if◌then◌else◌, take-all, take, length, concat, All, drop, ltb, ℕ, zero, suc, ◌+◌, ◌*◌, ◌/◌, ◌%◌,
  ◌≤◌, ◌<◌, min, ◌≡◌, refl, ap, ◌∙◌, Option, none, some, List, [], ◌∷◌, ◌++◌, map, arith,
}

abbrev Bytes : Type 0
Bytes = List ℕ

-- A uint32 in big-endian order.
abbrev be32 : ℕ → Bytes
be32 n = n / 16777216 % 256 ∷ n / 65536 % 256 ∷ n / 256 % 256 ∷ n % 256 ∷ []

abbrev from_be32 : ℕ → ℕ → ℕ → ℕ → ℕ
from_be32 a b c d = 16777216 * a + 65536 * b + 256 * c + d

-- `Write`: what it puts into the stream.
unfoldable pub frame : Bytes → Bytes
frame b = be32 (length b) ++ b

-- `buflen`, at most the size of the caller's buffer.
abbrev clipped : ℕ → ℕ → ℕ
clipped cap buflen = if ltb cap buflen then cap else buflen

-- `Read` into a buffer of `cap` bytes; the connection delivers at most `got` bytes in one call, as the
-- interface of `net.Conn` allows. The result is what was read and what stays in the stream; `none`
-- where the length does not come.
unfoldable pub read : ℕ → ℕ → Bytes → Option (Bytes × Bytes)
read cap got (a ∷ b ∷ c ∷ d ∷ rest) =
    let n = min got (clipped cap (from_be32 a b c d)) in some (take n rest, drop n rest)
read cap got _ = none

abbrev pub more : (Bytes → Option (List Bytes)) → Option (Bytes × Bytes) → Option (List Bytes)
more go none = none
more go (some (m, rest)) = Option-cons m (go rest)
  where
    Option-cons : Bytes → Option (List Bytes) → Option (List Bytes)
    Option-cons x none = none
    Option-cons x (some xs) = some (x ∷ xs)

-- As many reads as are asked for, one after another.
unfoldable pub read_all : ℕ → ℕ → ℕ → Bytes → Option (List Bytes)
unfolding read
read_all cap got zero s = some []
read_all cap got (suc n) s = more (read_all cap got n) (read cap got s)

take-append_short : (n : ℕ) (xs ys : Bytes) → n ≤ length xs → take n (xs ++ ys) ≡ take n xs
take-append_short zero xs ys h = refl
take-append_short (suc n) [] ys h = absurd (omega arith)
take-append_short (suc n) (x ∷ xs) ys h = ap (◌∷◌ x) (take-append_short n xs ys (omega arith))

drop-append_short : (n : ℕ) (xs ys : Bytes) → n ≤ length xs → drop n (xs ++ ys) ≡ drop n xs ++ ys
drop-append_short zero xs ys h = refl
drop-append_short (suc n) [] ys h = absurd (omega arith)
drop-append_short (suc n) (x ∷ xs) ys h = drop-append_short n xs ys (omega arith)

drop-length : (xs : Bytes) → drop (length xs) xs ≡ []
drop-length [] = refl
drop-length (x ∷ xs) = drop-length xs

-- The number of bytes of a message that one read gives.
abbrev pub part : ℕ → ℕ → Bytes → ℕ
part cap got m = min got (min cap (length m))

clipped-min : (cap n : ℕ) → clipped cap n ≡ min cap n
clipped-min cap n = ground arith

from_be32-be32 :
    (n : ℕ)
    → n < 4294967296
    → from_be32 (n / 16777216 % 256) (n / 65536 % 256) (n / 256 % 256) (n % 256) ≡ n
from_be32-be32 n h = omega arith

-- A read gives the first bytes of the message, as many as the connection delivers and the buffer has
-- room for, and leaves the rest of it in the stream, for a message of less than 2 ^ 32 bytes.
pub read-frame :
    (cap got : ℕ) (m rest : Bytes)
    → length m < 4294967296
    → read cap got (frame m ++ rest)
      ≡ some (take (part cap got m) m, drop (part cap got m) m ++ rest)
unfolding read frame
read-frame cap got m rest h =
    rw (from_be32-be32 (length m) h, clipped-min cap (length m))
      (let short : part cap got m ≤ length m = omega arith in
        rw
          (
            take-append_short (part cap got m) m rest short,
            drop-append_short (part cap got m) m rest short,
          )
          refl)

abbrev pub Fits : ℕ → ℕ → Bytes → Type 0
Fits cap got m = (length m ≤ cap) × (length m ≤ got) × (length m < 4294967296)

read-whole :
    (cap got : ℕ) (m rest : Bytes)
    → Fits cap got m
    → read cap got (frame m ++ rest) ≡ some (m, rest)
read-whole cap got m rest (room, all, h) =
    let e : part cap got m ≡ length m = omega arith in
    read-frame cap got m rest h
    ∙ ap (λ n. some (take n m, drop n m ++ rest)) e
    ∙ ap (λ t. some (t, drop (length m) m ++ rest)) (take-all (length m) m (omega arith))
    ∙ ap (λ t. some (m, t ++ rest)) (drop-length m)

-- Messages that fit into the buffer, and that the connection delivers whole, are read as they were
-- written.
pub read_all-frames :
    (cap got : ℕ) (ms : List Bytes)
    → All (Fits cap got) ms
    → read_all cap got (length ms) (concat (map frame ms)) ≡ some ms
unfolding read_all
read_all-frames cap got [] h = refl
read_all-frames cap got (m ∷ ms) h =
    rw (read-whole cap got m (concat (map frame ms)) h.0, read_all-frames cap got ms h.1) refl
