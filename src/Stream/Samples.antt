-- ===== src/Stream/Samples.antt =====
-- Samples as bytes: `AddSamples` of internal/voice/stream/api.go, which writes each int16 with its
-- low byte first, and `bytesToInt16LE` of internal/voice/vtr/sherpa.go, which reads them back.
-- An int16 is its bit pattern, a number below 2 ^ 16.
use vic_cloudless.Prelude.{
  ℕ, zero, suc, ◌+◌, ◌*◌, ◌/◌, ◌%◌, ◌<◌, ◌≡◌, refl, ap, Bool, true, false, Option, none, some, List,
  [], ◌∷◌, arith, length, All, concat, length-append,
}

-- `binary.Write(&buf, binary.LittleEndian, samples)`.
unfoldable pub little_endian : List ℕ → List ℕ
little_endian [] = []
little_endian (s ∷ ss) = s % 256 ∷ (s / 256 % 256) ∷ little_endian ss

-- Nothing is added to the stream of a connection check.
unfoldable pub add_samples : Bool → List ℕ → Option (List ℕ)
add_samples true ss = none
add_samples false ss = some (little_endian ss)

abbrev push : ℕ → Option (List ℕ) → Option (List ℕ)
push s none = none
push s (some ss) = some (s ∷ ss)

-- `int16(b[i*2]) | int16(b[i*2+1])<<8`, a sum because the bytes do not overlap; `none` is the panic
-- at an odd length.
unfoldable pub bytes_to_int16_le : List ℕ → Option (List ℕ)
bytes_to_int16_le [] = some []
bytes_to_int16_le (b ∷ []) = none
bytes_to_int16_le (b ∷ b' ∷ bs) = push (b + 256 * b') (bytes_to_int16_le bs)

abbrev pub IsWord : ℕ → Type 0
IsWord s = s < 65536

-- Samples survive the way through the bytes.
pub bytes_to_int16_le-little_endian :
    (ss : List ℕ) → All IsWord ss → bytes_to_int16_le (little_endian ss) ≡ some ss
unfolding bytes_to_int16_le little_endian
bytes_to_int16_le-little_endian [] h = refl
bytes_to_int16_le-little_endian (s ∷ ss) h =
    let e : s % 256 + 256 * (s / 256 % 256) ≡ s = omega arith in
    rw (bytes_to_int16_le-little_endian ss h.1, e)

-- Even, by recursion.
abbrev pub even : ℕ → Bool
even zero = true
even (suc zero) = false
even (suc (suc n)) = even n

even-double : (n : ℕ) → even (2 * n) ≡ true
even-double zero = refl
even-double (suc n) = let e : 2 * suc n ≡ suc (suc (2 * n)) = omega arith in rw e (even-double n)

bytes_to_int16_le-even :
    (bs : List ℕ) → even (length bs) ≡ true → (ss : List ℕ) × (bytes_to_int16_le bs ≡ some ss)
unfolding bytes_to_int16_le
bytes_to_int16_le-even [] h = ([], refl)
bytes_to_int16_le-even (b ∷ []) h = cc
bytes_to_int16_le-even (b ∷ b' ∷ bs) h =
    let (ss, e) = bytes_to_int16_le-even bs h in ((b + 256 * b') ∷ ss, ap (push (b + 256 * b')) e)

abbrev HasLength : ℕ → List ℕ → Type 0
HasLength n xs = length xs ≡ n

length-concat :
    (n : ℕ) (chunks : List (List ℕ))
    → All (HasLength (2 * n)) chunks
    → length (concat chunks) ≡ 2 * (n * length chunks)
length-concat n [] h = omega arith
length-concat n (c ∷ cs) h = grind (arith, length-append c (concat cs), length-concat n cs h.1)

-- Whatever number of chunks of one even size is gathered, the bytes are read back with no panic.
pub bytes_to_int16_le-chunks :
    (n : ℕ) (chunks : List (List ℕ))
    → All (λ c. length c ≡ 2 * n) chunks
    → (ss : List ℕ) × (bytes_to_int16_le (concat chunks) ≡ some ss)
bytes_to_int16_le-chunks n chunks h =
    bytes_to_int16_le-even (concat chunks)
      (rw (length-concat n chunks h) (even-double (n * length chunks)))
