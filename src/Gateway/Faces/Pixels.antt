-- ===== src/Gateway/Faces/Pixels.antt =====
-- The loop of `SendFaceDataAsChunks` that reads the pixels of one chunk.
use vic_cloudless.Prelude.{
  ap, drop, take, length, ℕ, zero, suc, ◌+◌, ◌*◌, ◌≤◌, ◌≡◌, refl, sym, ◌∙◌, [], ◌∷◌, ◌++◌, arith,
}
use vic_cloudless.Clad.Wire.{Bytes}
use vic_cloudless.Gateway.Faces.{read_pixels}

pub length-read_pixels : (n : ℕ) (bs : Bytes) → 2 * n ≤ length bs → length (read_pixels n bs) ≡ n
unfolding read_pixels
length-read_pixels zero bs h = refl
length-read_pixels (suc n) [] h = absurd (omega (arith, h))
length-read_pixels (suc n) (x ∷ []) h = absurd (omega (arith, h))
length-read_pixels (suc n) (x ∷ y ∷ bs) h = ap suc (length-read_pixels n bs (omega (arith, h)))

abbrev twice : ℕ → ℕ
twice zero = zero
twice (suc n) = suc (suc (twice n))

twice_lem : (n : ℕ) → twice n ≡ 2 * n
twice_lem zero = refl
twice_lem (suc n) = omega (arith, twice_lem n)

read_pixels-twice :
    (m n : ℕ) (bs : Bytes)
    → 2 * m ≤ length bs
    → read_pixels (m + n) bs ≡ read_pixels m bs ++ read_pixels n (drop (twice m) bs)
unfolding read_pixels
read_pixels-twice zero n bs h = let z : 0 + n ≡ n = omega arith in ap (λ k. read_pixels k bs) z
read_pixels-twice (suc m) n [] h = absurd (omega (arith, h))
read_pixels-twice (suc m) n (x ∷ []) h = absurd (omega (arith, h))
read_pixels-twice (suc m) n (x ∷ y ∷ bs) h =
    let e : suc m + n ≡ suc (m + n) = omega arith in
    ap (λ k. read_pixels k (x ∷ y ∷ bs)) e
    ∙ ap (◌∷◌ (x * 256 + y)) (read_pixels-twice m n bs (omega (arith, h)))

pub read_pixels-add :
    (m n : ℕ) (bs : Bytes)
    → 2 * m ≤ length bs
    → read_pixels (m + n) bs ≡ read_pixels m bs ++ read_pixels n (drop (2 * m) bs)
read_pixels-add m n bs h =
    read_pixels-twice m n bs h
    ∙ ap (λ k. read_pixels m bs ++ read_pixels n (drop k bs)) (twice_lem m)

take-twice : (n : ℕ) (bs : Bytes) → read_pixels n (take (twice n) bs) ≡ read_pixels n bs
unfolding read_pixels
take-twice zero bs = refl
take-twice (suc n) [] = refl
take-twice (suc n) (x ∷ []) = refl
take-twice (suc n) (x ∷ y ∷ bs) = ap (◌∷◌ (x * 256 + y)) (take-twice n bs)

pub read_pixels-take :
    (n k : ℕ) (bs : Bytes) → k ≡ 2 * n → read_pixels n (take k bs) ≡ read_pixels n bs
read_pixels-take n k bs e =
    ap (λ j. read_pixels n (take j bs)) (omega (arith, e, twice_lem n)) ∙ take-twice n bs

drop-nil : (n : ℕ) → drop {A = ℕ} n [] ≡ []
drop-nil zero = refl
drop-nil (suc n) = refl

pub drop-add : (m n : ℕ) (bs : Bytes) → drop n (drop m bs) ≡ drop (m + n) bs
drop-add zero n bs = let z : n ≡ 0 + n = omega arith in ap (λ k. drop k bs) z
drop-add (suc m) n [] = drop-nil n ∙ sym (drop-nil (suc m + n))
drop-add (suc m) n (x ∷ bs) =
    let e : suc (m + n) ≡ suc m + n = omega arith in drop-add m n bs ∙ ap (λ k. drop k (x ∷ bs)) e

pub length-read_pixels_le : (n : ℕ) (bs : Bytes) → length (read_pixels n bs) ≤ n
unfolding read_pixels
length-read_pixels_le zero bs = omega arith
length-read_pixels_le (suc n) [] = omega arith
length-read_pixels_le (suc n) (x ∷ []) = omega arith
length-read_pixels_le (suc n) (x ∷ y ∷ bs) = omega (arith, length-read_pixels_le n bs)
