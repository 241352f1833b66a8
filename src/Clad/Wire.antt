-- ===== src/Clad/Wire.antt =====
-- How the CLAD structures of internal/clad are written and read: numbers with their low byte first,
-- texts and lists behind their lengths. A structure is a codec, the interface `Struct` of
-- internal/clad/clad.go with its laws; the codec of a structure is built of those of its fields, in
-- the order of the calls in `Pack` and `Unpack`.
use vic_cloudless.Prelude.{
  ap, ltb→lt, if◌then◌else◌, length-append, ltb, drop, Bool-cases, drop-append_self, take, length,
  leb, le→leb, take-append_self, ℕ, zero, suc, ◌+◌, ◌*◌, ◌/◌, ◌%◌, ◌≤◌, ◌<◌, ◌≡◌, refl, sym, ◌∙◌,
  inl, inr, Bool, true, false, not, ◌&&◌, ◌||◌, Option, none, some, List, [], ◌∷◌, ◌++◌,
  append_assoc, arith,
}
use vic_cloudless.Prelude.Text.{Text}

abbrev pub Bytes : Type 0
Bytes = List ℕ

-- What a chain of steps that may fail does.
abbrev pub and_then {ℓ κ} : {A : Type ℓ} {B : Type κ} → Option A → (A → Option B) → Option B
and_then none f = none
and_then (some a) f = f a

pub and_then-eq_some {ℓ κ} :
    {A : Type ℓ} {B : Type κ} (o : Option A) (f : A → Option B) {b : B}
    → and_then o f ≡ some b
    → (a : A) × (o ≡ some a) × (f a ≡ some b)
and_then-eq_some none f e = cc e
and_then-eq_some (some a) f e = (a, refl, e)

-- `Pack`, `Unpack` and `Size`. `fits` says that the values of Go's types are in their ranges, and that
-- a length that `Pack` does not check is written whole.
pub record Codec (A : Type 0) : Type 0 where
  pub fits : A → Bool
  pub pack : A → Option Bytes
  pub unpack : Bytes → Option (A × Bytes)
  pub size : A → ℕ
  pub unpack-pack :
      (a : A) (b rest : Bytes)
      → fits a ≡ true
      → pack a ≡ some b
      → unpack (b ++ rest) ≡ some (a, rest)
  pub length-pack : (a : A) (b : Bytes) → pack a ≡ some b → length b ≡ size a

-- 256 ^ w
abbrev pub bound : ℕ → ℕ
bound zero = 1
bound (suc w) = 256 * bound w

-- A number in `w` bytes.
unfoldable pub le_bytes : ℕ → ℕ → Bytes
le_bytes zero n = []
le_bytes (suc w) n = n % 256 ∷ le_bytes w (n / 256)

abbrev add_low : ℕ → ℕ × Bytes → ℕ × Bytes
add_low b (n, rest) = (b + 256 * n, rest)

unfoldable pub from_le : ℕ → Bytes → Option (ℕ × Bytes)
from_le zero bs = some (0, bs)
from_le (suc w) [] = none
from_le (suc w) (b ∷ bs) = and_then (from_le w bs) (λ r. some (add_low b r))

from_le-le_bytes :
    (w n : ℕ) (rest : Bytes) → n < bound w → from_le w (le_bytes w n ++ rest) ≡ some (n, rest)
unfolding from_le le_bytes
from_le-le_bytes zero n rest h = let e : n ≡ 0 = omega arith in rw e refl
from_le-le_bytes (suc w) n rest h =
    let e : n % 256 + 256 * (n / 256) ≡ n = omega arith in
    rw (from_le-le_bytes w (n / 256) rest (omega arith), e) refl

length-le_bytes : (w n : ℕ) → length (le_bytes w n) ≡ w
unfolding le_bytes
length-le_bytes zero n = refl
length-le_bytes (suc w) n = ap suc (length-le_bytes w (n / 256))

pub word_unpack :
    (w n : ℕ) (b rest : Bytes)
    → ltb n (bound w) ≡ true
    → some (le_bytes w n) ≡ some b
    → from_le w (b ++ rest) ≡ some (n, rest)
word_unpack w n b rest f e =
    let same : le_bytes w n ≡ b = cc e in
    ap (λ x. from_le w (x ++ rest)) (sym same) ∙ from_le-le_bytes w n rest (ltb→lt n (bound w) f)

pub word_length : (w n : ℕ) (b : Bytes) → some (le_bytes w n) ≡ some b → length b ≡ w
word_length w n b e =
    let same : le_bytes w n ≡ b = cc e in ap length (sym same) ∙ length-le_bytes w n

-- `binary.Write` and `binary.Read` of an unsigned number of `w` bytes.
unfoldable pub word : ℕ → Codec ℕ
unfolding le_bytes from_le
word w = record {
  fits = λ n. ltb n (bound w);
  pack = λ n. some (le_bytes w n);
  unpack = from_le w;
  size = λ n. w;
  unpack-pack = word_unpack w;
  length-pack = word_length w;
}

-- A text behind its length in `w` bytes; a text that is too long is refused, or where `Pack` does not
-- test, its length is cut to `w` bytes.
unfoldable pub pack_text : ℕ → Bool → Text → Option Bytes
unfolding le_bytes
pack_text w tested t =
    if not tested || ltb (length t) (bound w) then some (le_bytes w (length t) ++ t) else none

-- `buf.Next(n)`, which must give `n` bytes.
abbrev next_bytes : ℕ × Bytes → Option (Text × Bytes)
next_bytes (n, rest) = if leb n (length rest) then some (take n rest, drop n rest) else none

unfoldable pub unpack_text : ℕ → Bytes → Option (Text × Bytes)
unfolding from_le
unpack_text w bs = and_then (from_le w bs) next_bytes

next_bytes-append : (t rest : Bytes) → next_bytes (length t, t ++ rest) ≡ some (t, rest)
next_bytes-append t rest =
    let h : length t ≤ length (t ++ rest) = omega (arith, length-append t rest) in
    rw (le→leb _ _ h, take-append_self t rest, drop-append_self t rest) refl

pub pack_text-some :
    (w : ℕ) (tested : Bool) (t b : Bytes)
    → pack_text w tested t ≡ some b
    → b ≡ le_bytes w (length t) ++ t
unfolding pack_text
pack_text-some w tested t b e = elim (Bool-cases (not tested || ltb (length t) (bound w))) [
  | inl short ↦ let e' = (rw short at e) in cc e'
  | inr long ↦ let e' = (rw long at e) in cc e'
]

pack_text-lt :
    (w : ℕ) (tested : Bool) (t b : Bytes)
    → tested || ltb (length t) (bound w) ≡ true
    → pack_text w tested t ≡ some b
    → length t < bound w
unfolding pack_text
pack_text-lt w false t b f e = ltb→lt (length t) (bound w) f
pack_text-lt w true t b f e = elim (Bool-cases (ltb (length t) (bound w))) [
  | inl short ↦ ltb→lt (length t) (bound w) short
  | inr long ↦ let e' = (rw long at e) in cc e'
]

pub text_unpack :
    (w : ℕ) (tested : Bool) (t b rest : Bytes)
    → tested || ltb (length t) (bound w) ≡ true
    → pack_text w tested t ≡ some b
    → unpack_text w (b ++ rest) ≡ some (t, rest)
unfolding unpack_text
text_unpack w tested t b rest f e =
    ap (λ x. and_then (from_le w (x ++ rest)) next_bytes) (pack_text-some w tested t b e)
    ∙ ap (λ x. and_then (from_le w x) next_bytes) (append_assoc (le_bytes w (length t)) t rest)
    ∙ ap (λ o. and_then o next_bytes)
        (from_le-le_bytes w (length t) (t ++ rest) (pack_text-lt w tested t b f e))
    ∙ next_bytes-append t rest

pub text_length :
    (w : ℕ) (tested : Bool) (t b : Bytes) → pack_text w tested t ≡ some b → length b ≡ w + length t
text_length w tested t b e =
    ap length (pack_text-some w tested t b e)
    ∙ omega (arith, length-append (le_bytes w (length t)) t, length-le_bytes w (length t))

unfoldable pub text : ℕ → Bool → Codec Text
unfolding pack_text unpack_text
text w tested = record {
  fits = λ t. tested || ltb (length t) (bound w);
  pack = pack_text w tested;
  unpack = unpack_text w;
  size = λ t. w + length t;
  unpack-pack = text_unpack w tested;
  length-pack = text_length w tested;
}

module _ {A B : Type 0} (ca : Codec A) (cb : Codec B) where
  abbrev pub pack_pair : A × B → Option Bytes
  pack_pair (a, b) = and_then (ca.pack a) (λ x. and_then (cb.pack b) (λ y. some (x ++ y)))

  abbrev pub unpack_pair : Bytes → Option ((A × B) × Bytes)
  unpack_pair bs =
      and_then (ca.unpack bs)
        (λ (a, bs'). and_then (cb.unpack bs') (λ (b, bs''). some ((a, b), bs'')))

  abbrev pub fits_pair : A × B → Bool
  fits_pair (a, b) = ca.fits a && cb.fits b

  pub pair_unpack :
      (p : A × B) (b rest : Bytes)
      → fits_pair p ≡ true
      → pack_pair p ≡ some b
      → unpack_pair (b ++ rest) ≡ some (p, rest)
  pair_unpack (a, b) bs rest f e =
      let (x, ex, e') = and_then-eq_some (ca.pack a) _ e in
      let (y, ey, e'') = and_then-eq_some (cb.pack b) _ e' in
      let fa : ca.fits a ≡ true = ground arith in
      let fb : cb.fits b ≡ true = ground arith in
      let same : x ++ y ≡ bs = cc e'' in
      ap (λ z. unpack_pair (z ++ rest)) (sym same)
      ∙ ap unpack_pair (append_assoc x y rest)
      ∙ rw (ca.unpack-pack a x (y ++ rest) fa ex) (rw (cb.unpack-pack b y rest fb ey) refl)

  pub pair_length :
      (p : A × B) (b : Bytes) → pack_pair p ≡ some b → length b ≡ ca.size p.0 + cb.size p.1
  pair_length (a, b) bs e =
      let (x, ex, e') = and_then-eq_some (ca.pack a) _ e in
      let (y, ey, e'') = and_then-eq_some (cb.pack b) _ e' in
      let same : x ++ y ≡ bs = cc e'' in
      ap length (sym same)
      ∙ omega (arith, length-append x y, ca.length-pack a x ex, cb.length-pack b y ey)

  -- Two fields, one after the other.
  unfoldable pub pair : Codec (A × B)
  pair = record {
    fits = fits_pair;
    pack = pack_pair;
    unpack = unpack_pair;
    size = λ p. ca.size p.0 + cb.size p.1;
    unpack-pack = pair_unpack;
    length-pack = pair_length;
  }

-- A structure whose fields are read and written as a tuple.
module _ {A B : Type 0} (ca : Codec A) (fields : B → A) (build : A → B)
    (inverse : (b : B) → build (fields b) ≡ b) where
  abbrev pub build_first : A × Bytes → B × Bytes
  build_first (a, rest) = (build a, rest)

  pub struct_unpack :
      (s : B) (b rest : Bytes)
      → ca.fits (fields s) ≡ true
      → ca.pack (fields s) ≡ some b
      → and_then (ca.unpack (b ++ rest)) (λ r. some (build_first r)) ≡ some (s, rest)
  struct_unpack s b rest f e =
      ap (λ o. and_then o (λ r. some (build_first r))) (ca.unpack-pack (fields s) b rest f e)
      ∙ ap (λ x. some (x, rest)) (inverse s)

  unfoldable pub struct : Codec B
  struct = record {
    fits = λ s. ca.fits (fields s);
    pack = λ s. ca.pack (fields s);
    unpack = λ bs. and_then (ca.unpack bs) (λ r. some (build_first r));
    size = λ s. ca.size (fields s);
    unpack-pack = struct_unpack;
    length-pack = λ s b e. ca.length-pack (fields s) b e;
  }
