-- ===== src/Clad/Fields.antt =====
-- More fields of CLAD structures: Booleans, arrays of a fixed length, and structures with no fields.
-- A signed number and a floating-point number are the patterns of their bits, in a `word`.
use vic_cloudless.Prelude.{
  length, ◌==◌, if◌then◌else◌, ℕ, ◌≡◌, sym, ap, ◌∙◌, Bool, true, false, not, ◌&&◌, Option, none,
  some, List, [], ◌∷◌, ◌++◌, arith,
}
use vic_cloudless.Clad.Wire.{Bytes, Codec}
use vic_cloudless.Clad.Lists.{
  pack_items, unpack_items, fits_items, size_items, items_unpack, items_length,
}

-- `binary.Write` and `binary.Read` of a Boolean; any byte but 0 is true.
abbrev pack_flag : Bool → Option Bytes
pack_flag b = some ((if b then 1 else 0) ∷ [])

abbrev unpack_flag : Bytes → Option (Bool × Bytes)
unpack_flag [] = none
unpack_flag (b ∷ bs) = some (not (b == 0), bs)

pub flag_unpack :
    (f : Bool) (b rest : Bytes)
    → true ≡ true
    → pack_flag f ≡ some b
    → unpack_flag (b ++ rest) ≡ some (f, rest)
flag_unpack true b rest h e =
    let same : 1 ∷ [] ≡ b = cc e in ap (λ x. unpack_flag (x ++ rest)) (sym same)
flag_unpack false b rest h e =
    let same : 0 ∷ [] ≡ b = cc e in ap (λ x. unpack_flag (x ++ rest)) (sym same)

pub flag_length : (f : Bool) (b : Bytes) → pack_flag f ≡ some b → length b ≡ 1
flag_length f b e = let same : (if f then 1 else 0) ∷ [] ≡ b = cc e in ap length (sym same)

unfoldable pub flag : Codec Bool
flag = record {
  fits = λ f. true;
  pack = pack_flag;
  unpack = unpack_flag;
  size = λ f. 1;
  unpack-pack = flag_unpack;
  length-pack = flag_length;
}

-- A structure with no fields.
abbrev unpack_void : Bytes → Option (Unit {0} × Bytes)
unpack_void bs = some (tt, bs)

pub void_unpack :
    (u : Unit {0}) (b rest : Bytes)
    → true ≡ true
    → some [] ≡ some b
    → unpack_void (b ++ rest) ≡ some (u, rest)
void_unpack u b rest h e = let same : [] ≡ b = cc e in ap (λ x. unpack_void (x ++ rest)) (sym same)

pub void_length : (u : Unit {0}) (b : Bytes) → some [] ≡ some b → length b ≡ 0
void_length u b e = let same : [] ≡ b = cc e in ap length (sym same)

unfoldable pub void : Codec (Unit {0})
void = record {
  fits = λ u. true;
  pack = λ u. some [];
  unpack = unpack_void;
  size = λ u. 0;
  unpack-pack = void_unpack;
  length-pack = void_length;
}

-- An array of `n` items, with no length in front.
module _ {A : Type 0} (n : ℕ) (c : Codec A) where
  abbrev fits_fixed : List A → Bool
  fits_fixed xs = (length xs == n) && fits_items n c xs

  pub fixed_unpack :
      (xs : List A) (b rest : Bytes)
      → fits_fixed xs ≡ true
      → pack_items n c xs ≡ some b
      → unpack_items n c n (b ++ rest) ≡ some (xs, rest)
  fixed_unpack xs b rest f e =
      let l : length xs ≡ n = ground arith in
      let g : fits_items n c xs ≡ true = ground arith in
      ap (λ k. unpack_items n c k (b ++ rest)) (sym l) ∙ items_unpack n c xs b rest g e

  unfoldable pub fixed : Codec (List A)
  fixed = record {
    fits = fits_fixed;
    pack = pack_items n c;
    unpack = unpack_items n c n;
    size = size_items n c;
    unpack-pack = fixed_unpack;
    length-pack = items_length n c;
  }
