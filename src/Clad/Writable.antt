-- ===== src/Clad/Writable.antt =====
-- The values that CLAD writes whole: they fit their fields, and `Pack` of internal/clad gives no
-- error.
use vic_cloudless.Prelude.{
  ◌∙◌, if◌then◌else◌, [], lt→ltb, length, ℕ, ◌<◌, ◌≡◌, refl, Bool, true, some, List, ◌∷◌, ◌++◌,
}
use vic_cloudless.Prelude.Text.{Text}
use vic_cloudless.Clad.Fields.{flag, void}
use vic_cloudless.Clad.Union.{View, Decoder, Agrees, union}
use vic_cloudless.Clad.Wire.{Bytes, Codec, bound, word, text, pair, pack_text, le_bytes}

pub record Writable {A : Type 0} (c : Codec A) (a : A) : Type 0 where
  pub fits_fields : c.fits a ≡ true
  pub bytes : Bytes
  pub packs : c.pack a ≡ some bytes

-- A number of 32 bits.
abbrev pub IsWord : ℕ → Type 0
IsWord n = n < 4294967296

-- A text whose length is written in one byte.
abbrev pub IsShort : Text → Type 0
IsShort t = length t < 256

pub word-Writable : (w n : ℕ) → n < bound w → Writable (word w) n
unfolding word
word-Writable w n h = record {
  fits_fields = lt→ltb n (bound w) h;
  bytes = le_bytes w n;
  packs = refl;
}

pub text-Writable : (t : Text) → IsShort t → Writable (text 1 true) t
unfolding text pack_text
text-Writable t h = record {
  fits_fields = refl;
  bytes = le_bytes 1 (length t) ++ t;
  packs = rw (lt→ltb (length t) 256 h) refl;
}

pub flag-Writable : (f : Bool) → Writable flag f
unfolding flag
flag-Writable f = record { fits_fields = refl; bytes = (if f then 1 else 0) ∷ []; packs = refl }

pub void-Writable : (u : Unit {0}) → Writable void u
unfolding void
void-Writable u = record { fits_fields = refl; bytes = []; packs = refl }

module _ {A B : Type 0} {ca : Codec A} {cb : Codec B} {a : A} {b : B} where
  pub pair-Writable : Writable ca a → Writable cb b → Writable (pair ca cb) (a, b)
  unfolding pair
  pair-Writable wa wb = record {
    fits_fields = rw (wa.fits_fields, wb.fits_fields) refl;
    bytes = wa.bytes ++ wb.bytes;
    packs = rw (wa.packs, wb.packs) refl;
  }

-- A structure is written like its fields.
pub of_fields :
    {A B : Type 0} {ca : Codec A} {a : A} (cb : Codec B) (b : B)
    → Writable ca a
    → cb.fits b ≡ ca.fits a
    → cb.pack b ≡ ca.pack a
    → Writable cb b
of_fields cb b w f p = record {
  fits_fields = f ∙ w.fits_fields;
  bytes = w.bytes;
  packs = p ∙ w.packs;
}

pub union-Writable :
    {U : Type 0} (view : U → View U) (cases : List (ℕ × Decoder U))
    (agrees : (u : U) → Agrees cases u (view u)) (u : U)
    → Writable (view u).codec (view u).body
    → Writable (union view cases agrees) u
unfolding union
union-Writable view cases agrees u w = record {
  fits_fields = w.fits_fields;
  bytes = (view u).tag ∷ w.bytes;
  packs = rw w.packs refl;
}
