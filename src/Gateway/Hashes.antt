-- ===== src/Gateway/Hashes.antt =====
-- The comparison of a client token with a stored hash: internal/token/compare_and_hash.go. SHA-256,
-- the decoder of base64 and the token of this run (`PerRuntimeToken`) are parameters.
use vic_cloudless.Prelude.{
  if_intro, length-append, ltb, drop, if◌then◌else◌, take-append_self, drop-append_self, take,
  length, ℕ, ◌+◌, ◌≡◌, refl, sym, ap, ◌∙◌, Option, none, some, List, ◌++◌, arith,
}
use vic_cloudless.Prelude.Text.{text_eq_refl, text_eq, Text}

abbrev hash_size : ℕ
hash_size = 32

abbrev salt_size : ℕ
salt_size = 16

abbrev Bytes : Type 0
Bytes = List ℕ

pub data CompareError : Type 0 where
  bad_encoding too_long too_short mismatch : CompareError

pub record Hashed : Type 0 where
  pub hash : Bytes
  pub salt : Bytes

-- `newFromHash`
pub data NewHashed : Type 0 where
  made : Hashed → NewHashed
  refused : CompareError → NewHashed

unfoldable pub new_from_hash : Bytes → NewHashed
new_from_hash h =
    if ltb (hash_size + salt_size) (length h)
    then refused too_long
    else if ltb (length h) (hash_size + salt_size)
    then refused too_short
    else made (record { hash = take hash_size h; salt = drop hash_size h })

new_from_hash-append :
    (h s : Bytes)
    → length h ≡ 32
    → length s ≡ 16
    → new_from_hash (h ++ s) ≡ made (record { hash = h; salt = s })
unfolding new_from_hash
new_from_hash-append h s eh es =
    let l : length (h ++ s) ≡ 48 = omega (arith, length-append h s) in
    let front : take 32 (h ++ s) ≡ h = ap (λ n. take n (h ++ s)) (sym eh) ∙ take-append_self h s in
    let back : drop 32 (h ++ s) ≡ s = ap (λ n. drop n (h ++ s)) (sym eh) ∙ drop-append_self h s in
    rw (l, front, back) refl

module _ (runtime : Text) (base64 : Text → Option Bytes) (sha256 : Bytes → Bytes) where
  -- `hash`
  abbrev pub salted_hash : Bytes → Bytes → Bytes
  salted_hash token salt = sha256 (token ++ salt)

  abbrev compare_hashed : NewHashed → Bytes → Option CompareError
  compare_hashed (refused e) token = some e
  compare_hashed (made h) token =
      if text_eq h.hash (salted_hash token h.salt) then none else some mismatch

  abbrev compare_decoded : Option Bytes → Option Bytes → Option CompareError
  compare_decoded none token = some bad_encoding
  compare_decoded (some h) none = some bad_encoding
  compare_decoded (some h) (some token) = compare_hashed (new_from_hash h) token

  -- `CompareHashAndToken`; `none` is success.
  unfoldable pub compare_hash_and_token : Text → Text → Option CompareError
  unfolding new_from_hash
  compare_hash_and_token hashed token =
      if text_eq runtime token then none else compare_decoded (base64 hashed) (base64 token)

  -- What it means that a stored hash belongs to a token.
  pub record Belongs (hashed token : Text) : Type 0 where
    pub raw : Bytes
    pub salt : Bytes
    pub decodes : base64 token ≡ some raw
    pub stored : base64 hashed ≡ some (salted_hash raw salt ++ salt)
    pub salt_length : length salt ≡ 16

  -- A token that belongs to a stored hash is accepted, when SHA-256 gives 32 bytes.
  pub compare_hash_and_token-Belongs :
      (hashed token : Text)
      → ((b : Bytes) → length (sha256 b) ≡ 32)
      → Belongs hashed token
      → compare_hash_and_token hashed token ≡ none
  unfolding compare_hash_and_token
  compare_hash_and_token-Belongs hashed token size b =
      if_intro (λ (r : Option CompareError). r ≡ none) (text_eq runtime token) _ _ refl
        (rw (
          b.stored,
          b.decodes,
          new_from_hash-append (salted_hash b.raw b.salt) b.salt (size (b.raw ++ b.salt))
              b.salt_length,
          text_eq_refl (salted_hash b.raw b.salt),
        ))
