-- ===== src/Clad/Lists.antt =====
-- A list of structures behind its length, as CLAD writes and reads it.
use vic_cloudless.Prelude.{
  ltb→lt, ◌<◌, ap, ltb, Bool-cases, if◌then◌else◌, length, length-append, ℕ, zero, suc, ◌+◌, ◌≡◌,
  refl, sym, ◌∙◌, inl, inr, Bool, true, ◌&&◌, Option, none, some, List, [], ◌∷◌, ◌++◌, append_assoc,
  arith,
}
use vic_cloudless.Clad.Wire.{
  Bytes, Codec, and_then, and_then-eq_some, bound, le_bytes, from_le, word_unpack, word_length,
}

module _ {A : Type 0} (w : ℕ) (c : Codec A) where
  abbrev pub pack_items : List A → Option Bytes
  pack_items [] = some []
  pack_items (x ∷ xs) = and_then (c.pack x) (λ b. and_then (pack_items xs) (λ bs. some (b ++ bs)))

  abbrev pub unpack_items : ℕ → Bytes → Option (List A × Bytes)
  unpack_items zero bs = some ([], bs)
  unpack_items (suc n) bs =
      and_then (c.unpack bs)
        (λ (x, bs'). and_then (unpack_items n bs') (λ (xs, bs''). some (x ∷ xs, bs'')))

  abbrev pub fits_items : List A → Bool
  fits_items [] = true
  fits_items (x ∷ xs) = c.fits x && fits_items xs

  abbrev pub size_items : List A → ℕ
  size_items [] = 0
  size_items (x ∷ xs) = c.size x + size_items xs

  abbrev pub pack_list : List A → Option Bytes
  pack_list xs =
      if ltb (length xs) (bound w)
      then and_then (pack_items xs) (λ b. some (le_bytes w (length xs) ++ b))
      else none

  abbrev pub unpack_list : Bytes → Option (List A × Bytes)
  unpack_list bs = and_then (from_le w bs) (λ (n, rest). unpack_items n rest)

  pub items_unpack :
      (xs : List A) (b rest : Bytes)
      → fits_items xs ≡ true
      → pack_items xs ≡ some b
      → unpack_items (length xs) (b ++ rest) ≡ some (xs, rest)
  items_unpack [] b rest f e = let same : [] ≡ b = cc e in ap (λ z. some ([], z ++ rest)) (sym same)
  items_unpack (x ∷ xs) bs rest f e =
      let (y, ey, e') = and_then-eq_some (c.pack x) _ e in
      let (z, ez, e'') = and_then-eq_some (pack_items xs) _ e' in
      let fx : c.fits x ≡ true = ground arith in
      let fxs : fits_items xs ≡ true = ground arith in
      let same : y ++ z ≡ bs = cc e'' in
      ap (λ t. unpack_items (suc (length xs)) (t ++ rest)) (sym same)
      ∙ ap (unpack_items (suc (length xs))) (append_assoc y z rest)
      ∙ rw (c.unpack-pack x y (z ++ rest) fx ey) (rw (items_unpack xs z rest fxs ez) refl)

  pub items_length : (xs : List A) (b : Bytes) → pack_items xs ≡ some b → length b ≡ size_items xs
  items_length [] b e = let same : [] ≡ b = cc e in ap length (sym same)
  items_length (x ∷ xs) bs e =
      let (y, ey, e') = and_then-eq_some (c.pack x) _ e in
      let (z, ez, e'') = and_then-eq_some (pack_items xs) _ e' in
      let same : y ++ z ≡ bs = cc e'' in
      ap length (sym same)
      ∙ omega (arith, length-append y z, c.length-pack x y ey, items_length xs z ez)

  pub list_unpack :
      (xs : List A) (b rest : Bytes)
      → fits_items xs ≡ true
      → pack_list xs ≡ some b
      → unpack_list (b ++ rest) ≡ some (xs, rest)
  list_unpack xs b rest f e = elim (Bool-cases (ltb (length xs) (bound w))) [
    | inr long ↦ let e' = (rw long at e) in cc e'
    | inl short ↦
        let (z, ez, e') = and_then-eq_some (pack_items xs) _ (rw short at e) in
        let same : le_bytes w (length xs) ++ z ≡ b = cc e' in
        ap (λ t. unpack_list (t ++ rest)) (sym same)
        ∙ ap unpack_list (append_assoc (le_bytes w (length xs)) z rest)
        ∙ ap (λ o. and_then o (λ (n, r). unpack_items n r))
            (word_unpack w (length xs) (le_bytes w (length xs)) (z ++ rest) short refl)
        ∙ items_unpack xs z rest f ez
  ]

  pub list_length : (xs : List A) (b : Bytes) → pack_list xs ≡ some b → length b ≡ w + size_items xs
  list_length xs b e = elim (Bool-cases (ltb (length xs) (bound w))) [
    | inr long ↦ let e' = (rw long at e) in cc e'
    | inl short ↦
        let (z, ez, e') = and_then-eq_some (pack_items xs) _ (rw short at e) in
        let same : le_bytes w (length xs) ++ z ≡ b = cc e' in
        ap length (sym same)
        ∙ omega (
          arith,
          length-append (le_bytes w (length xs)) z,
          word_length w (length xs) (le_bytes w (length xs)) refl,
          items_length xs z ez,
        )
  ]

  unfoldable pub list : Codec (List A)
  list = record {
    fits = fits_items;
    pack = pack_list;
    unpack = unpack_list;
    size = λ xs. w + size_items xs;
    unpack-pack = list_unpack;
    length-pack = list_length;
  }

  pub pack_list-lt : (xs : List A) (b : Bytes) → pack_list xs ≡ some b → length xs < bound w
  pack_list-lt xs b e = elim (Bool-cases (ltb (length xs) (bound w))) [
    | inr long ↦ let e' = (rw long at e) in cc e'
    | inl short ↦ ltb→lt (length xs) (bound w) short
  ]
