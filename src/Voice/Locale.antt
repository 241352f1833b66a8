-- ===== src/Voice/Locale.antt =====
-- The locale of a hotword: `getLanguage` of internal/voice/process.go.
use vic_cloudless.Prelude.{
  ℕ, ◌≡◌, refl, sym, ap, ◌∙◌, ◌⊎◌, inl, inr, true, false, Option, none, some, List, [], ◌∷◌, ◌++◌,
  if◌then◌else◌, Bool-cases,
}
use vic_cloudless.Prelude.Text.{
  Text, codes, text_eq, text_eq_iff, to_lower, split, Without, split-Without, split-append,
}

pub data LanguageCode : Type 0 where
  english_us english_uk english_au french german : LanguageCode

-- `strs`, when it has two parts.
abbrev two_parts : List Text → Option (Text × Text)
two_parts (l ∷ c ∷ []) = some (l, c)
two_parts _ = none

abbrev or_else : Option (Text × Text) → Option (Text × Text) → Option (Text × Text)
or_else (some p) q = some p
or_else none q = q

-- First by "-", and where that gives no two parts, by "_".
pub locale_parts : Text → Option (Text × Text)
locale_parts locale = or_else (two_parts (split b'-' locale)) (two_parts (split b'_' locale))

-- The two `switch` statements, on the lowered parts.
pub language_of : Text → Text → LanguageCode
language_of lang country =
    if text_eq lang (codes "fr")
    then french
    else if text_eq lang (codes "de")
    then german
    else if text_eq lang (codes "en")
    then (if text_eq country (codes "gb")
        then english_uk
        else if text_eq country (codes "au")
        then english_au
        else english_us)
    else english_us

abbrev to_language : Option (Text × Text) → Option LanguageCode
to_language none = none
to_language (some (lang, country)) = some (language_of (to_lower lang) (to_lower country))

-- `none` is the error "invalid locale string".
unfoldable pub get_language : Text → Option LanguageCode
unfolding locale_parts language_of
get_language locale = to_language (locale_parts locale)

locale_parts-dash :
    (l c : Text) → Without b'-' l → Without b'-' c → locale_parts (l ++ b'-' ∷ c) ≡ some (l, c)
unfolding locale_parts
locale_parts-dash l c hl hc = rw (split-append b'-' l c hl, split-Without b'-' c hc)

Without-append : (d : ℕ) (s t : Text) → Without d s → Without d t → Without d (s ++ t)
Without-append d [] t hs ht = ht
Without-append d (x ∷ s) t hs ht = (hs.0, Without-append d s t hs.1 ht)

locale_parts_underscore :
    (l c : Text)
    → Without b'-' l
    → Without b'-' c
    → Without b'_' l
    → Without b'_' c
    → locale_parts (l ++ b'_' ∷ c) ≡ some (l, c)
unfolding locale_parts
locale_parts_underscore l c hl hc kl kc =
    rw (split-Without b'-' (l ++ b'_' ∷ c) (Without-append b'-' l (b'_' ∷ c) hl (refl, hc)))
      (rw (split-append b'_' l c kl, split-Without b'_' c kc))

-- The two separators mean the same: where neither part holds one, "xx-YY" and "xx_YY" have the
-- same language.
pub get_language-separator :
    (l c : Text)
    → Without b'-' l
    → Without b'-' c
    → Without b'_' l
    → Without b'_' c
    → get_language (l ++ b'_' ∷ c) ≡ get_language (l ++ b'-' ∷ c)
unfolding get_language
get_language-separator l c hl hc kl kc =
    ap to_language (locale_parts_underscore l c hl hc kl kc ∙ sym (locale_parts-dash l c hl hc))

abbrev Is : Text → Text → Type 0
Is s t = to_lower s ≡ t

-- What each language stands for: French and German whatever the country, British and Australian
-- English by language and country, American English for all else.
pub data Speaks (l c : Text) : LanguageCode → Type 0 where
  fr : Is l (codes "fr") → Speaks l c french
  de : Is l (codes "de") → Speaks l c german
  gb : Is l (codes "en") → Is c (codes "gb") → Speaks l c english_uk
  au : Is l (codes "en") → Is c (codes "au") → Speaks l c english_au
  us :
      ¬ Is l (codes "fr")
      → ¬ Is l (codes "de")
      → ((¬ Is l (codes "en")) ⊎ ((¬ Is c (codes "gb")) × (¬ Is c (codes "au"))))
      → Speaks l c english_us

test_iff : (s t : Text) → ((text_eq s t ≡ true) × (s ≡ t)) ⊎ ((text_eq s t ≡ false) × (¬ (s ≡ t)))
test_iff s t = elim (Bool-cases (text_eq s t)) [
  | inl h ↦ inl (h, (text_eq_iff s t).0 h)
  | inr h ↦ inr (h, λ e. cc ((text_eq_iff s t).1 e))
]

language_of-Speaks : (l c : Text) → Speaks l c (language_of (to_lower l) (to_lower c))
unfolding language_of
language_of-Speaks l c = elim (test_iff (to_lower l) (codes "fr")) [
  | inl (h, e) ↦ rw h (fr e)
  | inr (h, nf) ↦ rw h (elim (test_iff (to_lower l) (codes "de")) [
    | inl (k, e) ↦ rw k (de e)
    | inr (k, nd) ↦ rw k (elim (test_iff (to_lower l) (codes "en")) [
      | inr (m, ne) ↦ rw m (us nf nd (inl ne))
      | inl (m, e) ↦ rw m (elim (test_iff (to_lower c) (codes "gb")) [
        | inl (g, eg) ↦ rw g (gb e eg)
        | inr (g, ng) ↦ rw g (elim (test_iff (to_lower c) (codes "au")) [
          | inl (a, ea) ↦ rw a (au e ea)
          | inr (a, na) ↦ rw a (us nf nd (inr (ng, na)))
        ])
      ])
    ])
  ])
]

-- A locale of two parts joined by a dash, neither with a dash in it, always has a language, and it
-- is the one that the two parts stand for.
pub get_language-Speaks :
    (l c : Text)
    → Without b'-' l
    → Without b'-' c
    → (code : LanguageCode) × (get_language (l ++ b'-' ∷ c) ≡ some code) × Speaks l c code
unfolding get_language
get_language-Speaks l c hl hc = (
  language_of (to_lower l) (to_lower c),
  ap to_language (locale_parts-dash l c hl hc),
  language_of-Speaks l c,
)

american : get_language (codes "en-US") ≡ some english_us
unfolding get_language split text_eq to_lower
american = refl

british : get_language (codes "EN_gb") ≡ some english_uk
unfolding get_language split text_eq to_lower
british = refl

no_country : get_language (codes "en") ≡ none
unfolding get_language split
no_country = refl
