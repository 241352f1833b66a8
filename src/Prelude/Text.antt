-- ===== src/Prelude/Text.antt =====
-- Texts as lists of code points (bytes, where they are ASCII), and the functions of Go's `strings`
-- that the source calls. `to_lower` is `ToLower` for texts whose letters are those of ASCII.
use Prim.Native.Char.{code}
use Prim.Native.String.{String}
use Prim.Native.Nat.{ℕ, ◌+◌}
use mathlib.Core.Path.{◌≡◌, refl, ap}
use mathlib.Core.Logic.{◌↔◌, inl, inr}
use mathlib.Core.Bool.{Bool, true, false, ◌&&◌, ◌||◌}
use mathlib.Core.List.{List, [], ◌∷◌, ◌++◌, map, reverse}
use native.Mathlib.Omega.{arith}
use vic_cloudless.Prelude.Tests.{leb, ◌==◌, ==_iff, if◌then◌else◌, Bool-cases}

abbrev pub Text : Type 0
Text = List ℕ

abbrev pub codes : String → Text
codes String.[] = []
codes (String.◌∷◌ c s) = code c ∷ codes s

unfoldable pub text_eq : Text → Text → Bool
text_eq [] [] = true
text_eq [] (_ ∷ _) = false
text_eq (_ ∷ _) [] = false
text_eq (a ∷ s) (b ∷ t) = (a == b) && text_eq s t

pub text_eq_sound : (s t : Text) → text_eq s t ≡ true → s ≡ t
unfolding text_eq
text_eq_sound [] [] h = refl
text_eq_sound [] (_ ∷ _) h = cc
text_eq_sound (_ ∷ _) [] h = cc
text_eq_sound (a ∷ s) (b ∷ t) h = ground (arith, text_eq_sound s t)

pub text_eq_refl : (s : Text) → text_eq s s ≡ true
unfolding text_eq
text_eq_refl [] = refl
text_eq_refl (a ∷ s) = ground (arith, text_eq_refl s)

pub text_eq_iff : (s t : Text) → (text_eq s t ≡ true) ↔ (s ≡ t)
text_eq_iff s t = (text_eq_sound s t, λ e. rw e (text_eq_refl t))

-- `strings.HasPrefix(s, t)`.
unfoldable pub has_prefix : Text → Text → Bool
has_prefix s [] = true
has_prefix [] (_ ∷ _) = false
has_prefix (a ∷ s) (b ∷ t) = (a == b) && has_prefix s t

-- `strings.Contains(s, t)`.
unfoldable pub contains : Text → Text → Bool
unfolding has_prefix
contains [] t = has_prefix [] t
contains (a ∷ s) t = has_prefix (a ∷ s) t || contains s t

pub has_prefix_sound : (s t : Text) → has_prefix s t ≡ true → (r : Text) × (s ≡ t ++ r)
unfolding has_prefix
has_prefix_sound s [] h = (s, refl)
has_prefix_sound [] (b ∷ t) h = cc
has_prefix_sound (a ∷ s) (b ∷ t) h =
    let (r, p) = has_prefix_sound s t (ground arith) in (r, ground arith)

pub has_prefix-append : (t r : Text) → has_prefix (t ++ r) t ≡ true
unfolding has_prefix
has_prefix-append [] r = refl
has_prefix-append (b ∷ t) r = ground (arith, has_prefix-append t r)

pub contains_sound :
    (s t : Text) → contains s t ≡ true → (l : Text) × (r : Text) × (s ≡ l ++ (t ++ r))
unfolding contains
contains_sound [] t h = let (r, p) = has_prefix_sound [] t h in ([], r, p)
contains_sound (a ∷ s) t h = elim (Bool-cases (has_prefix (a ∷ s) t)) [
  | inl here ↦ let (r, p) = has_prefix_sound (a ∷ s) t here in ([], r, p)
  | inr miss ↦ let (l, r, p) = contains_sound s t (ground arith) in (a ∷ l, r, ap (◌∷◌ a) p)
]

pub contains-middle : (l t r : Text) → contains (l ++ (t ++ r)) t ≡ true
unfolding contains
contains-middle [] [] [] = refl
contains-middle [] [] (c ∷ r) = refl
contains-middle [] (b ∷ t) r = ground (arith, has_prefix-append (b ∷ t) r)
contains-middle (a ∷ l) t r = let h = contains-middle l t r in ground arith

-- `strings.ToLower`, on the ASCII letters.
pub lower : ℕ → ℕ
lower c = if leb b'A' c && leb c b'Z' then c + 32 else c

unfoldable pub to_lower : Text → Text
unfolding lower
to_lower = map lower

lower_idem : (c : ℕ) → lower (lower c) ≡ lower c
unfolding lower
lower_idem c = ground arith

pub to_lower_idem : (s : Text) → to_lower (to_lower s) ≡ to_lower s
unfolding to_lower
to_lower_idem [] = refl
to_lower_idem (c ∷ s) = cc (lower_idem c, to_lower_idem s)

-- `strings.Split(s, sep)` at a separator of one byte: never empty.
abbrev push_front : ℕ → List Text → List Text
push_front c [] = (c ∷ []) ∷ []
push_front c (w ∷ ws) = (c ∷ w) ∷ ws

unfoldable pub split : ℕ → Text → List Text
split sep [] = [] ∷ []
split sep (c ∷ s) = if c == sep then [] ∷ split sep s else push_front c (split sep s)

-- No byte of `s` is `c`.
abbrev pub Without : ℕ → Text → Type 0
Without c [] = Unit {0}
Without c (d ∷ s) = ((d == c) ≡ false) × Without c s

pub split-Without : (sep : ℕ) (s : Text) → Without sep s → split sep s ≡ s ∷ []
unfolding split
split-Without sep [] w = refl
split-Without sep (c ∷ s) w = rw (w.0, split-Without sep s w.1)

-- The text before a separator is the first part.
pub split-append :
    (sep : ℕ) (s t : Text) → Without sep s → split sep (s ++ sep ∷ t) ≡ s ∷ split sep t
unfolding split
split-append sep [] t w = rw ((==_iff sep sep).1 refl)
split-append sep (c ∷ s) t w = rw (w.0, split-append sep s t w.1)

-- `strings.TrimSpace`, on the ASCII spaces.
abbrev is_space : ℕ → Bool
is_space c = (c == b' ') || (leb 9 c && leb c 13)

abbrev trim_left : Text → Text
trim_left [] = []
trim_left (c ∷ s) = if is_space c then trim_left s else c ∷ s

unfoldable pub trim_space : Text → Text
trim_space s = reverse (trim_left (reverse (trim_left s)))
