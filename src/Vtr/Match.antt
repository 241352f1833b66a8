-- ===== src/Vtr/Match.antt =====
-- From a text to an intent: `ProcessTextAll` of internal/voice/vtr/process.go.
use vic_cloudless.Prelude.{
  exists, if◌then◌else◌, Bool-cases, All, ◌≡◌, refl, ap, ◌⊎◌, inl, inr, Bool, true, false, not,
  ◌&&◌, Option, none, some, List, [], ◌∷◌, ◌++◌,
}
use vic_cloudless.Prelude.Text.{to_lower_idem, codes, text_eq, contains, to_lower, Text}
use vic_cloudless.Vtr.Params.{Params, LastWeather, param_checker}

-- `JsonIntent` of internal/voice/vtr/intents.go.
pub record JsonIntent : Type 0 where
  pub name : Text
  pub keyphrases : List Text
  pub require_exact_match : Bool

abbrev pub exact : Text → JsonIntent → Bool
exact voice b = exists (λ c. text_eq voice (to_lower c)) b.keyphrases

abbrev pub within : Text → JsonIntent → Bool
within voice b = exists (λ c. contains voice (to_lower c) && not b.require_exact_match) b.keyphrases

-- A loop over the intents that returns at the first one with a keyphrase that fits.
find_first : (JsonIntent → Bool) → List JsonIntent → Option JsonIntent
find_first p [] = none
find_first p (b ∷ bs) = if p b then some b else find_first p bs

abbrev or_second : Option JsonIntent → Option JsonIntent → Option JsonIntent
or_second (some b) second = some b
or_second none second = second

-- The intent that is chosen: first a perfect match is looked for, then a substring.
unfoldable pub choose : Text → List JsonIntent → Option JsonIntent
unfolding find_first
choose voice intents =
    or_second (find_first (exact voice) intents) (find_first (within voice) intents)

abbrev pub no_audio : Params
no_audio = record { new_intent = codes "intent_system_noaudio"; fields = []; is_param = false }

module _ (words2num : Text → Text) (w : LastWeather) where
  abbrev answer : Text → Option JsonIntent → Option Params
  answer voice none = some no_audio
  answer voice (some b) = param_checker words2num w b.name voice

  unfoldable pub process_text_all : Text → List JsonIntent → Option Params
  unfolding choose
  process_text_all voice intents = answer (to_lower voice) (choose (to_lower voice) intents)

-- The first element with the property.
pub record First (p : JsonIntent → Bool) (bs : List JsonIntent) (b : JsonIntent) : Type 0 where
  pub earlier : List JsonIntent
  pub later : List JsonIntent
  pub place : bs ≡ earlier ++ b ∷ later
  pub fits : p b ≡ true
  pub none_earlier : All (λ x. p x ≡ false) earlier

abbrev pub Finds : (JsonIntent → Bool) → List JsonIntent → Option JsonIntent → Type 0
Finds p bs none = All (λ x. p x ≡ false) bs
Finds p bs (some b) = First p bs b

find_first-Finds : (p : JsonIntent → Bool) (bs : List JsonIntent) → Finds p bs (find_first p bs)
unfolding find_first
find_first-Finds p [] = tt
find_first-Finds p (b ∷ bs) = elim (Bool-cases (p b)) [
  | inl hit ↦
      rw hit (record { earlier = []; later = bs; place = refl; fits = hit; none_earlier = tt })
  | inr miss ↦ rw miss (skip (find_first p bs) (find_first-Finds p bs) miss)
]
  where
    skip : (o : Option JsonIntent) → Finds p bs o → p b ≡ false → Finds p (b ∷ bs) o
    skip none h miss = (miss, h)
    skip (some x) h miss = record {
      earlier = b ∷ h.earlier;
      later = h.later;
      place = ap (◌∷◌ b) h.place;
      fits = h.fits;
      none_earlier = (miss, h.none_earlier);
    }

-- What the choice promises.
abbrev pub Chosen : Text → List JsonIntent → Option JsonIntent → Type 0
Chosen voice bs none = All (λ x. exact voice x ≡ false) bs × All (λ x. within voice x ≡ false) bs
Chosen voice bs (some b) =
    First (exact voice) bs b ⊎ (All (λ x. exact voice x ≡ false) bs × First (within voice) bs b)

or_second-Chosen :
    (voice : Text) (bs : List JsonIntent) (o o' : Option JsonIntent)
    → Finds (exact voice) bs o
    → Finds (within voice) bs o'
    → Chosen voice bs (or_second o o')
or_second-Chosen voice bs (some b) o' h k = inl h
or_second-Chosen voice bs none (some b) h k = inr (h, k)
or_second-Chosen voice bs none none h k = (h, k)

-- The intent that is chosen is the first with a keyphrase equal to the text; if there is no such
-- intent anywhere, the first that allows it with a keyphrase inside the text; and none is chosen
-- exactly where no intent fits in either way.
pub choose-Chosen : (voice : Text) (bs : List JsonIntent) → Chosen voice bs (choose voice bs)
unfolding choose
choose-Chosen voice bs =
    or_second-Chosen voice bs (find_first (exact voice) bs) (find_first (within voice) bs)
      (find_first-Finds (exact voice) bs) (find_first-Finds (within voice) bs)

-- Capital letters in the text make no difference.
pub process_text_all-to_lower :
    (words2num : Text → Text) (w : LastWeather) (voice : Text) (bs : List JsonIntent)
    → process_text_all words2num w (to_lower voice) bs ≡ process_text_all words2num w voice bs
unfolding process_text_all
process_text_all-to_lower words2num w voice bs = rw (to_lower_idem voice)
