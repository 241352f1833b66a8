-- ===== src/Vtr/Tests.antt =====
-- Voice to intent on concrete input.
use vic_cloudless.Prelude.{
  replicate, ℕ, ◌+◌, ◌≡◌, refl, Bool, true, false, Option, some, List, [], ◌∷◌,
}
use vic_cloudless.Prelude.Text.{codes, Text}
use vic_cloudless.Vtr.Vad.{
  Splits, split_vad, split_vad-Splits, detect_end_of_speech, Outcome, judge, zeros, State, Verdict,
  detect_end_of_speech-Outcome,
}
use vic_cloudless.Vtr.Params.{LastWeather, param_checker}
use vic_cloudless.Vtr.Params.Totality.{Yields, param_checker-Yields}
use vic_cloudless.Vtr.Match.{JsonIntent, choose, Chosen, choose-Chosen}
use vic_cloudless.Vtr.Weather.{SunPair, Forecast}

abbrev half_second : List ℕ
half_second = replicate 700 1

split_vad-Splits_example : Splits half_second (split_vad half_second)
split_vad-Splits_example = split_vad-Splits half_second

-- A detector that takes every frame for speech.
abbrev all_speech : ℕ → List ℕ → Option (Bool × ℕ)
all_speech v f = some (true, v + 1)

abbrev one_frame : List ℕ
one_frame = replicate 320 1

one_frame-judged : (judge (some 0) all_speech 0 (split_vad one_frame)).1 ≡ false
unfolding split_vad
one_frame-judged = refl

detect_end_of_speech-Outcome_example :
    (r : State (some 0) all_speech × Verdict) × (detect_end_of_speech
        (some 0)
        all_speech
        (zeros, some 0)
        one_frame
      ≡ some r)
    × Outcome (some 0) all_speech [] (judge (some 0) all_speech 0 (split_vad one_frame)).0 r
detect_end_of_speech-Outcome_example =
    detect_end_of_speech-Outcome (some 0) all_speech [] zeros 0 one_frame (refl, refl)
      one_frame-judged

abbrev same : Text → Text
same t = t

abbrev fine : LastWeather
fine = record {
  condition = codes "Sunny";
  local_datetime = codes "today";
  location = codes "Oslo";
  temperature = codes "20";
  units = codes "C";
}

abbrev for_me : Text
for_me = codes "record a message for me"

param_checker-Yields_example :
    Yields
      (codes "intent_message_recordmessage_extend")
      (param_checker same fine (codes "intent_message_recordmessage_extend") for_me)
param_checker-Yields_example =
    param_checker-Yields same fine (codes "intent_message_recordmessage_extend") for_me

abbrev greeting : JsonIntent
greeting = record {
  name = codes "intent_greeting_hello";
  keyphrases = codes "hello" ∷ codes "Hi" ∷ [];
  require_exact_match = true;
}

abbrev dance : JsonIntent
dance = record {
  name = codes "intent_play_dance";
  keyphrases = codes "dance" ∷ [];
  require_exact_match = false;
}

choose-Chosen_example :
    Chosen
      (codes "please dance")
      (greeting ∷ dance ∷ [])
      (choose (codes "please dance") (greeting ∷ dance ∷ []))
choose-Chosen_example = choose-Chosen (codes "please dance") (greeting ∷ dance ∷ [])

abbrev one_minute_five : List (Text × Text)
one_minute_five = (codes "1", codes "minute") ∷ (codes "five", codes "second") ∷ []

abbrev two_days : List SunPair
two_days = record { sunrise = 300; sunset = 1200 } ∷ record { sunrise = 1740; sunset = 2640 } ∷ []

abbrev no_days : Forecast
no_days = record {
  temp_c = codes "3";
  temp_f = codes "37";
  freezing = false;
  code = 3;
  time = 600;
  sunpairs = [];
}
