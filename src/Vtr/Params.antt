-- ===== src/Vtr/Params.antt =====
-- The parameters of an intent: `ParamChecker` of internal/voice/vtr/param.go. Its two branches under
-- `botPlaySpecific` and `botIsEarlyOpus`, which are the constant false, are left out. `words2num` is
-- a parameter here, and the weather that was fetched last is an argument.
pub mod Totality
use vic_cloudless.Prelude.{
  some, if◌then◌else◌, ◌==◌, length, ℕ, ◌+◌, ◌-◌, Bool, true, false, ◌||◌, Option, none, List, [],
  ◌∷◌, ◌++◌,
}
use vic_cloudless.Prelude.Text.{has_prefix, codes, trim_space, Text, contains}
use vic_cloudless.Vtr.Texts.{Key, get_text}

abbrev pub Fields : Type 0
Fields = List (Text × Text)

-- The new intent, its parameters, and `isParam`.
pub record Params : Type 0 where
  pub new_intent : Text
  pub fields : Fields
  pub is_param : Bool

-- `currentCondition`, `currentWeatherTime.String()`, and the other globals of weather.go.
pub record LastWeather : Type 0 where
  pub condition : Text
  pub local_datetime : Text
  pub location : Text
  pub temperature : Text
  pub units : Text

abbrev says : Text → Key → Bool
says speech k = contains speech (get_text k)

abbrev either : Text → Key → Key → Bool
either speech j k = says speech j || says speech k

photo_params : Text → Text → Params
unfolding get_text
photo_params intent speech = record {
  new_intent = intent;
  fields =
      (
        codes "entity_photo_selfie",
        if either speech Key.me Key.self then codes "photo_selfie" else [],
      )
      ∷ [];
  is_param = true;
}

-- The first colour that the speech names.
eye_color : Text → Option Text
eye_color speech =
    if says speech Key.eye_color_purple
    then some (codes "COLOR_PURPLE")
    else if either speech Key.eye_color_blue Key.eye_color_sapphire
    then some (codes "COLOR_BLUE")
    else if says speech Key.eye_color_yellow
    then some (codes "COLOR_YELLOW")
    else if either speech Key.eye_color_teal Key.eye_color_teal2
    then some (codes "COLOR_TEAL")
    else if says speech Key.eye_color_green
    then some (codes "COLOR_GREEN")
    else if says speech Key.eye_color_orange
    then some (codes "COLOR_ORANGE")
    else none

abbrev pub specific_eye_color : Text
specific_eye_color = codes "intent_imperative_eyecolor_specific_extend"

abbrev color_params : Text → Option Text → Params
color_params intent (some name) = record {
  new_intent = specific_eye_color;
  fields = (codes "eye_color", name) ∷ [];
  is_param = true;
}
color_params intent none = record {
  new_intent = intent;
  fields = (codes "eye_color", []) ∷ [];
  is_param = false;
}

weather_params : Text → LastWeather → Params
weather_params intent w = record {
  new_intent = intent;
  fields =
      (codes "condition", w.condition)
      ∷ (codes "is_forecast", codes "false")
      ∷ (codes "local_datetime", w.local_datetime)
      ∷ (codes "speakable_location_string", w.location)
      ∷ (codes "temperature", w.temperature)
      ∷ (codes "temperature_unit", w.units)
      ∷ [];
  is_param = true;
}

pub data Level : Type 0 where
  volume_1 volume_2 volume_3 volume_4 volume_5 : Level

level_name : Level → Text
level_name volume_1 = codes "VOLUME_1"
level_name volume_2 = codes "VOLUME_2"
level_name volume_3 = codes "VOLUME_3"
level_name volume_4 = codes "VOLUME_4"
level_name volume_5 = codes "VOLUME_5"

-- The longer phrases are asked for first.
unfoldable pub volume_level : Text → Level
volume_level speech =
    if says speech Key.volume_medium_low
    then volume_2
    else if either speech Key.volume_low Key.volume_quiet
    then volume_1
    else if says speech Key.volume_medium_high
    then volume_4
    else if either speech Key.volume_medium Key.volume_normal || says speech Key.volume_regular
    then volume_3
    else if either speech Key.volume_high Key.volume_loud
    then volume_5
    else volume_1

volume_params : Text → Text → Params
unfolding volume_level level_name
volume_params intent speech = record {
  new_intent = intent;
  fields = (codes "volume_level", level_name (volume_level speech)) ∷ [];
  is_param = true;
}

one_param : Text → Text → Text → Params
one_param intent name value = record {
  new_intent = intent;
  fields = (name, value) ∷ [];
  is_param = true;
}

-- `strings.SplitAfter(s, sep)`: `left` characters of a separator are still to be passed.
abbrev push_front : ℕ → List Text → List Text
push_front c [] = (c ∷ []) ∷ []
push_front c (w ∷ ws) = (c ∷ w) ∷ ws

abbrev ahead : Text → ℕ → Text → ℕ
ahead sep left s = if left == 0 then (if has_prefix s sep then length sep else 0) else left

split_after_loop : Text → ℕ → Text → List Text
split_after_loop sep left [] = [] ∷ []
split_after_loop sep left (c ∷ s) =
    let rest = split_after_loop sep (ahead sep left (c ∷ s) - 1) s in
    if ahead sep left (c ∷ s) == 1 then (c ∷ []) ∷ rest else push_front c rest

unfoldable pub split_after : Text → Text → List Text
unfolding split_after_loop
split_after sep s = split_after_loop sep 0 s

-- The name behind "for", from the phrases after it; `none` is an index out of range.
abbrev pub given_name : List Text → Option Text
given_name [] = none
given_name (_ ∷ []) = none
given_name (_ ∷ a ∷ []) = some (trim_space a)
given_name (_ ∷ a ∷ b ∷ []) = some (trim_space a ++ (b' ' ∷ trim_space b))
given_name (_ ∷ a ∷ b ∷ c ∷ _) =
    some ((trim_space a ++ (b' ' ∷ trim_space b)) ++ (b' ' ∷ trim_space c))

abbrev name_params : Text → Option Text → Option Params
name_params intent none = none
name_params intent (some name) = some (one_param intent (codes "given_name") name)

message_params : Text → Text → Option Params
unfolding split_after one_param
message_params intent speech =
    if says speech Key.for
    then name_params intent (given_name (split_after (get_text Key.for) speech))
    else some (one_param intent (codes "given_name") [])

plain_params : Text → Params
plain_params intent = record { new_intent = intent; fields = ([], []) ∷ []; is_param = false }

-- The branch of the chain of `strings.Contains(intent, …)`.
pub data Branch : Type 0 where
  photo color weather volume timer stop play_message record_message plain : Branch

branch_of : Text → Branch
branch_of intent =
    if contains intent (codes "intent_photo_take_extend")
    then photo
    else if contains intent (codes "intent_imperative_eyecolor")
    then color
    else if contains intent (codes "intent_weather_extend")
    then weather
    else if contains intent (codes "intent_imperative_volumelevel_extend")
    then volume
    else if contains intent (codes "intent_clock_settimer_extend")
    then timer
    else if contains intent (codes "intent_global_stop_extend")
    then stop
    else if contains intent (codes "intent_message_playmessage_extend")
    then play_message
    else if contains intent (codes "intent_message_recordmessage_extend")
    then record_message
    else plain

module _ (words2num : Text → Text) (w : LastWeather) where
  params_of : Branch → Text → Text → Option Params
  unfolding photo_params eye_color weather_params volume_params one_param message_params
      plain_params
  params_of photo intent speech = some (photo_params intent speech)
  params_of color intent speech = some (color_params intent (eye_color speech))
  params_of weather intent speech = some (weather_params intent w)
  params_of volume intent speech = some (volume_params intent speech)
  params_of timer intent speech =
      some (one_param intent (codes "timer_duration") (words2num speech))
  params_of stop intent speech = some (one_param intent (codes "what_to_stop") (codes "timer"))
  params_of play_message intent speech = message_params intent speech
  params_of record_message intent speech = message_params intent speech
  params_of plain intent speech = some (plain_params intent)

  -- `none` is a panic.
  unfoldable pub param_checker : Text → Text → Option Params
  unfolding branch_of params_of
  param_checker intent speech = params_of (branch_of intent) intent speech
