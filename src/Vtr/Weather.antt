-- ===== src/Vtr/Weather.antt =====
-- The weather: internal/voice/vtr/weather.go, from the answer of the forecast service on. Times are
-- minutes since a fixed day, in the zone of the place; the requests over the network are parameters
-- of the model, and of the temperature in floating point it is only known whether it is at most 0.
use vic_cloudless.Prelude.{
  Bool-cases, ◌==◌, leb, ltb, if◌then◌else◌, ℕ, ◌≤◌, ◌<◌, ◌≡◌, refl, ◌↔◌, ◌⊎◌, inl, inr, Bool, true,
  false, ◌&&◌, ◌||◌, Option, none, some, List, [], ◌∷◌, arith,
}
use vic_cloudless.Prelude.Text.{codes, Text, text_eq}

pub data Condition : Type 0 where
  cloudy windy rain thunderstorms sunny clear snow cold : Condition

pub record SunPair : Type 0 where
  pub sunrise : ℕ
  pub sunset : ℕ

abbrev up : ℕ → SunPair → Bool
up ct sp = ltb sp.sunrise ct && ltb ct sp.sunset

abbrev next_sunrise : List SunPair → Option ℕ
next_sunrise [] = none
next_sunrise (sp ∷ _) = some sp.sunrise

abbrev in_night : ℕ → SunPair → Option ℕ → Bool
in_night ct sp none = false
in_night ct sp (some sr) = ltb sp.sunset ct && ltb ct sr

-- The loop over the days; a night that is found ends it.
unfoldable pub is_day : ℕ → List SunPair → Bool
is_day ct [] = false
is_day ct (sp ∷ rest) =
    let later = is_day ct rest in
    if up ct sp then true else if in_night ct sp (next_sunrise rest) then false else later

-- `!isDay && ct.Before(sunpairs[0].sunrise)`: `none` is the index out of range.
unfoldable pub checked_day : ℕ → List SunPair → Option Bool
unfolding is_day
checked_day ct [] = none
checked_day ct (sp ∷ rest) = some (is_day ct (sp ∷ rest))

-- The `switch` on the code of the weather.
unfoldable pub condition_of_code : ℕ → Bool → Condition
condition_of_code code day =
    if leb 95 code && leb code 99
    then thunderstorms
    else if code == 71 || code == 73 || code == 75 || code == 77 || code == 85 || code == 86
    then snow
    else if code == 1 || code == 2 || code == 0
    then (if day then sunny else clear)
    else if code == 3 || code == 45 || code == 48
    then cloudy
    else if (leb 51 code && leb code 67) || (leb 80 code && leb code 82)
    then rain
    else cloudy

unfoldable pub condition : ℕ → Bool → Bool → Condition
unfolding condition_of_code
condition code day freezing = if freezing then cold else condition_of_code code day

-- What the service answered, once it could be read.
pub record Forecast : Type 0 where
  pub temp_c : Text
  pub temp_f : Text
  pub freezing : Bool
  pub code : ℕ
  pub time : ℕ
  pub sunpairs : List SunPair

-- A fetch fails, or gives the forecast, or the process panics.
pub record Report : Type 0 where
  pub temp_c : Text
  pub temp_f : Text
  pub weather : Condition
  pub time : ℕ

abbrev report_of : Forecast → Option Bool → Option Report
report_of f none = none
report_of f (some day) = some (record {
  temp_c = f.temp_c;
  temp_f = f.temp_f;
  weather = condition f.code day f.freezing;
  time = f.time;
})

unfoldable pub report : Forecast → Option Report
unfolding checked_day condition
report f = report_of f (checked_day f.time f.sunpairs)

-- The globals of the file.
pub record Current : Type 0 where
  pub temp : Text
  pub condition : Condition
  pub location : Text
  pub units : Text
  pub time : ℕ

-- The fields of `SettingsJdoc` that are read.
pub record Settings : Type 0 where
  pub default_location : Text
  pub temp_is_fahrenheit : Bool

-- `locationFromDisk`; `none` where the file cannot be read.
unfoldable pub location_from_disk : Current → Option Settings → Current
location_from_disk c none = c
location_from_disk c (some j) = record c {
  location = j.default_location;
  units = if j.temp_is_fahrenheit then codes "F" else codes "C";
}

abbrev store : Current → Option Report → Current
store c none = record c { temp = codes "120"; condition = snow }
store c (some r) = record c {
  temp = if text_eq c.units (codes "F") then r.temp_f else r.temp_c;
  condition = r.weather;
  time = r.time;
}

-- `FetchWeatherNow`, once there is internet: `fetch` is `getWeather`, `none` where it fails.
unfoldable pub fetch_weather_now : (Text → Option Report) → Current → Option Settings → Current
unfolding location_from_disk
fetch_weather_now fetch c j = let c' = location_from_disk c j in store c' (fetch c'.location)

-- The days follow one another: each sun rises before it sets, and sets before the next rises.
abbrev pub InOrder : List SunPair → Type 0
InOrder [] = Unit {0}
InOrder (sp ∷ []) = sp.sunrise ≤ sp.sunset
InOrder (sp ∷ (sq ∷ rest)) =
    (sp.sunrise ≤ sp.sunset) × (sp.sunset ≤ sq.sunrise) × InOrder (sq ∷ rest)

-- The sun is up on one of the days.
abbrev pub SomeUp : ℕ → List SunPair → Type 0
SomeUp ct [] = ⊥
SomeUp ct (sp ∷ rest) = ((sp.sunrise < ct) × (ct < sp.sunset)) ⊎ SomeUp ct rest

before_all :
    (ct : ℕ) (sp : SunPair) (rest : List SunPair)
    → InOrder (sp ∷ rest)
    → ct ≤ sp.sunrise
    → ¬ SomeUp ct (sp ∷ rest)
before_all ct sp [] o h (inl u) = omega arith
before_all ct sp [] o h (inr u) = u
before_all ct sp (sq ∷ rest) o h (inl u) = omega arith
before_all ct sp (sq ∷ rest) o h (inr u) = before_all ct sq rest o.2 (omega arith) u

InOrder-tail : (sp : SunPair) (rest : List SunPair) → InOrder (sp ∷ rest) → InOrder rest
InOrder-tail sp [] o = tt
InOrder-tail sp (sq ∷ rest) o = o.2

in_night-none :
    (ct : ℕ) (sp : SunPair) (rest : List SunPair)
    → InOrder (sp ∷ rest)
    → in_night ct sp (next_sunrise rest) ≡ true
    → ¬ SomeUp ct rest
in_night-none ct sp [] o h u = u
in_night-none ct sp (sq ∷ rest) o h u = before_all ct sq rest o.2 (ground arith) u

is_day_sound : (ct : ℕ) (ps : List SunPair) → is_day ct ps ≡ true → SomeUp ct ps
unfolding is_day
is_day_sound ct [] h = cc
is_day_sound ct (sp ∷ rest) h = elim (Bool-cases (up ct sp)) [
  | inl u ↦ inl (ground arith)
  | inr d ↦ inr (is_day_sound ct rest (ground arith))
]

is_day_complete : (ct : ℕ) (ps : List SunPair) → InOrder ps → SomeUp ct ps → is_day ct ps ≡ true
unfolding is_day
is_day_complete ct [] o u = absurd u
is_day_complete ct (sp ∷ rest) o (inl u) = ground arith
is_day_complete ct (sp ∷ rest) o (inr u) = elim (Bool-cases (in_night ct sp (next_sunrise rest))) [
  | inl night ↦ absurd (in_night-none ct sp rest o night u)
  | inr free ↦ rw free (ground (arith, is_day_complete ct rest (InOrder-tail sp rest o) u))
]

-- Where the days are in order, it is day exactly if the sun is up on one of them, although the loop
-- may stop at a night.
pub is_day_iff : (ct : ℕ) (ps : List SunPair) → InOrder ps → (is_day ct ps ≡ true) ↔ SomeUp ct ps
is_day_iff ct ps o = (is_day_sound ct ps, is_day_complete ct ps o)

-- A forecast without a readable pair of sunrise and sunset is a panic, and only such a one is.
pub report-none : (f : Forecast) → (report f ≡ none) ↔ (f.sunpairs ≡ [])
unfolding report
report-none f = go f.sunpairs
  where
    go : (ps : List SunPair) → (report_of f (checked_day f.time ps) ≡ none) ↔ (ps ≡ [])
    go [] = (λ e. refl, λ e. refl)
    go (sp ∷ rest) = (λ e. cc, λ e. cc)
