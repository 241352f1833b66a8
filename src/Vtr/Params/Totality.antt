-- ===== src/Vtr/Params/Totality.antt =====
-- `ParamChecker` never panics: where the speech holds " for ", it splits into two parts or more.
use vic_cloudless.Vtr.Texts.{Key, get_text}
use vic_cloudless.Prelude.{
  if◌then◌else◌, ◌==◌, Bool-cases, length, length-append, ℕ, suc, ◌-◌, ◌≤◌, ◌<◌, ◌≡◌, refl, ap, ◌⊎◌,
  inl, inr, true, Option, none, some, List, [], ◌∷◌, arith,
}
use vic_cloudless.Prelude.Text.{has_prefix, Text, contains, has_prefix_sound}
use vic_cloudless.Vtr.Params.{
  Branch, photo, color, weather, volume, timer, stop, play_message, record_message, plain,
  branch_of, params_of, Params, LastWeather, push_front, ahead, given_name, split_after_loop,
  split_after, says, specific_eye_color, color_params, message_params, eye_color, param_checker,
}

split_after_loop_nonempty :
    (sep : Text) (left : ℕ) (s : Text) → 1 ≤ length (split_after_loop sep left s)
unfolding split_after_loop
split_after_loop_nonempty sep left [] = omega arith
split_after_loop_nonempty sep left (c ∷ s) =
    cut-or-push (split_after_loop sep (ahead sep left (c ∷ s) - 1) s)
  where
    cut-or-push :
        (rest : List Text)
        → 1 ≤ length (if ahead sep left (c ∷ s) == 1 then (c ∷ []) ∷ rest else push_front c rest)
    cut-or-push [] = ground arith
    cut-or-push (w ∷ ws) = ground arith

push_front-length : (c : ℕ) (ws : List Text) → 2 ≤ length ws → 2 ≤ length (push_front c ws)
push_front-length c [] h = absurd (omega arith)
push_front-length c (w ∷ ws) h = h

-- Inside a separator that ends within the text, a cut comes.
split_after_loop-cut :
    (sep : Text) (left : ℕ) (s : Text)
    → 0 < left
    → left ≤ length s
    → 2 ≤ length (split_after_loop sep left s)
unfolding split_after_loop
split_after_loop-cut sep left [] h l = absurd (omega arith)
split_after_loop-cut sep left (c ∷ s) h l =
    let e : ahead sep left (c ∷ s) ≡ left = ground arith in
    elim (Bool-cases (left == 1)) [
      | inl last ↦ rw (e, last) (ground (arith, split_after_loop_nonempty sep (left - 1) s))
      | inr more ↦
          rw (e, more)
            (push_front-length c _
              (split_after_loop-cut sep (left - 1) s (ground arith) (omega arith)))
    ]

has_prefix-length : (s t : Text) → has_prefix s t ≡ true → length t ≤ length s
has_prefix-length s t h =
    let (r, e) = has_prefix_sound s t h in omega (arith, ap length e, length-append t r)

split_after_loop-here :
    (sep : Text) (c : ℕ) (s : Text)
    → 0 < length sep
    → has_prefix (c ∷ s) sep ≡ true
    → 2 ≤ length (split_after_loop sep 0 (c ∷ s))
unfolding split_after_loop
split_after_loop-here sep c s h here =
    let l : length sep ≤ suc (length s) = has_prefix-length (c ∷ s) sep here in
    elim (Bool-cases (length sep == 1)) [
      | inl last ↦
          rw (here, last) (ground (arith, split_after_loop_nonempty sep (length sep - 1) s))
      | inr more ↦
          rw (here, more)
            (push_front-length c _
              (split_after_loop-cut sep (length sep - 1) s (ground arith) (omega arith)))
    ]

split_after_loop-contains :
    (sep s : Text) → 0 < length sep → contains s sep ≡ true → 2 ≤ length (split_after_loop sep 0 s)
unfolding contains split_after_loop
split_after_loop-contains sep [] h k = absurd (omega (arith, has_prefix-length [] sep k))
split_after_loop-contains sep (c ∷ s) h k = elim (Bool-cases (has_prefix (c ∷ s) sep)) [
  | inl here ↦ split_after_loop-here sep c s h here
  | inr miss ↦ rw miss (push_front-length c _ (split_after_loop-contains sep s h (rw miss at k)))
]

given_name_total : (ws : List Text) → 2 ≤ length ws → (name : Text) × (given_name ws ≡ some name)
given_name_total [] h = absurd (omega arith)
given_name_total (_ ∷ []) h = absurd (omega arith)
given_name_total (_ ∷ a ∷ []) h = (_, refl)
given_name_total (_ ∷ a ∷ b ∷ []) h = (_, refl)
given_name_total (_ ∷ a ∷ b ∷ c ∷ _) h = (_, refl)

-- Some parameters come out, for the same intent or for the colour's own.
abbrev pub Yields : Text → Option Params → Type 0
Yields intent o =
    (p : Params) × (o ≡ some p) × ((p.new_intent ≡ intent) ⊎ (p.new_intent ≡ specific_eye_color))

message_params-Yields : (intent speech : Text) → Yields intent (message_params intent speech)
unfolding message_params
message_params-Yields intent speech = elim (Bool-cases (says speech Key.for)) [
  | inr silent ↦ rw silent (_, refl, inl refl)
  | inl heard ↦
      let (name, e) = given_name_total (split_after (get_text Key.for) speech) (
        unfold split_after in
        (split_after_loop-contains (get_text Key.for) speech (unfold get_text in (omega arith))
          heard)) in
      rw (heard, e) (_, refl, inl refl)
]

color_params-Yields :
    (intent : Text) (o : Option Text) → Yields intent (some (color_params intent o))
color_params-Yields intent none = (_, refl, inl refl)
color_params-Yields intent (some c) = (_, refl, inr refl)

params_of-Yields :
    (words2num : Text → Text) (w : LastWeather) (b : Branch) (intent speech : Text)
    → Yields intent (params_of words2num w b intent speech)
unfolding params_of
params_of-Yields words2num w photo intent speech = (_, refl, inl refl)
params_of-Yields words2num w color intent speech = color_params-Yields intent (eye_color speech)
params_of-Yields words2num w weather intent speech = (_, refl, inl refl)
params_of-Yields words2num w volume intent speech = (_, refl, inl refl)
params_of-Yields words2num w timer intent speech = (_, refl, inl refl)
params_of-Yields words2num w stop intent speech = (_, refl, inl refl)
params_of-Yields words2num w play_message intent speech = message_params-Yields intent speech
params_of-Yields words2num w record_message intent speech = message_params-Yields intent speech
params_of-Yields words2num w plain intent speech = (_, refl, inl refl)

-- For every intent and every speech parameters come out, with no index out of range, and the intent
-- is the one that was asked about, or that of a specific eye colour.
pub param_checker-Yields :
    (words2num : Text → Text) (w : LastWeather) (intent speech : Text)
    → Yields intent (param_checker words2num w intent speech)
unfolding param_checker
param_checker-Yields words2num w intent speech =
    params_of-Yields words2num w (branch_of intent) intent speech
