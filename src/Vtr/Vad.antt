-- ===== src/Vtr/Vad.antt =====
-- The detection of the end of speech: internal/voice/vtr/vad.go. The voice detector of go-webrtcvad
-- is a parameter: a new one may fail to be made (the source then ends the process, `none`), and each
-- frame is judged active or not, or is an error.
use mathlib.Core.Option
use vic_cloudless.Prelude.{
  ◌≤◌, ◌⊎◌, ◌↔◌, ℕ, zero, suc, ◌+◌, ◌*◌, ◌<◌, ◌≡◌, refl, ap, ◌∙◌, inl, inr, Bool, true, false, ◌&&◌,
  Option, none, some, List, [], ◌∷◌, ◌++◌, arith, length, take, drop, All, concat, length-take,
  length-drop, take-append-drop, append_assoc, ltb, leb, leb→le, if◌then◌else◌, Bool-cases,
}

abbrev pub Bytes : Type 0
Bytes = List ℕ

abbrev frame_bytes : ℕ
frame_bytes = 320

-- `SplitVAD`, on fuel: a round takes 320 bytes off, so that the length is fuel enough.
split_loop : ℕ → Bytes → List Bytes
split_loop zero buf = []
split_loop (suc fuel) buf =
    let rest = take frame_bytes buf ∷ split_loop fuel (drop frame_bytes buf) in
    if leb frame_bytes (length buf) then rest else []

unfoldable pub split_vad : Bytes → List Bytes
unfolding split_loop
split_vad buf = split_loop (length buf) buf

-- What `SplitVAD` promises: whole frames, and less than a frame left over.
pub record Splits (buf : Bytes) (frames : List Bytes) : Type 0 where
  pub rest : Bytes
  pub joined : concat frames ++ rest ≡ buf
  pub whole : All (λ f. length f ≡ 320) frames
  pub short : length rest < 320

split_loop-Splits :
    (fuel : ℕ) (buf : Bytes) → length buf < fuel * 320 + 320 → Splits buf (split_loop fuel buf)
unfolding split_loop
split_loop-Splits zero buf h = record { rest = buf; joined = refl; whole = tt; short = omega arith }
split_loop-Splits (suc fuel) buf h = elim (Bool-cases (leb frame_bytes (length buf))) [
  | inr few ↦ rw few (record { rest = buf; joined = refl; whole = tt; short = ground arith })
  | inl many ↦
      let le = leb→le frame_bytes (length buf) many in
      let s =
        split_loop-Splits fuel (drop frame_bytes buf)
          (omega (arith, length-drop frame_bytes buf)) in
      rw many (record {
        rest = s.rest;
        joined =
            append_assoc (take frame_bytes buf) _ s.rest
            ∙ ap (◌++◌ (take frame_bytes buf)) s.joined
            ∙ take-append-drop frame_bytes buf;
        whole = (omega (arith, length-take frame_bytes buf), s.whole);
        short = s.short;
      })
]

-- The frames are the buffer cut into pieces of 320 bytes, in order, and what is left over is less
-- than a frame; the loop ends within the fuel that it is given.
pub split_vad-Splits : (buf : Bytes) → Splits buf (split_vad buf)
unfolding split_vad
split_vad-Splits buf = split_loop-Splits (length buf) buf (omega arith)

-- `InactiveFrames`, `ActiveFrames` and `OverallFrames`.
pub record Counters : Type 0 where
  pub inactive : ℕ
  pub active : ℕ
  pub overall : ℕ

abbrev pub zeros : Counters
zeros = record { inactive = 0; active = 0; overall = 0 }

abbrev inactive_max : ℕ
inactive_max = 10

abbrev active_min : ℕ
active_min = 18

abbrev count_frame : Counters → Bool → Counters
count_frame c true = record { inactive = 0; active = c.active + 1; overall = c.overall + 1 }
count_frame c false = record c { inactive = c.inactive + 1; overall = c.overall + 1 }

abbrev ended : Counters → Bool
ended c = leb inactive_max c.inactive && ltb active_min c.active

-- `stop` and `isActive`.
pub record Verdict : Type 0 where
  pub stop : Bool
  pub is_active : Bool

abbrev pub verdict : Bool → Bool → Verdict
verdict s a = record { stop = s; is_active = a }

-- The frames heard since the last reset, the newest first: how long it has been quiet, and how many
-- frames were voiced.
abbrev pub quiet : List Bool → ℕ
quiet [] = 0
quiet (true ∷ h) = 0
quiet (false ∷ h) = suc (quiet h)

abbrev pub voiced : List Bool → ℕ
voiced [] = 0
voiced (true ∷ h) = suc (voiced h)
voiced (false ∷ h) = voiced h

-- Speech is over when ten frames of silence follow more than eighteen voiced ones.
abbrev pub IsOver : List Bool → Type 0
IsOver h = (10 ≤ quiet h) × (18 < voiced h)

-- Some frame of the chunk brings the end of speech.
pub data Reaches : List Bool → List Bool → Type 0 where
  now : {h : List Bool} {b : Bool} {bs : List Bool} → IsOver (b ∷ h) → Reaches h (b ∷ bs)
  later : {h : List Bool} {b : Bool} {bs : List Bool} → Reaches (b ∷ h) bs → Reaches h (b ∷ bs)

abbrev pub heard : List Bool → List Bool → List Bool
heard h [] = h
heard h (b ∷ bs) = heard (b ∷ h) bs

-- The counters say what was heard.
abbrev pub Tracks : List Bool → Counters → Type 0
Tracks h c = (c.inactive ≡ quiet h) × (c.active ≡ voiced h)

count_frame-Tracks :
    (h : List Bool) (c : Counters) (b : Bool) → Tracks h c → Tracks (b ∷ h) (count_frame c b)
count_frame-Tracks h c true t = ground arith
count_frame-Tracks h c false t = ground arith

ended_iff : (h : List Bool) (c : Counters) → Tracks h c → (ended c ≡ true) ↔ IsOver h
ended_iff h c t = (λ e. ground arith, λ o. ground arith)

module _ {V : Type 0} (fresh : Option V) (process : V → Bytes → Option (Bool × V)) where
  -- The state: the counters, and the detector where there is one (`VADExists`).
  abbrev pub State : Type 0
  State = Counters × Option V

  -- The body of the loop, and the loop itself.
  abbrev next_frame :
      Counters → (Counters → V → State × Verdict) → Option (Bool × V) → State × Verdict
  next_frame c go none = ((zeros, none), verdict true false)
  next_frame c go (some (a, v)) =
      if ended (count_frame c a) then ((zeros, none), verdict true true) else go (count_frame c a) v

  frames_loop : Counters → V → List Bytes → State × Verdict
  frames_loop c v [] = ((c, some v), verdict false (leb 5 c.active))
  frames_loop c v (f ∷ fs) = next_frame c (λ c' v'. frames_loop c' v' fs) (process v f)

  -- `DetectEndOfSpeech`; `none` where the detector cannot be made and the process ends.
  unfoldable pub detect_end_of_speech : State → Bytes → Option (State × Verdict)
  unfolding frames_loop split_vad
  detect_end_of_speech (c, some v) chunk = some (frames_loop c v (split_vad chunk))
  detect_end_of_speech (c, none) chunk = Option.map (λ v. frames_loop c v (split_vad chunk)) fresh

  -- How a sequence of frames is judged, one after another: the answers, and whether one failed.
  abbrev next_judged : (V → List Bool × Bool) → Option (Bool × V) → List Bool × Bool
  next_judged go none = ([], true)
  next_judged go (some (a, v)) = (a ∷ (go v).0, (go v).1)

  abbrev pub judge : V → List Bytes → List Bool × Bool
  judge v [] = ([], false)
  judge v (f ∷ fs) = next_judged (λ v'. judge v' fs) (process v f)

  -- Either the end of speech was reached, and all is reset, or it was not, and the counters go on.
  abbrev pub Outcome : List Bool → List Bool → State × Verdict → Type 0
  Outcome h bs r =
      (Reaches h bs × (r ≡ ((zeros, none), verdict true true)))
      ⊎ ((¬ Reaches h bs)
          × Tracks (heard h bs) r.0.0
          × (r.1.stop ≡ false)
          × ((r.1.is_active ≡ true) ↔ (5 ≤ voiced (heard h bs))))

  Outcome-later :
      (h bs : List Bool) (b : Bool) (r : State × Verdict)
      → ¬ IsOver (b ∷ h)
      → Outcome (b ∷ h) bs r
      → Outcome h (b ∷ bs) r
  Outcome-later h bs b r n (inl (d, e)) = inl (later d, e)
  Outcome-later h bs b r n (inr (nd, t, s, a)) = inr (not_reached, t, s, a)
    where
      not_reached : ¬ Reaches h (b ∷ bs)
      not_reached (now o) = n o
      not_reached (later d) = nd d

  next_frame-Outcome :
      (h : List Bool) (c : Counters) (o : Option (Bool × V)) (go : Counters → V → State × Verdict)
      (judged : V → List Bool × Bool)
      → ((h' : List Bool) (c' : Counters) (v' : V)
          → Tracks h' c'
          → (judged v').1 ≡ false
          → Outcome h' (judged v').0 (go c' v'))
      → Tracks h c
      → (next_judged judged o).1 ≡ false
      → Outcome h (next_judged judged o).0 (next_frame c go o)
  next_frame-Outcome h c none go judged ih t ok = absurd (cc ok)
  next_frame-Outcome h c (some (a, v)) go judged ih t ok =
      let t' = count_frame-Tracks h c a t in
      let iff = ended_iff (a ∷ h) (count_frame c a) t' in
      elim (Bool-cases (ended (count_frame c a))) [
        | inl over ↦ rw over (inl (now (iff.0 over), refl))
        | inr on ↦
            rw on (Outcome-later h _ a _ (λ o. cc (iff.1 o)) (ih (a ∷ h) (count_frame c a) v t' ok))
      ]

  frames_loop-Outcome :
      (h : List Bool) (c : Counters) (v : V) (fs : List Bytes)
      → Tracks h c
      → (judge v fs).1 ≡ false
      → Outcome h (judge v fs).0 (frames_loop c v fs)
  unfolding frames_loop
  frames_loop-Outcome h c v [] t ok =
      inr (λ d. elim d [ ], t, refl, (λ e. ground arith, λ l. ground arith))
  frames_loop-Outcome h c v (f ∷ fs) t ok =
      next_frame-Outcome h c (process v f) _ _ (λ h' c' v'. frames_loop-Outcome h' c' v' fs) t ok

  -- Where the counters say what was heard before and no frame of the chunk is an error, the call stops
  -- exactly if some frame of the chunk ends the speech, and then everything is reset. If it does not
  -- stop, the counters say what has been heard, and speech is active from five voiced frames on.
  pub detect_end_of_speech-Outcome :
      (h : List Bool) (c : Counters) (v : V) (chunk : Bytes)
      → Tracks h c
      → (judge v (split_vad chunk)).1 ≡ false
      → (r : State × Verdict) × (detect_end_of_speech (c, some v) chunk ≡ some r)
        × Outcome h (judge v (split_vad chunk)).0 r
  unfolding detect_end_of_speech
  detect_end_of_speech-Outcome h c v chunk t ok =
      (frames_loop c v (split_vad chunk), refl, frames_loop-Outcome h c v (split_vad chunk) t ok)
