-- ===== src/Gateway/NavMap/Reset.antt =====
-- What the engine is told of the frequency of the map.
use vic_cloudless.Prelude.{ℕ, ◌≡◌, List, [], ◌∷◌, ◌++◌}
use vic_cloudless.Gateway.NavMap.{
  NavMap, Act, set_frequency, send, Standing, waiting, not_written, off,
}

-- The frequencies that the engine is told.
abbrev pub frequencies : List Act → List Act
frequencies [] = []
frequencies (set_frequency n ∷ acts) = set_frequency n ∷ frequencies acts
frequencies (send m ∷ acts) = frequencies acts

-- The loop tells nothing while it runs, and turns the broadcast off as the last that it does.
data Closes : List Act × Standing → Type 0 where
  runs : (acts : List Act) → frequencies acts ≡ [] → Closes (acts, waiting)
  closes : (acts : List Act) (s : Standing) → frequencies acts ≡ [] → Closes (acts ++ off ∷ [], s)

-- The engine is told the frequency of the request first, and after it nothing while the feed waits;
-- where the feed has ended for any other reason than that this could not be written, it is told as
-- the last to stop.
pub data Told (frequency : ℕ) : List Act × Standing → Type 0 where
  on :
      (acts : List Act)
      → frequencies acts ≡ []
      → Told frequency (set_frequency frequency ∷ acts, waiting)
  stopped :
      (acts : List Act) (s : Standing)
      → frequencies acts ≡ []
      → Told frequency (set_frequency frequency ∷ (acts ++ off ∷ []), s)
  refused : Told frequency (set_frequency frequency ∷ [], not_written)
