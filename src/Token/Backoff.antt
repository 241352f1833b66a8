-- ===== src/Token/Backoff.antt =====
-- The retries after PermissionDenied: internal/token/errorhandler.go. The exponential backoff of the
-- library decides when an attempt is made and when the time is up; here both are events.
use vic_cloudless.Prelude.{
  All, if◌then◌else◌, ℕ, suc, ◌+◌, ◌≡◌, refl, ap, ◌≢◌, Bool, true, false, not, ◌||◌, List, [], ◌∷◌,
  ◌++◌, arith,
}

-- `backoff` is set, and `denied`.
pub record State : Type 0 where
  pub running : Bool
  pub denied : Bool

abbrev pub idle : State
idle = record { running = false; denied = false }

-- How an attempt ends.
pub data Attempt : Type 0 where
  refreshed permission_denied failed : Attempt

-- An error in a service, which may be PermissionDenied; the next attempt; the end of the time; and a
-- request that succeeded.
pub data Event : Type 0 where
  on_error : Bool → Event
  attempt : Attempt → Event
  time_up : Event
  on_success : Event

-- A backoff is started, a request for a new token is made, a backoff ends.
pub data Act : Type 0 where
  starts requests ends : Act

abbrev start_unless : State → Bool → State × List Act
start_unless s stopped = if stopped then (s, []) else (record s { running = true }, starts ∷ [])

-- `retry`, and `reset` once `backoff.Retry` returns.
abbrev after_attempt : State → Attempt → State × List Act
after_attempt s refreshed = (record s { running = false }, requests ∷ ends ∷ [])
after_attempt s permission_denied =
    (record { running = false; denied = true }, requests ∷ ends ∷ [])
after_attempt s failed = (s, requests ∷ [])

unfoldable pub step : State → Event → State × List Act
step s (on_error is_denied) = start_unless s (not is_denied || s.running || s.denied)
step s (attempt a) = if s.running then after_attempt s a else (s, [])
step s time_up = if s.running then (record s { running = false }, ends ∷ []) else (s, [])
step s on_success = (record s { denied = false }, [])

unfoldable pub run : State → List Event → State × List Act
run s [] = (s, [])
run s (e ∷ es) = let (s', acts) = step s e in let (s'', rest) = run s' es in (s'', acts ++ rest)

abbrev pub starts_of : List Act → ℕ
starts_of [] = 0
starts_of (starts ∷ more) = suc (starts_of more)
starts_of (requests ∷ more) = starts_of more
starts_of (ends ∷ more) = starts_of more

abbrev pub ends_of : List Act → ℕ
ends_of [] = 0
ends_of (starts ∷ more) = ends_of more
ends_of (requests ∷ more) = ends_of more
ends_of (ends ∷ more) = suc (ends_of more)

abbrev pub now_running : State → ℕ
now_running s = if s.running then 1 else 0

starts_of-append : (xs ys : List Act) → starts_of (xs ++ ys) ≡ starts_of xs + starts_of ys
starts_of-append [] ys = omega arith
starts_of-append (starts ∷ xs) ys = omega (arith, starts_of-append xs ys)
starts_of-append (requests ∷ xs) ys = omega (arith, starts_of-append xs ys)
starts_of-append (ends ∷ xs) ys = omega (arith, starts_of-append xs ys)

ends_of-append : (xs ys : List Act) → ends_of (xs ++ ys) ≡ ends_of xs + ends_of ys
ends_of-append [] ys = omega arith
ends_of-append (starts ∷ xs) ys = omega (arith, ends_of-append xs ys)
ends_of-append (requests ∷ xs) ys = omega (arith, ends_of-append xs ys)
ends_of-append (ends ∷ xs) ys = omega (arith, ends_of-append xs ys)

abbrev Balanced : State → State × List Act → Type 0
Balanced s r = now_running s + starts_of r.1 ≡ ends_of r.1 + now_running r.0

step-Balanced : (s : State) (e : Event) → Balanced s (step s e)
unfolding step
step-Balanced s (on_error true) = ground arith
step-Balanced s (on_error false) = ground arith
step-Balanced s (attempt refreshed) = ground arith
step-Balanced s (attempt permission_denied) = ground arith
step-Balanced s (attempt failed) = ground arith
step-Balanced s time_up = ground arith
step-Balanced s on_success = ground arith

run-Balanced : (s : State) (es : List Event) → Balanced s (run s es)
unfolding run
run-Balanced s [] = omega arith
run-Balanced s (e ∷ es) = omega (
  arith,
  step-Balanced s e,
  run-Balanced (step s e).0 es,
  starts_of-append (step s e).1 (run (step s e).0 es).1,
  ends_of-append (step s e).1 (run (step s e).0 es).1,
)

-- From the start, at most one backoff runs: every one that was started has ended, except the one that
-- is running.
pub run-starts :
    (es : List Event)
    → starts_of (run idle es).1 ≡ ends_of (run idle es).1 + now_running (run idle es).0
run-starts es = omega (arith, run-Balanced idle es)

abbrev pub NoSuccess : List Event → Type 0
NoSuccess es = All (λ e. e ≢ on_success) es

step-denied :
    (s : State) (e : Event)
    → s.running ≡ false
    → s.denied ≡ true
    → e ≢ on_success
    → step s e ≡ (s, [])
unfolding step
step-denied s (on_error true) i d n = rw (i, d) refl
step-denied s (on_error false) i d n = refl
step-denied s (attempt a) i d n = rw i refl
step-denied s time_up i d n = rw i refl
step-denied s on_success i d n = absurd (n refl)

-- After a retry was denied, no further request is made and no backoff is started, whatever errors
-- come, until another request succeeds.
pub run-denied :
    (s : State) (es : List Event)
    → s.running ≡ true
    → NoSuccess es
    → (run s (attempt permission_denied ∷ es)).1 ≡ requests ∷ ends ∷ []
unfolding run step
run-denied s es going n = rw going (
    ap (λ more. requests ∷ ends ∷ more)
      (quiet (record { running = false; denied = true }) es refl refl n))
  where
    quiet :
        (s' : State) (es' : List Event)
        → s'.running ≡ false
        → s'.denied ≡ true
        → NoSuccess es'
        → (run s' es').1 ≡ []
    quiet s' [] i d n' = refl
    quiet s' (e ∷ es') i d n' = rw (step-denied s' e i d n'.0) (quiet s' es' i d n'.1)
