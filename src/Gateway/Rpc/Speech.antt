-- ===== src/Gateway/Rpc/Speech.antt =====
-- Calls that look at what the engine answers: `SayText` and `CheckCloudConnection` of
-- cloud/message_handler.go.
use vic_cloudless.Prelude.{
  ◌==◌, All, if◌then◌else◌, ℕ, ◌≡◌, refl, Bool, true, false, Option, none, some, List, [], ◌∷◌,
}

-- What the channel of `SayText` gives: the state of an utterance, a number, or that it is closed.
pub data Arrival : Type 0 where
  state : ℕ → Arrival
  channel_closed : Arrival

pub data Said : Type 0 where
  said not_written failed_to_retrieve failed_to_say waiting : Said

-- `SayTextResponse_FINISHED`; `SayTextResponse_INVALID` is 0.
abbrev pub finished : ℕ
finished = 4

-- The loop of `SayText`.
unfoldable pub say_loop : List Arrival → Said
say_loop [] = waiting
say_loop (channel_closed ∷ later) = failed_to_retrieve
say_loop (state s ∷ later) =
    let rest = say_loop later in
    if s == finished then said else if s == 0 then failed_to_say else rest

-- `SayText`, of whether its request is written.
unfoldable pub say_text : Bool → List Arrival → Said
unfolding say_loop
say_text written arrivals = if written then say_loop arrivals else not_written

-- The states of an utterance that goes on.
abbrev pub GoesOn : ℕ → Type 0
GoesOn s = (s == finished ≡ false) × (s == 0 ≡ false)

abbrev pub states : List ℕ → List Arrival → List Arrival
states [] later = later
states (s ∷ ss) later = state s ∷ states ss later

-- While the utterance goes on the call waits, and what comes then decides it: the end, the invalid
-- state, or that the channel is closed.
pub say_text-states :
    (ss : List ℕ) (later : List Arrival)
    → All GoesOn ss
    → (say_text true (states ss []) ≡ waiting)
      × (say_text true (states ss (state finished ∷ later)) ≡ said)
      × (say_text true (states ss (state 0 ∷ later)) ≡ failed_to_say)
      × (say_text true (states ss (channel_closed ∷ later)) ≡ failed_to_retrieve)
unfolding say_text say_loop
say_text-states [] later h = (refl, refl, refl, refl)
say_text-states (s ∷ ss) later ((going, valid), h) = rw (going, valid) (say_text-states ss later h)

-- What a call of `CheckCloudConnection` meets: whether the limiter allows it, whether its request is
-- written, and what the engine answers, if its channel is not closed.
pub record Check : Type 0 where
  pub allowed : Bool
  pub written : Bool
  pub reply : Option ℕ

pub data Checked : Type 0 where
  checked : ℕ → Checked
  unknown not_written failed_to_retrieve : Checked

abbrev pub last_checked : Option ℕ → Checked
last_checked none = unknown
last_checked (some r) = checked r

abbrev pub replied : Option ℕ → Option ℕ → Option ℕ × Checked
replied last none = (last, failed_to_retrieve)
replied last (some r) = (some r, checked r)

-- `CheckCloudConnection`, with `lastResult`; `none` stands also for the unknown result that a denied
-- call leaves there, which is told in the same way.
unfoldable pub check_cloud_connection : Option ℕ → Check → Option ℕ × Checked
check_cloud_connection last c =
    if c.allowed
    then if c.written then replied last c.reply else (last, Checked.not_written)
    else (last, last_checked last)
