-- ===== src/Gateway/Events/Filtered.antt =====
-- The events of the engine, as a stream with filters takes them.
use vic_cloudless.Prelude.{
  ℕ, ◌+◌, ◌≡◌, refl, Bool, true, false, Option, none, some, List, [], ◌∷◌, ◌++◌,
}
use vic_cloudless.Prelude.Text.{Text, codes}
use vic_cloudless.Clad.Robot.Messages.{MessageRobotToExternal}
use vic_cloudless.Clad.Robot.Events
use vic_cloudless.Gateway.Events.{
  ProtoEvent, robot_observed_face, robot_changed_observed_face_id, object_event, nil_event, Passed,
  to_event_stream, to_listeners, pass_on,
}
use vic_cloudless.Gateway.Connections.{
  filtered, event_reply, Event, Signal, happened, Reply, connection_response, Standing, panic,
  event_stream, stream_loop, check_filters,
}

-- The name of an event's field in its message.
abbrev pub field_name : ProtoEvent → Option Text
field_name (robot_observed_face f) = some (codes "robot_observed_face")
field_name (robot_changed_observed_face_id i) = some (codes "robot_changed_observed_face_id")
field_name (object_event o) = some (codes "object_event")
field_name nil_event = none

module _ (number : ProtoEvent → ℕ)  -- a number for what an event says
  where
    abbrev pub signal : Passed → List Signal → List Signal
    signal (to_event_stream e) rest =
        happened (record { field_name = field_name e; body = number e }) ∷ rest
    signal (to_listeners m) rest = rest

    -- What a stream finds of messages of the engine.
    unfoldable pub signals : List MessageRobotToExternal → List Signal
    unfolding pass_on
    signals [] = []
    signals (m ∷ ms) = signal (pass_on m) (signals ms)

module _ (number : ProtoEvent → ℕ) (sends : Reply → ℕ → Bool) (white : List Text)
    (black : Option (List Text)) (ok : (r : Reply) (i : ℕ) → sends r i ≡ true) where
  abbrev Panics : List Reply × Standing → Type 0
  Panics r = r.1 ≡ panic

  filtered-Panics :
      (e : Event) (i : ℕ) (o : Option Bool) (skipped rest : List Reply × Standing)
      → Panics skipped
      → Panics rest
      → Panics (filtered sends (some white) black e i o skipped rest)
  filtered-Panics e i none skipped rest hs hr = refl
  filtered-Panics e i (some true) skipped rest hs hr = rw (ok (event_reply e) i) hr
  filtered-Panics e i (some false) skipped rest hs hr = hs

  signal-Panics :
      (p : Passed) (rest : List Signal)
      → ((i : ℕ) → Panics (stream_loop sends (some white) black i rest))
      → (i : ℕ) → Panics (stream_loop sends (some white) black i (signal number p rest))
  unfolding stream_loop
  signal-Panics (to_listeners m) rest h i = h i
  signal-Panics (to_event_stream e) rest h i =
      filtered-Panics (record { field_name = field_name e; body = number e }) i _ _ _ (h i)
        (h (i + 1))

  loop-Panics :
      (before later : List MessageRobotToExternal) (e : Events.Event) (i : ℕ)
      → Panics (
          stream_loop sends
            (some white)
            black
            i
            (signals number (before ++ MessageRobotToExternal.event e ∷ later)))
  unfolding signals stream_loop check_filters pass_on
  loop-Panics [] later e i = refl
  loop-Panics (m ∷ before) later e i =
      signal-Panics (pass_on m) (signals number (before ++ MessageRobotToExternal.event e ∷ later))
        (loop-Panics before later e) i

  -- A message `Event` of the engine makes every stream with a list of allowed events panic, whatever
  -- the lists hold and whatever came before, where the sends succeed: it becomes an event without a
  -- type.
  pub event_stream-signals :
      (primary : Bool) (before later : List MessageRobotToExternal) (e : Events.Event)
      → (event_stream sends
          (some white)
          black
          primary
          (signals number (before ++ MessageRobotToExternal.event e ∷ later))).1
        ≡ panic
  unfolding event_stream
  event_stream-signals primary before later e =
      rw (ok (connection_response primary) 0) (loop-Panics before later e 1)
