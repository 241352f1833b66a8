-- ===== src/Gateway/Events/Tests.antt =====
-- Events at concrete values.
use vic_cloudless.Prelude.{ℕ, ◌≡◌, refl, Bool, true, none, some, [], ◌∷◌, ◌++◌}
use vic_cloudless.Prelude.Text.{codes}
use vic_cloudless.Clad.Robot.Events
use vic_cloudless.Clad.Robot.Messages.{MessageRobotToExternal}
use vic_cloudless.Gateway.Connections.{Reply, panic, event_stream}
use vic_cloudless.Gateway.Events.{
  ProtoEvent, ObjectEvent, object_event, to_event_stream, pass_on, expression_to_proto,
  up_axis_to_proto,
}
use vic_cloudless.Gateway.Events.Filtered.{signals, event_stream-signals}

abbrev always : Reply → ℕ → Bool
always r i = true

abbrev no_number : ProtoEvent → ℕ
no_number e = 0

abbrev tapped : MessageRobotToExternal
tapped = MessageRobotToExternal.object_tapped (record { timestamp = 8; object_id = 3 })

event_stream-signals_example :
    (event_stream always (some (codes "object_event" ∷ [])) none true (
      signals no_number
        (tapped ∷ [] ++ MessageRobotToExternal.event Events.Event.replace_me ∷ []))).1
    ≡ panic
event_stream-signals_example =
    event_stream-signals no_number always (codes "object_event" ∷ []) none (λ r i. refl) true
      (tapped ∷ []) [] Events.Event.replace_me

tapped_test :
    pass_on tapped
    ≡ to_event_stream
        (object_event (ObjectEvent.object_tapped (record { timestamp = 8; object_id = 3 })))
unfolding pass_on
tapped_test = refl

-- The unknown expression, -1 in 8 bits, is 0; the unknown axis too.
unknown_test : (expression_to_proto 255 ≡ 0) × (up_axis_to_proto 7 ≡ 0)
unknown_test = (refl, refl)
