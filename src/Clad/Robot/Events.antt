-- ===== src/Clad/Robot/Events.antt =====
-- The union `Event` of internal/clad/gateway/messageRobotToExternal.go.
use vic_cloudless.Prelude.{ℕ, refl, List, [], ◌∷◌}
use vic_cloudless.Clad.Fields.{void}
use vic_cloudless.Clad.Union.{Agrees, Decoder, View, announced, reads, union}
use vic_cloudless.Clad.Wire.{Codec}

pub data Event : Type 0 where
  replace_me : Event
  invalid : Event

-- The tag and the structure of a value.
abbrev pub event_view : Event → View Event
event_view replace_me = announced 0 void (λ u. replace_me) tt
event_view invalid = announced 255 void (λ u. invalid) tt

-- `unpackStruct`, and the tag with no structure.
abbrev pub event_cases : List (ℕ × Decoder Event)
event_cases = (0, reads void (λ u. replace_me)) ∷ (255, reads void (λ u. invalid)) ∷ []

pub event-Agrees : (m : Event) → Agrees event_cases m (event_view m)
event-Agrees replace_me = (refl, refl)
event-Agrees invalid = (refl, refl)

unfoldable pub event_codec : Codec Event
unfolding union void
event_codec = union event_view event_cases event-Agrees
