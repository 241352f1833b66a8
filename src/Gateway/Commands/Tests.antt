-- ===== src/Gateway/Commands/Tests.antt =====
-- Commands and blocks at concrete values.
use vic_cloudless.Prelude.{◌≡◌, refl, Bool, true, List, [], ◌∷◌, arith}
use vic_cloudless.Prelude.Text.{codes}
use vic_cloudless.Clad.Wire.{Bytes}
use vic_cloudless.Clad.External.Messages.{MessageExternalToRobot, message_external_to_robot_codec}
use vic_cloudless.Gateway.Blocks.{
  write_block, Block, block, ended, process_messages, process_messages-Carries, message, too_small,
  unreadable, closed,
}
use vic_cloudless.Gateway.Commands.{
  Command, Definition, custom_cube, move_head_request, app_intent_request,
  define_custom_object_request, object_marker, object_type,
}

abbrev taken : Bytes → Bool
taken b = true

abbrev cube : Definition
cube = custom_cube (record { marker = 3; size_mm = 7; marker_width_mm = 5; marker_height_mm = 5 })

abbrev some_commands : List Command
some_commands =
    move_head_request 1000
    ∷ app_intent_request (codes "intent_clock_settimer") (codes "30")
    ∷ define_custom_object_request 1 true cube
    ∷ []

-- Two blocks with a message, with an empty one and one with an unknown tag between them.
abbrev turn : MessageExternalToRobot
turn = MessageExternalToRobot.move_lift (record { speed_rad_per_sec = 258 })

abbrev turn_bytes : Bytes
turn_bytes = 5 ∷ 0 ∷ 4 ∷ 2 ∷ 1 ∷ 0 ∷ 0 ∷ []

abbrev blocks : List Block
blocks = block turn_bytes ∷ block [] ∷ block (1 ∷ 0 ∷ 77 ∷ []) ∷ block turn_bytes ∷ ended ∷ []

process_messages-Carries_example :
    process_messages message_external_to_robot_codec blocks ≡ turn ∷ turn ∷ []
unfolding message_external_to_robot_codec write_block
process_messages-Carries_example = process_messages-Carries message_external_to_robot_codec (
    message turn turn_bytes refl refl (
      too_small [] (omega arith)
        (unreadable 1 0 (77 ∷ []) refl (message turn turn_bytes refl refl (closed [])))))

type_test : object_type 1 ≡ 14
type_test = refl

marker_test : object_marker 0 ≡ 65535
marker_test = refl
