-- ===== src/Clad/Robot/Messages.antt =====
-- What the gateway reads from the engine: the union `MessageRobotToExternal`.
use vic_cloudless.Prelude.{ℕ, refl, List, [], ◌∷◌}
use vic_cloudless.Clad.Fields.{void}
use vic_cloudless.Clad.Robot.Actions.{
  MemoryMapMessage, MemoryMapMessageBegin, UiDeviceConnected, memory_map_message_begin_codec,
  memory_map_message_codec, ui_device_connected_codec,
}
use vic_cloudless.Clad.Robot.Completed.{RobotCompletedAction, robot_completed_action_codec}
use vic_cloudless.Clad.Robot.Events.{Event, event_codec}
use vic_cloudless.Clad.Robot.Faces.{
  EnrolledNamesResponse, RobotChangedObservedFaceId, RobotObservedFace,
  enrolled_names_response_codec, robot_changed_observed_face_id_codec, robot_observed_face_codec,
}
use vic_cloudless.Clad.Robot.Objects.{
  CreatedFixedCustomObject, DefinedCustomObject, ObjectAccel, ObjectAvailable,
  ObjectConnectionState, ObjectMoved, ObjectStoppedMoving, ObjectTapped, ObjectUpAxisChanged,
  RobotObservedObject, created_fixed_custom_object_codec, defined_custom_object_codec,
  object_accel_codec, object_available_codec, object_connection_state_codec, object_moved_codec,
  object_stopped_moving_codec, object_tapped_codec, object_up_axis_changed_codec,
  robot_observed_object_codec,
}
use vic_cloudless.Clad.Union.{Agrees, Decoder, View, announced, reads, union}
use vic_cloudless.Clad.Wire.{Codec}

pub data MessageRobotToExternal : Type 0 where
  ui_device_connected : UiDeviceConnected → MessageRobotToExternal
  robot_completed_action : RobotCompletedAction → MessageRobotToExternal
  event : Event → MessageRobotToExternal
  enrolled_names_response : EnrolledNamesResponse → MessageRobotToExternal
  robot_observed_face : RobotObservedFace → MessageRobotToExternal
  robot_changed_observed_face_id : RobotChangedObservedFaceId → MessageRobotToExternal
  object_connection_state : ObjectConnectionState → MessageRobotToExternal
  object_moved : ObjectMoved → MessageRobotToExternal
  object_stopped_moving : ObjectStoppedMoving → MessageRobotToExternal
  object_up_axis_changed : ObjectUpAxisChanged → MessageRobotToExternal
  object_tapped : ObjectTapped → MessageRobotToExternal
  object_accel : ObjectAccel → MessageRobotToExternal
  robot_observed_object : RobotObservedObject → MessageRobotToExternal
  object_available : ObjectAvailable → MessageRobotToExternal
  robot_deleted_fixed_custom_objects : MessageRobotToExternal
  robot_deleted_custom_marker_objects : MessageRobotToExternal
  created_fixed_custom_object : CreatedFixedCustomObject → MessageRobotToExternal
  defined_custom_object : DefinedCustomObject → MessageRobotToExternal
  memory_map_message_begin : MemoryMapMessageBegin → MessageRobotToExternal
  memory_map_message : MemoryMapMessage → MessageRobotToExternal
  memory_map_message_end : MessageRobotToExternal
  invalid : MessageRobotToExternal

-- The tag and the structure of a value.
abbrev pub message_robot_to_external_view : MessageRobotToExternal → View MessageRobotToExternal
message_robot_to_external_view (ui_device_connected x) =
    announced 0 ui_device_connected_codec ui_device_connected x
message_robot_to_external_view (robot_completed_action x) =
    announced 1 robot_completed_action_codec robot_completed_action x
message_robot_to_external_view (event x) = announced 2 event_codec event x
message_robot_to_external_view (enrolled_names_response x) =
    announced 5 enrolled_names_response_codec enrolled_names_response x
message_robot_to_external_view (robot_observed_face x) =
    announced 6 robot_observed_face_codec robot_observed_face x
message_robot_to_external_view (robot_changed_observed_face_id x) =
    announced 7 robot_changed_observed_face_id_codec robot_changed_observed_face_id x
message_robot_to_external_view (object_connection_state x) =
    announced 10 object_connection_state_codec object_connection_state x
message_robot_to_external_view (object_moved x) = announced 11 object_moved_codec object_moved x
message_robot_to_external_view (object_stopped_moving x) =
    announced 12 object_stopped_moving_codec object_stopped_moving x
message_robot_to_external_view (object_up_axis_changed x) =
    announced 13 object_up_axis_changed_codec object_up_axis_changed x
message_robot_to_external_view (object_tapped x) = announced 14 object_tapped_codec object_tapped x
message_robot_to_external_view (object_accel x) = announced 15 object_accel_codec object_accel x
message_robot_to_external_view (robot_observed_object x) =
    announced 16 robot_observed_object_codec robot_observed_object x
message_robot_to_external_view (object_available x) =
    announced 17 object_available_codec object_available x
message_robot_to_external_view robot_deleted_fixed_custom_objects =
    announced 18 void (λ u. robot_deleted_fixed_custom_objects) tt
message_robot_to_external_view robot_deleted_custom_marker_objects =
    announced 19 void (λ u. robot_deleted_custom_marker_objects) tt
message_robot_to_external_view (created_fixed_custom_object x) =
    announced 20 created_fixed_custom_object_codec created_fixed_custom_object x
message_robot_to_external_view (defined_custom_object x) =
    announced 21 defined_custom_object_codec defined_custom_object x
message_robot_to_external_view (memory_map_message_begin x) =
    announced 22 memory_map_message_begin_codec memory_map_message_begin x
message_robot_to_external_view (memory_map_message x) =
    announced 23 memory_map_message_codec memory_map_message x
message_robot_to_external_view memory_map_message_end =
    announced 24 void (λ u. memory_map_message_end) tt
message_robot_to_external_view invalid = announced 255 void (λ u. invalid) tt

-- `unpackStruct`, and the tag with no structure.
abbrev pub message_robot_to_external_cases : List (ℕ × Decoder MessageRobotToExternal)
message_robot_to_external_cases =
    (0, reads ui_device_connected_codec ui_device_connected)
    ∷ (1, reads robot_completed_action_codec robot_completed_action)
    ∷ (2, reads event_codec event)
    ∷ (5, reads enrolled_names_response_codec enrolled_names_response)
    ∷ (6, reads robot_observed_face_codec robot_observed_face)
    ∷ (7, reads robot_changed_observed_face_id_codec robot_changed_observed_face_id)
    ∷ (10, reads object_connection_state_codec object_connection_state)
    ∷ (11, reads object_moved_codec object_moved)
    ∷ (12, reads object_stopped_moving_codec object_stopped_moving)
    ∷ (13, reads object_up_axis_changed_codec object_up_axis_changed)
    ∷ (14, reads object_tapped_codec object_tapped)
    ∷ (15, reads object_accel_codec object_accel)
    ∷ (16, reads robot_observed_object_codec robot_observed_object)
    ∷ (17, reads object_available_codec object_available)
    ∷ (18, reads void (λ u. robot_deleted_fixed_custom_objects))
    ∷ (19, reads void (λ u. robot_deleted_custom_marker_objects))
    ∷ (20, reads created_fixed_custom_object_codec created_fixed_custom_object)
    ∷ (21, reads defined_custom_object_codec defined_custom_object)
    ∷ (22, reads memory_map_message_begin_codec memory_map_message_begin)
    ∷ (23, reads memory_map_message_codec memory_map_message)
    ∷ (24, reads void (λ u. memory_map_message_end))
    ∷ (255, reads void (λ u. invalid))
    ∷ []

pub message_robot_to_external-Agrees :
    (m : MessageRobotToExternal)
    → Agrees message_robot_to_external_cases m (message_robot_to_external_view m)
message_robot_to_external-Agrees (ui_device_connected x) = (refl, refl)
message_robot_to_external-Agrees (robot_completed_action x) = (refl, refl)
message_robot_to_external-Agrees (event x) = (refl, refl)
message_robot_to_external-Agrees (enrolled_names_response x) = (refl, refl)
message_robot_to_external-Agrees (robot_observed_face x) = (refl, refl)
message_robot_to_external-Agrees (robot_changed_observed_face_id x) = (refl, refl)
message_robot_to_external-Agrees (object_connection_state x) = (refl, refl)
message_robot_to_external-Agrees (object_moved x) = (refl, refl)
message_robot_to_external-Agrees (object_stopped_moving x) = (refl, refl)
message_robot_to_external-Agrees (object_up_axis_changed x) = (refl, refl)
message_robot_to_external-Agrees (object_tapped x) = (refl, refl)
message_robot_to_external-Agrees (object_accel x) = (refl, refl)
message_robot_to_external-Agrees (robot_observed_object x) = (refl, refl)
message_robot_to_external-Agrees (object_available x) = (refl, refl)
message_robot_to_external-Agrees robot_deleted_fixed_custom_objects = (refl, refl)
message_robot_to_external-Agrees robot_deleted_custom_marker_objects = (refl, refl)
message_robot_to_external-Agrees (created_fixed_custom_object x) = (refl, refl)
message_robot_to_external-Agrees (defined_custom_object x) = (refl, refl)
message_robot_to_external-Agrees (memory_map_message_begin x) = (refl, refl)
message_robot_to_external-Agrees (memory_map_message x) = (refl, refl)
message_robot_to_external-Agrees memory_map_message_end = (refl, refl)
message_robot_to_external-Agrees invalid = (refl, refl)

unfoldable pub message_robot_to_external_codec : Codec MessageRobotToExternal
unfolding union created_fixed_custom_object_codec defined_custom_object_codec
    enrolled_names_response_codec event_codec memory_map_message_begin_codec
    memory_map_message_codec object_accel_codec object_available_codec object_connection_state_codec
    object_moved_codec object_stopped_moving_codec object_tapped_codec object_up_axis_changed_codec
    robot_changed_observed_face_id_codec robot_completed_action_codec robot_observed_face_codec
    robot_observed_object_codec ui_device_connected_codec void
message_robot_to_external_codec =
    union message_robot_to_external_view message_robot_to_external_cases
      message_robot_to_external-Agrees
