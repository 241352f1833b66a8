-- ===== src/Clad/External/Messages.antt =====
-- What the gateway writes to the engine: the union `MessageExternalToRobot`.
use vic_cloudless.Prelude.{ℕ, refl, List, [], ◌∷◌}
use vic_cloudless.Clad.External.Faces.{
  AppIntent, DisplayFaceImageRgbChunk, EnableVisionMode, EraseEnrolledFaceById, SetFaceToEnroll,
  UiDeviceConnectionWrongVersion, UpdateEnrolledFaceById, app_intent_codec,
  display_face_image_rgb_chunk_codec, enable_vision_mode_codec, erase_enrolled_face_by_id_codec,
  set_face_to_enroll_codec, ui_device_connection_wrong_version_codec,
  update_enrolled_face_by_id_codec,
}
use vic_cloudless.Clad.External.Motion.{
  DriveArc, DriveStraight, MoveHead, MoveLift, SetHeadAngle, SetLiftAngle, SetLiftHeight,
  TurnInPlace, drive_arc_codec, drive_straight_codec, move_head_codec, move_lift_codec,
  set_head_angle_codec, set_lift_angle_codec, set_lift_height_codec, turn_in_place_codec,
}
use vic_cloudless.Clad.External.Objects.{
  CreateFixedCustomObject, DefineCustomBox, DefineCustomCube, DefineCustomWall,
  SetMemoryMapBroadcastFrequencySec, create_fixed_custom_object_codec, define_custom_box_codec,
  define_custom_cube_codec, define_custom_wall_codec, set_memory_map_broadcast_frequency_sec_codec,
}
use vic_cloudless.Clad.External.Paths.{
  AlignWithObject, GotoPose, align_with_object_codec, goto_pose_codec,
}
use vic_cloudless.Clad.Fields.{void}
use vic_cloudless.Clad.Union.{Agrees, Decoder, View, announced, reads, union}
use vic_cloudless.Clad.Wire.{Codec}

pub data MessageExternalToRobot : Type 0 where
  ui_device_connection_wrong_version : UiDeviceConnectionWrongVersion → MessageExternalToRobot
  move_head : MoveHead → MessageExternalToRobot
  move_lift : MoveLift → MessageExternalToRobot
  drive_arc : DriveArc → MessageExternalToRobot
  robot_history_request : MessageExternalToRobot
  display_face_image_rgb_chunk : DisplayFaceImageRgbChunk → MessageExternalToRobot
  app_intent : AppIntent → MessageExternalToRobot
  cancel_face_enrollment : MessageExternalToRobot
  request_enrolled_names : MessageExternalToRobot
  update_enrolled_face_by_id : UpdateEnrolledFaceById → MessageExternalToRobot
  erase_enrolled_face_by_id : EraseEnrolledFaceById → MessageExternalToRobot
  erase_all_enrolled_faces : MessageExternalToRobot
  set_face_to_enroll : SetFaceToEnroll → MessageExternalToRobot
  enable_vision_mode : EnableVisionMode → MessageExternalToRobot
  goto_pose : GotoPose → MessageExternalToRobot
  drive_straight : DriveStraight → MessageExternalToRobot
  turn_in_place : TurnInPlace → MessageExternalToRobot
  set_head_angle : SetHeadAngle → MessageExternalToRobot
  set_lift_height : SetLiftHeight → MessageExternalToRobot
  align_with_object : AlignWithObject → MessageExternalToRobot
  set_lift_angle : SetLiftAngle → MessageExternalToRobot
  delete_custom_marker_objects : MessageExternalToRobot
  delete_fixed_custom_objects : MessageExternalToRobot
  undefine_all_custom_marker_objects : MessageExternalToRobot
  create_fixed_custom_object : CreateFixedCustomObject → MessageExternalToRobot
  define_custom_box : DefineCustomBox → MessageExternalToRobot
  define_custom_cube : DefineCustomCube → MessageExternalToRobot
  define_custom_wall : DefineCustomWall → MessageExternalToRobot
  set_memory_map_broadcast_frequency_sec :
      SetMemoryMapBroadcastFrequencySec → MessageExternalToRobot
  invalid : MessageExternalToRobot

-- The tag and the structure of a value.
abbrev pub message_external_to_robot_view : MessageExternalToRobot → View MessageExternalToRobot
message_external_to_robot_view (ui_device_connection_wrong_version x) =
    announced 0 ui_device_connection_wrong_version_codec ui_device_connection_wrong_version x
message_external_to_robot_view (move_head x) = announced 3 move_head_codec move_head x
message_external_to_robot_view (move_lift x) = announced 4 move_lift_codec move_lift x
message_external_to_robot_view (drive_arc x) = announced 5 drive_arc_codec drive_arc x
message_external_to_robot_view robot_history_request =
    announced 6 void (λ u. robot_history_request) tt
message_external_to_robot_view (display_face_image_rgb_chunk x) =
    announced 8 display_face_image_rgb_chunk_codec display_face_image_rgb_chunk x
message_external_to_robot_view (app_intent x) = announced 9 app_intent_codec app_intent x
message_external_to_robot_view cancel_face_enrollment =
    announced 10 void (λ u. cancel_face_enrollment) tt
message_external_to_robot_view request_enrolled_names =
    announced 11 void (λ u. request_enrolled_names) tt
message_external_to_robot_view (update_enrolled_face_by_id x) =
    announced 12 update_enrolled_face_by_id_codec update_enrolled_face_by_id x
message_external_to_robot_view (erase_enrolled_face_by_id x) =
    announced 13 erase_enrolled_face_by_id_codec erase_enrolled_face_by_id x
message_external_to_robot_view erase_all_enrolled_faces =
    announced 14 void (λ u. erase_all_enrolled_faces) tt
message_external_to_robot_view (set_face_to_enroll x) =
    announced 15 set_face_to_enroll_codec set_face_to_enroll x
message_external_to_robot_view (enable_vision_mode x) =
    announced 16 enable_vision_mode_codec enable_vision_mode x
message_external_to_robot_view (goto_pose x) = announced 18 goto_pose_codec goto_pose x
message_external_to_robot_view (drive_straight x) =
    announced 19 drive_straight_codec drive_straight x
message_external_to_robot_view (turn_in_place x) = announced 20 turn_in_place_codec turn_in_place x
message_external_to_robot_view (set_head_angle x) =
    announced 21 set_head_angle_codec set_head_angle x
message_external_to_robot_view (set_lift_height x) =
    announced 22 set_lift_height_codec set_lift_height x
message_external_to_robot_view (align_with_object x) =
    announced 24 align_with_object_codec align_with_object x
message_external_to_robot_view (set_lift_angle x) =
    announced 25 set_lift_angle_codec set_lift_angle x
message_external_to_robot_view delete_custom_marker_objects =
    announced 26 void (λ u. delete_custom_marker_objects) tt
message_external_to_robot_view delete_fixed_custom_objects =
    announced 27 void (λ u. delete_fixed_custom_objects) tt
message_external_to_robot_view undefine_all_custom_marker_objects =
    announced 28 void (λ u. undefine_all_custom_marker_objects) tt
message_external_to_robot_view (create_fixed_custom_object x) =
    announced 29 create_fixed_custom_object_codec create_fixed_custom_object x
message_external_to_robot_view (define_custom_box x) =
    announced 30 define_custom_box_codec define_custom_box x
message_external_to_robot_view (define_custom_cube x) =
    announced 31 define_custom_cube_codec define_custom_cube x
message_external_to_robot_view (define_custom_wall x) =
    announced 32 define_custom_wall_codec define_custom_wall x
message_external_to_robot_view (set_memory_map_broadcast_frequency_sec x) =
    announced 33 set_memory_map_broadcast_frequency_sec_codec set_memory_map_broadcast_frequency_sec
      x
message_external_to_robot_view invalid = announced 255 void (λ u. invalid) tt

-- `unpackStruct`, and the tag with no structure.
abbrev pub message_external_to_robot_cases : List (ℕ × Decoder MessageExternalToRobot)
message_external_to_robot_cases =
    (0, reads ui_device_connection_wrong_version_codec ui_device_connection_wrong_version)
    ∷ (3, reads move_head_codec move_head)
    ∷ (4, reads move_lift_codec move_lift)
    ∷ (5, reads drive_arc_codec drive_arc)
    ∷ (6, reads void (λ u. robot_history_request))
    ∷ (8, reads display_face_image_rgb_chunk_codec display_face_image_rgb_chunk)
    ∷ (9, reads app_intent_codec app_intent)
    ∷ (10, reads void (λ u. cancel_face_enrollment))
    ∷ (11, reads void (λ u. request_enrolled_names))
    ∷ (12, reads update_enrolled_face_by_id_codec update_enrolled_face_by_id)
    ∷ (13, reads erase_enrolled_face_by_id_codec erase_enrolled_face_by_id)
    ∷ (14, reads void (λ u. erase_all_enrolled_faces))
    ∷ (15, reads set_face_to_enroll_codec set_face_to_enroll)
    ∷ (16, reads enable_vision_mode_codec enable_vision_mode)
    ∷ (18, reads goto_pose_codec goto_pose)
    ∷ (19, reads drive_straight_codec drive_straight)
    ∷ (20, reads turn_in_place_codec turn_in_place)
    ∷ (21, reads set_head_angle_codec set_head_angle)
    ∷ (22, reads set_lift_height_codec set_lift_height)
    ∷ (24, reads align_with_object_codec align_with_object)
    ∷ (25, reads set_lift_angle_codec set_lift_angle)
    ∷ (26, reads void (λ u. delete_custom_marker_objects))
    ∷ (27, reads void (λ u. delete_fixed_custom_objects))
    ∷ (28, reads void (λ u. undefine_all_custom_marker_objects))
    ∷ (29, reads create_fixed_custom_object_codec create_fixed_custom_object)
    ∷ (30, reads define_custom_box_codec define_custom_box)
    ∷ (31, reads define_custom_cube_codec define_custom_cube)
    ∷ (32, reads define_custom_wall_codec define_custom_wall)
    ∷ (
      33,
      reads set_memory_map_broadcast_frequency_sec_codec set_memory_map_broadcast_frequency_sec,
    )
    ∷ (255, reads void (λ u. invalid))
    ∷ []

pub message_external_to_robot-Agrees :
    (m : MessageExternalToRobot)
    → Agrees message_external_to_robot_cases m (message_external_to_robot_view m)
message_external_to_robot-Agrees (ui_device_connection_wrong_version x) = (refl, refl)
message_external_to_robot-Agrees (move_head x) = (refl, refl)
message_external_to_robot-Agrees (move_lift x) = (refl, refl)
message_external_to_robot-Agrees (drive_arc x) = (refl, refl)
message_external_to_robot-Agrees robot_history_request = (refl, refl)
message_external_to_robot-Agrees (display_face_image_rgb_chunk x) = (refl, refl)
message_external_to_robot-Agrees (app_intent x) = (refl, refl)
message_external_to_robot-Agrees cancel_face_enrollment = (refl, refl)
message_external_to_robot-Agrees request_enrolled_names = (refl, refl)
message_external_to_robot-Agrees (update_enrolled_face_by_id x) = (refl, refl)
message_external_to_robot-Agrees (erase_enrolled_face_by_id x) = (refl, refl)
message_external_to_robot-Agrees erase_all_enrolled_faces = (refl, refl)
message_external_to_robot-Agrees (set_face_to_enroll x) = (refl, refl)
message_external_to_robot-Agrees (enable_vision_mode x) = (refl, refl)
message_external_to_robot-Agrees (goto_pose x) = (refl, refl)
message_external_to_robot-Agrees (drive_straight x) = (refl, refl)
message_external_to_robot-Agrees (turn_in_place x) = (refl, refl)
message_external_to_robot-Agrees (set_head_angle x) = (refl, refl)
message_external_to_robot-Agrees (set_lift_height x) = (refl, refl)
message_external_to_robot-Agrees (align_with_object x) = (refl, refl)
message_external_to_robot-Agrees (set_lift_angle x) = (refl, refl)
message_external_to_robot-Agrees delete_custom_marker_objects = (refl, refl)
message_external_to_robot-Agrees delete_fixed_custom_objects = (refl, refl)
message_external_to_robot-Agrees undefine_all_custom_marker_objects = (refl, refl)
message_external_to_robot-Agrees (create_fixed_custom_object x) = (refl, refl)
message_external_to_robot-Agrees (define_custom_box x) = (refl, refl)
message_external_to_robot-Agrees (define_custom_cube x) = (refl, refl)
message_external_to_robot-Agrees (define_custom_wall x) = (refl, refl)
message_external_to_robot-Agrees (set_memory_map_broadcast_frequency_sec x) = (refl, refl)
message_external_to_robot-Agrees invalid = (refl, refl)

unfoldable pub message_external_to_robot_codec : Codec MessageExternalToRobot
unfolding union align_with_object_codec app_intent_codec create_fixed_custom_object_codec
    define_custom_box_codec define_custom_cube_codec define_custom_wall_codec
    display_face_image_rgb_chunk_codec drive_arc_codec drive_straight_codec enable_vision_mode_codec
    erase_enrolled_face_by_id_codec goto_pose_codec move_head_codec move_lift_codec
    set_face_to_enroll_codec set_head_angle_codec set_lift_angle_codec set_lift_height_codec
    set_memory_map_broadcast_frequency_sec_codec turn_in_place_codec
    ui_device_connection_wrong_version_codec update_enrolled_face_by_id_codec void
message_external_to_robot_codec =
    union message_external_to_robot_view message_external_to_robot_cases
      message_external_to_robot-Agrees
