-- ===== src/Gateway/Commands.antt =====
-- The commands that the gateway passes to the engine in CLAD: the conversions of messages and the
-- handlers that use them, of cloud/message_handler.go. A number of floating point is the pattern of
-- its bits, and a signed number its two's complement. Whether the socket takes a block is a parameter.
pub mod Delivery
pub mod Order
pub mod Answers
mod Tests
use vic_cloudless.Prelude.{
  ◌++◌, if◌then◌else◌, ℕ, ◌+◌, ◌-◌, ◌%◌, ◌^◌, Bool, Option, none, some, List, [], ◌∷◌,
}
use vic_cloudless.Prelude.Text.{Text}
use vic_cloudless.Clad.Wire.{Bytes}
use vic_cloudless.Clad.Shared.{PoseStruct3d}
use vic_cloudless.Clad.External.Messages.{MessageExternalToRobot, message_external_to_robot_codec}
use vic_cloudless.Gateway.Blocks.{write_block}

-- `CustomBoxDefinition`
pub record CustomBox : Type 0 where
  pub marker_front : ℕ
  pub marker_back : ℕ
  pub marker_top : ℕ
  pub marker_bottom : ℕ
  pub marker_left : ℕ
  pub marker_right : ℕ
  pub x_size_mm : ℕ
  pub y_size_mm : ℕ
  pub z_size_mm : ℕ
  pub marker_width_mm : ℕ
  pub marker_height_mm : ℕ

-- `CustomCubeDefinition`
pub record CustomCube : Type 0 where
  pub marker : ℕ
  pub size_mm : ℕ
  pub marker_width_mm : ℕ
  pub marker_height_mm : ℕ

-- `CustomWallDefinition`
pub record CustomWall : Type 0 where
  pub marker : ℕ
  pub width_mm : ℕ
  pub height_mm : ℕ
  pub marker_width_mm : ℕ
  pub marker_height_mm : ℕ

-- What a custom object is defined as, if it is.
pub data Definition : Type 0 where
  custom_box : CustomBox → Definition
  custom_cube : CustomCube → Definition
  custom_wall : CustomWall → Definition

-- The requests that become CLAD messages. A pose has the same fields in both; it may be missing.
pub data Command : Type 0 where
  move_head_request move_lift_request erase_enrolled_face_request : ℕ → Command
  app_intent_request : (intent param : Text) → Command
  request_enrolled_names cancel_face_enrollment erase_all_enrolled_faces : Command
  update_enrolled_face_request : (face_id : ℕ) (old_name new_name : Text) → Command
  create_fixed_custom_object_request : Option PoseStruct3d → (x y z : ℕ) → Command
  define_custom_object_request : (custom_type : ℕ) (is_unique : Bool) → Definition → Command

-- The type of an object in the space of CLAD: the SDK's `CUSTOM_TYPE_00` is 1, CLAD's is 14.
abbrev pub object_type : ℕ → ℕ
object_type custom_type = (custom_type + (2 ^ 32 - 1) + 14) % 2 ^ 32

-- A marker in 16 bits, counted from 0.
abbrev pub object_marker : ℕ → ℕ
object_marker m = (m + (2 ^ 32 - 1)) % 2 ^ 32 % 2 ^ 16

-- `ProtoCreateFixedCustomObjectToClad`; `none` is the panic where the pose is missing.
abbrev pub create_fixed_to_clad : Option PoseStruct3d → ℕ → ℕ → ℕ → Option MessageExternalToRobot
create_fixed_to_clad none x y z = none
create_fixed_to_clad (some p) x y z = some (
    MessageExternalToRobot.create_fixed_custom_object
      (record { pose = p; x_size_mm = x; y_size_mm = y; z_size_mm = z }))

-- `ProtoDefineCustomBoxToClad`, `ProtoDefineCustomCubeToClad` and `ProtoDefineCustomWallToClad`
abbrev pub define_to_clad : ℕ → Bool → Definition → MessageExternalToRobot
define_to_clad ct unique (custom_box d) = MessageExternalToRobot.define_custom_box (record {
  custom_type = object_type ct;
  marker_front = object_marker d.marker_front;
  marker_back = object_marker d.marker_back;
  marker_top = object_marker d.marker_top;
  marker_bottom = object_marker d.marker_bottom;
  marker_left = object_marker d.marker_left;
  marker_right = object_marker d.marker_right;
  x_size_mm = d.x_size_mm;
  y_size_mm = d.y_size_mm;
  z_size_mm = d.z_size_mm;
  marker_width_mm = d.marker_width_mm;
  marker_height_mm = d.marker_height_mm;
  is_unique = unique;
})
define_to_clad ct unique (custom_cube d) = MessageExternalToRobot.define_custom_cube (record {
  custom_type = object_type ct;
  marker = object_marker d.marker;
  size_mm = d.size_mm;
  marker_width_mm = d.marker_width_mm;
  marker_height_mm = d.marker_height_mm;
  is_unique = unique;
})
define_to_clad ct unique (custom_wall d) = MessageExternalToRobot.define_custom_wall (record {
  custom_type = object_type ct;
  marker = object_marker d.marker;
  width_mm = d.width_mm;
  height_mm = d.height_mm;
  marker_width_mm = d.marker_width_mm;
  marker_height_mm = d.marker_height_mm;
  is_unique = unique;
})

-- The message of a command.
unfoldable pub to_clad : Command → Option MessageExternalToRobot
to_clad (move_head_request s) =
    some (MessageExternalToRobot.move_head (record { speed_rad_per_sec = s }))
to_clad (move_lift_request s) =
    some (MessageExternalToRobot.move_lift (record { speed_rad_per_sec = s }))
to_clad (erase_enrolled_face_request i) =
    some (MessageExternalToRobot.erase_enrolled_face_by_id (record { face_id = i }))
to_clad (app_intent_request i p) =
    some (MessageExternalToRobot.app_intent (record { intent = i; param = p }))
to_clad request_enrolled_names = some MessageExternalToRobot.request_enrolled_names
to_clad cancel_face_enrollment = some MessageExternalToRobot.cancel_face_enrollment
to_clad erase_all_enrolled_faces = some MessageExternalToRobot.erase_all_enrolled_faces
to_clad (update_enrolled_face_request i old new) = some (
    MessageExternalToRobot.update_enrolled_face_by_id
      (record { face_id = i; old_name = old; new_name = new }))
to_clad (create_fixed_custom_object_request p x y z) = create_fixed_to_clad p x y z
to_clad (define_custom_object_request ct unique d) = some (define_to_clad ct unique d)

-- What becomes of writing a message: the socket takes it or does not, or there is none, for want of a
-- pose.
pub data Written : Type 0 where
  taken not_taken nil_pose : Written

-- What the client is told: `processing` is `REQUEST_PROCESSING`, and `awaits` nothing yet, while the
-- handler waits for the engine's answer; `panic` is the nil pose.
pub data Told : Type 0 where
  processing awaits write_error panic : Told

-- What the client is told once its command is written: three of the handlers wait for an answer.
abbrev pub told_when_written : Command → Told
told_when_written (move_head_request s) = processing
told_when_written (move_lift_request s) = processing
told_when_written (erase_enrolled_face_request i) = processing
told_when_written (app_intent_request i p) = processing
told_when_written request_enrolled_names = awaits
told_when_written cancel_face_enrollment = processing
told_when_written erase_all_enrolled_faces = processing
told_when_written (update_enrolled_face_request i old new) = processing
told_when_written (create_fixed_custom_object_request p x y z) = awaits
told_when_written (define_custom_object_request ct unique d) = awaits

abbrev pub told : Told → Written → Told
told t taken = t
told t not_taken = write_error
told t nil_pose = panic

module _ (writes : Bytes → Bool) where
  abbrev pub write_bytes : Option Bytes → List Bytes × Written
  write_bytes none = ([], not_taken)
  write_bytes (some b) = if writes b then (b ∷ [], taken) else ([], not_taken)

  abbrev pub write_message : Option MessageExternalToRobot → List Bytes × Written
  write_message none = ([], nil_pose)
  write_message (some m) = write_bytes (write_block message_external_to_robot_codec m)

  -- A handler up to where it has written its command: `MoveHead`, `MoveLift`, `AppIntent`,
  -- `CancelFaceEnrollment`, `UpdateEnrolledFaceByID`, `EraseEnrolledFaceByID` and
  -- `EraseAllEnrolledFaces` then answer their clients, and `RequestEnrolledNames`,
  -- `CreateFixedCustomObject` and `DefineCustomObject` wait for the engine.
  unfoldable pub tell : Command → List Bytes × Told
  unfolding to_clad write_block
  tell c = let (bs, w) = write_message (to_clad c) in (bs, told (told_when_written c) w)

  -- One command after another: the blocks that are written, and what each client is told.
  unfoldable pub tell_all : List Command → List Bytes × List Told
  tell_all [] = ([], [])
  tell_all (c ∷ cs) = let (bs, t) = tell c in let (later, ts) = tell_all cs in (bs ++ later, t ∷ ts)
