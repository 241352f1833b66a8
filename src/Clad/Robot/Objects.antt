-- ===== src/Clad/Robot/Objects.antt =====
-- The structures of internal/clad/gateway/messageRobotToExternal.go about objects.
use vic_cloudless.Prelude.{ℕ, refl, Bool, true}
use vic_cloudless.Prelude.Text.{Text}
use vic_cloudless.Clad.Fields.{flag}
use vic_cloudless.Clad.Robot.Faces.{CladRect, clad_rect_codec}
use vic_cloudless.Clad.Shared.{PoseStruct3d, pose_struct3d_codec}
use vic_cloudless.Clad.Wire.{Codec, pair, struct, text, word}

pub record ActiveAccel : Type 0 where
  pub x : ℕ
  pub y : ℕ
  pub z : ℕ

unfoldable pub active_accel_codec : Codec ActiveAccel
unfolding word pair struct
active_accel_codec =
    struct (pair (word 4) (pair (word 4) (word 4))) (λ s. (s.x, (s.y, s.z)))
      (λ t. record { x = t.0; y = t.1.0; z = t.1.1 }) (λ s. refl)

pub record ObjectConnectionState : Type 0 where
  pub object_id : ℕ
  pub factory_id : Text
  pub object_type : ℕ
  pub connected : Bool

unfoldable pub object_connection_state_codec : Codec ObjectConnectionState
unfolding word text flag pair struct
object_connection_state_codec =
    struct (pair (word 4) (pair (text 1 true) (pair (word 4) flag)))
      (λ s. (s.object_id, (s.factory_id, (s.object_type, s.connected))))
      (λ t. record {
        object_id = t.0;
        factory_id = t.1.0;
        object_type = t.1.1.0;
        connected = t.1.1.1;
      })
      (λ s. refl)

pub record ObjectMoved : Type 0 where
  pub timestamp : ℕ
  pub object_id : ℕ

unfoldable pub object_moved_codec : Codec ObjectMoved
unfolding word pair struct
object_moved_codec =
    struct (pair (word 4) (word 4)) (λ s. (s.timestamp, s.object_id))
      (λ t. record { timestamp = t.0; object_id = t.1 }) (λ s. refl)

pub record ObjectAvailable : Type 0 where
  pub factory_id : Text
  pub object_type : ℕ
  pub rssi : ℕ

unfoldable pub object_available_codec : Codec ObjectAvailable
unfolding text word pair struct
object_available_codec =
    struct (pair (text 1 true) (pair (word 4) (word 1)))
      (λ s. (s.factory_id, (s.object_type, s.rssi)))
      (λ t. record { factory_id = t.0; object_type = t.1.0; rssi = t.1.1 }) (λ s. refl)

pub record ObjectStoppedMoving : Type 0 where
  pub timestamp : ℕ
  pub object_id : ℕ

unfoldable pub object_stopped_moving_codec : Codec ObjectStoppedMoving
unfolding word pair struct
object_stopped_moving_codec =
    struct (pair (word 4) (word 4)) (λ s. (s.timestamp, s.object_id))
      (λ t. record { timestamp = t.0; object_id = t.1 }) (λ s. refl)

pub record ObjectUpAxisChanged : Type 0 where
  pub timestamp : ℕ
  pub object_id : ℕ
  pub up_axis : ℕ

unfoldable pub object_up_axis_changed_codec : Codec ObjectUpAxisChanged
unfolding word pair struct
object_up_axis_changed_codec =
    struct (pair (word 4) (pair (word 4) (word 1))) (λ s. (s.timestamp, (s.object_id, s.up_axis)))
      (λ t. record { timestamp = t.0; object_id = t.1.0; up_axis = t.1.1 }) (λ s. refl)

pub record ObjectTapped : Type 0 where
  pub timestamp : ℕ
  pub object_id : ℕ

unfoldable pub object_tapped_codec : Codec ObjectTapped
unfolding word pair struct
object_tapped_codec =
    struct (pair (word 4) (word 4)) (λ s. (s.timestamp, s.object_id))
      (λ t. record { timestamp = t.0; object_id = t.1 }) (λ s. refl)

pub record ObjectAccel : Type 0 where
  pub timestamp : ℕ
  pub object_id : ℕ
  pub accel : ActiveAccel

unfoldable pub object_accel_codec : Codec ObjectAccel
unfolding word active_accel_codec pair struct
object_accel_codec =
    struct (pair (word 4) (pair (word 4) active_accel_codec))
      (λ s. (s.timestamp, (s.object_id, s.accel)))
      (λ t. record { timestamp = t.0; object_id = t.1.0; accel = t.1.1 }) (λ s. refl)

pub record RobotObservedObject : Type 0 where
  pub timestamp : ℕ
  pub object_family : ℕ
  pub object_type : ℕ
  pub object_id : ℕ
  pub img_rect : CladRect
  pub pose : PoseStruct3d
  pub top_face_orientation_rad : ℕ
  pub is_active : ℕ

unfoldable pub robot_observed_object_codec : Codec RobotObservedObject
unfolding word clad_rect_codec pose_struct3d_codec pair struct
robot_observed_object_codec =
    struct
      (pair (word 4) (
        pair (word 4) (
          pair (word 4) (
            pair (word 4)
              (pair clad_rect_codec (pair pose_struct3d_codec (pair (word 4) (word 1))))))))
      (λ s. (
        s.timestamp,
        (
          s.object_family,
          (
            s.object_type,
            (s.object_id, (s.img_rect, (s.pose, (s.top_face_orientation_rad, s.is_active)))),
          ),
        ),
      ))
      (λ t. record {
        timestamp = t.0;
        object_family = t.1.0;
        object_type = t.1.1.0;
        object_id = t.1.1.1.0;
        img_rect = t.1.1.1.1.0;
        pose = t.1.1.1.1.1.0;
        top_face_orientation_rad = t.1.1.1.1.1.1.0;
        is_active = t.1.1.1.1.1.1.1;
      })
      (λ s. refl)

pub record RobotObservedPossibleObject : Type 0 where
  pub possible_object : RobotObservedObject

unfoldable pub robot_observed_possible_object_codec : Codec RobotObservedPossibleObject
unfolding robot_observed_object_codec struct
robot_observed_possible_object_codec =
    struct (robot_observed_object_codec) (λ s. s.possible_object)
      (λ t. record { possible_object = t }) (λ s. refl)

pub record CreatedFixedCustomObject : Type 0 where
  pub object_id : ℕ

unfoldable pub created_fixed_custom_object_codec : Codec CreatedFixedCustomObject
unfolding word struct
created_fixed_custom_object_codec =
    struct (word 4) (λ s. s.object_id) (λ t. record { object_id = t }) (λ s. refl)

pub record DefinedCustomObject : Type 0 where
  pub success : Bool

unfoldable pub defined_custom_object_codec : Codec DefinedCustomObject
unfolding flag struct
defined_custom_object_codec =
    struct (flag) (λ s. s.success) (λ t. record { success = t }) (λ s. refl)
