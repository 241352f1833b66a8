-- ===== src/Clad/Robot/Faces.antt =====
-- The structures of internal/clad/gateway/messageRobotToExternal.go about faces.
use vic_cloudless.Prelude.{ℕ, refl, Bool, true, List}
use vic_cloudless.Prelude.Text.{Text}
use vic_cloudless.Clad.Fields.{flag}
use vic_cloudless.Clad.Lists.{list}
use vic_cloudless.Clad.Shared.{PoseStruct3d, pose_struct3d_codec}
use vic_cloudless.Clad.Wire.{Codec, pair, struct, text, word}

pub record LoadedKnownFace : Type 0 where
  pub seconds_since_first_enrolled : ℕ
  pub seconds_since_last_updated : ℕ
  pub seconds_since_last_seen : ℕ
  pub last_seen_seconds_since_epoch : ℕ
  pub face_id : ℕ
  pub name : Text

unfoldable pub loaded_known_face_codec : Codec LoadedKnownFace
unfolding word text pair struct
loaded_known_face_codec =
    struct
      (pair (word 8) (pair (word 8) (pair (word 8) (pair (word 8) (pair (word 4) (text 1 true))))))
      (λ s. (
        s.seconds_since_first_enrolled,
        (
          s.seconds_since_last_updated,
          (s.seconds_since_last_seen, (s.last_seen_seconds_since_epoch, (s.face_id, s.name))),
        ),
      ))
      (λ t. record {
        seconds_since_first_enrolled = t.0;
        seconds_since_last_updated = t.1.0;
        seconds_since_last_seen = t.1.1.0;
        last_seen_seconds_since_epoch = t.1.1.1.0;
        face_id = t.1.1.1.1.0;
        name = t.1.1.1.1.1;
      })
      (λ s. refl)

pub record EnrolledNamesResponse : Type 0 where
  pub faces : List LoadedKnownFace

unfoldable pub enrolled_names_response_codec : Codec EnrolledNamesResponse
unfolding list loaded_known_face_codec struct
enrolled_names_response_codec =
    struct (list 1 loaded_known_face_codec) (λ s. s.faces) (λ t. record { faces = t }) (λ s. refl)

pub record CladPoint2d : Type 0 where
  pub x : ℕ
  pub y : ℕ

unfoldable pub clad_point2d_codec : Codec CladPoint2d
unfolding word pair struct
clad_point2d_codec =
    struct (pair (word 4) (word 4)) (λ s. (s.x, s.y)) (λ t. record { x = t.0; y = t.1 }) (λ s. refl)

pub record CladRect : Type 0 where
  pub x_top_left : ℕ
  pub y_top_left : ℕ
  pub width : ℕ
  pub height : ℕ

unfoldable pub clad_rect_codec : Codec CladRect
unfolding word pair struct
clad_rect_codec =
    struct (pair (word 4) (pair (word 4) (pair (word 4) (word 4))))
      (λ s. (s.x_top_left, (s.y_top_left, (s.width, s.height))))
      (λ t. record { x_top_left = t.0; y_top_left = t.1.0; width = t.1.1.0; height = t.1.1.1 })
      (λ s. refl)

pub record SmileAmount : Type 0 where
  pub was_checked : Bool
  pub amount : ℕ
  pub confidence : ℕ

unfoldable pub smile_amount_codec : Codec SmileAmount
unfolding flag word pair struct
smile_amount_codec =
    struct (pair flag (pair (word 4) (word 4))) (λ s. (s.was_checked, (s.amount, s.confidence)))
      (λ t. record { was_checked = t.0; amount = t.1.0; confidence = t.1.1 }) (λ s. refl)

pub record Gaze : Type 0 where
  pub was_checked : Bool
  pub left_right_deg : ℕ
  pub up_down_deg : ℕ

unfoldable pub gaze_codec : Codec Gaze
unfolding flag word pair struct
gaze_codec =
    struct (pair flag (pair (word 4) (word 4)))
      (λ s. (s.was_checked, (s.left_right_deg, s.up_down_deg)))
      (λ t. record { was_checked = t.0; left_right_deg = t.1.0; up_down_deg = t.1.1 }) (λ s. refl)

pub record BlinkAmount : Type 0 where
  pub was_checked : Bool
  pub blink_amount_left : ℕ
  pub blink_amount_right : ℕ

unfoldable pub blink_amount_codec : Codec BlinkAmount
unfolding flag word pair struct
blink_amount_codec =
    struct (pair flag (pair (word 4) (word 4)))
      (λ s. (s.was_checked, (s.blink_amount_left, s.blink_amount_right)))
      (λ t. record { was_checked = t.0; blink_amount_left = t.1.0; blink_amount_right = t.1.1 })
      (λ s. refl)

pub record RobotObservedFace : Type 0 where
  pub face_id : ℕ
  pub timestamp : ℕ
  pub pose : PoseStruct3d
  pub img_rect : CladRect
  pub name : Text
  pub expression : ℕ
  pub smile_amount : SmileAmount
  pub gaze : Gaze
  pub blink_amount : BlinkAmount
  pub expression_values : List ℕ
  pub left_eye : List CladPoint2d
  pub right_eye : List CladPoint2d
  pub nose : List CladPoint2d
  pub mouth : List CladPoint2d

unfoldable pub robot_observed_face_codec : Codec RobotObservedFace
unfolding word pose_struct3d_codec clad_rect_codec text smile_amount_codec gaze_codec
    blink_amount_codec list clad_point2d_codec pair struct
robot_observed_face_codec =
    struct
      (pair (word 4) (
        pair (word 4) (
          pair pose_struct3d_codec (
            pair clad_rect_codec (
              pair (text 1 true) (
                pair (word 1) (
                  pair smile_amount_codec (
                    pair gaze_codec (
                      pair blink_amount_codec (
                        pair (list 1 (word 1)) (
                          pair (list 1 clad_point2d_codec) (
                            pair (list 1 clad_point2d_codec) (
                              pair (list 1 clad_point2d_codec)
                                (list 1 clad_point2d_codec))))))))))))))
      (λ s. (
        s.face_id,
        (
          s.timestamp,
          (
            s.pose,
            (
              s.img_rect,
              (
                s.name,
                (
                  s.expression,
                  (
                    s.smile_amount,
                    (
                      s.gaze,
                      (
                        s.blink_amount,
                        (s.expression_values, (s.left_eye, (s.right_eye, (s.nose, s.mouth)))),
                      ),
                    ),
                  ),
                ),
              ),
            ),
          ),
        ),
      ))
      (λ t. record {
        face_id = t.0;
        timestamp = t.1.0;
        pose = t.1.1.0;
        img_rect = t.1.1.1.0;
        name = t.1.1.1.1.0;
        expression = t.1.1.1.1.1.0;
        smile_amount = t.1.1.1.1.1.1.0;
        gaze = t.1.1.1.1.1.1.1.0;
        blink_amount = t.1.1.1.1.1.1.1.1.0;
        expression_values = t.1.1.1.1.1.1.1.1.1.0;
        left_eye = t.1.1.1.1.1.1.1.1.1.1.0;
        right_eye = t.1.1.1.1.1.1.1.1.1.1.1.0;
        nose = t.1.1.1.1.1.1.1.1.1.1.1.1.0;
        mouth = t.1.1.1.1.1.1.1.1.1.1.1.1.1;
      })
      (λ s. refl)

pub record RobotChangedObservedFaceId : Type 0 where
  pub old_id : ℕ
  pub new_id : ℕ

unfoldable pub robot_changed_observed_face_id_codec : Codec RobotChangedObservedFaceId
unfolding word pair struct
robot_changed_observed_face_id_codec =
    struct (pair (word 4) (word 4)) (λ s. (s.old_id, s.new_id))
      (λ t. record { old_id = t.0; new_id = t.1 }) (λ s. refl)
