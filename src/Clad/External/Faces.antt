-- ===== src/Clad/External/Faces.antt =====
-- The structures of internal/clad/gateway/messageExternalToRobot.go about faces, intents and vision.
use vic_cloudless.Prelude.{ℕ, refl, Bool, true, List}
use vic_cloudless.Prelude.Text.{Text}
use vic_cloudless.Clad.Fields.{fixed, flag}
use vic_cloudless.Clad.Wire.{Codec, pair, struct, text, word}

pub record UiDeviceConnectionWrongVersion : Type 0 where
  pub place_holder : Text

unfoldable pub ui_device_connection_wrong_version_codec : Codec UiDeviceConnectionWrongVersion
unfolding text struct
ui_device_connection_wrong_version_codec =
    struct (text 1 true) (λ s. s.place_holder) (λ t. record { place_holder = t }) (λ s. refl)

pub record DisplayFaceImageRgbChunk : Type 0 where
  pub face_data : List ℕ
  pub num_pixels : ℕ
  pub chunk_index : ℕ
  pub num_chunks : ℕ
  pub duration_ms : ℕ
  pub interrupt_running : Bool

unfoldable pub display_face_image_rgb_chunk_codec : Codec DisplayFaceImageRgbChunk
unfolding fixed word flag pair struct
display_face_image_rgb_chunk_codec =
    struct
      (pair (fixed 600 (word 2))
        (pair (word 2) (pair (word 1) (pair (word 1) (pair (word 4) flag)))))
      (λ s. (
        s.face_data,
        (s.num_pixels, (s.chunk_index, (s.num_chunks, (s.duration_ms, s.interrupt_running)))),
      ))
      (λ t. record {
        face_data = t.0;
        num_pixels = t.1.0;
        chunk_index = t.1.1.0;
        num_chunks = t.1.1.1.0;
        duration_ms = t.1.1.1.1.0;
        interrupt_running = t.1.1.1.1.1;
      })
      (λ s. refl)

pub record AppIntent : Type 0 where
  pub intent : Text
  pub param : Text

unfoldable pub app_intent_codec : Codec AppIntent
unfolding text pair struct
app_intent_codec =
    struct (pair (text 1 true) (text 1 true)) (λ s. (s.intent, s.param))
      (λ t. record { intent = t.0; param = t.1 }) (λ s. refl)

pub record UpdateEnrolledFaceById : Type 0 where
  pub face_id : ℕ
  pub old_name : Text
  pub new_name : Text

unfoldable pub update_enrolled_face_by_id_codec : Codec UpdateEnrolledFaceById
unfolding word text pair struct
update_enrolled_face_by_id_codec =
    struct (pair (word 4) (pair (text 1 true) (text 1 true)))
      (λ s. (s.face_id, (s.old_name, s.new_name)))
      (λ t. record { face_id = t.0; old_name = t.1.0; new_name = t.1.1 }) (λ s. refl)

pub record EraseEnrolledFaceById : Type 0 where
  pub face_id : ℕ

unfoldable pub erase_enrolled_face_by_id_codec : Codec EraseEnrolledFaceById
unfolding word struct
erase_enrolled_face_by_id_codec =
    struct (word 4) (λ s. s.face_id) (λ t. record { face_id = t }) (λ s. refl)

pub record SetFaceToEnroll : Type 0 where
  pub name : Text
  pub observed_id : ℕ
  pub save_id : ℕ
  pub save_to_robot : Bool
  pub say_name : Bool
  pub use_music : Bool

unfoldable pub set_face_to_enroll_codec : Codec SetFaceToEnroll
unfolding text word flag pair struct
set_face_to_enroll_codec =
    struct (pair (text 1 true) (pair (word 4) (pair (word 4) (pair flag (pair flag flag)))))
      (λ s. (s.name, (s.observed_id, (s.save_id, (s.save_to_robot, (s.say_name, s.use_music))))))
      (λ t. record {
        name = t.0;
        observed_id = t.1.0;
        save_id = t.1.1.0;
        save_to_robot = t.1.1.1.0;
        say_name = t.1.1.1.1.0;
        use_music = t.1.1.1.1.1;
      })
      (λ s. refl)

pub record EnableVisionMode : Type 0 where
  pub mode : ℕ
  pub enable : Bool

unfoldable pub enable_vision_mode_codec : Codec EnableVisionMode
unfolding word flag pair struct
enable_vision_mode_codec =
    struct (pair (word 4) flag) (λ s. (s.mode, s.enable)) (λ t. record { mode = t.0; enable = t.1 })
      (λ s. refl)
