-- ===== src/Clad/External/Objects.antt =====
-- The structures of internal/clad/gateway/messageExternalToRobot.go about objects and the map.
use vic_cloudless.Prelude.{ℕ, refl, Bool}
use vic_cloudless.Clad.Fields.{flag}
use vic_cloudless.Clad.Shared.{PoseStruct3d, pose_struct3d_codec}
use vic_cloudless.Clad.Wire.{Codec, pair, struct, word}

pub record CreateFixedCustomObject : Type 0 where
  pub pose : PoseStruct3d
  pub x_size_mm : ℕ
  pub y_size_mm : ℕ
  pub z_size_mm : ℕ

unfoldable pub create_fixed_custom_object_codec : Codec CreateFixedCustomObject
unfolding pose_struct3d_codec word pair struct
create_fixed_custom_object_codec =
    struct (pair pose_struct3d_codec (pair (word 4) (pair (word 4) (word 4))))
      (λ s. (s.pose, (s.x_size_mm, (s.y_size_mm, s.z_size_mm))))
      (λ t. record { pose = t.0; x_size_mm = t.1.0; y_size_mm = t.1.1.0; z_size_mm = t.1.1.1 })
      (λ s. refl)

pub record DefineCustomBox : Type 0 where
  pub custom_type : ℕ
  pub marker_front : ℕ
  pub marker_back : ℕ
  pub marker_top : ℕ
  pub marker_bottom : ℕ
  pub marker_left : ℕ
  pub marker_right : ℕ
  pub x_size_mm : ℕ
  pub y_size_mm : ℕ
  pub z_size_mm : ℕ
  pub marker_width_mm : ℕ
  pub marker_height_mm : ℕ
  pub is_unique : Bool

unfoldable pub define_custom_box_codec : Codec DefineCustomBox
unfolding word flag pair struct
define_custom_box_codec =
    struct
      (pair (word 4) (
        pair (word 2) (
          pair (word 2) (
            pair (word 2) (
              pair (word 2) (
                pair (word 2) (
                  pair (word 2) (
                    pair (word 4)
                      (pair (word 4) (pair (word 4) (pair (word 4) (pair (word 4) flag))))))))))))
      (λ s. (
        s.custom_type,
        (
          s.marker_front,
          (
            s.marker_back,
            (
              s.marker_top,
              (
                s.marker_bottom,
                (
                  s.marker_left,
                  (
                    s.marker_right,
                    (
                      s.x_size_mm,
                      (
                        s.y_size_mm,
                        (s.z_size_mm, (s.marker_width_mm, (s.marker_height_mm, s.is_unique))),
                      ),
                    ),
                  ),
                ),
              ),
            ),
          ),
        ),
      ))
      (λ t. record {
        custom_type = t.0;
        marker_front = t.1.0;
        marker_back = t.1.1.0;
        marker_top = t.1.1.1.0;
        marker_bottom = t.1.1.1.1.0;
        marker_left = t.1.1.1.1.1.0;
        marker_right = t.1.1.1.1.1.1.0;
        x_size_mm = t.1.1.1.1.1.1.1.0;
        y_size_mm = t.1.1.1.1.1.1.1.1.0;
        z_size_mm = t.1.1.1.1.1.1.1.1.1.0;
        marker_width_mm = t.1.1.1.1.1.1.1.1.1.1.0;
        marker_height_mm = t.1.1.1.1.1.1.1.1.1.1.1.0;
        is_unique = t.1.1.1.1.1.1.1.1.1.1.1.1;
      })
      (λ s. refl)

pub record DefineCustomCube : Type 0 where
  pub custom_type : ℕ
  pub marker : ℕ
  pub size_mm : ℕ
  pub marker_width_mm : ℕ
  pub marker_height_mm : ℕ
  pub is_unique : Bool

unfoldable pub define_custom_cube_codec : Codec DefineCustomCube
unfolding word flag pair struct
define_custom_cube_codec =
    struct (pair (word 4) (pair (word 2) (pair (word 4) (pair (word 4) (pair (word 4) flag)))))
      (λ s. (
        s.custom_type,
        (s.marker, (s.size_mm, (s.marker_width_mm, (s.marker_height_mm, s.is_unique)))),
      ))
      (λ t. record {
        custom_type = t.0;
        marker = t.1.0;
        size_mm = t.1.1.0;
        marker_width_mm = t.1.1.1.0;
        marker_height_mm = t.1.1.1.1.0;
        is_unique = t.1.1.1.1.1;
      })
      (λ s. refl)

pub record DefineCustomWall : Type 0 where
  pub custom_type : ℕ
  pub marker : ℕ
  pub width_mm : ℕ
  pub height_mm : ℕ
  pub marker_width_mm : ℕ
  pub marker_height_mm : ℕ
  pub is_unique : Bool

unfoldable pub define_custom_wall_codec : Codec DefineCustomWall
unfolding word flag pair struct
define_custom_wall_codec =
    struct
      (pair (word 4)
        (pair (word 2) (pair (word 4) (pair (word 4) (pair (word 4) (pair (word 4) flag))))))
      (λ s. (
        s.custom_type,
        (
          s.marker,
          (s.width_mm, (s.height_mm, (s.marker_width_mm, (s.marker_height_mm, s.is_unique)))),
        ),
      ))
      (λ t. record {
        custom_type = t.0;
        marker = t.1.0;
        width_mm = t.1.1.0;
        height_mm = t.1.1.1.0;
        marker_width_mm = t.1.1.1.1.0;
        marker_height_mm = t.1.1.1.1.1.0;
        is_unique = t.1.1.1.1.1.1;
      })
      (λ s. refl)

pub record SetMemoryMapBroadcastFrequencySec : Type 0 where
  pub frequency : ℕ

unfoldable pub set_memory_map_broadcast_frequency_sec_codec :
    Codec SetMemoryMapBroadcastFrequencySec
unfolding word struct
set_memory_map_broadcast_frequency_sec_codec =
    struct (word 4) (λ s. s.frequency) (λ t. record { frequency = t }) (λ s. refl)
