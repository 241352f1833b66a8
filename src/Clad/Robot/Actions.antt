-- ===== src/Clad/Robot/Actions.antt =====
-- The structures of internal/clad/gateway/messageRobotToExternal.go about actions, sensors and the
-- map.
use vic_cloudless.Prelude.{ℕ, refl, true, List, [], ◌∷◌}
use vic_cloudless.Prelude.Text.{Text}
use vic_cloudless.Clad.Fields.{void}
use vic_cloudless.Clad.Lists.{list}
use vic_cloudless.Clad.Union.{Agrees, Decoder, View, announced, reads, union}
use vic_cloudless.Clad.Wire.{Codec, pair, struct, text, word}

pub record UiDeviceConnected : Type 0 where
  pub placeholder : Text

unfoldable pub ui_device_connected_codec : Codec UiDeviceConnected
unfolding text struct
ui_device_connected_codec =
    struct (text 1 true) (λ s. s.placeholder) (λ t. record { placeholder = t }) (λ s. refl)

pub record AnimationCompleted : Type 0 where
  pub animation_name : Text

unfoldable pub animation_completed_codec : Codec AnimationCompleted
unfolding text struct
animation_completed_codec =
    struct (text 1 true) (λ s. s.animation_name) (λ t. record { animation_name = t }) (λ s. refl)

pub record AccelData : Type 0 where
  pub x : ℕ
  pub y : ℕ
  pub z : ℕ

unfoldable pub accel_data_codec : Codec AccelData
unfolding word pair struct
accel_data_codec =
    struct (pair (word 4) (pair (word 4) (word 4))) (λ s. (s.x, (s.y, s.z)))
      (λ t. record { x = t.0; y = t.1.0; z = t.1.1 }) (λ s. refl)

pub record GyroData : Type 0 where
  pub x : ℕ
  pub y : ℕ
  pub z : ℕ

unfoldable pub gyro_data_codec : Codec GyroData
unfolding word pair struct
gyro_data_codec =
    struct (pair (word 4) (pair (word 4) (word 4))) (λ s. (s.x, (s.y, s.z)))
      (λ t. record { x = t.0; y = t.1.0; z = t.1.1 }) (λ s. refl)

pub record MemoryMapQuadInfo : Type 0 where
  pub content : ℕ
  pub depth : ℕ
  pub color_rgba : ℕ

unfoldable pub memory_map_quad_info_codec : Codec MemoryMapQuadInfo
unfolding word pair struct
memory_map_quad_info_codec =
    struct (pair (word 1) (pair (word 1) (word 4))) (λ s. (s.content, (s.depth, s.color_rgba)))
      (λ t. record { content = t.0; depth = t.1.0; color_rgba = t.1.1 }) (λ s. refl)

pub record MemoryMapMessageBegin : Type 0 where
  pub origin_id : ℕ
  pub root_depth : ℕ
  pub root_size_mm : ℕ
  pub root_center_x : ℕ
  pub root_center_y : ℕ

unfoldable pub memory_map_message_begin_codec : Codec MemoryMapMessageBegin
unfolding word pair struct
memory_map_message_begin_codec =
    struct (pair (word 4) (pair (word 4) (pair (word 4) (pair (word 4) (word 4)))))
      (λ s. (s.origin_id, (s.root_depth, (s.root_size_mm, (s.root_center_x, s.root_center_y)))))
      (λ t. record {
        origin_id = t.0;
        root_depth = t.1.0;
        root_size_mm = t.1.1.0;
        root_center_x = t.1.1.1.0;
        root_center_y = t.1.1.1.1;
      })
      (λ s. refl)

pub record MemoryMapMessage : Type 0 where
  pub quad_infos : List MemoryMapQuadInfo

unfoldable pub memory_map_message_codec : Codec MemoryMapMessage
unfolding list memory_map_quad_info_codec struct
memory_map_message_codec =
    struct (list 2 memory_map_quad_info_codec) (λ s. s.quad_infos) (λ t. record { quad_infos = t })
      (λ s. refl)

pub data ActionCompletedUnion : Type 0 where
  animation_completed : AnimationCompleted → ActionCompletedUnion
  invalid : ActionCompletedUnion

-- The tag and the structure of a value.
abbrev pub action_completed_union_view : ActionCompletedUnion → View ActionCompletedUnion
action_completed_union_view (animation_completed x) =
    announced 1 animation_completed_codec animation_completed x
action_completed_union_view invalid = announced 255 void (λ u. invalid) tt

-- `unpackStruct`, and the tag with no structure.
abbrev pub action_completed_union_cases : List (ℕ × Decoder ActionCompletedUnion)
action_completed_union_cases =
    (1, reads animation_completed_codec animation_completed) ∷ (255, reads void (λ u. invalid)) ∷ []

pub action_completed_union-Agrees :
    (m : ActionCompletedUnion)
    → Agrees action_completed_union_cases m (action_completed_union_view m)
action_completed_union-Agrees (animation_completed x) = (refl, refl)
action_completed_union-Agrees invalid = (refl, refl)

unfoldable pub action_completed_union_codec : Codec ActionCompletedUnion
unfolding union animation_completed_codec void
action_completed_union_codec =
    union action_completed_union_view action_completed_union_cases action_completed_union-Agrees
