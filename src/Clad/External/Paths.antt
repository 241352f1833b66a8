-- ===== src/Clad/External/Paths.antt =====
-- The structures of internal/clad/gateway/messageExternalToRobot.go that have a profile of the motion.
use vic_cloudless.Prelude.{ℕ, refl, Bool}
use vic_cloudless.Clad.Fields.{flag}
use vic_cloudless.Clad.Wire.{Codec, pair, struct, word}

pub record PathMotionProfile : Type 0 where
  pub speed_mmps : ℕ
  pub accel_mmps2 : ℕ
  pub decel_mmps2 : ℕ
  pub point_turn_speed_rad_per_sec : ℕ
  pub point_turn_accel_rad_per_sec2 : ℕ
  pub point_turn_decel_rad_per_sec2 : ℕ
  pub dock_speed_mmps : ℕ
  pub dock_accel_mmps2 : ℕ
  pub dock_decel_mmps2 : ℕ
  pub reverse_speed_mmps : ℕ
  pub is_custom : Bool

unfoldable pub path_motion_profile_codec : Codec PathMotionProfile
unfolding word flag pair struct
path_motion_profile_codec =
    struct
      (pair (word 4) (
        pair (word 4) (
          pair (word 4) (
            pair (word 4) (
              pair (word 4) (
                pair (word 4)
                  (pair (word 4) (pair (word 4) (pair (word 4) (pair (word 4) flag))))))))))
      (λ s. (
        s.speed_mmps,
        (
          s.accel_mmps2,
          (
            s.decel_mmps2,
            (
              s.point_turn_speed_rad_per_sec,
              (
                s.point_turn_accel_rad_per_sec2,
                (
                  s.point_turn_decel_rad_per_sec2,
                  (
                    s.dock_speed_mmps,
                    (s.dock_accel_mmps2, (s.dock_decel_mmps2, (s.reverse_speed_mmps, s.is_custom))),
                  ),
                ),
              ),
            ),
          ),
        ),
      ))
      (λ t. record {
        speed_mmps = t.0;
        accel_mmps2 = t.1.0;
        decel_mmps2 = t.1.1.0;
        point_turn_speed_rad_per_sec = t.1.1.1.0;
        point_turn_accel_rad_per_sec2 = t.1.1.1.1.0;
        point_turn_decel_rad_per_sec2 = t.1.1.1.1.1.0;
        dock_speed_mmps = t.1.1.1.1.1.1.0;
        dock_accel_mmps2 = t.1.1.1.1.1.1.1.0;
        dock_decel_mmps2 = t.1.1.1.1.1.1.1.1.0;
        reverse_speed_mmps = t.1.1.1.1.1.1.1.1.1.0;
        is_custom = t.1.1.1.1.1.1.1.1.1.1;
      })
      (λ s. refl)

pub record GotoPose : Type 0 where
  pub x_mm : ℕ
  pub y_mm : ℕ
  pub rad : ℕ
  pub motion_prof : PathMotionProfile
  pub level : ℕ

unfoldable pub goto_pose_codec : Codec GotoPose
unfolding word path_motion_profile_codec pair struct
goto_pose_codec =
    struct (pair (word 4) (pair (word 4) (pair (word 4) (pair path_motion_profile_codec (word 1)))))
      (λ s. (s.x_mm, (s.y_mm, (s.rad, (s.motion_prof, s.level)))))
      (λ t. record {
        x_mm = t.0;
        y_mm = t.1.0;
        rad = t.1.1.0;
        motion_prof = t.1.1.1.0;
        level = t.1.1.1.1;
      })
      (λ s. refl)

pub record AlignWithObject : Type 0 where
  pub object_id : ℕ
  pub motion_prof : PathMotionProfile
  pub distance_from_marker_mm : ℕ
  pub approach_angle_rad : ℕ
  pub use_approach_angle : Bool
  pub use_pre_dock_pose : Bool
  pub alignment_type : ℕ

unfoldable pub align_with_object_codec : Codec AlignWithObject
unfolding word path_motion_profile_codec flag pair struct
align_with_object_codec =
    struct
      (pair (word 4) (
        pair path_motion_profile_codec
          (pair (word 4) (pair (word 4) (pair flag (pair flag (word 1)))))))
      (λ s. (
        s.object_id,
        (
          s.motion_prof,
          (
            s.distance_from_marker_mm,
            (s.approach_angle_rad, (s.use_approach_angle, (s.use_pre_dock_pose, s.alignment_type))),
          ),
        ),
      ))
      (λ t. record {
        object_id = t.0;
        motion_prof = t.1.0;
        distance_from_marker_mm = t.1.1.0;
        approach_angle_rad = t.1.1.1.0;
        use_approach_angle = t.1.1.1.1.0;
        use_pre_dock_pose = t.1.1.1.1.1.0;
        alignment_type = t.1.1.1.1.1.1;
      })
      (λ s. refl)
