-- ===== src/Clad/External/Motion.antt =====
-- The structures of internal/clad/gateway/messageExternalToRobot.go that move the robot. A number of
-- floating point, or one with a sign, is the pattern of its bits.
use vic_cloudless.Prelude.{ℕ, refl, Bool}
use vic_cloudless.Clad.Fields.{flag}
use vic_cloudless.Clad.Wire.{Codec, pair, struct, word}

pub record MoveHead : Type 0 where
  pub speed_rad_per_sec : ℕ

unfoldable pub move_head_codec : Codec MoveHead
unfolding word struct
move_head_codec =
    struct (word 4) (λ s. s.speed_rad_per_sec) (λ t. record { speed_rad_per_sec = t }) (λ s. refl)

pub record MoveLift : Type 0 where
  pub speed_rad_per_sec : ℕ

unfoldable pub move_lift_codec : Codec MoveLift
unfolding word struct
move_lift_codec =
    struct (word 4) (λ s. s.speed_rad_per_sec) (λ t. record { speed_rad_per_sec = t }) (λ s. refl)

pub record DriveArc : Type 0 where
  pub speed : ℕ
  pub accel : ℕ
  pub curvature_radius_mm : ℕ

unfoldable pub drive_arc_codec : Codec DriveArc
unfolding word pair struct
drive_arc_codec =
    struct (pair (word 4) (pair (word 4) (word 2)))
      (λ s. (s.speed, (s.accel, s.curvature_radius_mm)))
      (λ t. record { speed = t.0; accel = t.1.0; curvature_radius_mm = t.1.1 }) (λ s. refl)

pub record DriveStraight : Type 0 where
  pub speed_mmps : ℕ
  pub dist_mm : ℕ
  pub should_play_animation : Bool

unfoldable pub drive_straight_codec : Codec DriveStraight
unfolding word flag pair struct
drive_straight_codec =
    struct (pair (word 4) (pair (word 4) flag))
      (λ s. (s.speed_mmps, (s.dist_mm, s.should_play_animation)))
      (λ t. record { speed_mmps = t.0; dist_mm = t.1.0; should_play_animation = t.1.1 }) (λ s. refl)

pub record TurnInPlace : Type 0 where
  pub angle_rad : ℕ
  pub speed_rad_per_sec : ℕ
  pub accel_rad_per_sec2 : ℕ
  pub tol_rad : ℕ
  pub is_absolute : ℕ

unfoldable pub turn_in_place_codec : Codec TurnInPlace
unfolding word pair struct
turn_in_place_codec =
    struct (pair (word 4) (pair (word 4) (pair (word 4) (pair (word 4) (word 1)))))
      (λ s.
        (s.angle_rad, (s.speed_rad_per_sec, (s.accel_rad_per_sec2, (s.tol_rad, s.is_absolute)))))
      (λ t. record {
        angle_rad = t.0;
        speed_rad_per_sec = t.1.0;
        accel_rad_per_sec2 = t.1.1.0;
        tol_rad = t.1.1.1.0;
        is_absolute = t.1.1.1.1;
      })
      (λ s. refl)

pub record SetHeadAngle : Type 0 where
  pub angle_rad : ℕ
  pub max_speed_rad_per_sec : ℕ
  pub accel_rad_per_sec2 : ℕ
  pub duration_sec : ℕ

unfoldable pub set_head_angle_codec : Codec SetHeadAngle
unfolding word pair struct
set_head_angle_codec =
    struct (pair (word 4) (pair (word 4) (pair (word 4) (word 4))))
      (λ s. (s.angle_rad, (s.max_speed_rad_per_sec, (s.accel_rad_per_sec2, s.duration_sec))))
      (λ t. record {
        angle_rad = t.0;
        max_speed_rad_per_sec = t.1.0;
        accel_rad_per_sec2 = t.1.1.0;
        duration_sec = t.1.1.1;
      })
      (λ s. refl)

pub record SetLiftHeight : Type 0 where
  pub height_mm : ℕ
  pub max_speed_rad_per_sec : ℕ
  pub accel_rad_per_sec2 : ℕ
  pub duration_sec : ℕ

unfoldable pub set_lift_height_codec : Codec SetLiftHeight
unfolding word pair struct
set_lift_height_codec =
    struct (pair (word 4) (pair (word 4) (pair (word 4) (word 4))))
      (λ s. (s.height_mm, (s.max_speed_rad_per_sec, (s.accel_rad_per_sec2, s.duration_sec))))
      (λ t. record {
        height_mm = t.0;
        max_speed_rad_per_sec = t.1.0;
        accel_rad_per_sec2 = t.1.1.0;
        duration_sec = t.1.1.1;
      })
      (λ s. refl)

pub record SetLiftAngle : Type 0 where
  pub angle_rad : ℕ
  pub max_speed_rad_per_sec : ℕ
  pub accel_rad_per_sec2 : ℕ
  pub duration_sec : ℕ

unfoldable pub set_lift_angle_codec : Codec SetLiftAngle
unfolding word pair struct
set_lift_angle_codec =
    struct (pair (word 4) (pair (word 4) (pair (word 4) (word 4))))
      (λ s. (s.angle_rad, (s.max_speed_rad_per_sec, (s.accel_rad_per_sec2, s.duration_sec))))
      (λ t. record {
        angle_rad = t.0;
        max_speed_rad_per_sec = t.1.0;
        accel_rad_per_sec2 = t.1.1.0;
        duration_sec = t.1.1.1;
      })
      (λ s. refl)
