-- ===== src/Clad/Shared.antt =====
-- The structures that the messages of internal/clad/gateway share: shared.go. A number of floating
-- point is the pattern of its bits.
use vic_cloudless.Prelude.{ℕ, refl}
use vic_cloudless.Clad.Wire.{Codec, pair, struct, word}

pub record PoseStruct3d : Type 0 where
  pub x : ℕ
  pub y : ℕ
  pub z : ℕ
  pub q0 : ℕ
  pub q1 : ℕ
  pub q2 : ℕ
  pub q3 : ℕ
  pub origin_id : ℕ

unfoldable pub pose_struct3d_codec : Codec PoseStruct3d
unfolding word pair struct
pose_struct3d_codec =
    struct
      (pair (word 4) (
        pair (word 4)
          (pair (word 4) (pair (word 4) (pair (word 4) (pair (word 4) (pair (word 4) (word 4))))))))
      (λ s. (s.x, (s.y, (s.z, (s.q0, (s.q1, (s.q2, (s.q3, s.origin_id))))))))
      (λ t. record {
        x = t.0;
        y = t.1.0;
        z = t.1.1.0;
        q0 = t.1.1.1.0;
        q1 = t.1.1.1.1.0;
        q2 = t.1.1.1.1.1.0;
        q3 = t.1.1.1.1.1.1.0;
        origin_id = t.1.1.1.1.1.1.1;
      })
      (λ s. refl)
