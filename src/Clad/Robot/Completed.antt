-- ===== src/Clad/Robot/Completed.antt =====
-- The end of an action, with what it says of itself.
use vic_cloudless.Prelude.{ℕ, refl, List}
use vic_cloudless.Clad.Lists.{list}
use vic_cloudless.Clad.Robot.Actions.{ActionCompletedUnion, action_completed_union_codec}
use vic_cloudless.Clad.Wire.{Codec, pair, struct, word}

pub record RobotCompletedAction : Type 0 where
  pub id_tag : ℕ
  pub action_type : ℕ
  pub result : ℕ
  pub sub_action_results : List ℕ
  pub completion_info : ActionCompletedUnion

unfoldable pub robot_completed_action_codec : Codec RobotCompletedAction
unfolding word list action_completed_union_codec pair struct
robot_completed_action_codec =
    struct
      (pair (word 4)
        (pair (word 4) (pair (word 4) (pair (list 1 (word 4)) action_completed_union_codec))))
      (λ s. (s.id_tag, (s.action_type, (s.result, (s.sub_action_results, s.completion_info)))))
      (λ t. record {
        id_tag = t.0;
        action_type = t.1.0;
        result = t.1.1.0;
        sub_action_results = t.1.1.1.0;
        completion_info = t.1.1.1.1;
      })
      (λ s. refl)
