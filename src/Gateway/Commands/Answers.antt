-- ===== src/Gateway/Commands/Answers.antt =====
-- The handlers of cloud/message_handler.go that write a command in CLAD and wait for the engine's
-- answer: `RequestEnrolledNames`, `DeleteCustomObjects`, `CreateFixedCustomObject` and
-- `DefineCustomObject`.
use vic_cloudless.Prelude.{Option, if◌then◌else◌, ◌==◌, ℕ, Bool, none, some, List, []}
use vic_cloudless.Clad.Wire.{Bytes}
use vic_cloudless.Clad.Shared.{PoseStruct3d}
use vic_cloudless.Clad.External.Messages.{MessageExternalToRobot}
use vic_cloudless.Clad.Robot.Faces.{LoadedKnownFace}
use vic_cloudless.Clad.Robot.Messages.{MessageRobotToExternal}
use vic_cloudless.Gateway.Commands.{
  Definition, Command, create_fixed_custom_object_request, define_custom_object_request, to_clad,
  Written, taken, not_taken, nil_pose, write_message,
}

-- What the channel of the answer gives, if it gives anything.
pub data Arrival : Type 0 where
  arrived : MessageRobotToExternal → Arrival
  channel_closed nothing : Arrival

-- How the handler ends; `no_answer` where it still waits, and `panic` where the answer has not the
-- structure that is asked for.
pub data Answer (A : Type 0) : Type 0 where
  answer : A → Answer A
  invalid_argument failed_to_retrieve no_answer panic write_error : Answer A

module _ {A : Type 0} (take_answer : MessageRobotToExternal → Option A) where
  abbrev pub answer_of : Arrival → Answer A
  answer_of channel_closed = failed_to_retrieve
  answer_of nothing = no_answer
  answer_of (arrived m) = elim (take_answer m) [ none ↦ panic | some a ↦ answer a ]

  abbrev pub after_write : List Bytes × Written → Arrival → List Bytes × Answer A
  after_write (bs, taken) a = (bs, answer_of a)
  after_write (bs, not_taken) a = (bs, write_error)
  after_write (bs, nil_pose) a = (bs, panic)

module _ (writes : Bytes → Bool) where
  abbrev faces_of : MessageRobotToExternal → Option (List LoadedKnownFace)
  faces_of (MessageRobotToExternal.enrolled_names_response r) = some r.faces
  faces_of m = none

  -- `RequestEnrolledNames`; a face has the same fields in the answer.
  unfoldable pub request_names : Arrival → List Bytes × Answer (List LoadedKnownFace)
  request_names =
      after_write faces_of (write_message writes (to_clad Command.request_enrolled_names))

  abbrev success_of : MessageRobotToExternal → Option Bool
  success_of (MessageRobotToExternal.defined_custom_object r) = some r.success
  success_of m = none

  abbrev object_id_of : MessageRobotToExternal → Option ℕ
  object_id_of (MessageRobotToExternal.created_fixed_custom_object r) = some r.object_id
  object_id_of m = none

  -- `CreateFixedCustomObject`
  unfoldable pub create_fixed_custom_object :
      Option PoseStruct3d → (x y z : ℕ) → Arrival → List Bytes × Answer ℕ
  create_fixed_custom_object p x y z =
      after_write object_id_of
        (write_message writes (to_clad (create_fixed_custom_object_request p x y z)))

  -- `DefineCustomObject`, whose definition may be missing.
  unfoldable pub define_custom_object :
      (custom_type : ℕ) (is_unique : Bool) → Option Definition → Arrival → List Bytes × Answer Bool
  define_custom_object ct unique none a = ([], invalid_argument)
  define_custom_object ct unique (some d) a =
      after_write success_of
        (write_message writes (to_clad (define_custom_object_request ct unique d))) a

  -- The message of a mode; the modes are numbered from 1.
  abbrev pub deletion : ℕ → Option MessageExternalToRobot
  deletion mode =
      if mode == 1
      then some MessageExternalToRobot.delete_fixed_custom_objects
      else if mode == 2
      then some MessageExternalToRobot.delete_custom_marker_objects
      else if mode == 3
      then some MessageExternalToRobot.undefine_all_custom_marker_objects
      else none

  abbrev delete_with : Option MessageExternalToRobot → Arrival → List Bytes × Answer (Unit {0})
  delete_with none a = ([], invalid_argument)
  delete_with (some m) a = after_write (λ r. some tt) (write_message writes (some m)) a

  -- `DeleteCustomObjects`; with another mode the message is nil, which `Write` refuses.
  unfoldable pub delete_custom_objects : ℕ → Arrival → List Bytes × Answer (Unit {0})
  delete_custom_objects mode = delete_with (deletion mode)
