-- ===== src/Gateway/Events.antt =====
-- The events of the engine that come in CLAD: the conversions to protobuf of cloud/message_handler.go,
-- and what `ProcessMessages` of the `EngineCladIpcManager` of cloud/ipc_manager.go does with a message.
-- Enumerations are patterns of bits. A structure with the same fields in both is not declared again.
pub mod Filtered
mod Tests
use vic_cloudless.Prelude.{
  ==_iff, drop, list_laws, length-append, lt→ltb, drop-append_self, take, Option-cases,
  take-append-drop, take-all, leb, leb→le, concat-append, ltb, length-take, take-append_self,
  concat, exists, get_elem?, ◌==◌, length-drop, lt→leb_false, All-append, ltb→lt, length-replicate,
  length, Bool-cases, replicate, le→leb, All, if◌then◌else◌, if_intro, ℕ, zero, suc, ◌+◌, ◌-◌, ◌*◌,
  ◌/◌, ◌%◌, ◌^◌, ◌≤◌, ◌<◌, min, ◌≡◌, refl, sym, ap, ◌∙◌, subst, ◌≢◌, ◌↔◌, ◌⊎◌, inl, inr, Bool, true,
  false, not, ◌&&◌, ◌||◌, Option, none, some, List, [], ◌∷◌, ◌++◌, map, append-nil, append_assoc,
  arith,
}
use vic_cloudless.Prelude.Text.{
  split-Without, has_prefix, has_prefix_sound, to_lower, text_eq_iff, text_eq, contains,
  text_eq_refl, to_lower_idem, Text, lower, text_eq_sound, contains-middle, codes, contains_sound,
  split, has_prefix-append, trim_space, split-append, Without,
}
use vic_cloudless.Clad.Shared.{PoseStruct3d}
use vic_cloudless.Clad.Robot.Events.{Event}
use vic_cloudless.Clad.Robot.Faces.{
  CladPoint2d, CladRect, RobotObservedFace, RobotChangedObservedFaceId,
}
use vic_cloudless.Clad.Robot.Objects.{
  ObjectConnectionState, ObjectMoved, ObjectStoppedMoving, ObjectUpAxisChanged, ObjectTapped,
  RobotObservedObject,
}
use vic_cloudless.Clad.Robot.Messages.{MessageRobotToExternal}

-- `extint.RobotObservedFace`
pub record ObservedFace : Type 0 where
  pub face_id : ℕ
  pub timestamp : ℕ
  pub pose : PoseStruct3d
  pub img_rect : CladRect
  pub name : Text
  pub expression : ℕ
  pub expression_values : List ℕ
  pub left_eye : List CladPoint2d
  pub right_eye : List CladPoint2d
  pub nose : List CladPoint2d
  pub mouth : List CladPoint2d

-- `extint.ObjectEvent`
pub data ObjectEvent : Type 0 where
  object_available : (factory_id : Text) → ObjectEvent
  object_connection_state : ObjectConnectionState → ObjectEvent
  object_moved : ObjectMoved → ObjectEvent
  object_stopped_moving : ObjectStoppedMoving → ObjectEvent
  object_up_axis_changed : ObjectUpAxisChanged → ObjectEvent
  object_tapped : ObjectTapped → ObjectEvent
  robot_observed_object : RobotObservedObject → ObjectEvent

-- `extint.Event`; `nil_event` is the nil pointer.
pub data ProtoEvent : Type 0 where
  robot_observed_face : ObservedFace → ProtoEvent
  robot_changed_observed_face_id : RobotChangedObservedFaceId → ProtoEvent
  object_event : ObjectEvent → ProtoEvent
  nil_event : ProtoEvent

-- An expression of 8 bits, counted from 0 instead of -1, in 32 bits with its sign.
abbrev pub expression_to_proto : ℕ → ℕ
expression_to_proto e = let n = (e + 1) % 2 ^ 8 in if ltb n 128 then n else n + (2 ^ 32 - 2 ^ 8)

-- An enumeration of 32 bits, with room for the invalid value of protobuf at 0.
abbrev pub one_up : ℕ → ℕ
one_up n = (n + 1) % 2 ^ 32

-- In CLAD the unknown axis is the last, in protobuf the first.
abbrev pub up_axis_to_proto : ℕ → ℕ
up_axis_to_proto n = if n == 7 then 0 else (n + 1) % 2 ^ 8

-- `CladRobotObservedFaceToProto`
abbrev pub observed_face : RobotObservedFace → ObservedFace
observed_face m = record {
  face_id = m.face_id;
  timestamp = m.timestamp;
  pose = m.pose;
  img_rect = m.img_rect;
  name = m.name;
  expression = expression_to_proto m.expression;
  expression_values = m.expression_values;
  left_eye = m.left_eye;
  right_eye = m.right_eye;
  nose = m.nose;
  mouth = m.mouth;
}

-- `CladObjectConnectionStateToProto`
abbrev pub connection_state : ObjectConnectionState → ObjectConnectionState
connection_state m = record m { object_type = one_up m.object_type }

-- `CladObjectUpAxisChangedToProto`
abbrev pub up_axis_changed : ObjectUpAxisChanged → ObjectUpAxisChanged
up_axis_changed m = record m { up_axis = up_axis_to_proto m.up_axis }

-- `CladRobotObservedObjectToProto`
abbrev pub observed_object : RobotObservedObject → RobotObservedObject
observed_object m = record m {
  object_family = one_up m.object_family;
  object_type = one_up m.object_type;
}

-- `CladEventToProto`, which knows no event.
abbrev pub event_to_proto : Event → ProtoEvent
event_to_proto e = nil_event

-- What is done with a message: it becomes an event, or goes to the listeners of its tag.
pub data Passed : Type 0 where
  to_event_stream : ProtoEvent → Passed
  to_listeners : MessageRobotToExternal → Passed

abbrev object : ObjectEvent → Passed
object e = to_event_stream (object_event e)

-- The switch of `ProcessMessages`.
unfoldable pub pass_on : MessageRobotToExternal → Passed
pass_on (MessageRobotToExternal.event e) = to_event_stream (event_to_proto e)
pass_on (MessageRobotToExternal.robot_observed_face m) =
    to_event_stream (robot_observed_face (observed_face m))
pass_on (MessageRobotToExternal.robot_changed_observed_face_id m) =
    to_event_stream (robot_changed_observed_face_id m)
pass_on (MessageRobotToExternal.object_available m) = object (object_available m.factory_id)
pass_on (MessageRobotToExternal.object_connection_state m) =
    object (object_connection_state (connection_state m))
pass_on (MessageRobotToExternal.object_moved m) = object (object_moved m)
pass_on (MessageRobotToExternal.object_stopped_moving m) = object (object_stopped_moving m)
pass_on (MessageRobotToExternal.object_up_axis_changed m) =
    object (object_up_axis_changed (up_axis_changed m))
pass_on (MessageRobotToExternal.object_tapped m) = object (object_tapped m)
pass_on (MessageRobotToExternal.robot_observed_object m) =
    object (robot_observed_object (observed_object m))
pass_on m = to_listeners m
