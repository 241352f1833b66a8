-- ===== src/Gateway/Rpc/Actions.antt =====
-- The handlers of cloud/message_handler.go that start an action of the robot under a tag of the SDK.
use vic_cloudless.Prelude.Text.{codes}
use vic_cloudless.Gateway.Rpc.{Handler, acts}

abbrev pub go_to_pose : Handler
go_to_pose = acts (codes "GoToPoseRequest") (codes "GoToPoseResponse")

abbrev pub dock_with_cube : Handler
dock_with_cube = acts (codes "DockWithCubeRequest") (codes "DockWithCubeResponse")

abbrev pub drive_straight : Handler
drive_straight = acts (codes "DriveStraightRequest") (codes "DriveStraightResponse")

abbrev pub turn_in_place : Handler
turn_in_place = acts (codes "TurnInPlaceRequest") (codes "TurnInPlaceResponse")

abbrev pub set_head_angle : Handler
set_head_angle = acts (codes "SetHeadAngleRequest") (codes "SetHeadAngleResponse")

abbrev pub set_lift_height : Handler
set_lift_height = acts (codes "SetLiftHeightRequest") (codes "SetLiftHeightResponse")

abbrev pub turn_towards_face : Handler
turn_towards_face = acts (codes "TurnTowardsFaceRequest") (codes "TurnTowardsFaceResponse")

abbrev pub go_to_object : Handler
go_to_object = acts (codes "GoToObjectRequest") (codes "GoToObjectResponse")

abbrev pub roll_object : Handler
roll_object = acts (codes "RollObjectRequest") (codes "RollObjectResponse")

abbrev pub pop_a_wheelie : Handler
pop_a_wheelie = acts (codes "PopAWheelieRequest") (codes "PopAWheelieResponse")

abbrev pub pickup_object : Handler
pickup_object = acts (codes "PickupObjectRequest") (codes "PickupObjectResponse")

abbrev pub place_object_on_ground_here : Handler
place_object_on_ground_here =
    acts (codes "PlaceObjectOnGroundHereRequest") (codes "PlaceObjectOnGroundHereResponse")
