-- ===== src/Gateway/Commands/Delivery.antt =====
-- What the engine reads of a command.
use vic_cloudless.Prelude.{ℕ, ◌≡◌, refl, Bool, none, some, arith}
use vic_cloudless.Clad.Wire.{word}
use vic_cloudless.Clad.Writable.{
  Writable, IsWord, IsShort, word-Writable, text-Writable, flag-Writable, void-Writable,
  pair-Writable, of_fields, union-Writable,
}
use vic_cloudless.Clad.Shared.{PoseStruct3d, pose_struct3d_codec}
use vic_cloudless.Clad.External.Motion.{move_head_codec, move_lift_codec}
use vic_cloudless.Clad.External.Faces.{
  app_intent_codec, update_enrolled_face_by_id_codec, erase_enrolled_face_by_id_codec,
}
use vic_cloudless.Clad.External.Objects.{
  create_fixed_custom_object_codec, define_custom_box_codec, define_custom_cube_codec,
  define_custom_wall_codec,
}
use vic_cloudless.Clad.External.Messages.{
  MessageExternalToRobot, message_external_to_robot_codec, message_external_to_robot_view,
  message_external_to_robot_cases, message_external_to_robot-Agrees,
}
use vic_cloudless.Gateway.Commands.{
  Definition, custom_box, custom_cube, custom_wall, Command, move_head_request, move_lift_request,
  app_intent_request, request_enrolled_names, cancel_face_enrollment, erase_all_enrolled_faces,
  update_enrolled_face_request, create_fixed_custom_object_request, define_custom_object_request,
  erase_enrolled_face_request, to_clad, define_to_clad, object_type, object_marker,
}

abbrev IsPose : PoseStruct3d → Type 0
IsPose p =
    IsWord p.x
    × IsWord p.y
    × IsWord p.z
    × IsWord p.q0
    × IsWord p.q1
    × IsWord p.q2
    × IsWord p.q3
    × IsWord p.origin_id

unfoldable pub IsDefinition : Definition → Type 0
IsDefinition (custom_box d) =
    IsWord d.x_size_mm
    × IsWord d.y_size_mm
    × IsWord d.z_size_mm
    × IsWord d.marker_width_mm
    × IsWord d.marker_height_mm
IsDefinition (custom_cube d) =
    IsWord d.size_mm × IsWord d.marker_width_mm × IsWord d.marker_height_mm
IsDefinition (custom_wall d) =
    IsWord d.width_mm × IsWord d.height_mm × IsWord d.marker_width_mm × IsWord d.marker_height_mm

-- A command whose numbers are of 32 bits, whose texts have less than 256 bytes, and whose pose is
-- there. Markers and types may be any numbers: they are cut to the widths of their fields.
unfoldable pub IsProper : Command → Type 0
IsProper (move_head_request s) = IsWord s
IsProper (move_lift_request s) = IsWord s
IsProper (erase_enrolled_face_request i) = IsWord i
IsProper (app_intent_request i p) = IsShort i × IsShort p
IsProper request_enrolled_names = Unit
IsProper cancel_face_enrollment = Unit
IsProper erase_all_enrolled_faces = Unit
IsProper (update_enrolled_face_request i old new) = IsWord i × IsShort old × IsShort new
IsProper (create_fixed_custom_object_request none x y z) = ⊥
IsProper (create_fixed_custom_object_request (some p) x y z) =
    IsPose p × IsWord x × IsWord y × IsWord z
IsProper (define_custom_object_request ct unique d) = IsDefinition d

in_union :
    (m : MessageExternalToRobot)
    → Writable (message_external_to_robot_view m).codec (message_external_to_robot_view m).body
    → Writable message_external_to_robot_codec m
unfolding message_external_to_robot_codec
in_union m w =
    union-Writable message_external_to_robot_view message_external_to_robot_cases
      message_external_to_robot-Agrees m w

word4 : (n : ℕ) → IsWord n → Writable (word 4) n
word4 n h = word-Writable 4 n h

object_type-Writable : (ct : ℕ) → Writable (word 4) (object_type ct)
object_type-Writable ct = word-Writable 4 (object_type ct) (omega arith)

object_marker-Writable : (m : ℕ) → Writable (word 2) (object_marker m)
object_marker-Writable m = word-Writable 2 (object_marker m) (omega arith)

pose-Writable : (p : PoseStruct3d) → IsPose p → Writable pose_struct3d_codec p
unfolding pose_struct3d_codec
pose-Writable p (x, y, z, q0, q1, q2, q3, o) =
    of_fields pose_struct3d_codec p
      (pair-Writable (word4 p.x x) (
        pair-Writable (word4 p.y y) (
          pair-Writable (word4 p.z z) (
            pair-Writable (word4 p.q0 q0) (
              pair-Writable (word4 p.q1 q1) (
                pair-Writable (word4 p.q2 q2)
                  (pair-Writable (word4 p.q3 q3) (word4 p.origin_id o))))))))
      refl refl

define_to_clad-Writable :
    (ct : ℕ) (unique : Bool) (d : Definition)
    → IsDefinition d
    → Writable message_external_to_robot_codec (define_to_clad ct unique d)
unfolding IsDefinition define_custom_box_codec define_custom_cube_codec define_custom_wall_codec
define_to_clad-Writable ct unique (custom_box d) (x, y, z, w, h) =
    in_union (define_to_clad ct unique (custom_box d)) (
      of_fields define_custom_box_codec _
        (pair-Writable (object_type-Writable ct) (
          pair-Writable (object_marker-Writable d.marker_front) (
            pair-Writable (object_marker-Writable d.marker_back) (
              pair-Writable (object_marker-Writable d.marker_top) (
                pair-Writable (object_marker-Writable d.marker_bottom) (
                  pair-Writable (object_marker-Writable d.marker_left) (
                    pair-Writable (object_marker-Writable d.marker_right) (
                      pair-Writable (word4 d.x_size_mm x) (
                        pair-Writable (word4 d.y_size_mm y) (
                          pair-Writable (word4 d.z_size_mm z) (
                            pair-Writable (word4 d.marker_width_mm w) (
                              pair-Writable (word4 d.marker_height_mm h)
                                (flag-Writable unique)))))))))))))
        refl refl)
define_to_clad-Writable ct unique (custom_cube d) (z, w, h) =
    in_union (define_to_clad ct unique (custom_cube d)) (
      of_fields define_custom_cube_codec _
        (pair-Writable (object_type-Writable ct) (
          pair-Writable (object_marker-Writable d.marker) (
            pair-Writable (word4 d.size_mm z) (
              pair-Writable (word4 d.marker_width_mm w)
                (pair-Writable (word4 d.marker_height_mm h) (flag-Writable unique))))))
        refl refl)
define_to_clad-Writable ct unique (custom_wall d) (x, y, w, h) =
    in_union (define_to_clad ct unique (custom_wall d)) (
      of_fields define_custom_wall_codec _
        (pair-Writable (object_type-Writable ct) (
          pair-Writable (object_marker-Writable d.marker) (
            pair-Writable (word4 d.width_mm x) (
              pair-Writable (word4 d.height_mm y) (
                pair-Writable (word4 d.marker_width_mm w)
                  (pair-Writable (word4 d.marker_height_mm h) (flag-Writable unique)))))))
        refl refl)

-- A proper command has a message, and it can be written.
pub to_clad-Writable :
    (c : Command)
    → IsProper c
    → (m : MessageExternalToRobot) × (to_clad c ≡ some m)
      × Writable message_external_to_robot_codec m
unfolding to_clad IsProper move_head_codec move_lift_codec app_intent_codec
    update_enrolled_face_by_id_codec erase_enrolled_face_by_id_codec
    create_fixed_custom_object_codec
to_clad-Writable (move_head_request s) h =
    (_, refl, in_union _ (of_fields move_head_codec _ (word4 s h) refl refl))
to_clad-Writable (move_lift_request s) h =
    (_, refl, in_union _ (of_fields move_lift_codec _ (word4 s h) refl refl))
to_clad-Writable (erase_enrolled_face_request i) h =
    (_, refl, in_union _ (of_fields erase_enrolled_face_by_id_codec _ (word4 i h) refl refl))
to_clad-Writable (app_intent_request i p) (hi, hp) = (
  _,
  refl,
  in_union _ (
      of_fields app_intent_codec _ (pair-Writable (text-Writable i hi) (text-Writable p hp)) refl
        refl),
)
to_clad-Writable request_enrolled_names h = (_, refl, in_union _ (void-Writable tt))
to_clad-Writable cancel_face_enrollment h = (_, refl, in_union _ (void-Writable tt))
to_clad-Writable erase_all_enrolled_faces h = (_, refl, in_union _ (void-Writable tt))
to_clad-Writable (update_enrolled_face_request i old new) (hi, ho, hn) = (
  _,
  refl,
  in_union _ (
      of_fields update_enrolled_face_by_id_codec _
        (pair-Writable (word4 i hi) (pair-Writable (text-Writable old ho) (text-Writable new hn)))
        refl refl),
)
to_clad-Writable (create_fixed_custom_object_request none x y z) h = absurd h
to_clad-Writable (create_fixed_custom_object_request (some p) x y z) (hp, hx, hy, hz) = (
  _,
  refl,
  in_union _ (
      of_fields create_fixed_custom_object_codec _
        (pair-Writable (pose-Writable p hp)
          (pair-Writable (word4 x hx) (pair-Writable (word4 y hy) (word4 z hz))))
        refl refl),
)
to_clad-Writable (define_custom_object_request ct unique d) h =
    (_, refl, define_to_clad-Writable ct unique d h)
