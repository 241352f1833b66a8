-- ===== src/Gateway/Rpc/Handlers.antt =====
-- The handlers of cloud/message_handler.go that write a request to the engine and are done, that wait
-- for a message after it, or that allow one call at a time. The names of the messages are those of the
-- oneof in `GatewayWrapper`.
use vic_cloudless.Prelude.Text.{codes}
use vic_cloudless.Gateway.Rpc.{Handler, tells, asks, updates}

-- Those that are done when their request is written.
abbrev pub drive_wheels : Handler
drive_wheels = tells (codes "DriveWheelsRequest")

abbrev pub stop_all_motors : Handler
stop_all_motors = tells (codes "StopAllMotorsRequest")

abbrev pub cancel_behavior : Handler
cancel_behavior = tells (codes "CancelBehaviorRequest")

abbrev pub cancel_action_by_id_tag : Handler
cancel_action_by_id_tag = tells (codes "CancelActionByIdTagRequest")

abbrev pub disconnect_cube : Handler
disconnect_cube = tells (codes "DisconnectCubeRequest")

abbrev pub flash_cube_lights : Handler
flash_cube_lights = tells (codes "FlashCubeLightsRequest")

abbrev pub forget_preferred_cube : Handler
forget_preferred_cube = tells (codes "ForgetPreferredCubeRequest")

abbrev pub set_preferred_cube : Handler
set_preferred_cube = tells (codes "SetPreferredCubeRequest")

abbrev pub set_cube_lights : Handler
set_cube_lights = tells (codes "SetCubeLightsRequest")

abbrev pub alexa_opt_in : Handler
alexa_opt_in = tells (codes "AlexaOptInRequest")

abbrev pub set_eye_color : Handler
set_eye_color = tells (codes "SetEyeColorRequest")

-- Those that allow one call at a time.
abbrev pub update_settings : Handler
update_settings = updates (codes "UpdateSettingsRequest") (codes "UpdateSettingsResponse")

abbrev pub update_account_settings : Handler
update_account_settings =
    updates (codes "UpdateAccountSettingsRequest") (codes "UpdateAccountSettingsResponse")

abbrev pub update_user_entitlements : Handler
update_user_entitlements =
    updates (codes "UpdateUserEntitlementsRequest") (codes "UpdateUserEntitlementsResponse")

-- Those that wait.
abbrev pub play_animation_trigger : Handler
play_animation_trigger = asks (codes "PlayAnimationTriggerRequest") (codes "PlayAnimationResponse")

abbrev pub play_animation : Handler
play_animation = asks (codes "PlayAnimationRequest") (codes "PlayAnimationResponse")

abbrev pub set_face_to_enroll : Handler
set_face_to_enroll = asks (codes "SetFaceToEnrollRequest") (codes "SetFaceToEnrollResponse")

abbrev pub enroll_face : Handler
enroll_face = asks (codes "EnrollFaceRequest") (codes "EnrollFaceResponse")

abbrev pub drive_off_charger : Handler
drive_off_charger = asks (codes "DriveOffChargerRequest") (codes "DriveOffChargerResponse")

abbrev pub drive_on_charger : Handler
drive_on_charger = asks (codes "DriveOnChargerRequest") (codes "DriveOnChargerResponse")

abbrev pub find_faces : Handler
find_faces = asks (codes "FindFacesRequest") (codes "FindFacesResponse")

abbrev pub look_around_in_place : Handler
look_around_in_place = asks (codes "LookAroundInPlaceRequest") (codes "LookAroundInPlaceResponse")

abbrev pub roll_block : Handler
roll_block = asks (codes "RollBlockRequest") (codes "RollBlockResponse")

abbrev pub get_onboarding_state : Handler
get_onboarding_state = asks (codes "OnboardingStateRequest") (codes "OnboardingState")

abbrev pub photos_info : Handler
photos_info = asks (codes "PhotosInfoRequest") (codes "PhotosInfoResponse")

abbrev pub delete_photo : Handler
delete_photo = asks (codes "DeletePhotoRequest") (codes "DeletePhotoResponse")

abbrev pub get_latest_attention_transfer : Handler
get_latest_attention_transfer =
    asks (codes "LatestAttentionTransferRequest") (codes "LatestAttentionTransfer")

abbrev pub connect_cube : Handler
connect_cube = asks (codes "ConnectCubeRequest") (codes "ConnectCubeResponse")

abbrev pub cubes_available : Handler
cubes_available = asks (codes "CubesAvailableRequest") (codes "CubesAvailableResponse")

abbrev pub robot_status_history : Handler
robot_status_history = asks (codes "RobotHistoryRequest") (codes "RobotHistoryResponse")

abbrev pub pull_jdocs : Handler
pull_jdocs = asks (codes "PullJdocsRequest") (codes "PullJdocsResponse")

abbrev pub set_master_volume : Handler
set_master_volume = asks (codes "MasterVolumeRequest") (codes "MasterVolumeResponse")

abbrev pub battery_state : Handler
battery_state = asks (codes "BatteryStateRequest") (codes "BatteryStateResponse")

abbrev pub version_state : Handler
version_state = asks (codes "VersionStateRequest") (codes "VersionStateResponse")

abbrev pub enable_face_detection : Handler
enable_face_detection =
    asks (codes "EnableFaceDetectionRequest") (codes "EnableFaceDetectionResponse")

abbrev pub enable_motion_detection : Handler
enable_motion_detection =
    asks (codes "EnableMotionDetectionRequest") (codes "EnableMotionDetectionResponse")

abbrev pub enable_mirror_mode : Handler
enable_mirror_mode = asks (codes "EnableMirrorModeRequest") (codes "EnableMirrorModeResponse")

abbrev pub enable_image_streaming : Handler
enable_image_streaming =
    asks (codes "EnableImageStreamingRequest") (codes "EnableImageStreamingResponse")

abbrev pub is_image_streaming_enabled : Handler
is_image_streaming_enabled =
    asks (codes "IsImageStreamingEnabledRequest") (codes "IsImageStreamingEnabledResponse")

abbrev pub get_feature_flag : Handler
get_feature_flag = asks (codes "FeatureFlagRequest") (codes "FeatureFlagResponse")

abbrev pub get_feature_flag_list : Handler
get_feature_flag_list = asks (codes "FeatureFlagListRequest") (codes "FeatureFlagListResponse")

abbrev pub get_alexa_auth_state : Handler
get_alexa_auth_state = asks (codes "AlexaAuthStateRequest") (codes "AlexaAuthStateResponse")

abbrev pub get_camera_config : Handler
get_camera_config = asks (codes "CameraConfigRequest") (codes "CameraConfigResponse")

abbrev pub set_camera_settings : Handler
set_camera_settings = asks (codes "SetCameraSettingsRequest") (codes "SetCameraSettingsResponse")
