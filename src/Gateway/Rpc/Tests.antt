-- ===== src/Gateway/Rpc/Tests.antt =====
-- Calls at concrete values.
use vic_cloudless.Prelude.{◌==◌, ℕ, ◌≡◌, refl, Bool, true, false, not, some, [], ◌∷◌}
use vic_cloudless.Prelude.Text.{codes, Text}
use vic_cloudless.Gateway.Rpc.Speech.{state, said, say_text, check_cloud_connection, checked}
use vic_cloudless.Gateway.Rpc.Playback.{
  EngineMessage, audio_prepare, audio_chunk, prepare, chunk, request, recv_error, request_handler,
}
use vic_cloudless.Gateway.Rpc.{
  Gateway, start, deliver, finish, request_processing, invalid_argument, asks,
}
use vic_cloudless.Gateway.Rpc.Handlers.{play_animation, play_animation_trigger, drive_wheels}
use vic_cloudless.Gateway.Rpc.Actions.{go_to_pose}
use vic_cloudless.Gateway.Rpc.Sharing.{both, prompt, IsFresh, both-deliver}

abbrev idle : Gateway ℕ
idle = record { listeners = record { managed = λ t. []; next = 7 }; inbox = λ c. []; requests = [] }

idle-IsFresh : IsFresh idle
unfolding IsFresh
idle-IsFresh = λ j h. refl

abbrev trigger_request : Text
trigger_request = codes "PlayAnimationTriggerRequest"

abbrev animation_request : Text
animation_request = codes "PlayAnimationRequest"

abbrev played : Text
played = codes "PlayAnimationResponse"

both-deliver_example :
    (after : Gateway ℕ) × (g1 : Gateway ℕ) × (g2 : Gateway ℕ) × (deliver prompt played 5
        (both animation_request trigger_request played idle)
      ≡ some after)
    × (finish played 7 after ≡ some (g1, 5))
    × (finish played 8 after ≡ some (g2, 5))
both-deliver_example = both-deliver animation_request trigger_request played idle 5 idle-IsFresh

-- The two handlers wait for the same type.
same_type_test :
    (play_animation ≡ asks animation_request played)
    × (play_animation_trigger ≡ asks trigger_request played)
same_type_test = (refl, refl)

wheels_test :
    start drive_wheels 0 true idle
    ≡ (record idle { requests = codes "DriveWheelsRequest" ∷ [] }, request_processing)
unfolding start
wheels_test = refl

bad_tag_test : start go_to_pose 17 true idle ≡ (idle, invalid_argument)
unfolding start
bad_tag_test = refl

-- A text is said when its utterance has finished, whatever comes after.
said_test : say_text true (state 1 ∷ state 3 ∷ state 4 ∷ state 0 ∷ []) ≡ said
unfolding say_text
said_test = refl

cloud_test :
    check_cloud_connection (some 2) (record { allowed = false; written = true; reply = some 3 })
    ≡ (some 2, checked 2)
unfolding check_cloud_connection
cloud_test = refl

abbrev is_five : EngineMessage → Bool
is_five (audio_prepare n) = false
is_five (audio_chunk n) = n == 5
is_five (EngineMessage.audio_complete n) = false
is_five (EngineMessage.audio_cancel n) = false

-- The chunk whose write fails is lost, and the playback goes on.
lost_test :
    request_handler
      (λ m. not (is_five m))
      (request (prepare 1) ∷ request (chunk 5) ∷ request (chunk 6) ∷ recv_error ∷ [])
    ≡ (audio_prepare 1 ∷ audio_chunk 6 ∷ [], true)
unfolding request_handler
lost_test = refl
