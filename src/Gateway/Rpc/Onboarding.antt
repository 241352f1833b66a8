-- ===== src/Gateway/Rpc/Onboarding.antt =====
-- What an app sends of the onboarding: `SendOnboardingInput` of cloud/message_handler.go and the
-- functions that it calls. Their answer is new, with `REQUEST_PROCESSING` as its status.
use vic_cloudless.Prelude.Text.{codes}
use vic_cloudless.Gateway.Rpc.{Handler, tells, asks}

-- The oneof of `OnboardingInputRequest`.
pub data OnboardingInput : Type 0 where
  complete wake_up_started wake_up skip_onboarding restart set_phase phase_progress charge_info
        mark_complete_and_exit :
      OnboardingInput

abbrev pub send_onboarding_complete : Handler
send_onboarding_complete =
    asks (codes "OnboardingCompleteRequest") (codes "OnboardingCompleteResponse")

abbrev pub send_onboarding_wake_up_started : Handler
send_onboarding_wake_up_started =
    asks (codes "OnboardingWakeUpStartedRequest") (codes "OnboardingWakeUpStartedResponse")

abbrev pub send_onboarding_wake_up : Handler
send_onboarding_wake_up = asks (codes "OnboardingWakeUpRequest") (codes "OnboardingWakeUpResponse")

abbrev pub send_onboarding_skip_onboarding : Handler
send_onboarding_skip_onboarding = tells (codes "OnboardingSkipOnboarding")

abbrev pub send_onboarding_restart : Handler
send_onboarding_restart = tells (codes "OnboardingRestart")

abbrev pub send_onboarding_set_phase : Handler
send_onboarding_set_phase =
    asks (codes "OnboardingSetPhaseRequest") (codes "OnboardingSetPhaseResponse")

abbrev pub send_onboarding_phase_progress : Handler
send_onboarding_phase_progress =
    asks (codes "OnboardingPhaseProgressRequest") (codes "OnboardingPhaseProgressResponse")

abbrev pub send_onboarding_charge_info : Handler
send_onboarding_charge_info =
    asks (codes "OnboardingChargeInfoRequest") (codes "OnboardingChargeInfoResponse")

abbrev pub send_onboarding_mark_complete_and_exit : Handler
send_onboarding_mark_complete_and_exit = tells (codes "OnboardingMarkCompleteAndExit")

-- The handler of an input.
abbrev pub handler_of : OnboardingInput → Handler
handler_of complete = send_onboarding_complete
handler_of wake_up_started = send_onboarding_wake_up_started
handler_of wake_up = send_onboarding_wake_up
handler_of skip_onboarding = send_onboarding_skip_onboarding
handler_of restart = send_onboarding_restart
handler_of set_phase = send_onboarding_set_phase
handler_of phase_progress = send_onboarding_phase_progress
handler_of charge_info = send_onboarding_charge_info
handler_of mark_complete_and_exit = send_onboarding_mark_complete_and_exit
