-- ===== src/Gateway/Samples.antt =====
-- The handlers of the gateway's requests on concrete input.
use vic_cloudless.Prelude.{
  All, replicate, length-replicate, ℕ, ◌≡◌, refl, ◌↔◌, ◌⊎◌, Bool, true, false, Option, none, some,
  List, [], ◌∷◌, arith,
}
use vic_cloudless.Prelude.Text.{Text, text_eq, codes}
use vic_cloudless.Jdocs.Translate.{DeleteDocReq}
use vic_cloudless.Jdocs.Server.{Identity, Deletion, deleted}
use vic_cloudless.Gateway.Tokens.{ClientToken, Manager, something, update_tokens}
use vic_cloudless.Gateway.Tokens.Fetch.{fetch_tokens}
use vic_cloudless.Gateway.Tokens.OwnOnly.{jdocs_socket, fetch_tokens-update_tokens}
use vic_cloudless.Gateway.Faces.{display_face_image, processing, read_pixels, total_pixels}
use vic_cloudless.Gateway.Faces.Image.{visible, display_face_image-pixels}
use vic_cloudless.Gateway.Faces.Bounds.{InBounds, display_face_image-InBounds}
use vic_cloudless.Gateway.Connections.{
  Ble, Step, connect, disconnect, step, run, check_connection_id, check_filters, Signal, Reply,
  happened,
}
use vic_cloudless.Gateway.Connections.Primary.{no_streams, run-free}
use vic_cloudless.Gateway.Connections.Filters.{Allowed, check_filters_iff}
use vic_cloudless.Gateway.Behavior.{
  Attempt, Received, got, recv_failed, ask, request_handler, Sent, Selected, response,
  response_handler,
}
use vic_cloudless.Gateway.Behavior.Release.{Releases, request_handler-Releases}
use vic_cloudless.Gateway.Behavior.Isolation.{Delivered, own_replies, response_handler-Delivered}

abbrev robot : Identity
robot = record { user_name = codes "me"; cert_common_name = codes "vic" }

abbrev reached : DeleteDocReq → Deletion
reached r = deleted

abbrev same : Text → Text → Bool
same hash t = text_eq hash t

abbrev refuses : List ClientToken → Text → Option (List ClientToken)
refuses old jdoc = none

abbrev phone : ClientToken
phone = record { hash = codes "h"; client_name = codes "phone"; app_id = codes "a"; issued_at = [] }

abbrev one_client : Manager
one_client = record {
  client_tokens = phone ∷ [];
  recent_token_index = 0;
  last_updated = 0;
  force_clear_file = false;
  file = some (codes "stored");
}

abbrev updated : Manager
updated =
    update_tokens (codes "run") same refuses 5 true true one_client
      (fetch_tokens (jdocs_socket robot true reached) (some (codes "00e1")))

fetch_tokens-update_tokens_example :
    (updated.client_tokens ≡ something ∷ [])
    × ((updated.file ≡ some (codes "stored")) ⊎ (updated.file ≡ none))
fetch_tokens-update_tokens_example =
    fetch_tokens-update_tokens robot true reached (codes "00e1") (codes "run") same refuses 5 true
      true one_client (omega arith) (omega arith) (omega arith) (λ old. refl)

abbrev written : ℕ → Bool
written i = true

abbrev picture : List ℕ
picture = replicate 35328 9

display_face_image-pixels_example :
    (visible (display_face_image picture 1000 true written).0 ≡ read_pixels total_pixels picture)
    × ((display_face_image picture 1000 true written).1 ≡ processing)
display_face_image-pixels_example =
    display_face_image-pixels picture 1000 true written
      (omega (arith, length-replicate {A = ℕ} 35328 9)) (λ i. refl)

abbrev half : List ℕ
half = replicate 17664 9

display_face_image-InBounds_example : All InBounds (display_face_image half 1000 true written).0
display_face_image-InBounds_example = display_face_image-InBounds half 1000 true written

abbrev quiet : Option Ble
quiet = some (record { is_connected = false; ble_id = [] })

abbrev visits : List Step
visits = connect (codes "a") quiet ∷ connect (codes "b") quiet ∷ disconnect 1 ∷ []

run-free_example :
    check_connection_id true quiet (run true no_streams visits).connection_id (codes "b")
    ≡ (codes "b", true)
unfolding run step check_connection_id text_eq
run-free_example = run-free true visits (codes "b") quiet refl refl

abbrev white : Option (List Text)
white = some (codes "wake_word" ∷ [])

check_filters_iff_example :
    (check_filters (record { field_name = some (codes "wake_word"); body = 1 }) white none
      ≡ some true)
    ↔ Allowed (codes "wake_word") white none
check_filters_iff_example = check_filters_iff (codes "wake_word") 1 white none

abbrev sends : Reply → ℕ → Bool
sends r i = true

abbrev signals : List Signal
signals =
    happened (record { field_name = some (codes "wake_word"); body = 1 })
    ∷ happened (record { field_name = some (codes "robot_state"); body = 2 })
    ∷ []

abbrev to_engine : Attempt → ℕ → Bool
to_engine a i = true

abbrev asks : List Received
asks = got (ask 10) ∷ recv_failed ∷ []

request_handler-Releases_example : Releases to_engine 7 0 asks (request_handler to_engine 7 0 asks)
request_handler-Releases_example = request_handler-Releases to_engine 7 asks 0

abbrev to_client : Sent → ℕ → Bool
to_client s i = true

abbrev engine_says : List Selected
engine_says = response 7 1 ∷ response 8 2 ∷ response 7 3 ∷ []

response_handler-Delivered_example :
    Delivered to_client 7 0 (own_replies 7 engine_says) (response_handler to_client 7 0 engine_says)
response_handler-Delivered_example = response_handler-Delivered to_client 7 engine_says 0
