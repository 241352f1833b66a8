-- ===== src/Token/Tests.antt =====
-- The token's file, the queue and the retries on concrete input.
use vic_cloudless.Prelude.{ℕ, ◌≡◌, refl, true, false, Option, none, some, List, [], ◌∷◌}
use vic_cloudless.Prelude.Text.{codes, Text}
use vic_cloudless.Token.Identity.{
  Claims, string, TokenInfo, init, store_all, init-store_all, from_jwt_token, parse_token,
  parse_and_store_token,
}
use vic_cloudless.Token.Queue.{
  Token, State, jwt, auth, jwt_reply, no_error, permission_denied, Connection, reached, failed,
  handle_request,
}
use vic_cloudless.Token.Backoff.{
  Event, on_error, attempt, time_up, idle, starts_of, ends_of, now_running, Act, requests, ends,
  run-starts, run-denied,
}
use vic_cloudless.Token.Backoff

-- Every claim is the text itself.
abbrev claims_of : Text → Option Claims
claims_of text = some (λ c. some (string text))

abbrev any_time : Text → Option ℕ
any_time text = some 7

abbrev jwt_text : Text
jwt_text = codes "jwt"

abbrev held : TokenInfo
held = record {
  raw = jwt_text;
  id = jwt_text;
  kind = jwt_text;
  user = jwt_text;
  requestor = jwt_text;
  issued = 7;
  expires = 7;
}

one_stored :
    (store_all claims_of any_time (init claims_of any_time none) ((true, jwt_text) ∷ [])).current
    ≡ some held
unfolding store_all parse_and_store_token parse_token from_jwt_token init
one_stored = refl

init-store_all_example :
    (init claims_of any_time
      (store_all claims_of any_time
        (init claims_of any_time none)
        ((true, jwt_text) ∷ [])).file).current
    ≡ some held
init-store_all_example =
    init-store_all claims_of any_time none ((true, jwt_text) ∷ []) held one_stored (λ e. cc e)

abbrev fresh_token : Text → Option Token
fresh_token text = some (record { raw = text; refresh_time = 100 })

abbrev with_token : State
with_token = record { token = some (record { raw = jwt_text; refresh_time = 50 }); denied = true }

abbrev refused : Connection
refused = reached (failed permission_denied)

fault_of_auth :
    (handle_request fresh_token 10 with_token (auth jwt_text) refused).2 ≡ some permission_denied
unfolding handle_request
fault_of_auth = refl

reply_of_jwt :
    (handle_request fresh_token 10 with_token (jwt false) refused).1 ≡ jwt_reply no_error jwt_text
unfolding handle_request
reply_of_jwt = refl

abbrev two_errors : List Event
two_errors = on_error true ∷ on_error true ∷ time_up ∷ on_error true ∷ []

abbrev retrying : Backoff.State
retrying = record { running = true; denied = false }

run-denied_example :
    (Backoff.run retrying (attempt Backoff.permission_denied ∷ on_error true ∷ [])).1
    ≡ requests ∷ ends ∷ []
run-denied_example = run-denied retrying (on_error true ∷ []) refl ((λ e. cc e), tt)
