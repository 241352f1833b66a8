-- ===== src/Gateway/Switchboard.antt =====
-- What the gateway does with the messages of vic-switchboard: `handleSwitchboardMessages` of
-- cloud/ipc_manager.go. The proxy is that of Gateway.Proxy, where it gives
-- a response and does not panic, and the update that `ForceUpdate` asks
-- for one of Gateway.Tokens; both are arguments here. The answer of the proxy is written by a routine
-- of its own, in the source at any later time, here at once.
use vic_cloudless.Prelude.{
  length-append, if◌then◌else◌, length, ℕ, suc, ◌≡◌, refl, Bool, true, false, not, Option, List, [],
  ◌∷◌, ◌++◌, arith,
}
use vic_cloudless.Prelude.Text.{Text}
use vic_cloudless.Clad.Switchboard.{SdkProxyRequest, SdkProxyResponse}
use vic_cloudless.Clad.Switchboard.Requests.{
  SwitchboardRequest, external_connection_response, client_guid_refresh_response,
  sdk_proxy_response,
}
use vic_cloudless.Clad.Switchboard.Responses.{SwitchboardResponse}
use vic_cloudless.Gateway.Connections.{is_empty}
use vic_cloudless.Gateway.Proxy
use vic_cloudless.Gateway.Tokens.{ClientToken, Manager, force_update}

abbrev pub to_proxy : SdkProxyRequest → Proxy.Request
to_proxy r = record {
  message_id = r.message_id;
  path = r.path;
  json = r.json;
  client_guid = r.client_guid;
}

abbrev pub from_proxy : Proxy.Response → SdkProxyResponse
from_proxy r = record {
  message_id = r.message_id;
  status_code = r.status_code;
  content_type = r.content_type;
  content = r.content;
}

abbrev pub connection_answer : Text → SwitchboardRequest
connection_answer id =
    external_connection_response (record { is_connected = not (is_empty id); connection_id = id })

module _ (proxy : Proxy.Request → Proxy.Response) (update : Manager → Manager) (runtime : Text)
    (matches : Text → Text → Bool)
    (unmarshal : List ClientToken → Text → Option (List ClientToken)) where
  -- A message, with the tokens and the id of the primary connection: the tokens after it, and the
  -- answers that are written.
  unfoldable pub handle_message :
      Manager → Text → SwitchboardResponse → Manager × List SwitchboardRequest
  unfolding force_update
  handle_message m id (SwitchboardResponse.sdk_proxy_request r) =
      (m, sdk_proxy_response (from_proxy (proxy (to_proxy r))) ∷ [])
  handle_message m id SwitchboardResponse.external_connection_request =
      (m, connection_answer id ∷ [])
  handle_message m id SwitchboardResponse.client_guid_refresh_request =
      (update (force_update runtime matches unmarshal m), client_guid_refresh_response ∷ [])
  handle_message m id r = (m, [])

  -- Messages, one after another, while the connection stays.
  unfoldable pub handle_messages :
      Manager → Text → List SwitchboardResponse → Manager × List SwitchboardRequest
  unfolding handle_message
  handle_messages m id [] = (m, [])
  handle_messages m id (r ∷ rs) =
      let (m', answers) = handle_message m id r in
      let (last, later) = handle_messages m' id rs in (last, answers ++ later)

  -- The messages that ask for something.
  abbrev pub is_asking : SwitchboardResponse → Bool
  is_asking (SwitchboardResponse.sdk_proxy_request r) = true
  is_asking SwitchboardResponse.external_connection_request = true
  is_asking SwitchboardResponse.client_guid_refresh_request = true
  is_asking r = false

  abbrev pub asking : List SwitchboardResponse → ℕ
  asking [] = 0
  asking (r ∷ rs) = let rest = asking rs in if is_asking r then suc rest else rest

  abbrev pub answer_count : SwitchboardResponse → ℕ
  answer_count r = if is_asking r then 1 else 0

  length-handle_message :
      (m : Manager) (id : Text) (r : SwitchboardResponse)
      → length (handle_message m id r).1 ≡ answer_count r
  unfolding handle_message
  length-handle_message m id SwitchboardResponse.switchboard_error = refl
  length-handle_message m id (SwitchboardResponse.auth_response x) = refl
  length-handle_message m id (SwitchboardResponse.jwt_response x) = refl
  length-handle_message m id SwitchboardResponse.external_connection_request = refl
  length-handle_message m id (SwitchboardResponse.external_connection_response x) = refl
  length-handle_message m id SwitchboardResponse.client_guid_refresh_request = refl
  length-handle_message m id (SwitchboardResponse.sdk_proxy_request x) = refl
  length-handle_message m id SwitchboardResponse.invalid = refl

  -- As many answers are written as there are messages that ask for something.
  pub length-handle_messages :
      (rs : List SwitchboardResponse) (m : Manager) (id : Text)
      → length (handle_messages m id rs).1 ≡ asking rs
  unfolding handle_messages
  length-handle_messages [] m id = refl
  length-handle_messages (r ∷ rs) m id =
      let here : length (handle_message m id r).1 ≡ answer_count r = length-handle_message m id r in
      let later : length (handle_messages (handle_message m id r).0 id rs).1 ≡ asking rs =
        length-handle_messages rs (handle_message m id r).0 id in
      ground (
        arith,
        here,
        later,
        length-append (handle_message m id r).1 (handle_messages (handle_message m id r).0 id rs).1,
      )
