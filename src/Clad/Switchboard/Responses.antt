-- ===== src/Clad/Switchboard/Responses.antt =====
-- What the gateway reads from vic-switchboard: the union `SwitchboardResponse`.
use vic_cloudless.Prelude.{ℕ, refl, List, [], ◌∷◌}
use vic_cloudless.Clad.Fields.{void}
use vic_cloudless.Clad.Switchboard.{
  ExternalConnectionResponse, SdkProxyRequest, external_connection_response_codec,
  sdk_proxy_request_codec,
}
use vic_cloudless.Clad.Tokens.{AuthResponse, JwtResponse, auth_response_codec, jwt_response_codec}
use vic_cloudless.Clad.Union.{Agrees, Decoder, View, announced, reads, union}
use vic_cloudless.Clad.Wire.{Codec}

pub data SwitchboardResponse : Type 0 where
  switchboard_error : SwitchboardResponse
  auth_response : AuthResponse → SwitchboardResponse
  jwt_response : JwtResponse → SwitchboardResponse
  external_connection_request : SwitchboardResponse
  external_connection_response : ExternalConnectionResponse → SwitchboardResponse
  client_guid_refresh_request : SwitchboardResponse
  sdk_proxy_request : SdkProxyRequest → SwitchboardResponse
  invalid : SwitchboardResponse

-- The tag and the structure of a value.
abbrev pub switchboard_response_view : SwitchboardResponse → View SwitchboardResponse
switchboard_response_view switchboard_error = announced 1 void (λ u. switchboard_error) tt
switchboard_response_view (auth_response x) = announced 2 auth_response_codec auth_response x
switchboard_response_view (jwt_response x) = announced 3 jwt_response_codec jwt_response x
switchboard_response_view external_connection_request =
    announced 4 void (λ u. external_connection_request) tt
switchboard_response_view (external_connection_response x) =
    announced 5 external_connection_response_codec external_connection_response x
switchboard_response_view client_guid_refresh_request =
    announced 6 void (λ u. client_guid_refresh_request) tt
switchboard_response_view (sdk_proxy_request x) =
    announced 7 sdk_proxy_request_codec sdk_proxy_request x
switchboard_response_view invalid = announced 255 void (λ u. invalid) tt

-- `unpackStruct`, and the tag with no structure.
abbrev pub switchboard_response_cases : List (ℕ × Decoder SwitchboardResponse)
switchboard_response_cases =
    (1, reads void (λ u. switchboard_error))
    ∷ (2, reads auth_response_codec auth_response)
    ∷ (3, reads jwt_response_codec jwt_response)
    ∷ (4, reads void (λ u. external_connection_request))
    ∷ (5, reads external_connection_response_codec external_connection_response)
    ∷ (6, reads void (λ u. client_guid_refresh_request))
    ∷ (7, reads sdk_proxy_request_codec sdk_proxy_request)
    ∷ (255, reads void (λ u. invalid))
    ∷ []

pub switchboard_response-Agrees :
    (m : SwitchboardResponse) → Agrees switchboard_response_cases m (switchboard_response_view m)
switchboard_response-Agrees switchboard_error = (refl, refl)
switchboard_response-Agrees (auth_response x) = (refl, refl)
switchboard_response-Agrees (jwt_response x) = (refl, refl)
switchboard_response-Agrees external_connection_request = (refl, refl)
switchboard_response-Agrees (external_connection_response x) = (refl, refl)
switchboard_response-Agrees client_guid_refresh_request = (refl, refl)
switchboard_response-Agrees (sdk_proxy_request x) = (refl, refl)
switchboard_response-Agrees invalid = (refl, refl)

unfoldable pub switchboard_response_codec : Codec SwitchboardResponse
unfolding union auth_response_codec external_connection_response_codec jwt_response_codec
    sdk_proxy_request_codec void
switchboard_response_codec =
    union switchboard_response_view switchboard_response_cases switchboard_response-Agrees
