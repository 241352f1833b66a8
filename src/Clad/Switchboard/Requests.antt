-- ===== src/Clad/Switchboard/Requests.antt =====
-- What the gateway writes to vic-switchboard: the union `SwitchboardRequest`.
use vic_cloudless.Prelude.{ℕ, refl, List, [], ◌∷◌}
use vic_cloudless.Clad.Fields.{void}
use vic_cloudless.Clad.Switchboard.{
  ExternalConnectionResponse, SdkProxyResponse, external_connection_response_codec,
  sdk_proxy_response_codec,
}
use vic_cloudless.Clad.Tokens.{AuthRequest, JwtRequest, auth_request_codec, jwt_request_codec}
use vic_cloudless.Clad.Union.{Agrees, Decoder, View, announced, reads, union}
use vic_cloudless.Clad.Wire.{Codec}

pub data SwitchboardRequest : Type 0 where
  switchboard_error : SwitchboardRequest
  auth_request : AuthRequest → SwitchboardRequest
  jwt_request : JwtRequest → SwitchboardRequest
  external_connection_request : SwitchboardRequest
  external_connection_response : ExternalConnectionResponse → SwitchboardRequest
  client_guid_refresh_response : SwitchboardRequest
  sdk_proxy_response : SdkProxyResponse → SwitchboardRequest
  invalid : SwitchboardRequest

-- The tag and the structure of a value.
abbrev pub switchboard_request_view : SwitchboardRequest → View SwitchboardRequest
switchboard_request_view switchboard_error = announced 1 void (λ u. switchboard_error) tt
switchboard_request_view (auth_request x) = announced 2 auth_request_codec auth_request x
switchboard_request_view (jwt_request x) = announced 3 jwt_request_codec jwt_request x
switchboard_request_view external_connection_request =
    announced 4 void (λ u. external_connection_request) tt
switchboard_request_view (external_connection_response x) =
    announced 5 external_connection_response_codec external_connection_response x
switchboard_request_view client_guid_refresh_response =
    announced 6 void (λ u. client_guid_refresh_response) tt
switchboard_request_view (sdk_proxy_response x) =
    announced 7 sdk_proxy_response_codec sdk_proxy_response x
switchboard_request_view invalid = announced 255 void (λ u. invalid) tt

-- `unpackStruct`, and the tag with no structure.
abbrev pub switchboard_request_cases : List (ℕ × Decoder SwitchboardRequest)
switchboard_request_cases =
    (1, reads void (λ u. switchboard_error))
    ∷ (2, reads auth_request_codec auth_request)
    ∷ (3, reads jwt_request_codec jwt_request)
    ∷ (4, reads void (λ u. external_connection_request))
    ∷ (5, reads external_connection_response_codec external_connection_response)
    ∷ (6, reads void (λ u. client_guid_refresh_response))
    ∷ (7, reads sdk_proxy_response_codec sdk_proxy_response)
    ∷ (255, reads void (λ u. invalid))
    ∷ []

pub switchboard_request-Agrees :
    (m : SwitchboardRequest) → Agrees switchboard_request_cases m (switchboard_request_view m)
switchboard_request-Agrees switchboard_error = (refl, refl)
switchboard_request-Agrees (auth_request x) = (refl, refl)
switchboard_request-Agrees (jwt_request x) = (refl, refl)
switchboard_request-Agrees external_connection_request = (refl, refl)
switchboard_request-Agrees (external_connection_response x) = (refl, refl)
switchboard_request-Agrees client_guid_refresh_response = (refl, refl)
switchboard_request-Agrees (sdk_proxy_response x) = (refl, refl)
switchboard_request-Agrees invalid = (refl, refl)

unfoldable pub switchboard_request_codec : Codec SwitchboardRequest
unfolding union auth_request_codec external_connection_response_codec jwt_request_codec
    sdk_proxy_response_codec void
switchboard_request_codec =
    union switchboard_request_view switchboard_request_cases switchboard_request-Agrees
