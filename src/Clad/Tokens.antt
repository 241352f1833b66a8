-- ===== src/Clad/Tokens.antt =====
-- The structures and unions of internal/clad/cloud/token.go, of the requests for tokens. An
-- enumeration is its byte, since any byte is read.
use vic_cloudless.Prelude.{ℕ, refl, Bool, true, List, [], ◌∷◌}
use vic_cloudless.Prelude.Text.{Text}
use vic_cloudless.Clad.Fields.{flag, void}
use vic_cloudless.Clad.Union.{Agrees, Decoder, View, announced, reads, union}
use vic_cloudless.Clad.Wire.{Codec, pair, struct, text, word}

pub record AuthRequest : Type 0 where
  pub session_token : Text
  pub client_name : Text
  pub app_id : Text

unfoldable pub auth_request_codec : Codec AuthRequest
unfolding text pair struct
auth_request_codec =
    struct (pair (text 1 true) (pair (text 1 true) (text 1 true)))
      (λ s. (s.session_token, (s.client_name, s.app_id)))
      (λ t. record { session_token = t.0; client_name = t.1.0; app_id = t.1.1 }) (λ s. refl)

pub record AuthResponse : Type 0 where
  pub app_token : Text
  pub jwt_token : Text
  pub error : ℕ

unfoldable pub auth_response_codec : Codec AuthResponse
unfolding text word pair struct
auth_response_codec =
    struct (pair (text 2 true) (pair (text 2 true) (word 1)))
      (λ s. (s.app_token, (s.jwt_token, s.error)))
      (λ t. record { app_token = t.0; jwt_token = t.1.0; error = t.1.1 }) (λ s. refl)

pub record ReassociateRequest : Type 0 where
  pub session_token : Text
  pub client_name : Text
  pub app_id : Text

unfoldable pub reassociate_request_codec : Codec ReassociateRequest
unfolding text pair struct
reassociate_request_codec =
    struct (pair (text 1 true) (pair (text 1 true) (text 1 true)))
      (λ s. (s.session_token, (s.client_name, s.app_id)))
      (λ t. record { session_token = t.0; client_name = t.1.0; app_id = t.1.1 }) (λ s. refl)

pub record SecondaryAuthRequest : Type 0 where
  pub session_token : Text
  pub client_name : Text
  pub app_id : Text

unfoldable pub secondary_auth_request_codec : Codec SecondaryAuthRequest
unfolding text pair struct
secondary_auth_request_codec =
    struct (pair (text 1 true) (pair (text 1 true) (text 1 true)))
      (λ s. (s.session_token, (s.client_name, s.app_id)))
      (λ t. record { session_token = t.0; client_name = t.1.0; app_id = t.1.1 }) (λ s. refl)

pub record JwtRequest : Type 0 where
  pub force_refresh : Bool

unfoldable pub jwt_request_codec : Codec JwtRequest
unfolding flag struct
jwt_request_codec =
    struct (flag) (λ s. s.force_refresh) (λ t. record { force_refresh = t }) (λ s. refl)

pub record JwtResponse : Type 0 where
  pub jwt_token : Text
  pub error : ℕ

unfoldable pub jwt_response_codec : Codec JwtResponse
unfolding text word pair struct
jwt_response_codec =
    struct (pair (text 2 true) (word 1)) (λ s. (s.jwt_token, s.error))
      (λ t. record { jwt_token = t.0; error = t.1 }) (λ s. refl)

pub data TokenRequest : Type 0 where
  auth : AuthRequest → TokenRequest
  secondary : SecondaryAuthRequest → TokenRequest
  reassociate : ReassociateRequest → TokenRequest
  jwt : JwtRequest → TokenRequest
  invalid : TokenRequest

-- The tag and the structure of a value.
abbrev pub token_request_view : TokenRequest → View TokenRequest
token_request_view (auth x) = announced 0 auth_request_codec auth x
token_request_view (secondary x) = announced 1 secondary_auth_request_codec secondary x
token_request_view (reassociate x) = announced 2 reassociate_request_codec reassociate x
token_request_view (jwt x) = announced 3 jwt_request_codec jwt x
token_request_view invalid = announced 255 void (λ u. invalid) tt

-- `unpackStruct`, and the tag with no structure.
abbrev pub token_request_cases : List (ℕ × Decoder TokenRequest)
token_request_cases =
    (0, reads auth_request_codec auth)
    ∷ (1, reads secondary_auth_request_codec secondary)
    ∷ (2, reads reassociate_request_codec reassociate)
    ∷ (3, reads jwt_request_codec jwt)
    ∷ (255, reads void (λ u. invalid))
    ∷ []

pub token_request-Agrees : (m : TokenRequest) → Agrees token_request_cases m (token_request_view m)
token_request-Agrees (auth x) = (refl, refl)
token_request-Agrees (secondary x) = (refl, refl)
token_request-Agrees (reassociate x) = (refl, refl)
token_request-Agrees (jwt x) = (refl, refl)
token_request-Agrees invalid = (refl, refl)

unfoldable pub token_request_codec : Codec TokenRequest
unfolding union auth_request_codec jwt_request_codec reassociate_request_codec
    secondary_auth_request_codec void
token_request_codec = union token_request_view token_request_cases token_request-Agrees

pub data TokenResponse : Type 0 where
  auth_resp : AuthResponse → TokenResponse
  jwt_resp : JwtResponse → TokenResponse
  invalid_resp : TokenResponse

-- The tag and the structure of a value.
abbrev pub token_response_view : TokenResponse → View TokenResponse
token_response_view (auth_resp x) = announced 0 auth_response_codec auth_resp x
token_response_view (jwt_resp x) = announced 1 jwt_response_codec jwt_resp x
token_response_view invalid_resp = announced 255 void (λ u. invalid_resp) tt

-- `unpackStruct`, and the tag with no structure.
abbrev pub token_response_cases : List (ℕ × Decoder TokenResponse)
token_response_cases =
    (0, reads auth_response_codec auth_resp)
    ∷ (1, reads jwt_response_codec jwt_resp)
    ∷ (255, reads void (λ u. invalid_resp))
    ∷ []

pub token_response-Agrees :
    (m : TokenResponse) → Agrees token_response_cases m (token_response_view m)
token_response-Agrees (auth_resp x) = (refl, refl)
token_response-Agrees (jwt_resp x) = (refl, refl)
token_response-Agrees invalid_resp = (refl, refl)

unfoldable pub token_response_codec : Codec TokenResponse
unfolding union auth_response_codec jwt_response_codec void
token_response_codec = union token_response_view token_response_cases token_response-Agrees
