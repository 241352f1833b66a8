-- ===== src/Clad/Switchboard.antt =====
-- The structures of internal/clad/gateway/switchboard.go; those with no fields have no type of their
-- own.
pub mod Requests
pub mod Responses
use vic_cloudless.Prelude.{ℕ, refl, Bool, true}
use vic_cloudless.Prelude.Text.{Text}
use vic_cloudless.Clad.Fields.{flag}
use vic_cloudless.Clad.Wire.{Codec, pair, struct, text, word}

pub record ExternalConnectionResponse : Type 0 where
  pub is_connected : Bool
  pub connection_id : Text

unfoldable pub external_connection_response_codec : Codec ExternalConnectionResponse
unfolding flag text pair struct
external_connection_response_codec =
    struct (pair flag (text 2 true)) (λ s. (s.is_connected, s.connection_id))
      (λ t. record { is_connected = t.0; connection_id = t.1 }) (λ s. refl)

pub record SdkProxyRequest : Type 0 where
  pub client_guid : Text
  pub message_id : Text
  pub path : Text
  pub json : Text

unfoldable pub sdk_proxy_request_codec : Codec SdkProxyRequest
unfolding text pair struct
sdk_proxy_request_codec =
    struct (pair (text 1 true) (pair (text 1 true) (pair (text 1 true) (text 2 true))))
      (λ s. (s.client_guid, (s.message_id, (s.path, s.json))))
      (λ t. record { client_guid = t.0; message_id = t.1.0; path = t.1.1.0; json = t.1.1.1 })
      (λ s. refl)

pub record SdkProxyResponse : Type 0 where
  pub message_id : Text
  pub status_code : ℕ
  pub content_type : Text
  pub content : Text

unfoldable pub sdk_proxy_response_codec : Codec SdkProxyResponse
unfolding text word pair struct
sdk_proxy_response_codec =
    struct (pair (text 1 true) (pair (word 2) (pair (text 1 true) (text 2 true))))
      (λ s. (s.message_id, (s.status_code, (s.content_type, s.content))))
      (λ t. record {
        message_id = t.0;
        status_code = t.1.0;
        content_type = t.1.1.0;
        content = t.1.1.1;
      })
      (λ s. refl)
