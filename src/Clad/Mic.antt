-- ===== src/Clad/Mic.antt =====
-- The structures and the union of internal/clad/cloud/mic.go, that the engine and the voice process
-- exchange.
use vic_cloudless.Prelude.{ℕ, refl, Bool, true, List, [], ◌∷◌}
use vic_cloudless.Prelude.Text.{Text}
use vic_cloudless.Clad.Fields.{flag, void}
use vic_cloudless.Clad.Lists.{list}
use vic_cloudless.Clad.Union.{Agrees, Decoder, View, announced, reads, union}
use vic_cloudless.Clad.Wire.{Codec, pair, struct, text, word}

pub record StreamOpen : Type 0 where
  pub session : Text

unfoldable pub stream_open_codec : Codec StreamOpen
unfolding text struct
stream_open_codec = struct (text 1 true) (λ s. s.session) (λ t. record { session = t }) (λ s. refl)

pub record Hotword : Type 0 where
  pub mode : ℕ
  pub locale : Text
  pub timezone : Text
  pub no_logging : Bool

unfoldable pub hotword_codec : Codec Hotword
unfolding word text flag pair struct
hotword_codec =
    struct (pair (word 1) (pair (text 1 true) (pair (text 1 true) flag)))
      (λ s. (s.mode, (s.locale, (s.timezone, s.no_logging))))
      (λ t. record { mode = t.0; locale = t.1.0; timezone = t.1.1.0; no_logging = t.1.1.1 })
      (λ s. refl)

pub record Filename : Type 0 where
  pub file : Text

unfoldable pub filename_codec : Codec Filename
unfolding text struct
filename_codec = struct (text 1 true) (λ s. s.file) (λ t. record { file = t }) (λ s. refl)

pub record AudioData : Type 0 where
  pub samples : List ℕ

unfoldable pub audio_data_codec : Codec AudioData
unfolding list word struct
audio_data_codec =
    struct (list 2 (word 2)) (λ s. s.samples) (λ t. record { samples = t }) (λ s. refl)

pub record IntentResult : Type 0 where
  pub intent : Text
  pub parameters : Text
  pub metadata : Text

unfoldable pub intent_result_codec : Codec IntentResult
unfolding text pair struct
intent_result_codec =
    struct (pair (text 1 true) (pair (text 2 true) (text 2 true)))
      (λ s. (s.intent, (s.parameters, s.metadata)))
      (λ t. record { intent = t.0; parameters = t.1.0; metadata = t.1.1 }) (λ s. refl)

pub record IntentError : Type 0 where
  pub error : ℕ
  pub extra : Text

unfoldable pub intent_error_codec : Codec IntentError
unfolding word text pair struct
intent_error_codec =
    struct (pair (word 1) (text 1 true)) (λ s. (s.error, s.extra))
      (λ t. record { error = t.0; extra = t.1 }) (λ s. refl)

pub record ConnectionResult : Type 0 where
  pub code : ℕ
  pub status : Text
  pub num_packets : ℕ
  pub expected_packets : ℕ

unfoldable pub connection_result_codec : Codec ConnectionResult
unfolding word text pair struct
connection_result_codec =
    struct (pair (word 1) (pair (text 1 true) (pair (word 1) (word 1))))
      (λ s. (s.code, (s.status, (s.num_packets, s.expected_packets))))
      (λ t. record {
        code = t.0;
        status = t.1.0;
        num_packets = t.1.1.0;
        expected_packets = t.1.1.1;
      })
      (λ s. refl)

pub data Message : Type 0 where
  hotword : Hotword → Message
  audio : AudioData → Message
  audio_done : Message
  connection_check : Message
  stop_signal : Message
  test_started : Message
  stream_timeout : Message
  connection_result : ConnectionResult → Message
  debug_file : Filename → Message
  result : IntentResult → Message
  error : IntentError → Message
  stream_open : StreamOpen → Message
  invalid : Message

-- The tag and the structure of a value.
abbrev pub message_view : Message → View Message
message_view (hotword x) = announced 0 hotword_codec hotword x
message_view (audio x) = announced 1 audio_data_codec audio x
message_view audio_done = announced 2 void (λ u. audio_done) tt
message_view connection_check = announced 3 void (λ u. connection_check) tt
message_view stop_signal = announced 4 void (λ u. stop_signal) tt
message_view test_started = announced 5 void (λ u. test_started) tt
message_view stream_timeout = announced 6 void (λ u. stream_timeout) tt
message_view (connection_result x) = announced 7 connection_result_codec connection_result x
message_view (debug_file x) = announced 8 filename_codec debug_file x
message_view (result x) = announced 9 intent_result_codec result x
message_view (error x) = announced 10 intent_error_codec error x
message_view (stream_open x) = announced 11 stream_open_codec stream_open x
message_view invalid = announced 255 void (λ u. invalid) tt

-- `unpackStruct`, and the tag with no structure.
abbrev pub message_cases : List (ℕ × Decoder Message)
message_cases =
    (0, reads hotword_codec hotword)
    ∷ (1, reads audio_data_codec audio)
    ∷ (2, reads void (λ u. audio_done))
    ∷ (3, reads void (λ u. connection_check))
    ∷ (4, reads void (λ u. stop_signal))
    ∷ (5, reads void (λ u. test_started))
    ∷ (6, reads void (λ u. stream_timeout))
    ∷ (7, reads connection_result_codec connection_result)
    ∷ (8, reads filename_codec debug_file)
    ∷ (9, reads intent_result_codec result)
    ∷ (10, reads intent_error_codec error)
    ∷ (11, reads stream_open_codec stream_open)
    ∷ (255, reads void (λ u. invalid))
    ∷ []

pub message-Agrees : (m : Message) → Agrees message_cases m (message_view m)
message-Agrees (hotword x) = (refl, refl)
message-Agrees (audio x) = (refl, refl)
message-Agrees audio_done = (refl, refl)
message-Agrees connection_check = (refl, refl)
message-Agrees stop_signal = (refl, refl)
message-Agrees test_started = (refl, refl)
message-Agrees stream_timeout = (refl, refl)
message-Agrees (connection_result x) = (refl, refl)
message-Agrees (debug_file x) = (refl, refl)
message-Agrees (result x) = (refl, refl)
message-Agrees (error x) = (refl, refl)
message-Agrees (stream_open x) = (refl, refl)
message-Agrees invalid = (refl, refl)

unfoldable pub message_codec : Codec Message
unfolding union audio_data_codec connection_result_codec filename_codec hotword_codec
    intent_error_codec intent_result_codec stream_open_codec void
message_codec = union message_view message_cases message-Agrees
