-- ===== src/Voice/Messages.antt =====
-- What the cloud process of internal/voice exchanges with its surroundings: the messages of
-- clad/cloud that it handles, the results of the streams, and what it does in answer.
use vic_cloudless.Prelude.{ℕ, Bool, List}
use vic_cloudless.Prelude.Text.{Text}
use vic_cloudless.Voice.Locale.{LanguageCode}

pub record Hotword : Type 0 where
  pub mode : ℕ  -- cloud.StreamType, a byte
  pub locale : Text
  pub timezone : Text
  pub no_logging : Bool

-- The tags that `Run` switches on; any other tag is `other`.
pub data Message : Type 0 where
  hotword : Hotword → Message
  debug_file : Text → Message
  audio_done : Message
  audio : List ℕ → Message
  connection_check : Message
  other : Message

pub data ErrorKind : Type 0 where
  server timeout json invalid_config connecting new_stream token tls connectivity : ErrorKind

pub data RobotMode : Type 0 where
  voice_command game : RobotMode

pub data ConnectionCode : Type 0 where
  available connectivity tls auth bandwidth : ConnectionCode

pub record ConnectionResult : Type 0 where
  pub code : ConnectionCode
  pub status : Text
  pub num_packets : ℕ  -- uint8
  pub expected_packets : ℕ  -- uint8

pub record IntentResult : Type 0 where
  pub intent : Text
  pub parameters : Text
  pub metadata : Text

-- The errors of this file, and those that a stream reports.
pub data Failure : Type 0 where
  unknown_mode : ℕ → Failure
  invalid_locale : Text → Failure
  reported : Text → Failure

-- What is written to the AI or back to the microphone.
pub data Reply : Type 0 where
  test_started stop_signal : Reply
  result : IntentResult → Reply
  error : ErrorKind → Failure → Reply
  stream_open : Text → Reply
  connection_result : ConnectionResult → Reply
  debug_reply : Text → Reply

-- chipper.StreamOpts, the fields that this code sets.
pub record StreamOpts : Type 0 where
  pub compress : Bool
  pub bitrate : ℕ
  pub frame_size : ℕ
  pub timeout_seconds : ℕ
  pub save_audio : Bool
  pub language : LanguageCode
  pub no_das : Bool

pub data StreamKind : Type 0 where
  knowledge_graph : StreamOpts → Text → StreamKind
  intent_graph : StreamOpts → ℕ → RobotMode → StreamKind
  check : StreamOpts → ℕ → ℕ → StreamKind

-- A stream is named by the order of its opening. Receivers and intent senders are numbered.
pub data Action : Type 0 where
  opens : ℕ → ℕ → StreamKind → Action
  closes close_send : ℕ → Action
  add_samples : ℕ → List ℕ → Action
  to_ai to_mic : ℕ → Reply → Action
  listener_error : Failure → Action
  close_kill : Action

-- What the `select` of `Run` receives. A stream's event carries the stream of its receiver.
pub data Event : Type 0 where
  message : Message → Bool → Event
  intent : ℕ → IntentResult → Event
  failed : ℕ → ErrorKind → Failure → Event
  opened : ℕ → Text → Event
  check_failed : ℕ → ErrorKind → Text → Event
  check_opened : Event
  check_result : ℕ → ConnectionResult → Event
  done : Event
