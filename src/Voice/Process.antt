-- ===== src/Voice/Process.antt =====
-- The loop of `Run` in internal/voice/process.go: one step for each event that its `select` takes.
-- A stream is the number of its opening, so that the comparison of stream pointers is one of numbers.
pub mod Streams
pub mod Answers
mod Tests
use vic_cloudless.Prelude.{
  ℕ, zero, suc, ◌+◌, ◌*◌, ◌/◌, Bool, true, false, Option, none, some, List, [], ◌∷◌, ◌++◌, map,
  ◌==◌, if◌then◌else◌,
}
use vic_cloudless.Prelude.Text.{Text, codes}
use vic_cloudless.Voice.Locale.{LanguageCode, english_us, get_language}
use vic_cloudless.Voice.Messages.{
  Hotword, Message, ErrorKind, RobotMode, ConnectionCode, ConnectionResult, Failure, Reply,
  StreamOpts, StreamKind, Action, Event,
}

-- The options of internal/voice/options.go that the loop reads, and who is connected.
pub record Config : Type 0 where
  pub chunk_ms : ℕ
  pub compress : Bool
  pub handler : ℕ
  pub save_audio : Bool
  pub has_listener : Bool
  pub receivers : List ℕ
  pub intents : List ℕ
  pub has_kill : Bool

-- `strm`, the number of the next stream, and whether the loop goes on.
pub record State : Type 0 where
  pub strm : Option ℕ
  pub next : ℕ
  pub running : Bool

abbrev pub start : State
start = record { strm = none; next = 0; running = true }

abbrev default_audio_len_ms : ℕ
default_audio_len_ms = 6000

abbrev default_chunk_ms : ℕ
default_chunk_ms = 120

abbrev sample_rate : ℕ
sample_rate = 16000

abbrev sample_bits : ℕ
sample_bits = 16

-- The number of samples in a chunk, and its size in bytes.
unfoldable pub chunk_samples : Config → ℕ
chunk_samples c = sample_rate * c.chunk_ms / 1000

unfoldable pub stream_size : Config → ℕ
unfolding chunk_samples
stream_size c = chunk_samples c * (sample_bits / 8)

-- cloud.StreamType_KnowledgeGraph
abbrev mode_knowledge_graph : ℕ
mode_knowledge_graph = 2

pub mode_map : ℕ → Option RobotMode
mode_map zero = some RobotMode.voice_command
mode_map (suc zero) = some RobotMode.game
mode_map _ = none

pub write_response : Config → Reply → List Action
write_response c r = map (λ i. Action.to_ai i r) c.intents

pub write_mic : Config → Reply → List Action
write_mic c r = map (λ i. Action.to_mic i r) c.receivers

pub write_error : Config → ErrorKind → Failure → List Action
unfolding write_response
write_error c k e = write_response c (Reply.error k e)

pub signal_mic_stop : Config → List Action
unfolding write_mic
signal_mic_stop c = write_mic c Reply.stop_signal

-- The code of a failed check.
unfoldable pub check_code : ErrorKind → ConnectionCode
check_code ErrorKind.tls = ConnectionCode.tls
check_code ErrorKind.connectivity = ConnectionCode.connectivity
check_code ErrorKind.timeout = ConnectionCode.bandwidth
check_code _ = ConnectionCode.auth

pub data CheckOutcome : Type 0 where
  answered : ConnectionResult → CheckOutcome
  broken : ErrorKind → Text → CheckOutcome

abbrev check_reply : CheckOutcome → ConnectionResult
unfolding check_code
check_reply (answered r) = r
check_reply (broken k e) = record {
  code = check_code k;
  status = e;
  num_packets = 0;
  expected_packets = default_audio_len_ms / default_chunk_ms;
}

pub respond_to_connection_check : Config → CheckOutcome → List Action
unfolding write_mic check_code
respond_to_connection_check c o = write_mic c (Reply.connection_result (check_reply o))

pub default_chipper_options : Config → StreamOpts
default_chipper_options c = record {
  compress = c.compress;
  bitrate = 66 * 1024;
  frame_size = 60;
  timeout_seconds = 9;
  save_audio = false;
  language = english_us;
  no_das = false;
}

-- `strm.Close()` where a stream is set.
abbrev close_current : Option ℕ → List Action
close_current none = []
close_current (some i) = Action.closes i ∷ []

pub new_stream : Config → State → StreamKind → State × List Action
unfolding stream_size
new_stream c s k =
    (record s { strm = some s.next; next = s.next + 1 }, Action.opens s.next (stream_size c) k ∷ [])

-- The options of the stream that a hotword asks for, or why there is none.
pub data Choice : Type 0 where
  accepted : StreamKind → Choice
  refused : Failure → Choice

abbrev locale_or_default : Text → Text
locale_or_default [] = codes "en-US"
locale_or_default (c ∷ s) = c ∷ s

hotword_opts : Config → Hotword → LanguageCode → StreamOpts
unfolding default_chipper_options
hotword_opts c hw l = record (default_chipper_options c) {
  save_audio = c.save_audio;
  language = l;
  no_das = hw.no_logging;
}

with_language : Config → Hotword → Option RobotMode → Option LanguageCode → Choice
unfolding hotword_opts
with_language c hw m none = Choice.refused (Failure.invalid_locale (locale_or_default hw.locale))
with_language c hw none (some l) =
    Choice.accepted (StreamKind.knowledge_graph (hotword_opts c hw l) hw.timezone)
with_language c hw (some m) (some l) =
    Choice.accepted (StreamKind.intent_graph (hotword_opts c hw l) c.handler m)

choose_mode : Config → Hotword → Option RobotMode → Choice
unfolding with_language get_language
choose_mode c hw none =
    if hw.mode == mode_knowledge_graph
    then with_language c hw none (get_language (locale_or_default hw.locale))
    else Choice.refused (Failure.unknown_mode hw.mode)
choose_mode c hw (some m) = with_language c hw (some m) (get_language (locale_or_default hw.locale))

pub choose : Config → Hotword → Choice
unfolding mode_map choose_mode
choose c hw = choose_mode c hw (mode_map hw.mode)

-- A refused hotword leaves `strm` as it is.
open_choice : Config → State → Choice → State × List Action
unfolding write_error new_stream
open_choice c s (Choice.refused e) = (s, write_error c ErrorKind.invalid_config e)
open_choice c s (Choice.accepted k) = new_stream c s k

-- The pair with actions put in front of its own.
abbrev before : List Action → State × List Action → State × List Action
before acts r = (r.0, acts ++ r.1)

pub on_hotword : Config → State → Hotword → Bool → State × List Action
unfolding open_choice write_mic
on_hotword c s hw is_test = before (close_current s.strm) (
    before (if is_test then write_mic c Reply.test_started else []) (open_choice c s (choose c hw)))

pub on_connection_check : Config → State → State × List Action
unfolding new_stream default_chipper_options
on_connection_check c s = before (close_current s.strm) (
    new_stream c s
      (StreamKind.check (default_chipper_options c) default_audio_len_ms default_chunk_ms))

abbrev close_send_current : Option ℕ → List Action
close_send_current none = []
close_send_current (some i) = Action.close_send i ∷ []

abbrev samples_to : Option ℕ → List ℕ → List Action
samples_to none buf = []
samples_to (some i) buf = Action.add_samples i buf ∷ []

-- The `switch` on the message's tag.
pub on_message : Config → State → Message → Bool → State × List Action
unfolding on_hotword on_connection_check write_response
on_message c s (Message.hotword hw) t = on_hotword c s hw t
on_message c s (Message.debug_file f) t = (s, write_response c (Reply.debug_reply f))
on_message c s Message.audio_done t = (s, close_send_current s.strm)
on_message c s (Message.audio buf) t = (s, samples_to s.strm buf)
on_message c s Message.connection_check t = on_connection_check c s
on_message c s Message.other t = (s, [])

-- `recvr.stream == strm`
abbrev pub is_current : Option ℕ → ℕ → Bool
is_current none i = false
is_current (some j) i = i == j

-- `strm.Close(); strm = nil` after what was written.
abbrev finish : State → List Action → State × List Action
finish s acts = (record s { strm = none }, acts ++ close_current s.strm)

abbrev notify : Config → Failure → List Action
notify c e = if c.has_listener then Action.listener_error e ∷ [] else []

unfoldable pub step : Config → State → Event → State × List Action
unfolding on_message signal_mic_stop write_response write_error respond_to_connection_check
step c s (Event.message m t) = on_message c s m t
step c s (Event.intent i r) =
    if is_current s.strm i
    then finish s (signal_mic_stop c ++ write_response c (Reply.result r))
    else (s, [])
step c s (Event.failed i k e) =
    if is_current s.strm i
    then finish s (signal_mic_stop c ++ (write_error c k e ++ notify c e))
    else (s, [])
step c s (Event.opened i session) =
    if is_current s.strm i then (s, write_response c (Reply.stream_open session)) else (s, [])
step c s (Event.check_failed i k e) =
    if is_current s.strm i then finish s (respond_to_connection_check c (broken k e)) else (s, [])
step c s Event.check_opened = (s, [])
step c s (Event.check_result i r) =
    if is_current s.strm i then finish s (respond_to_connection_check c (answered r)) else (s, [])
step c s Event.done =
    (record s { running = false }, if c.has_kill then Action.close_kill ∷ [] else [])

-- The loop over a schedule: what the process does until it stops or the schedule ends.
unfoldable pub run : Config → State → List Event → State × List Action
run c s [] = (s, [])
run c s (e ∷ es) =
    let (s', acts) = step c s e in
    let rest = run c s' es in if s.running then before acts rest else (s, [])
