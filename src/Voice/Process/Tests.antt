-- ===== src/Voice/Process/Tests.antt =====
-- The loop of `Run` on concrete events.
use vic_cloudless.Prelude.{◌≡◌, refl, true, false, some, List, [], ◌∷◌, arith}
use vic_cloudless.Voice.Messages.{Hotword, Message, ErrorKind, Failure, Event}
use vic_cloudless.Voice.Process.{Config, State, start, step, run}
use vic_cloudless.Voice.Process.Streams.{IsTidy, run-start-IsTidy}
use vic_cloudless.Voice.Process.Answers.{failed, answer, one_answer}

abbrev config : Config
config = record {
  chunk_ms = 120;
  compress = true;
  handler = 0;
  save_audio = false;
  has_listener = false;
  receivers = 0 ∷ [];
  intents = 0 ∷ [];
  has_kill = true;
}

abbrev spoken : Hotword
spoken = record { mode = 0; locale = []; timezone = []; no_logging = false }

abbrev odd_mode : Hotword
odd_mode = record { mode = 7; locale = []; timezone = []; no_logging = false }

abbrev listening : State
listening = record { strm = some 0; next = 1; running = true }

-- A hotword while a stream runs.
abbrev two_hotwords : List Event
two_hotwords =
    Event.message (Message.hotword spoken) false ∷ Event.message (Message.hotword spoken) false ∷ []

run-start-IsTidy_example :
    IsTidy (run config start two_hotwords).0 (run config start two_hotwords).1
run-start-IsTidy_example = run-start-IsTidy config two_hotwords

abbrev gone : Event
gone = Event.failed 0 ErrorKind.timeout (Failure.reported [])

one_answer_example :
    step config (run config (step config listening gone).0 two_hotwords).0 gone
    ≡ ((run config (step config listening gone).0 two_hotwords).0, [])
one_answer_example =
    one_answer config listening 0 two_hotwords (omega arith) refl
      (failed ErrorKind.timeout (Failure.reported []))
      (answer (failed ErrorKind.timeout (Failure.reported [])))
