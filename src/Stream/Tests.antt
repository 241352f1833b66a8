-- ===== src/Stream/Tests.antt =====
-- The buffer, the samples and the answers of a stream on concrete input.
use vic_cloudless.Prelude.{Bool, All, ℕ, ◌+◌, ◌%◌, ◌≡◌, true, Option, none, List, [], ◌∷◌}
use vic_cloudless.Prelude.Text.{codes, Text}
use vic_cloudless.Stream.Buffer.{
  Turn, add, ready, Buffer, empty, IsChunk, content, added, content-run-empty, run-empty-IsChunk,
  ready-drains,
}
use vic_cloudless.Stream.Response.{
  State, Event, heard, context_done, cancel, Graph, Intent, Knowledge, deadline_exceeded, fresh,
  first_text, expires, but_timeouts, timeouts, answer_first, run-answers, Fields,
}
use vic_cloudless.Stream.Buffer
use vic_cloudless.Stream.Response

abbrev two_chunks : List (List ℕ)
two_chunks = (1 ∷ 2 ∷ []) ∷ (3 ∷ 4 ∷ []) ∷ []

abbrev turns : List Turn
turns = add (1 ∷ 2 ∷ 3 ∷ []) ∷ ready ∷ add (4 ∷ 5 ∷ []) ∷ ready ∷ []

content-run-empty_example : content (Buffer.run 2 empty turns) ≡ 1 ∷ 2 ∷ 3 ∷ 4 ∷ 5 ∷ []
content-run-empty_example = content-run-empty 2 turns

run-empty-IsChunk_example : All (IsChunk 2) (Buffer.run 2 empty turns).sent
run-empty-IsChunk_example = run-empty-IsChunk 2 turns

abbrev waiting : Buffer
waiting = record { audio_buf = 1 ∷ 2 ∷ 3 ∷ 4 ∷ 5 ∷ []; sent = [] }

abbrev no_encode : Fields → Option Text
no_encode fs = none

abbrev digit : ℕ → Text
digit n = (b'0' + n % 10) ∷ []

abbrev weather : Text → Text × Fields
weather t = (codes "intent_weather", [])

abbrev all_intents : Graph → Bool
all_intents r = true

abbrev plain_intent : Graph → Intent
plain_intent r = record { action = r.graph_action; fields = r.graph_parameters; summary = [] }

abbrev no_knowledge : Graph → Knowledge
no_knowledge r = record { spoken_text = []; command_type = []; query_text = []; domains_used = [] }

-- The time is over before the text is heard, and then the stream is closed.
abbrev too_late : List Event
too_late = heard [] ∷ context_done deadline_exceeded ∷ cancel ∷ heard (codes "weather") ∷ []

run-answers_example :
    let calls =
      Response.run no_encode digit weather all_intents plain_intent no_knowledge fresh too_late in
    (but_timeouts calls
      ≡ answer_first no_encode digit weather all_intents plain_intent no_knowledge
          (first_text too_late))
    × (timeouts calls ≡ 1)
run-answers_example =
    run-answers no_encode digit weather all_intents plain_intent no_knowledge too_late
