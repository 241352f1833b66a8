-- ===== src/Stream/Response.antt =====
-- How a stream answers its receiver: the routine over the audio that `init` of
-- internal/voice/stream/init.go starts, `cancelResponse`, which it starts too, under the `sync.Once` of
-- the stream, and the `send…` functions of internal/voice/stream/context.go. The routine answers outside
-- the `sync.Once`, and whether the stream is closed or not. `responseRoutine` and `sendAudio` are not
-- started: `init` has their calls in comments. What `vtr.Process` gives for each piece of the audio is an
-- event; what `vtr.ProcessTextAll` understands, the tests and conversions of the chipper library, and
-- the JSON encoder, which gives a text or `none` where it fails, are parameters.
use vic_cloudless.Prelude.{
  if_intro, Bool-cases, if◌then◌else◌, ℕ, suc, ◌+◌, ◌≡◌, refl, ap, ◌∙◌, inl, inr, Bool, true, false,
  not, ◌&&◌, ◌||◌, Option, none, some, List, [], ◌∷◌, ◌++◌, append-nil, arith,
}
use vic_cloudless.Prelude.Text.{Text, codes}
use vic_cloudless.Voice.Messages.{ErrorKind, IntentResult}

-- What `OnError` is given: the error of the context, or that of the encoder.
pub data StreamError : Type 0 where
  deadline_exceeded canceled encode_failed : StreamError

abbrev pub Fields : Type 0
Fields = List (Text × Text)

-- `IntentGraphResponse`, final and in the mode for intents: its action and parameters.
pub record Graph : Type 0 where
  pub graph_action : Text
  pub graph_parameters : Fields

pub record Intent : Type 0 where
  pub action : Text
  pub fields : Fields
  pub summary : Text  -- the metadata line: query text, confidence and service

pub record Knowledge : Type 0 where
  pub spoken_text : Text
  pub command_type : Text
  pub query_text : Text
  pub domains_used : List Text

-- The calls of the receiver.
pub data Call : Type 0 where
  on_error : ErrorKind → StreamError → Call
  on_intent : IntentResult → Call

-- "domains.%d" for the numbers from `i` on; `number` prints a number.
abbrev domains : (ℕ → Text) → ℕ → List Text → Fields
domains number i [] = []
domains number i (d ∷ ds) = (codes "domains." ++ number i, d) ∷ domains number (i + 1) ds

-- `closed` is set by the stream's `cancel`, `responded` by the `sync.Once`, and `answered` where the
-- routine over the audio has returned.
pub record State : Type 0 where
  pub closed : Bool
  pub responded : Bool
  pub answered : Bool

abbrev pub fresh : State
fresh = record { closed = false; responded = false; answered = false }

-- What happens to the stream: the text that is heard in a piece of audio, empty while nothing is, the
-- end of its context, and a call of `Close`.
pub data Event : Type 0 where
  heard : Text → Event
  context_done : StreamError → Event
  cancel : Event

abbrev once : State → List Call → State × List Call
once s calls = if s.responded then (s, []) else (record s { responded = true }, calls)

abbrev pub is_empty : Text → Bool
is_empty [] = true
is_empty (c ∷ t) = false

-- The first text that is heard.
abbrev pub first_text : List Event → Option Text
first_text [] = none
first_text (heard t ∷ es) = let later = first_text es in if is_empty t then later else some t
first_text (context_done e ∷ es) = first_text es
first_text (cancel ∷ es) = first_text es

-- The context ends before the stream is closed.
abbrev pub expires : List Event → Bool
expires [] = false
expires (heard t ∷ es) = expires es
expires (context_done e ∷ es) = true
expires (cancel ∷ es) = false

abbrev is_timeout : ErrorKind → Bool
is_timeout ErrorKind.timeout = true
is_timeout _ = false

-- The calls but those that say the time is over, and how many these are.
abbrev pub but_timeouts : List Call → List Call
but_timeouts [] = []
but_timeouts (on_error k e ∷ cs) =
    let rest = but_timeouts cs in if is_timeout k then rest else on_error k e ∷ rest
but_timeouts (on_intent r ∷ cs) = on_intent r ∷ but_timeouts cs

abbrev pub timeouts : List Call → ℕ
timeouts [] = 0
timeouts (on_error k e ∷ cs) = let rest = timeouts cs in if is_timeout k then suc rest else rest
timeouts (on_intent r ∷ cs) = timeouts cs

module _ (encode : Fields → Option Text) (number : ℕ → Text) (understand : Text → Text × Fields)  -- `vtr.ProcessTextAll`: the intent and its parameters
    (is_intent : Graph → Bool) (to_intent : Graph → Intent) (to_knowledge : Graph → Knowledge) where
  abbrev encoded : Fields → Option Text
  encoded [] = some []
  encoded (f ∷ fs) = encode (f ∷ fs)

  abbrev intent_call : Text → Text → Option Text → Call
  intent_call action metadata none = on_error ErrorKind.json encode_failed
  intent_call action metadata (some p) =
      on_intent (record { intent = action; parameters = p; metadata = metadata })

  pub send_intent_response : Intent → List Call
  send_intent_response r = intent_call r.action r.summary (encoded r.fields) ∷ []

  abbrev kg_fields : Knowledge → Fields
  kg_fields r =
      (codes "answer", r.spoken_text)
      ∷ (codes "answer_type", r.command_type)
      ∷ (codes "query_text", r.query_text)
      ∷ domains number 0 r.domains_used

  pub send_kg_response : Knowledge → Bool → List Call
  send_kg_response r bypass =
      intent_call
        (if bypass
          then codes "intent_knowledge_response_extend_bypass"
          else codes "intent_knowledge_response_extend")
        [] (encode (kg_fields r))
      ∷ []

  -- `sendIntentGraphResponse`
  unfoldable pub send_intent_graph_response : Graph → List Call
  unfolding send_intent_response send_kg_response
  send_intent_graph_response r =
      if is_intent r
      then send_intent_response (to_intent r)
      else send_kg_response (to_knowledge r) true

  -- What the routine over the audio makes of a text.
  abbrev pub graph_of : Text × Fields → Graph
  graph_of (intent, params) = record { graph_action = intent; graph_parameters = params }

  unfoldable pub answer_text : Text → List Call
  answer_text t = send_intent_graph_response (graph_of (understand t))

  unfoldable pub step : State → Event → State × List Call
  step s (heard t) =
      if s.answered || is_empty t then (s, []) else (record s { answered = true }, answer_text t)
  step s (context_done e) = if s.closed then (s, []) else once s (on_error ErrorKind.timeout e ∷ [])
  step s cancel = (record s { closed = true }, [])

  unfoldable pub run : State → List Event → List Call
  unfolding step
  run s [] = []
  run s (e ∷ es) = let (s', calls) = step s e in calls ++ run s' es

  abbrev pub answer_first : Option Text → List Call
  answer_first none = []
  answer_first (some t) = answer_text t

  but_timeouts-append :
      (xs ys : List Call) → but_timeouts (xs ++ ys) ≡ but_timeouts xs ++ but_timeouts ys
  but_timeouts-append [] ys = refl
  but_timeouts-append (on_intent r ∷ xs) ys = ap (◌∷◌ (on_intent r)) (but_timeouts-append xs ys)
  but_timeouts-append (on_error k e ∷ xs) ys = elim (Bool-cases (is_timeout k)) [
    | inl over ↦ rw over (but_timeouts-append xs ys)
    | inr other ↦ rw other (ap (◌∷◌ (on_error k e)) (but_timeouts-append xs ys))
  ]

  timeouts-append : (xs ys : List Call) → timeouts (xs ++ ys) ≡ timeouts xs + timeouts ys
  timeouts-append [] ys = omega arith
  timeouts-append (on_intent r ∷ xs) ys = timeouts-append xs ys
  timeouts-append (on_error k e ∷ xs) ys = elim (Bool-cases (is_timeout k)) [
    | inl over ↦ rw over (omega (arith, timeouts-append xs ys))
    | inr other ↦ rw other (timeouts-append xs ys)
  ]

  -- An answer is never that the time is over.
  abbrev IsAnswer : List Call → Type 0
  IsAnswer calls = (but_timeouts calls ≡ calls) × (timeouts calls ≡ 0)

  intent_call-IsAnswer : (a m : Text) (o : Option Text) → IsAnswer (intent_call a m o ∷ [])
  intent_call-IsAnswer a m none = (refl, refl)
  intent_call-IsAnswer a m (some p) = (refl, refl)

  answer_text-IsAnswer : (t : Text) → IsAnswer (answer_text t)
  unfolding answer_text send_intent_graph_response send_intent_response send_kg_response
  answer_text-IsAnswer t =
      let r = graph_of (understand t) in
      if_intro IsAnswer (is_intent r) _ _ (intent_call-IsAnswer _ _ _) (intent_call-IsAnswer _ _ _)

  step-quiet : (s : State) (t : Text) → s.answered || is_empty t ≡ true → step s (heard t) ≡ (s, [])
  unfolding step
  step-quiet s t quiet = rw quiet refl

  step-text :
      (s : State) (t : Text)
      → s.answered || is_empty t ≡ false
      → step s (heard t) ≡ (record s { answered = true }, answer_text t)
  unfolding step
  step-text s t text = rw text refl

  step-over :
      (s : State) (e : StreamError)
      → s.closed || s.responded ≡ true
      → step s (context_done e) ≡ (s, [])
  unfolding step
  step-over s e over = elim (Bool-cases s.closed) [
    | inl shut ↦ rw shut refl
    | inr alive ↦ let before : s.responded ≡ true = ground arith in rw (alive, before) refl
  ]

  step-times_out :
      (s : State) (e : StreamError)
      → s.closed || s.responded ≡ false
      → step s (context_done e) ≡ (record s { responded = true }, on_error ErrorKind.timeout e ∷ [])
  unfolding step
  step-times_out s e in_time =
      let alive : s.closed ≡ false = ground arith in
      let first : s.responded ≡ false = ground arith in rw (alive, first) refl

  -- Whether the end of the context is told, in a stream that is closed or has told it, or is not.
  abbrev one_if : Bool → ℕ
  one_if b = if b then 1 else 0

  late :
      (shut told more : Bool)
      → shut || told ≡ true
      → one_if (not shut && (not told && more)) ≡ one_if (not shut && (not told && true))
  late shut told more over = ground arith

  timely :
      (shut told more : Bool)
      → shut || told ≡ false
      → suc (one_if (not shut && (not true && more))) ≡ one_if (not shut && (not told && true))
  timely shut told more in_time = ground arith

  zero_add : (n : ℕ) → 0 + n ≡ n
  zero_add n = omega arith

  -- What is left to answer, before and after a text.
  abbrev left_over : Bool → Option Text → List Call
  left_over answered first = if answered then [] else answer_first first

  none_first :
      (s : State) (t : Text) (es : List Event)
      → s.answered || is_empty t ≡ true
      → left_over s.answered (first_text es) ≡ left_over s.answered (first_text (heard t ∷ es))
  none_first s t es quiet = ground arith

  text_first :
      (s : State) (t : Text) (es : List Event)
      → s.answered || is_empty t ≡ false
      → answer_text t ≡ left_over s.answered (first_text (heard t ∷ es))
  text_first s t es text = ground arith

  run-but_timeouts :
      (es : List Event) (s : State) → but_timeouts (run s es) ≡ left_over s.answered (first_text es)
  unfolding run step
  run-but_timeouts [] s = ground arith
  run-but_timeouts (cancel ∷ es) s = run-but_timeouts es (record s { closed = true })
  run-but_timeouts (context_done e ∷ es) s = elim (Bool-cases (s.closed || s.responded)) [
    | inl over ↦
        ap (λ r. but_timeouts (r.1 ++ run r.0 es)) (step-over s e over) ∙ run-but_timeouts es s
    | inr in_time ↦
        ap (λ r. but_timeouts (r.1 ++ run r.0 es)) (step-times_out s e in_time)
        ∙ run-but_timeouts es (record s { responded = true })
  ]
  run-but_timeouts (heard t ∷ es) s = elim (Bool-cases (s.answered || is_empty t)) [
    | inl quiet ↦
        ap (λ r. but_timeouts (r.1 ++ run r.0 es)) (step-quiet s t quiet)
        ∙ run-but_timeouts es s
        ∙ none_first s t es quiet
    | inr text ↦
        ap (λ r. but_timeouts (r.1 ++ run r.0 es)) (step-text s t text)
        ∙ but_timeouts-append (answer_text t) (run (record s { answered = true }) es)
        ∙ ap (λ x. x ++ but_timeouts (run (record s { answered = true }) es))
            (answer_text-IsAnswer t).0
        ∙ ap (◌++◌ (answer_text t)) (run-but_timeouts es (record s { answered = true }))
        ∙ append-nil (answer_text t)
        ∙ text_first s t es text
  ]

  run-timeouts :
      (es : List Event) (s : State)
      → timeouts (run s es) ≡ one_if (not s.closed && (not s.responded && expires es))
  unfolding run step
  run-timeouts [] s = ground arith
  run-timeouts (cancel ∷ es) s = run-timeouts es (record s { closed = true }) ∙ ground arith
  run-timeouts (context_done e ∷ es) s = elim (Bool-cases (s.closed || s.responded)) [
    | inl over ↦
        ap (λ r. timeouts (r.1 ++ run r.0 es)) (step-over s e over)
        ∙ run-timeouts es s
        ∙ late s.closed s.responded (expires es) over
    | inr in_time ↦
        ap (λ r. timeouts (r.1 ++ run r.0 es)) (step-times_out s e in_time)
        ∙ ap suc (run-timeouts es (record s { responded = true }))
        ∙ timely s.closed s.responded (expires es) in_time
  ]
  run-timeouts (heard t ∷ es) s = elim (Bool-cases (s.answered || is_empty t)) [
    | inl quiet ↦ ap (λ r. timeouts (r.1 ++ run r.0 es)) (step-quiet s t quiet) ∙ run-timeouts es s
    | inr text ↦
        ap (λ r. timeouts (r.1 ++ run r.0 es)) (step-text s t text)
        ∙ timeouts-append (answer_text t) (run (record s { answered = true }) es)
        ∙ ap (λ n. n + timeouts (run (record s { answered = true }) es)) (answer_text-IsAnswer t).1
        ∙ zero_add _
        ∙ run-timeouts es (record s { answered = true })
  ]

  -- However the texts that are heard, the end of the context and the closing of the stream fall: the
  -- receiver is answered with what is made of the first text that is not empty, if there is one, also
  -- after it was told that the time is over, and after the stream was closed; and it is told that the
  -- time is over once, if the context ends before the stream is closed, and else not at all.
  pub run-answers :
      (es : List Event)
      → (but_timeouts (run fresh es) ≡ answer_first (first_text es))
        × (timeouts (run fresh es) ≡ (if expires es then 1 else 0))
  run-answers es = (run-but_timeouts es fresh, run-timeouts es fresh)
