-- ===== src/Voice/Process/Answers.antt =====
-- What the loop of `Run` does with what the streams report: one answer for each stream, and the
-- refused hotword, which leaves a closed stream current.
use vic_cloudless.Prelude.{ℕ, ◌<◌, ◌≡◌, refl, true, false, List, [], ◌∷◌, arith, if_intro}
use vic_cloudless.Prelude.Text.{Text}
use vic_cloudless.Voice.Messages.{ErrorKind, Failure, IntentResult, ConnectionResult, Action, Event}
use vic_cloudless.Voice.Process.{Config, State, is_current, step, run}
use vic_cloudless.Voice.Process.Streams.{Move, keep, retire, replace, step-Move}

-- The events with which a stream, or a check of the connection, ends.
pub data IsAnswer (i : ℕ) : Event → Type 0 where
  intent : (r : IntentResult) → IsAnswer i (Event.intent i r)
  failed : (k : ErrorKind) (e : Failure) → IsAnswer i (Event.failed i k e)
  check_failed : (k : ErrorKind) (e : Text) → IsAnswer i (Event.check_failed i k e)
  check_result : (r : ConnectionResult) → IsAnswer i (Event.check_result i r)

-- All that a stream can report.
pub data IsReport (i : ℕ) : Event → Type 0 where
  answer : {e : Event} → IsAnswer i e → IsReport i e
  opened : (session : Text) → IsReport i (Event.opened i session)

-- A number that was given out and is not the current stream.
abbrev pub Retired : ℕ → State → Type 0
Retired i s = (i < s.next) × (is_current s.strm i ≡ false)

Move-Retired :
    (s : State) (r : State × List Action) (i : ℕ) → Move s r → Retired i s → Retired i r.0
Move-Retired s r i (keep e n) h = ground arith
Move-Retired s r i (retire j e f n cl) h = ground arith
Move-Retired s r i (replace f n cl) h = ground arith

run-Retired :
    (c : Config) (s : State) (es : List Event) (i : ℕ) → Retired i s → Retired i (run c s es).0
unfolding run
run-Retired c s [] i h = h
run-Retired c s (e ∷ es) i h =
    if_intro (λ (r : State × List Action). Retired i r.0) s.running _ _
      (run-Retired c (step c s e).0 es i (Move-Retired s (step c s e) i (step-Move c s e) h)) h

answer-Retired :
    (c : Config) (s : State) (i : ℕ) (e : Event)
    → IsAnswer i e
    → i < s.next
    → is_current s.strm i ≡ true
    → Retired i (step c s e).0
unfolding step
answer-Retired c s i _ (intent r) h cur = rw cur (h, refl)
answer-Retired c s i _ (failed k e) h cur = rw cur (h, refl)
answer-Retired c s i _ (check_failed k e) h cur = rw cur (h, refl)
answer-Retired c s i _ (check_result r) h cur = rw cur (h, refl)

report_of_retired :
    (c : Config) (s : State) (i : ℕ) (e : Event)
    → IsReport i e
    → is_current s.strm i ≡ false
    → step c s e ≡ (s, [])
unfolding step
report_of_retired c s i _ (answer (intent r)) h = rw h
report_of_retired c s i _ (answer (failed k e)) h = rw h
report_of_retired c s i _ (answer (check_failed k e)) h = rw h
report_of_retired c s i _ (answer (check_result r)) h = rw h
report_of_retired c s i _ (opened session) h = rw h

-- Each stream is answered once: when the current stream has reported its intent, its error or the
-- result of its check, then after any further events whatever that stream still reports changes
-- nothing and writes nothing.
pub one_answer :
    (c : Config) (s : State) (i : ℕ) {e e' : Event} (es : List Event)
    → i < s.next
    → is_current s.strm i ≡ true
    → IsAnswer i e
    → IsReport i e'
    → let s' = (run c (step c s e).0 es).0 in step c s' e' ≡ (s', [])
one_answer c s i {e} {e'} es h cur a b =
    report_of_retired c _ i e' b
      (run-Retired c (step c s e).0 es i (answer-Retired c s i e a h cur)).1
