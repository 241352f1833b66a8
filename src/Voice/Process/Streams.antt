-- ===== src/Voice/Process/Streams.antt =====
-- Which streams the loop of `Run` holds open: each step keeps, ends or replaces the current stream.
use vic_cloudless.Prelude.{
  if_intro, subst, ℕ, ◌+◌, ◌<◌, ◌≡◌, refl, ap, ◌∙◌, ◌⊎◌, inl, inr, Bool, true, false, ◌||◌, Option,
  none, some, List, [], ◌∷◌, ◌++◌, append_assoc, arith, ◌==◌, if◌then◌else◌, Bool-cases,
}
use vic_cloudless.Voice.Messages.{Message, Action, Event}
use vic_cloudless.Voice.Process.{
  Config, State, Choice, start, close_current, is_current, before, finish, choose, open_choice,
  on_message, step, run,
}

-- The stream is closed somewhere among the actions.
abbrev pub closes_it : ℕ → Action → Bool
closes_it i (Action.closes j) = i == j
closes_it i _ = false

abbrev pub closed : ℕ → List Action → Bool
closed i [] = false
closed i (a ∷ acts) = closes_it i a || closed i acts

closed-append : (i : ℕ) (xs ys : List Action) → closed i (xs ++ ys) ≡ closed i xs || closed i ys
closed-append i [] ys = refl
closed-append i (x ∷ xs) ys = ground (arith, closed-append i xs ys)

closed_right : (i : ℕ) (xs ys : List Action) → closed i ys ≡ true → closed i (xs ++ ys) ≡ true
closed_right i xs ys h = ground (arith, closed-append i xs ys)

closed_left : (i : ℕ) (xs ys : List Action) → closed i xs ≡ true → closed i (xs ++ ys) ≡ true
closed_left i xs ys h = ground (arith, closed-append i xs ys)

-- The stream that was current is closed.
abbrev pub AllClosed : Option ℕ → List Action → Type 0
AllClosed none acts = Unit {0}
AllClosed (some i) acts = closed i acts ≡ true

close_current-AllClosed : (o : Option ℕ) (ys : List Action) → AllClosed o (close_current o ++ ys)
close_current-AllClosed none ys = tt
close_current-AllClosed (some i) ys = ground arith

-- What one event does to the current stream.
pub data Move (s : State) (r : State × List Action) : Type 0 where
  keep : r.0.strm ≡ s.strm → r.0.next ≡ s.next → Move s r
  retire :
      (i : ℕ)
      → s.strm ≡ some i
      → r.0.strm ≡ none
      → r.0.next ≡ s.next
      → closed i r.1 ≡ true
      → Move s r
  replace : r.0.strm ≡ some s.next → r.0.next ≡ s.next + 1 → AllClosed s.strm r.1 → Move s r

is_current-eq : (o : Option ℕ) (i : ℕ) → is_current o i ≡ true → o ≡ some i
is_current-eq none i h = cc
is_current-eq (some j) i h = ground arith

finish-Move :
    (s : State) (i : ℕ) (acts : List Action) → is_current s.strm i ≡ true → Move s (finish s acts)
finish-Move s i acts h =
    let e = is_current-eq s.strm i h in
    retire i e refl refl (
      closed_right i acts (close_current s.strm)
        (ap (λ o. closed i (close_current o)) e ∙ ground arith))

-- An event of a stream that is not current is ignored.
if_current-Move :
    (s : State) (i : ℕ) (acts : List Action)
    → Move s (if is_current s.strm i then finish s acts else (s, []))
if_current-Move s i acts = elim (Bool-cases (is_current s.strm i)) [
  | inl h ↦ rw h (finish-Move s i acts h)
  | inr h ↦ rw h (keep refl refl)
]

open_choice-Move :
    (c : Config) (s : State) (ch : Choice) (extra : List Action)
    → Move s (before (close_current s.strm) (before extra (open_choice c s ch)))
unfolding open_choice
open_choice-Move c s (Choice.refused e) extra = keep refl refl
open_choice-Move c s (Choice.accepted k) extra =
    replace refl refl (close_current-AllClosed s.strm _)

on_message-Move : (c : Config) (s : State) (m : Message) (t : Bool) → Move s (on_message c s m t)
unfolding on_message
on_message-Move c s (Message.hotword hw) t = open_choice-Move c s (choose c hw) _
on_message-Move c s (Message.debug_file f) t = keep refl refl
on_message-Move c s Message.audio_done t = keep refl refl
on_message-Move c s (Message.audio buf) t = keep refl refl
on_message-Move c s Message.connection_check t =
    replace refl refl (close_current-AllClosed s.strm _)
on_message-Move c s Message.other t = keep refl refl

pub step-Move : (c : Config) (s : State) (e : Event) → Move s (step c s e)
unfolding step
step-Move c s (Event.message m t) = on_message-Move c s m t
step-Move c s (Event.intent i r) = if_current-Move s i _
step-Move c s (Event.failed i k e) = if_current-Move s i _
step-Move c s (Event.opened i session) = elim (Bool-cases (is_current s.strm i)) [
  | inl h ↦ rw h (keep refl refl)
  | inr h ↦ rw h (keep refl refl)
]
step-Move c s (Event.check_failed i k e) = if_current-Move s i _
step-Move c s Event.check_opened = keep refl refl
step-Move c s (Event.check_result i r) = if_current-Move s i _
step-Move c s Event.done = keep refl refl

-- Streams are numbered below `next`, and of those all but the current one have been closed.
pub record IsTidy (s : State) (past : List Action) : Type 0 where
  pub current_known : (i : ℕ) → s.strm ≡ some i → i < s.next
  pub others_closed : (i : ℕ) → i < s.next → (s.strm ≡ some i) ⊎ (closed i past ≡ true)

Move-IsTidy :
    (s : State) (r : State × List Action) (past : List Action)
    → Move s r
    → IsTidy s past
    → IsTidy r.0 (past ++ r.1)
Move-IsTidy s r past (keep e n) t = record {
  current_known = λ i h. ground (arith, t.current_known i);
  others_closed = λ i h. ground (arith, t.others_closed i, closed_left i past r.1);
}
Move-IsTidy s r past (retire j e f n cl) t = record {
  current_known = λ i h. cc;
  others_closed =
      λ i h. ground (arith, t.others_closed i, closed_left i past r.1, closed_right i past r.1);
}
Move-IsTidy s r past (replace f n cl) t = record {
  current_known = λ i h. ground arith;
  others_closed = λ i h. elim (Bool-cases (i == s.next)) [
    | inl same ↦ inl (ground arith)
    | inr old ↦ inr (elim (t.others_closed i (ground arith)) [
      | inl cur ↦ closed_right i past r.1 (subst_AllClosed cur)
      | inr before ↦ closed_left i past r.1 before
    ])
  ];
}
  where
    subst_AllClosed : {i : ℕ} → s.strm ≡ some i → closed i r.1 ≡ true
    subst_AllClosed {i} e = rw e at cl

run-IsTidy :
    (c : Config) (s : State) (es : List Event) (past : List Action)
    → IsTidy s past
    → IsTidy (run c s es).0 (past ++ (run c s es).1)
unfolding run
run-IsTidy c s [] past t = Move-IsTidy s (s, []) past (keep refl refl) t
run-IsTidy c s (e ∷ es) past t =
    if_intro (λ (r : State × List Action). IsTidy r.0 (past ++ r.1)) s.running _ _
      (subst (IsTidy (run c (step c s e).0 es).0)
        (append_assoc past (step c s e).1 (run c (step c s e).0 es).1)
        (run-IsTidy c (step c s e).0 es (past ++ (step c s e).1)
          (Move-IsTidy s (step c s e) past (step-Move c s e) t)))
      (Move-IsTidy s (s, []) past (keep refl refl) t)

-- From the start, after any schedule of events, every stream that was ever opened has been closed,
-- except the one that is current.
pub run-start-IsTidy : (c : Config) (es : List Event) → IsTidy (run c start es).0 (run c start es).1
run-start-IsTidy c es =
    run-IsTidy c start es []
      (record { current_known = λ i h. cc; others_closed = λ i h. absurd (omega arith) })
