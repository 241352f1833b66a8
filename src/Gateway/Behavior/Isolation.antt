-- ===== src/Gateway/Behavior/Isolation.antt =====
-- Whose answers a stream of the control of behavior sends.
use vic_cloudless.Prelude.{
  if◌then◌else◌, ◌==◌, Bool-cases, length, ℕ, ◌+◌, ◌≡◌, refl, sym, ap, ◌∙◌, ◌≢◌, inl, inr, Bool,
  false, List, [], ◌∷◌, ◌++◌, append_assoc, arith,
}
use vic_cloudless.Gateway.Behavior.{
  Selected, response, responses_closed, ping_ticker, Sent, says, keep_alive, Standing, send_then,
  response_handler, done, send_failed,
}

-- The answers that are for one connection, up to where the stream is done or the engine's channel is
-- closed.
abbrev pub own_replies : ℕ → List Selected → List Sent
own_replies conn_id [] = []
own_replies conn_id (response to m ∷ ss) =
    let rest = own_replies conn_id ss in if conn_id == to then says m ∷ rest else rest
own_replies conn_id (done ∷ ss) = []
own_replies conn_id (responses_closed ∷ ss) = []
own_replies conn_id (ping_ticker ∷ ss) = own_replies conn_id ss

-- What is sent, but for the pings.
abbrev pub answers : List Sent → List Sent
answers [] = []
answers (says m ∷ out) = says m ∷ answers out
answers (keep_alive ∷ out) = answers out

answers-cons : (x : Sent) (out : List Sent) → answers (x ∷ out) ≡ answers (x ∷ []) ++ answers out
answers-cons (says m) out = refl
answers-cons keep_alive out = refl

module _ (sends : Sent → ℕ → Bool) (conn_id : ℕ) where
  -- The sends from the `i`-th on, and how the handler stands, where these answers are for the
  -- connection: all of them are sent, or the last send failed, and what was to be said up to it is sent.
  pub data Delivered (i : ℕ) (own : List Sent) : List Sent × Standing → Type 0 where
    whole :
        {standing : Standing} (out : List Sent)
        → standing ≢ send_failed
        → answers out ≡ own
        → Delivered i own (out, standing)
    cut_short :
        (out : List Sent) (x : Sent) (rest : List Sent)
        → sends x (i + length out) ≡ false
        → own ≡ answers (out ++ x ∷ []) ++ rest
        → Delivered i own (out ++ x ∷ [], send_failed)

  after-Delivered :
      (x : Sent) (i : ℕ) (own : List Sent) (r : List Sent × Standing)
      → Delivered (i + 1) own r
      → Delivered i (answers (x ∷ []) ++ own) (x ∷ r.0, r.1)
  after-Delivered x i own _ (whole out n e) =
      whole (x ∷ out) n (answers-cons x out ∙ ap (λ s. answers (x ∷ []) ++ s) e)
  after-Delivered x i own _ (cut_short out y rest f e) =
      let k : i + 1 + length out ≡ i + length (x ∷ out) = omega arith in
      cut_short (x ∷ out) y rest (ap (sends y) (sym k) ∙ f) (
        ap (λ s. answers (x ∷ []) ++ s) e
        ∙ sym (append_assoc (answers (x ∷ [])) (answers (out ++ y ∷ [])) rest)
        ∙ ap (λ s. s ++ rest) (sym (answers-cons x (out ++ y ∷ []))))

  send-Delivered :
      (x : Sent) (i : ℕ) (own : List Sent) (r : List Sent × Standing)
      → Delivered (i + 1) own r
      → Delivered i (answers (x ∷ []) ++ own) (send_then sends conn_id x i r)
  send-Delivered x i own r d = elim (Bool-cases (sends x i)) [
    | inl ok ↦ rw ok (after-Delivered x i own r d)
    | inr failed ↦
        let k : i + 0 ≡ i = omega arith in
        rw failed (cut_short [] x own (ap (sends x) k ∙ failed) refl)
  ]

  -- A stream sends its client what the engine says to its connection, and to no other, all of it and in
  -- order, up to where it is done or the engine's channel is closed; or else its last send failed,
  -- and it has sent what there was to say up to that one.
  pub response_handler-Delivered :
      (ss : List Selected) (i : ℕ)
      → Delivered i (own_replies conn_id ss) (response_handler sends conn_id i ss)
  unfolding response_handler
  response_handler-Delivered [] i = whole [] (λ e. cc e) refl
  response_handler-Delivered (Selected.done ∷ ss) i = whole [] (λ e. cc e) refl
  response_handler-Delivered (Selected.responses_closed ∷ ss) i = whole [] (λ e. cc e) refl
  response_handler-Delivered (Selected.ping_ticker ∷ ss) i =
      send-Delivered keep_alive i _ _ (response_handler-Delivered ss (i + 1))
  response_handler-Delivered (Selected.response to m ∷ ss) i = elim (Bool-cases (conn_id == to)) [
    | inl own ↦ rw own (send-Delivered (says m) i _ _ (response_handler-Delivered ss (i + 1)))
    | inr other ↦ rw other (response_handler-Delivered ss i)
  ]
