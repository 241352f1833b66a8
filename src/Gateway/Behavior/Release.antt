-- ===== src/Gateway/Behavior/Release.antt =====
-- What the engine is written over a connection that asks for control, and who is answered.
use vic_cloudless.Prelude.{
  get_elem?, length, Bool-cases, ℕ, suc, ◌+◌, ◌≡◌, refl, ap, ◌∙◌, inl, inr, Bool, true, false,
  Option, none, some, List, [], ◌∷◌, ◌++◌, arith,
}
use vic_cloudless.Gateway.Behavior.{
  ControlRequest, EngineMessage, control_release, to_gateway_wrapper, Received, got, recv_failed,
  Attempt, write_then, request_handler,
}

-- The requests that were received first, and what they say to the engine.
pub data Follows (conn_id : ℕ) : List Received → List Attempt → Type 0 where
  stops : (rs : List Received) → Follows conn_id rs []
  passed_on :
      {r : ControlRequest} {rs : List Received} {out : List Attempt} (m : EngineMessage)
      → to_gateway_wrapper r ≡ some m
      → Follows conn_id rs out
      → Follows conn_id (got r ∷ rs) ((conn_id, m) ∷ out)

module _ (writes : Attempt → ℕ → Bool) (conn_id : ℕ) where
  -- Why the handler ends behind the messages: nothing more is received, or a request that is
  -- unexpected, or the last of them is not written.
  pub data Cause (i : ℕ) (rs : List Received) (out : List Attempt) : Type 0 where
    client_gone : get_elem? rs (length out) ≡ some recv_failed → Cause i rs out
    bad_request :
        (r : ControlRequest)
        → get_elem? rs (length out) ≡ some (got r)
        → to_gateway_wrapper r ≡ none
        → Cause i rs out
    not_written :
        (a : Attempt) (j : ℕ)
        → get_elem? out j ≡ some a
        → length out ≡ suc j
        → writes a (i + j) ≡ false
        → Cause i rs out

  -- The messages pass on all requests, or those before what ends the handler, with a release behind.
  pub data Releases (i : ℕ) (rs : List Received) : List Attempt × Bool → Type 0 where
    running :
        (out : List Attempt)
        → Follows conn_id rs out
        → length out ≡ length rs
        → Releases i rs (out, false)
    released :
        (out : List Attempt)
        → Follows conn_id rs out
        → Cause i rs out
        → Releases i rs (out ++ (conn_id, control_release) ∷ [], true)

  Cause-later :
      (r : Received) (rs : List Received) (a : Attempt) (i : ℕ) (out : List Attempt)
      → Cause (i + 1) rs out
      → Cause i (r ∷ rs) (a ∷ out)
  Cause-later r rs a i out (client_gone e) = client_gone e
  Cause-later r rs a i out (bad_request q e n) = bad_request q e n
  Cause-later r rs a i out (not_written b j e l f) =
      let same : i + suc j ≡ i + 1 + j = omega arith in
      not_written b (suc j) e (ap suc l) (ap (writes b) same ∙ f)

  one_more :
      (r : ControlRequest) (rs : List Received) (i : ℕ) (m : EngineMessage)
      (out : List Attempt × Bool)
      → to_gateway_wrapper r ≡ some m
      → Releases (i + 1) rs out
      → Releases i (got r ∷ rs) ((conn_id, m) ∷ out.0, out.1)
  one_more r rs i m _ e (running out f l) = running _ (passed_on m e f) (ap suc l)
  one_more r rs i m _ e (released out f c) =
      released ((conn_id, m) ∷ out) (passed_on m e f) (Cause-later (got r) rs (conn_id, m) i out c)

  write_then-Releases :
      (r : ControlRequest) (rs : List Received) (i : ℕ) (o : Option EngineMessage)
      (rest : List Attempt × Bool)
      → to_gateway_wrapper r ≡ o
      → Releases (i + 1) rs rest
      → Releases i (got r ∷ rs) (write_then writes conn_id i o rest)
  write_then-Releases r rs i none rest e ih = released [] (stops _) (bad_request r refl e)
  write_then-Releases r rs i (some m) rest e ih = elim (Bool-cases (writes (conn_id, m) i)) [
    | inl ok ↦ rw ok (one_more r rs i m rest e ih)
    | inr failed ↦
        let here : i + 0 ≡ i = omega arith in
        rw failed (
          released ((conn_id, m) ∷ []) (passed_on m e (stops rs))
            (not_written (conn_id, m) 0 refl refl (ap (writes (conn_id, m)) here ∙ failed)))
  ]

  -- The handler of a connection's requests writes the engine what the first requests say, in order and
  -- under the id of the connection: all of them while it runs, and where it has ended, those before
  -- its cause, with a release as the last that it writes.
  pub request_handler-Releases :
      (rs : List Received) (i : ℕ) → Releases i rs (request_handler writes conn_id i rs)
  unfolding request_handler
  request_handler-Releases [] i = running [] (stops []) refl
  request_handler-Releases (recv_failed ∷ rs) i = released [] (stops _) (client_gone refl)
  request_handler-Releases (got r ∷ rs) i =
      write_then-Releases r rs i _ _ refl (request_handler-Releases rs (i + 1))
