-- ===== src/Gateway/Behavior.antt =====
-- The control of the robot's behavior: `BehaviorRequestToGatewayWrapper`,
-- `BehaviorControlRequestHandler`, `BehaviorControlResponseHandler` and `AssumeBehaviorControl` of
-- cloud/message_handler.go. Whether a write to the engine and a send to the client succeed are
-- parameters.
pub mod Release
pub mod Isolation
use vic_cloudless.Prelude.{
  ◌==◌, if◌then◌else◌, ℕ, ◌+◌, Bool, true, false, Option, none, some, List, [], ◌∷◌,
}

-- `BehaviorControlRequest`, with its priority where control is asked for.
pub data ControlRequest : Type 0 where
  ask : ℕ → ControlRequest
  give_up : ControlRequest
  unexpected : ControlRequest

-- What the engine is written.
pub data EngineMessage : Type 0 where
  control_request : ℕ → EngineMessage
  control_release : EngineMessage

-- `BehaviorRequestToGatewayWrapper`
pub to_gateway_wrapper : ControlRequest → Option EngineMessage
to_gateway_wrapper give_up = some control_release
to_gateway_wrapper (ask p) = some (control_request p)
to_gateway_wrapper unexpected = none

-- What `Recv` gives.
pub data Received : Type 0 where
  got : ControlRequest → Received
  recv_failed : Received

-- A message with the id of its connection.
abbrev pub Attempt : Type 0
Attempt = ℕ × EngineMessage

module _ (writes : Attempt → ℕ → Bool)  -- whether the engine's manager writes the message
    (conn_id : ℕ) where
  -- What is deferred: the release is written, whatever became of it, and `done` is closed.
  abbrev pub finish : List Attempt × Bool
  finish = ((conn_id, control_release) ∷ [], true)

  abbrev pub write_then : ℕ → Option EngineMessage → List Attempt × Bool → List Attempt × Bool
  write_then i none rest = finish
  write_then i (some m) rest =
      if writes (conn_id, m) i
      then ((conn_id, m) ∷ rest.0, rest.1)
      else ((conn_id, m) ∷ finish.0, finish.1)

  -- `BehaviorControlRequestHandler`: the messages that it tries to write, in order, and whether it has
  -- ended, with `done` closed. Where the input stops it waits.
  unfoldable pub request_handler : ℕ → List Received → List Attempt × Bool
  unfolding to_gateway_wrapper
  request_handler i [] = ([], false)
  request_handler i (recv_failed ∷ rs) = finish
  request_handler i (got r ∷ rs) = write_then i (to_gateway_wrapper r) (request_handler (i + 1) rs)

-- What the loop of the responses selects.
pub data Selected : Type 0 where
  done : Selected
  responses_closed : Selected
  ping_ticker : Selected
  response : ℕ → ℕ → Selected  -- the id of its connection, and what it says

pub data Sent : Type 0 where
  says : ℕ → Sent
  keep_alive : Sent

-- How the handler stands, or what it returns.
pub data Standing : Type 0 where
  waiting returned failed_to_retrieve send_failed : Standing

module _ (sends : Sent → ℕ → Bool)  -- whether the send succeeds, with the stream's context alive
    (conn_id : ℕ) where
  abbrev pub send_then : Sent → ℕ → List Sent × Standing → List Sent × Standing
  send_then s i rest = if sends s i then (s ∷ rest.0, rest.1) else (s ∷ [], send_failed)

  -- `BehaviorControlResponseHandler`, with the number of sends so far.
  unfoldable pub response_handler : ℕ → List Selected → List Sent × Standing
  response_handler i [] = ([], waiting)
  response_handler i (done ∷ ss) = ([], returned)
  response_handler i (responses_closed ∷ ss) = ([], failed_to_retrieve)
  response_handler i (ping_ticker ∷ ss) = send_then keep_alive i (response_handler (i + 1) ss)
  response_handler i (response to m ∷ ss) =
      let skipped = response_handler i ss in
      let rest = response_handler (i + 1) ss in
      if conn_id == to then send_then (says m) i rest else skipped

-- What `AssumeBehaviorControl` comes to.
pub data Assumed : Type 0 where
  refused not_written : Assumed
  served : List Sent → Standing → Assumed

abbrev assumed :
    (Attempt → ℕ → Bool) → (Sent → ℕ → Bool) → ℕ → Option EngineMessage → List Selected → Assumed
unfolding response_handler
assumed writes sends conn_id none ss = refused
assumed writes sends conn_id (some m) ss =
    let (out, standing) = response_handler sends conn_id 0 ss in
    if writes (conn_id, m) 0 then served out standing else not_written

-- `AssumeBehaviorControl`, with the id that `Write` draws; `done` is never closed, so it is not among
-- what is selected.
unfoldable pub assume_behavior_control :
    (Attempt → ℕ → Bool) → (Sent → ℕ → Bool) → ℕ → ControlRequest → List Selected → Assumed
unfolding to_gateway_wrapper response_handler
assume_behavior_control writes sends conn_id r ss =
    assumed writes sends conn_id (to_gateway_wrapper r) ss
