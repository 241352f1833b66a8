-- ===== src/Gateway/Rpc/Playback.antt =====
-- The audio that a client plays on the robot: `ExternalAudioStreamRequestToGatewayWrapper`,
-- `ExternalAudioStreamRequestHandler` and `ExternalAudioStreamResponseHandler` of
-- cloud/message_handler.go. What a request says is a number.
use vic_cloudless.Prelude.{
  Bool-cases, if◌then◌else◌, ℕ, ◌≡◌, refl, inl, inr, Bool, true, false, Option, none, some, List,
  [], ◌∷◌,
}

-- `ExternalAudioStreamRequest`; `unset` is a request of no type.
pub data AudioRequest : Type 0 where
  prepare chunk complete cancel : ℕ → AudioRequest
  unset : AudioRequest

-- The message to the engine.
pub data EngineMessage : Type 0 where
  audio_prepare audio_chunk audio_complete audio_cancel : ℕ → EngineMessage

unfoldable pub to_gateway_wrapper : AudioRequest → Option EngineMessage
to_gateway_wrapper (prepare n) = some (audio_prepare n)
to_gateway_wrapper (chunk n) = some (audio_chunk n)
to_gateway_wrapper (complete n) = some (audio_complete n)
to_gateway_wrapper (cancel n) = some (audio_cancel n)
to_gateway_wrapper unset = none

-- What `Recv` gives.
pub data Received : Type 0 where
  request : AudioRequest → Received
  recv_error : Received

-- What the loop of responses finds: the requests have ended, the channel is closed, or a response.
pub data Selected : Type 0 where
  done channel_closed : Selected
  response : ℕ → Selected

-- How the response handler ends, or that it waits.
pub data Standing : Type 0 where
  waiting ended failed_to_retrieve send_failed : Standing

-- The requests have types, and become these messages.
pub data Becomes : List AudioRequest → List EngineMessage → Type 0 where
  none_become : Becomes [] []
  one_becomes :
      {rs : List AudioRequest} {ms : List EngineMessage} (r : AudioRequest) (m : EngineMessage)
      → to_gateway_wrapper r ≡ some m
      → Becomes rs ms
      → Becomes (r ∷ rs) (m ∷ ms)

module _ (writes : EngineMessage → Bool) where
  -- A message whose write fails is lost, and the loop goes on.
  abbrev pub write_then :
      Option EngineMessage → List EngineMessage × Bool → List EngineMessage × Bool
  write_then none rest = ([], true)
  write_then (some m) rest = if writes m then (m ∷ rest.0, rest.1) else rest

  -- `ExternalAudioStreamRequestHandler`: what is written, and whether it has ended.
  unfoldable pub request_handler : List Received → List EngineMessage × Bool
  unfolding to_gateway_wrapper
  request_handler [] = ([], false)
  request_handler (recv_error ∷ rs) = ([], true)
  request_handler (request r ∷ rs) = write_then (to_gateway_wrapper r) (request_handler rs)

  -- The messages of requests that have a type, in order, but for those whose write fails.
  abbrev pub kept : List EngineMessage → List EngineMessage
  kept [] = []
  kept (m ∷ ms) = let rest = kept ms in if writes m then m ∷ rest else rest

  abbrev pub received : List AudioRequest → List Received → List Received
  received [] later = later
  received (r ∷ rs) later = request r ∷ received rs later

  write_then-kept :
      (m : EngineMessage) (ms : List EngineMessage) (b : Bool)
      → write_then (some m) (kept ms, b) ≡ (kept (m ∷ ms), b)
  write_then-kept m ms b = elim (Bool-cases (writes m)) [
    | inl ok ↦ rw ok refl
    | inr lost ↦ rw lost refl
  ]

  -- Requests that have a type are written in order, but for those whose write fails, up to the first
  -- that has none, or to the end of the client's stream.
  pub request_handler-kept :
      {rs : List AudioRequest} {ms : List EngineMessage} (later : List Received)
      → Becomes rs ms
      → (request_handler (received rs (request unset ∷ later)) ≡ (kept ms, true))
        × (request_handler (received rs (recv_error ∷ later)) ≡ (kept ms, true))
  unfolding request_handler to_gateway_wrapper
  request_handler-kept later none_become = (refl, refl)
  request_handler-kept later (one_becomes {ms} r m e more) =
      let (to_unset, to_end) = request_handler-kept later more in
      (rw (e, to_unset) (write_then-kept m ms true), rw (e, to_end) (write_then-kept m ms true))

module _ (sends : ℕ → Bool) where
  abbrev pub send_then : ℕ → List ℕ × Standing → List ℕ × Standing
  send_then r rest = if sends r then (r ∷ rest.0, rest.1) else (r ∷ [], send_failed)

  -- `ExternalAudioStreamResponseHandler`: what is sent, the one that fails included.
  unfoldable pub response_handler : List Selected → List ℕ × Standing
  response_handler [] = ([], waiting)
  response_handler (done ∷ ss) = ([], ended)
  response_handler (channel_closed ∷ ss) = ([], failed_to_retrieve)
  response_handler (response r ∷ ss) = send_then r (response_handler ss)
