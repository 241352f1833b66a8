-- ===== src/Gateway/Rpc.antt =====
-- The calls of clients that the gateway passes to the engine as protobuf messages: the handlers of
-- cloud/message_handler.go that write a request and, most of them, wait for a message of one type.
-- They share the listeners of Gateway.Listeners. A message's type is a text; what it says is a
-- parameter, since the messages are those of the protobuf library.
pub mod Sharing
pub mod Handlers
pub mod Actions
pub mod Onboarding
pub mod Speech
pub mod Playback
pub mod Photos
mod Tests
use vic_cloudless.Clad.Wire.{and_then}
use vic_cloudless.Prelude.{
  leb→le, leb, All-append, Option-cases, drop, concat, concat-append, list_laws, le→leb, Bool-cases,
  length-drop, take-all, length-replicate, get_elem?, lt→leb_false, take-append_self, if◌then◌else◌,
  replicate, ltb→lt, ◌==◌, exists, All, length-append, length-take, if_intro, drop-append_self,
  take, ltb, ==_iff, take-append-drop, lt→ltb, length, ℕ, zero, suc, ◌+◌, ◌-◌, ◌*◌, ◌/◌, ◌%◌, ◌^◌,
  ◌≤◌, ◌<◌, min, ◌≡◌, refl, sym, ap, ◌∙◌, subst, ◌≢◌, ◌↔◌, ◌⊎◌, inl, inr, Bool, true, false, not,
  ◌&&◌, ◌||◌, Option, none, some, List, [], ◌∷◌, ◌++◌, map, append-nil, append_assoc, arith,
}
use vic_cloudless.Prelude.Text.{
  codes, split-Without, split, text_eq_sound, split-append, to_lower_idem, lower, to_lower,
  has_prefix, contains-middle, has_prefix-append, contains, Without, text_eq, trim_space,
  text_eq_refl, Text, contains_sound, text_eq_iff, has_prefix_sound,
}
use vic_cloudless.Gateway.Listeners.{
  Manager, create_channel, create_unique_channel, delete_listener, send_to_listeners,
}

-- How a handler goes about its call: the type of its request, and of the message that it waits for.
pub data Handler : Type 0 where
  tells : (request : Text) → Handler
  asks : (request listens : Text) → Handler
  acts : (request listens : Text) → Handler
  updates : (request listens : Text) → Handler

-- How far a call has come: it waits for a channel, or it has ended.
pub data Started : Type 0 where
  waits : ℕ → Started
  request_processing invalid_argument update_in_progress not_written : Started

-- `ValidateActionTag`; a negative tag has a pattern above the last one.
abbrev pub validate_action_tag : ℕ → Bool
validate_action_tag id_tag = leb 2000001 id_tag && leb id_tag 3000000

-- The listeners, what each channel holds that was not taken out of it, and the types of the requests
-- that were written to the engine.
pub record Gateway (R : Type 0) : Type 0 where
  pub listeners : Manager
  pub inbox : ℕ → List R
  pub requests : List Text

module _ {R : Type 0} where
  abbrev pub wrote : Text → Gateway R → Gateway R
  wrote request g = record g { requests = g.requests ++ request ∷ [] }

  -- What follows the making of a channel: the request is written, or the channel is given back.
  abbrev pub after_channel : Bool → (request tag : Text) → Gateway R → Manager → Gateway R × Started
  after_channel written request tag g m =
      if written
      then (wrote request (record g { listeners = m }), waits g.listeners.next)
      else (record g { listeners = delete_listener m tag g.listeners.next }, not_written)

  abbrev pub ask : Bool → (request tag : Text) → Gateway R → Gateway R × Started
  ask written request tag g = after_channel written request tag g (create_channel g.listeners tag)

  abbrev pub ask_unique :
      Bool → (request tag : Text) → Gateway R → Option Manager → Gateway R × Started
  ask_unique written request tag g none = (g, update_in_progress)
  ask_unique written request tag g (some m) = after_channel written request tag g m

  -- A call up to where it waits, with the tag of its action, if it has one; `written` says whether its
  -- request is written.
  unfoldable pub start : Handler → ℕ → Bool → Gateway R → Gateway R × Started
  unfolding create_channel create_unique_channel delete_listener
  start (tells request) id_tag written g =
      if written then (wrote request g, request_processing) else (g, not_written)
  start (asks request tag) id_tag written g = ask written request tag g
  start (acts request tag) id_tag written g =
      if validate_action_tag id_tag then ask written request tag g else (g, invalid_argument)
  start (updates request tag) id_tag written g =
      ask_unique written request tag g (create_unique_channel g.listeners tag)

  abbrev pub put_in : List ℕ → R → (ℕ → List R) → ℕ → List R
  put_in cs r inbox j = if exists (λ c. c == j) cs then inbox j ++ r ∷ [] else inbox j

  abbrev pub delivered : R → Gateway R → Option (Manager × List ℕ) → Option (Gateway R)
  delivered r g none = none
  delivered r g (some (m, cs)) = some (record g { listeners = m; inbox = put_in cs r g.inbox })

  -- A message of the engine, as `ProcessMessages` passes it on.
  unfoldable pub deliver : (ℕ → Bool) → Text → R → Gateway R → Option (Gateway R)
  deliver slow tag r g = delivered r g (send_to_listeners slow g.listeners tag)

  abbrev pub first_of : List R → Option R
  first_of [] = none
  first_of (r ∷ rs) = some r

  -- The handler takes what its channel holds first, and gives the channel back; `none` where there is
  -- nothing to take yet. The status that the handler sets on the message is left out.
  unfoldable pub finish : Text → ℕ → Gateway R → Option (Gateway R × R)
  finish tag c g =
      and_then (first_of (g.inbox c))
        (λ r. some (record g { listeners = delete_listener g.listeners tag c }, r))
