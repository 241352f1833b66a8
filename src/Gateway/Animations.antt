-- ===== src/Gateway/Animations.antt =====
-- The lists of animations and of their triggers: `ListAnimations` and `ListAnimationTriggers` of
-- cloud/message_handler.go. The select takes a chunk of names, finds the channel closed, or waits too
-- long; what it finds is a list of arrivals.
pub mod Shown
mod Tests
use vic_cloudless.Prelude.{if◌then◌else◌, Bool, true, false, ◌||◌, List, [], ◌∷◌, ◌++◌}
use vic_cloudless.Prelude.Text.{contains, text_eq, codes, Text, to_lower}

-- What the select finds.
pub data Arrival : Type 0 where
  names : List Text → Arrival
  channel_closed timed_out : Arrival

-- How the call ends; `waiting` where the arrivals do not end it.
pub data Listed : Type 0 where
  listed : List Text → Listed
  not_written failed_to_retrieve deadline_exceeded waiting : Listed

-- `endOfAnimationList`
abbrev pub end_of_animation_list : Text
end_of_animation_list = codes "EndOfListAnimationsResponses"

abbrev pub is_end : Text → Bool
is_end name = text_eq name end_of_animation_list

module _ (hidden : Text → Bool)  -- the names that are kept from the SDK
  where
    -- One name of a chunk, with the names so far and whether the end was among them.
    abbrev pub add_name : Text → List Text × Bool → List Text × Bool
    add_name name (anims, done) =
        if is_end name
        then (anims, true)
        else if hidden name
        then (anims, done)
        else (anims ++ name ∷ [], done)

    abbrev pub add_names : List Text → List Text × Bool → List Text × Bool
    add_names [] so_far = so_far
    add_names (name ∷ ns) so_far = add_names ns (add_name name so_far)

    -- The loop; a chunk is read to its end before `done` is looked at.
    unfoldable pub collect : List Arrival → List Text → Listed
    collect [] anims = waiting
    collect (channel_closed ∷ later) anims = failed_to_retrieve
    collect (timed_out ∷ later) anims = deadline_exceeded
    collect (names ns ∷ later) anims =
        let (more, done) = add_names ns (anims, false) in
        let rest = collect later more in if done then listed more else rest

    -- The call, of whether its request is written.
    unfoldable pub request_list : Bool → List Arrival → Listed
    unfolding collect
    request_list written arrivals = if written then collect arrivals [] else not_written

abbrev pub hidden_animation : Text → Bool
hidden_animation name = contains name (codes "_avs_")

abbrev pub hidden_trigger : Text → Bool
hidden_trigger name =
    contains (to_lower name) (codes "deprecated") || contains (to_lower name) (codes "alexa")

-- `ListAnimations`
unfoldable pub list_animations : Bool → List Arrival → Listed
unfolding request_list
list_animations = request_list hidden_animation

-- `ListAnimationTriggers`
unfoldable pub list_animation_triggers : Bool → List Arrival → Listed
unfolding request_list
list_animation_triggers = request_list hidden_trigger
