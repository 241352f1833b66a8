-- ===== src/Gateway/Animations/Tests.antt =====
-- The lists of animations at concrete values.
use vic_cloudless.Prelude.{concat, ◌≡◌, refl, true, List, [], ◌∷◌, ◌++◌}
use vic_cloudless.Prelude.Text.{to_lower, contains, has_prefix, Text, text_eq, codes}
use vic_cloudless.Gateway.Animations.{
  Arrival, names, listed, hidden_animation, hidden_trigger, list_animations,
  list_animation_triggers, end_of_animation_list, deadline_exceeded, timed_out,
}
use vic_cloudless.Gateway.Animations.Shown.{shown, in_time, list_animations-shown}

abbrev first_names : List Text
first_names = codes "anim_one" ∷ codes "anim_avs_two" ∷ codes "DeprecatedThree" ∷ []

abbrev last_names : List Text
last_names = codes "anim_four" ∷ end_of_animation_list ∷ codes "anim_five" ∷ []

list_animations-shown_example :
    (list_animations true (in_time (first_names ∷ []) (names last_names ∷ []))
      ≡ listed (shown hidden_animation (concat (first_names ∷ []) ++ last_names)))
    × (list_animation_triggers true (in_time (first_names ∷ []) (names last_names ∷ []))
        ≡ listed (shown hidden_trigger (concat (first_names ∷ []) ++ last_names)))
unfolding text_eq
list_animations-shown_example =
    list_animations-shown (first_names ∷ []) last_names [] (refl, tt) refl

abbrev both : List Arrival
both = names first_names ∷ names last_names ∷ []

shown_test :
    list_animations true both
    ≡ listed
        (codes "anim_one" ∷ codes "DeprecatedThree" ∷ codes "anim_four" ∷ codes "anim_five" ∷ [])
unfolding list_animations text_eq contains has_prefix
shown_test = refl

triggers_test :
    list_animation_triggers true both
    ≡ listed (codes "anim_one" ∷ codes "anim_avs_two" ∷ codes "anim_four" ∷ codes "anim_five" ∷ [])
unfolding list_animation_triggers text_eq contains has_prefix to_lower
triggers_test = refl

late_test : list_animations true (names first_names ∷ timed_out ∷ []) ≡ deadline_exceeded
unfolding list_animations text_eq contains has_prefix
late_test = refl
