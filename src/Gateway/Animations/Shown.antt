-- ===== src/Gateway/Animations/Shown.antt =====
-- What the lists of animations hold.
use vic_cloudless.Prelude.{
  exists, Bool-cases, concat, if◌then◌else◌, All, ◌≡◌, refl, sym, ap, ◌∙◌, inl, inr, Bool, true,
  false, ◌||◌, List, [], ◌∷◌, ◌++◌, append-nil, append_assoc,
}
use vic_cloudless.Prelude.Text.{Text}
use vic_cloudless.Gateway.Animations.{
  Arrival, names, listed, is_end, add_names, collect, request_list, hidden_animation,
  hidden_trigger, list_animations, list_animation_triggers, channel_closed, timed_out,
  deadline_exceeded, failed_to_retrieve,
}

-- The names that the client is to see, in order.
abbrev pub shown : (Text → Bool) → List Text → List Text
shown hidden [] = []
shown hidden (name ∷ ns) =
    let rest = shown hidden ns in if is_end name || hidden name then rest else name ∷ rest

-- Chunks that arrive in time.
abbrev pub in_time : List (List Text) → List Arrival → List Arrival
in_time [] later = later
in_time (ns ∷ chunks) later = names ns ∷ in_time chunks later

module _ (hidden : Text → Bool) where
  shown-append : (xs ys : List Text) → shown hidden (xs ++ ys) ≡ shown hidden xs ++ shown hidden ys
  shown-append [] ys = refl
  shown-append (x ∷ xs) ys = elim (Bool-cases (is_end x || hidden x)) [
    | inl h ↦ rw h (shown-append xs ys)
    | inr h ↦ rw h (ap (◌∷◌ x) (shown-append xs ys))
  ]

  or_true : (b : Bool) → (b || true) ≡ true
  or_true true = refl
  or_true false = refl

  add_names-shown :
      (ns anims : List Text) (done : Bool)
      → add_names hidden ns (anims, done) ≡ (anims ++ shown hidden ns, exists is_end ns || done)
  add_names-shown [] anims done = ap (λ a. (a, done)) (sym (append-nil anims))
  add_names-shown (n ∷ ns) anims done = elim (Bool-cases (is_end n)) [
    | inl e ↦
        rw (e, add_names-shown ns anims true)
          (ap (λ d. (anims ++ shown hidden ns, d)) (or_true (exists is_end ns)))
    | inr o ↦ elim (Bool-cases (hidden n)) [
      | inl h ↦ rw (o, h) (add_names-shown ns anims done)
      | inr v ↦
          rw (o, v, add_names-shown ns (anims ++ n ∷ []) done)
            (ap (λ a. (a, exists is_end ns || done))
              (append_assoc anims (n ∷ []) (shown hidden ns)))
    ]
  ]

  -- Chunks without the end are joined, and the loop goes on.
  collect-in_time :
      (before : List (List Text)) (anims : List Text) (later : List Arrival)
      → All (λ ns. exists is_end ns ≡ false) before
      → collect hidden (in_time before later) anims
        ≡ collect hidden later (anims ++ shown hidden (concat before))
  unfolding collect
  collect-in_time [] anims later none_end = ap (collect hidden later) (sym (append-nil anims))
  collect-in_time (ns ∷ chunks) anims later (here, more) =
      let joined : (anims ++ shown hidden ns) ++ shown hidden (concat chunks)
          ≡ anims ++ shown hidden (ns ++ concat chunks) =
        append_assoc anims (shown hidden ns) (shown hidden (concat chunks))
        ∙ ap (◌++◌ anims) (sym (shown-append ns (concat chunks))) in
      rw (add_names-shown ns anims false, here)
        (collect-in_time chunks (anims ++ shown hidden ns) later more
          ∙ ap (collect hidden later) joined)

  collect-last :
      (before : List (List Text)) (last : List Text) (later : List Arrival)
      → All (λ ns. exists is_end ns ≡ false) before
      → exists is_end last ≡ true
      → collect hidden (in_time before (names last ∷ later)) []
        ≡ listed (shown hidden (concat before ++ last))
  unfolding collect
  collect-last before last later none_end ends =
      collect-in_time before [] (names last ∷ later) none_end
      ∙ rw (add_names-shown last (shown hidden (concat before)) false, ends)
          (ap listed (sym (shown-append (concat before) last)))

-- Where the request is written and the chunks come in time, the client gets every name of the
-- chunks up to the one in which the end is named, that chunk included to its last name, in order,
-- but for the end itself and the names that are hidden: for animations those with "_avs_" in them,
-- for triggers those with "deprecated" or "alexa", in any case of the letters.
pub list_animations-shown :
    (before : List (List Text)) (last : List Text) (later : List Arrival)
    → All (λ ns. exists is_end ns ≡ false) before
    → exists is_end last ≡ true
    → (list_animations true (in_time before (names last ∷ later))
        ≡ listed (shown hidden_animation (concat before ++ last)))
      × (list_animation_triggers true (in_time before (names last ∷ later))
          ≡ listed (shown hidden_trigger (concat before ++ last)))
unfolding list_animations list_animation_triggers request_list
list_animations-shown before last later none_before ends = (
  collect-last hidden_animation before last later none_before ends,
  collect-last hidden_trigger before last later none_before ends,
)

-- Where the channel is closed or the wait is too long before the end was named, the client gets an
-- error and no names.
pub list_animations-cut :
    (before : List (List Text)) (later : List Arrival)
    → All (λ ns. exists is_end ns ≡ false) before
    → (list_animations true (in_time before (channel_closed ∷ later)) ≡ failed_to_retrieve)
      × (list_animations true (in_time before (timed_out ∷ later)) ≡ deadline_exceeded)
unfolding list_animations request_list collect
list_animations-cut before later none_before = (
  collect-in_time hidden_animation before [] (channel_closed ∷ later) none_before,
  collect-in_time hidden_animation before [] (timed_out ∷ later) none_before,
)
