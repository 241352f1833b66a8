-- ===== src/Gateway/Connections/Filters.antt =====
-- Which events a client's filters let through, and what a stream sends.
use vic_cloudless.Prelude.{
  ◌+◌, take, take, All, All, ◌↔◌, Bool, Bool, false, false, Bool-cases, get_elem?, ℕ, zero, suc,
  ◌≡◌, refl, ap, ◌⊎◌, inl, inr, true, Option, none, some, List, [], ◌∷◌,
}
use vic_cloudless.Prelude.Text.{Text, text_eq_sound, text_eq, text_eq_refl}
use vic_cloudless.Gateway.Connections.{
  ping_ticker, channel_closed, Event, filtered, happened, keep_alive, send_then, event_reply,
  Signal, stream_loop, Standing, event_stream, connection_response, check_filters, Reply, is_member,
  listed, unlisted, passes,
}

-- The text stands at some place of the list.
abbrev pub Occurs : Text → List Text → Type 0
Occurs t l = (k : ℕ) × (get_elem? l k ≡ some t)

is_member-Occurs : (t : Text) (l : List Text) → is_member t l ≡ true → Occurs t l
is_member-Occurs t [] h = cc h
is_member-Occurs t (x ∷ l) h = elim (Bool-cases (text_eq x t)) [
  | inl same ↦ (0, ap some (text_eq_sound x t same))
  | inr other ↦ let (k, e) = is_member-Occurs t l (rw other at h) in (suc k, e)
]

Occurs-is_member : (t : Text) (l : List Text) → Occurs t l → is_member t l ≡ true
Occurs-is_member t [] (k, e) = cc e
Occurs-is_member t (x ∷ l) (zero, e) =
    let same : x ≡ t = cc e in rw (ap (λ y. text_eq y t) same, text_eq_refl t) refl
Occurs-is_member t (x ∷ l) (suc k, e) = elim (Bool-cases (text_eq x t)) [
  | inl same ↦ rw same refl
  | inr other ↦ rw (other, Occurs-is_member t l (k, e)) refl
]

-- What the two lists of a request let through: every event, where there is no list, or one that the
-- white list names, or one that the black list, where there is one, does not name.
pub data Allowed (name : Text) : Option (List Text) → Option (List Text) → Type 0 where
  unfiltered : Allowed name none none
  on_white_list : (w : List Text) (b : Option (List Text)) → Occurs name w → Allowed name (some w) b
  off_black_list :
      (w : Option (List Text)) (b : List Text) → ¬ Occurs name b → Allowed name w (some b)

absent : (name : Text) (b : List Text) → ¬ Occurs name b → is_member name b ≡ false
absent name b n = elim (Bool-cases (is_member name b)) [
  | inl x ↦ absurd (n (is_member-Occurs name b x))
  | inr x ↦ x
]

passes-listed :
    (white black : Option (List Text)) (name : Text)
    → (passes white black (some name) ≡ some true)
    → (listed white name ≡ true) ⊎ (unlisted black name ≡ true)
passes-listed white black name h = elim (Bool-cases (listed white name)) [
  | inl w ↦ inl w
  | inr w ↦ elim (Bool-cases (unlisted black name)) [
    | inl b ↦ inr b
    | inr b ↦ let h' = (rw (w, b) at h) in cc h'
  ]
]

of_white :
    (name : Text) (white black : Option (List Text))
    → listed white name ≡ true
    → Allowed name white black
of_white name none black h = cc h
of_white name (some w) black h = on_white_list w black (is_member-Occurs name w h)

of_black :
    (name : Text) (white black : Option (List Text))
    → unlisted black name ≡ true
    → Allowed name white black
of_black name white none h = cc h
of_black name white (some b) h =
    off_black_list white b (λ o. let h' = (rw (Occurs-is_member name b o) at h) in cc h')

Allowed-passes :
    (name : Text) (white black : Option (List Text))
    → Allowed name white black
    → (body : ℕ)
    → check_filters (record { field_name = some name; body = body }) white black ≡ some true
unfolding check_filters
Allowed-passes name none none a body = refl
Allowed-passes name _ _ (on_white_list w b o) body = rw (Occurs-is_member name w o) refl
Allowed-passes name none (some _) (off_black_list _ b n) body = rw (absent name b n) refl
Allowed-passes name (some w) (some _) (off_black_list _ b n) body =
    elim (Bool-cases (is_member name w)) [
      | inl x ↦ rw x refl
      | inr x ↦ rw (x, absent name b n) refl
    ]

-- An event with a type passes the filters exactly if there are none, or the white list names its
-- field, or there is a black list that does not.
pub check_filters_iff :
    (name : Text) (body : ℕ) (white black : Option (List Text))
    → (check_filters (record { field_name = some name; body = body }) white black ≡ some true)
      ↔ Allowed name white black
unfolding check_filters
check_filters_iff name body white black =
    (passed white black, λ a. Allowed-passes name white black a body)
  where
    passed :
        (white black : Option (List Text))
        → check_filters (record { field_name = some name; body = body }) white black ≡ some true
        → Allowed name white black
    passed none none h = unfiltered
    passed (some w) black h = elim (passes-listed (some w) black name h) [
      | inl x ↦ of_white name (some w) black x
      | inr x ↦ of_black name (some w) black x
    ]
    passed none (some b) h = elim (passes-listed none (some b) name h) [
      | inl x ↦ of_white name none (some b) x
      | inr x ↦ of_black name none (some b) x
    ]

module _ (sends : Reply → ℕ → Bool) (white black : Option (List Text)) where
  -- An event that is sent passes the filters.
  abbrev pub Passing : Reply → Type 0
  Passing (connection_response p) = Unit
  Passing (event_reply e) = check_filters e white black ≡ some true
  Passing keep_alive = Unit

  send_then-Passing :
      (r : Reply) (i : ℕ) (rest : List Reply × Standing)
      → Passing r
      → All Passing rest.0
      → All Passing (send_then sends white black r i rest).0
  send_then-Passing r i rest p all = elim (Bool-cases (sends r i)) [
    | inl ok ↦ rw ok (p, all)
    | inr failed ↦ rw failed (p, tt)
  ]

  filtered-Passing :
      (e : Event) (i : ℕ) (o : Option Bool) (skipped rest : List Reply × Standing)
      → check_filters e white black ≡ o
      → All Passing skipped.0
      → All Passing rest.0
      → All Passing (filtered sends white black e i o skipped rest).0
  filtered-Passing e i none skipped rest p s r = tt
  filtered-Passing e i (some false) skipped rest p s r = s
  filtered-Passing e i (some true) skipped rest p s r = send_then-Passing (event_reply e) i rest p r

  stream_loop-Passing :
      (ss : List Signal) (i : ℕ) → All Passing (stream_loop sends white black i ss).0
  unfolding stream_loop
  stream_loop-Passing [] i = tt
  stream_loop-Passing (channel_closed ∷ ss) i = tt
  stream_loop-Passing (ping_ticker ∷ ss) i =
      send_then-Passing keep_alive i _ tt (stream_loop-Passing ss (i + 1))
  stream_loop-Passing (happened e ∷ ss) i =
      filtered-Passing e i _ _ _ refl (stream_loop-Passing ss i) (stream_loop-Passing ss (i + 1))

  -- Whichever sends fail, a stream first says whether it is primary, and every event that it sends
  -- passes the filters of the client.
  pub event_stream-Passing :
      (primary : Bool) (ss : List Signal)
      → let out = (event_stream sends white black primary ss).0 in
        (take 1 out ≡ connection_response primary ∷ []) × All Passing out
  unfolding event_stream
  event_stream-Passing primary ss = elim (Bool-cases (sends (connection_response primary) 0)) [
    | inl ok ↦ rw ok (refl, (tt, stream_loop-Passing ss 1))
    | inr failed ↦ rw failed (refl, (tt, tt))
  ]
