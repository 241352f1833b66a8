-- ===== src/Gateway/Listeners.antt =====
-- The listeners of the gateway for messages of the engine: `EngineProtoIpcManager` of
-- cloud/ipc_manager.go. A channel is the number of its making, a tag is a text. The lock of the manager
-- makes each operation one step.
use vic_cloudless.Prelude.{
  ◌==◌, if◌then◌else◌, leb, le→leb, Bool-cases, ==_iff, length, ℕ, ◌+◌, ◌-◌, ◌≤◌, ◌≡◌, refl, ap,
  ◌∙◌, inl, inr, Bool, not, Option, none, some, List, [], ◌∷◌, ◌++◌, arith,
}
use vic_cloudless.Prelude.Text.{text_eq_refl, Text, text_eq}

-- `managedChannels`: the channels of each tag, in order. A tag without channels is not in the map, and
-- has the empty list here.
abbrev pub Managed : Type 0
Managed = Text → List ℕ

-- The map, and the number of the next channel.
pub record Manager : Type 0 where
  pub managed : Managed
  pub next : ℕ

abbrev pub put : Text → List ℕ → Managed → Managed
put tag cs m = λ t. if text_eq t tag then cs else m t

-- `CreateChannel`
unfoldable pub create_channel : Manager → Text → Manager
create_channel m tag = record {
  managed = put tag (m.managed tag ++ m.next ∷ []) m.managed;
  next = m.next + 1;
}

abbrev none_if_listened : List ℕ → Manager → Option Manager
none_if_listened [] m = some m
none_if_listened (c ∷ cs) m = none

-- `CreateUniqueChannel`; `none` where there is a listener already. The source gives the lock back
-- between the test and the making of the channel; here they are one step.
unfoldable pub create_unique_channel : Manager → Text → Option Manager
unfolding create_channel
create_unique_channel m tag = none_if_listened (m.managed tag) (create_channel m tag)

last_or : ℕ → List ℕ → ℕ
last_or c [] = c
last_or c (d ∷ ds) = last_or d ds

without_last : ℕ → List ℕ → List ℕ
without_last c [] = []
without_last c (d ∷ ds) = c ∷ without_last d ds

-- The last channel takes the place of the one that is deleted.
abbrev refilled : List ℕ → List ℕ
unfolding last_or without_last
refilled [] = []
refilled (d ∷ ds) = last_or d ds ∷ without_last d ds

remove : ℕ → List ℕ → List ℕ
unfolding refilled
remove i [] = []
remove i (c ∷ cs) = let later = remove i cs in if c == i then refilled cs else c ∷ later

-- `deleteListenerUnsafe`
unfoldable pub delete_listener : Manager → Text → ℕ → Manager
unfolding remove
delete_listener m tag i = record m { managed = put tag (remove i (m.managed tag)) m.managed }

unfoldable pub delete_listeners : Manager → Text → List ℕ → Manager
unfolding delete_listener
delete_listeners m tag [] = m
delete_listeners m tag (i ∷ is) = delete_listeners (delete_listener m tag i) tag is

unfoldable pub select : (ℕ → Bool) → List ℕ → List ℕ
select p [] = []
select p (c ∷ cs) = let rest = select p cs in if p c then c ∷ rest else rest

-- `SendToListeners`: the channels that got the message, and the manager after it. `slow` says which
-- channels do not take it in time. They are marked in the order of the list here, while in the source
-- their routines race, which matters only for the order of the channels that stay. `markedForDelete`
-- has room for five: with more the call waits for ever, which is `none`.
unfoldable pub send_to_listeners : (ℕ → Bool) → Manager → Text → Option (Manager × List ℕ)
unfolding select delete_listeners
send_to_listeners slow m tag =
    let marked = select slow (m.managed tag) in
    if leb (length marked) 5
    then some (delete_listeners m tag marked, select (λ c. not (slow c)) (m.managed tag))
    else none

-- How often a channel is in a list.
abbrev pub count : ℕ → List ℕ → ℕ
count j [] = 0
count j (c ∷ cs) = (if c == j then 1 else 0) + count j cs

count-last : (j d : ℕ) (ds : List ℕ) → count j (last_or d ds ∷ without_last d ds) ≡ count j (d ∷ ds)
unfolding last_or without_last
count-last j d [] = refl
count-last j d (e ∷ es) = omega (arith, count-last j e es)

count-refilled : (j : ℕ) (cs : List ℕ) → count j (refilled cs) ≡ count j cs
unfolding refilled
count-refilled j [] = refl
count-refilled j (d ∷ ds) = count-last j d ds

count-remove :
    (j i : ℕ) (cs : List ℕ) → count j (remove i cs) ≡ count j cs - (if i == j then 1 else 0)
unfolding remove
count-remove j i [] = ground arith
count-remove j i (c ∷ cs) = elim (Bool-cases (c == i)) [
  | inl hit ↦ rw hit (ground (arith, count-refilled j cs))
  | inr miss ↦ rw miss (ground (arith, count-remove j i cs))
]

pub lookup-put_same : (tag : Text) (cs : List ℕ) (m : Managed) → put tag cs m tag ≡ cs
lookup-put_same tag cs m = rw (text_eq_refl tag) refl

count-delete_listeners :
    (j : ℕ) (m : Manager) (tag : Text) (is : List ℕ)
    → count j ((delete_listeners m tag is).managed tag) ≡ count j (m.managed tag) - count j is
unfolding delete_listeners delete_listener
count-delete_listeners j m tag [] = omega arith
count-delete_listeners j m tag (i ∷ is) =
    count-delete_listeners j (delete_listener m tag i) tag is
    ∙ ap (λ cs. count j cs - count j is) (lookup-put_same tag (remove i (m.managed tag)) m.managed)
    ∙ ground (arith, count-remove j i (m.managed tag))

count-select :
    (p : ℕ → Bool) (j : ℕ) (cs : List ℕ) → count j (select p cs) ≡ (if p j then count j cs else 0)
unfolding select
count-select p j [] = ground arith
count-select p j (c ∷ cs) = elim (Bool-cases (c == j)) [
  | inl same ↦
      let e : p c ≡ p j = ap p ((==_iff c j).0 same) in
      elim (Bool-cases (p j)) [
        | inl fits ↦ rw (e, fits) (ground (arith, count-select p j cs))
        | inr fails ↦ rw (e, fails) (ground (arith, count-select p j cs))
      ]
  | inr away ↦ elim (Bool-cases (p c)) [
    | inl fits ↦ rw fits (ground (arith, count-select p j cs))
    | inr fails ↦ rw fails (ground (arith, count-select p j cs))
  ]
]

-- What a message does to one listener: it gets it as often as it listens and stays, or it is too slow,
-- gets nothing and is deleted.
abbrev pub Served : (ℕ → Bool) → Manager → Text → ℕ → Manager × List ℕ → Type 0
Served slow m tag j r =
    (count j r.1 ≡ (if slow j then 0 else count j (m.managed tag)))
    × (count j (r.0.managed tag) ≡ (if slow j then 0 else count j (m.managed tag)))

-- Where at most five listeners are too slow, a message returns, each listener that takes it gets it
-- once for each of its places and stays, and each that is too slow gets nothing and is deleted.
pub send_to_listeners-Served :
    (slow : ℕ → Bool) (m : Manager) (tag : Text)
    → length (select slow (m.managed tag)) ≤ 5
    → (r : Manager × List ℕ) × (send_to_listeners slow m tag ≡ some r)
      × ((j : ℕ) → Served slow m tag j r)
unfolding send_to_listeners
send_to_listeners-Served slow m tag few = (
  (
    delete_listeners m tag (select slow (m.managed tag)),
    select (λ c. not (slow c)) (m.managed tag),
  ),
  rw (le→leb (length (select slow (m.managed tag))) 5 few) refl,
  λ j. (
    ground (arith, count-select (λ c. not (slow c)) j (m.managed tag)),
    ground (
      arith,
      count-delete_listeners j m tag (select slow (m.managed tag)),
      count-select slow j (m.managed tag),
    ),
  ),
)
