-- ===== src/Gateway/Rpc/Sharing.antt =====
-- What two calls that wait for messages of one type are told.
use vic_cloudless.Prelude.{
  ◌==◌, exists, ==_iff, Bool-cases, ℕ, ◌+◌, ◌≤◌, ◌≡◌, refl, sym, ap, ◌∙◌, subst, inl, inr, Bool,
  true, false, not, some, List, [], ◌∷◌, ◌++◌, append_assoc, arith,
}
use vic_cloudless.Prelude.Text.{Text}
use vic_cloudless.Gateway.Listeners.{
  create_unique_channel, delete_listener, put, Manager, create_channel, send_to_listeners,
  delete_listeners, select, lookup-put_same,
}
use vic_cloudless.Gateway.Rpc.{
  updates, waits, update_in_progress, asks, Gateway, start, deliver, finish, put_in,
}

-- No listener is too slow.
abbrev pub prompt : ℕ → Bool
prompt c = false

select-none : (cs : List ℕ) → select prompt cs ≡ []
unfolding select
select-none [] = refl
select-none (c ∷ cs) = select-none cs

select-all : (cs : List ℕ) → select (λ c. not (prompt c)) cs ≡ cs
unfolding select
select-all [] = refl
select-all (c ∷ cs) = ap (◌∷◌ c) (select-all cs)

send_to_listeners-prompt :
    (m : Manager) (tag : Text) → send_to_listeners prompt m tag ≡ some (m, m.managed tag)
unfolding send_to_listeners delete_listeners
send_to_listeners-prompt m tag = rw (select-none (m.managed tag), select-all (m.managed tag)) refl

exists-append_right :
    (p : ℕ → Bool) (xs ys : List ℕ) → exists p ys ≡ true → exists p (xs ++ ys) ≡ true
exists-append_right p [] ys h = h
exists-append_right p (x ∷ xs) ys h = elim (Bool-cases (p x)) [
  | inl hit ↦ rw hit refl
  | inr miss ↦ rw miss (exists-append_right p xs ys h)
]

exists-here : (n : ℕ) (ys : List ℕ) → exists (λ c. c == n) (n ∷ ys) ≡ true
exists-here n ys = rw ((==_iff n n).1 refl) refl

-- The channels that will be made next hold nothing.
unfoldable pub IsFresh : {R : Type 0} → Gateway R → Type 0
IsFresh g = (j : ℕ) → g.listeners.next ≤ j → g.inbox j ≡ []

module _ {R : Type 0} where
  -- The two calls, one after the other.
  abbrev pub both : Text → Text → Text → Gateway R → Gateway R
  both request1 request2 tag g =
      (start (asks request2 tag) 0 true (start (asks request1 tag) 0 true g).0).0

  listens_both :
      (request1 request2 tag : Text) (g : Gateway R)
      → (both request1 request2 tag g).listeners.managed tag
        ≡ (g.listeners.managed tag ++ g.listeners.next ∷ []) ++ (g.listeners.next + 1) ∷ []
  unfolding start create_channel
  listens_both request1 request2 tag g =
      let once : Text → List ℕ =
        put tag (g.listeners.managed tag ++ g.listeners.next ∷ []) g.listeners.managed in
      lookup-put_same tag (once tag ++ (g.listeners.next + 1) ∷ []) once
      ∙ ap (λ cs. cs ++ (g.listeners.next + 1) ∷ [])
          (lookup-put_same tag (g.listeners.managed tag ++ g.listeners.next ∷ [])
            g.listeners.managed)

  -- What a channel that listens and is empty holds after a message, its handler takes.
  finish-put_in :
      (tag : Text) (c : ℕ) (g : Gateway R) (cs : List ℕ) (r : R)
      → exists (λ d. d == c) cs ≡ true
      → g.inbox c ≡ []
      → (g' : Gateway R) × (finish tag c (record g { inbox = put_in cs r g.inbox }) ≡ some (g', r))
  unfolding finish
  finish-put_in tag c g cs r listens is_empty = (
    record g { listeners = delete_listener g.listeners tag c; inbox = put_in cs r g.inbox },
    rw (listens, is_empty) refl,
  )

  -- Where two calls wait for messages of one type, whatever their requests are, the next message of
  -- that type is what both clients are told, if no listener is too slow, and the channels that are
  -- not made yet hold nothing.
  pub both-deliver :
      (request1 request2 tag : Text) (g : Gateway R) (r : R)
      → IsFresh g
      → (after : Gateway R) × (g1 : Gateway R) × (g2 : Gateway R) × (deliver prompt tag r
            (both request1 request2 tag g)
          ≡ some after)
        × (finish tag g.listeners.next after ≡ some (g1, r))
        × (finish tag (g.listeners.next + 1) after ≡ some (g2, r))
  unfolding deliver start create_channel IsFresh
  both-deliver request1 request2 tag g r fresh =
      let n : ℕ = g.listeners.next in
      let cs : List ℕ = (g.listeners.managed tag ++ n ∷ []) ++ (n + 1) ∷ [] in
      let m : Manager = (both request1 request2 tag g).listeners in
      let listening : m.managed tag ≡ cs = listens_both request1 request2 tag g in
      let first : exists (λ c. c == n) cs ≡ true =
        subst (λ l. exists (λ c. c == n) l ≡ true)
          (sym (append_assoc (g.listeners.managed tag) (n ∷ []) ((n + 1) ∷ [])))
          (exists-append_right (λ c. c == n) (g.listeners.managed tag) (n ∷ (n + 1) ∷ [])
            (exists-here n ((n + 1) ∷ []))) in
      let second : exists (λ c. c == n + 1) cs ≡ true =
        exists-append_right (λ c. c == n + 1) (g.listeners.managed tag ++ n ∷ []) ((n + 1) ∷ [])
          (exists-here (n + 1) []) in
      let waiting : Gateway R = both request1 request2 tag g in
      let (g1, e1) = finish-put_in tag n waiting cs r first (fresh n (omega arith)) in
      let (g2, e2) = finish-put_in tag (n + 1) waiting cs r second (fresh (n + 1) (omega arith)) in
      (
        record waiting { inbox = put_in cs r g.inbox },
        g1,
        g2,
        rw (send_to_listeners-prompt m tag, listening) refl,
        e1,
        e2,
      )

  -- While an update waits for its answer, another one of the same type is refused: nothing is written,
  -- and nothing else changes.
  pub updates-refused :
      (request1 request2 tag : Text) (written : Bool) (g : Gateway R)
      → g.listeners.managed tag ≡ []
      → (start (updates request2 tag) 0 written (start (updates request1 tag) 0 true g).0
          ≡ ((start (updates request1 tag) 0 true g).0, update_in_progress))
        × ((start (updates request1 tag) 0 true g).1 ≡ waits g.listeners.next)
  unfolding start create_channel create_unique_channel
  updates-refused request1 request2 tag written g unheard =
      rw (unheard, lookup-put_same tag (g.listeners.next ∷ []) g.listeners.managed) (refl, refl)
