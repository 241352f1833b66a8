-- ===== src/Gateway/Connections/Primary.antt =====
-- Who is the primary connection, over any sequence of streams that open and end.
use vic_cloudless.Prelude.{
  get_elem?, exists, Bool-cases, ℕ, zero, suc, ◌≡◌, refl, sym, ap, ◌∙◌, subst, ◌⊎◌, inl, inr, Bool,
  true, false, not, ◌&&◌, ◌||◌, Option, none, some, List, [], ◌∷◌,
}
use vic_cloudless.Prelude.Text.{text_eq, Text, text_eq_refl}
use vic_cloudless.Gateway.Connections.{
  Ble, ble_allows, check_connection_id, Opened, Gate, Step, is_empty, connect, disconnect,
  remove_at, ended, step, run,
}

-- An open stream that is primary, with the id of the connection.
abbrev holds : Text → Opened → Bool
holds id s = s.primary && text_eq s.client_id id

-- No one has the connection, or an open stream has it.
abbrev pub Held : Gate → Type 0
Held g = (g.connection_id ≡ []) ⊎ (exists (holds g.connection_id) g.streams ≡ true)

exists-remove_at :
    (p : Opened → Bool) (xs : List Opened) (k : ℕ) (s : Opened)
    → get_elem? xs k ≡ some s
    → p s ≡ false
    → exists p xs ≡ true
    → exists p (remove_at k xs) ≡ true
exists-remove_at p [] k s e n h = cc e
exists-remove_at p (x ∷ xs) zero s e n h =
    let same : x ≡ s = cc e in ap (λ b. b || exists p xs) (sym (ap p same ∙ n)) ∙ h
exists-remove_at p (x ∷ xs) (suc k) s e n h = elim (Bool-cases (p x)) [
  | inl here ↦ rw here refl
  | inr there ↦ rw there (exists-remove_at p xs k s e n (rw there at h))
]

-- What a check of the connection comes to.
abbrev Checked : Text → Text → Text × Bool → Type 0
Checked old id r = (r ≡ (old, false)) ⊎ (r ≡ (id, true))

check_connection_id-Checked :
    (on_robot : Bool) (answer : Option Ble) (old id : Text)
    → Checked old id (check_connection_id on_robot answer old id)
unfolding check_connection_id
check_connection_id-Checked on_robot answer old id =
    elim (Bool-cases (not (is_empty old) && not (text_eq id old))) [
      | inl taken ↦ rw taken (inl refl)
      | inr free ↦ elim (Bool-cases (ble_allows on_robot answer id)) [
        | inl allowed ↦ rw (free, allowed) (inr refl)
        | inr denied ↦ rw (free, denied) (inl refl)
      ]
    ]

abbrev joined : Text → List Opened → Text × Bool → Gate
joined id streams r = record {
  connection_id = r.0;
  streams = record { client_id = id; primary = r.1 } ∷ streams;
}

joined-Held :
    (g : Gate) (id : Text) (r : Text × Bool)
    → Checked g.connection_id id r
    → Held g
    → Held (joined id g.streams r)
joined-Held g id r (inl e) h = subst (λ x. Held (joined id g.streams x)) (sym e) h
joined-Held g id r (inr e) h =
    subst (λ x. Held (joined id g.streams x)) (sym e) (inr (rw (text_eq_refl id) refl))

ended-Held :
    (g : Gate) (k : ℕ) (o : Option Opened) → get_elem? g.streams k ≡ o → Held g → Held (ended g k o)
ended-Held g k none e h = h
ended-Held g k (some s) e h = elim (Bool-cases s.primary) [
  | inl first ↦ rw first (inl refl)
  | inr second ↦ elim h [
    | inl free ↦ rw second (inl free)
    | inr held ↦ rw second (
        inr (
          exists-remove_at (holds g.connection_id) g.streams k s e
            (ap (λ b. b && text_eq s.client_id g.connection_id) second) held))
  ]
]

module _ (on_robot : Bool) where
  step-Held : (g : Gate) (s : Step) → Held g → Held (step on_robot g s)
  unfolding step
  step-Held g (connect id answer) h =
      joined-Held g id _ (check_connection_id-Checked on_robot answer g.connection_id id) h
  step-Held g (disconnect k) h = ended-Held g k _ refl h

  -- Whatever streams open and end, the id of the connection is empty, or an open stream that is
  -- primary has it, where this held before.
  pub run-Held : (ss : List Step) (g : Gate) → Held g → Held (run on_robot g ss)
  unfolding run
  run-Held [] g h = h
  run-Held (s ∷ ss) g h = run-Held ss (step on_robot g s) (step-Held g s h)

abbrev pub no_streams : Gate
no_streams = record { connection_id = []; streams = [] }

abbrev pub primaries : List Opened → Bool
primaries = exists (λ s. s.primary)

exists-primary :
    (id : Text) (xs : List Opened) → primaries xs ≡ false → exists (holds id) xs ≡ false
exists-primary id [] h = refl
exists-primary id (x ∷ xs) h = elim (Bool-cases x.primary) [
  | inl one ↦ let h' = (rw one at h) in cc h'
  | inr none_here ↦ rw none_here (exists-primary id xs (rw none_here at h))
]

-- After any streams have been opened and have ended, where none that is open is primary, the next
-- client is primary if vic-switchboard allows it, whatever its id.
pub run-free :
    (on_robot : Bool) (ss : List Step) (id : Text) (answer : Option Ble)
    → let g = run on_robot no_streams ss in
      primaries g.streams ≡ false
      → ble_allows on_robot answer id ≡ true
      → check_connection_id on_robot answer g.connection_id id ≡ (id, true)
unfolding check_connection_id
run-free on_robot ss id answer alone allowed =
    let g = run on_robot no_streams ss in
    elim (run-Held on_robot ss no_streams (inl refl)) [
      | inl free ↦ rw (free, allowed) refl
      | inr held ↦
          let clash : true ≡ false = sym held ∙ exists-primary g.connection_id g.streams alone in
          cc clash
    ]
