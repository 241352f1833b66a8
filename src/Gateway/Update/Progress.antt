-- ===== src/Gateway/Update/Progress.antt =====
-- The progress that a client is shown while the robot is updated.
use vic_cloudless.Prelude.{
  if_intro, leb, All, ltb, ltb→lt, Bool-cases, if◌then◌else◌, leb→le, ℕ, zero, suc, ◌*◌, ◌≤◌, ◌<◌,
  ◌≡◌, refl, inl, inr, Bool, true, false, not, ◌&&◌, ◌||◌, Option, List, [], ◌∷◌, arith,
}
use vic_cloudless.Prelude.Int.{ℤ, eq_ℤ}
use vic_cloudless.Prelude.Text.{Text}
use vic_cloudless.Gateway.Update.{
  no_exit, is_ready, negsuc, pos, Files, Status, Tick, get_update_status, is_progress, magnitude,
  reported, status_loop, last_after_wait, update_status_stream, start_update_engine,
  wait_for_client,
}

-- The sizes that the conversion to floating point keeps.
abbrev pub exact : ℕ
exact = 9007199254740992

-- A progress that can be shown.
abbrev pub Good : ℕ × ℕ → Type 0
Good (p, e) = (p ≤ e) × ((0 < e) × (e < exact))

-- Each status shows a progress within its expected size, and not behind that of the one before.
abbrev pub Rises : ℕ × ℕ → List Status → Type 0
Rises last [] = Unit
Rises (lp, le) (s ∷ ss) =
    (p : ℕ) × (e : ℕ) × ((s.progress ≡ pos p)
      × ((s.expected ≡ pos e) × (Good (p, e) × ((lp * e ≤ p * le) × Rises (p, e) ss))))

module _ (parse_int : Text → Option ℤ) (version_in : Text → Option Text)
    (less : ℕ → ℕ → ℕ → ℕ → Bool)
    (sound : (a b c d : ℕ) → Good (a, b) → Good (c, d) → less a b c d ≡ true → a * d < c * b) where
  -- The expected size of a pass is one that is kept.
  abbrev pub Small : Tick → Type 0
  Small t = (e : ℕ) → (get_update_status parse_int version_in t.files).expected ≡ pos e → e < exact

  -- The engine has not been started again before the pass.
  abbrev pub Undisturbed : Tick → Type 0
  Undisturbed t = t.restarted ≡ false

  -- What one pass shows, after the last.
  abbrev Shown : ℕ × ℕ → (ℕ × ℕ) × Status → Type 0
  Shown (lp, le) ((p, e), s) =
      (s.progress ≡ pos p) × ((s.expected ≡ pos e) × (Good (p, e) × (lp * e ≤ p * le)))

  at_most : (a b : ℕ) → a < b → a ≤ b
  at_most a b h = omega (arith, h)

  parts :
      (a b c d : Bool)
      → a && (b && (c && d)) ≡ true
      → (a ≡ true) × ((b ≡ true) × ((c ≡ true) × (d ≡ true)))
  parts a b c d h = ground arith

  kept-Shown :
      (last : ℕ × ℕ) (s : Status)
      → Good last
      → Shown last (last, record s { progress = pos last.0; expected = pos last.1 })
  kept-Shown (lp, le) s g = (refl, (refl, (g, omega arith)))

  taken-Shown :
      (last : ℕ × ℕ) (s : Status) (x y : ℤ)
      → s.progress ≡ x
      → s.expected ≡ y
      → Good last
      → ((e : ℕ) → y ≡ pos e → e < exact)
      → is_progress parse_int version_in less last x y ≡ true
      → Shown last
          ((magnitude parse_int version_in less x, magnitude parse_int version_in less y), s)
  taken-Shown (lp, le) s (pos p) (pos e) ep ee g small h =
      let (a, (b, (c, d))) = parts (ltb 0 p) (ltb 0 e) (leb p e) (less lp le p e) h in
      let good : Good (p, e) = (leb→le _ _ c, (ltb→lt _ _ b, small e refl)) in
      (ep, (ee, (good, at_most _ _ (sound lp le p e g good d))))
  taken-Shown last s (pos p) (negsuc e) ep ee g small h = cc h
  taken-Shown last s (negsuc p) y ep ee g small h = cc h

  reported-Shown :
      (last : ℕ × ℕ) (s : Status)
      → Good last
      → ((e : ℕ) → s.expected ≡ pos e → e < exact)
      → Shown last (reported parse_int version_in less last s)
  reported-Shown last s g small =
      elim (Bool-cases (is_progress parse_int version_in less last s.progress s.expected)) [
        | inl new ↦ rw new (taken-Shown last s _ _ refl refl g small new)
        | inr old ↦ rw old (kept-Shown last s g)
      ]

  pass-Rises :
      (last : ℕ × ℕ) (r : (ℕ × ℕ) × Status) (gone stop : Bool) (rest : List Status × (ℕ × ℕ))
      → Shown last r
      → Rises r.0 rest.0
      → let out : List Status × (ℕ × ℕ) =
          if gone then ([], last) else if stop then (r.1 ∷ [], r.0) else (r.1 ∷ rest.0, rest.1) in
        Rises last out.0
  pass-Rises (lp, le) ((p, e), s) true stop rest (ep, (ee, (g, l))) ih = tt
  pass-Rises (lp, le) ((p, e), s) false true rest (ep, (ee, (g, l))) ih =
      (p, e, (ep, (ee, (g, (l, tt)))))
  pass-Rises (lp, le) ((p, e), s) false false rest (ep, (ee, (g, l))) ih =
      (p, e, (ep, (ee, (g, (l, ih)))))

  Shown-Good : (last : ℕ × ℕ) (r : (ℕ × ℕ) × Status) → Shown last r → Good r.0
  Shown-Good (lp, le) ((p, e), s) (ep, (ee, (g, l))) = g

  status_loop-Rises :
      (ts : List Tick) (started : Bool) (last : ℕ × ℕ)
      → Good last
      → All Small ts
      → All Undisturbed ts
      → Rises last (status_loop parse_int version_in less started last ts).0
  unfolding status_loop
  status_loop-Rises [] started last g all calm = tt
  status_loop-Rises (t ∷ ts) started last g (small, all) (still, calm) =
      let s = get_update_status parse_int version_in t.files in
      let r = reported parse_int version_in less last s in
      let shown = reported-Shown last s g small in
      rw still (
        pass-Rises last r (not t.connected) (not (eq_ℤ r.1.exit_code no_exit) && started) _ shown
          (status_loop-Rises ts true r.0 (Shown-Good last r shown) all calm))

  All-wait_for_client :
      (P : Tick → Type 0) (k : ℕ) (ts : List Tick)
      → All P ts
      → All P (wait_for_client parse_int version_in less k ts)
  All-wait_for_client P zero ts all = all
  All-wait_for_client P (suc k) [] all = tt
  All-wait_for_client P (suc k) (t ∷ ts) all =
      if_intro (All P) t.connected _ _ all (All-wait_for_client P k ts all.1)

  -- Before the first pass that a client sees, the last progress is still the one of the start.
  last_after_wait-start :
      (k : ℕ) (ts : List Tick) → last_after_wait parse_int version_in less k (0, 1) ts ≡ (0, 1)
  last_after_wait-start zero ts = refl
  last_after_wait-start (suc k) [] = refl
  last_after_wait-start (suc k) (t ∷ ts) = elim (Bool-cases t.connected) [
    | inl here ↦ rw here refl
    | inr away ↦ rw away (elim (Bool-cases t.restarted) [
      | inl again ↦ rw again (last_after_wait-start k ts)
      | inr calm ↦ rw calm (last_after_wait-start k ts)
    ])
  ]

  start_update_engine-last :
      (f : Files) (active stops restarts : Bool) (last : ℕ × ℕ)
      → let r = start_update_engine parse_int version_in f active stops restarts last in
        r.0 ≡ true → r.1 ≡ (0, 1)
  unfolding start_update_engine
  start_update_engine-last f active stops restarts last started =
      elim (Bool-cases (
        is_ready parse_int version_in (get_update_status parse_int version_in f).update_status
        || active)) [
          | inl busy ↦ rw busy refl
          | inr idle ↦ elim (Bool-cases (stops && restarts)) [
            | inl ok ↦ rw (idle, ok) refl
            | inr failed ↦ let e = (rw (idle, failed) at started) in cc e
          ]
        ]

  -- After the update engine is started, whatever was shown before, and while it is not started again:
  -- each status of the stream shows a
  -- progress that is at most the expected size, which is not zero, and whose share of it is not below
  -- that of the status before, where the sizes are below 2 ^ 53 and a quotient that is found to be
  -- below another one, for such sizes, is below it.
  pub update_status_stream-Rises :
      (f : Files) (active stops restarts running : Bool) (last : ℕ × ℕ) (ts : List Tick)
      → let r = start_update_engine parse_int version_in f active stops restarts last in
        r.0 ≡ true
        → All Small ts
        → All Undisturbed ts
        → Rises (0, 1) (update_status_stream parse_int version_in less running r.1 ts).0
  unfolding update_status_stream
  update_status_stream-Rises f active stops restarts true last ts started all calm = tt
  update_status_stream-Rises f active stops restarts false last ts started all calm =
      rw
        (start_update_engine-last f active stops restarts last started, last_after_wait-start 10 ts)
        (status_loop-Rises (wait_for_client parse_int version_in less 10 ts) false (0, 1)
          (omega arith, (omega arith, omega arith)) (All-wait_for_client Small 10 ts all)
          (All-wait_for_client Undisturbed 10 ts calm))
