-- ===== src/Gateway/Tokens/Checks.antt =====
-- What one call of `CheckToken` may come to, where its index is valid.
use vic_cloudless.Prelude.{
  get_elem?, Bool-cases, length, ◌==◌, ==_iff, ℕ, zero, suc, ◌+◌, ◌<◌, ◌≡◌, refl, sym, ap, ◌∙◌,
  subst, ◌⊎◌, inl, inr, Bool, true, false, not, ◌&&◌, Option, none, some, List, [], ◌∷◌, arith,
}
use vic_cloudless.Prelude.Text.{Text, text_eq, codes}
use vic_cloudless.Gateway.Tokens.{
  ClientToken, Manager, Checked, accepted, no_valid_tokens, invalid_token, is_empty, skipped, scan,
  found, check_recent, check_listed, check_token,
}

module _ {A : Type 0} where
  get_elem?-lt : (xs : List A) (i : ℕ) → i < length xs → (x : A) × (get_elem? xs i ≡ some x)
  get_elem?-lt [] i h = absurd (omega arith)
  get_elem?-lt (x ∷ xs) zero h = (x, refl)
  get_elem?-lt (x ∷ xs) (suc i) h = get_elem?-lt xs i (omega arith)

  pub lt-get_elem? : (xs : List A) (i : ℕ) {x : A} → get_elem? xs i ≡ some x → i < length xs
  lt-get_elem? [] i h = absurd (cc h)
  lt-get_elem? (x ∷ xs) zero h = omega arith
  lt-get_elem? (x ∷ xs) (suc i) h = omega (arith, lt-get_elem? xs i h)

-- The index of the recent token is one of the list, unless the list is empty.
abbrev pub ValidIndex : ℕ → List ClientToken → Type 0
ValidIndex i [] = Unit {0}
ValidIndex i (v ∷ vs) = i < length (v ∷ vs)

abbrev pub IsValid : Manager → Type 0
IsValid m = ValidIndex m.recent_token_index m.client_tokens

pub ValidIndex-zero : (vs : List ClientToken) → ValidIndex 0 vs
ValidIndex-zero [] = tt
ValidIndex-zero (v ∷ vs) = omega arith

pub ValidIndex-lt : (i : ℕ) (vs : List ClientToken) → i < length vs → ValidIndex i vs
ValidIndex-lt i [] h = tt
ValidIndex-lt i (v ∷ vs) h = h

module _ (runtime : Text) (matches : Text → Text → Bool)
    (unmarshal : List ClientToken → Text → Option (List ClientToken)) where
  -- The token of this run, or a token whose hash is listed; an empty hash counts only as the recent
  -- one.
  pub data Accepts (m : Manager) (t : Text) : Type 0 where
    own : is_empty runtime ≡ false → text_eq runtime t ≡ true → Accepts m t
    listed :
        (k : ℕ) (v : ClientToken)
        → get_elem? m.client_tokens k ≡ some v
        → matches v.hash t ≡ true
        → (k ≡ m.recent_token_index) ⊎ (is_empty v.hash ≡ false)
        → Accepts m t

  -- What the loop finds.
  record Hit (t : Text) (i : ℕ) (vs : List ClientToken) (r : ℕ × Text) : Type 0 where
    at : ℕ
    hit : ClientToken
    place : get_elem? vs at ≡ some hit
    index : r.0 ≡ i + at
    name : r.1 ≡ hit.client_name
    fits : matches hit.hash t ≡ true
    full : is_empty hit.hash ≡ false

  abbrev Scans : ℕ → Text → ℕ → List ClientToken → Option (ℕ × Text) → Type 0
  Scans recent t i vs none =
      (k : ℕ) (v : ClientToken)
      → get_elem? vs k ≡ some v
      → skipped runtime matches unmarshal recent (i + k) v ≡ false
      → matches v.hash t ≡ false
  Scans recent t i vs (some r) = Hit t i vs r

  Scans-later :
      (recent : ℕ) (t : Text) (i : ℕ) (v : ClientToken) (vs : List ClientToken)
      (o : Option (ℕ × Text))
      → (skipped runtime matches unmarshal recent i v ≡ true) ⊎ (matches v.hash t ≡ false)
      → Scans recent t (i + 1) vs o
      → Scans recent t i (v ∷ vs) o
  Scans-later recent t i v vs (some r) e h = record {
    at = suc h.at;
    hit = h.hit;
    place = h.place;
    index = omega (arith, h.index);
    name = h.name;
    fits = h.fits;
    full = h.full;
  }
  Scans-later recent t i v vs none e h = go e
    where
      go :
          (skipped runtime matches unmarshal recent i v ≡ true) ⊎ (matches v.hash t ≡ false)
          → Scans recent t i (v ∷ vs) none
      go (inl s) zero w p k =
          let q : v ≡ w = cc p in
          let n : skipped runtime matches unmarshal recent i w ≡ false =
            subst (λ j. skipped runtime matches unmarshal recent j w ≡ false) (omega arith) k in
          cc (sym s ∙ ap (skipped runtime matches unmarshal recent i) q ∙ n)
      go (inr miss) zero w p k = let q : v ≡ w = cc p in sym (ap (λ x. matches x.hash t) q) ∙ miss
      go e' (suc n) w p k =
          h n w p
            (subst (λ j. skipped runtime matches unmarshal recent j w ≡ false) (omega arith) k)

  scan-Scans :
      (recent : ℕ) (t : Text) (i : ℕ) (vs : List ClientToken)
      → Scans recent t i vs (scan runtime matches unmarshal recent t i vs)
  unfolding scan
  scan-Scans recent t i [] = λ k v p. absurd (cc p)
  scan-Scans recent t i (v ∷ vs) =
      let ih = scan-Scans recent t (i + 1) vs in
      elim (Bool-cases (skipped runtime matches unmarshal recent i v)) [
        | inl s ↦ rw s (Scans-later recent t i v vs _ (inl s) ih)
        | inr n ↦ elim (Bool-cases (matches v.hash t)) [
          | inr miss ↦ rw (n, miss) (Scans-later recent t i v vs _ (inr miss) ih)
          | inl hit ↦
              rw (n, hit)
                (record {
                  at = 0;
                  hit = v;
                  place = refl;
                  index = omega arith;
                  name = refl;
                  fits = hit;
                  full = ground arith;
                })
        ]
      ]

  -- What a check may come to.
  pub data Checks (m : Manager) (t : Text) (r : Manager × Checked) : Type 0 where
    own_token : Accepts m t → r ≡ (m, accepted (codes "Per-Runtime Token")) → Checks m t r
    at_index :
        (k : ℕ) (v : ClientToken)
        → get_elem? m.client_tokens k ≡ some v
        → matches v.hash t ≡ true
        → (k ≡ m.recent_token_index) ⊎ (is_empty v.hash ≡ false)
        → r ≡ (record m { recent_token_index = k }, accepted v.client_name)
        → Checks m t r
    denied :
        (c : Checked)
        → (c ≡ no_valid_tokens) ⊎ (c ≡ invalid_token)
        → ¬ Accepts m t
        → r ≡ (m, c)
        → Checks m t r

  module _ (m : Manager) (t : Text)
      (other : (not (is_empty runtime) && text_eq runtime t) ≡ false) where
    not_listed :
        ((n : ℕ) (v : ClientToken)
          → get_elem? m.client_tokens n ≡ some v
          → matches v.hash t ≡ true
          → (n ≡ m.recent_token_index) ⊎ (is_empty v.hash ≡ false)
          → ⊥)
        → ¬ Accepts m t
    not_listed k (own f e) = ground arith
    not_listed k (listed n v p e w) = k n v p e w

    found-Checks :
        (v : ClientToken)
        → get_elem? m.client_tokens m.recent_token_index ≡ some v
        → matches v.hash t ≡ false
        → (o : Option (ℕ × Text)) → Scans m.recent_token_index t 0 m.client_tokens o
        → Checks m t (found runtime matches unmarshal m o)
    found-Checks v p miss none h = denied invalid_token (inr refl) (not_listed none_fits) refl
      where
        none_fits :
            (n : ℕ) (w : ClientToken)
            → get_elem? m.client_tokens n ≡ some w
            → matches w.hash t ≡ true
            → (n ≡ m.recent_token_index) ⊎ (is_empty w.hash ≡ false)
            → ⊥
        none_fits n w q e side = elim (Bool-cases (n == m.recent_token_index)) [
          | inl here ↦
              let same : some w ≡ some v =
                sym q
                ∙ ap (get_elem? m.client_tokens) ((==_iff n m.recent_token_index).0 here)
                ∙ p in
              let w≡v : w ≡ v = cc same in cc (sym e ∙ ap (λ x. matches x.hash t) w≡v ∙ miss)
          | inr away ↦
              let free : skipped runtime matches unmarshal m.recent_token_index (0 + n) w ≡ false =
                ground arith in
              cc (sym e ∙ h n w q free)
        ]
    found-Checks v p miss (some r) h =
        let idx : r.0 ≡ h.at = omega (arith, h.index) in
        at_index h.at h.hit h.place h.fits (inr h.full) (
          ap (λ i. (record m { recent_token_index = i }, accepted r.1)) idx
          ∙ ap (λ n. (record m { recent_token_index = h.at }, accepted n)) h.name)

    check_recent-Checks :
        (v : ClientToken)
        → get_elem? m.client_tokens m.recent_token_index ≡ some v
        → Checks m t (check_recent runtime matches unmarshal m t (some v))
    unfolding check_recent
    check_recent-Checks v p = elim (Bool-cases (matches v.hash t)) [
      | inl hit ↦ rw hit (at_index m.recent_token_index v p hit (inl refl) refl)
      | inr miss ↦
          rw miss (found-Checks v p miss _ (scan-Scans m.recent_token_index t 0 m.client_tokens))
    ]

    check_listed-Checks :
        (vs : List ClientToken)
        → m.client_tokens ≡ vs
        → ValidIndex m.recent_token_index vs
        → Checks m t (check_listed runtime matches unmarshal m t vs)
    check_listed-Checks [] e h =
        denied no_valid_tokens (inl refl)
          (not_listed (λ n v p q side. cc (sym p ∙ ap (λ xs. get_elem? xs n) e))) refl
    check_listed-Checks (v ∷ vs) e h =
        let (w, p) = get_elem?-lt (v ∷ vs) m.recent_token_index h in
        rw p (check_recent-Checks w (ap (λ xs. get_elem? xs m.recent_token_index) e ∙ p))

  pub check_token-Checks :
      (m : Manager) (t : Text) → IsValid m → Checks m t (check_token runtime matches unmarshal m t)
  unfolding check_token
  check_token-Checks m t h = elim (Bool-cases (not (is_empty runtime) && text_eq runtime t)) [
    | inl mine ↦ rw mine (own_token (own (ground arith) (ground arith)) refl)
    | inr other ↦ rw other (check_listed-Checks m t other m.client_tokens refl h)
  ]
