-- ===== src/Gateway/Tokens/Index.antt =====
-- The index of the recent token stays within the list, through all operations on the tokens.
use vic_cloudless.Prelude.{
  subst, get_elem?, if_intro, Bool-cases, ℕ, ◌≡◌, refl, sym, ap, ◌∙◌, ◌≢◌, inl, inr, Bool, false,
  not, ◌&&◌, Option, none, some, List, [], ◌∷◌, map,
}
use vic_cloudless.Prelude.Text.{text_eq, Text}
use vic_cloudless.Gateway.Tokens.{
  ClientToken, Manager, Checked, panic, Read, document, failed, no_items, Step, check, update,
  force, something, check_token, decoded, decode_token_jdoc, update_tokens, force_update, apply,
  apply_all, is_empty, check_listed, check_recent, check_read, check_found, check_token_while,
  cleared, write_if, read_into,
}
use vic_cloudless.Gateway.Tokens.Checks.{
  IsValid, ValidIndex-zero, ValidIndex-lt, lt-get_elem?, Checks, own_token, at_index, denied,
  check_token-Checks,
}

module _ (runtime : Text) (matches : Text → Text → Bool)
    (unmarshal : List ClientToken → Text → Option (List ClientToken)) where
  Checks-IsValid :
      (m : Manager) (t : Text) (r : Manager × Checked)
      → IsValid m
      → Checks runtime matches unmarshal m t r
      → IsValid r.0
  Checks-IsValid m t r h (own_token a e) = subst IsValid (sym (ap (λ y. y.0) e)) h
  Checks-IsValid m t r h (denied c x n e) = subst IsValid (sym (ap (λ y. y.0) e)) h
  Checks-IsValid m t r h (at_index k v p f side e) =
      subst IsValid (sym (ap (λ y. y.0) e))
        (ValidIndex-lt k m.client_tokens (lt-get_elem? m.client_tokens k p))

  cleared-IsValid :
      (removed : Bool) (m : Manager)
      → IsValid m
      → IsValid (cleared runtime matches unmarshal removed m)
  cleared-IsValid removed m h = if_intro IsValid (m.force_clear_file && removed) _ _ h h

  read_into-IsValid :
      (now : ℕ) (written : Bool) (m : Manager) (r : Read)
      → IsValid m
      → IsValid (read_into runtime matches unmarshal now written m r)
  unfolding decode_token_jdoc
  read_into-IsValid now written m failed h = h
  read_into-IsValid now written m no_items h = h
  read_into-IsValid now written m (document jdoc) h = go (unmarshal m.client_tokens jdoc)
    where
      go :
          (o : Option (List ClientToken))
          → IsValid (
              let d =
                decoded runtime matches unmarshal
                  (record m { recent_token_index = 0; last_updated = now })
                  o in
              write_if runtime matches unmarshal d.1 written jdoc d.0)
      go none = ValidIndex-zero (something ∷ [])
      go (some vs) = if_intro IsValid written _ _ (ValidIndex-zero vs) (ValidIndex-zero vs)

  apply-IsValid :
      (m : Manager) (s : Step runtime matches unmarshal)
      → IsValid m
      → IsValid (apply runtime matches unmarshal m s)
  unfolding apply update_tokens force_update
  apply-IsValid m (check t) h =
      Checks-IsValid m t _ h (check_token-Checks runtime matches unmarshal m t h)
  apply-IsValid m (update now removed written r) h =
      read_into-IsValid now written _ r (cleared-IsValid removed m h)
  apply-IsValid m force h = tt

  apply_all-IsValid :
      (m : Manager) (ss : List (Step runtime matches unmarshal))
      → IsValid m
      → IsValid (apply_all runtime matches unmarshal m ss)
  unfolding apply_all
  apply_all-IsValid m [] h = h
  apply_all-IsValid m (s ∷ ss) h =
      apply_all-IsValid (apply runtime matches unmarshal m s) ss (apply-IsValid m s h)

  Checks-no_panic :
      (m : Manager) (t : Text) (r : Manager × Checked)
      → Checks runtime matches unmarshal m t r
      → r.1 ≢ panic
  Checks-no_panic m t r (own_token a e) q = cc (sym (ap (λ y. y.1) e) ∙ q)
  Checks-no_panic m t r (at_index k v p f side e) q = cc (sym (ap (λ y. y.1) e) ∙ q)
  Checks-no_panic m t r (denied c (inl x) n e) q = cc (sym x ∙ sym (ap (λ y. y.1) e) ∙ q)
  Checks-no_panic m t r (denied c (inr x) n e) q = cc (sym x ∙ sym (ap (λ y. y.1) e) ∙ q)

  -- The checks of other clients.
  abbrev pub checks : List Text → List (Step runtime matches unmarshal)
  checks = map check

  Checks-client_tokens :
      (m : Manager) (t : Text) (r : Manager × Checked)
      → Checks runtime matches unmarshal m t r
      → r.0.client_tokens ≡ m.client_tokens
  Checks-client_tokens m t r (own_token a e) = ap (λ y. y.0.client_tokens) e
  Checks-client_tokens m t r (denied c x n e) = ap (λ y. y.0.client_tokens) e
  Checks-client_tokens m t r (at_index k v p f side e) = ap (λ y. y.0.client_tokens) e

  -- Checks leave the list as it is.
  checks-client_tokens :
      (m : Manager) (ts : List Text)
      → IsValid m
      → (apply_all runtime matches unmarshal m (checks ts)).client_tokens ≡ m.client_tokens
  unfolding apply_all apply
  checks-client_tokens m [] h = refl
  checks-client_tokens m (t ∷ ts) h =
      checks-client_tokens (apply runtime matches unmarshal m (check t)) ts
        (apply-IsValid m (check t) h)
      ∙ Checks-client_tokens m t _ (check_token-Checks runtime matches unmarshal m t h)

  check_token-read :
      (m : Manager) (t : Text) (v : ClientToken) (vs : List ClientToken)
      → (not (is_empty runtime) && text_eq runtime t) ≡ false
      → m.client_tokens ≡ v ∷ vs
      → check_token runtime matches unmarshal m t ≡ check_read runtime matches unmarshal m t
  unfolding check_token
  check_token-read m t v vs other e = rw other (
      ap (check_listed runtime matches unmarshal m t) e
      ∙ ap (λ l. check_recent runtime matches unmarshal m t (get_elem? l m.recent_token_index))
          (sym e))

  check_token-no_panic :
      (m : Manager) (t : Text) → IsValid m → (check_token runtime matches unmarshal m t).1 ≢ panic
  check_token-no_panic m t h =
      Checks-no_panic m t _ (check_token-Checks runtime matches unmarshal m t h)

  check_found-no_panic :
      (m : Manager) (ts : List Text) (t : Text) (vs : List ClientToken)
      → (not (is_empty runtime) && text_eq runtime t) ≡ false
      → m.client_tokens ≡ vs
      → IsValid m
      → (check_found runtime matches unmarshal (checks ts) m t vs).1 ≢ panic
  unfolding check_found
  check_found-no_panic m ts t [] other e h = λ q. cc q
  check_found-no_panic m ts t (v ∷ vs) other e h =
      let m' = apply_all runtime matches unmarshal m (checks ts) in
      let same = checks-client_tokens m ts h ∙ e in
      subst (λ r. r.1 ≢ panic) (check_token-read m' t v vs other same)
        (check_token-no_panic m' t (apply_all-IsValid m (checks ts) h))

  -- Whatever checks, updates and forced updates follow one another from a valid index: a check after
  -- them does not panic, whatever checks of other clients run between its test for an empty list and its
  -- read of the recent token, if no update runs there.
  pub check_token_while-no_panic :
      (m : Manager) (ss : List (Step runtime matches unmarshal)) (ts : List Text) (t : Text)
      → IsValid m
      → (check_token_while runtime matches unmarshal
          (apply_all runtime matches unmarshal m ss)
          (checks ts)
          t).1
        ≢ panic
  unfolding check_token_while
  check_token_while-no_panic m ss ts t h =
      let m' = apply_all runtime matches unmarshal m ss in
      elim (Bool-cases (not (is_empty runtime) && text_eq runtime t)) [
        | inl own ↦ rw own (λ q. cc q)
        | inr other ↦
            rw other
              (check_found-no_panic m' ts t m'.client_tokens other refl (apply_all-IsValid m ss h))
      ]
