-- ===== src/Gateway/Tokens/Acceptance.antt =====
-- Which tokens `CheckToken` accepts.
use vic_cloudless.Prelude.{◌≡◌, sym, ap, ◌∙◌, ◌↔◌, inl, inr, Bool, Option, List}
use vic_cloudless.Prelude.Text.{Text}
use vic_cloudless.Gateway.Tokens.{ClientToken, Manager, Checked, accepted, check_token}
use vic_cloudless.Gateway.Tokens.Checks.{
  IsValid, Accepts, listed, Checks, own_token, at_index, denied, check_token-Checks,
}

module _ (runtime : Text) (matches : Text → Text → Bool)
    (unmarshal : List ClientToken → Text → Option (List ClientToken)) where
  accepted-Accepts :
      (m : Manager) (t : Text) (r : Manager × Checked) (name : Text)
      → Checks runtime matches unmarshal m t r
      → r.1 ≡ accepted name
      → Accepts runtime matches unmarshal m t
  accepted-Accepts m t r name (own_token a e) q = a
  accepted-Accepts m t r name (at_index k v p f side e) q = listed k v p f side
  accepted-Accepts m t r name (denied c (inl x) n e) q = cc (sym x ∙ sym (ap (λ y. y.1) e) ∙ q)
  accepted-Accepts m t r name (denied c (inr x) n e) q = cc (sym x ∙ sym (ap (λ y. y.1) e) ∙ q)

  Accepts-accepted :
      (m : Manager) (t : Text) (r : Manager × Checked)
      → Checks runtime matches unmarshal m t r
      → Accepts runtime matches unmarshal m t
      → (name : Text) × (r.1 ≡ accepted name)
  Accepts-accepted m t r (own_token a e) q = (_, ap (λ y. y.1) e)
  Accepts-accepted m t r (at_index k v p f side e) q = (_, ap (λ y. y.1) e)
  Accepts-accepted m t r (denied c x n e) q = absurd (n q)

  -- Where the recent index is valid, a check accepts a token exactly if it is the token of this run,
  -- which must not be empty, or belongs to a listed hash that is not empty or is the recent one.
  pub check_token_iff :
      (m : Manager) (t : Text)
      → IsValid m
      → ((name : Text) × ((check_token runtime matches unmarshal m t).1 ≡ accepted name))
        ↔ Accepts runtime matches unmarshal m t
  check_token_iff m t h =
      let c = check_token-Checks runtime matches unmarshal m t h in
      ((λ (name, e). accepted-Accepts m t _ name c e), Accepts-accepted m t _ c)
