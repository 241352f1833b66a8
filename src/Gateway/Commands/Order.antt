-- ===== src/Gateway/Commands/Order.antt =====
-- The commands of several clients, as the engine reads them.
use vic_cloudless.Prelude.{
  Bool-cases, ltb, length, ℕ, ◌≤◌, ◌≡◌, refl, ◌⊎◌, inl, inr, Bool, false, [], arith,
}
use vic_cloudless.Prelude.Text.{Text}
use vic_cloudless.Clad.Wire.{Bytes, text, pair, pack_text}
use vic_cloudless.Clad.Union.{union}
use vic_cloudless.Clad.External.Faces.{app_intent_codec}
use vic_cloudless.Clad.External.Messages.{message_external_to_robot_codec}
use vic_cloudless.Gateway.Blocks.{write_block}
use vic_cloudless.Gateway.Commands.{app_intent_request, to_clad, write_error, tell}

le→ltb_false : (a b : ℕ) → b ≤ a → ltb a b ≡ false
le→ltb_false a b h = ground arith

module _ (writes : Bytes → Bool) where
  -- An intent with a text of 256 bytes or more is refused, and nothing is written.
  pub tell-app_intent_request :
      (intent param : Text)
      → (256 ≤ length intent) ⊎ (256 ≤ length param)
      → tell writes (app_intent_request intent param) ≡ ([], write_error)
  unfolding tell to_clad write_block message_external_to_robot_codec union app_intent_codec text
      pair pack_text
  tell-app_intent_request intent param (inl h) = rw (le→ltb_false (length intent) 256 h) refl
  tell-app_intent_request intent param (inr h) = elim (Bool-cases (ltb (length intent) 256)) [
    | inl short ↦ rw (short, le→ltb_false (length param) 256 h) refl
    | inr long ↦ rw long refl
  ]
