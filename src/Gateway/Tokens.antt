-- ===== src/Gateway/Tokens.antt =====
-- The client tokens of the gateway: cloud/tokens.go. What the jdocs service answers, the JSON decoder
-- and the comparison with a hash are parameters.
pub mod Checks
pub mod Acceptance
pub mod Index
pub mod Fetch
pub mod OwnOnly
use vic_cloudless.Prelude.{
  ltb, ◌==◌, if◌then◌else◌, get_elem?, ℕ, ◌+◌, ◌-◌, Bool, true, false, not, ◌&&◌, ◌||◌, Option,
  none, some, List, [], ◌∷◌,
}
use vic_cloudless.Prelude.Text.{codes, Text, text_eq}

-- `ClientToken`
pub record ClientToken : Type 0 where
  pub hash : Text
  pub client_name : Text
  pub app_id : Text
  pub issued_at : Text

-- `ClientTokenManager`, and the file of tokens: its text, where there is one.
pub record Manager : Type 0 where
  pub client_tokens : List ClientToken
  pub recent_token_index : ℕ
  pub last_updated : ℕ
  pub force_clear_file : Bool
  pub file : Option Text

-- What `CheckToken` returns; an index out of range is a panic.
pub data Checked : Type 0 where
  accepted : Text → Checked
  no_valid_tokens invalid_token panic : Checked

-- What the jdocs process answers: the ids are missing, the request or its answer fails, the answer
-- has no item, or the text of the first one.
pub data Read : Type 0 where
  failed no_items : Read
  document : Text → Read

abbrev pub something : ClientToken
something = record {
  hash = codes "something";
  client_name = codes "something";
  app_id = codes "something";
  issued_at = codes "20250101";
}

abbrev is_empty : Text → Bool
is_empty [] = true
is_empty (c ∷ s) = false

module _ (runtime : Text) (matches : Text → Text → Bool)  -- `CompareHashAndToken` without an error
    (unmarshal : List ClientToken → Text → Option (List ClientToken)) where
  -- The loop over the other tokens, from the index `i` on.
  abbrev skipped : ℕ → ℕ → ClientToken → Bool
  skipped recent i v = i == recent || is_empty v.hash

  scan : ℕ → Text → ℕ → List ClientToken → Option (ℕ × Text)
  scan recent t i [] = none
  scan recent t i (v ∷ vs) =
      let later = scan recent t (i + 1) vs in
      if skipped recent i v
      then later
      else if matches v.hash t
      then some (i, v.client_name)
      else later

  abbrev found : Manager → Option (ℕ × Text) → Manager × Checked
  found m none = (m, invalid_token)
  found m (some (i, name)) = (record m { recent_token_index = i }, accepted name)

  abbrev check_recent : Manager → Text → Option ClientToken → Manager × Checked
  unfolding scan
  check_recent m t none = (m, panic)
  check_recent m t (some v) =
      if matches v.hash t
      then (m, accepted v.client_name)
      else found m (scan m.recent_token_index t 0 m.client_tokens)

  abbrev check_listed : Manager → Text → List ClientToken → Manager × Checked
  check_listed m t [] = (m, no_valid_tokens)
  check_listed m t (v ∷ vs) = check_recent m t (get_elem? (v ∷ vs) m.recent_token_index)

  -- `CheckToken`, after the update that it waits for.
  unfoldable pub check_token : Manager → Text → Manager × Checked
  unfolding scan
  check_token m t =
      if not (is_empty runtime) && text_eq runtime t
      then (m, accepted (codes "Per-Runtime Token"))
      else check_listed m t m.client_tokens

  -- The read of the recent token and what follows it.
  abbrev pub check_read : Manager → Text → Manager × Checked
  unfolding scan
  check_read m t = check_recent m t (get_elem? m.client_tokens m.recent_token_index)

  abbrev decoded : Manager → Option (List ClientToken) → Manager × Bool
  decoded m none = (record m { client_tokens = something ∷ [] }, false)
  decoded m (some tokens) = (record m { client_tokens = tokens }, true)

  -- `DecodeTokenJdoc`, and whether it succeeds.
  unfoldable pub decode_token_jdoc : ℕ → Manager → Text → Manager × Bool
  decode_token_jdoc now m jdoc =
      decoded (record m { recent_token_index = 0; last_updated = now })
        (unmarshal m.client_tokens jdoc)

  -- The file goes first, where that was asked for; `removed` says whether it could be removed.
  abbrev cleared : Bool → Manager → Manager
  cleared removed m =
      if m.force_clear_file && removed
      then record m { file = none; force_clear_file = false }
      else m

  abbrev write_if : Bool → Bool → Text → Manager → Manager
  write_if ok written jdoc m = if ok && written then record m { file = some jdoc } else m

  abbrev read_into : ℕ → Bool → Manager → Read → Manager
  read_into now written m failed = m
  read_into now written m no_items = m
  read_into now written m (document jdoc) =
      let (m', ok) = decode_token_jdoc now m jdoc in write_if ok written jdoc m'

  -- `UpdateTokens`
  unfoldable pub update_tokens : ℕ → Bool → Bool → Manager → Read → Manager
  unfolding decode_token_jdoc
  update_tokens now removed written m r = read_into now written (cleared removed m) r

  -- `ForceUpdate`, up to the request for an update.
  unfoldable pub force_update : Manager → Manager
  force_update m = record m { force_clear_file = true; recent_token_index = 0; client_tokens = [] }

  -- `updateListener`: whether a check waits for an update first. Times are in seconds; `allow` is
  -- the limiter's answer.
  unfoldable pub wants_update : ℕ → Bool → Manager → Bool
  wants_update now allow m = ltb 3600 (now - m.last_updated) && allow

  -- The operations on the manager where one ends before the next begins. The code does not see to
  -- that: a check and a forced update run in routines of their own, with no lock, so that other
  -- operations may run in the middle of a check, as below.
  pub data Step : Type 0 where
    check : Text → Step
    update : ℕ → Bool → Bool → Read → Step
    force : Step

  unfoldable pub apply : Manager → Step → Manager
  unfolding check_token update_tokens force_update
  apply m (check t) = (check_token m t).0
  apply m (update now removed written r) = update_tokens now removed written m r
  apply m force = force_update m

  unfoldable pub apply_all : Manager → List Step → Manager
  unfolding apply
  apply_all m [] = m
  apply_all m (s ∷ ss) = apply_all (apply m s) ss

  abbrev pub check_found : List Step → Manager → Text → List ClientToken → Manager × Checked
  unfolding apply_all check_read
  check_found ss m t [] = (apply_all m ss, no_valid_tokens)
  check_found ss m t (v ∷ vs) = check_read (apply_all m ss) t

  -- `CheckToken` with the operations that other routines run between its test for an empty list and
  -- its read of the recent token.
  unfoldable pub check_token_while : Manager → List Step → Text → Manager × Checked
  unfolding apply_all check_found
  check_token_while m ss t =
      if not (is_empty runtime) && text_eq runtime t
      then (apply_all m ss, accepted (codes "Per-Runtime Token"))
      else check_found ss m t m.client_tokens
