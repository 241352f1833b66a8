-- ===== src/Token/Queue.antt =====
-- The queue of token requests: internal/token/queue.go. The service and the provider of the token are
-- parameters, as what they answer to a request.
use vic_cloudless.Prelude.{
  ltb, Bool-cases, if◌then◌else◌, if_intro, ℕ, ◌≡◌, refl, sym, ◌∙◌, inl, inr, Bool, true, false,
  ◌||◌, Option, none, some, [],
}
use vic_cloudless.Prelude.Text.{Text}

-- The provider's token.
pub record Token : Type 0 where
  pub raw : Text
  pub refresh_time : ℕ

-- The current token, and whether the retries are off (`backoffHandler.denied`).
pub record State : Type 0 where
  pub token : Option Token
  pub denied : Bool

-- `cloud.TokenRequest`
pub data Request : Type 0 where
  auth : Text → Request
  secondary : Text → Request
  reassociate : Text → Request
  jwt : Bool → Request
  other : Request

pub data TokenError : Type 0 where
  no_error connection wrong_account invalid_token null_token : TokenError

-- `cloud.TokenResponse`
pub data Reply : Type 0 where
  jwt_reply : TokenError → Text → Reply
  auth_reply : TokenError → Text → Text → Reply
  no_reply : Reply

-- Why a request failed; the gRPC codes that are told apart.
pub data Fault : Type 0 where
  connect_failed invalid_argument permission_denied served_other unparsable : Fault

pub record Bundle : Type 0 where
  pub bundle_token : Text
  pub client_token : Text

-- What the service answers, once there is a connection.
pub data Served : Type 0 where
  bundle : Bundle → Served
  failed : Fault → Served

-- The connection fails, or the service answers.
pub data Connection : Type 0 where
  unreachable : Connection
  reached : Served → Connection

abbrev pub Outcome : Type 0
Outcome = State × Reply × Option Fault

abbrev auth_error : State → TokenError → Fault → Outcome
auth_error s e f = (s, auth_reply e [] [], some f)

abbrev wrong_or_connection : Fault → TokenError
wrong_or_connection invalid_argument = wrong_account
wrong_or_connection connect_failed = connection
wrong_or_connection permission_denied = connection
wrong_or_connection served_other = connection
wrong_or_connection unparsable = connection

-- `store` is `ParseAndStoreToken`, `none` where it fails.
module _ (store : Text → Option Token) where
  abbrev refreshed : State → Option Token → Outcome
  refreshed s none = (s, jwt_reply invalid_token [], some unparsable)
  refreshed s (some t) = (record s { token = some t }, jwt_reply no_error t.raw, none)

  abbrev refresh : State → Connection → Outcome
  refresh s unreachable = (s, jwt_reply connection [], some connect_failed)
  refresh s (reached (failed f)) = (s, jwt_reply connection [], some f)
  refresh s (reached (bundle b)) = refreshed s (store b.bundle_token)

  -- `handleJwtRequest`
  unfoldable pub handle_jwt_request : ℕ → State → Option Token → Bool → Connection → Outcome
  handle_jwt_request now s none force c = (s, jwt_reply null_token [], none)
  handle_jwt_request now s (some t) force c =
      if ltb t.refresh_time now || force then refresh s c else (s, jwt_reply no_error t.raw, none)

  abbrev parsed_auth : State → Bundle → Option Token → Outcome
  parsed_auth s b none = (s, auth_reply invalid_token [] [], some unparsable)
  parsed_auth s b (some t) =
      (record s { token = some t }, auth_reply no_error b.client_token b.bundle_token, none)

  -- `authRequester`
  unfoldable pub auth_requester : State → Connection → Bool → Outcome
  auth_requester s unreachable parse = auth_error s connection connect_failed
  auth_requester s (reached (failed f)) parse = auth_error s (wrong_or_connection f) f
  auth_requester s (reached (bundle b)) true = parsed_auth s b (store b.bundle_token)
  auth_requester s (reached (bundle b)) false =
      (s, auth_reply no_error b.client_token b.bundle_token, none)

  -- `handleSecondaryAuthRequest`
  abbrev handle_secondary : State → Option Token → Connection → Outcome
  unfolding auth_requester
  handle_secondary s none c = (s, auth_reply null_token [] [], none)
  handle_secondary s (some t) c = auth_requester s c false

  -- `onSuccess`, after a request without an error.
  abbrev on_success : Outcome → Outcome
  on_success (s, r, none) = (record s { denied = false }, r, none)
  on_success (s, r, some f) = (s, r, some f)

  -- `handleRequest`
  unfoldable pub handle_request : ℕ → State → Request → Connection → Outcome
  unfolding handle_jwt_request auth_requester handle_secondary
  handle_request now s (auth session) c = on_success (auth_requester s c true)
  handle_request now s (secondary session) c = on_success (handle_secondary s s.token c)
  handle_request now s (reassociate session) c = on_success (auth_requester s c false)
  handle_request now s (jwt force) c = handle_jwt_request now s s.token force c
  handle_request now s other c = on_success (s, no_reply, none)

  -- What a request may come to.
  pub data Handled (s : State) (o : Outcome) : Type 0 where
    faulty : (f : Fault) → o.2 ≡ some f → o.0 ≡ s → Handled s o
    served : o.2 ≡ none → Handled s o

  on_success-Handled : (s : State) (o : Outcome) → Handled s o → Handled s (on_success o)
  on_success-Handled s (s', r, none) h = served refl
  on_success-Handled s (s', r, some f) (faulty f' e e') = faulty f' e e'
  on_success-Handled s (s', r, some f) (served e) = absurd (cc e)

  auth_requester-Handled :
      (s : State) (c : Connection) (parse : Bool) → Handled s (auth_requester s c parse)
  unfolding auth_requester
  auth_requester-Handled s unreachable parse = faulty connect_failed refl refl
  auth_requester-Handled s (reached (failed f)) parse = faulty f refl refl
  auth_requester-Handled s (reached (bundle b)) false = served refl
  auth_requester-Handled s (reached (bundle b)) true = go (store b.bundle_token)
    where
      go : (o : Option Token) → Handled s (parsed_auth s b o)
      go none = faulty unparsable refl refl
      go (some t) = served refl

  refresh-Handled : (s : State) (c : Connection) → Handled s (refresh s c)
  refresh-Handled s unreachable = faulty connect_failed refl refl
  refresh-Handled s (reached (failed f)) = faulty f refl refl
  refresh-Handled s (reached (bundle b)) = go (store b.bundle_token)
    where
      go : (o : Option Token) → Handled s (refreshed s o)
      go none = faulty unparsable refl refl
      go (some t) = served refl

  handle_request-Handled :
      (now : ℕ) (s : State) (r : Request) (c : Connection) → Handled s (handle_request now s r c)
  unfolding handle_request handle_jwt_request
  handle_request-Handled now s (auth session) c =
      on_success-Handled s _ (auth_requester-Handled s c true)
  handle_request-Handled now s (secondary session) c = on_success-Handled s _ (go s.token)
    where
      go : (o : Option Token) → Handled s (handle_secondary s o c)
      go none = served refl
      go (some t) = auth_requester-Handled s c false
  handle_request-Handled now s (reassociate session) c =
      on_success-Handled s _ (auth_requester-Handled s c false)
  handle_request-Handled now s (jwt force) c = go s.token
    where
      go : (o : Option Token) → Handled s (handle_jwt_request now s o force c)
      go none = served refl
      go (some t) =
          if_intro (Handled s) (ltb t.refresh_time now || force) _ _ (refresh-Handled s c)
            (served refl)
  handle_request-Handled now s other c = served refl

  -- A request that fails changes nothing: the token stays, and so does the state of the retries.
  pub handle_request-fault :
      (now : ℕ) (s : State) (r : Request) (c : Connection) (f : Fault)
      → (handle_request now s r c).2 ≡ some f
      → (handle_request now s r c).0 ≡ s
  handle_request-fault now s r c f e = go (handle_request-Handled now s r c)
    where
      go : Handled s (handle_request now s r c) → (handle_request now s r c).0 ≡ s
      go (faulty f' e' same) = same
      go (served e') = cc (sym e ∙ e')

  abbrev Carries : Outcome → Text → Type 0
  Carries o text = (t : Token) × (o.0.token ≡ some t) × (t.raw ≡ text)

  refresh-Carries :
      (s : State) (c : Connection) (text : Text)
      → (refresh s c).1 ≡ jwt_reply no_error text
      → Carries (refresh s c) text
  refresh-Carries s unreachable text e = cc e
  refresh-Carries s (reached (failed f)) text e = cc e
  refresh-Carries s (reached (bundle b)) text e = go (store b.bundle_token) e
    where
      go :
          (o : Option Token)
          → (refreshed s o).1 ≡ jwt_reply no_error text
          → Carries (refreshed s o) text
      go none e = cc e
      go (some t) e = (t, refl, cc e)

  -- A reply to a request for the JWT that carries no error carries the token that is held from then
  -- on, be it the old one or the one that was refreshed.
  pub handle_request-token :
      (now : ℕ) (s : State) (force : Bool) (c : Connection) (text : Text)
      → (handle_request now s (jwt force) c).1 ≡ jwt_reply no_error text
      → (t : Token) × ((handle_request now s (jwt force) c).0.token ≡ some t) × (t.raw ≡ text)
  unfolding handle_request handle_jwt_request
  handle_request-token now s force c text e = go s.token refl e
    where
      go :
          (o : Option Token)
          → s.token ≡ o
          → (handle_jwt_request now s o force c).1 ≡ jwt_reply no_error text
          → Carries (handle_jwt_request now s o force c) text
      go none k e = cc e
      go (some t) k e = elim (Bool-cases (ltb t.refresh_time now || force)) [
        | inl due ↦ rw due (refresh-Carries s c text (rw due at e))
        | inr fresh ↦ rw fresh (t, k, let f = (rw fresh at e) in cc f)
      ]
