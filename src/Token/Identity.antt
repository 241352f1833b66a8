-- ===== src/Token/Identity.antt =====
-- The robot's token: internal/token/identity. The parser of a JWT without its signature and the parser
-- of times are parameters. The directory of the file is taken to be there, and a file that is removed
-- to be gone.
use vic_cloudless.Prelude.{
  if_intro, if◌then◌else◌, ℕ, ◌≡◌, refl, ap, ◌∙◌, subst, ◌≢◌, Bool, Option, none, some, List, [],
  ◌∷◌,
}
use vic_cloudless.Prelude.Text.{Text}

-- The claims that are read.
pub data Claim : Type 0 where
  token_id token_type user_id requestor_id issued_at expires_at : Claim

-- A claim is a string, or something else.
pub data Value : Type 0 where
  string : Text → Value
  other : Value

-- `jwt.MapClaims`
abbrev pub Claims : Type 0
Claims = Claim → Option Value

-- `TokenInfo`, the fields that are read; times are in seconds.
pub record TokenInfo : Type 0 where
  pub raw : Text
  pub id : Text
  pub kind : Text
  pub user : Text
  pub requestor : Text
  pub issued : ℕ
  pub expires : ℕ

pub data Parsed (A : Type 0) : Type 0 where
  ok : A → Parsed A
  not_jwt : Parsed A
  missing : Claim → Parsed A
  bad_time : Claim → Parsed A

abbrev and_then : {A B : Type 0} → Parsed A → (A → Parsed B) → Parsed B
and_then (ok a) go = go a
and_then not_jwt go = not_jwt
and_then (missing c) go = missing c
and_then (bad_time c) go = bad_time c

abbrev as_string : Claim → Option Value → Parsed Text
as_string c none = missing c
as_string c (some other) = missing c
as_string c (some (string s)) = ok s

-- The provider: what the file holds, and the current token.
pub record Provider : Type 0 where
  pub file : Option Text
  pub current : Option TokenInfo

module _ (parse_unverified : Text → Option Claims) (parse_time : Text → Option ℕ) where
  abbrev as_time : Claim → Option ℕ → Parsed ℕ
  as_time c none = bad_time c
  as_time c (some t) = ok t

  -- `FromJwtToken`: the claims in the order in which they are asked for.
  unfoldable pub from_jwt_token : Text → Claims → Parsed TokenInfo
  from_jwt_token text claims =
      let get : Claim → Parsed Text = λ c. as_string c (claims c) in
      and_then (get token_id) (λ i. and_then (get token_type) (λ tp. and_then (get user_id) (λ u.
        and_then (get requestor_id) (λ r. and_then (get issued_at) (λ ia.
          and_then (as_time issued_at (parse_time ia)) (λ iat. and_then (get expires_at) (λ ea.
            and_then (as_time expires_at (parse_time ea)) (λ exp. ok (record {
              raw = text;
              id = i;
              kind = tp;
              user = u;
              requestor = r;
              issued = iat;
              expires = exp;
            })))))))))

  abbrev pub of_claims : Text → Option Claims → Parsed TokenInfo
  unfolding from_jwt_token
  of_claims text none = not_jwt
  of_claims text (some claims) = from_jwt_token text claims

  -- `parseToken`
  unfoldable pub parse_token : Text → Parsed TokenInfo
  parse_token text = of_claims text (parse_unverified text)

  abbrev pub store_parsed : Bool → Provider → Text → Parsed TokenInfo → Provider × Option TokenInfo
  store_parsed saved p text (ok t) =
      if saved then (record { file = some text; current = some t }, some t) else (p, none)
  store_parsed saved p text not_jwt = (p, none)
  store_parsed saved p text (missing c) = (p, none)
  store_parsed saved p text (bad_time c) = (p, none)

  -- `ParseAndStoreToken`; `saved` says whether the file could be written, by way of a second file
  -- that is renamed, so that a failure leaves the old one.
  unfoldable pub parse_and_store_token : Bool → Provider → Text → Provider × Option TokenInfo
  unfolding parse_token
  parse_and_store_token saved p text = store_parsed saved p text (parse_token text)

  -- A token without a user is deleted.
  abbrev pub if_named : Text → Text → TokenInfo → Provider
  if_named [] text t = record { file = none; current = none }
  if_named (c ∷ u) text t = record { file = some text; current = some t }

  abbrev pub load_parsed : Text → Parsed TokenInfo → Provider
  load_parsed text (ok t) = if_named t.user text t
  load_parsed text not_jwt = record { file = none; current = none }
  load_parsed text (missing c) = record { file = none; current = none }
  load_parsed text (bad_time c) = record { file = none; current = none }

  abbrev pub load : Option Text → Provider
  load none = record { file = none; current = none }
  load (some text) = load_parsed text (parse_token text)

  -- `init`, of a new provider on the file that is there.
  unfoldable pub init : Option Text → Provider
  unfolding parse_token
  init f = load f

  -- The current token, where there is one, is what the file holds.
  abbrev Held : Option Text → TokenInfo → Type 0
  Held none t = ⊥
  Held (some text) t = parse_token text ≡ ok t

  abbrev HeldCurrent : Option Text → Option TokenInfo → Type 0
  HeldCurrent f none = Unit {0}
  HeldCurrent f (some t) = Held f t

  abbrev pub Agrees : Provider → Type 0
  Agrees p = HeldCurrent p.file p.current

  if_named-Agrees :
      (u text : Text) (t : TokenInfo) → parse_token text ≡ ok t → Agrees (if_named u text t)
  if_named-Agrees [] text t e = tt
  if_named-Agrees (c ∷ u) text t e = e

  init-Agrees : (f : Option Text) → Agrees (init f)
  unfolding init
  init-Agrees none = tt
  init-Agrees (some text) = go (parse_token text) refl
    where
      go : (r : Parsed TokenInfo) → parse_token text ≡ r → Agrees (load_parsed text r)
      go (ok t) e = if_named-Agrees t.user text t e
      go not_jwt e = tt
      go (missing c) e = tt
      go (bad_time c) e = tt

  parse_and_store_token-Agrees :
      (saved : Bool) (p : Provider) (text : Text)
      → Agrees p
      → Agrees (parse_and_store_token saved p text).0
  unfolding parse_and_store_token
  parse_and_store_token-Agrees saved p text h = go (parse_token text) refl
    where
      go : (r : Parsed TokenInfo) → parse_token text ≡ r → Agrees (store_parsed saved p text r).0
      go (ok t) e =
          if_intro (λ (x : Provider × Option TokenInfo). Agrees x.0) saved
            (record { file = some text; current = some t }, some t) (p, none) e h
      go not_jwt e = h
      go (missing c) e = h
      go (bad_time c) e = h

  -- The tokens that come from the server, each with the fate of its file.
  unfoldable pub store_all : Provider → List (Bool × Text) → Provider
  unfolding parse_and_store_token
  store_all p [] = p
  store_all p ((saved, text) ∷ rest) = store_all (parse_and_store_token saved p text).0 rest

  store_all-Agrees : (p : Provider) (ts : List (Bool × Text)) → Agrees p → Agrees (store_all p ts)
  unfolding store_all
  store_all-Agrees p [] h = h
  store_all-Agrees p ((saved, text) ∷ rest) h =
      store_all-Agrees (parse_and_store_token saved p text).0 rest
        (parse_and_store_token-Agrees saved p text h)

  load-Held : (f : Option Text) (t : TokenInfo) → Held f t → t.user ≢ [] → (load f).current ≡ some t
  load-Held none t h n = absurd h
  load-Held (some text) t h n = ap (λ r. (load_parsed text r).current) h ∙ named t.user n
    where
      named : (u : Text) → u ≢ [] → (if_named u text t).current ≡ some t
      named [] n = absurd (n refl)
      named (c ∷ s) n = refl

  -- A restart keeps the token: after the start and any tokens from the server, stored or not, a new
  -- provider on the same file has the same current token, where that one names a user.
  pub init-store_all :
      (f : Option Text) (ts : List (Bool × Text)) (t : TokenInfo)
      → (store_all (init f) ts).current ≡ some t
      → t.user ≢ []
      → (init (store_all (init f) ts).file).current ≡ some t
  unfolding init
  init-store_all f ts t e n =
      load-Held (store_all (init f) ts).file t
        (subst (HeldCurrent (store_all (init f) ts).file) e
          (store_all-Agrees (init f) ts (init-Agrees f)))
        n
