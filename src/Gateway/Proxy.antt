-- ===== src/Gateway/Proxy.antt =====
-- The proxy that carries REST calls over BLE to the gateway: cloud/switchboard_proxy.go. The regular
-- expression that splits names, the test that `http.NewRequest` makes of a URL, the HTTP client, the
-- encoder of JSON and the size of a response on the wire are parameters.
use vic_cloudless.Prelude.{
  ◌==◌, exists, if◌then◌else◌, All, if_intro, leb, Bool-cases, All-append, ℕ, ◌%◌, ◌≡◌, refl, ap,
  ◌∙◌, inl, inr, Bool, true, false, ◌||◌, Option, none, some, List, [], ◌∷◌, ◌++◌,
}
use vic_cloudless.Prelude.Text.{to_lower, text_eq, codes, Text}

pub record Method : Type 0 where
  pub name : Text
  pub is_client_stream : Bool
  pub is_server_stream : Bool

-- `SdkProxyRequest`
pub record Request : Type 0 where
  pub message_id : Text
  pub path : Text
  pub json : Text
  pub client_guid : Text

-- `SdkProxyResponse`
pub record Response : Type 0 where
  pub message_id : Text
  pub status_code : ℕ
  pub content_type : Text
  pub content : Text

-- What handling a request comes to: the URLs that are asked for and the response, or a panic.
pub data Handled : Type 0 where
  answered : List Text → Response → Handled
  panic : Handled

-- What the gateway answers to the HTTP request.
pub record Upstream : Type 0 where
  pub status : ℕ
  pub header : Text
  pub body : Text

abbrev not_empty : Text → List Text
not_empty [] = []
not_empty (c ∷ s) = (c ∷ s) ∷ []

-- The parts of all matches that are not empty, in order.
pieces : List (Text × Text) → List Text
pieces [] = []
pieces ((a, b) ∷ rest) = not_empty a ++ (not_empty b ++ pieces rest)

join : List Text → Text
join [] = []
join (t ∷ []) = t
join (t ∷ u ∷ rest) = t ++ b'_' ∷ join (u ∷ rest)

abbrev strip_slash : Text → Text
strip_slash [] = []
strip_slash (c ∷ s) = if c == b'/' then s else c ∷ s

module _ (split_camel : Text → List (Text × Text)) where
  -- `streamNameToURL`
  unfoldable pub stream_name_to_url : Text → Text
  unfolding pieces join
  stream_name_to_url name = to_lower (codes "v1/" ++ join (pieces (split_camel name)))

  abbrev url_if : Bool → Text → List Text
  unfolding stream_name_to_url
  url_if b name = if b then stream_name_to_url name ∷ [] else []

  -- `initialize`, on the methods of all services, in the order of the loops.
  unfoldable pub initialize : List Text → List Method → List Text
  unfolding stream_name_to_url
  initialize urls [] = urls
  initialize urls (m ∷ ms) =
      initialize (urls ++ url_if (m.is_client_stream || m.is_server_stream) m.name) ms

unfoldable pub is_stream : List Text → Text → Bool
is_stream [] url = false
is_stream (u ∷ us) url = if text_eq url u then true else is_stream us url

abbrev pub no_streams : Text
no_streams = codes "Unable to run streams through BLE interface"

abbrev pub text_response : Request → ℕ → Text → Response
text_response r status content = record {
  message_id = r.message_id;
  status_code = status;
  content_type = codes "application/text";
  content = content;
}

module _ (accepts_url : Text → Bool)  -- whether `http.NewRequest` makes a request of the URL
    (client : Text → Request → Option Upstream) (size : Response → ℕ)
    (marshal : ℕ → ℕ → Option Text)  -- `TruncationResponse`: the status and the size
    (address : Text) where
  abbrev reply : Request → Upstream → Response
  reply r u = record {
    message_id = r.message_id;
    status_code = u.status % 65536;
    content_type = u.header;
    content = u.body;
  }

  abbrev truncated : Request → Option Text → Response
  truncated r none = text_response r 500 (codes "Response body too large")
  truncated r (some json) = record {
    message_id = r.message_id;
    status_code = 500;
    content_type = codes "application/json";
    content = json;
  }

  abbrev pub bounded : Request → Upstream → Response
  bounded r u =
      if leb 2048 (size (reply r u))
      then truncated r (marshal (u.status % 65536) (size (reply r u)))
      else reply r u

  abbrev pub answer : Request → Option Upstream → Response
  answer r none = text_response r 502 (codes "Failed to reach proxy server")
  answer r (some u) = bounded r u

  abbrev pub url_of : Text → Text
  url_of path = codes "https://" ++ (address ++ b'/' ∷ path)

  -- The request that is sent on, with the URL that is asked for. The error of `http.NewRequest` is
  -- dropped, and its request, which is nil then, is used.
  unfoldable pub forward : Request → Text → Handled
  forward r path =
      if accepts_url (url_of path)
      then answered (url_of path ∷ []) (answer r (client (url_of path) r))
      else panic

  -- `handle`
  unfoldable pub handle : List Text → Request → Handled
  unfolding is_stream forward
  handle urls r =
      if is_stream urls r.path
      then answered [] (text_response r 403 no_streams)
      else forward r (strip_slash r.path)

  is_stream-Mem :
      (urls : List Text) (u : Text) → exists (text_eq u) urls ≡ true → is_stream urls u ≡ true
  unfolding is_stream
  is_stream-Mem [] u h = h
  is_stream-Mem (x ∷ xs) u h = elim (Bool-cases (text_eq u x)) [
    | inl e ↦ rw e refl
    | inr n ↦ rw n (is_stream-Mem xs u (rw n at h))
  ]

  -- A path that is one of the listed streams is refused with 403, and nothing is asked for.
  pub handle-stream :
      (urls : List Text) (r : Request)
      → exists (text_eq r.path) urls ≡ true
      → handle urls r ≡ answered [] (text_response r 403 no_streams)
  unfolding handle
  handle-stream urls r h = rw (is_stream-Mem urls r.path h) refl

  abbrev StartsWithV : Text → Type 0
  StartsWithV t = (s : Text) × (t ≡ b'v' ∷ s)

  is_stream-slash :
      (urls : List Text) (u : Text) → All StartsWithV urls → is_stream urls (b'/' ∷ u) ≡ false
  unfolding is_stream
  is_stream-slash [] u h = refl
  is_stream-slash (x ∷ xs) u (((s, e), h)) =
      let miss : text_eq (b'/' ∷ u) x ≡ false =
        ap (text_eq (b'/' ∷ u)) e ∙ unfold text_eq in refl in
      rw miss (is_stream-slash xs u h)

  stream_name_to_url-v :
      (split_camel : Text → List (Text × Text)) (name : Text)
      → StartsWithV (stream_name_to_url split_camel name)
  unfolding stream_name_to_url to_lower
  stream_name_to_url-v split_camel name = (_, refl)

  initialize-StartsWithV :
      (split_camel : Text → List (Text × Text)) (urls : List Text) (ms : List Method)
      → All StartsWithV urls
      → All StartsWithV (initialize split_camel urls ms)
  unfolding initialize
  initialize-StartsWithV split_camel urls [] h = h
  initialize-StartsWithV split_camel urls (m ∷ ms) h =
      initialize-StartsWithV split_camel
        (urls ++ url_if split_camel (m.is_client_stream || m.is_server_stream) m.name) ms
        (All-append StartsWithV urls _ h added)
    where
      added : All StartsWithV (url_if split_camel (m.is_client_stream || m.is_server_stream) m.name)
      added =
          if_intro (All StartsWithV) (m.is_client_stream || m.is_server_stream) _ _
            (stream_name_to_url-v split_camel m.name, tt) tt

  -- A slash in front defeats the test for streams: the list is searched before the slash is taken off,
  -- so that every path with a slash, a stream's too, is sent on without it, where a request can be made
  -- of its URL; and where none can be made, there is a panic.
  pub handle-slash :
      (split_camel : Text → List (Text × Text)) (ms : List Method) (r : Request) (u : Text)
      → r.path ≡ b'/' ∷ u
      → handle (initialize split_camel [] ms) r ≡ (
          if accepts_url (url_of u)
          then answered (url_of u ∷ []) (answer r (client (url_of u) r))
          else panic)
  unfolding handle forward
  handle-slash split_camel ms r u e =
      let urls = initialize split_camel [] ms in
      let missed : is_stream urls r.path ≡ false =
        ap (is_stream urls) e
        ∙ is_stream-slash urls u (initialize-StartsWithV split_camel [] ms tt) in
      rw missed (ap (λ p. forward r (strip_slash p)) e)
