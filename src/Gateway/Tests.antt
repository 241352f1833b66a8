-- ===== src/Gateway/Tests.antt =====
-- The gateway on concrete input.
use vic_cloudless.Prelude.{
  exists, not, replicate, length, ◌==◌, ℕ, ◌≤◌, ◌≡◌, refl, ◌≢◌, ◌↔◌, Bool, true, false, Option,
  none, some, List, [], ◌∷◌, ◌++◌, arith,
}
use vic_cloudless.Prelude.Int.{pos}
use vic_cloudless.Prelude.Text.{text_eq, codes, Text}
use vic_cloudless.Gateway.Listeners.{Served, select, send_to_listeners, send_to_listeners-Served}
use vic_cloudless.Gateway.Listeners
use vic_cloudless.Gateway.Hashes.{Belongs}
use vic_cloudless.Gateway.Tokens.{
  ClientToken, Manager, document, accepted, panic, Step, check, update, check_token,
  check_token_while, apply_all,
}
use vic_cloudless.Gateway.Tokens.Checks.{Accepts}
use vic_cloudless.Gateway.Tokens.Acceptance.{check_token_iff}
use vic_cloudless.Gateway.Tokens.Index.{checks, check_token_while-no_panic}
use vic_cloudless.Gateway.Feed.{Cache, Chunk, reset, initial, feed}
use vic_cloudless.Gateway.Feed.Group.{chunks_from, feed-group, feed-broken}
use vic_cloudless.Gateway.Proxy.{
  Method, Request, Response, Upstream, answered, text_response, initialize, handle, handle-slash,
}

abbrev zeros_32 : List ℕ
zeros_32 = replicate 32 0

abbrev no_hash : List ℕ → List ℕ
no_hash b = zeros_32

-- A decoder for which a text is its own bytes.
abbrev plain : Text → Option (List ℕ)
plain t = some t

abbrev guid : Text
guid = codes "my-guid"

abbrev stored_hash : Text
stored_hash = zeros_32 ++ replicate 16 7

guid-Belongs : Belongs [] plain no_hash stored_hash guid
guid-Belongs = record {
  raw = guid;
  salt = replicate 16 7;
  decodes = refl;
  stored = refl;
  salt_length = refl;
}

abbrev same_text : Text → Text → Bool
same_text hash t = text_eq hash t

abbrev keep_tokens : List ClientToken → Text → Option (List ClientToken)
keep_tokens old jdoc = some old

abbrev phone : ClientToken
phone = record {
  hash = codes "abc";
  client_name = codes "phone";
  app_id = codes "app";
  issued_at = codes "20250101";
}

abbrev one_phone : Manager
one_phone = record {
  client_tokens = phone ∷ [];
  recent_token_index = 0;
  last_updated = 0;
  force_clear_file = false;
  file = none;
}

check_token_iff_example :
    ((name : Text) × ((check_token (codes "own") same_text keep_tokens one_phone (codes "abc")).1
        ≡ accepted name))
    ↔ Accepts (codes "own") same_text keep_tokens one_phone (codes "abc")
check_token_iff_example =
    check_token_iff (codes "own") same_text keep_tokens one_phone (codes "abc") (omega arith)

abbrev checked_then_updated : List (Step (codes "own") same_text keep_tokens)
checked_then_updated = check (codes "abc") ∷ update 4000 true true (document (codes "[]")) ∷ []

check_token_while-no_panic_example :
    (check_token_while
      (codes "own")
      same_text
      keep_tokens
      (apply_all (codes "own") same_text keep_tokens one_phone checked_then_updated)
      (checks (codes "own") same_text keep_tokens (codes "abd" ∷ []))
      (codes "abc")).1
    ≢ panic
check_token_while-no_panic_example =
    check_token_while-no_panic (codes "own") same_text keep_tokens one_phone checked_then_updated
      (codes "abd" ∷ []) (codes "abc") (omega arith)

feed-group_example :
    feed initial (chunks_from (pos 4) 3200 2 0 ((1 ∷ 2 ∷ []) ∷ (3 ∷ []) ∷ []))
    ≡ some (reset, (1 ∷ 2 ∷ 3 ∷ []) ∷ [])
feed-group_example =
    feed-group (pos 4) 3200 (1 ∷ 2 ∷ []) ((3 ∷ []) ∷ []) initial (λ e. cc e) (omega arith)
      (omega arith) (omega arith)

abbrev late : Chunk
late = record {
  group = pos 4;
  chunk_id = pos 2;
  chunk_count = pos 3;
  capacity = 3200;
  payload = 1 ∷ [];
}

feed-broken_example : (c' : Cache) × (feed initial (late ∷ late ∷ []) ≡ some (c', []))
feed-broken_example = feed-broken initial late (late ∷ []) refl (refl, (refl, tt))

abbrev whole_name : Text → List (Text × Text)
whole_name t = (t, []) ∷ []

abbrev behavior : List Method
behavior = record { name = codes "Behavior"; is_client_stream = true; is_server_stream = true } ∷ []

abbrev to_stream : Request
to_stream = record {
  message_id = codes "1";
  path = codes "v1/behavior";
  json = codes "{}";
  client_guid = guid;
}

abbrev unreachable : Text → Request → Option Upstream
unreachable url r = none

abbrev no_percent : Text → Bool
no_percent url = not (exists (λ c. c == b'%') url)

abbrev content_size : Response → ℕ
content_size r = length r.content

abbrev no_json : ℕ → ℕ → Option Text
no_json status size = none

abbrev host : Text
host = codes "localhost:443"

abbrev with_slash : Request
with_slash = record to_stream { path = b'/' ∷ codes "v1/behavior" }

handle-slash_example :
    handle no_percent unreachable content_size no_json host
      (initialize whole_name [] behavior)
      with_slash
    ≡ answered
        (codes "https://localhost:443/v1/behavior" ∷ [])
        (text_response with_slash 502 (codes "Failed to reach proxy server"))
handle-slash_example =
    handle-slash no_percent unreachable content_size no_json host whole_name behavior with_slash
      (codes "v1/behavior") refl

abbrev three_listen : Listeners.Manager
three_listen = record { managed = λ tag. 0 ∷ 1 ∷ 2 ∷ []; next = 3 }

-- The second one is too slow.
abbrev second_slow : ℕ → Bool
second_slow c = c == 1

one_slow : length (select second_slow (three_listen.managed (codes "event"))) ≤ 5
unfolding select
one_slow = omega arith

send_to_listeners-Served_example :
    (r : Listeners.Manager × List ℕ) × (send_to_listeners second_slow three_listen (codes "event")
      ≡ some r)
    × ((j : ℕ) → Served second_slow three_listen (codes "event") j r)
send_to_listeners-Served_example =
    send_to_listeners-Served second_slow three_listen (codes "event") one_slow
