-- ===== src/Ipc/Multi.antt =====
-- Messages with the name of a client in front: internal/ipc/multi. A message to the server is the name
-- of its destination, a null byte and the content; a message from it has the name of the sender.
use vic_cloudless.Prelude.{
  ap, length, drop, if◌then◌else◌, take-append_self, take, ◌==◌, ℕ, zero, suc, ◌+◌, ◌≡◌, refl, ◌∙◌,
  ◌≢◌, Option, none, some, List, [], ◌∷◌, ◌++◌, arith,
}
use vic_cloudless.Prelude.Text.{Text, text_eq, Without}

abbrev Bytes : Type 0
Bytes = List ℕ

-- `getBufferForMessage`
abbrev pub get_buffer_for_message : Text → Bytes → Bytes
get_buffer_for_message dest buf = dest ++ 0 ∷ buf

abbrev next_index : Option ℕ → Option ℕ
next_index none = none
next_index (some i) = some (i + 1)

-- `strings.Index(string(buf), "\x00")`, `none` for -1.
null_index : Bytes → Option ℕ
null_index [] = none
null_index (b ∷ bs) = if b == 0 then some 0 else next_index (null_index bs)

-- What a client's `Receive` returns.
pub data Received : Type 0 where
  nothing no_null : Received
  from : Text → Bytes → Received

abbrev cut_from : Bytes → Option ℕ → Received
cut_from buf none = no_null
cut_from buf (some zero) = no_null
cut_from buf (some (suc i)) = from (take (suc i) buf) (drop (suc i + 1) buf)

-- `receiveInternal`, on what was read.
unfoldable pub receive_internal : Bytes → Received
unfolding null_index
receive_internal [] = nothing
receive_internal (b ∷ bs) = cut_from (b ∷ bs) (null_index (b ∷ bs))

abbrev cut_at : Bytes → Option ℕ → Text × Bytes
cut_at buf none = ([], drop 1 buf)
cut_at buf (some i) = (take i buf, drop (i + 1) buf)

-- `endpointListener`: the destination and the content of what a client wrote, `none` at its end.
unfoldable pub endpoint_message : Bytes → Option (Text × Bytes)
unfolding null_index
endpoint_message [] = none
endpoint_message (b ∷ bs) = some (cut_at (b ∷ bs) (null_index (b ∷ bs)))

-- `serv.clients`: names and the numbers of their connections, the newest first.
abbrev pub Clients : Type 0
Clients = List (Text × ℕ)

unfoldable pub find_client : Text → Clients → Option ℕ
find_client name [] = none
find_client name ((n, conn) ∷ rest) = if text_eq name n then some conn else find_client name rest

-- What `messageRoutine` takes from its channels: a new client, or what a client wrote, with its name.
pub data Incoming : Type 0 where
  join : Text → ℕ → Incoming
  wrote : Text → Bytes → Incoming

-- A write to a connection.
abbrev pub Write : Type 0
Write = ℕ × Bytes

abbrev pub write_to : Bytes → Option ℕ → List Write
write_to buf none = []
write_to buf (some conn) = (conn, buf) ∷ []

abbrev deliver : Clients → Text → Option (Text × Bytes) → List Write
deliver cs src none = []
deliver cs src (some (dest, buf)) = write_to (get_buffer_for_message src buf) (find_client dest cs)

unfoldable pub route : Clients → Incoming → Clients × List Write
unfolding endpoint_message find_client
route cs (join name conn) = ((name, conn) ∷ cs, [])
route cs (wrote src buf) = (cs, deliver cs src (endpoint_message buf))

null_index-Without :
    (s : Text) (b : Bytes) → Without 0 s → null_index (s ++ 0 ∷ b) ≡ some (length s)
unfolding null_index
null_index-Without [] b h = refl
null_index-Without (c ∷ s) b h =
    rw (h.0, null_index-Without s b h.1)
      (let e : length s + 1 ≡ suc (length s) = omega arith in ap some e)

null_index-none : (b : Bytes) → Without 0 b → null_index b ≡ none
unfolding null_index
null_index-none [] h = refl
null_index-none (c ∷ b) h = rw (h.0, null_index-none b h.1) refl

drop-name : (s : Text) (b : Bytes) → drop (length s + 1) (s ++ 0 ∷ b) ≡ b
drop-name [] b = refl
drop-name (c ∷ s) b =
    let e : length (c ∷ s) + 1 ≡ suc (length s + 1) = omega arith in
    ap (λ n. drop n ((c ∷ s) ++ 0 ∷ b)) e ∙ drop-name s b

abbrev pub Named : Text → Type 0
Named name = Without 0 name × (name ≢ [])

-- A client receives the name and the content that were put together, where the name is not empty and
-- has no null byte.
pub receive_internal-get_buffer :
    (name : Text) (buf : Bytes)
    → Named name
    → receive_internal (get_buffer_for_message name buf) ≡ from name buf
unfolding receive_internal
receive_internal-get_buffer [] buf (w, n) = absurd (n refl)
receive_internal-get_buffer (c ∷ s) buf (w, n) = rw (null_index-Without (c ∷ s) buf w) (
    ap (λ t. from (c ∷ t) (drop (suc (length s) + 1) (c ∷ (s ++ 0 ∷ buf))))
      (take-append_self s (0 ∷ buf))
    ∙ ap (from (c ∷ s)) (drop-name (c ∷ s) buf))

-- A message without a null byte is not refused: it loses its first byte and goes to the client without
-- a name, where there is one.
pub route-no_null :
    (cs : Clients) (src : Text) (b : ℕ) (bs : Bytes)
    → Without 0 (b ∷ bs)
    → route cs (wrote src (b ∷ bs))
      ≡ (cs, write_to (get_buffer_for_message src bs) (find_client [] cs))
unfolding route endpoint_message
route-no_null cs src b bs w = rw (null_index-none (b ∷ bs) w) refl
