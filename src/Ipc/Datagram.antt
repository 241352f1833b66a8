-- ===== src/Ipc/Datagram.antt =====
-- The server for datagrams: the reader of `newDatagramServer` in internal/ipc/dgram.go. An address is a
-- number.
use vic_cloudless.Prelude.{
  ap, if◌then◌else◌, Bool-cases, ==_iff, length, exists, ◌==◌, ℕ, ◌≡◌, refl, sym, ◌∙◌, inl, inr,
  Bool, true, false, not, ◌&&◌, ◌||◌, List, [], ◌∷◌, ◌++◌, append_assoc, take, map,
}
use vic_cloudless.Prelude.Text.{text_eq, codes}

abbrev Bytes : Type 0
Bytes = List ℕ

abbrev pub conn_packet : Bytes
conn_packet = codes "ANKICONN"

-- A datagram, with its sender, as it was sent.
pub record Packet : Type 0 where
  pub address : ℕ
  pub payload : Bytes

-- A new client is handed out, or a known client is given a message.
pub data Act : Type 0 where
  connects : ℕ → Act
  delivers : ℕ → Bytes → Act

-- `isConnPacket`
unfoldable pub is_conn_packet : Bytes → Bool
is_conn_packet b = length b == length conn_packet && text_eq b conn_packet

-- `ReadFrom` into the buffer of 32768 bytes drops what a datagram has more.
abbrev pub cut : Packet → Packet
cut p = record p { payload = take 32768 p.payload }

abbrev act_on : List ℕ → Packet → List ℕ × List Act
unfolding is_conn_packet
act_on clients p =
    if exists (λ a. p.address == a) clients
    then (if is_conn_packet p.payload
        then (clients, [])
        else (clients, delivers p.address p.payload ∷ []))
    else if is_conn_packet p.payload
    then (p.address ∷ clients, connects p.address ∷ [])
    else (clients, [])

-- One turn of the loop, on the clients that are known.
unfoldable pub on_packet : List ℕ → Packet → List ℕ × List Act
unfolding is_conn_packet
on_packet clients p = act_on clients (cut p)

unfoldable pub run : List ℕ → List Packet → List Act
run clients [] = []
run clients (p ∷ ps) = let (clients', acts) = on_packet clients p in acts ++ run clients' ps

-- What a client is given, in order.
abbrev given_by : ℕ → Act → List Bytes
given_by a (connects b) = []
given_by a (delivers b m) = if a == b then m ∷ [] else []

abbrev pub given : ℕ → List Act → List Bytes
given a [] = []
given a (x ∷ xs) = given_by a x ++ given a xs

-- What a client wrote from its first connection packet on, without the connection packets.
abbrev written_by : ℕ → Packet → Bool → List Bytes
written_by a p known =
    if a == p.address && known && not (is_conn_packet p.payload) then p.payload ∷ [] else []

abbrev pub known_after : ℕ → Packet → Bool → Bool
known_after a p known = known || (a == p.address && is_conn_packet p.payload)

abbrev pub written : ℕ → Bool → List Packet → List Bytes
written a known [] = []
written a known (p ∷ ps) = written_by a p known ++ written a (known_after a p known) ps

given-append : (a : ℕ) (xs ys : List Act) → given a (xs ++ ys) ≡ given a xs ++ given a ys
given-append a [] ys = refl
given-append a (x ∷ xs) ys =
    ap (◌++◌ (given_by a x)) (given-append a xs ys)
    ∙ sym (append_assoc (given_by a x) (given a xs) (given a ys))

abbrev is_known : ℕ → List ℕ → Bool
is_known a clients = exists (λ b. a == b) clients

act_on-given :
    (a : ℕ) (clients : List ℕ) (p : Packet)
    → given a (act_on clients p).1 ≡ written_by a p (is_known a clients)
unfolding act_on
act_on-given a clients p = elim (Bool-cases (a == p.address)) [
  | inr not_mine ↦ elim (Bool-cases (is_known p.address clients)) [
    | inl k ↦ elim (Bool-cases (is_conn_packet p.payload)) [
      | inl c ↦ rw (k, c, not_mine) refl
      | inr d ↦ rw (k, d, not_mine) refl
    ]
    | inr u ↦ elim (Bool-cases (is_conn_packet p.payload)) [
      | inl c ↦ rw (u, c, not_mine) refl
      | inr d ↦ rw (u, d, not_mine) refl
    ]
  ]
  | inl mine ↦
      let e : is_known a clients ≡ is_known p.address clients =
        ap (λ x. is_known x clients) ((==_iff a p.address).0 mine) in
      elim (Bool-cases (is_known p.address clients)) [
        | inl k ↦ elim (Bool-cases (is_conn_packet p.payload)) [
          | inl c ↦ rw (e, k, c, mine) refl
          | inr d ↦ rw (e, k, d, mine) refl
        ]
        | inr u ↦ elim (Bool-cases (is_conn_packet p.payload)) [
          | inl c ↦ rw (e, u, c, mine) refl
          | inr d ↦ rw (e, u, d, mine) refl
        ]
      ]
]

or_swap : (m k : Bool) → (m || k) ≡ (k || (m && true))
or_swap true true = refl
or_swap true false = refl
or_swap false true = refl
or_swap false false = refl

or_and_false : (m k : Bool) → k ≡ (k || (m && false))
or_and_false true true = refl
or_and_false true false = refl
or_and_false false true = refl
or_and_false false false = refl

or_false : (k : Bool) → k ≡ (k || false)
or_false true = refl
or_false false = refl

act_on-known :
    (a : ℕ) (clients : List ℕ) (p : Packet)
    → is_known a (act_on clients p).0 ≡ known_after a p (is_known a clients)
unfolding act_on
act_on-known a clients p = elim (Bool-cases (is_known p.address clients)) [
  | inl k ↦ elim (Bool-cases (is_conn_packet p.payload)) [
    | inr d ↦ rw (k, d) (or_and_false (a == p.address) (is_known a clients))
    | inl c ↦ elim (Bool-cases (a == p.address)) [
      | inr not_mine ↦ rw (k, c, not_mine) (or_false (is_known a clients))
      | inl mine ↦
          let e : is_known a clients ≡ true =
            ap (λ x. is_known x clients) ((==_iff a p.address).0 mine) ∙ k in
          rw (k, c, mine, e) refl
    ]
  ]
  | inr u ↦ elim (Bool-cases (is_conn_packet p.payload)) [
    | inl c ↦ rw (u, c) (or_swap (a == p.address) (is_known a clients))
    | inr d ↦ rw (u, d) (or_and_false (a == p.address) (is_known a clients))
  ]
]

run-given :
    (a : ℕ) (clients : List ℕ) (ps : List Packet)
    → given a (run clients ps) ≡ written a (is_known a clients) (map cut ps)
unfolding run on_packet
run-given a clients [] = refl
run-given a clients (p ∷ ps) =
    let q = cut p in
    let r = act_on clients q in
    given-append a r.1 (run r.0 ps)
    ∙ ap (λ x. x ++ given a (run r.0 ps)) (act_on-given a clients q)
    ∙ ap (◌++◌ (written_by a q (is_known a clients)))
        (run-given a r.0 ps ∙ ap (λ k. written a k (map cut ps)) (act_on-known a clients q))

-- Each client is given what it wrote after its first connection packet, each datagram cut to 32768
-- bytes, in order and nothing else, and never a connection packet or another client's message.
pub run-written : (a : ℕ) (ps : List Packet) → given a (run [] ps) ≡ written a false (map cut ps)
run-written a ps = run-given a [] ps
