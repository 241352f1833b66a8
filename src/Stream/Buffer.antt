-- ===== src/Stream/Buffer.antt =====
-- `bufferRoutine` of internal/voice/stream/context.go: bytes come in as they are added and go out in
-- chunks of the stream's size. A schedule says which case of the `select` is taken.
use vic_cloudless.Prelude.{
  ◌⊎◌, inl, inr, ℕ, zero, suc, ◌≤◌, ◌<◌, ◌≡◌, refl, sym, ap, ◌∙◌, List, [], ◌∷◌, ◌++◌, append-nil,
  append_assoc, arith, length, take, drop, replicate, concat, All, All-append, length-take,
  length-drop, take-append-drop, list_laws, leb, leb→le, if◌then◌else◌, Bool-cases, if_intro,
}

abbrev pub Bytes : Type 0
Bytes = List ℕ

-- A turn of the loop: bytes come from `byteChan`, or the reader of `audioStream` is ready.
pub data Turn : Type 0 where
  add : Bytes → Turn
  ready : Turn

pub record Buffer : Type 0 where
  pub audio_buf : Bytes
  pub sent : List Bytes

abbrev pub empty : Buffer
empty = record { audio_buf = []; sent = [] }

-- The case that sends is open only while a whole chunk is there.
unfoldable pub turn : ℕ → Buffer → Turn → Buffer
turn size b (add bytes) = record b { audio_buf = b.audio_buf ++ bytes }
turn size b ready =
    if leb size (length b.audio_buf)
    then record { audio_buf = drop size b.audio_buf; sent = b.sent ++ take size b.audio_buf ∷ [] }
    else b

unfoldable pub run : ℕ → Buffer → List Turn → Buffer
run size b [] = b
run size b (t ∷ ts) = run size (turn size b t) ts

abbrev pub added : List Turn → Bytes
added [] = []
added (add bytes ∷ ts) = bytes ++ added ts
added (ready ∷ ts) = added ts

-- All bytes that went out, then those that wait.
abbrev pub content : Buffer → Bytes
content b = concat b.sent ++ b.audio_buf

content-ready : (size : ℕ) (b : Buffer) → content (turn size b ready) ≡ content b
unfolding turn
content-ready size b =
    if_intro (λ (r : Buffer). content r ≡ content b) (leb size (length b.audio_buf)) _ _
      (simp list_laws (ap (◌++◌ (concat b.sent)) (take-append-drop size b.audio_buf))) refl

content-run :
    (size : ℕ) (b : Buffer) (ts : List Turn) → content (run size b ts) ≡ content b ++ added ts
unfolding run
content-run size b [] = sym (append-nil (content b))
content-run size b (add bytes ∷ ts) =
    content-run size (turn size b (add bytes)) ts ∙ unfold turn in (simp append_assoc)
content-run size b (ready ∷ ts) =
    content-run size (turn size b ready) ts ∙ ap (λ c. c ++ added ts) (content-ready size b)

-- Nothing is lost, doubled or moved: what was sent, with what still waits, is what was added.
pub content-run-empty : (size : ℕ) (ts : List Turn) → content (run size empty ts) ≡ added ts
content-run-empty size ts = content-run size empty ts

abbrev pub IsChunk : ℕ → Bytes → Type 0
IsChunk size c = length c ≡ size

turn-IsChunk :
    (size : ℕ) (b : Buffer) (t : Turn)
    → All (IsChunk size) b.sent
    → All (IsChunk size) (turn size b t).sent
unfolding turn
turn-IsChunk size b (add bytes) h = h
turn-IsChunk size b ready h = elim (Bool-cases (leb size (length b.audio_buf))) [
  | inr short ↦ rw short h
  | inl full ↦ rw full (
      All-append (IsChunk size) b.sent (take size b.audio_buf ∷ []) h
        (omega (arith, length-take size b.audio_buf, leb→le size (length b.audio_buf) full), tt))
]

run-IsChunk :
    (size : ℕ) (b : Buffer) (ts : List Turn)
    → All (IsChunk size) b.sent
    → All (IsChunk size) (run size b ts).sent
unfolding run
run-IsChunk size b [] h = h
run-IsChunk size b (t ∷ ts) h = run-IsChunk size (turn size b t) ts (turn-IsChunk size b t h)

-- Every chunk that is sent has exactly the stream's size, whatever the sizes of the additions.
pub run-empty-IsChunk : (size : ℕ) (ts : List Turn) → All (IsChunk size) (run size empty ts).sent
run-empty-IsChunk size ts = run-IsChunk size empty ts tt

ready-shrinks :
    (size k : ℕ) (b : Buffer)
    → 0 < size
    → length b.audio_buf ≤ suc k
    → (length (turn size b ready).audio_buf ≤ k) ⊎ (length (turn size b ready).audio_buf < size)
unfolding turn
ready-shrinks size k b h l = ground (arith, length-drop size b.audio_buf)

ready-stays :
    (size k : ℕ) (b : Buffer)
    → length b.audio_buf < size
    → length (run size b (replicate k ready)).audio_buf < size
unfolding run
ready-stays size zero b h = h
ready-stays size (suc k) b h =
    ready-stays size k (turn size b ready) (unfold turn in (ground arith))

-- A reader that is ready often enough empties the buffer: after as many turns as there are bytes
-- waiting, less than one chunk is left.
pub ready-drains :
    (size k : ℕ) (b : Buffer)
    → 0 < size
    → length b.audio_buf ≤ k
    → length (run size b (replicate k ready)).audio_buf < size
unfolding run
ready-drains size zero b h l = omega arith
ready-drains size (suc k) b h l = elim (ready-shrinks size k b h l) [
  | inl less ↦ ready-drains size k (turn size b ready) h less
  | inr done ↦ ready-stays size k (turn size b ready) done
]
