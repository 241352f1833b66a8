-- ===== src/Gateway/Faces.antt =====
-- The picture of a face in chunks: `SendFaceDataAsChunks`, `FaceImageChunkToClad` and
-- `DisplayFaceImageRGB` of cloud/message_handler.go. The data of a request are given as the array
-- under them, up to its capacity, which is what Go's bounds check allows.
pub mod Pixels
pub mod Image
pub mod Bounds
use vic_cloudless.Prelude.{
  length, if◌then◌else◌, leb, ◌==◌, replicate, take, drop, ℕ, zero, suc, ◌+◌, ◌-◌, ◌*◌, ◌/◌, ◌%◌,
  ◌^◌, Bool, ◌&&◌, Option, none, some, List, [], ◌∷◌, ◌++◌,
}
use vic_cloudless.Clad.Wire.{Bytes, and_then}

-- `DisplayFaceImageRGBChunk`
pub record FaceChunk : Type 0 where
  pub face_data : List ℕ
  pub num_pixels : ℕ
  pub chunk_index : ℕ
  pub num_chunks : ℕ
  pub duration_ms : ℕ
  pub interrupt_running : Bool

-- How sending ends; `panic` is an index or a bound that is out of range.
pub data Outcome : Type 0 where
  sent write_error panic : Outcome

-- `faceImagePixelsPerChunk`
abbrev pub chunk_pixels : ℕ
chunk_pixels = 600

-- `FaceImageChunkToClad`, of the values that are cut to the widths of the message's fields.
abbrev pub face_image_chunk : List ℕ → ℕ → ℕ → ℕ → ℕ → Bool → FaceChunk
face_image_chunk pixels count i n duration interrupt = record {
  face_data = pixels;
  num_pixels = count % 2 ^ 16;
  chunk_index = i % 2 ^ 8;
  num_chunks = n % 2 ^ 8;
  duration_ms = duration;
  interrupt_running = interrupt;
}

-- The inner loop: `count` pixels, the high byte first.
unfoldable pub read_pixels : ℕ → Bytes → List ℕ
read_pixels zero bs = []
read_pixels (suc count) (high ∷ low ∷ bs) = (high * 256 + low) ∷ read_pixels count bs
read_pixels (suc count) bs = []

-- `backing[first:final]`
abbrev pub slice : Bytes → ℕ → ℕ → Option Bytes
slice backing first final =
    if leb final (length backing) then some (take (final - first) (drop first backing)) else none

module _ (backing : Bytes) (duration : ℕ) (interrupt : Bool)
    (chunk_count pixels_per_chunk total_pixels : ℕ) (writes : ℕ → Bool)  -- whether the engine's manager writes the chunk with this index
  where
    -- The pixels of the chunk `i`; a negative count is out of range, as is one over the array's length.
    unfoldable pub pixel_count : ℕ → Option ℕ
    pixel_count i =
        if i + 1 == chunk_count
        then if leb (chunk_pixels * i) total_pixels
            && leb (total_pixels - chunk_pixels * i) chunk_pixels
          then some (total_pixels - chunk_pixels * i)
          else none
        else some chunk_pixels

    abbrev pub pixels_at : ℕ → ℕ → Option (ℕ × List ℕ)
    unfolding read_pixels
    pixels_at i count =
        let first = pixels_per_chunk * 2 * i in
        and_then (slice backing first (first + count * 2)) (λ s. some (count, read_pixels count s))

    unfoldable pub chunk_at : ℕ → Option (ℕ × List ℕ)
    unfolding pixel_count
    chunk_at i = and_then (pixel_count i) (pixels_at i)

    -- The pixels go over the first ones of the array that the chunks share.
    abbrev pub overwrite : Option (ℕ × List ℕ) → List ℕ → List ℕ
    overwrite none buf = buf
    overwrite (some (count, ps)) buf = ps ++ drop (length ps) buf

    abbrev pub chunk_sent :
        Option (ℕ × List ℕ) → ℕ → List ℕ → List FaceChunk × Outcome → List FaceChunk × Outcome
    chunk_sent none i buf rest = ([], panic)
    chunk_sent (some (count, ps)) i buf rest =
        if writes i
        then (face_image_chunk buf count i chunk_count duration interrupt ∷ rest.0, rest.1)
        else ([], write_error)

    -- The loop, with `k` chunks left from the index `i` on.
    unfoldable pub send_from : ℕ → ℕ → List ℕ → List FaceChunk × Outcome
    unfolding chunk_at
    send_from zero i buf = ([], sent)
    send_from (suc k) i buf =
        let c = chunk_at i in
        let next = overwrite c buf in
        let rest = send_from k (i + 1) next in chunk_sent c i next rest

    -- `SendFaceDataAsChunks`
    unfoldable pub send_face_data_as_chunks : List FaceChunk × Outcome
    unfolding send_from
    send_face_data_as_chunks = send_from chunk_count 0 (replicate chunk_pixels 0)

-- What a client gets: that the request is processed, whatever became of the chunks; the interceptor of
-- cloud/gateway.go recovers the panic of a handler and answers `codes.Internal`.
pub data Answer : Type 0 where
  processing : Answer
  internal_error : Answer

abbrev pub answer_of : Outcome → Answer
answer_of sent = processing
answer_of write_error = processing
answer_of panic = internal_error

abbrev pub total_pixels : ℕ
total_pixels = 17664

-- `DisplayFaceImageRGB`
unfoldable pub display_face_image : Bytes → ℕ → Bool → (ℕ → Bool) → List FaceChunk × Answer
unfolding send_face_data_as_chunks
display_face_image backing duration interrupt writes =
    let n = (total_pixels + chunk_pixels + 1) / chunk_pixels in
    let r =
      send_face_data_as_chunks backing duration interrupt n chunk_pixels total_pixels writes in
    (r.0, answer_of r.1)
