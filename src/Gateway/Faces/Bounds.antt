-- ===== src/Gateway/Faces/Bounds.antt =====
-- The bounds of every chunk of a face's picture, and the data that are too short.
use vic_cloudless.Prelude.{
  drop, leb, replicate, length-drop, length-append, length, Bool-cases, All, ◌==◌, ℕ, zero, suc,
  ◌+◌, ◌-◌, ◌*◌, ◌≤◌, ◌<◌, ◌≡◌, refl, inl, inr, Bool, true, ◌&&◌, Option, none, some, List, arith,
}
use vic_cloudless.Clad.Wire.{Bytes}
use vic_cloudless.Gateway.Faces.Pixels.{length-read_pixels_le}
use vic_cloudless.Gateway.Faces.{
  FaceChunk, Outcome, chunk_pixels, read_pixels, pixel_count, pixels_at, chunk_at, chunk_sent,
  overwrite, send_from, send_face_data_as_chunks, display_face_image,
}

-- The counts of a chunk's message are in their ranges, and its array has the fixed length.
abbrev pub InBounds : FaceChunk → Type 0
InBounds c =
    (c.num_pixels ≤ chunk_pixels)
    × (c.chunk_index < c.num_chunks)
    × (length c.face_data ≡ chunk_pixels)

-- What is read for one chunk, or that there is a panic.
abbrev Read : Option (ℕ × List ℕ) → Type 0
Read none = Unit
Read (some (c, ps)) = (c ≤ chunk_pixels) × (length ps ≤ c)

module _ (backing : Bytes) (duration : ℕ) (interrupt : Bool) (n total : ℕ) (writes : ℕ → Bool) where
  abbrev from_chunk : ℕ → ℕ → List ℕ → List FaceChunk × Outcome
  from_chunk = send_from backing duration interrupt n chunk_pixels total writes

  at_most :
      (i : ℕ) → leb (600 * i) total && leb (total - 600 * i) 600 ≡ true → total - 600 * i ≤ 600
  at_most i h = ground arith

  pixels_at-Read :
      (i c : ℕ)
      → c ≤ chunk_pixels
      → Read (pixels_at backing duration interrupt n chunk_pixels total writes i c)
  unfolding read_pixels
  pixels_at-Read i c h = elim (Bool-cases (leb (600 * 2 * i + c * 2) (length backing))) [
    | inl fits ↦ rw fits (h, length-read_pixels_le c _)
    | inr short ↦ rw short tt
  ]

  chunk_at-Read : (i : ℕ) → Read (chunk_at backing duration interrupt n chunk_pixels total writes i)
  unfolding chunk_at pixel_count
  chunk_at-Read i = elim (Bool-cases (i + 1 == n)) [
    | inr more ↦ rw more (pixels_at-Read i 600 (omega arith))
    | inl last ↦ elim (Bool-cases (leb (600 * i) total && leb (total - 600 * i) 600)) [
      | inl good ↦ rw (last, good) (pixels_at-Read i (total - 600 * i) (at_most i good))
      | inr out ↦ rw (last, out) tt
    ]
  ]

  chunk_sent-InBounds :
      (o : Option (ℕ × List ℕ)) (i : ℕ) (buf : List ℕ) (rest : List FaceChunk × Outcome)
      → Read o
      → n < 256
      → i < n
      → length buf ≡ chunk_pixels
      → All InBounds rest.0
      → All InBounds
          (chunk_sent backing duration interrupt n chunk_pixels total writes o i buf rest).0
  chunk_sent-InBounds none i buf rest r small h e all = tt
  chunk_sent-InBounds (some (c, ps)) i buf rest (le, l) small h e all =
      elim (Bool-cases (writes i)) [
        | inl ok ↦ rw ok ((omega (arith, le), omega (arith, h, small), e), all)
        | inr failed ↦ rw failed tt
      ]

  length-overwrite :
      (o : Option (ℕ × List ℕ)) (buf : List ℕ)
      → Read o
      → length buf ≡ chunk_pixels
      → length (overwrite backing duration interrupt n chunk_pixels total writes o buf)
        ≡ chunk_pixels
  length-overwrite none buf r e = e
  length-overwrite (some (c, ps)) buf (le, l) e =
      omega (arith, length-append ps (drop (length ps) buf), length-drop (length ps) buf, le, l, e)

  send_from-InBounds :
      (k i : ℕ) (buf : List ℕ)
      → n < 256
      → i + k ≡ n
      → length buf ≡ chunk_pixels
      → All InBounds (from_chunk k i buf).0
  unfolding send_from
  send_from-InBounds zero i buf small e l = tt
  send_from-InBounds (suc k) i buf small e l =
      let o = chunk_at backing duration interrupt n chunk_pixels total writes i in
      let next = overwrite backing duration interrupt n chunk_pixels total writes o buf in
      let l' = length-overwrite o buf (chunk_at-Read i) l in
      chunk_sent-InBounds o i next _ (chunk_at-Read i) small (omega (arith, e)) l'
        (send_from-InBounds k (i + 1) next small (omega (arith, e)) l')

-- Whatever the data are and whichever chunk is not written, every chunk that is sent has at most 600
-- pixels, an index below the number of chunks, and an array of 600 numbers.
pub display_face_image-InBounds :
    (backing : Bytes) (duration : ℕ) (interrupt : Bool) (writes : ℕ → Bool)
    → All InBounds (display_face_image backing duration interrupt writes).0
unfolding display_face_image send_face_data_as_chunks
display_face_image-InBounds backing duration interrupt writes =
    send_from-InBounds backing duration interrupt 30 17664 writes 30 0 (replicate 600 0)
      (omega arith) refl refl
