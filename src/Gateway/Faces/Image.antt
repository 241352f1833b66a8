-- ===== src/Gateway/Faces/Image.antt =====
-- What the chunks of a face's picture hold together, and their bounds.
use vic_cloudless.Prelude.{
  ap, leb→le, length-drop, Bool-cases, length, replicate, le→leb, take-append_self, drop, take,
  length-append, leb, ℕ, zero, suc, ◌+◌, ◌-◌, ◌*◌, ◌%◌, ◌^◌, ◌≤◌, ◌<◌, min, ◌≡◌, refl, sym, ◌∙◌,
  inl, inr, Bool, true, false, some, List, [], ◌∷◌, ◌++◌, arith,
}
use vic_cloudless.Clad.Wire.{Bytes}
use vic_cloudless.Gateway.Faces.Pixels.{
  length-read_pixels, read_pixels-add, read_pixels-take, drop-add,
}
use vic_cloudless.Gateway.Faces.{
  processing, answer_of, display_face_image, total_pixels, send_face_data_as_chunks, FaceChunk,
  Outcome, sent, chunk_pixels, face_image_chunk, read_pixels, pixel_count, pixels_at, chunk_at,
  send_from,
}

-- The pixels that the chunks announce.
abbrev pub visible : List FaceChunk → List ℕ
visible [] = []
visible (c ∷ cs) = take c.num_pixels c.face_data ++ visible cs

short_of : (x : ℕ) → leb 600 x ≡ false → x < 600
short_of x h = ground arith

abbrev pub count_at : ℕ → ℕ → ℕ
count_at total i = min chunk_pixels (total - chunk_pixels * i)

module _ (backing : Bytes) (duration : ℕ) (interrupt : Bool) (n total : ℕ) (writes : ℕ → Bool)
    (small : n < 256) (above : chunk_pixels * n < total + chunk_pixels)
    (below : total ≤ chunk_pixels * n) where
  pub pixel_count_lem :
      (i : ℕ)
      → i < n
      → pixel_count backing duration interrupt n chunk_pixels total writes i
        ≡ some (count_at total i)
  unfolding pixel_count
  pixel_count_lem i h = ground arith

  chunk_at_lem :
      (i : ℕ)
      → i < n
      → 2 * total ≤ length backing
      → chunk_at backing duration interrupt n chunk_pixels total writes i
        ≡ some (count_at total i, read_pixels (count_at total i) (drop (1200 * i) backing))
  unfolding chunk_at pixels_at read_pixels
  chunk_at_lem i h fits =
      let c = count_at total i in
      let first = chunk_pixels * 2 * i in
      let l : leb (first + c * 2) (length backing) ≡ true = le→leb _ _ (omega arith) in
      let at : first ≡ 1200 * i = omega arith in
      rw (pixel_count_lem i h, l)
        (ap (λ ps. some (c, ps))
          (read_pixels-take c (first + c * 2 - first) (drop first backing) (omega arith)
            ∙ ap (λ k. read_pixels c (drop k backing)) at))

  abbrev from_chunk : ℕ → ℕ → List ℕ → List FaceChunk × Outcome
  from_chunk = send_from backing duration interrupt n chunk_pixels total writes

  -- One chunk, where it is written.
  abbrev chunk_of : ℕ → List ℕ → FaceChunk
  chunk_of i buf = face_image_chunk buf (count_at total i) i n duration interrupt

  abbrev ps_at : ℕ → List ℕ
  ps_at i = read_pixels (count_at total i) (drop (1200 * i) backing)

  abbrev after : ℕ → List ℕ → List ℕ
  after i buf = ps_at i ++ drop (length (ps_at i)) buf

  send_from-suc :
      (k i : ℕ) (buf : List ℕ)
      → i < n
      → 2 * total ≤ length backing
      → writes i ≡ true
      → let rest = from_chunk k (i + 1) (after i buf) in
        from_chunk (suc k) i buf ≡ (chunk_of i (after i buf) ∷ rest.0, rest.1)
  unfolding send_from
  send_from-suc k i buf h fits w = rw (chunk_at_lem i h fits, w) refl

  length-ps_at : (i : ℕ) → i < n → 2 * total ≤ length backing → length (ps_at i) ≡ count_at total i
  length-ps_at i h fits = length-read_pixels _ _ (omega (arith, length-drop (1200 * i) backing))

  length-after :
      (i : ℕ) (buf : List ℕ)
      → i < n
      → 2 * total ≤ length backing
      → length buf ≡ chunk_pixels
      → length (after i buf) ≡ chunk_pixels
  length-after i buf h fits e = omega (
    arith,
    length-append (ps_at i) (drop (length (ps_at i)) buf),
    length-drop (length (ps_at i)) buf,
    length-ps_at i h fits,
  )

  visible_first :
      (i : ℕ) (buf : List ℕ)
      → i < n
      → 2 * total ≤ length backing
      → take (count_at total i % 2 ^ 16) (after i buf) ≡ ps_at i
  visible_first i buf h fits =
      let same : count_at total i % 2 ^ 16 ≡ length (ps_at i) =
        omega (arith, length-ps_at i h fits) in
      ap (λ k. take k (after i buf)) same ∙ take-append_self (ps_at i) _

  later : ℕ → List ℕ
  later i = read_pixels (total - 600 * i) (drop (1200 * i) backing)

  later-nil : (r : ℕ) (xs ys : Bytes) → r ≡ 0 → read_pixels r xs ≡ read_pixels r ys
  unfolding read_pixels
  later-nil r xs ys e = ap (λ k. read_pixels k xs) e ∙ sym (ap (λ k. read_pixels k ys) e)

  pixels_split : (i : ℕ) → i < n → 2 * total ≤ length backing → later i ≡ ps_at i ++ later (i + 1)
  unfolding later
  pixels_split i h fits =
      let c = count_at total i in
      let r = total - 600 * (i + 1) in
      let parts : total - 600 * i ≡ c + r = omega arith in
      let bs = drop (1200 * i) backing in
      let room : 2 * c ≤ length bs = omega (arith, length-drop (1200 * i) backing) in
      ap (λ k. read_pixels k bs) parts
      ∙ read_pixels-add c r bs room
      ∙ ap (◌++◌ (ps_at i)) (elim (Bool-cases (leb 600 (total - 600 * i))) [
        | inl whole ↦
            let e : 1200 * i + 2 * c ≡ 1200 * (i + 1) = omega (arith, leb→le _ _ whole) in
            ap (read_pixels r) (drop-add (1200 * i) (2 * c) backing ∙ ap (λ k. drop k backing) e)
        | inr last ↦ later-nil r _ _ (omega (arith, short_of _ last))
      ])

  later-end : (i : ℕ) → i ≡ n → [] ≡ later i
  unfolding later read_pixels
  later-end i e =
      let done : total - 600 * i ≡ 0 = omega (arith, e) in
      sym (ap (λ k. read_pixels k (drop (1200 * i) backing)) done)

  send_from-visible :
      (k i : ℕ) (buf : List ℕ)
      → i + k ≡ n
      → 2 * total ≤ length backing
      → ((j : ℕ) → writes j ≡ true)
      → (visible (from_chunk k i buf).0 ≡ later i) × ((from_chunk k i buf).1 ≡ sent)
  unfolding later send_from
  send_from-visible zero i buf e fits w = (later-end i (omega (arith, e)), refl)
  send_from-visible (suc k) i buf e fits w =
      let h : i < n = omega (arith, e) in
      let (ih, fin) = send_from-visible k (i + 1) (after i buf) (omega (arith, e)) fits w in
      let one = send_from-suc k i buf h fits (w i) in
      (
        ap (λ r. visible r.0) one
            ∙ ap (λ xs. xs ++ visible (from_chunk k (i + 1) (after i buf)).0)
                (visible_first i buf h fits)
            ∙ ap (◌++◌ (ps_at i)) ih
            ∙ sym (pixels_split i h fits),
        ap (λ r. r.1) one ∙ fin,
      )

-- Where the data hold two bytes for each of the 17664 pixels and every chunk is written, what the
-- chunks announce are the pixels of the picture, each once and in order, and the client is told that
-- the request is processed.
pub display_face_image-pixels :
    (backing : Bytes) (duration : ℕ) (interrupt : Bool) (writes : ℕ → Bool)
    → 35328 ≤ length backing
    → ((i : ℕ) → writes i ≡ true)
    → let r = display_face_image backing duration interrupt writes in
      (visible r.0 ≡ read_pixels total_pixels backing) × (r.1 ≡ processing)
unfolding display_face_image send_face_data_as_chunks later
display_face_image-pixels backing duration interrupt writes fits w =
    let (all, done) =
      send_from-visible backing duration interrupt 30 17664 writes (omega arith) (omega arith)
        (omega arith) 30 0 (replicate 600 0) refl (omega (arith, fits)) w in
    (all, ap answer_of done)
