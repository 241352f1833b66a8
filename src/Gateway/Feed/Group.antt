-- ===== src/Gateway/Feed/Group.antt =====
-- A group of chunks that comes whole and in order is delivered as one message.
use vic_cloudless.Prelude.{
  lt→ltb, ◌<◌, ap, ==_iff, All, length-drop, drop, length-replicate, length-append, concat, length,
  take-append_self, take, Bool-cases, le→leb, replicate, ℕ, suc, ◌+◌, ◌≤◌, ◌≡◌, refl, sym, ◌∙◌, ◌≢◌,
  inl, inr, Bool, true, false, ◌&&◌, Option, none, some, List, [], ◌∷◌, ◌++◌, append-nil,
  append_assoc, arith,
}
use vic_cloudless.Prelude.Int.{eq_ℤ, eq_ℤ_iff, ℤ, minus_one}
use vic_cloudless.Gateway.Feed.{
  pos, Bytes, Cache, Chunk, reset, copy_at, append_chunk, is_first, no_group, start_or_append,
  unpack, feed, next_id, last_id, put_before,
}

-- The chunks of group `g`, of `n` altogether, with the payloads from the `i`-th on.
abbrev pub chunks_from : ℤ → ℕ → ℕ → ℕ → List Bytes → List Chunk
chunks_from g capacity n i [] = []
chunks_from g capacity n i (p ∷ ps) =
    record { group = g; chunk_id = pos i; chunk_count = pos n; capacity = capacity; payload = p }
    ∷ chunks_from g capacity n (i + 1) ps

-- A cache in the middle of the group: what came so far, and the room left in the buffer.
abbrev middle : ℤ → Bytes → Bytes → ℤ → Cache
middle g come room l = record {
  data_bytes = come ++ room;
  group_id = g;
  invalid = false;
  size = length come;
  last_chunk_id = l;
}

drop-append_more : (n : ℕ) (xs ys : Bytes) → drop (length xs + n) (xs ++ ys) ≡ drop n ys
drop-append_more n [] ys = let e : 0 + n ≡ n = omega arith in ap (λ m. drop m ys) e
drop-append_more n (x ∷ xs) ys =
    let e : suc (length xs) + n ≡ suc (length xs + n) = omega arith in
    ap (λ m. drop m (x ∷ (xs ++ ys))) e ∙ drop-append_more n xs ys

copy_at-room :
    (come p room : Bytes)
    → length p ≤ length room
    → length come + length p < 2147483648
    → copy_at (length come) p (come ++ room) ≡ some ((come ++ p) ++ drop (length p) room)
unfolding copy_at
copy_at-room come p room h small =
    let fits : length come + length p ≤ length (come ++ room) =
      omega (arith, length-append come room) in
    rw
      (
        le→leb _ _ fits,
        lt→ltb _ _ small,
        take-append_self come room,
        drop-append_more (length p) come room,
      )
      (ap some (sym (append_assoc come p (drop (length p) room))))

append_chunk-middle :
    (g l : ℤ) (come room p : Bytes) (capacity n i : ℕ)
    → next_id l ≡ pos i
    → length p ≤ length room
    → length come + length p < 2147483648
    → append_chunk (middle g come room l) (record {
      group = g;
      chunk_id = pos i;
      chunk_count = pos n;
      capacity = capacity;
      payload = p;
    })
      ≡ some (middle g (come ++ p) (drop (length p) room) (pos i), eq_ℤ (pos i) (last_id (pos n)))
unfolding append_chunk
append_chunk-middle g l come room p capacity n i e h small =
    rw (e, (==_iff i i).1 refl, (eq_ℤ_iff g g).1 refl, copy_at-room come p room h small)
      (rw (length-append come p) refl)

unpack-middle :
    (g l : ℤ) (come room : Bytes) (k : Chunk)
    → eq_ℤ g minus_one ≡ false
    → is_first k ≡ false
    → unpack (middle g come room l) k ≡ append_chunk (middle g come room l) k
unfolding unpack start_or_append
unpack-middle g l come room k known later = rw (known, later, known) refl

-- One turn that sends nothing, and one that sends the group.
feed-on :
    (c c' : Cache) (k : Chunk) (ks : List Chunk)
    → unpack c k ≡ some (c', false)
    → feed c (k ∷ ks) ≡ put_before [] (feed c' ks)
unfolding feed
feed-on c c' k ks e = rw e refl

feed-last :
    (c c' : Cache) (k : Chunk)
    → unpack c k ≡ some (c', true)
    → feed c (k ∷ []) ≡ some (reset, take c'.size c'.data_bytes ∷ [])
unfolding feed
feed-last c c' k e = rw e refl

put_before-nothing : (o : Option (Cache × List Bytes)) → put_before [] o ≡ o
put_before-nothing none = refl
put_before-nothing (some (c, out)) = refl

abbrev nth_chunk : ℤ → ℕ → ℕ → ℕ → Bytes → Chunk
nth_chunk g capacity n i p = record {
  group = g;
  chunk_id = pos i;
  chunk_count = pos n;
  capacity = capacity;
  payload = p;
}

feed-rest :
    (g : ℤ) (capacity n i : ℕ) (l : ℤ) (come room p : Bytes) (ps : List Bytes) (c : Cache)
    → eq_ℤ g minus_one ≡ false
    → next_id l ≡ pos i
    → n ≡ i + suc (length ps)
    → n < 2147483648
    → length (concat (p ∷ ps)) ≤ length room
    → length come + length (concat (p ∷ ps)) < 2147483648
    → unpack c (nth_chunk g capacity n i p)
      ≡ append_chunk (middle g come room l) (nth_chunk g capacity n i p)
    → feed c (chunks_from g capacity n i (p ∷ ps)) ≡ some (reset, (come ++ concat (p ∷ ps)) ∷ [])
feed-rest g capacity n i l come room p [] c known e count few fits small first =
    let short : length p ≤ length room = omega (arith, length-append p []) in
    let below : length come + length p < 2147483648 = omega (arith, length-append p []) in
    let ready : eq_ℤ (pos i) (last_id (pos n)) ≡ true = ground arith in
    let step = first ∙ append_chunk-middle g l come room p capacity n i e short below in
    feed-last c (middle g (come ++ p) (drop (length p) room) (pos i)) _
      (step ∙ ap (λ b. some (middle g (come ++ p) (drop (length p) room) (pos i), b)) ready)
    ∙ ap (λ bs. some (reset, bs ∷ []))
        (take-append_self (come ++ p) (drop (length p) room) ∙ ap (◌++◌ come) (sym (append-nil p)))
feed-rest g capacity n i l come room p (q ∷ qs) c known e count few fits small first =
    let short : length p ≤ length room = omega (arith, length-append p (concat (q ∷ qs))) in
    let below : length come + length p < 2147483648 =
      omega (arith, length-append p (concat (q ∷ qs))) in
    let following : next_id (pos i) ≡ pos (i + 1) = ground arith in
    let on : eq_ℤ (pos i) (last_id (pos n)) ≡ false = ground arith in
    let c' = middle g (come ++ p) (drop (length p) room) (pos i) in
    let step = first ∙ append_chunk-middle g l come room p capacity n i e short below in
    feed-on c c' _ (chunks_from g capacity n (i + 1) (q ∷ qs)) (step ∙ ap (λ b. some (c', b)) on)
    ∙ put_before-nothing _
    ∙ feed-rest g capacity n (i + 1) (pos i) (come ++ p) (drop (length p) room) q qs c' known
        following (omega arith) few
        (omega (arith, length-append p (concat (q ∷ qs)), length-drop (length p) room))
        (omega (arith, length-append p (concat (q ∷ qs)), length-append come p))
        (unpack-middle g (pos i) (come ++ p) (drop (length p) room) _ known (ground arith))
    ∙ ap (λ bs. some (reset, bs ∷ [])) (append_assoc come p (concat (q ∷ qs)))

unpack-first :
    (g : ℤ) (capacity n : ℕ) (p : Bytes) (c : Cache)
    → unpack c (nth_chunk g capacity n 0 p)
      ≡ append_chunk (middle g [] (replicate capacity 0) minus_one) (nth_chunk g capacity n 0 p)
unfolding unpack start_or_append
unpack-first g capacity n p c = elim (Bool-cases (no_group c)) [
  | inl idle ↦ rw idle (rw idle refl)
  | inr busy ↦ rw busy refl
]

-- Whatever the cache holds: a group whose chunks come whole and in order, and fit into the buffer,
-- is sent as one message, the payloads joined, and the cache is reset, where the id of the group is
-- not -1, and its chunks and the bytes of its buffer are fewer than 2 ^ 31.
pub feed-group :
    (g : ℤ) (capacity : ℕ) (p : Bytes) (ps : List Bytes) (c : Cache)
    → g ≢ minus_one
    → suc (length ps) < 2147483648
    → capacity < 2147483648
    → length (concat (p ∷ ps)) ≤ capacity
    → feed c (chunks_from g capacity (suc (length ps)) 0 (p ∷ ps))
      ≡ some (reset, concat (p ∷ ps) ∷ [])
feed-group g capacity p ps c known few small fits =
    feed-rest g capacity (suc (length ps)) 0 minus_one [] (replicate capacity 0) p ps c
      (ground (arith, eq_ℤ_iff g minus_one)) refl (omega arith) few
      (omega (arith, length-replicate {A = ℕ} capacity 0)) (omega arith)
      (unpack-first g capacity (suc (length ps)) p c)

-- The chunk follows the last one of its group.
abbrev pub follows : Cache → Chunk → Bool
follows c k = eq_ℤ k.chunk_id (next_id c.last_chunk_id) && eq_ℤ k.group c.group_id

-- After a chunk nothing was sent, and no group is open.
abbrev Idles : Option (Cache × Bool) → Type 0
Idles o = (c : Cache) × (o ≡ some (c, false)) × (no_group c ≡ true)

unpack-idle : (c : Cache) (k : Chunk) → no_group c ≡ true → is_first k ≡ false → Idles (unpack c k)
unfolding unpack start_or_append
unpack-idle c k idle later = (record c { invalid = true }, rw (idle, idle) (rw later refl), idle)

unpack-broken :
    (c : Cache) (k : Chunk) → follows c k ≡ false → is_first k ≡ false → Idles (unpack c k)
unfolding unpack start_or_append append_chunk
unpack-broken c k gap later = elim (Bool-cases (no_group c)) [
  | inl idle ↦ unpack-idle c k idle later
  | inr busy ↦ (record reset { invalid = true }, rw (busy, later, busy) (rw gap refl), refl)
]

abbrev SendsNothing : Option (Cache × List Bytes) → Type 0
SendsNothing o = (c : Cache) × (o ≡ some (c, []))

feed-idle :
    (c : Cache) (ks : List Chunk)
    → no_group c ≡ true
    → All (λ k. is_first k ≡ false) ks
    → SendsNothing (feed c ks)
unfolding feed
feed-idle c [] idle h = (c, refl)
feed-idle c (k ∷ ks) idle h =
    let (c', e, idle') = unpack-idle c k idle h.0 in
    let (d, f) = feed-idle c' ks idle' h.1 in (d, feed-on c c' k ks e ∙ ap (put_before []) f)

-- After a chunk that does not follow the last one, and is no first chunk, nothing is sent and nothing
-- panics, until a first chunk comes: a group that lost a chunk is never delivered.
pub feed-broken :
    (c : Cache) (k : Chunk) (ks : List Chunk)
    → follows c k ≡ false
    → All (λ k'. is_first k' ≡ false) (k ∷ ks)
    → (c' : Cache) × (feed c (k ∷ ks) ≡ some (c', []))
feed-broken c k ks gap h =
    let (c', e, idle) = unpack-broken c k gap h.0 in
    let (d, f) = feed-idle c' ks idle h.1 in (d, feed-on c c' k ks e ∙ ap (put_before []) f)
