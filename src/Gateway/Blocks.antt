-- ===== src/Gateway/Blocks.antt =====
-- The blocks between the gateway and the robot's processes, as the managers of cloud/ipc_manager.go
-- write and read them: two bytes for the size, and a message. The codec of the message is an argument,
-- a CLAD union for two of the managers. The socket is a list of the blocks that it gives.
use vic_cloudless.Prelude.{
  ap, length, ℕ, ◌<◌, ◌≡◌, refl, sym, ◌∙◌, true, Option, none, some, List, [], ◌∷◌, ◌++◌,
  append-nil, arith,
}
use vic_cloudless.Clad.Wire.{Bytes, Codec, and_then, and_then-eq_some, le_bytes}

-- What `ReadBlock` gives: a block, or nil when the socket has ended.
pub data Block : Type 0 where
  block : Bytes → Block
  ended : Block

abbrev pub drop_size : Bytes → Option Bytes
drop_size [] = none
drop_size (a ∷ []) = none
drop_size (a ∷ b ∷ bs) = some bs

module _ {A : Type 0} (c : Codec A) where
  -- `Write`: what is given to the socket, or an error; the size is cut to two bytes.
  unfoldable pub write_block : A → Option Bytes
  unfolding le_bytes
  write_block m = and_then (c.pack m) (λ b. some (le_bytes 2 (c.size m) ++ b))

  -- The message in a block; `none` where the block is too small or is not understood. What is left
  -- over is ignored.
  unfoldable pub read_block : Bytes → Option A
  read_block bs = and_then (drop_size bs) (λ b. and_then (c.unpack b) (λ r. some r.0))

  abbrev pub with_message : Option A → List A → List A
  with_message none rest = rest
  with_message (some m) rest = m ∷ rest

  -- The loop of `ProcessMessages`, up to what is done with a message.
  unfoldable pub process_messages : List Block → List A
  unfolding read_block
  process_messages [] = []
  process_messages (ended ∷ bs) = []
  process_messages (block b ∷ bs) = with_message (read_block b) (process_messages bs)

  -- Blocks with messages among others: a message that fits, as it is written, or a block that holds
  -- none, one with less than two bytes among them.
  pub data Carries : List Block → List A → Type 0 where
    silent : Carries [] []
    closed : (bs : List Block) → Carries (ended ∷ bs) []
    message :
        {bs : List Block} {ms : List A} (m : A) (b : Bytes)
        → c.fits m ≡ true
        → write_block m ≡ some b
        → Carries bs ms
        → Carries (block b ∷ bs) (m ∷ ms)
    too_small :
        {bs : List Block} {ms : List A} (b : Bytes)
        → length b < 2
        → Carries bs ms
        → Carries (block b ∷ bs) ms
    unreadable :
        {bs : List Block} {ms : List A} (x y : ℕ) (b : Bytes)
        → c.unpack b ≡ none
        → Carries bs ms
        → Carries (block (x ∷ y ∷ b) ∷ bs) ms

  read_block-write_block :
      (m : A) (b : Bytes) → c.fits m ≡ true → write_block m ≡ some b → read_block b ≡ some m
  unfolding read_block write_block le_bytes
  read_block-write_block m b f e =
      let (x, ex, e') = and_then-eq_some (c.pack m) _ e in
      let whole : le_bytes 2 (c.size m) ++ x ≡ b = cc e' in
      let back : c.unpack x ≡ some (m, []) =
        ap c.unpack (sym (append-nil x)) ∙ c.unpack-pack m x [] f ex in
      ap read_block (sym whole) ∙ ap (λ o. and_then o (λ r. some r.0)) back

  small_block : (b : Bytes) → length b < 2 → read_block b ≡ none
  unfolding read_block
  small_block [] h = refl
  small_block (x ∷ []) h = refl
  small_block (x ∷ y ∷ b) h = absurd (omega (arith, h))

  -- What the socket carries is read as it was written, in order, up to its end: a block that is too
  -- small or is not understood is passed over, and takes no message with it.
  pub process_messages-Carries :
      {bs : List Block} {ms : List A} → Carries bs ms → process_messages bs ≡ ms
  unfolding process_messages
  process_messages-Carries silent = refl
  process_messages-Carries (closed bs) = refl
  process_messages-Carries (message m b f e more) =
      rw (read_block-write_block m b f e) (ap (◌∷◌ m) (process_messages-Carries more))
  process_messages-Carries (too_small b h more) =
      rw (small_block b h) (process_messages-Carries more)
  process_messages-Carries (unreadable x y b n more) =
      let nothing : read_block (x ∷ y ∷ b) ≡ none = unfold read_block in rw n refl in
      rw nothing (process_messages-Carries more)

  -- What is written starts with the number of the bytes that follow, where that is below 2 ^ 16.
  pub write_block-size :
      (m : A) (b : Bytes)
      → c.size m < 65536
      → write_block m ≡ some b
      → (x : Bytes) × (b ≡ le_bytes 2 (length x) ++ x)
  unfolding write_block
  write_block-size m b h e =
      let (x, ex, e') = and_then-eq_some (c.pack m) _ e in
      let whole : le_bytes 2 (c.size m) ++ x ≡ b = cc e' in
      (x, sym whole ∙ ap (λ n. le_bytes 2 n ++ x) (sym (c.length-pack m x ex)))
