-- ===== src/Gateway/Feed.antt =====
-- The audio and camera feeds of the gateway: how the chunks of a group (an image) that the engine sends
-- are put together, in cloud/message_handler.go. Both feeds run the same code but for the size of
-- the buffer that a first chunk makes. Ids are int32; -1 stands for none.
pub mod Group
use vic_cloudless.Prelude.{
  ◌==◌, length, replicate, if◌then◌else◌, drop, leb, ltb, take, ◌%◌, ◌^◌, ℕ, ◌+◌, ◌-◌, ◌*◌, Bool,
  true, false, not, ◌&&◌, Option, none, some, List, [], ◌∷◌, ◌++◌,
}
use vic_cloudless.Prelude.Int.{negsuc, pos, eq_ℤ, ℤ, minus_one}

abbrev pub Bytes : Type 0
Bytes = List ℕ

-- `AudioFeedCache` and `CameraFeedCache`; `group_id` is `GroupId` or `ImageId`.
pub record Cache : Type 0 where
  pub data_bytes : Bytes
  pub group_id : ℤ
  pub invalid : Bool
  pub size : ℕ
  pub last_chunk_id : ℤ

-- `ResetAudioCache`, `ResetCameraCache`
abbrev pub reset : Cache
reset = record {
  data_bytes = [];
  group_id = minus_one;
  invalid = false;
  size = 0;
  last_chunk_id = minus_one;
}

-- How the caches are made: `LastChunkId` is left at 0.
abbrev pub initial : Cache
initial = record reset { last_chunk_id = pos 0 }

-- `AudioChunk` and `ImageChunk`; `capacity` is the size of the buffer that the first chunk makes.
pub record Chunk : Type 0 where
  pub group : ℤ
  pub chunk_id : ℤ
  pub chunk_count : ℤ
  pub capacity : ℕ
  pub payload : Bytes

-- extint.AudioConstants_SAMPLE_COUNTS_PER_SDK_MESSAGE * 2
abbrev pub audio_capacity : ℕ
audio_capacity = 3200

-- width * height * 3, of uint32
abbrev pub camera_capacity : ℕ → ℕ → ℕ
camera_capacity width height = width * height * 3 % 2 ^ 32

-- The next id and the one before, which wrap around at the ends of int32.
abbrev pub next_id : ℤ → ℤ
next_id (pos n) = if n == 2147483647 then negsuc 2147483647 else pos (n + 1)
next_id (negsuc n) = if n == 0 then pos 0 else negsuc (n - 1)

abbrev pub last_id : ℤ → ℤ
last_id (pos n) = if n == 0 then minus_one else pos (n - 1)
last_id (negsuc n) = if n == 2147483647 then pos 2147483647 else negsuc (n + 1)

-- A slot of the buffer, of `size` bytes from `at` on, filled with the payload; `none` where the slice
-- is out of range, as it is where its end is over an int32.
unfoldable pub copy_at : ℕ → Bytes → Bytes → Option Bytes
copy_at at payload buf =
    if leb (at + length payload) (length buf) && ltb (at + length payload) 2147483648
    then some (take at buf ++ (payload ++ drop (at + length payload) buf))
    else none

abbrev stored : Cache → Chunk → Option Bytes → Option (Cache × Bool)
stored c k none = none
stored c k (some b) = some (
  record c { data_bytes = b; size = c.size + length k.payload; last_chunk_id = k.chunk_id },
  eq_ℤ k.chunk_id (last_id k.chunk_count),
)

-- The chunk must follow the last one, in the same group.
unfoldable pub append_chunk : Cache → Chunk → Option (Cache × Bool)
unfolding copy_at
append_chunk c k =
    if eq_ℤ k.chunk_id (next_id c.last_chunk_id) && eq_ℤ k.group c.group_id
    then stored c k (copy_at c.size k.payload c.data_bytes)
    else some (record reset { invalid = true }, false)

abbrev pub is_first : Chunk → Bool
is_first k = eq_ℤ k.chunk_id (pos 0)

abbrev no_group : Cache → Bool
no_group c = eq_ℤ c.group_id minus_one

-- A first chunk ends a group in progress.
abbrev drop_group : Cache → Chunk → Cache
drop_group c k = if not (no_group c) && is_first k then record c { group_id = minus_one } else c

abbrev open_group : Chunk → Cache
open_group k = record reset { data_bytes = replicate k.capacity 0; group_id = k.group }

abbrev start_or_append : Cache → Chunk → Option (Cache × Bool)
unfolding append_chunk
start_or_append c k =
    if no_group c
    then (if is_first k
        then append_chunk (open_group k) k
        else some (record c { invalid = true }, false))
    else append_chunk c k

-- `UnpackAudioChunk` and `UnpackCameraImageChunk`: the cache, and whether it is ready to be sent;
-- `none` is a panic, a chunk that does not fit in the buffer.
unfoldable pub unpack : Cache → Chunk → Option (Cache × Bool)
unfolding append_chunk
unpack c k = start_or_append (drop_group c k) k

-- One turn of the loop of `AudioFeed` and `CameraFeed`: what is sent, and the cache after it.
abbrev sent : Cache × Bool → Cache × List Bytes
sent (c, ready) = if ready then (reset, take c.size c.data_bytes ∷ []) else (c, [])

-- The loop over the chunks that come; `none` is the panic. A message that cannot be sent ends the
-- loop, as the end of the list does.
abbrev put_before : List Bytes → Option (Cache × List Bytes) → Option (Cache × List Bytes)
put_before out none = none
put_before out (some (c, out')) = some (c, out ++ out')

abbrev pub and_then :
    Option (Cache × Bool) → (Cache → Option (Cache × List Bytes)) → Option (Cache × List Bytes)
and_then none go = none
and_then (some r) go = put_before (sent r).1 (go (sent r).0)

unfoldable pub feed : Cache → List Chunk → Option (Cache × List Bytes)
unfolding unpack
feed c [] = some (c, [])
feed c (k ∷ ks) = and_then (unpack c k) (λ c'. feed c' ks)
