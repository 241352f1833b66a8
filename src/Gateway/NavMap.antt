-- ===== src/Gateway/NavMap.antt =====
-- The feed of the map: `SetNavMapBroadcastFrequency`, `NavMapFeed` and the conversions that it uses,
-- of cloud/message_handler.go. The select takes from three channels, so the order in which it takes is
-- a list of signals. Whether the engine is written and the client is sent to are parameters.
pub mod Frames
pub mod Reset
mod Tests
use vic_cloudless.Prelude.{
  if◌then◌else◌, ℕ, ◌+◌, Bool, Option, none, some, List, [], ◌∷◌, ◌++◌, map,
}
use vic_cloudless.Clad.Robot.Actions.{MemoryMapQuadInfo, MemoryMapMessageBegin, MemoryMapMessage}

-- `NavMapInfo`; the numbers of floating point are the patterns of their bits.
pub record NavMapInfo : Type 0 where
  pub root_depth : ℕ
  pub root_size_mm : ℕ
  pub root_center_x : ℕ
  pub root_center_y : ℕ
  pub root_center_z : ℕ

-- `NavMapQuadInfo`
pub record NavMapQuadInfo : Type 0 where
  pub content : ℕ
  pub depth : ℕ
  pub color_rgba : ℕ

-- `NavMapFeedResponse`
pub record NavMap : Type 0 where
  pub origin_id : ℕ
  pub map_info : NavMapInfo
  pub quad_infos : List NavMapQuadInfo

-- `CladMemoryMapBeginToProtoNavMapInfo`
abbrev pub nav_map_info : MemoryMapMessageBegin → NavMapInfo
nav_map_info b = record {
  root_depth = b.root_depth;
  root_size_mm = b.root_size_mm;
  root_center_x = b.root_center_x;
  root_center_y = b.root_center_y;
  root_center_z = 0;
}

-- `CladMemoryMapQuadInfoToProto`
abbrev pub nav_map_quad_info : MemoryMapQuadInfo → NavMapQuadInfo
nav_map_quad_info q = record { content = q.content; depth = q.depth; color_rgba = q.color_rgba }

-- What the select takes: a message of one of the channels, or that one is closed.
pub data Signal : Type 0 where
  map_begin : MemoryMapMessageBegin → Signal
  map_data : MemoryMapMessage → Signal
  map_end : Signal
  channel_closed : Signal

-- What is done: the engine is told a frequency, or the client is sent a map.
pub data Act : Type 0 where
  set_frequency : ℕ → Act
  send : NavMap → Act

-- How the feed stands, or why it has ended.
pub data Standing : Type 0 where
  waiting not_written failed_to_retrieve send_failed : Standing

-- The bits of -1.0, which turns the broadcast off.
abbrev pub minus_one_bits : ℕ
minus_one_bits = 0xbf800000

abbrev pub new_map : MemoryMapMessageBegin → NavMap
new_map b = record { origin_id = b.origin_id; map_info = nav_map_info b; quad_infos = [] }

abbrev pub with_quads : Option NavMap → MemoryMapMessage → Option NavMap
with_quads none d = none
with_quads (some m) d =
    some (record m { quad_infos = m.quad_infos ++ map nav_map_quad_info d.quad_infos })

abbrev pub off : Act
off = set_frequency minus_one_bits

module _ (sends : NavMap → Bool)  -- whether a map is sent, with the stream's context alive
  where
    -- The map that is pending is sent, if there is one.
    abbrev pub finish_map : Option NavMap → List Act × Standing → List Act × Standing
    finish_map none rest = rest
    finish_map (some m) rest =
        if sends m then (send m ∷ rest.0, rest.1) else (send m ∷ off ∷ [], send_failed)

    -- The loop, with the map that is pending; where it ends the broadcast is turned off.
    unfoldable pub feed_loop : Option NavMap → List Signal → List Act × Standing
    feed_loop pending [] = ([], waiting)
    feed_loop pending (map_begin b ∷ ss) = feed_loop (some (new_map b)) ss
    feed_loop pending (map_data d ∷ ss) = feed_loop (with_quads pending d) ss
    feed_loop pending (map_end ∷ ss) = finish_map pending (feed_loop none ss)
    feed_loop pending (channel_closed ∷ ss) = (off ∷ [], failed_to_retrieve)

    -- `NavMapFeed`, of whether the first frequency is written.
    unfoldable pub nav_map_feed : Bool → ℕ → List Signal → List Act × Standing
    unfolding feed_loop
    nav_map_feed written frequency ss =
        let rest = feed_loop none ss in
        if written
        then (set_frequency frequency ∷ rest.0, rest.1)
        else (set_frequency frequency ∷ [], not_written)
