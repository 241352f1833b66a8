-- ===== src/Gateway/NavMap/Frames.antt =====
-- The maps that a feed sends, against what the engine broadcasts.
use vic_cloudless.Prelude.{
  ℕ, ◌≡◌, refl, sym, ap, ◌∙◌, Bool, true, Option, none, some, List, [], ◌∷◌, ◌++◌, map, append-nil,
  append_assoc,
}
use vic_cloudless.Clad.Robot.Actions.{MemoryMapQuadInfo, MemoryMapMessageBegin, MemoryMapMessage}
use vic_cloudless.Gateway.NavMap.{
  NavMap, nav_map_info, nav_map_quad_info, Signal, map_begin, map_data, map_end, Act, set_frequency,
  send, waiting, new_map, feed_loop, nav_map_feed,
}

-- A map as the engine broadcasts it: a beginning, and quads in several messages.
pub record Frame : Type 0 where
  pub begin : MemoryMapMessageBegin
  pub parts : List MemoryMapMessage

abbrev pub all_quads : List MemoryMapMessage → List MemoryMapQuadInfo
all_quads [] = []
all_quads (d ∷ ds) = d.quad_infos ++ all_quads ds

-- The map of a frame: all its quads, in order.
abbrev pub map_of : Frame → NavMap
map_of f = record {
  origin_id = f.begin.origin_id;
  map_info = nav_map_info f.begin;
  quad_infos = map nav_map_quad_info (all_quads f.parts);
}

abbrev pub data_of : List MemoryMapMessage → List Signal → List Signal
data_of [] rest = rest
data_of (d ∷ ds) rest = map_data d ∷ data_of ds rest

-- The messages of frames, one frame after another.
abbrev pub broadcast : List Frame → List Signal
broadcast [] = []
broadcast (f ∷ fs) = map_begin f.begin ∷ data_of f.parts (map_end ∷ broadcast fs)

abbrev pub sent : List NavMap → List Act
sent [] = []
sent (m ∷ ms) = send m ∷ sent ms

map-append_quads :
    (xs ys : List MemoryMapQuadInfo)
    → map nav_map_quad_info (xs ++ ys) ≡ map nav_map_quad_info xs ++ map nav_map_quad_info ys
map-append_quads [] ys = refl
map-append_quads (x ∷ xs) ys = ap (◌∷◌ (nav_map_quad_info x)) (map-append_quads xs ys)

abbrev grown : NavMap → List MemoryMapMessage → NavMap
grown m ds = record m { quad_infos = m.quad_infos ++ map nav_map_quad_info (all_quads ds) }

module _ (sends : NavMap → Bool) where
  feed_loop-data_of :
      (ds : List MemoryMapMessage) (m : NavMap) (rest : List Signal)
      → feed_loop sends (some m) (data_of ds rest) ≡ feed_loop sends (some (grown m ds)) rest
  unfolding feed_loop
  feed_loop-data_of [] m rest =
      ap (λ q. feed_loop sends (some (record m { quad_infos = q })) rest)
        (sym (append-nil m.quad_infos))
  feed_loop-data_of (d ∷ ds) m rest =
      let m' : NavMap = record m {
        quad_infos = m.quad_infos ++ map nav_map_quad_info d.quad_infos;
      } in
      let e : m'.quad_infos ++ map nav_map_quad_info (all_quads ds)
          ≡ m.quad_infos ++ map nav_map_quad_info (all_quads (d ∷ ds)) =
        append_assoc m.quad_infos (map nav_map_quad_info d.quad_infos)
          (map nav_map_quad_info (all_quads ds))
        ∙ ap (◌++◌ m.quad_infos) (sym (map-append_quads d.quad_infos (all_quads ds))) in
      feed_loop-data_of ds m' rest
      ∙ ap (λ q. feed_loop sends (some (record m { quad_infos = q })) rest) e

  feed_loop-broadcast :
      (fs : List Frame) (pending : Option NavMap)
      → ((m : NavMap) → sends m ≡ true)
      → feed_loop sends pending (broadcast fs) ≡ (sent (map map_of fs), waiting)
  unfolding feed_loop
  feed_loop-broadcast [] pending ok = refl
  feed_loop-broadcast (f ∷ fs) pending ok =
      feed_loop-data_of f.parts (new_map f.begin) (map_end ∷ broadcast fs)
      ∙ rw (ok (map_of f), feed_loop-broadcast fs none ok) refl

  -- Where the frequency can be set, every map can be sent, and the messages are taken in the order
  -- in which they are broadcast, the client is sent each map once and whole, with its quads in
  -- order.
  pub nav_map_feed-broadcast :
      (fs : List Frame) (frequency : ℕ)
      → ((m : NavMap) → sends m ≡ true)
      → nav_map_feed sends true frequency (broadcast fs)
        ≡ (set_frequency frequency ∷ sent (map map_of fs), waiting)
  unfolding nav_map_feed
  nav_map_feed-broadcast fs frequency ok = rw (feed_loop-broadcast fs none ok) refl

  -- Data that are taken only when the end of their map has been are not in any map: the channels do
  -- not keep their order between them.
  pub nav_map_feed-late :
      (f : Frame) (late : MemoryMapMessage) (frequency : ℕ)
      → ((m : NavMap) → sends m ≡ true)
      → nav_map_feed sends true frequency
          (map_begin f.begin ∷ data_of f.parts (map_end ∷ map_data late ∷ []))
        ≡ (set_frequency frequency ∷ send (map_of f) ∷ [], waiting)
  unfolding nav_map_feed feed_loop
  nav_map_feed-late f late frequency ok =
      rw (feed_loop-data_of f.parts (new_map f.begin) (map_end ∷ map_data late ∷ []), ok (map_of f))
        refl
