-- ===== src/Gateway/NavMap/Tests.antt =====
-- The feed of the map at concrete values.
use vic_cloudless.Prelude.{ℕ, ◌≡◌, refl, Bool, true, List, [], ◌∷◌, map}
use vic_cloudless.Clad.Robot.Actions.{MemoryMapQuadInfo, MemoryMapMessage}
use vic_cloudless.Gateway.NavMap.{
  NavMap, Signal, map_begin, map_data, map_end, channel_closed, set_frequency, waiting,
  nav_map_feed, failed_to_retrieve, off,
}
use vic_cloudless.Gateway.NavMap.Frames.{Frame, broadcast, map_of, sent, nav_map_feed-broadcast}

abbrev quad : ℕ → MemoryMapQuadInfo
quad n = record { content = n; depth = 2; color_rgba = 255 }

abbrev one_frame : Frame
one_frame = record {
  begin = record {
    origin_id = 4;
    root_depth = 3;
    root_size_mm = 0;
    root_center_x = 0;
    root_center_y = 0;
  };
  parts = record { quad_infos = quad 1 ∷ quad 2 ∷ [] } ∷ record { quad_infos = quad 3 ∷ [] } ∷ [];
}

abbrev more_quads : MemoryMapMessage
more_quads = record { quad_infos = quad 5 ∷ [] }

abbrev always : NavMap → Bool
always m = true

nav_map_feed-broadcast_example :
    nav_map_feed always true 1000 (broadcast (one_frame ∷ one_frame ∷ []))
    ≡ (set_frequency 1000 ∷ sent (map map_of (one_frame ∷ one_frame ∷ [])), waiting)
nav_map_feed-broadcast_example =
    nav_map_feed-broadcast always (one_frame ∷ one_frame ∷ []) 1000 (λ m. refl)

abbrev cut_short : List Signal
cut_short = map_begin one_frame.begin ∷ map_data more_quads ∷ channel_closed ∷ map_end ∷ []

cut_test :
    nav_map_feed always true 1000 cut_short ≡ (set_frequency 1000 ∷ off ∷ [], failed_to_retrieve)
unfolding nav_map_feed
cut_test = refl
