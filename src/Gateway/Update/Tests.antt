-- ===== src/Gateway/Update/Tests.antt =====
-- The status of an update on concrete input.
use vic_cloudless.Prelude.{
  if◌then◌else◌, ltb→lt, ltb, ℕ, ◌*◌, ◌<◌, ◌≡◌, refl, subst, Bool, true, false, not, ◌&&◌, Option,
  none, some, List, [], ◌∷◌, arith,
}
use vic_cloudless.Prelude.Int.{ℤ}
use vic_cloudless.Prelude.Text.{trim_space, codes, Text, text_eq}
use vic_cloudless.Gateway.Update.{
  pos, Files, Tick, is_ready, is_positive, status_read, get_update_status, update_status_stream,
  start_update_engine,
}
use vic_cloudless.Gateway.Update.Progress.{Rises, Small, update_status_stream-Rises}
use vic_cloudless.Gateway.Update.Ready.{get_update_status-is_ready}

abbrev hundreds : Text → Option ℤ
hundreds t = if text_eq t (codes "100") then some (pos 100) else some (pos 200)

abbrev no_version : Text → Option Text
no_version t = none

abbrev below : ℕ → ℕ → ℕ → ℕ → Bool
below a b c d = ltb (a * d) (c * b)

abbrev half_way : Files
half_way = record {
  progress_file = some (codes "100");
  expected_size = some (codes "200");
  exit_code_file = none;
  error_file = none;
  phase_file = some (codes "download");
  manifest = none;
  done = false;
}

abbrev passes : List Tick
passes = record { restarted = false; connected = true; files = half_way } ∷ []

pos_injective : (a b : ℕ) → pos a ≡ pos b → a ≡ b
pos_injective a b h = cc h

half_way-Small :
    Small hundreds no_version below
      (λ a b c d g h e. ltb→lt _ _ e)
      (record { restarted = false; connected = true; files = half_way })
unfolding get_update_status text_eq trim_space
half_way-Small e h = subst (λ k. k < 9007199254740992) (pos_injective 200 e h) (omega arith)

update_status_stream-Rises_example :
    Rises
      (0, 1)
      (update_status_stream hundreds no_version below false
        (start_update_engine hundreds no_version half_way true false false (50, 60)).1
        passes).0
unfolding start_update_engine trim_space text_eq
update_status_stream-Rises_example =
    update_status_stream-Rises hundreds no_version below (λ a b c d g h e. ltb→lt (a * d) (c * b) e)
      half_way true false false false (50, 60) passes refl (half_way-Small, tt) (refl, tt)

get_update_status-is_ready_example :
    is_ready hundreds no_version (get_update_status hundreds no_version half_way).update_status
    ≡ half_way.done && not (is_positive (status_read hundreds no_version half_way).exit_code)
get_update_status-is_ready_example = get_update_status-is_ready hundreds no_version half_way
