-- ===== src/Gateway/Update.antt =====
-- The status of an update of the robot: `ReadStringFromFile`, `ReadInt64FromFile`, `GetUpdateStatus`,
-- `UpdateStatusStream` and `StartUpdateEngine` of cloud/message_handler.go. The files of
-- update-engine, systemctl, the parser of numbers, the regular expression of the version and the
-- comparison of two quotients in floating point are parameters. `lastProgress` and `lastExpected` are
-- global: a start of the engine resets them also while a stream runs, before any of its passes.
pub mod Progress
pub mod Ready
mod Tests
use vic_cloudless.Prelude.{
  ltb, leb, if◌then◌else◌, ℕ, zero, suc, ◌-◌, ◌<◌, Bool, true, false, not, ◌&&◌, ◌||◌, Option, none,
  some, List, [], ◌∷◌,
}
use vic_cloudless.Prelude.Int.{negsuc, pos, ℤ, eq_ℤ, minus_one}
use vic_cloudless.Prelude.Text.{contains, trim_space, codes, Text, text_eq}

-- The files under /run/update-engine, their texts where they can be read.
pub record Files : Type 0 where
  pub progress_file : Option Text
  pub expected_size : Option Text
  pub exit_code_file : Option Text
  pub error_file : Option Text
  pub phase_file : Option Text
  pub manifest : Option Text
  pub done : Bool

pub data UpdateStatus : Type 0 where
  no_update failure_other failure_interrupted_download : UpdateStatus
  ready_to_reboot in_progress_starting in_progress_download in_progress_other : UpdateStatus

-- `CheckUpdateStatusResponse`
pub record Status : Type 0 where
  pub update_status : UpdateStatus
  pub progress : ℤ
  pub expected : ℤ
  pub exit_code : ℤ
  pub error : Text
  pub update_phase : Text
  pub update_version : Text

-- `ReadStringFromFile`
abbrev read_string : Option Text → Text → Text
read_string none default = default
read_string (some data_read) default = trim_space data_read

abbrev or_default : ℤ → Option ℤ → ℤ
or_default default none = default
or_default default (some n) = n

abbrev is_empty : Text → Bool
is_empty [] = true
is_empty (c ∷ s) = false

abbrev pub is_positive : ℤ → Bool
is_positive (pos n) = ltb 0 n
is_positive (negsuc n) = false

abbrev pub no_exit : ℤ
no_exit = minus_one

abbrev pub name_unknown : Text
name_unknown = codes "Failed to open URL: <urlopen error [Errno -2] Name or service not known>"

abbrev pub forbidden : Text
forbidden = codes "Failed to open URL: HTTP Error 403: Forbidden"

-- One pass of the stream's loop: whether the engine has been started again since the last one, whether a
-- client is connected, and the files.
pub record Tick : Type 0 where
  pub restarted : Bool
  pub connected : Bool
  pub files : Files

module _ (parse_int : Text → Option ℤ) (version_in : Text → Option Text) where
  -- `ReadInt64FromFile`
  abbrev read_int : Option Text → ℤ → ℤ
  read_int file default =
      let text = read_string file [] in
      if is_empty text then default else or_default default (parse_int text)

  abbrev version_of : Option Text → Text
  version_of none = []
  version_of (some text) = read_string_or (version_in text)
    where
      read_string_or : Option Text → Text
      read_string_or none = []
      read_string_or (some v) = v

  abbrev pub status_read : Files → Status
  status_read f = record {
    update_status = no_update;
    progress = read_int f.progress_file minus_one;
    expected = read_int f.expected_size minus_one;
    exit_code = read_int f.exit_code_file no_exit;
    error = read_string f.error_file [];
    update_phase = read_string f.phase_file [];
    update_version = version_of f.manifest;
  }

  -- An exit code over 0.
  abbrev pub failure_kind : Status → UpdateStatus
  failure_kind s =
      if text_eq s.update_phase (codes "download")
        && (text_eq s.error name_unknown
            || (eq_ℤ s.exit_code (pos 208) || eq_ℤ s.exit_code (pos 215)))
      then failure_interrupted_download
      else failure_other

  abbrev pub failed : Status → Status
  failed s =
      if contains s.error forbidden
      then record s { update_status = no_update; error = []; exit_code = pos 0 }
      else record s { update_status = failure_kind s }

  abbrev pub starting : Status → Status
  starting s =
      if eq_ℤ s.exit_code no_exit
      then record s { update_status = in_progress_starting; error = [] }
      else s

  abbrev pub in_progress : Status → Status
  in_progress s =
      if is_positive s.progress
      then if text_eq s.update_phase (codes "download")
        then record s { update_status = in_progress_download }
        else record s { update_status = in_progress_other }
      else s

  abbrev pub status_of : Bool → Status → Status
  status_of done s =
      if is_positive s.exit_code
      then failed s
      else if done
      then record s { update_status = ready_to_reboot; error = []; exit_code = pos 0 }
      else in_progress (starting s)

  -- `GetUpdateStatus`
  unfoldable pub get_update_status : Files → Status
  get_update_status f = status_of f.done (status_read f)

  module _ (less : ℕ → ℕ → ℕ → ℕ → Bool)  -- whether the first quotient is below the second
    where
      abbrev pub is_progress : ℕ × ℕ → ℤ → ℤ → Bool
      is_progress (lp, le) (pos p) (pos e) = ltb 0 p && (ltb 0 e && (leb p e && less lp le p e))
      is_progress last (pos p) (negsuc e) = false
      is_progress last (negsuc p) e = false

      abbrev pub magnitude : ℤ → ℕ
      magnitude (pos n) = n
      magnitude (negsuc n) = 0

      -- The last progress, after the starts of the engine since.
      abbrev pub since : Tick → ℕ × ℕ → ℕ × ℕ
      since t last = if t.restarted then (0, 1) else last

      -- What is sent, with `lastProgress` and `lastExpected`.
      abbrev pub reported : ℕ × ℕ → Status → (ℕ × ℕ) × Status
      reported last s =
          if is_progress last s.progress s.expected
          then ((magnitude s.progress, magnitude s.expected), s)
          else (last, record s { progress = pos last.0; expected = pos last.1 })

      -- The loop of `UpdateStatusStream`, with `updateStarted`.
      unfoldable pub status_loop : Bool → ℕ × ℕ → List Tick → List Status × (ℕ × ℕ)
      unfolding get_update_status
      status_loop started last [] = ([], last)
      status_loop started last (t ∷ ts) =
          let now = since t last in
          let (last', s) = reported now (get_update_status t.files) in
          let rest = status_loop true last' ts in
          if not t.connected
          then ([], now)
          else if not (eq_ℤ s.exit_code no_exit) && started
          then (s ∷ [], last')
          else (s ∷ rest.0, rest.1)

      -- The wait for a client, ten times at most.
      abbrev pub wait_for_client : ℕ → List Tick → List Tick
      wait_for_client zero ts = ts
      wait_for_client (suc k) [] = []
      wait_for_client (suc k) (t ∷ ts) = if t.connected then t ∷ ts else wait_for_client k ts

      abbrev pub last_after_wait : ℕ → ℕ × ℕ → List Tick → ℕ × ℕ
      last_after_wait zero last ts = last
      last_after_wait (suc k) last [] = last
      last_after_wait (suc k) last (t ∷ ts) =
          let later = last_after_wait k (since t last) ts in if t.connected then last else later

      -- `UpdateStatusStream`, with `statusStreamRunning`.
      unfoldable pub update_status_stream : Bool → ℕ × ℕ → List Tick → List Status × (ℕ × ℕ)
      unfolding status_loop
      update_status_stream running last ts =
          if running
          then ([], last)
          else status_loop false (last_after_wait 10 last ts) (wait_for_client 10 ts)

  -- Whether the update is ready for a restart of the robot.
  abbrev pub is_ready : UpdateStatus → Bool
  is_ready ready_to_reboot = true
  is_ready no_update = false
  is_ready failure_other = false
  is_ready failure_interrupted_download = false
  is_ready in_progress_starting = false
  is_ready in_progress_download = false
  is_ready in_progress_other = false

  -- `StartUpdateEngine`, of whether the service is active, stops and restarts: whether the stream is
  -- started, and the last progress.
  unfoldable pub start_update_engine : Files → Bool → Bool → Bool → ℕ × ℕ → Bool × (ℕ × ℕ)
  unfolding get_update_status
  start_update_engine f active stops restarts last =
      if is_ready (get_update_status f).update_status || active
      then (true, (0, 1))
      else if stops && restarts
      then (true, (0, 1))
      else (false, last)
