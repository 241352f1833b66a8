-- ===== src/Gateway/Rpc/Photos.antt =====
-- Calls whose answer the gateway makes from the engine's: `Photo`, `Thumbnail` and
-- `EnableMarkerDetection` of cloud/message_handler.go. The file system is a parameter.
use vic_cloudless.Prelude.{if◌then◌else◌, ◌≡◌, refl, ◌↔◌, Bool, true, false, Option, none, some}
use vic_cloudless.Prelude.Text.{Text}
use vic_cloudless.Clad.Wire.{Bytes}

-- `PhotoPathMessage` and `ThumbnailPathMessage`, or that the channel is closed, or nothing yet.
pub data Arrival : Type 0 where
  path_message : (success : Bool) (full_path : Text) → Arrival
  channel_closed nothing : Arrival

-- The picture, or the status `NOT_FOUND`; `unreadable` is that status with the error of the file,
-- which is what the client sees.
pub data Picture : Type 0 where
  picture : Bytes → Picture
  not_found unreadable not_written failed_to_retrieve waiting : Picture

module _ (read_file : Text → Option Bytes) where
  -- `SendImageHelper`, and what is made of it.
  abbrev pub read_picture : Option Bytes → Picture
  read_picture none = unreadable
  read_picture (some bs) = picture bs

  abbrev pub picture_of : Arrival → Picture
  picture_of nothing = waiting
  picture_of channel_closed = failed_to_retrieve
  picture_of (path_message success full_path) =
      if success then read_picture (read_file full_path) else not_found

  -- `Photo`, and `Thumbnail`, which is the same with the messages of thumbnails.
  unfoldable pub photo : Bool → Arrival → Picture
  photo written a = if written then picture_of a else not_written

  -- A client gets a picture exactly if its request is written, the engine names a file, and the file
  -- can be read, and then what is in that file.
  pub photo_iff :
      (written : Bool) (a : Arrival) (bs : Bytes)
      → (photo written a ≡ picture bs) ↔ (
          (written ≡ true)
          × (path : Text) × (a ≡ path_message true path)
          × (read_file path ≡ some bs))
  unfolding photo
  photo_iff written a bs = (forth written a, back)
    where
      from_file : (path : Text) (o : Option Bytes) → read_picture o ≡ picture bs → o ≡ some bs
      from_file path none e = cc e
      from_file path (some x) e = cc e

      forth :
          (w : Bool) (a : Arrival)
          → (if w then picture_of a else not_written) ≡ picture bs
          → (w ≡ true) × (path : Text) × (a ≡ path_message true path) × (read_file path ≡ some bs)
      forth false a e = cc e
      forth true nothing e = cc e
      forth true channel_closed e = cc e
      forth true (path_message false p) e = cc e
      forth true (path_message true p) e = (refl, p, refl, from_file p (read_file p) e)

      back :
          (written ≡ true)
            × (path : Text) × (a ≡ path_message true path)
            × (read_file path ≡ some bs)
          → (if written then picture_of a else not_written) ≡ picture bs
      back (w, p, e, r) = rw (w, e, r) refl

-- `EnableMarkerDetection`, of whether the request is written, whether it turns the detection on, and
-- whether the answer comes, which only a request that turns it on waits for.
pub data Detection : Type 0 where
  request_processing response_received not_written failed_to_retrieve waiting : Detection

pub data Answered : Type 0 where
  answered closed nothing_yet : Answered

abbrev pub detection_of : Answered → Detection
detection_of answered = response_received
detection_of closed = Detection.failed_to_retrieve
detection_of nothing_yet = Detection.waiting

unfoldable pub enable_marker_detection : Bool → Bool → Answered → Detection
enable_marker_detection written enable a =
    if written then if enable then detection_of a else request_processing else Detection.not_written
