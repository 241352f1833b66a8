-- ===== src/Gateway/Connections.antt =====
-- The streams of events and the primary connection: `isMember`, `checkFilters`, `onDisconnect`,
-- `checkConnectionID` and `EventStream` of cloud/message_handler.go. What vic-switchboard answers, and
-- whether a send succeeds, are parameters.
pub mod Primary
pub mod Filters
use vic_cloudless.Prelude.{
  some, get_elem?, if◌then◌else◌, ℕ, zero, suc, ◌+◌, Bool, true, false, not, ◌&&◌, Option, none,
  List, [], ◌∷◌,
}
use vic_cloudless.Prelude.Text.{text_eq, Text}

-- The name of an event's field in its message, where it has a type, and what it says.
pub record Event : Type 0 where
  pub field_name : Option Text
  pub body : ℕ

abbrev pub is_member : Text → List Text → Bool
is_member needle [] = false
is_member needle (word ∷ haystack) =
    let later = is_member needle haystack in if text_eq word needle then true else later

abbrev pub listed : Option (List Text) → Text → Bool
listed none name = false
listed (some l) name = is_member name l

abbrev pub unlisted : Option (List Text) → Text → Bool
unlisted none name = false
unlisted (some l) name = not (is_member name l)

abbrev pub passes : Option (List Text) → Option (List Text) → Option Text → Option Bool
passes white black none = none
passes white black (some name) =
    some (if listed white name then true else if unlisted black name then true else false)

-- `checkFilters`, with the white list and the black one; `none` is the panic at an event with no type.
unfoldable pub check_filters : Event → Option (List Text) → Option (List Text) → Option Bool
check_filters e none none = some true
check_filters e (some w) black = passes (some w) black e.field_name
check_filters e none (some b) = passes none (some b) e.field_name

-- What vic-switchboard says of the connection over BLE, where it answers.
pub record Ble : Type 0 where
  pub is_connected : Bool
  pub ble_id : Text

abbrev pub is_empty : Text → Bool
is_empty [] = true
is_empty (c ∷ s) = false

abbrev pub ble_allows : Bool → Option Ble → Text → Bool
ble_allows false answer id = true
ble_allows true none id = false
ble_allows true (some b) id = not (b.is_connected && not (text_eq b.ble_id id))

-- `checkConnectionID`: the connection's id, and whether the stream is the primary one.
unfoldable pub check_connection_id : Bool → Option Ble → Text → Text → Text × Bool
check_connection_id on_robot answer connection_id id =
    if not (is_empty connection_id) && not (text_eq id connection_id)
    then (connection_id, false)
    else if ble_allows on_robot answer id
    then (id, true)
    else (connection_id, false)

-- A stream that is open.
pub record Opened : Type 0 where
  pub client_id : Text
  pub primary : Bool

-- The id that all streams share, and the streams.
pub record Gate : Type 0 where
  pub connection_id : Text
  pub streams : List Opened

-- A stream is opened, or the one at a position ends, on any path of `EventStream`.
pub data Step : Type 0 where
  connect : Text → Option Ble → Step
  disconnect : ℕ → Step

abbrev pub remove_at : {A : Type 0} → ℕ → List A → List A
remove_at k [] = []
remove_at zero (x ∷ xs) = xs
remove_at (suc k) (x ∷ xs) = x ∷ remove_at k xs

abbrev pub ended : Gate → ℕ → Option Opened → Gate
ended g k none = g
ended g k (some s) = record {
  connection_id = if s.primary then [] else g.connection_id;
  streams = remove_at k g.streams;
}

module _ (on_robot : Bool) where
  unfoldable pub step : Gate → Step → Gate
  unfolding check_connection_id
  step g (connect id answer) =
      let (connection_id, primary) = check_connection_id on_robot answer g.connection_id id in
      record {
        connection_id = connection_id;
        streams = record { client_id = id; primary = primary } ∷ g.streams;
      }
  step g (disconnect k) = ended g k (get_elem? g.streams k)

  unfoldable pub run : Gate → List Step → Gate
  unfolding step
  run g [] = g
  run g (s ∷ ss) = run (step g s) ss

-- What reaches the loop of `EventStream`.
pub data Signal : Type 0 where
  happened : Event → Signal
  ping_ticker : Signal
  channel_closed : Signal

pub data Reply : Type 0 where
  connection_response : Bool → Reply
  event_reply : Event → Reply
  keep_alive : Reply

-- How the stream stands: it waits, or it has ended.
pub data Standing : Type 0 where
  waiting send_failed closed panic : Standing

module _ (sends : Reply → ℕ → Bool)  -- whether the send of a reply succeeds, with the context alive
    (white black : Option (List Text)) where
  abbrev pub send_then : Reply → ℕ → List Reply × Standing → List Reply × Standing
  send_then r i rest = if sends r i then (r ∷ rest.0, rest.1) else (r ∷ [], send_failed)

  abbrev pub filtered :
      Event
      → ℕ
      → Option Bool
      → List Reply × Standing
      → List Reply × Standing
      → List Reply × Standing
  filtered e i none skipped rest = ([], panic)
  filtered e i (some false) skipped rest = skipped
  filtered e i (some true) skipped rest = send_then (event_reply e) i rest

  -- The loop, with the number of replies so far; a reply whose send fails is counted as tried.
  unfoldable pub stream_loop : ℕ → List Signal → List Reply × Standing
  unfolding check_filters
  stream_loop i [] = ([], waiting)
  stream_loop i (channel_closed ∷ ss) = ([], closed)
  stream_loop i (ping_ticker ∷ ss) = send_then keep_alive i (stream_loop (i + 1) ss)
  stream_loop i (happened e ∷ ss) =
      filtered e i (check_filters e white black) (stream_loop i ss) (stream_loop (i + 1) ss)

  -- `EventStream`, behind the check of the connection.
  unfoldable pub event_stream : Bool → List Signal → List Reply × Standing
  unfolding stream_loop
  event_stream primary ss = send_then (connection_response primary) 0 (stream_loop 1 ss)
