-- ===== src/Ipc/Tests.antt =====
-- Messages between processes on concrete input.
use vic_cloudless.Prelude.{drop, take, concat, ℕ, ◌≡◌, false, some, List, [], ◌∷◌, ◌++◌, map, arith}
use vic_cloudless.Ipc.Datagram.{Packet, cut, conn_packet, given, written, run, run-written}
use vic_cloudless.Ipc.Framing.{frame, read, read_all, read-frame, read_all-frames}
use vic_cloudless.Ipc.Multi.{Clients}

abbrev message : List ℕ
message = 1 ∷ 2 ∷ 3 ∷ []

-- A buffer of two bytes: the third stays in the stream.
read-frame_example :
    read 2 9 (frame message ++ 8 ∷ []) ≡ some (take 2 message, drop 2 message ++ 8 ∷ [])
read-frame_example = read-frame 2 9 message (8 ∷ []) (omega arith)

read_all-frames_example :
    read_all 9 9 2 (concat (map frame (message ∷ message ∷ []))) ≡ some (message ∷ message ∷ [])
read_all-frames_example =
    read_all-frames 9 9 (message ∷ message ∷ [])
      ((omega arith, omega arith, omega arith), ((omega arith, omega arith, omega arith), tt))

abbrev two_clients : Clients
two_clients = (7 ∷ [], 1) ∷ (8 ∷ [], 2) ∷ []

-- Data before the connection, then the connection and data.
abbrev packets : List Packet
packets =
    record { address = 3; payload = message }
    ∷ record { address = 3; payload = conn_packet }
    ∷ record { address = 3; payload = message }
    ∷ []

run-written_example : given 3 (run [] packets) ≡ written 3 false (map cut packets)
run-written_example = run-written 3 packets
