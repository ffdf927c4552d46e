-- ===== src/Tests/Meshing.antt =====
-- Two nodes of a mesh: frames, the relay's connections and a peer's paths.
use zattera_dev.Base.{
  ℕ, zero, suc, ◌+◌, ◌-◌, ◌*◌, ◌%◌, ◌^◌, ◌≤◌, ◌<◌, ◌≡◌, ◌⊎◌, inl, inr, refl, arith, Bool, true,
  false, List, [], ◌∷◌, ◌++◌, Option, none, some, length, get,
}
use zattera_dev.Base.Arrays.{repeat, length-repeat}
use zattera_dev.Wire.{Bytes, ok, le, of_le, be, of_be, bytes_eq, read_full}
use zattera_dev.Wire.Words.{bytes_check}
use zattera_dev.Mesh.Relay.{short_read, write_frame, write_all, read_all}
use zattera_dev.Mesh.Relay.RoundTrip.{read_all-write_all}
use zattera_dev.Mesh.Relay.Server.{
  Framed, RelayConn, Step, connects, lookup, remove, update, close, register, accept, step, run,
  new_server,
}
use zattera_dev.Mesh.Relay.Server.Queues.{newest, enqueue_all, enqueue_all_lem}
use zattera_dev.Mesh.Relay.Server.Exclusive.{open_unique}
use zattera_dev.Mesh.Probe.{
  Frame, probe_ping, probe_pong, byte_at, unsigned_frame, decode_frame, encode_frame, verify_frame,
  pong_payload, split_pong, max_frame_len,
}
use zattera_dev.Mesh.Probe.RoundTrip.{sent, decode_frame-encode_frame, decode_frame-Authentic}
use zattera_dev.Mesh.Probe.Decoding.{max_probe_payload}
use zattera_dev.Mesh.Paths.{
  Addr, PathKind, PeerState, Session, Config, PendingProbe, default_timing, evaluate_peer,
  handle_probe, minute,
}
use zattera_dev.Mesh.Paths
use zattera_dev.Mesh.Paths.Keepalive.{ticks, IsDown, run-Down}
use zattera_dev.Mesh.Paths.Pongs.{IsStill, IsAnswer, IsVerified, handle_probe-Judged}
use zattera_dev.Mesh.Paths.Routes.{IsRouted, run-Routed}

abbrev node_a : Bytes
node_a = repeat 26 65

-- Two frames for the same node, the second without a payload.
abbrev two_frames : List (Bytes × Bytes)
two_frames = (node_a, 1 ∷ 2 ∷ 3 ∷ []) ∷ (node_a, []) ∷ []

abbrev two_frames_sent : Bytes
two_frames_sent = (node_a ++ (0 ∷ 3 ∷ 1 ∷ 2 ∷ 3 ∷ [])) ++ (node_a ++ (0 ∷ 0 ∷ []))

two_frames_written : write_all two_frames ≡ ok two_frames_sent
unfolding write_all write_frame be le
two_frames_written = refl

read_all-write_all_example : read_all two_frames_sent ≡ (two_frames, some short_read)
read_all-write_all_example =
    read_all-write_all two_frames two_frames_sent ((refl, omega arith), ((refl, omega arith), tt))
      two_frames_written

abbrev datagram : ℕ → Framed
datagram n = record { src = node_a; payload = n ∷ [] }

abbrev connection : RelayConn
connection = record { node_id = node_a; out = datagram 1 ∷ []; closed = false }

enqueue_all_lem_example :
    let fs = datagram 2 ∷ datagram 3 ∷ [] in
    ((enqueue_all fs connection).out ≡ newest (connection.out ++ fs))
    × (length (enqueue_all fs connection).out ≤ 256)
    × ((enqueue_all fs connection).closed ≡ false)
enqueue_all_lem_example =
    enqueue_all_lem (datagram 2 ∷ datagram 3 ∷ []) connection (omega arith) refl

-- The node connects a second time: the first connection is closed.
abbrev reconnects : List Step
reconnects = connects node_a ∷ connects node_a ∷ []

abbrev fresh_connection : RelayConn
fresh_connection = record { node_id = node_a; out = []; closed = false }

reconnected : get 1 (run reconnects new_server).links ≡ some fresh_connection
unfolding run step accept register close update lookup remove get zattera_dev.Base.put bytes_eq
reconnected = refl

abbrev second : ℕ
second = 1

open_unique_example :
    (second ≡ second) × (lookup node_a (run reconnects new_server).conns ≡ some second)
open_unique_example =
    open_unique reconnects second second fresh_connection fresh_connection reconnected reconnected
      refl refl refl

-- A stand-in for HMAC-SHA256: 32 bytes that depend on the message.
abbrev digest : Bytes → Bytes → Bytes
digest key message = repeat 32 (length message % 256)

digest_len : (key message : Bytes) → length (digest key message) ≡ 32
digest_len key message = length-repeat 32 (length message % 256)

abbrev own_key : Bytes
own_key = 9 ∷ 8 ∷ []

decode_frame-encode_frame_example :
    (length (encode_frame digest probe_ping 7 (1 ∷ 2 ∷ []) own_key) ≤ max_frame_len)
    × (decode_frame (encode_frame digest probe_ping 7 (1 ∷ 2 ∷ []) own_key)
        ≡ ok (sent digest digest_len probe_ping 7 (1 ∷ 2 ∷ []) own_key))
    × (verify_frame digest
          (sent digest digest_len probe_ping 7 (1 ∷ 2 ∷ []) own_key).signed
          (sent digest digest_len probe_ping 7 (1 ∷ 2 ∷ []) own_key).mac
          own_key
        ≡ true)
decode_frame-encode_frame_example =
    decode_frame-encode_frame digest digest_len probe_ping 7 (1 ∷ 2 ∷ []) own_key (omega arith)
      (omega arith)

-- A pong of the peer 3, that saw this node at the address 4.
abbrev pong : Bytes
pong = encode_frame digest probe_pong 7 (pong_payload (3 ∷ []) (4 ∷ [])) own_key

abbrev pong_frame : Frame
pong_frame = sent digest digest_len probe_pong 7 (3 ∷ 124 ∷ 4 ∷ []) own_key

pong-IsBytes : zattera_dev.Wire.IsBytes pong
unfolding encode_frame unsigned_frame be le pong_payload
pong-IsBytes = bytes_check pong refl

pong_decoded : decode_frame pong ≡ ok pong_frame
unfolding decode_frame encode_frame unsigned_frame be le of_be of_le byte_at pong_payload
pong_decoded = refl

pong_verified : verify_frame digest pong_frame.signed pong_frame.mac own_key ≡ true
unfolding verify_frame unsigned_frame be le bytes_eq
pong_verified = refl

decode_frame-Authentic_example :
    (pong ≡ encode_frame digest probe_pong 7 (3 ∷ 124 ∷ 4 ∷ []) own_key)
    × (3 ≤ max_probe_payload)
    × (7 < 2 ^ 64)
decode_frame-Authentic_example =
    decode_frame-Authentic digest pong own_key pong_frame pong-IsBytes pong_decoded pong_verified

abbrev render : Addr → Bytes
render a = a ∷ []

abbrev config : Config
config = record {
  node_id = 2 ∷ [];
  own_key = own_key;
  socket_open = true;
  has_punch = true;
  has_relay = true;
  timing = default_timing;
}

-- A peer at the address 44, that has missed two keepalives.
abbrev peer : PeerState
peer = record {
  node_id = 3 ∷ [];
  home = none;
  cur = some (record { kind = PathKind.direct; addr = some 44 });
  key = 5 ∷ [];
  candidates = 44 ∷ 45 ∷ [];
  hub = false;
  pending = (7, record { addr = 45; sent = 0 }) ∷ [];
  verified_addr = some 44;
  verified_kind = PathKind.direct;
  last_pong = 0;
  misses = 2;
  unverified_at = 0;
  last_punch_req = 0;
  punch_attempts = 0;
}

abbrev session : Session
session = record { peer = peer; tx_seq = 7; sent = []; attributed = 44 ∷ []; punch_requests = 0 }

run-Down_example :
    IsDown digest render config 44 (
      Paths.run digest render config
        (ticks digest render config (minute ∷ 2 * minute ∷ []))
        session)
run-Down_example =
    run-Down digest render config 1 (minute ∷ 2 * minute ∷ []) 44 session (refl, refl, refl) refl
      refl (omega arith, (omega arith, tt))

-- The pong of a probe of another address, while 44 is verified.
handle_probe-Judged_example :
    IsStill session (handle_probe digest render config minute pong 45 session)
    ⊎ ((f : Frame) × (probe : PendingProbe) × (decode_frame pong ≡ ok f)
        × IsAnswer digest render config 45 session f probe
        × IsVerified 45 session (handle_probe digest render config minute pong 45 session))
handle_probe-Judged_example = handle_probe-Judged digest render config minute pong 45 session

run-Routed_example :
    IsRouted config
      (Paths.run digest render config ((minute, none) ∷ (2 * minute, some (pong, 45)) ∷ []) session)
unfolding zattera_dev.Mesh.Paths.is_relay
run-Routed_example =
    run-Routed digest render config ((minute, none) ∷ (2 * minute, some (pong, 45)) ∷ []) session
      (refl, (44, refl))

-- The address 45 is then the verified one, and packets still go to 44.
stale_route :
    let s = handle_probe digest render config minute pong 45 session in
    (s.peer.verified_addr ≡ some 45) × (s.peer.cur ≡ peer.cur)
unfolding handle_probe Paths.handle_pong Paths.answer_pong Paths.accept_pong Paths.verify_path
    decode_frame encode_frame unsigned_frame be le of_be of_le byte_at pong_payload split_pong
    verify_frame bytes_eq get
stale_route = (refl, refl)
