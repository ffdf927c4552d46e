-- ===== src/Mesh/Relay/Server.antt =====
-- internal/daemon/mesh/relay/server.go: the connections of the relay server and their write queues. A
-- connection is known by a number, so that two connections of one node differ, as their pointers do.
-- The TLS handshake and the extraction of the node id from the certificate come before `handle`.
pub mod Queues
pub mod Updates
pub mod Joining
pub mod Leaving
pub mod Exclusive
use zattera_dev.Base.{
  ℕ, zero, suc, ◌+◌, Bool, true, false, not, List, [], ◌∷◌, ◌++◌, Option, none, some, length, drop,
  ltb, ◌==◌, if◌then◌else◌, Table, get, put,
}
use zattera_dev.Wire.{Bytes, Result, ok, err, bytes_eq}
use zattera_dev.Mesh.Relay.{node_id_len, write_frame}

abbrev pub write_queue_depth : ℕ
write_queue_depth = 256

pub record Framed : Type 0 where
  pub src : Bytes
  pub payload : Bytes

pub record RelayConn : Type 0 where
  pub node_id : Bytes
  pub out : List Framed
  pub closed : Bool

-- `conns` holds the connection of each node id; `links` every connection there has been.
pub record Server : Type 0 where
  pub conns : List (Bytes × ℕ)
  pub links : Table RelayConn
  pub accepted : ℕ

unfoldable pub lookup : Bytes → List (Bytes × ℕ) → Option ℕ
lookup id [] = none
lookup id ((k, c) ∷ m) = if bytes_eq id k then some c else lookup id m

unfoldable pub remove : Bytes → List (Bytes × ℕ) → List (Bytes × ℕ)
remove id [] = []
remove id ((k, c) ∷ m) = let rest = remove id m in if bytes_eq id k then rest else (k, c) ∷ rest

abbrev pub insert : Bytes → ℕ → List (Bytes × ℕ) → List (Bytes × ℕ)
insert id c m = (id, c) ∷ remove id m

-- `rc.out <- f` of the select: refused when the channel is full.
unfoldable pub try_send : Framed → List Framed → Option (List Framed)
try_send f out = if ltb (length out) write_queue_depth then some (out ++ (f ∷ [])) else none

-- One round of enqueue: send, or drop the oldest frame and go round again.
unfoldable pub enqueue_loop : ℕ → Framed → List Framed → List Framed
enqueue_loop zero f out = out
enqueue_loop (suc fuel) f out = elim (try_send f out) [
  | some out' ↦ out'
  | none ↦ enqueue_loop fuel f (drop 1 out)
]

-- A round that drops leaves room for the next: two rounds are enough.
unfoldable pub enqueue : Framed → RelayConn → RelayConn
enqueue f rc = if rc.closed then rc else record rc { out = enqueue_loop 2 f rc.out }

-- An update of one connection.
unfoldable pub update : ℕ → (RelayConn → RelayConn) → Server → Server
update c f s = elim (get c s.links) [
  | none ↦ s
  | some rc ↦ record s { links = put c (f rc) s.links }
]

unfoldable pub close : ℕ → Server → Server
close c s = update c (λ rc. record rc { closed = true }) s

unfoldable pub register : ℕ → RelayConn → Server → Server
register c rc s =
    let s' : Server = elim (lookup rc.node_id s.conns) [ none ↦ s | some old ↦ close old s ] in
    record s' { conns = insert rc.node_id c s'.conns; links = put c rc s'.links }

-- `s.conns[rc.nodeID] == rc`.
unfoldable pub is_registered : ℕ → RelayConn → Server → Bool
is_registered c rc s = elim (lookup rc.node_id s.conns) [ none ↦ false | some d ↦ c == d ]

unfoldable pub unregister : ℕ → Server → Server
unregister c s = elim (get c s.links) [
  | none ↦ s
  | some rc ↦
      close c (if is_registered c rc s then record s { conns = remove rc.node_id s.conns } else s)
]

-- handle, up to the start of its loops: the node id must have 26 bytes.
unfoldable pub accept : Bytes → Server → Server
accept node_id s =
    if not (length node_id == node_id_len)
    then s
    else register s.accepted (record { node_id = node_id; out = []; closed = false })
        (record s { accepted = suc s.accepted })

-- The body of readLoop, for one frame read from the connection `c`.
unfoldable pub forward : ℕ → Bytes → Bytes → Server → Server
forward c dst payload s = elim (get c s.links) [
  | none ↦ s
  | some rc ↦ elim (lookup dst s.conns) [
    | none ↦ s
    | some d ↦ update d (enqueue (record { src = rc.node_id; payload = payload })) s
  ]
]

-- What writeLoop does with the frame it took: an error closes the connection.
unfoldable pub write_taken : ℕ → Framed → Server → Server × Bytes
write_taken c f s = elim (write_frame f.src f.payload) [
  | ok bytes ↦ (s, bytes)
  | err _ ↦ (close c s, [])
]

-- One round of writeLoop: the bytes it writes, if any.
unfoldable pub write_step : ℕ → Server → Server × Bytes
write_step c s = elim (get c s.links) [
  | none ↦ (s, [])
  | some rc ↦ if rc.closed then (s, []) else elim rc.out [
    | [] ↦ (s, [])
    | f ∷ rest ↦ write_taken c f (record s { links = put c (record rc { out = rest }) s.links })
  ]
]

-- What can happen at the server, in any order.
pub data Step : Type 0 where
  connects : Bytes → Step
  sends : ℕ → Bytes → Bytes → Step
  writes : ℕ → Step
  leaves : ℕ → Step

unfoldable pub step : Step → Server → Server
step (connects node_id) s = accept node_id s
step (sends c dst payload) s = forward c dst payload s
step (writes c) s = (write_step c s).0
step (leaves c) s = unregister c s

unfoldable pub run : List Step → Server → Server
run [] s = s
run (e ∷ es) s = run es (step e s)

abbrev pub new_server : Server
new_server = record { conns = []; links = []; accepted = 0 }
