-- ===== src/Mesh/Paths.antt =====
-- internal/daemon/mesh/meshsock/path.go and endpoint.go: how one peer is reached. The path manager's
-- peers share only the counter of transaction ids, so a session is one peer, the counter, the
-- datagrams sent and the addresses that are attributed to the peer. Addresses are numbers; an invalid
-- netip.AddrPort is `none`. Times are nanoseconds; the clock does not run backwards.
pub mod Frames
pub mod Keepalive
pub mod Pongs
pub mod Routes
use zattera_dev.Base.{
  ℕ, zero, suc, ◌+◌, ◌-◌, ◌*◌, ◌%◌, ◌^◌, Bool, true, false, not, ◌&&◌, ◌||◌, List, [], ◌∷◌, ◌++◌,
  Option, none, some, leb, ltb, ◌==◌, if◌then◌else◌, Table, get, put, delete, is_nil, any, filter,
}
use zattera_dev.Wire.{Bytes, Result, ok, err, bytes_eq}
use zattera_dev.Mesh.Probe.{
  probe_ping, probe_pong, Frame, decode_frame, encode_frame, verify_frame, pong_payload, split_pong,
}

abbrev pub Addr : Type 0
Addr = ℕ

abbrev pub millisecond : ℕ
millisecond = 1000000

abbrev pub minute : ℕ
minute = 60 * (1000 * millisecond)

pub data PathKind : Type 0 where
  home direct punched relay : PathKind

pub record SendPath : Type 0 where
  pub kind : PathKind
  pub addr : Option Addr

pub record Timing : Type 0 where
  pub keepalive_interval : ℕ
  pub path_misses : ℕ
  pub punch_after : ℕ
  pub punch_cooldown : ℕ
  pub relay_after : ℕ

abbrev pub default_timing : Timing
default_timing = record {
  keepalive_interval = 15000 * millisecond;
  path_misses = 3;
  punch_after = 3000 * millisecond;
  punch_cooldown = 30000 * millisecond;
  relay_after = 10000 * millisecond;
}

-- withDefaults: a knob of zero takes its default.
unfoldable pub with_defaults : Option Timing → Timing
with_defaults none = default_timing
with_defaults (some t) =
    let out = default_timing in
    record {
      keepalive_interval =
          if ltb 0 t.keepalive_interval then t.keepalive_interval else out.keepalive_interval;
      path_misses = if ltb 0 t.path_misses then t.path_misses else out.path_misses;
      punch_after = if ltb 0 t.punch_after then t.punch_after else out.punch_after;
      punch_cooldown = if ltb 0 t.punch_cooldown then t.punch_cooldown else out.punch_cooldown;
      relay_after = if ltb 0 t.relay_after then t.relay_after else out.relay_after;
    }

pub record PendingProbe : Type 0 where
  pub addr : Addr
  pub sent : ℕ

-- `cur` and `home` are the fields of the peer's Endpoint.
pub record PeerState : Type 0 where
  pub node_id : Bytes
  pub home : Option Addr
  pub cur : Option SendPath
  pub key : Bytes
  pub candidates : List Addr
  pub hub : Bool
  pub pending : Table PendingProbe
  pub verified_addr : Option Addr
  pub verified_kind : PathKind
  pub last_pong : ℕ
  pub misses : ℕ
  pub unverified_at : ℕ
  pub last_punch_req : ℕ
  pub punch_attempts : ℕ

pub record Session : Type 0 where
  pub peer : PeerState
  pub tx_seq : ℕ
  pub sent : List (Bytes × Addr)
  pub attributed : List Addr
  pub punch_requests : ℕ

-- What the daemon configures: this node's id and probe key, and which escalations are wired.
pub record Config : Type 0 where
  pub node_id : Bytes
  pub own_key : Bytes
  pub socket_open : Bool
  pub has_punch : Bool
  pub has_relay : Bool
  pub timing : Timing

-- Endpoint.current.
unfoldable pub current : PeerState → SendPath
current ps = elim ps.cur [ none ↦ record { kind = home; addr = ps.home } | some p ↦ p ]

unfoldable pub is_relay : PathKind → Bool
is_relay home = false
is_relay direct = false
is_relay punched = false
is_relay relay = true

unfoldable pub add_candidate : Addr → PeerState → PeerState
add_candidate a ps =
    if any (λ c. c == a) ps.candidates
    then ps
    else record ps { candidates = ps.candidates ++ (a ∷ []) }

-- The pending probes not older than a minute.
unfoldable pub recent : ℕ → Table PendingProbe → Table PendingProbe
recent now pending = filter (λ p. not (ltb minute (now - p.1.sent))) pending

unfoldable pub lose_path : ℕ → PeerState → PeerState
lose_path now ps = record ps { verified_addr = none; misses = 0; unverified_at = now; cur = none }

-- `go pm.requestPunch(ps)` and its bookkeeping, when the punch is due.
unfoldable pub ask_punch : Bool → ℕ → Session → Session
ask_punch false now s = s
ask_punch true now s = record s {
  peer = record s.peer { last_punch_req = now; punch_attempts = s.peer.punch_attempts + 1 };
  punch_requests = s.punch_requests + 1;
}

-- markRelay, when the relay is due.
unfoldable pub fall_back : Bool → Session → Session
fall_back false s = s
fall_back true s = record s {
  peer = record s.peer { cur = some (record { kind = relay; addr = none }) };
}

-- The kind that a path verified by a pong takes.
unfoldable pub pong_kind : PeerState → PathKind
pong_kind ps = if ltb 0 ps.punch_attempts then punched else direct

-- A pong of the probed address verifies it; markVerified follows if no address was verified.
unfoldable pub verify_path : ℕ → Addr → Session → Session
verify_path now src s =
    let kind = pong_kind s.peer in
    let verified = record s.peer {
      verified_addr = some src;
      last_pong = now;
      misses = 0;
      verified_kind = kind;
    } in
    elim s.peer.verified_addr [
      | some _ ↦ record s { peer = verified }
      | none ↦ record s {
        peer = record verified { cur = some (record { kind = kind; addr = some src }) };
        attributed = src ∷ s.attributed;
      }
    ]

-- Key, then message; and how an address is printed in a pong.
module _ (hmac : Bytes → Bytes → Bytes) (render : Addr → Bytes) (cfg : Config) where
  -- sendProbe with an open socket.
  unfoldable pub probe_sent : ℕ → Addr → Session → Session
  probe_sent now addr s =
      let tx = (s.tx_seq + 1) % 2 ^ 64 in
      let probe : PendingProbe = record { addr = addr; sent = now } in
      record s {
        tx_seq = tx;
        peer = record s.peer { pending = recent now (put tx probe s.peer.pending) };
        sent = s.sent ++ ((encode_frame hmac probe_ping tx cfg.node_id cfg.own_key, addr) ∷ []);
      }

  unfoldable pub send_probe : ℕ → Addr → Session → Session
  send_probe now addr s = if cfg.socket_open then probe_sent now addr s else s

  unfoldable pub send_probes : ℕ → List Addr → Session → Session
  send_probes now [] s = s
  send_probes now (c ∷ cs) s = send_probes now cs (send_probe now c s)

  -- The verified branch of evaluatePeer: keepalives, and the end of the path.
  unfoldable pub keep_alive : ℕ → Addr → Session → Session
  keep_alive now addr s =
      if not (leb cfg.timing.keepalive_interval (now - s.peer.last_pong))
      then s
      else if leb cfg.timing.path_misses s.peer.misses
      then record s {
        peer = lose_path now s.peer;
        attributed = filter (λ a. not (a == addr)) s.attributed;
      }
      else send_probe now addr (record s { peer = record s.peer { misses = s.peer.misses + 1 } })

  -- The unverified branch: probe every candidate, then escalate on what was read before the probes.
  unfoldable pub escalate : ℕ → Session → Session
  escalate now s =
      let since = now - s.peer.unverified_at in
      let relay_active = is_relay (current s.peer).kind in
      let punch_due =
        cfg.has_punch
        && leb cfg.timing.punch_after since
        && leb cfg.timing.punch_cooldown (now - s.peer.last_punch_req) in
      let relay_due = cfg.has_relay && not relay_active && leb cfg.timing.relay_after since in
      fall_back relay_due (ask_punch punch_due now (send_probes now s.peer.candidates s))

  unfoldable pub evaluate_peer : ℕ → Session → Session
  evaluate_peer now s =
      if is_nil s.peer.key
      then s
      else if s.peer.hub
      then s
      else elim s.peer.verified_addr [ some addr ↦ keep_alive now addr s | none ↦ escalate now s ]

  -- handleProbe on a ping of this peer.
  unfoldable pub handle_ping : Frame → Addr → Session → Session
  handle_ping f src s =
      if not (bytes_eq f.payload s.peer.node_id)
      then s
      else if is_nil s.peer.key || not (verify_frame hmac f.signed f.mac s.peer.key)
      then s
      else let s' = record s { peer = add_candidate src s.peer } in
        if not cfg.socket_open then s' else record s' {
          sent =
              s'.sent
              ++ ((
                encode_frame hmac probe_pong f.tx_id (pong_payload cfg.node_id (render src))
                    s.peer.key,
                src,
              )
                  ∷ []);
        }

  -- The pong of a probe in flight.
  unfoldable pub accept_pong : ℕ → PendingProbe → Addr → Session → Session
  accept_pong now probe src s = if probe.addr == src then verify_path now src s else s

  -- A pong of this peer: its probe is no longer in flight.
  unfoldable pub answer_pong : ℕ → Frame → Addr → Session → Session
  answer_pong now f src s = elim (get f.tx_id s.peer.pending) [
    | none ↦ s
    | some probe ↦
        accept_pong now probe src
          (record s { peer = record s.peer { pending = delete f.tx_id s.peer.pending } })
  ]

  unfoldable pub handle_pong : ℕ → Frame → Addr → Session → Session
  handle_pong now f src s = elim (split_pong f.payload) [
    | none ↦ s
    | some (ponder_id, _) ↦
        if not (verify_frame hmac f.signed f.mac cfg.own_key)
        then s
        else if bytes_eq ponder_id s.peer.node_id
        then answer_pong now f src s
        else s
  ]

  unfoldable pub handle_probe : ℕ → Bytes → Addr → Session → Session
  handle_probe now pkt src s = elim (decode_frame pkt) [
    | err _ ↦ s
    | ok f ↦
        if f.typ == probe_ping
        then handle_ping f src s
        else if f.typ == probe_pong
        then handle_pong now f src s
        else s
  ]

  -- What happens to a session: the evaluation loop's ticks and the probe frames received, at their times.
  unfoldable pub step : ℕ × Option (Bytes × Addr) → Session → Session
  step (now, none) s = evaluate_peer now s
  step (now, some (pkt, src)) s = handle_probe now pkt src s

  unfoldable pub run : List (ℕ × Option (Bytes × Addr)) → Session → Session
  run [] s = s
  run (e ∷ es) s = run es (step e s)
