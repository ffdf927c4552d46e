-- ===== src/Mesh/Paths/Frames.antt =====
-- What a probe leaves alone in a session.
use zattera_dev.Base.{ℕ, ◌≡◌, refl, ap, ◌∙◌, true, false, List, [], ◌∷◌, if◌then◌else◌, Table}
use zattera_dev.Wire.{Bytes}
use zattera_dev.Mesh.Paths.{
  Addr, PendingProbe, PeerState, Session, Config, probe_sent, send_probe, send_probes,
}

-- The same peer but for its probes in flight, and the same attribution and punch requests.
pub record IsProbed (s t : Session) : Type 0 where
  pub in_flight : Table PendingProbe
  pub peer : t.peer ≡ record s.peer { pending = in_flight }
  pub attributed : t.attributed ≡ s.attributed
  pub punch_requests : t.punch_requests ≡ s.punch_requests

module _ (hmac : Bytes → Bytes → Bytes) (render : Addr → Bytes) (cfg : Config) where
  pub send_probe-IsProbed :
      (now : ℕ) (addr : Addr) (s : Session) → IsProbed s (send_probe hmac render cfg now addr s)
  unfolding send_probe probe_sent
  send_probe-IsProbed now addr s =
      elim cfg.socket_open
        as (λ b. IsProbed s (if b then probe_sent hmac render cfg now addr s else s)) [
          | false ↦ record {
            in_flight = s.peer.pending;
            peer = refl;
            attributed = refl;
            punch_requests = refl;
          }
          | true ↦ record { in_flight = _; peer = refl; attributed = refl; punch_requests = refl }
        ]

  pub send_probes-IsProbed :
      (now : ℕ) (cs : List Addr) (s : Session) → IsProbed s (send_probes hmac render cfg now cs s)
  unfolding send_probes
  send_probes-IsProbed now [] s = record {
    in_flight = s.peer.pending;
    peer = refl;
    attributed = refl;
    punch_requests = refl;
  }
  send_probes-IsProbed now (c ∷ cs) s =
      let first = send_probe-IsProbed now c s in
      let rest = send_probes-IsProbed now cs (send_probe hmac render cfg now c s) in
      record {
        in_flight = rest.in_flight;
        peer = rest.peer ∙ ap (λ (p : PeerState). record p { pending = rest.in_flight }) first.peer;
        attributed = rest.attributed ∙ first.attributed;
        punch_requests = rest.punch_requests ∙ first.punch_requests;
      }
