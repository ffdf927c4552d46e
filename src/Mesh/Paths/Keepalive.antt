-- ===== src/Mesh/Paths/Keepalive.antt =====
-- A UDP path whose keepalives stay unanswered is given up.
use zattera_dev.Base.{
  ℕ, zero, suc, ◌+◌, ◌-◌, ◌≤◌, ◌<◌, ◌≡◌, refl, sym, ap, ◌∙◌, subst, arith, false, not, List, [],
  ◌∷◌, Option, none, some, leb, ◌==◌, filter, length, map, All, if_true, if_false, is_nil,
}
use zattera_dev.Wire.{Bytes}
use zattera_dev.Mesh.Paths.{
  Addr, PeerState, Session, Config, lose_path, send_probe, keep_alive, escalate, evaluate_peer,
  step, run,
}
use zattera_dev.Mesh.Paths.Frames.{send_probe-IsProbed}

module _ (hmac : Bytes → Bytes → Bytes) (render : Addr → Bytes) (cfg : Config) where
  -- A peer whose identity is known, that is no hub, with a verified path to `a`.
  abbrev IsEstablished : Addr → PeerState → Type 0
  IsEstablished a ps = (is_nil ps.key ≡ false) × (ps.hub ≡ false) × (ps.verified_addr ≡ some a)

  -- A keepalive is due.
  abbrev IsDue : PeerState → ℕ → Type 0
  IsDue ps now = cfg.timing.keepalive_interval ≤ now - ps.last_pong

  evaluate_verified :
      (now : ℕ) (a : Addr) (s : Session)
      → IsEstablished a s.peer
      → evaluate_peer hmac render cfg now s ≡ keep_alive hmac render cfg now a s
  unfolding evaluate_peer
  evaluate_verified now a s (known, spoke, path) =
      if_false (is_nil s.peer.key) _ _ known
      ∙ if_false s.peer.hub _ _ spoke
      ∙ ap
          (λ o. elim o as (λ (_ : Option Addr). Session) [
            | some addr ↦ keep_alive hmac render cfg now addr s
            | none ↦ escalate hmac render cfg now s
          ])
          path

  -- The session whose path is given up.
  abbrev lost : ℕ → Addr → Session → Session
  lost now a s = record s {
    peer = lose_path now s.peer;
    attributed = filter (λ b. not (b == a)) s.attributed;
  }

  abbrev missed : Session → Session
  missed s = record s { peer = record s.peer { misses = s.peer.misses + 1 } }

  keep_alive-lost :
      (now : ℕ) (a : Addr) (s : Session)
      → IsDue s.peer now
      → cfg.timing.path_misses ≤ s.peer.misses
      → keep_alive hmac render cfg now a s ≡ lost now a s
  unfolding keep_alive
  keep_alive-lost now a s due h =
      if_false (not (leb cfg.timing.keepalive_interval (now - s.peer.last_pong))) _ _ (ground arith)
      ∙ if_true (leb cfg.timing.path_misses s.peer.misses) _ _ (ground arith)

  keep_alive-missed :
      (now : ℕ) (a : Addr) (s : Session)
      → IsDue s.peer now
      → s.peer.misses < cfg.timing.path_misses
      → keep_alive hmac render cfg now a s ≡ send_probe hmac render cfg now a (missed s)
  unfolding keep_alive
  keep_alive-missed now a s due h =
      if_false (not (leb cfg.timing.keepalive_interval (now - s.peer.last_pong))) _ _ (ground arith)
      ∙ if_false (leb cfg.timing.path_misses s.peer.misses) _ _ (ground arith)

  abbrev pub ticks : List ℕ → List (ℕ × Option (Bytes × Addr))
  ticks = map (λ t. (t, none))

  abbrev pub IsDown : Addr → Session → Type 0
  IsDown a s =
      (s.peer.verified_addr ≡ none) × (s.peer.cur ≡ none) × All (λ b. (b == a) ≡ false) s.attributed

  others_left :
      (a : Addr) (addrs : List Addr)
      → All (λ b. (b == a) ≡ false) (filter (λ b. not (b == a)) addrs)
  others_left a [] = tt
  others_left a (b ∷ addrs) = let rest = others_left a addrs in ground (arith, rest)

  -- A peer that is no hub has a verified path to an address, and `n` more misses are allowed. When the
  -- loop evaluates it n + 1 times with a keepalive due each time and no pong arrives in between, the
  -- path is given up at the last: no address is verified, packets go to the home route again, and none
  -- is attributed to the peer by the address.
  pub run-Down :
      (n : ℕ) (ts : List ℕ) (a : Addr) (s : Session)
      → IsEstablished a s.peer
      → s.peer.misses + n ≡ cfg.timing.path_misses
      → length ts ≡ suc n
      → All (IsDue s.peer) ts
      → IsDown a (run hmac render cfg (ticks ts) s)
  unfolding run step
  run-Down n [] a s est count len due = absurd (omega arith)
  run-Down zero (t ∷ []) a s est count len due =
      subst (IsDown a)
        (sym (evaluate_verified t a s est ∙ keep_alive-lost t a s due.0 (omega arith)))
        (unfold lose_path in (refl, refl, others_left a s.attributed))
  run-Down zero (t ∷ u ∷ ts) a s est count len due = absurd (omega arith)
  run-Down (suc n) (t ∷ ts) a s est count len due =
      let next = send_probe hmac render cfg t a (missed s) in
      let moved = send_probe-IsProbed hmac render cfg t a (missed s) in
      let kept = moved.peer in
      subst (λ s'. IsDown a (run hmac render cfg (ticks ts) s'))
        (sym (evaluate_verified t a s est ∙ keep_alive-missed t a s due.0 (omega arith)))
        (run-Down n ts a next (subst (IsEstablished a) (sym kept) est)
          (omega (arith, ap (λ p. p.misses) kept)) (omega arith)
          (subst (λ p. All (IsDue p) ts) (sym kept) due.1))
