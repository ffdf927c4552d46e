-- ===== src/Mesh/Paths/Routes.antt =====
-- The route in use against the state of the path.
use zattera_dev.Base.{
  ℕ, ◌+◌, ◌-◌, ◌≡◌, refl, sym, ap, ◌∙◌, subst, arith, Bool, true, false, not, ◌&&◌, List, [], ◌∷◌,
  Option, none, some, leb, ltb, if◌then◌else◌, is_nil, inl, inr,
}
use zattera_dev.Wire.{Bytes}
use zattera_dev.Mesh.Paths.{
  Addr, SendPath, PathKind, PeerState, Session, Config, is_relay, lose_path, ask_punch, fall_back,
  send_probes, keep_alive, escalate, evaluate_peer, handle_probe, pong_kind, step, run,
}
use zattera_dev.Mesh.Paths.Frames.{IsProbed, send_probe-IsProbed, send_probes-IsProbed}
use zattera_dev.Mesh.Paths.Pongs.{handle_probe-Judged}

-- Without a verified address packets go to the home route, or to the relay where one is wired; with one
-- they go to a UDP address that a pong verified.
abbrev pub HasRoute : Config → Option Addr → Option SendPath → Type 0
HasRoute cfg none none = Unit
HasRoute cfg none (some p) = (is_relay p.kind ≡ true) × (p.addr ≡ none) × (cfg.has_relay ≡ true)
HasRoute cfg (some _) none = ⊥
HasRoute cfg (some _) (some p) = (is_relay p.kind ≡ false) × ((a : Addr) × (p.addr ≡ some a))

abbrev pub IsRouted : Config → Session → Type 0
IsRouted cfg s = HasRoute cfg s.peer.verified_addr s.peer.cur

if_Routed :
    (cfg : Config) (b : Bool) (t u : Session)
    → (b ≡ true → IsRouted cfg t)
    → (b ≡ false → IsRouted cfg u)
    → IsRouted cfg (if b then t else u)
if_Routed cfg true t u ht hu = ht refl
if_Routed cfg false t u ht hu = hu refl

module _ (hmac : Bytes → Bytes → Bytes) (render : Addr → Bytes) (cfg : Config) where
  probed-Routed : (s t : Session) → IsProbed s t → IsRouted cfg s → IsRouted cfg t
  probed-Routed s t moved h = subst (λ p. HasRoute cfg p.verified_addr p.cur) (sym moved.peer) h

  keep_alive-Routed :
      (now : ℕ) (a : Addr) (s : Session)
      → IsRouted cfg s
      → IsRouted cfg (keep_alive hmac render cfg now a s)
  unfolding keep_alive lose_path
  keep_alive-Routed now a s h =
      if_Routed cfg (not (leb cfg.timing.keepalive_interval (now - s.peer.last_pong))) _ _ (λ _. h)
        (λ _.
          if_Routed cfg (leb cfg.timing.path_misses s.peer.misses) _ _ (λ _. tt)
            (λ _.
              let missed = record s { peer = record s.peer { misses = s.peer.misses + 1 } } in
              probed-Routed missed _ (send_probe-IsProbed hmac render cfg now a missed) h))

  ask_punch-Routed :
      (b : Bool) (now : ℕ) (s : Session) → IsRouted cfg s → IsRouted cfg (ask_punch b now s)
  unfolding ask_punch
  ask_punch-Routed true now s h = h
  ask_punch-Routed false now s h = h

  ask_punch-verified :
      (b : Bool) (now : ℕ) (s : Session)
      → (ask_punch b now s).peer.verified_addr ≡ s.peer.verified_addr
  unfolding ask_punch
  ask_punch-verified true now s = refl
  ask_punch-verified false now s = refl

  fall_back-Routed :
      (b : Bool) (s : Session)
      → s.peer.verified_addr ≡ none
      → (b ≡ true → cfg.has_relay ≡ true)
      → IsRouted cfg s
      → IsRouted cfg (fall_back b s)
  unfolding fall_back is_relay
  fall_back-Routed false s unverified wired h = h
  fall_back-Routed true s unverified wired h =
      subst (λ o. HasRoute cfg o (some (record { kind = PathKind.relay; addr = none })))
        (sym unverified) (refl, refl, wired refl)

  escalate-Routed :
      (now : ℕ) (s : Session)
      → s.peer.verified_addr ≡ none
      → IsRouted cfg s
      → IsRouted cfg (escalate hmac render cfg now s)
  unfolding escalate
  escalate-Routed now s unverified h =
      let probed = send_probes hmac render cfg now s.peer.candidates s in
      let moved = send_probes-IsProbed hmac render cfg now s.peer.candidates s in
      let due =
        cfg.has_punch
        && leb cfg.timing.punch_after (now - s.peer.unverified_at)
        && leb cfg.timing.punch_cooldown (now - s.peer.last_punch_req) in
      fall_back-Routed _ (ask_punch due now probed)
        (ask_punch-verified due now probed ∙ ap (λ p. p.verified_addr) moved.peer ∙ unverified)
        (λ e. ground (arith, e)) (ask_punch-Routed due now probed (probed-Routed s probed moved h))

  branch-Routed :
      (o : Option Addr) (now : ℕ) (s : Session)
      → s.peer.verified_addr ≡ o
      → IsRouted cfg s
      → IsRouted cfg (elim o as (λ _. Session) [
        | none ↦ escalate hmac render cfg now s
        | some addr ↦ keep_alive hmac render cfg now addr s
      ])
  branch-Routed none now s e h = escalate-Routed now s e h
  branch-Routed (some addr) now s e h = keep_alive-Routed now addr s h

  evaluate_peer-Routed :
      (now : ℕ) (s : Session) → IsRouted cfg s → IsRouted cfg (evaluate_peer hmac render cfg now s)
  unfolding evaluate_peer
  evaluate_peer-Routed now s h =
      if_Routed cfg (is_nil s.peer.key) _ _ (λ _. h)
        (λ _.
          if_Routed cfg s.peer.hub _ _ (λ _. h)
            (λ _. branch-Routed s.peer.verified_addr now s refl h))

  -- The route of a newly verified address, by what was verified before.
  verified_route :
      (old : Option Addr) (cur : Option SendPath) (src : Addr) (ps : PeerState)
      → HasRoute cfg old cur
      → HasRoute cfg (some src) (elim old as (λ _. Option SendPath) [
        | some _ ↦ cur
        | none ↦ some (record { kind = pong_kind ps; addr = some src })
      ])
  unfolding pong_kind is_relay
  verified_route none cur src ps h =
      elim (ltb 0 ps.punch_attempts)
        as (λ b.
          (is_relay (if b then PathKind.punched else PathKind.direct) ≡ false)
          × ((a : Addr) × (some src ≡ some a))) [
            | true ↦ (refl, (src, refl))
            | false ↦ (refl, (src, refl))
          ]
  verified_route (some _) none src ps h = h
  verified_route (some _) (some p) src ps h = h

  handle_probe-Routed :
      (now : ℕ) (pkt : Bytes) (src : Addr) (s : Session)
      → IsRouted cfg s
      → IsRouted cfg (handle_probe hmac render cfg now pkt src s)
  handle_probe-Routed now pkt src s h = elim (handle_probe-Judged hmac render cfg now pkt src s) [
    | inl still ↦
        subst (λ o. HasRoute cfg o (handle_probe hmac render cfg now pkt src s).peer.cur)
          (sym still.0) (subst (λ c. HasRoute cfg s.peer.verified_addr c) (sym still.1) h)
    | inr (f, probe, decoded, answer, verified) ↦
        subst (λ o. HasRoute cfg o (handle_probe hmac render cfg now pkt src s).peer.cur)
          (sym verified.0)
          (subst (λ c. HasRoute cfg (some src) c) (sym verified.2)
            (verified_route s.peer.verified_addr s.peer.cur src s.peer h))
  ]

  -- Through any sequence of the loop's ticks and of received packets, a peer without a verified address
  -- is sent to by its home route or by a relay that is wired, and a peer with one by a UDP address that
  -- is no relay: if that held at first, as it does for a new peer, it holds at the end.
  pub run-Routed :
      (es : List (ℕ × Option (Bytes × Addr))) (s : Session)
      → IsRouted cfg s
      → IsRouted cfg (run hmac render cfg es s)
  unfolding run step
  run-Routed [] s h = h
  run-Routed ((now, none) ∷ es) s h = run-Routed es _ (evaluate_peer-Routed now s h)
  run-Routed ((now, some (pkt, src)) ∷ es) s h =
      run-Routed es _ (handle_probe-Routed now pkt src s h)
