-- ===== src/Mesh/Paths/Pongs.antt =====
-- Which frames verify a path, and what a pong does to the route in use.
use zattera_dev.Base.{
  ℕ, ◌≡◌, ◌⊎◌, refl, sym, ap, ◌∙◌, subst, arith, Bool, true, false, not, ◌||◌, [], ◌∷◌, ◌++◌,
  Option, none, some, ◌==◌, any, if◌then◌else◌, if_true, if_false, is_nil, get, delete, Bool-cases,
  Option-cases, inl, inr,
}
use zattera_dev.Wire.{Bytes, Result, ok, err, bytes_eq}
use zattera_dev.Mesh.Probe.{probe_ping, probe_pong, Frame, decode_frame, verify_frame, split_pong}
use zattera_dev.Mesh.Paths.{
  Addr, SendPath, PeerState, Session, Config, PendingProbe, add_candidate, pong_kind, verify_path,
  accept_pong, answer_pong, handle_ping, handle_pong, handle_probe,
}

-- The path of the peer is the same.
abbrev pub IsStill : Session → Session → Type 0
IsStill s t = (t.peer.verified_addr ≡ s.peer.verified_addr) × (t.peer.cur ≡ s.peer.cur)

Result-cases {ℓ} :
    {E : Type 0} {A : Type ℓ} (r : Result E A) → ((e : E) × (r ≡ err e)) ⊎ ((a : A) × (r ≡ ok a))
Result-cases (ok a) = inr (a, refl)
Result-cases (err e) = inl (e, refl)

add_candidate-keeps :
    (a : Addr) (ps : PeerState)
    → ((add_candidate a ps).verified_addr ≡ ps.verified_addr) × ((add_candidate a ps).cur ≡ ps.cur)
unfolding add_candidate
add_candidate-keeps a ps =
    elim (any (λ c. c == a) ps.candidates)
      as (λ b.
        ((if b then ps else record ps { candidates = ps.candidates ++ (a ∷ []) }).verified_addr
          ≡ ps.verified_addr)
        × ((if b then ps else record ps { candidates = ps.candidates ++ (a ∷ []) }).cur ≡ ps.cur)) [
          | true ↦ (refl, refl)
          | false ↦ (refl, refl)
        ]

-- The address is verified, and the route in use changes only when no address was.
abbrev pub IsVerified : Addr → Session → Session → Type 0
IsVerified src s t =
    (t.peer.verified_addr ≡ some src)
    × (t.peer.misses ≡ 0)
    × (t.peer.cur ≡ elim s.peer.verified_addr as (λ _. Option SendPath) [
      | some _ ↦ s.peer.cur
      | none ↦ some (record { kind = pong_kind s.peer; addr = some src })
    ])

verify_path-Verified :
    (now : ℕ) (src : Addr) (s : Session) → IsVerified src s (verify_path now src s)
unfolding verify_path pong_kind
verify_path-Verified now src s = elim (Option-cases s.peer.verified_addr) [
  | inl e ↦ rw e (refl, refl, refl)
  | inr (a, e) ↦ rw e (refl, refl, refl)
]

module _ (hmac : Bytes → Bytes → Bytes) (render : Addr → Bytes) (cfg : Config) where
  if_Still :
      (b : Bool) (s t u : Session) → IsStill s t → IsStill s u → IsStill s (if b then t else u)
  if_Still true s t u ht hu = ht
  if_Still false s t u ht hu = hu

  handle_ping-Still :
      (f : Frame) (src : Addr) (s : Session) → IsStill s (handle_ping hmac render cfg f src s)
  unfolding handle_ping
  handle_ping-Still f src s =
      let added = add_candidate-keeps src s.peer in
      if_Still (not (bytes_eq f.payload s.peer.node_id)) s _ _ (refl, refl)
        (if_Still (is_nil s.peer.key || not (verify_frame hmac f.signed f.mac s.peer.key)) s _ _
          (refl, refl) (if_Still (not cfg.socket_open) s _ _ added added))

  -- The probe in flight that a frame answers.
  abbrev pub IsAnswer : Addr → Session → Frame → PendingProbe → Type 0
  IsAnswer src s f probe =
      (verify_frame hmac f.signed f.mac cfg.own_key ≡ true)
      × (get f.tx_id s.peer.pending ≡ some probe)
      × (probe.addr ≡ src)

  accept_pong-Verified :
      (now : ℕ) (probe : PendingProbe) (src : Addr) (s : Session)
      → IsStill s (accept_pong hmac render cfg now probe src s)
        ⊎ ((probe.addr ≡ src) × IsVerified src s (accept_pong hmac render cfg now probe src s))
  unfolding accept_pong
  accept_pong-Verified now probe src s = elim (Bool-cases (probe.addr == src)) [
    | inl e ↦
        let same : accept_pong hmac render cfg now probe src s ≡ verify_path now src s =
          if_true (probe.addr == src) (verify_path now src s) s e in
        inr (ground arith, subst (IsVerified src s) (sym same) (verify_path-Verified now src s))
    | inr e ↦
        let same : accept_pong hmac render cfg now probe src s ≡ s =
          if_false (probe.addr == src) (verify_path now src s) s e in
        inl (ap (λ t. t.peer.verified_addr) same, ap (λ t. t.peer.cur) same)
  ]

  -- Either nothing changed for the path, or a frame answered a probe from the probed address.
  abbrev pub IsJudged : Addr → Session → Frame → Session → Type 0
  IsJudged src s f t =
      IsStill s t ⊎ ((probe : PendingProbe) × IsAnswer src s f probe × IsVerified src s t)

  answer_pong-Judged :
      (now : ℕ) (f : Frame) (src : Addr) (s : Session)
      → verify_frame hmac f.signed f.mac cfg.own_key ≡ true
      → IsJudged src s f (answer_pong hmac render cfg now f src s)
  unfolding answer_pong pong_kind
  answer_pong-Judged now f src s signed = elim (Option-cases (get f.tx_id s.peer.pending)) [
    | inl e ↦
        let same : answer_pong hmac render cfg now f src s ≡ s = rw (e, answer_pong) refl in
        subst (IsJudged src s f) (sym same) (inl (refl, refl))
    | inr (probe, e) ↦
        let taken = record s { peer = record s.peer { pending = delete f.tx_id s.peer.pending } } in
        let same : answer_pong hmac render cfg now f src s
            ≡ accept_pong hmac render cfg now probe src taken =
          rw (e, answer_pong) refl in
        subst (IsJudged src s f) (sym same) (elim (accept_pong-Verified now probe src taken) [
          | inl still ↦ inl still
          | inr (at_src, verified) ↦ inr (probe, (signed, e, at_src), verified)
        ])
  ]

  if_Judged :
      (b : Bool) (src : Addr) (s : Session) (f : Frame) (t u : Session)
      → (b ≡ true → IsJudged src s f t)
      → (b ≡ false → IsJudged src s f u)
      → IsJudged src s f (if b then t else u)
  if_Judged true src s f t u ht hu = ht refl
  if_Judged false src s f t u ht hu = hu refl

  handle_pong-Judged :
      (now : ℕ) (f : Frame) (src : Addr) (s : Session)
      → IsJudged src s f (handle_pong hmac render cfg now f src s)
  unfolding handle_pong
  handle_pong-Judged now f src s =
      elim (split_pong f.payload)
        as (λ o.
          IsJudged src s f
            (elim o as (λ _. Session) [ none ↦ s | some (ponder_id, _) ↦ from ponder_id ])) [
              | none ↦ inl (refl, refl)
              | some (ponder_id, _) ↦
                  if_Judged (not (verify_frame hmac f.signed f.mac cfg.own_key)) src s f _ _
                    (λ e. inl (refl, refl))
                    (λ e.
                      if_Judged (bytes_eq ponder_id s.peer.node_id) src s f _ _
                        (λ same. answer_pong-Judged now f src s (ground arith))
                        (λ other. inl (refl, refl)))
            ]
    where
      from : Bytes → Session
      from ponder_id =
          if not (verify_frame hmac f.signed f.mac cfg.own_key)
          then s
          else if bytes_eq ponder_id s.peer.node_id
          then answer_pong hmac render cfg now f src s
          else s

  by_type : ℕ → Frame → Addr → Session → Session
  by_type now f src s =
      if f.typ == probe_ping
      then handle_ping hmac render cfg f src s
      else if f.typ == probe_pong
      then handle_pong hmac render cfg now f src s
      else s

  by_type-Judged :
      (now : ℕ) (f : Frame) (src : Addr) (s : Session) → IsJudged src s f (by_type now f src s)
  unfolding by_type
  by_type-Judged now f src s =
      if_Judged (f.typ == probe_ping) src s f _ _ (λ _. inl (handle_ping-Still f src s))
        (λ _.
          if_Judged (f.typ == probe_pong) src s f _ _ (λ _. handle_pong-Judged now f src s)
            (λ _. inl (refl, refl)))

  -- A received packet leaves the peer's verified address and its route as they are, unless the packet
  -- decodes to a frame whose HMAC is right under this node's own key, and answers a probe in flight from
  -- the very address that was probed: then that address is verified, the misses start again at 0, and
  -- the route moves to the address only when no address was verified before.
  pub handle_probe-Judged :
      (now : ℕ) (pkt : Bytes) (src : Addr) (s : Session)
      → IsStill s (handle_probe hmac render cfg now pkt src s)
        ⊎ ((f : Frame) × (probe : PendingProbe) × (decode_frame pkt ≡ ok f)
            × IsAnswer src s f probe
            × IsVerified src s (handle_probe hmac render cfg now pkt src s))
  unfolding handle_probe by_type
  handle_probe-Judged now pkt src s = elim (Result-cases (decode_frame pkt)) [
    | inl (e, refused) ↦
        let same : handle_probe hmac render cfg now pkt src s ≡ s =
          rw (refused, handle_probe) refl in
        inl (ap (λ t. t.peer.verified_addr) same, ap (λ t. t.peer.cur) same)
    | inr (f, decoded) ↦
        let same : handle_probe hmac render cfg now pkt src s ≡ by_type now f src s =
          rw (decoded, handle_probe) refl in
        elim (by_type-Judged now f src s) [
          | inl still ↦
              inl
                (ap (λ t. t.peer.verified_addr) same ∙ still.0, ap (λ t. t.peer.cur) same ∙ still.1)
          | inr (probe, answer, verified) ↦
              inr (f, probe, decoded, answer, subst (IsVerified src s) (sym same) verified)
        ]
  ]
