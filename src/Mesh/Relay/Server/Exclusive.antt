-- ===== src/Mesh/Relay/Server/Exclusive.antt =====
-- A node has at most one open connection at the relay: a later one closes the one before.
use zattera_dev.Base.{
  ℕ, suc, ◌≡◌, refl, sym, ap, ◌∙◌, subst, true, false, not, List, [], ◌∷◌, Option, none, some,
  length, ◌==◌, if◌then◌else◌, Option-cases, inl, inr, get, put,
}
use zattera_dev.Wire.{Bytes, ok, err}
use zattera_dev.Mesh.Relay.{node_id_len, write_frame}
use zattera_dev.Mesh.Relay.Server.{
  Framed, RelayConn, Server, lookup, enqueue, update, close, register, accept, forward, write_taken,
  write_step, Step, connects, sends, writes, leaves, step, run, new_server,
}
use zattera_dev.Mesh.Relay.Server.Updates.{
  Exclusive, put-Exclusive, update-Exclusive, enqueue-IsClosing, close-Exclusive,
}
use zattera_dev.Mesh.Relay.Server.Joining.{register-Exclusive}
use zattera_dev.Mesh.Relay.Server.Leaving.{unregister-Exclusive}

accept-Exclusive : (id : Bytes) (s : Server) → Exclusive s → Exclusive (accept id s)
unfolding accept
accept-Exclusive id s h =
    elim (not (length id == node_id_len)) as (λ b. Exclusive (if b then s else entered)) [
      | true ↦ h
      | false ↦ register-Exclusive s.accepted _ _ h
    ]
  where
    entered : Server
    entered =
        register s.accepted (record { node_id = id; out = []; closed = false })
          (record s { accepted = suc s.accepted })

forward-Exclusive :
    (c : ℕ) (dst payload : Bytes) (s : Server) → Exclusive s → Exclusive (forward c dst payload s)
unfolding forward
forward-Exclusive c dst payload s h =
    elim (get c s.links)
      as (λ o. Exclusive (elim o [ none ↦ s | some rc ↦ to rc (lookup dst s.conns) ])) [
        | none ↦ h
        | some rc ↦ queued rc (lookup dst s.conns)
      ]
  where
    to : RelayConn → Option ℕ → Server
    to rc o = elim o [
      | none ↦ s
      | some d ↦ update d (enqueue (record { src = rc.node_id; payload = payload })) s
    ]

    queued : (rc : RelayConn) (o : Option ℕ) → Exclusive (to rc o)
    queued rc none = h
    queued rc (some d) = update-Exclusive d _ s (enqueue-IsClosing _) h

write_taken-Exclusive :
    (c : ℕ) (f : Framed) (s : Server) → Exclusive s → Exclusive (write_taken c f s).0
unfolding write_taken
write_taken-Exclusive c f s h =
    elim (write_frame f.src f.payload)
      as (λ r.
        Exclusive
          (elim r as (λ _. Server × Bytes) [ ok bytes ↦ (s, bytes) | err _ ↦ (close c s, []) ]).0) [
            | ok bytes ↦ h
            | err _ ↦ close-Exclusive c s h
          ]

-- One round of writeLoop on a connection.
write_conn : ℕ → RelayConn → Server → Server × Bytes
write_conn c rc s = if rc.closed then (s, []) else elim rc.out [
  | [] ↦ (s, [])
  | f ∷ rest ↦ write_taken c f (record s { links = put c (record rc { out = rest }) s.links })
]

write_conn-Exclusive :
    (c : ℕ) (rc : RelayConn) (s : Server)
    → get c s.links ≡ some rc
    → Exclusive s
    → Exclusive (write_conn c rc s).0
unfolding write_conn
write_conn-Exclusive c rc s e h =
    elim rc.closed as (λ b. Exclusive (if b then (s, []) else some_out rc.out).0) [
      | true ↦ h
      | false ↦ taken rc.out
    ]
  where
    some_out : List Framed → Server × Bytes
    some_out out = elim out [
      | [] ↦ (s, [])
      | f ∷ rest ↦ write_taken c f (record s { links = put c (record rc { out = rest }) s.links })
    ]

    taken : (out : List Framed) → Exclusive (some_out out).0
    taken [] = h
    taken (f ∷ rest) =
        write_taken-Exclusive c f _
          (put-Exclusive c (λ r. record r { out = rest }) s rc e (λ r. (refl, λ live. live)) h)

write_none : (c : ℕ) (s : Server) → get c s.links ≡ none → write_step c s ≡ (s, [])
unfolding write_step
write_none c s e = rw (e, write_step) refl

write_some :
    (c : ℕ) (s : Server) (rc : RelayConn)
    → get c s.links ≡ some rc
    → write_step c s ≡ write_conn c rc s
unfolding write_step write_conn
write_some c s rc e = rw (e, write_step) refl

write_step-Exclusive : (c : ℕ) (s : Server) → Exclusive s → Exclusive (write_step c s).0
write_step-Exclusive c s h = elim (Option-cases (get c s.links)) [
  | inl e ↦ subst (λ r. Exclusive r.0) (sym (write_none c s e)) h
  | inr (rc, e) ↦
      subst (λ r. Exclusive r.0) (sym (write_some c s rc e)) (write_conn-Exclusive c rc s e h)
]

run-Exclusive : (es : List Step) (s : Server) → Exclusive s → Exclusive (run es s)
unfolding run step
run-Exclusive [] s h = h
run-Exclusive (connects id ∷ es) s h = run-Exclusive es _ (accept-Exclusive id s h)
run-Exclusive (sends c dst payload ∷ es) s h =
    run-Exclusive es _ (forward-Exclusive c dst payload s h)
run-Exclusive (writes c ∷ es) s h = run-Exclusive es _ (write_step-Exclusive c s h)
run-Exclusive (leaves c ∷ es) s h = run-Exclusive es _ (unregister-Exclusive c s h)

new_server-Exclusive : Exclusive new_server
unfolding get
new_server-Exclusive c rc found live = absurd (cc found)

-- After any sequence of steps of a new relay server (nodes connecting, their frames forwarded, queues
-- written out, connections leaving), two connections of the same node that are both open are one
-- connection, and it is the one that frames for the node go to.
pub open_unique :
    (es : List Step) (c d : ℕ) (rc other : RelayConn)
    → get c (run es new_server).links ≡ some rc
    → get d (run es new_server).links ≡ some other
    → rc.closed ≡ false
    → other.closed ≡ false
    → rc.node_id ≡ other.node_id
    → (c ≡ d) × (lookup rc.node_id (run es new_server).conns ≡ some c)
open_unique es c d rc other found_c found_d live_c live_d same =
    let h = run-Exclusive es new_server new_server-Exclusive in
    let at_c = h c rc found_c live_c in
    let at_d = h d other found_d live_d in
    let both : some c ≡ some d =
      sym at_c ∙ ap (λ i. lookup i (run es new_server).conns) same ∙ at_d in
    (cc both, at_c)
