-- ===== src/Mesh/Relay/Server/Leaving.antt =====
-- A connection leaves the relay server.
use zattera_dev.Base.{
  ℕ, ◌≡◌, ◌≢◌, refl, sym, ap, ◌∙◌, subst, arith, true, false, none, some, ◌==◌, if◌then◌else◌,
  Bool-cases, Option-cases, inl, inr, if_true, if_false, get, get-put,
}
use zattera_dev.Wire.{bytes_eq}
use zattera_dev.Wire.Words.{bytes_eq→eq}
use zattera_dev.Mesh.Relay.Server.{
  RelayConn, Server, lookup, remove, update, close, is_registered, unregister,
}
use zattera_dev.Mesh.Relay.Server.Updates.{Exclusive, lookup-remove, update-none, update-some}
use zattera_dev.Mesh.Relay.Server.Joining.{update-conns, closed_after}

update_other :
    (c k : ℕ) (f : RelayConn → RelayConn) (s : Server)
    → k ≢ c
    → get k (update c f s).links ≡ get k s.links
update_other c k f s ne = elim (Option-cases (get c s.links)) [
  | inl e ↦ ap (λ t. get k t.links) (update-none c f s e)
  | inr (rc, e) ↦
      ap (λ t. get k t.links) (update-some c f s rc e) ∙ ground (arith, get-put k c (f rc) s.links)
]

-- Where every open connection but `c` is registered, closing `c` leaves every open one registered.
close_last :
    (c : ℕ) (s : Server)
    → ((k : ℕ) (rc : RelayConn)
        → k ≢ c
        → get k s.links ≡ some rc
        → rc.closed ≡ false
        → lookup rc.node_id s.conns ≡ some k)
    → Exclusive (close c s)
close_last c s h k rc found live = elim (Bool-cases (k == c)) [
  | inl e ↦
      let same : k ≡ c = ground arith in
      let dead = closed_after c s rc (ap (λ i. get i (close c s).links) (sym same) ∙ found) in
      absurd (cc (live, dead))
  | inr e ↦
      let ne : k ≢ c = ground arith in
      let kept : (close c s).conns ≡ s.conns = unfold close in update-conns c _ s in
      let was : get k s.links ≡ some rc = unfold close in sym (update_other c k _ s ne) ∙ found in
      ap (λ m. lookup rc.node_id m) kept ∙ h k rc ne was live
]

-- The other open connections of a registered one have other nodes.
others :
    (c k : ℕ) (rc other : RelayConn) (s : Server)
    → Exclusive s
    → lookup rc.node_id s.conns ≡ some c
    → k ≢ c
    → get k s.links ≡ some other
    → other.closed ≡ false
    → bytes_eq other.node_id rc.node_id ≡ false
others c k rc other s h e ne found live = elim (Bool-cases (bytes_eq other.node_id rc.node_id)) [
  | inr ne' ↦ ne'
  | inl eq ↦
      let mine : some k ≡ some c =
        sym (h k other found live)
        ∙ ap (λ i. lookup i s.conns) (bytes_eq→eq other.node_id rc.node_id eq)
        ∙ e in
      let same : k ≡ c = cc mine in absurd (ne same)
]

registered_self :
    (c : ℕ) (rc : RelayConn) (s : Server)
    → is_registered c rc s ≡ true
    → lookup rc.node_id s.conns ≡ some c
unfolding is_registered
registered_self c rc s e = elim (Option-cases (lookup rc.node_id s.conns)) [
  | inl none_there ↦ absurd (ground (arith, none_there))
  | inr (d, found) ↦ ground (arith, found)
]

not_registered :
    (c k : ℕ) (rc : RelayConn) (s : Server)
    → is_registered c rc s ≡ false
    → lookup rc.node_id s.conns ≡ some k
    → k ≢ c
unfolding is_registered
not_registered c k rc s e found = ground (arith, found)

-- The map of a leaving connection, before it is closed.
left : ℕ → RelayConn → Server → Server
left c rc s = if is_registered c rc s then record s { conns = remove rc.node_id s.conns } else s

left-Registered :
    (c : ℕ) (rc : RelayConn) (s : Server)
    → Exclusive s
    → (k : ℕ) (other : RelayConn) → k ≢ c
    → get k (left c rc s).links ≡ some other
    → other.closed ≡ false
    → lookup other.node_id (left c rc s).conns ≡ some k
unfolding left
left-Registered c rc s h k other ne found live = elim (Bool-cases (is_registered c rc s)) [
  | inr e ↦
      let same =
        if_false (is_registered c rc s) (record s { conns = remove rc.node_id s.conns }) s e in
      ap (λ t. lookup other.node_id t.conns) same
      ∙ h k other (ap (λ t. get k t.links) (sym same) ∙ found) live
  | inl e ↦
      let same =
        if_true (is_registered c rc s) (record s { conns = remove rc.node_id s.conns }) s e in
      let was : get k s.links ≡ some other = ap (λ t. get k t.links) (sym same) ∙ found in
      ap (λ t. lookup other.node_id t.conns) same
      ∙ lookup-remove other.node_id rc.node_id s.conns
          (others c k rc other s h (registered_self c rc s e) ne was live)
      ∙ h k other was live
]

unregister-none : (c : ℕ) (s : Server) → get c s.links ≡ none → unregister c s ≡ s
unfolding unregister
unregister-none c s e = rw (e, unregister) refl

unregister-some :
    (c : ℕ) (s : Server) (rc : RelayConn)
    → get c s.links ≡ some rc
    → unregister c s ≡ close c (left c rc s)
unfolding left unregister close
unregister-some c s rc e = rw (e, unregister) refl

pub unregister-Exclusive : (c : ℕ) (s : Server) → Exclusive s → Exclusive (unregister c s)
unregister-Exclusive c s h = elim (Option-cases (get c s.links)) [
  | inl e ↦ subst Exclusive (sym (unregister-none c s e)) h
  | inr (rc, e) ↦
      subst Exclusive (sym (unregister-some c s rc e))
        (close_last c (left c rc s) (left-Registered c rc s h))
]
