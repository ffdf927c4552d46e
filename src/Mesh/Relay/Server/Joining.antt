-- ===== src/Mesh/Relay/Server/Joining.antt =====
-- A node connects to the relay server: the connection it had is closed.
use zattera_dev.Base.{
  ℕ, ◌≡◌, refl, sym, ap, ◌∙◌, subst, true, false, none, some, Bool-cases, Option-cases, inl, inr,
  get, put,
}
use zattera_dev.Wire.{Bytes, bytes_eq}
use zattera_dev.Wire.Words.{bytes_eq→eq}
use zattera_dev.Mesh.Relay.Server.{RelayConn, Server, lookup, insert, update, close, register}
use zattera_dev.Mesh.Relay.Server.Updates.{
  Exclusive, lookup-insert_self, lookup-insert_ne, update-none, update-some, changed,
  close-Exclusive,
}

-- No open connection is registered for the node.
abbrev Absent : Bytes → Server → Type 0
Absent id s =
    (c : ℕ) (rc : RelayConn)
    → get c s.links ≡ some rc
    → rc.closed ≡ false
    → bytes_eq rc.node_id id ≡ false

-- What `register` does once the node's previous connection is closed.
abbrev enter : ℕ → RelayConn → Server → Server
enter c rc s = record s { conns = insert rc.node_id c s.conns; links = put c rc s.links }

enter-Exclusive :
    (c : ℕ) (rc : RelayConn) (s : Server)
    → Exclusive s
    → Absent rc.node_id s
    → Exclusive (enter c rc s)
enter-Exclusive c rc s h gone k other found live = elim (changed c k rc other s.links found) [
  | inl (same, eq) ↦
      ap (λ r. lookup r.node_id (insert rc.node_id c s.conns)) (sym eq)
      ∙ lookup-insert_self rc.node_id c s.conns
      ∙ ap some (sym same)
  | inr (_, was) ↦
      lookup-insert_ne other.node_id rc.node_id c s.conns (gone k other was live)
      ∙ h k other was live
]

pub update-conns : (c : ℕ) (f : RelayConn → RelayConn) (s : Server) → (update c f s).conns ≡ s.conns
update-conns c f s = elim (Option-cases (get c s.links)) [
  | inl e ↦ ap (λ t. t.conns) (update-none c f s e)
  | inr (rc, e) ↦ ap (λ t. t.conns) (update-some c f s rc e)
]

pub closed_after :
    (c : ℕ) (s : Server) (rc : RelayConn) → get c (close c s).links ≡ some rc → rc.closed ≡ true
unfolding close
closed_after c s rc found = elim (Option-cases (get c s.links)) [
  | inl e ↦
      let was : get c s.links ≡ some rc =
        ap (λ t. get c t.links) (sym (update-none c _ s e)) ∙ found in
      absurd (cc (e, was))
  | inr (was, e) ↦
      let now : get c (put c (record was { closed = true }) s.links) ≡ some rc =
        ap (λ t. get c t.links) (sym (update-some c _ s was e)) ∙ found in
      elim (changed c c (record was { closed = true }) rc s.links now) [
        | inl (_, eq) ↦ ap (λ r. r.closed) (sym eq)
        | inr (ne, _) ↦ absurd (ne refl)
      ]
]

-- Closing the registered connection leaves no open one of its node.
close-Absent :
    (id : Bytes) (old : ℕ) (s : Server)
    → Exclusive s
    → lookup id s.conns ≡ some old
    → Absent id (close old s)
close-Absent id old s h e c rc found live = elim (Bool-cases (bytes_eq rc.node_id id)) [
  | inr ne ↦ ne
  | inl eq ↦
      let kept : (close old s).conns ≡ s.conns = unfold close in update-conns old _ s in
      let mine = close-Exclusive old s h c rc found live in
      let own : some c ≡ some old =
        sym mine
        ∙ ap (λ m. lookup rc.node_id m) kept
        ∙ ap (λ i. lookup i s.conns) (bytes_eq→eq rc.node_id id eq)
        ∙ e in
      let same : c ≡ old = cc own in
      let dead = closed_after old s rc (ap (λ k. get k (close old s).links) (sym same) ∙ found) in
      absurd (cc (live, dead))
]

none-Absent : (id : Bytes) (s : Server) → Exclusive s → lookup id s.conns ≡ none → Absent id s
none-Absent id s h e c rc found live = elim (Bool-cases (bytes_eq rc.node_id id)) [
  | inr ne ↦ ne
  | inl eq ↦
      let mine : lookup id s.conns ≡ some c =
        ap (λ i. lookup i s.conns) (sym (bytes_eq→eq rc.node_id id eq)) ∙ h c rc found live in
      absurd (cc (e, mine))
]

pub register-Exclusive :
    (c : ℕ) (rc : RelayConn) (s : Server) → Exclusive s → Exclusive (register c rc s)
register-Exclusive c rc s h = elim (Option-cases (lookup rc.node_id s.conns)) [
  | inl e ↦
      let same : register c rc s ≡ enter c rc s = unfold register in rw e refl in
      subst Exclusive (sym same) (enter-Exclusive c rc s h (none-Absent rc.node_id s h e))
  | inr (old, e) ↦
      let same : register c rc s ≡ enter c rc (close old s) = unfold register in rw e refl in
      subst Exclusive (sym same) (
        enter-Exclusive c rc (close old s) (close-Exclusive old s h)
          (close-Absent rc.node_id old s h e))
]
