-- ===== src/Mesh/Relay/Server/Updates.antt =====
-- Updates of one connection of the relay server, and what they keep of the registry.
use zattera_dev.Base.{
  ℕ, ◌≡◌, ◌≢◌, ◌⊎◌, refl, sym, ap, ◌∙◌, subst, arith, false, List, [], ◌∷◌, none, some, Bool-cases,
  Option-cases, inl, inr, if_true, if_false, Table, get, put, get-put,
}
use zattera_dev.Wire.{Bytes, bytes_eq}
use zattera_dev.Wire.Words.{bytes_eq_refl, bytes_eq→eq}
use zattera_dev.Mesh.Relay.Server.{
  Framed, RelayConn, Server, lookup, remove, insert, enqueue, update, close,
}

-- Every open connection is the one registered for its node.
abbrev pub Exclusive : Server → Type 0
Exclusive s =
    (c : ℕ) (rc : RelayConn)
    → get c s.links ≡ some rc
    → rc.closed ≡ false
    → lookup rc.node_id s.conns ≡ some c

pub lookup-remove :
    (i id : Bytes) (m : List (Bytes × ℕ))
    → bytes_eq i id ≡ false
    → lookup i (remove id m) ≡ lookup i m
unfolding lookup remove
lookup-remove i id [] h = refl
lookup-remove i id ((k, c) ∷ m) h = elim (Bool-cases (bytes_eq id k)) [
  | inl e ↦
      let other : bytes_eq i k ≡ false = ap (bytes_eq i) (sym (bytes_eq→eq id k e)) ∙ h in
      rw (e, other) (lookup-remove i id m h)
  | inr e ↦ rw (e, lookup-remove i id m h) refl
]

pub lookup-insert_self :
    (id : Bytes) (c : ℕ) (m : List (Bytes × ℕ)) → lookup id (insert id c m) ≡ some c
unfolding lookup
lookup-insert_self id c m = rw (bytes_eq_refl id) refl

pub lookup-insert_ne :
    (i id : Bytes) (c : ℕ) (m : List (Bytes × ℕ))
    → bytes_eq i id ≡ false
    → lookup i (insert id c m) ≡ lookup i m
unfolding lookup
lookup-insert_ne i id c m h = rw h (lookup-remove i id m h)

-- A change of a connection that keeps its node and opens nothing.
abbrev IsClosing : (RelayConn → RelayConn) → Type 0
IsClosing f =
    (rc : RelayConn) → ((f rc).node_id ≡ rc.node_id) × ((f rc).closed ≡ false → rc.closed ≡ false)

pub update-none :
    (c : ℕ) (f : RelayConn → RelayConn) (s : Server) → get c s.links ≡ none → update c f s ≡ s
unfolding update
update-none c f s e = rw (e, update) refl

pub update-some :
    (c : ℕ) (f : RelayConn → RelayConn) (s : Server) (rc : RelayConn)
    → get c s.links ≡ some rc
    → update c f s ≡ record s { links = put c (f rc) s.links }
unfolding update
update-some c f s rc e = rw (e, update) refl

-- The entry of the changed connection, or one as it was.
pub changed :
    (c k : ℕ) (rc other : RelayConn) (t : Table RelayConn)
    → get k (put c rc t) ≡ some other
    → ((k ≡ c) × (rc ≡ other)) ⊎ ((k ≢ c) × (get k t ≡ some other))
changed c k rc other t e = ground (arith, get-put k c rc t)

pub put-Exclusive :
    (c : ℕ) (f : RelayConn → RelayConn) (s : Server) (rc : RelayConn)
    → get c s.links ≡ some rc
    → IsClosing f
    → Exclusive s
    → Exclusive (record s { links = put c (f rc) s.links })
put-Exclusive c f s rc e hf h k other found live = elim (changed c k (f rc) other s.links found) [
  | inr (_, was) ↦ h k other was live
  | inl (same, eq) ↦
      let live' : (f rc).closed ≡ false = ap (λ r. r.closed) eq ∙ live in
      ap (λ r. lookup r.node_id s.conns) (sym eq)
      ∙ ap (λ i. lookup i s.conns) (hf rc).0
      ∙ h c rc e ((hf rc).1 live')
      ∙ ap some (sym same)
]

pub update-Exclusive :
    (c : ℕ) (f : RelayConn → RelayConn) (s : Server)
    → IsClosing f
    → Exclusive s
    → Exclusive (update c f s)
update-Exclusive c f s hf h = elim (Option-cases (get c s.links)) [
  | inl e ↦ subst Exclusive (sym (update-none c f s e)) h
  | inr (rc, e) ↦ subst Exclusive (sym (update-some c f s rc e)) (put-Exclusive c f s rc e hf h)
]

pub enqueue-IsClosing : (f : Framed) → IsClosing (enqueue f)
unfolding enqueue
enqueue-IsClosing f rc = elim (Bool-cases rc.closed) [
  | inl e ↦
      let same = if_true rc.closed rc _ e in
      (ap (λ r. r.node_id) same, λ h. ap (λ r. r.closed) (sym same) ∙ h)
  | inr e ↦ let same = if_false rc.closed rc _ e in (ap (λ r. r.node_id) same, λ h. e)
]

pub close-Exclusive : (c : ℕ) (s : Server) → Exclusive s → Exclusive (close c s)
unfolding close
close-Exclusive c s h = update-Exclusive c _ s (λ rc. (refl, λ e. absurd (cc e))) h
