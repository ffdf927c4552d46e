-- ===== src/Scheduler/Volumes/Leases.antt =====
-- The fencing leases of internal/daemon/scheduler/volumes.go: none is taken from another node that still
-- holds it, and none is renewed for a node that is down.
use zattera_dev.Base.{
  ℕ, ◌+◌, ◌≡◌, ◌⊎◌, refl, sym, ap, ◌∙◌, inl, inr, true, false, some, List, [], ◌∷◌, All, All-map,
  All-filter, arith, get, put, get-put, values, filter, Bool-cases, Option-cases, subst, ◌==◌, ◌||◌,
}
use zattera_dev.State.Types.{Ident, blank, Assignment, Volume}
use zattera_dev.State.Store.{Store, node, list_volumes, set_volume_lease}
use zattera_dev.Raft.Fsm
use zattera_dev.Raft.Fsm.{Mutation, put_volume_lease}
use zattera_dev.Raft.World.{
  World, Answer, committed, not_leader, leadership_lost, failed, Outcome, done, lost, Action,
  resume, each, settle, propose,
}
use zattera_dev.Scheduler.Helpers.{node_down}
use zattera_dev.Scheduler.Volumes.{
  lease_held_by_other, stateful_holder, new_lease, renew_lease, reconcile_leases,
}

-- Each listed volume is the one stored under its id.
abbrev pub VolumesKeyed : Store → Type 0
VolumesKeyed s = All (λ v. get v.id s.volumes ≡ some v) (values s.volumes)

-- A volume after a pass at `now`: as before but for the lease, which is as before too, or is a fresh one
-- for the volume's own node, which is up, where no other node held an unexpired one.
pub record Renewed (s : Store) (now : ℕ) (v u : Volume) : Type 0 where
  pub same : u ≡ record v { lease = u.lease }
  pub lease :
      (u.lease ≡ v.lease)
      ⊎ ((lease_held_by_other v.lease v.node_id now ≡ false)
          × (node_down s v.node_id ≡ false)
          × ((a : Assignment) × (u.lease ≡ some (new_lease v a now))))

-- Every volume of `s` has been renewed or left alone in the world `w`.
record Sound (s : Store) (now : ℕ) (w : World) : Type 0 where
  pub clock : w.now ≡ now
  pub nodes : w.store.nodes ≡ s.nodes
  pub each_volume :
      (k : Ident) (v : Volume)
      → get k s.volumes ≡ some v
      → (u : Volume) × (get k w.store.volumes ≡ some u) × Renewed s now v u

module _ (s : Store) (now : ℕ) where
  same_node_down :
      (w : World) → Sound s now w → (id : Ident) → node_down s id ≡ node_down w.store id
  unfolding node_down node
  same_node_down w h id = rw h.nodes refl

  granted_Renewed :
      (v u : Volume) (a : Assignment)
      → node_down s v.node_id ≡ false
      → lease_held_by_other v.lease v.node_id now ≡ false
      → Renewed s now v u
      → Renewed s now v (record u { lease = some (new_lease v a now) })
  granted_Renewed v u a up free r = record {
    same = ap (λ (y : Volume). record y { lease = some (new_lease v a now) }) r.same;
    lease = inr (free, up, (a, refl));
  }

  -- The volumes after the grant, one by one.
  granted_volume :
      (v u : Volume) (a : Assignment) (w : World)
      → get v.id s.volumes ≡ some v
      → node_down s v.node_id ≡ false
      → lease_held_by_other v.lease v.node_id now ≡ false
      → Sound s now w
      → Renewed s now v u
      → (k : Ident) (x : Volume) → get k s.volumes ≡ some x
      → (y : Volume) × (get k
            (put v.id (record u { lease = some (new_lease v a now) }) w.store.volumes)
          ≡ some y)
        × Renewed s now x y
  granted_volume v u a w stored up free h r k x e = elim (Bool-cases (k == v.id)) [
    | inl same ↦
        let leased : Volume = record u { lease = some (new_lease v a now) } in
        let x_is_v : v ≡ x = ground (arith, stored, e) in
        (
          leased,
          ground (arith, get-put k v.id leased w.store.volumes),
          subst (λ z. Renewed s now z leased) x_is_v (granted_Renewed v u a up free r),
        )
    | inr other ↦
        let leased : Volume = record u { lease = some (new_lease v a now) } in
        let (y, found, renewed) = h.each_volume k x e in
        (y, ground (arith, found, get-put k v.id leased w.store.volumes), renewed)
  ]

  granted_Sound :
      (v : Volume) (a : Assignment) (w : World)
      → get v.id s.volumes ≡ some v
      → node_down s v.node_id ≡ false
      → lease_held_by_other v.lease v.node_id now ≡ false
      → Sound s now w
      → Sound s now (record w { store = set_volume_lease v.id (some (new_lease v a now)) w.store })
  unfolding set_volume_lease
  granted_Sound v a w stored up free h =
      let (u, found, r) = h.each_volume v.id v stored in
      rw (found, set_volume_lease)
        (record {
          clock = h.clock;
          nodes = h.nodes;
          each_volume = granted_volume v u a w stored up free h r;
        })

  -- What raft does with a grant.
  propose-Sound :
      (v : Volume) (a : Assignment) (w : World)
      → get v.id s.volumes ≡ some v
      → node_down s v.node_id ≡ false
      → lease_held_by_other v.lease v.node_id now ≡ false
      → Sound s now w
      → Sound s now (propose (put_volume_lease v.id (some (new_lease v a now))) w).0
  unfolding propose Fsm.apply
  propose-Sound v a w stored up free h = settled (w.answers w.asked)
    where
      asked : Sound s now (record w { asked = w.asked + 1 })
      asked = record { clock = h.clock; nodes = h.nodes; each_volume = h.each_volume }

      settled :
          (answer : Answer)
          → Sound s now
              (settle answer
                (put_volume_lease v.id (some (new_lease v a now)))
                (record w { asked = w.asked + 1 })).0
      settled committed = granted_Sound v a (record w { asked = w.asked + 1 }) stored up free asked
      settled not_leader = asked
      settled leadership_lost =
          granted_Sound v a (record w { asked = w.asked + 1 }) stored up free asked
      settled failed = asked

  renew_lease-Sound :
      (v : Volume) (w : World)
      → get v.id s.volumes ≡ some v
      → Sound s now w
      → Sound s now (renew_lease v w).0
  unfolding renew_lease
  renew_lease-Sound v w stored h = elim (Bool-cases (node_down w.store v.node_id)) [
    | inl down ↦ rw (down, renew_lease) h
    | inr up ↦ elim (Option-cases (stateful_holder w.store v)) [
      | inl unheld ↦ rw (up, unheld, renew_lease) h
      | inr (a, holds) ↦ elim (Bool-cases (lease_held_by_other v.lease v.node_id w.now)) [
        | inl other ↦ rw (up, holds, other, renew_lease) h
        | inr free ↦
            rw (up, holds, free, renew_lease)
              (subst
                (λ t. Sound s now (propose (put_volume_lease v.id (some (new_lease v a t))) w).0)
                (sym h.clock)
                (propose-Sound v a w stored (same_node_down w h v.node_id ∙ up)
                  (subst (λ t. lease_held_by_other v.lease v.node_id t ≡ false) h.clock free) h))
      ]
    ]
  ]

  resume-Sound :
      (p : World × Outcome) (m : Action)
      → Sound s now p.0
      → ((u : World) → Sound s now u → Sound s now (m u).0)
      → Sound s now (resume p m).0
  resume-Sound (u, done) m h n = n u h
  resume-Sound (u, lost) m h n = h

  each-Sound :
      (vs : List Volume) (w : World)
      → All (λ v. get v.id s.volumes ≡ some v) vs
      → Sound s now w
      → Sound s now (each renew_lease vs w).0
  each-Sound [] w stored h = h
  each-Sound (v ∷ vs) w stored h =
      resume-Sound (renew_lease v w) (each renew_lease vs) (renew_lease-Sound v w stored.0 h)
        (λ u k. each-Sound vs u stored.1 k)

listed_stored :
    (s : Store) → VolumesKeyed s → All (λ v. get v.id s.volumes ≡ some v) (list_volumes s blank)
unfolding list_volumes
listed_stored s keyed =
    let test = λ (v : Volume). blank == blank || v.project_id == blank in
    All-map (λ v. (test v ≡ true) × (get v.id s.volumes ≡ some v))
      (λ v. get v.id s.volumes ≡ some v) (λ v h. h.1) (filter test (values s.volumes))
      (All-filter (λ v. get v.id s.volumes ≡ some v) test (values s.volumes) keyed)

-- A pass over the leases at the world's time leaves every volume as it was but for its lease, and
-- changes a lease only to a fresh one for the volume's own node, where that node is up and no other node
-- holds a lease that has not expired: whatever raft answers. Each volume is assumed to be stored under
-- its own id.
pub reconcile_leases-Renewed :
    (w : World) (k : Ident) (v : Volume)
    → VolumesKeyed w.store
    → get k w.store.volumes ≡ some v
    → (u : Volume) × (get k (reconcile_leases w).0.store.volumes ≡ some u)
      × Renewed w.store w.now v u
unfolding reconcile_leases
reconcile_leases-Renewed w k v keyed found =
    let start : Sound w.store w.now w = record {
      clock = refl;
      nodes = refl;
      each_volume = λ j x e. (x, e, record { same = refl; lease = inl refl });
    } in
    (each-Sound w.store w.now (list_volumes w.store blank) w (listed_stored w.store keyed)
        start).each_volume
      k v found
