-- ===== src/Scheduler/Volumes.antt =====
-- internal/daemon/scheduler/volumes.go: the volumes of stateful services and the leases that fence them.
pub mod Leases
use zattera_dev.Base.{
  ℕ, ◌+◌, ◌*◌, Bool, true, false, not, ◌&&◌, ◌||◌, Option, none, some, List, [], ◌∷◌, ltb, is_nil,
  if◌then◌else◌, ◌==◌, Table, put,
}
use zattera_dev.State.Types.{
  Ident, blank, Message, Environment, Release, Node, Assignment, Volume, VolumeLease, VolumeStatus,
}
use zattera_dev.State.Store.{
  Store, release, list_nodes, list_environments, list_assignments, list_volumes, volume_by_name,
}
use zattera_dev.Raft.Fsm.{put_vol, put_volume_lease}
use zattera_dev.Raft.World.{World, Action, return, ◌>>◌, each, new_id, propose}
use zattera_dev.Scheduler.Helpers.{second, is_run, is_alive, is_stateful, node_down, emit_event}
use zattera_dev.Scheduler.Placement.{counted}

abbrev pub lease_ttl : ℕ
lease_ttl = 60 * second

unfoldable pub active_stateful_release : Store → Environment → Option Release
active_stateful_release st env =
    if env.active_release_id == blank then none else (elim (release st env.active_release_id) [
      | none ↦ none
      | some rel ↦ if not (is_stateful rel) || is_nil rel.service.volumes then none else some rel
    ])

unfoldable pub volumes_by_node : List Volume → Table ℕ → Table ℕ
volumes_by_node [] counts = counts
volumes_by_node (v ∷ vs) counts =
    volumes_by_node vs (put v.node_id (counted v.node_id counts + 1) counts)

-- The loop over the nodes, with the best one so far and its count.
unfoldable pub least_used : Table ℕ → Ident → ℕ → List Node → Ident
least_used counts best best_count [] = best
least_used counts best best_count (n ∷ ns) =
    let c = counted n.id counts in
    let take_it = least_used counts n.id c ns in
    let keep = least_used counts best best_count ns in
    if not (is_alive n.status) || not n.schedulable
    then keep
    else if best == blank || ltb c best_count || (c == best_count && ltb n.id best)
    then take_it
    else keep

unfoldable pub least_used_volume_node : Store → Ident
unfolding volumes_by_node least_used
least_used_volume_node st =
    least_used (volumes_by_node (list_volumes st blank) []) blank 0 (list_nodes st)

unfoldable pub create_volume : Environment → Ident → Action
unfolding least_used_volume_node
create_volume env name w =
    let node_id = least_used_volume_node w.store in
    if node_id == blank
    then emit_event env.project_id env.app_id env.id "volume.no_capacity" "warning"
        (Message.no_node_for_volume name) w
    else new_id
        (λ id u.
          propose
            (put_vol (record {
              id = id;
              updated_at = u.now;
              project_id = env.project_id;
              environment_id = env.id;
              name = name;
              node_id = node_id;
              status = VolumeStatus.active;
              lease = none;
            }))
            u)
        w

unfoldable pub set_volume_status : Volume → VolumeStatus → Action
set_volume_status v status w =
    propose (put_vol (record v { status = status; updated_at = w.now })) w

abbrev pub is_node_lost : VolumeStatus → Bool
is_node_lost VolumeStatus.node_lost = true
is_node_lost _ = false

unfoldable pub track_volume_node : Environment → Volume → Action
unfolding set_volume_status
track_volume_node env v w =
    let down = node_down w.store v.node_id in
    if down && not (is_node_lost v.status)
    then (set_volume_status v VolumeStatus.node_lost
          >> emit_event env.project_id env.app_id env.id "volume.node_lost" "warning"
              (Message.volume_node_down v.name v.node_id))
        w
    else if not down && is_node_lost v.status
    then (set_volume_status v VolumeStatus.active
          >> emit_event env.project_id env.app_id env.id "volume.recovered" "info"
              (Message.volume_node_back v.name v.node_id))
        w
    else return w

unfoldable pub ensure_one : Environment → Ident → Action
unfolding create_volume track_volume_node
ensure_one env name w = elim (volume_by_name w.store env.project_id env.id name) [
  | none ↦ create_volume env name w
  | some v ↦ track_volume_node env v w
]

unfoldable pub ensure_of_environment : Environment → Action
unfolding active_stateful_release ensure_one
ensure_of_environment env w = elim (active_stateful_release w.store env) [
  | none ↦ return w
  | some rel ↦ each (ensure_one env) rel.service.volumes w
]

unfoldable pub ensure_volumes : Action
unfolding ensure_of_environment
ensure_volumes w = each ensure_of_environment (list_environments w.store blank blank) w

-- A running assignment of a service on the volume's node.
abbrev pub may_hold : Volume → Assignment → Bool
may_hold v a = a.job_id == blank && is_run a.desired && a.node_id == v.node_id

abbrev pub lower_id : Option Assignment → Assignment → Assignment
lower_id none a = a
lower_id (some h) a = if ltb a.id h.id then a else h

unfoldable pub holder_of : Volume → Option Assignment → List Assignment → Option Assignment
holder_of v holder [] = holder
holder_of v holder (a ∷ rest) =
    holder_of v (if may_hold v a then some (lower_id holder a) else holder) rest

unfoldable pub stateful_holder : Store → Volume → Option Assignment
unfolding holder_of
stateful_holder st v = holder_of v none (list_assignments st v.environment_id)

unfoldable pub lease_expired : Option VolumeLease → ℕ → Bool
lease_expired none now = true
lease_expired (some l) now = elim l.expires_at [ none ↦ true | some t ↦ not (ltb now t) ]

unfoldable pub lease_held_by_other : Option VolumeLease → Ident → ℕ → Bool
unfolding lease_expired
lease_held_by_other none want now = false
lease_held_by_other (some l) want now =
    if l.node_id == want then false else not (lease_expired (some l) now)

abbrev pub new_lease : Volume → Assignment → ℕ → VolumeLease
new_lease v holder now = record {
  node_id = v.node_id;
  assignment_id = holder.id;
  expires_at = some (now + lease_ttl);
}

unfoldable pub renew_lease : Volume → Action
unfolding stateful_holder lease_held_by_other
renew_lease v w =
    if node_down w.store v.node_id then return w else (elim (stateful_holder w.store v) [
      | none ↦ return w
      | some holder ↦
          if lease_held_by_other v.lease v.node_id w.now
          then return w
          else propose (put_volume_lease v.id (some (new_lease v holder w.now))) w
    ])

unfoldable pub reconcile_leases : Action
unfolding renew_lease
reconcile_leases w = each renew_lease (list_volumes w.store blank) w
