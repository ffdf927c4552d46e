-- ===== src/State/Store.antt =====
-- The Store of internal/state (state.go, accessors.go, accessors_infra.go): maps of objects by id,
-- the index of assignments by node, the event ring and the mutation counter.
-- Reads return clones and every map is keyed by the object's own id. The lock and the watch hub have
-- no effect on the contents and are left out.
use zattera_dev.Base.{
  ℕ, ◌+◌, ◌-◌, ◌%◌, ◌^◌, ◌&&◌, ◌||◌, Option, none, some, List, [], ◌∷◌, ◌++◌, Table, get, put,
  delete, values, filter, length, drop, if◌then◌else◌, ◌==◌, is_nil,
}
use zattera_dev.State.Types.{
  Ident, blank, Environment, Release, Deployment, Build, Node, Assignment, AssignmentObserved,
  InstanceState, Volume, VolumeLease, Job, Event,
}

abbrev pub event_ring_cap : ℕ
event_ring_cap = 10000

pub record Store : Type 0 where
  pub version : ℕ
  pub environments : Table Environment
  pub releases : Table Release
  pub deployments : Table Deployment
  pub builds : Table Build
  pub nodes : Table Node
  pub assignments : Table Assignment
  pub assignments_by_node : Table (Table (Unit {0}))
  pub volumes : Table Volume
  pub jobs : Table Job
  pub events : List Event

unfoldable pub new : Store
new = record {
  version = 0;
  environments = [];
  releases = [];
  deployments = [];
  builds = [];
  nodes = [];
  assignments = [];
  assignments_by_node = [];
  volumes = [];
  jobs = [];
  events = [];
}

-- `s.version++` on a uint64.
abbrev pub touch : Store → Store
touch s = record s { version = (s.version + 1) % 2 ^ 64 }

-- Environments.
unfoldable pub put_environment : Environment → Store → Store
put_environment e s = touch (record s { environments = put e.id e s.environments })

unfoldable pub environment : Store → Ident → Option Environment
environment s id = get id s.environments

unfoldable pub list_environments : Store → Ident → Ident → List Environment
list_environments s project_id app_id =
    filter
      (λ e.
        (app_id == blank || e.app_id == app_id)
        && (project_id == blank || e.project_id == project_id))
      (values s.environments)

-- Releases, deployments, builds.
unfoldable pub put_release : Release → Store → Store
put_release r s = touch (record s { releases = put r.id r s.releases })

unfoldable pub release : Store → Ident → Option Release
release s id = get id s.releases

unfoldable pub delete_release : Ident → Store → Store
delete_release id s = touch (record s { releases = delete id s.releases })

unfoldable pub put_deployment : Deployment → Store → Store
put_deployment d s = touch (record s { deployments = put d.id d s.deployments })

unfoldable pub deployment : Store → Ident → Option Deployment
deployment s id = get id s.deployments

unfoldable pub list_deployments : Store → Ident → List Deployment
list_deployments s env_id =
    filter (λ d. env_id == blank || d.environment_id == env_id) (values s.deployments)

unfoldable pub put_build : Build → Store → Store
put_build b s = touch (record s { builds = put b.id b s.builds })

unfoldable pub build : Store → Ident → Option Build
build s id = get id s.builds

-- Nodes.
unfoldable pub put_node : Node → Store → Store
put_node n s = touch (record s { nodes = put n.id n s.nodes })

unfoldable pub delete_node : Ident → Store → Store
delete_node id s = elim (get id s.nodes) [
  | none ↦ s
  | some _ ↦ touch (record s { nodes = delete id s.nodes })
]

unfoldable pub node : Store → Ident → Option Node
node s id = get id s.nodes

unfoldable pub list_nodes : Store → List Node
list_nodes s = values s.nodes

-- A missing entry of `assignmentsByNode` is a nil map: it reads as empty, and deleting from it does
-- nothing.
unfoldable pub node_index : Ident → Table (Table (Unit {0})) → Table (Unit {0})
node_index node_id index = elim (get node_id index) [ none ↦ [] | some ids ↦ ids ]

unfoldable pub unindex : Ident → Ident → Table (Table (Unit {0})) → Table (Table (Unit {0}))
unindex node_id id index = elim (get node_id index) [
  | none ↦ index
  | some ids ↦ put node_id (delete id ids) index
]

unfoldable pub reindex : Ident → Ident → Table (Table (Unit {0})) → Table (Table (Unit {0}))
unfolding node_index
reindex node_id id index = put node_id (put id tt (node_index node_id index)) index

unfoldable pub moved_from :
    Option Assignment → Assignment → Table (Table (Unit {0})) → Table (Table (Unit {0}))
unfolding unindex
moved_from none a index = index
moved_from (some prev) a index =
    if prev.node_id == a.node_id then index else unindex prev.node_id a.id index

unfoldable pub put_assignment : Assignment → Store → Store
unfolding moved_from reindex
put_assignment a s = touch (record s {
  assignments = put a.id a s.assignments;
  assignments_by_node =
      reindex a.node_id a.id (moved_from (get a.id s.assignments) a s.assignments_by_node);
})

unfoldable pub put_assignments : List Assignment → Store → Store
unfolding put_assignment
put_assignments [] s = s
put_assignments (a ∷ batch) s = put_assignments batch (put_assignment a s)

unfoldable pub delete_assignment : Ident → Store → Store
unfolding unindex
delete_assignment id s = elim (get id s.assignments) [
  | none ↦ s
  | some prev ↦ touch (record s {
    assignments = delete id s.assignments;
    assignments_by_node = unindex prev.node_id id s.assignments_by_node;
  })
]

unfoldable pub delete_assignments : List Ident → Store → Store
unfolding delete_assignment
delete_assignments [] s = s
delete_assignments (id ∷ ids) s = delete_assignments ids (delete_assignment id s)

unfoldable pub assignment : Store → Ident → Option Assignment
assignment s id = get id s.assignments

-- A report of `running` does not replace the finer `healthy` or `unhealthy`.
unfoldable pub merged_state : InstanceState → InstanceState → InstanceState
merged_state InstanceState.running InstanceState.healthy = InstanceState.healthy
merged_state InstanceState.running InstanceState.unhealthy = InstanceState.unhealthy
merged_state next cur = next

unfoldable pub observe : AssignmentObserved → Assignment → Assignment
unfolding merged_state
observe obs a = record a {
  observed = record obs { state = merged_state obs.state a.observed.state };
  mesh_port_bindings =
      if is_nil obs.mesh_port_bindings then a.mesh_port_bindings else obs.mesh_port_bindings;
}

-- One report of the batch. The object keeps its id and its node, so the index stands.
unfoldable pub set_observed : Ident → Ident → AssignmentObserved → Store → Store
unfolding observe
set_observed node_id id obs s = elim (get id s.assignments) [
  | none ↦ s
  | some a ↦
      if a.node_id == node_id
      then touch (record s { assignments = put id (observe obs a) s.assignments })
      else s
]

unfoldable pub set_assignment_observed : Ident → Table AssignmentObserved → Store → Store
unfolding set_observed
set_assignment_observed node_id [] s = s
set_assignment_observed node_id ((id, obs) ∷ rest) s =
    set_assignment_observed node_id rest (set_observed node_id id obs s)

-- The values at the ids of an index entry, in the order of the ids. The code reads the map at each
-- id of the index; an id that were not in the map would give a nil object, which is left out here.
unfoldable pub pick_values : Table (Unit {0}) → Table Assignment → List Assignment
pick_values [] t = []
pick_values ((id, u) ∷ ids) t =
    let rest = pick_values ids t in elim (get id t) [ none ↦ rest | some a ↦ a ∷ rest ]

unfoldable pub list_assignments_by_node : Store → Ident → List Assignment
unfolding node_index pick_values
list_assignments_by_node s node_id =
    pick_values (node_index node_id s.assignments_by_node) s.assignments

unfoldable pub list_assignments : Store → Ident → List Assignment
list_assignments s env_id =
    filter (λ a. env_id == blank || a.environment_id == env_id) (values s.assignments)

-- Volumes.
unfoldable pub put_volume : Volume → Store → Store
put_volume v s = touch (record s { volumes = put v.id v s.volumes })

-- The code returns the match that its map iteration meets first. API and scheduler keep the triple
-- unique; where it is, this is that match.
unfoldable pub first_volume : Ident → Ident → Ident → List Volume → Option Volume
first_volume project_id env_id name [] = none
first_volume project_id env_id name (v ∷ vs) =
    if v.project_id == project_id && v.environment_id == env_id && v.name == name
    then some v
    else first_volume project_id env_id name vs

unfoldable pub volume_by_name : Store → Ident → Ident → Ident → Option Volume
unfolding first_volume
volume_by_name s project_id env_id name = first_volume project_id env_id name (values s.volumes)

unfoldable pub list_volumes : Store → Ident → List Volume
list_volumes s project_id =
    filter (λ v. project_id == blank || v.project_id == project_id) (values s.volumes)

unfoldable pub set_volume_lease : Ident → Option VolumeLease → Store → Store
set_volume_lease id lease s = elim (get id s.volumes) [
  | none ↦ s
  | some v ↦ touch (record s { volumes = put id (record v { lease = lease }) s.volumes })
]

-- Jobs and events.
unfoldable pub put_job : Job → Store → Store
put_job j s = touch (record s { jobs = put j.id j s.jobs })

unfoldable pub job : Store → Ident → Option Job
job s id = get id s.jobs

unfoldable pub list_jobs : Store → Ident → Ident → List Job
list_jobs s project_id env_id =
    filter
      (λ j.
        (project_id == blank || j.project_id == project_id)
        && (env_id == blank || j.environment_id == env_id))
      (values s.jobs)

unfoldable pub touch_each : List Event → Store → Store
touch_each [] s = s
touch_each (e ∷ es) s = touch_each es (touch s)

-- `events[over:]` where over = len - cap is positive; dropping 0 entries changes nothing.
unfoldable pub append_events : List Event → Store → Store
unfolding touch_each
append_events es s =
    let all_events = s.events ++ es in
    touch_each es (record s { events = drop (length all_events - event_ring_cap) all_events })
