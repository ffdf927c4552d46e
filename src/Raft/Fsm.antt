-- ===== src/Raft/Fsm.antt =====
-- internal/daemon/raftstore/apply.go: the commands that the scheduler, the orchestrator and the agents
-- propose, and the FSM's handler of each.
use zattera_dev.Base.{ℕ, ◌+◌, ◌%◌, ◌^◌, Bool, Option, none, some, List, Table, if◌then◌else◌}
use zattera_dev.State.Types.{
  Ident, Message, DeploymentPhase, NodeStatus, Environment, Release, Deployment, Build, Node,
  Assignment, AssignmentObserved, Volume, VolumeLease, Job, Event,
}
use zattera_dev.State.Store.{
  Store, put_environment, environment, put_release, release, delete_release, put_deployment,
  deployment, put_build, put_node, delete_node, node, put_assignments, delete_assignments,
  set_assignment_observed, put_volume, set_volume_lease, put_job, append_events,
}

pub record SetDeploymentPhase : Type 0 where
  pub deployment_id : Ident
  pub phase : DeploymentPhase
  pub error : Option Message
  pub promoted_at : Option ℕ
  pub drain_deadline : Option ℕ

pub record PromoteRelease : Type 0 where
  pub environment_id : Ident
  pub release_id : Ident
  pub deployment_id : Ident

pub record SetNodeStatus : Type 0 where
  pub node_id : Ident
  pub status : NodeStatus
  pub last_heartbeat_at : Option ℕ
  pub schedulable_set : Bool
  pub schedulable : Bool

-- The `oneof mutation` of a command.
pub data Mutation : Type 0 where
  put_env : Environment → Mutation
  put_rel : Release → Mutation
  delete_rel : Ident → Mutation
  put_dep : Deployment → Mutation
  set_deployment_phase : SetDeploymentPhase → Mutation
  promote_release : PromoteRelease → Mutation
  put_bld : Build → Mutation
  put_nod : Node → Mutation
  delete_nod : Ident → Mutation
  set_node_status : SetNodeStatus → Mutation
  put_asgs : List Assignment → Mutation
  delete_asgs : List Ident → Mutation
  set_asgs_observed : Ident → Table AssignmentObserved → Mutation
  put_vol : Volume → Mutation
  put_volume_lease : Ident → Option VolumeLease → Mutation
  put_jb : Job → Mutation
  append_evs : List Event → Mutation

-- A business error: the command was committed and its mutation refused.
pub data ApplyError : Type 0 where
  deployment_not_found environment_not_found release_not_found node_not_found : ApplyError

abbrev pub Applied : Type 0
Applied = Store × Option ApplyError

-- `if v is set { field = v }`.
abbrev pub or_keep {ℓ} : {A : Type ℓ} → Option A → Option A → Option A
or_keep none old = old
or_keep (some v) old = some v

unfoldable pub with_phase : Option ℕ → SetDeploymentPhase → Deployment → Deployment
with_phase now m d = record d {
  updated_at = elim now [ none ↦ d.updated_at | some t ↦ t ];
  phase = m.phase;
  error = or_keep m.error d.error;
  promoted_at = or_keep m.promoted_at d.promoted_at;
  drain_deadline = or_keep m.drain_deadline d.drain_deadline;
}

unfoldable pub apply_set_deployment_phase : Option ℕ → SetDeploymentPhase → Store → Applied
unfolding with_phase
apply_set_deployment_phase now m s = elim (deployment s m.deployment_id) [
  | none ↦ (s, some deployment_not_found)
  | some d ↦ (put_deployment (with_phase now m d) s, none)
]

-- The red/green traffic switch: `RouteGeneration` is a uint64.
unfoldable pub with_active : Ident → Environment → Environment
with_active release_id env = record env {
  active_release_id = release_id;
  route_generation = (env.route_generation + 1) % 2 ^ 64;
}

unfoldable pub apply_promote_release : PromoteRelease → Store → Applied
unfolding with_active
apply_promote_release m s = elim (environment s m.environment_id) [
  | none ↦ (s, some environment_not_found)
  | some env ↦ elim (release s m.release_id) [
    | none ↦ (s, some release_not_found)
    | some _ ↦ (put_environment (with_active m.release_id env) s, none)
  ]
]

unfoldable pub apply_set_node_status : SetNodeStatus → Store → Applied
apply_set_node_status m s = elim (node s m.node_id) [
  | none ↦ (s, some node_not_found)
  | some n ↦ (
    put_node
        (record n {
          status = m.status;
          last_heartbeat_at = or_keep m.last_heartbeat_at n.last_heartbeat_at;
          schedulable = if m.schedulable_set then m.schedulable else n.schedulable;
        })
        s,
    none,
  )
]

unfoldable pub apply : Option ℕ → Mutation → Store → Applied
unfolding apply_set_deployment_phase apply_promote_release apply_set_node_status
apply now (put_env e) s = (put_environment e s, none)
apply now (put_rel r) s = (put_release r s, none)
apply now (delete_rel id) s = (delete_release id s, none)
apply now (put_dep d) s = (put_deployment d s, none)
apply now (set_deployment_phase m) s = apply_set_deployment_phase now m s
apply now (promote_release m) s = apply_promote_release m s
apply now (put_bld b) s = (put_build b s, none)
apply now (put_nod n) s = (put_node n s, none)
apply now (delete_nod id) s = (delete_node id s, none)
apply now (set_node_status m) s = apply_set_node_status m s
apply now (put_asgs batch) s = (put_assignments batch s, none)
apply now (delete_asgs ids) s = (delete_assignments ids s, none)
apply now (set_asgs_observed node_id observed) s =
    (set_assignment_observed node_id observed s, none)
apply now (put_vol v) s = (put_volume v s, none)
apply now (put_volume_lease id lease) s = (set_volume_lease id lease s, none)
apply now (put_jb j) s = (put_job j s, none)
apply now (append_evs es) s = (append_events es s, none)
