-- ===== src/Scheduler/Helpers.antt =====
-- internal/daemon/scheduler/helpers.go: what the control loops share.
use Prim.Native.String.{String}
use text.Mathlib.Text.{◌==◌ as str_eq}
use zattera_dev.Base.{
  ℕ, ◌+◌, ◌*◌, Bool, true, false, ◌&&◌, not, none, some, List, [], ◌∷◌, map, any, filter, ltb,
  if◌then◌else◌, ◌==◌,
}
use zattera_dev.State.Types.{
  Ident, blank, pos, Environment, Release, Deployment, NodeStatus, Assignment, AssignmentObserved,
  AssignmentDesired, InstanceState, DeploymentPhase, Message,
}
use zattera_dev.State.Store.{Store, node, list_assignments}
use zattera_dev.Raft.Fsm.{append_evs}
use zattera_dev.Raft.World.{Action, new_id, ignore, propose}

abbrev pub second : ℕ
second = 1_000_000_000

abbrev pub is_run : AssignmentDesired → Bool
is_run AssignmentDesired.run = true
is_run _ = false

abbrev pub is_stop : AssignmentDesired → Bool
is_stop AssignmentDesired.stop = true
is_stop _ = false

abbrev pub is_alive : NodeStatus → Bool
is_alive NodeStatus.alive = true
is_alive _ = false

abbrev pub is_draining : NodeStatus → Bool
is_draining NodeStatus.draining = true
is_draining _ = false

abbrev pub is_healthy : InstanceState → Bool
is_healthy InstanceState.healthy = true
is_healthy _ = false

abbrev pub is_failed : InstanceState → Bool
is_failed InstanceState.failed = true
is_failed _ = false

abbrev pub is_stopped_state : InstanceState → Bool
is_stopped_state InstanceState.stopped = true
is_stopped_state _ = false

-- `a.GetObserved().GetState()`.
abbrev pub state_of : Assignment → InstanceState
state_of a = a.observed.state

unfoldable pub desired_replicas : Environment → ℕ
desired_replicas env =
    if env.active_release_id == blank
    then 0
    else if env.service.scale_to_zero
    then env.effective_replicas
    else if ltb 0 env.effective_replicas
    then env.effective_replicas
    else env.service.replicas_min

abbrev pub unobserved : AssignmentObserved
unobserved = record {
  state = InstanceState.unspecified;
  exit_code = pos 0;
  message = blank;
  mesh_port_bindings = [];
}

unfoldable pub new_assignment : Ident → ℕ → Environment → Release → Ident → Assignment
new_assignment id now env rel node_id = record {
  id = id;
  created_at = now;
  updated_at = now;
  node_id = node_id;
  project_id = env.project_id;
  app_id = env.app_id;
  environment_id = env.id;
  release_id = rel.id;
  deployment_id = blank;
  desired = AssignmentDesired.run;
  config_hash = rel.config_hash;
  mesh_port_bindings = [];
  observed = unobserved;
  job_id = blank;
}

unfoldable pub node_down : Store → Ident → Bool
node_down st id = elim (node st id) [ none ↦ true | some n ↦ not (is_alive n.status) ]

unfoldable pub node_draining : Store → Ident → Bool
node_draining st id = elim (node st id) [ none ↦ false | some n ↦ is_draining n.status ]

unfoldable pub is_stopped : Assignment → Bool
is_stopped a = is_stopped_state (state_of a)

abbrev pub is_stateful : Release → Bool
is_stateful rel = rel.service.stateful

-- `labels[k]`, "" where the key is missing.
unfoldable pub label : String → List (String × String) → String
label k [] = ""
label k ((j, v) ∷ m) = if str_eq j k then v else label k m

unfoldable pub labels_match : List (String × String) → List (String × String) → Bool
unfolding label
labels_match node_labels [] = true
labels_match node_labels ((k, v) ∷ constraints) =
    str_eq (label k node_labels) v && labels_match node_labels constraints

unfoldable pub is_terminal_phase : DeploymentPhase → Bool
is_terminal_phase DeploymentPhase.succeeded = true
is_terminal_phase DeploymentPhase.failed = true
is_terminal_phase DeploymentPhase.rolled_back = true
is_terminal_phase DeploymentPhase.superseded = true
is_terminal_phase DeploymentPhase.unspecified = true
is_terminal_phase _ = false

abbrev pub is_green : Deployment → Assignment → Bool
is_green d a = a.deployment_id == d.id && is_run a.desired

unfoldable pub green_assignments : Store → Deployment → List Assignment
green_assignments st d = filter (is_green d) (list_assignments st d.environment_id)

abbrev pub is_blue : Deployment → Assignment → Bool
is_blue d a =
    a.release_id == d.previous_release_id && not (a.deployment_id == d.id) && is_run a.desired

unfoldable pub blue_assignments : Store → Deployment → List Assignment
blue_assignments st d =
    if d.previous_release_id == blank
    then []
    else filter (is_blue d) (list_assignments st d.environment_id)

unfoldable pub green_assignment : Ident → ℕ → Environment → Release → Ident → Ident → Assignment
unfolding new_assignment
green_assignment id now env rel node_id deployment_id =
    let a = new_assignment id now env rel node_id in record a { deployment_id = deployment_id }

unfoldable pub deploy_replicas : Environment → Release → ℕ
deploy_replicas env rel =
    if ltb 0 env.effective_replicas then env.effective_replicas else rel.service.replicas_min

abbrev pub default_health_grace : ℕ
default_health_grace = 60 * second

abbrev pub health_deadline_extra : ℕ
health_deadline_extra = 60 * second

unfoldable pub health_deadline : Release → ℕ
health_deadline rel =
    2 * (if ltb 0 rel.service.grace_period then rel.service.grace_period else default_health_grace)
    + health_deadline_extra

abbrev pub any_failed : List Assignment → Bool
any_failed = any (λ a. is_failed (state_of a))

-- `map[string]bool` of the nodes in use: the keys.
abbrev pub node_set : List Assignment → List Ident
node_set = map (λ a. a.node_id)

unfoldable pub deployment_newer : Deployment → Deployment → Bool
deployment_newer a b =
    if a.created_at == b.created_at then ltb b.id a.id else ltb b.created_at a.created_at

-- The `emitEvent` of the loops: an event with a new id, proposed with its outcome dropped.
unfoldable pub emit_event : Ident → Ident → Ident → String → String → Message → Action
emit_event project_id app_id environment_id kind severity message = ignore (
    new_id λ id w.
      propose
        (append_evs (
          record {
            id = id;
            created_at = w.now;
            kind = kind;
            severity = severity;
            project_id = project_id;
            app_id = app_id;
            environment_id = environment_id;
            message = message;
          }
          ∷ []))
        w)
