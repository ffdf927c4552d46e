-- ===== src/Scheduler/Reconciler.antt =====
-- internal/daemon/scheduler/scheduler.go, drain.go and teardown.go: the loop that brings each
-- environment to its replica count, empties draining nodes and reaps orphans.
pub mod Batch
pub mod Draining
pub mod Drains
use zattera_dev.Base.{
  ℕ, ◌+◌, ◌-◌, Bool, true, false, not, ◌&&◌, ◌||◌, Option, none, some, List, [], ◌∷◌, ◌++◌, map,
  any, filter, is_nil, length, leb, drop, if◌then◌else◌, ◌==◌,
}
use zattera_dev.State.Types.{
  Ident, blank, Message, Environment, Release, Node, NodeStatus, Assignment, AssignmentDesired,
}
use zattera_dev.State.Store.{
  Store, environment, release, assignment, list_deployments, list_nodes, list_environments,
  list_assignments, list_assignments_by_node,
}
use zattera_dev.Raft.Fsm.{SetNodeStatus, put_asgs, delete_asgs, set_node_status}
use zattera_dev.Raft.World.{World, Action, return, ◌>>◌, each, propose}
use zattera_dev.Scheduler.Helpers.{
  is_run, is_stop, is_draining, is_stopped, is_stateful, state_of, node_down, node_draining,
  is_terminal_phase, desired_replicas, new_assignment, emit_event,
}
use zattera_dev.Scheduler.Placement.{PlaceError, place}
use zattera_dev.Scheduler.Stateful.{is_up}

-- The assignments to flip to STOP, read again from the store.
unfoldable pub stops_of : Store → List Ident → List Assignment
stops_of st [] = []
stops_of st (id ∷ ids) =
    let rest = stops_of st ids in
    elim (assignment st id) [
      | none ↦ rest
      | some a ↦
          if is_stop a.desired then rest else record a { desired = AssignmentDesired.stop } ∷ rest
    ]

-- One proposal, unless there is nothing to write.
unfoldable pub put_batch : List Assignment → Action
put_batch puts = if is_nil puts then return else propose (put_asgs puts)

unfoldable pub delete_batch : List Ident → Action
delete_batch ids = if is_nil ids then return else propose (delete_asgs ids)

unfoldable pub apply_batch : List Assignment → List Ident → List Ident → Action
unfolding stops_of put_batch delete_batch
apply_batch puts stop_ids delete_ids w =
    (put_batch (puts ++ stops_of w.store stop_ids) >> delete_batch delete_ids) w

unfoldable pub deployment_owns_env : Store → Environment → Bool
deployment_owns_env st env = any (λ d. not (is_terminal_phase d.phase)) (list_deployments st env.id)

-- What becomes of an assignment of the environment.
pub data Fate : Type 0 where
  left kept stopped reaped : Fate

-- The fate of a running assignment of the active release.
unfoldable pub fate_of_active : Store → Option Release → Assignment → Fate
fate_of_active st rel a =
    if not (node_down st a.node_id)
    then kept
    else if node_draining st a.node_id
    then left
    else if elim rel [ none ↦ false | some r ↦ is_stateful r ]
    then kept
    else reaped

unfoldable pub fate_of : Store → Ident → Option Release → Assignment → Fate
unfolding fate_of_active
fate_of st release_id rel a =
    if not (a.job_id == blank)
    then left
    else if is_stop a.desired
    then (if is_stopped a then reaped else left)
    else if not (is_run a.desired)
    then left
    else if release_id == blank || not (a.release_id == release_id)
    then stopped
    else fate_of_active st rel a

abbrev pub is_kept : Fate → Bool
is_kept kept = true
is_kept _ = false

abbrev pub is_to_stop : Fate → Bool
is_to_stop stopped = true
is_to_stop _ = false

abbrev pub is_reaped : Fate → Bool
is_reaped reaped = true
is_reaped _ = false

abbrev pub ids_of : List Assignment → List Ident
ids_of = map (λ (a : Assignment). a.id)

-- New replicas on the picked nodes, with the next ids.
unfoldable pub new_puts : (ℕ → Ident) → ℕ → ℕ → Environment → Release → List Ident → List Assignment
new_puts fresh drawn now env rel [] = []
new_puts fresh drawn now env rel (node_id ∷ nodes) =
    new_assignment (fresh drawn) now env rel node_id ∷ new_puts fresh (drawn + 1) now env rel nodes

-- The event of a placement that fell short.
unfoldable pub report : Environment → Option PlaceError → Action
report env none = return
report env (some e) =
    emit_event env.project_id env.app_id env.id "schedule.no_capacity" "warning" Message.no_capacity

-- The assignments are listed in the order of their ids, so the sort of the code changes nothing: the
-- excess are the last of those kept.
unfoldable pub converge :
    Environment → Option Release → List Assignment → List Ident → List Ident → Action
unfolding report apply_batch new_puts
converge env none good stop_ids delete_ids w =
    apply_batch [] (stop_ids ++ ids_of (drop (desired_replicas env) good)) delete_ids w
converge env (some rel) good stop_ids delete_ids w =
    let desired = desired_replicas env in
    let placed = place w.store rel env.id (desired - length good) [] in
    (report env placed.1
        >> apply_batch (new_puts w.fresh w.drawn w.now env rel placed.0)
            (stop_ids ++ ids_of (drop desired good)) delete_ids)
      (record w { drawn = w.drawn + length placed.0 })

-- The partition of the environment's assignments, and what follows of it.
unfoldable pub converge_env : Environment → Option Release → Action
unfolding converge fate_of
converge_env env rel w =
    let listed = list_assignments w.store env.id in
    let fate = fate_of w.store env.active_release_id rel in
    converge env rel (filter (λ a. is_kept (fate a)) listed)
      (ids_of (filter (λ a. is_to_stop (fate a)) listed))
      (ids_of (filter (λ a. is_reaped (fate a)) listed)) w

unfoldable pub evaluate_env : Environment → Action
unfolding deployment_owns_env converge_env
evaluate_env env w =
    if deployment_owns_env w.store env
    then return w
    else if env.active_release_id == blank
    then converge_env env none w
    else (elim (release w.store env.active_release_id) [
      | none ↦ return w
      | some rel ↦ converge_env env (some rel) w
    ])

unfoldable pub evaluate_envs : Action
unfolding evaluate_env
evaluate_envs w = each evaluate_env (list_environments w.store blank blank) w

-- teardown.go.
unfoldable pub is_orphan : Store → Assignment → Bool
is_orphan st a = elim (environment st a.environment_id) [
  | none ↦ true
  | some _ ↦
      if a.release_id == blank
      then false
      else (elim (release st a.release_id) [ none ↦ true | some _ ↦ false ])
]

unfoldable pub orphans_to_stop : Store → List Ident
unfolding is_orphan
orphans_to_stop st =
    ids_of (filter (λ a. is_orphan st a && is_run a.desired) (list_assignments st blank))

unfoldable pub orphans_to_delete : Store → List Ident
unfolding is_orphan
orphans_to_delete st = ids_of (
    filter (λ a. is_orphan st a && (is_stop a.desired && is_stopped a)) (list_assignments st blank))

unfoldable pub reconcile_orphans : Action
unfolding apply_batch orphans_to_stop orphans_to_delete
reconcile_orphans w =
    if is_nil (orphans_to_stop w.store) && is_nil (orphans_to_delete w.store)
    then return w
    else apply_batch [] (orphans_to_stop w.store) (orphans_to_delete w.store) w

-- drain.go: whether enough other replicas of the assignment's release are up.
unfoldable pub replacement_ready : Store → Assignment → Bool
replacement_ready st a = elim (environment st a.environment_id) [
  | none ↦ true
  | some env ↦
      let want = desired_replicas env in
      let up =
        filter
          (λ o.
            (not (o.node_id == a.node_id) && o.release_id == a.release_id)
            && (is_run o.desired && is_up (state_of o)))
          (list_assignments st a.environment_id) in
      want == 0 || leb want (length up)
]

abbrev pub of_stateful : Store → Assignment → Bool
of_stateful st a = elim (release st a.release_id) [ none ↦ false | some rel ↦ is_stateful rel ]

abbrev pub leaves : Store → Assignment → Bool
leaves st a = is_run a.desired && (of_stateful st a || replacement_ready st a)

abbrev pub occupies : Assignment → Bool
occupies a = is_run a.desired || (is_stop a.desired && not (is_stopped a))

-- `schedulable` is left as it is.
abbrev pub drained_status : Node → SetNodeStatus
drained_status n = record {
  node_id = n.id;
  status = NodeStatus.drained;
  last_heartbeat_at = none;
  schedulable_set = false;
  schedulable = false;
}

unfoldable pub drain_node : Node → Action
unfolding apply_batch replacement_ready
drain_node n w =
    let listed = list_assignments_by_node w.store n.id in
    let stateful_stopped = filter (λ a. is_run a.desired && of_stateful w.store a) listed in
    let told =
      if is_nil stateful_stopped
      then return
      else emit_event blank blank blank "node.drain.stateful_stopped" "warning"
          (Message.stateful_stopped (length stateful_stopped)) in
    (apply_batch [] (ids_of (filter (leaves w.store) listed))
          (ids_of (filter (λ a. is_stop a.desired && is_stopped a) listed))
        >> told
        >> (if any occupies listed then return else propose (set_node_status (drained_status n))))
      w

unfoldable pub reconcile_drains : Action
unfolding drain_node
reconcile_drains w =
    each (λ n. if is_draining n.status then drain_node n else return) (list_nodes w.store) w
