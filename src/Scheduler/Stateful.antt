-- ===== src/Scheduler/Stateful.antt =====
-- internal/daemon/scheduler/stateful.go: stop-then-start rollouts of services with a volume.
use zattera_dev.Base.{
  Bool, true, false, ◌&&◌, not, none, some, List, [], ◌∷◌, map, any, all, filter, is_nil, ltb, ◌+◌,
  if◌then◌else◌, ◌==◌,
}
use zattera_dev.State.Types.{
  Ident, blank, Message, Environment, Release, Deployment, DeploymentPhase, Assignment,
  AssignmentDesired, InstanceState, VolumeStatus,
}
use zattera_dev.State.Store.{Store, list_assignments, volume_by_name}
use zattera_dev.Raft.Fsm.{put_vol, promote_release}
use zattera_dev.Raft.World.{Action, return, ◌>>◌, each, new_id, propose}
use zattera_dev.Scheduler.Helpers.{
  is_run, is_healthy, state_of, green_assignments, green_assignment, any_failed, health_deadline,
}
use zattera_dev.Scheduler.Placement.{place}
use zattera_dev.Scheduler.Rollout.{set_phase, emit, reap_green, abort, check_build, put_all}

abbrev pub is_old : Deployment → Assignment → Bool
is_old d a = a.release_id == d.previous_release_id && not (a.deployment_id == d.id)

unfoldable pub old_instances : Store → Deployment → List Assignment
old_instances st d =
    if d.previous_release_id == blank
    then []
    else filter (is_old d) (list_assignments st d.environment_id)

-- Neither stopped, nor failed, nor ever started.
abbrev pub is_live : InstanceState → Bool
is_live InstanceState.stopped = false
is_live InstanceState.failed = false
is_live InstanceState.unspecified = false
is_live _ = true

unfoldable pub still_running : List Assignment → Bool
still_running instances = any (λ a. is_live (state_of a)) instances

abbrev pub is_up : InstanceState → Bool
is_up InstanceState.running = true
is_up InstanceState.healthy = true
is_up _ = false

abbrev pub with_desired : AssignmentDesired → List Assignment → List Assignment
with_desired desired = map (λ (a : Assignment). record a { desired = desired })

unfoldable pub stop_old : Deployment → Action
stop_old d w =
    let old = old_instances w.store d in
    let stop_puts = with_desired AssignmentDesired.stop (filter (λ a. is_run a.desired) old) in
    if not (is_nil stop_puts)
    then (put_all stop_puts >> emit d "deploy.maintenance_start" "warning" Message.stopping_current)
        w
    else if still_running old
    then return w
    else set_phase d DeploymentPhase.starting none w

unfoldable pub restart_old : Deployment → Action
restart_old d w =
    let restart =
      with_desired AssignmentDesired.run
        (filter (λ a. not (is_run a.desired)) (old_instances w.store d)) in
    if is_nil restart
    then return w
    else (put_all restart >> emit d "deploy.rolled_back" "warning" Message.restarted_previous) w

unfoldable pub stateful_fail : Deployment → Message → Action
stateful_fail d reason =
    reap_green d
    >> restart_old d
    >> emit d "deploy.failed" "error" reason
    >> set_phase d DeploymentPhase.failed (some reason)

unfoldable pub ensure_volume : Environment → Ident → Ident → Action
ensure_volume env node_id name w = elim (volume_by_name w.store env.project_id env.id name) [
  | some _ ↦ return w
  | none ↦
      new_id
        (λ id u.
          propose
            (put_vol (record {
              id = id;
              updated_at = u.now;
              project_id = env.project_id;
              environment_id = env.id;
              name = name;
              node_id = node_id;
              status = VolumeStatus.active;
              lease = none;
            }))
            u)
        w
]

unfoldable pub ensure_deploy_volumes : Environment → Release → Ident → Action
unfolding ensure_volume
ensure_deploy_volumes env rel node_id = each (ensure_volume env node_id) rel.service.volumes

unfoldable pub start_on : Environment → Release → Deployment → List Ident → Action
start_on env rel d [] = stateful_fail d Message.no_node_available
start_on env rel d (node_id ∷ _) =
    ensure_deploy_volumes env rel node_id
    >> new_id (λ id w. put_all (green_assignment id w.now env rel node_id d.id ∷ []) w)

unfoldable pub stateful_start : Environment → Release → Deployment → Action
unfolding start_on
stateful_start env rel d w =
    let green = green_assignments w.store d in
    if is_nil green
    then start_on env rel d (place w.store rel env.id 1 []).0 w
    else if any_failed green
    then stateful_fail d Message.new_failed_to_start w
    else if not (all (λ a. is_up (state_of a)) green)
    then return w
    else set_phase d DeploymentPhase.healthchecking none w

unfoldable pub stateful_health : Release → Deployment → Action
stateful_health rel d w =
    let green = green_assignments w.store d in
    if any_failed green
    then stateful_fail d Message.new_unhealthy w
    else if not (is_nil green) && all (λ a. is_healthy (state_of a)) green
    then set_phase d DeploymentPhase.promoting none w
    else if ltb (d.updated_at + health_deadline rel) w.now
    then stateful_fail d Message.new_not_healthy_in_time w
    else return w

unfoldable pub promote_command : Deployment → Action
promote_command d = propose (
    promote_release (record {
      environment_id = d.environment_id;
      release_id = d.release_id;
      deployment_id = d.id;
    }))

unfoldable pub stateful_promote : Deployment → Action
unfolding promote_command
stateful_promote d =
    promote_command d
    >> emit d "deploy.maintenance_end" "info" Message.promoted_healthy
    >> set_phase d DeploymentPhase.succeeded none

-- The gate of PENDING: build, or refuse without an image.
unfoldable pub stateful_pending : Release → Deployment → Action
stateful_pending rel d =
    if not (d.build_id == blank) && rel.image_ref == blank
    then set_phase d DeploymentPhase.building none
    else if rel.image_ref == blank
    then abort d Message.no_image_ref
    else set_phase d DeploymentPhase.stopping_old none

unfoldable pub reconcile_stateful : Environment → Release → Deployment → DeploymentPhase → Action
unfolding stateful_pending
reconcile_stateful env rel d DeploymentPhase.pending = stateful_pending rel d
reconcile_stateful env rel d DeploymentPhase.building =
    check_build rel d DeploymentPhase.stopping_old
reconcile_stateful env rel d DeploymentPhase.stopping_old = stop_old d
reconcile_stateful env rel d DeploymentPhase.starting = stateful_start env rel d
reconcile_stateful env rel d DeploymentPhase.healthchecking = stateful_health rel d
reconcile_stateful env rel d DeploymentPhase.promoting = stateful_promote d
reconcile_stateful env rel d _ = return
