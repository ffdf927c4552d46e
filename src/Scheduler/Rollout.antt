-- ===== src/Scheduler/Rollout.antt =====
-- internal/daemon/scheduler/deployment.go, the part that both kinds of rollout share: setting the
-- phase, aborting, the build gate.
use zattera_dev.Base.{
  Bool, ◌&&◌, ◌||◌, not, Option, none, some, List, map, any, is_nil, if◌then◌else◌, ◌==◌,
}
use zattera_dev.State.Types.{
  blank, Message, Release, Deployment, DeploymentPhase, Build, BuildStatus, Assignment,
}
use zattera_dev.State.Store.{Store, build, list_deployments}
use zattera_dev.Raft.Fsm.{put_rel, put_asgs, delete_asgs, set_deployment_phase}
use zattera_dev.Raft.World.{Action, return, ◌>>◌, propose}
use zattera_dev.Scheduler.Helpers.{
  green_assignments, is_terminal_phase, deployment_newer, emit_event,
}
use Prim.Native.String.{String}

unfoldable pub set_phase : Deployment → DeploymentPhase → Option Message → Action
set_phase d phase error = propose (
    set_deployment_phase (record {
      deployment_id = d.id;
      phase = phase;
      error = error;
      promoted_at = none;
      drain_deadline = none;
    }))

unfoldable pub emit : Deployment → String → String → Message → Action
unfolding emit_event
emit d kind severity message =
    emit_event d.project_id d.app_id d.environment_id kind severity message

unfoldable pub reap_green : Deployment → Action
reap_green d w =
    let green = green_assignments w.store d in
    if is_nil green
    then return w
    else propose (delete_asgs (map (λ (a : Assignment). a.id) green)) w

unfoldable pub abort : Deployment → Message → Action
abort d reason =
    reap_green d
    >> emit d "deploy.failed" "error" reason
    >> set_phase d DeploymentPhase.failed (some reason)

unfoldable pub superseded : Store → Deployment → Bool
superseded st d =
    any
      (λ other. not (other.id == d.id || is_terminal_phase other.phase) && deployment_newer other d)
      (list_deployments st d.environment_id)

-- Stamp the built image and its platforms on the release where they differ.
unfoldable pub stamp : Release → Build → Action
stamp rel b =
    if rel.image_ref == b.image_ref
    then return
    else propose (put_rel (record rel { image_ref = b.image_ref; platforms = b.platforms }))

unfoldable pub on_build : Release → Deployment → DeploymentPhase → Build → BuildStatus → Action
on_build rel d next b BuildStatus.succeeded =
    if b.image_ref == blank
    then abort d Message.build_no_image
    else stamp rel b >> set_phase d next none
on_build rel d next b BuildStatus.failed = abort d (Message.build_failed b.error)
on_build rel d next b BuildStatus.canceled = abort d (Message.build_failed b.error)
on_build rel d next b _ = return

unfoldable pub check_build : Release → Deployment → DeploymentPhase → Action
unfolding on_build
check_build rel d next w = elim (build w.store d.build_id) [
  | none ↦ abort d Message.build_not_found w
  | some b ↦ on_build rel d next b b.status w
]

abbrev pub put_all : List Assignment → Action
put_all puts = propose (put_asgs puts)
