-- ===== src/Scheduler/Orchestrator.antt =====
-- internal/daemon/scheduler/deployment.go: the phase machine of red/green rollouts, and the dispatch to
-- the stateful ones.
pub mod Phases
pub mod Traffic
pub mod Promotion
use zattera_dev.Base.{
  ℕ, ◌+◌, ◌-◌, ◌*◌, Bool, true, false, ◌&&◌, ◌||◌, not, Option, none, some, List, [], ◌∷◌, all,
  filter, is_nil, length, ltb, leb, if◌then◌else◌, ◌==◌,
}
use zattera_dev.State.Types.{
  Ident, blank, Message, Environment, Release, Deployment, DeploymentPhase, Assignment,
  AssignmentDesired,
}
use zattera_dev.State.Store.{Store, environment, release, list_assignments, list_deployments}
use zattera_dev.Raft.Fsm.{set_deployment_phase}
use zattera_dev.Raft.World.{World, Outcome, lost, Action, return, ◌>>◌, each, propose}
use zattera_dev.Scheduler.Helpers.{
  second, is_run, is_healthy, state_of, is_terminal_phase, green_assignments, blue_assignments,
  green_assignment, deploy_replicas, any_failed, node_set, health_deadline,
}
use zattera_dev.Scheduler.Placement.{place}
use zattera_dev.Scheduler.Rollout.{set_phase, reap_green, abort, superseded, check_build, put_all}
use zattera_dev.Scheduler.Stateful.{is_up, with_desired, promote_command, reconcile_stateful}

abbrev pub drain_window : ℕ
drain_window = 10 * 60 * second

-- The override of the drain window, 0 where there is none.
pub record Orchestrator : Type 0 where
  pub drain_dur : ℕ

unfoldable pub drain_window_dur : Orchestrator → ℕ
drain_window_dur o = if ltb 0 o.drain_dur then o.drain_dur else drain_window

unfoldable pub warm_enough : Store → Environment → Release → Deployment → Bool
warm_enough st env rel d =
    let want = deploy_replicas env rel in
    let healthy = length (
      filter (λ a. a.release_id == d.release_id && is_run a.desired && is_healthy (state_of a))
        (list_assignments st env.id)) in
    not (want == 0) && leb want healthy

-- One replica for each picked node, with the next ids.
unfoldable pub green_puts :
    (ℕ → Ident) → ℕ → ℕ → Environment → Release → Ident → List Ident → List Assignment
green_puts fresh drawn now env rel deployment_id [] = []
green_puts fresh drawn now env rel deployment_id (node_id ∷ nodes) =
    green_assignment (fresh drawn) now env rel node_id deployment_id
    ∷ green_puts fresh (drawn + 1) now env rel deployment_id nodes

unfoldable pub fill_green : Environment → Release → Deployment → Action
unfolding green_puts
fill_green env rel d w =
    let green = green_assignments w.store d in
    let desired = deploy_replicas env rel in
    let picks = (place w.store rel env.id (desired - length green) (node_set green)).0 in
    if not (ltb (length green) desired) || is_nil picks
    then return w
    else put_all (green_puts w.fresh w.drawn w.now env rel d.id picks)
        (record w { drawn = w.drawn + length picks })

unfoldable pub place_green : Environment → Release → Deployment → Action
unfolding fill_green
place_green env rel d = fill_green env rel d >> λ w.
    if leb (deploy_replicas env rel) (length (green_assignments w.store d))
    then set_phase d DeploymentPhase.starting none w
    else return w

unfoldable pub check_starting : Deployment → Action
check_starting d w =
    let green = green_assignments w.store d in
    if any_failed green
    then abort d Message.green_failed_to_start w
    else if not (all (λ a. is_up (state_of a)) green)
    then return w
    else set_phase d DeploymentPhase.healthchecking none w

unfoldable pub check_health : Release → Deployment → Action
check_health rel d w =
    let green = green_assignments w.store d in
    if any_failed green
    then abort d Message.green_unhealthy w
    else if all (λ a. is_healthy (state_of a)) green
    then set_phase d DeploymentPhase.promoting none w
    else if ltb (d.updated_at + health_deadline rel) w.now
    then abort d Message.green_not_healthy_in_time w
    else return w

unfoldable pub start_drain : Orchestrator → Deployment → Action
unfolding drain_window_dur
start_drain o d w =
    propose
      (set_deployment_phase (record {
        deployment_id = d.id;
        phase = DeploymentPhase.draining_old;
        error = none;
        promoted_at = some w.now;
        drain_deadline = some (w.now + drain_window_dur o);
      }))
      w

unfoldable pub promote : Orchestrator → Deployment → Action
unfolding promote_command start_drain
promote o d = promote_command d >> start_drain o d

unfoldable pub stop_blue : Deployment → Action
stop_blue d w =
    let puts = with_desired AssignmentDesired.stop (blue_assignments w.store d) in
    if is_nil puts then return w else put_all puts w

unfoldable pub complete_drain : Deployment → Action
unfolding stop_blue
complete_drain d = stop_blue d >> set_phase d DeploymentPhase.succeeded none

unfoldable pub drain : Deployment → Action
unfolding complete_drain
drain d w = elim d.drain_deadline [
  | none ↦ complete_drain d w
  | some deadline ↦ if ltb w.now deadline then return w else complete_drain d w
]

unfoldable pub pending_step : Environment → Release → Deployment → Action
pending_step env rel d w =
    if not (d.build_id == blank) && rel.image_ref == blank
    then set_phase d DeploymentPhase.building none w
    else if rel.image_ref == blank
    then abort d Message.no_image_ref w
    else if d.is_rollback && warm_enough w.store env rel d
    then set_phase d DeploymentPhase.promoting none w
    else set_phase d DeploymentPhase.placing none w

-- The switch on the phase of a red/green deployment.
unfoldable pub advance :
    Orchestrator → Environment → Release → Deployment → DeploymentPhase → Action
unfolding pending_step
advance o env rel d DeploymentPhase.pending = pending_step env rel d
advance o env rel d DeploymentPhase.building = check_build rel d DeploymentPhase.placing
advance o env rel d DeploymentPhase.placing = place_green env rel d
advance o env rel d DeploymentPhase.starting = check_starting d
advance o env rel d DeploymentPhase.healthchecking = check_health rel d
advance o env rel d DeploymentPhase.promoting = promote o d
advance o env rel d DeploymentPhase.draining_old = drain d
advance o env rel d _ = return

abbrev pub is_draining_old : DeploymentPhase → Bool
is_draining_old DeploymentPhase.draining_old = true
is_draining_old _ = false

-- A newer deployment of the environment takes over.
unfoldable pub give_way : Deployment → Action
give_way d =
    if is_draining_old d.phase
    then set_phase d DeploymentPhase.succeeded none
    else (reap_green d >> set_phase d DeploymentPhase.superseded (some Message.superseded_by_newer))

unfoldable pub drive : Orchestrator → Environment → Release → Deployment → Action
unfolding give_way advance
drive o env rel d w =
    if superseded w.store d
    then give_way d w
    else if rel.service.stateful
    then reconcile_stateful env rel d d.phase w
    else advance o env rel d d.phase w

unfoldable pub reconcile : Orchestrator → Deployment → Action
unfolding drive
reconcile o d w =
    if is_terminal_phase d.phase then return w else (elim (environment w.store d.environment_id) [
      | none ↦ abort d Message.environment_not_found w
      | some env ↦ elim (release w.store d.release_id) [
        | none ↦ abort d Message.release_not_found w
        | some rel ↦ drive o env rel d w
      ]
    ])

unfoldable pub reconcile_all : Orchestrator → Action
unfolding reconcile
reconcile_all o w =
    if not w.leads
    then (w, lost)
    else each (λ d. if is_terminal_phase d.phase then return else reconcile o d)
        (list_deployments w.store blank) w
