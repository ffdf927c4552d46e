-- ===== src/Scheduler/Passes.antt =====
-- A relation on stores that the single proposals of a rollout keep is kept by a whole pass of the
-- orchestrator, whatever raft answers: one lemma for each handler.
pub mod Stateful
pub mod RedGreen
pub mod Whole
use Prim.Native.String.{String}
use zattera_dev.Base.{
  ℕ, ◌≡◌, ◌≢◌, refl, inl, inr, Bool, true, false, not, ◌&&◌, Option, none, some, List, [], ◌∷◌,
  arith, Bool-cases, Option-cases, if◌then◌else◌,
}
use zattera_dev.State.Types.{
  Ident, Message, Environment, Release, Deployment, DeploymentPhase, Build, BuildStatus, Assignment,
  Volume, Event,
}
use zattera_dev.State.Store.{
  Store, environment, release, build, put_assignments, delete_assignments, put_release, put_volume,
  append_events, volume_by_name,
}
use zattera_dev.Raft.Fsm
use zattera_dev.Raft.Fsm.{
  SetDeploymentPhase, PromoteRelease, put_asgs, delete_asgs, append_evs, put_rel, put_vol,
  promote_release, set_deployment_phase, apply_set_deployment_phase, apply_promote_release,
}
use zattera_dev.Raft.World.{World, Outcome, Action, return, ◌>>◌, each, new_id, propose}
use zattera_dev.Raft.Rules.{by_if, IsStep, Keeps, propose_store, >>-Keeps, each-Keeps}
use zattera_dev.Scheduler.Rollout.{
  set_phase, emit, reap_green, abort, superseded, stamp, on_build, check_build,
}
use zattera_dev.Scheduler.Stateful.{
  stop_old, restart_old, stateful_fail, ensure_volume, ensure_deploy_volumes, start_on,
  stateful_start, stateful_health, promote_command, stateful_promote, stateful_pending,
  reconcile_stateful,
}
use zattera_dev.Scheduler.Orchestrator.{
  Orchestrator, fill_green, place_green, check_starting, check_health, start_drain, promote,
  stop_blue, complete_drain, drain, pending_step, advance, is_draining_old, give_way, drive,
  reconcile,
}

-- The proposal that switches the traffic.
pub promote_command_store :
    (R : Store → Store → Type 0) (d : Deployment) (w : World)
    → R w.store w.store
    → ((m : PromoteRelease)
        → m.environment_id ≡ d.environment_id
        → m.release_id ≡ d.release_id
        → R w.store (apply_promote_release m w.store).0)
    → R w.store (promote_command d w).0.store
unfolding promote_command
promote_command_store R d w same applied =
    let m : PromoteRelease = record {
      environment_id = d.environment_id;
      release_id = d.release_id;
      deployment_id = d.id;
    } in
    propose_store R (promote_release m) w same (unfold Fsm.apply in applied m refl refl)

pub record Lawful (d : Deployment) (R : Store → Store → Type 0) (Allowed : DeploymentPhase → Type 0)
    : Type 0 where
  pub step : IsStep R
  pub puts : (batch : List Assignment) (s : Store) → R s (put_assignments batch s)
  pub deletes : (ids : List Ident) (s : Store) → R s (delete_assignments ids s)
  pub events : (es : List Event) (s : Store) → R s (append_events es s)
  pub stamps : (rel : Release) (s : Store) → R s (put_release rel s)
  pub volumes : (v : Volume) (s : Store) → R s (put_volume v s)
  pub phase :
      (now : ℕ) (m : SetDeploymentPhase) (s : Store)
      → m.deployment_id ≡ d.id
      → Allowed m.phase
      → R s (apply_set_deployment_phase (some now) m s).0

module _ (d : Deployment) (R : Store → Store → Type 0) (Allowed : DeploymentPhase → Type 0)
    (l : Lawful d R Allowed) where
  pub return-Keeps : Keeps R return
  return-Keeps w = l.step.stay w.store

  pub then_Keeps : (m k : Action) → Keeps R m → Keeps R k → Keeps R (m >> k)
  then_Keeps = >>-Keeps R l.step

  -- A branch on a test of the world.
  pub if_Keeps :
      (b : Bool) (m k : Action) (w : World)
      → (b ≡ true → R w.store (m w).0.store)
      → (b ≡ false → R w.store (k w).0.store)
      → R w.store (if b then m w else k w).0.store
  if_Keeps b m k w = by_if (λ (r : World × Outcome). R w.store r.0.store) b (m w) (k w)

  pub put_asgs-Keeps : (batch : List Assignment) → Keeps R (propose (put_asgs batch))
  put_asgs-Keeps batch w =
      propose_store R (put_asgs batch) w (l.step.stay w.store)
        (unfold Fsm.apply in l.puts batch w.store)

  pub delete_asgs-Keeps : (ids : List Ident) → Keeps R (propose (delete_asgs ids))
  delete_asgs-Keeps ids w =
      propose_store R (delete_asgs ids) w (l.step.stay w.store)
        (unfold Fsm.apply in l.deletes ids w.store)

  pub append_evs-Keeps : (es : List Event) → Keeps R (propose (append_evs es))
  append_evs-Keeps es w =
      propose_store R (append_evs es) w (l.step.stay w.store)
        (unfold Fsm.apply in l.events es w.store)

  pub emit-Keeps :
      (kind severity : String) (message : Message) → Keeps R (emit d kind severity message)
  unfolding emit
  emit-Keeps kind severity message w = append_evs-Keeps _ _

  pub set_deployment_phase-Keeps :
      (m : SetDeploymentPhase)
      → m.deployment_id ≡ d.id
      → Allowed m.phase
      → Keeps R (propose (set_deployment_phase m))
  set_deployment_phase-Keeps m e a w =
      propose_store R (set_deployment_phase m) w (l.step.stay w.store)
        (unfold Fsm.apply in l.phase w.now m w.store e a)

  pub set_phase-Keeps :
      (p : DeploymentPhase) (error : Option Message) → Allowed p → Keeps R (set_phase d p error)
  unfolding set_phase
  set_phase-Keeps p error a = set_deployment_phase-Keeps _ refl a

  pub reap_green-Keeps : Keeps R (reap_green d)
  unfolding reap_green
  reap_green-Keeps w =
      if_Keeps _ return (propose (delete_asgs _)) w (λ _. return-Keeps w)
        (λ _. delete_asgs-Keeps _ w)

  pub abort-Keeps : Allowed DeploymentPhase.failed → (reason : Message) → Keeps R (abort d reason)
  unfolding abort
  abort-Keeps a reason =
      then_Keeps (reap_green d >> emit d "deploy.failed" "error" reason) _
        (then_Keeps (reap_green d) _ reap_green-Keeps (emit-Keeps _ _ _)) (set_phase-Keeps _ _ a)

  put_rel-Keeps : (rel : Release) → Keeps R (propose (put_rel rel))
  put_rel-Keeps rel w =
      propose_store R (put_rel rel) w (l.step.stay w.store)
        (unfold Fsm.apply in l.stamps rel w.store)

  pub put_vol-Keeps : (v : Volume) → Keeps R (propose (put_vol v))
  put_vol-Keeps v w =
      propose_store R (put_vol v) w (l.step.stay w.store) (unfold Fsm.apply in l.volumes v w.store)

  stamp-Keeps : (rel : Release) (b : Build) → Keeps R (stamp rel b)
  unfolding stamp
  stamp-Keeps rel b =
      by_if (λ m. Keeps R m) _ return (propose (put_rel _)) (λ _. return-Keeps)
        (λ _. put_rel-Keeps _)

  on_build-Keeps :
      Allowed DeploymentPhase.failed
      → (next : DeploymentPhase) → Allowed next
      → (rel : Release) (b : Build) (status : BuildStatus) → Keeps R (on_build rel d next b status)
  unfolding on_build
  on_build-Keeps f next a rel b BuildStatus.succeeded =
      by_if (λ m. Keeps R m) _ (abort d Message.build_no_image)
        (stamp rel b >> set_phase d next none) (λ _. abort-Keeps f _)
        (λ _. then_Keeps (stamp rel b) _ (stamp-Keeps rel b) (set_phase-Keeps next none a))
  on_build-Keeps f next a rel b BuildStatus.failed = abort-Keeps f _
  on_build-Keeps f next a rel b BuildStatus.canceled = abort-Keeps f _
  on_build-Keeps f next a rel b _ = return-Keeps

  pub check_build-Keeps :
      Allowed DeploymentPhase.failed
      → (next : DeploymentPhase) → Allowed next
      → (rel : Release) → Keeps R (check_build rel d next)
  unfolding check_build
  check_build-Keeps f next a rel w = elim (Option-cases (build w.store d.build_id)) [
    | inl e ↦ rw (e, check_build) (abort-Keeps f _ w)
    | inr (b, e) ↦ rw (e, check_build) (on_build-Keeps f next a rel b b.status w)
  ]
