-- ===== src/Scheduler/Passes/Whole.antt =====
-- A whole pass of the orchestrator over one deployment keeps what its proposals keep.
use zattera_dev.Base.{
  ◌≡◌, refl, inl, inr, true, false, Option, none, some, Option-cases, Bool-cases, if◌then◌else◌,
}
use zattera_dev.State.Types.{Message, Environment, Release, Deployment, DeploymentPhase}
use zattera_dev.State.Store.{Store, environment, release}
use zattera_dev.Raft.World.{World, Outcome, ◌>>◌}
use zattera_dev.Raft.Rules.{by_if, Keeps}
use zattera_dev.Scheduler.Helpers.{is_terminal_phase}
use zattera_dev.Scheduler.Rollout.{set_phase, reap_green, abort, superseded}
use zattera_dev.Scheduler.Stateful.{reconcile_stateful}
use zattera_dev.Scheduler.Orchestrator.{
  Orchestrator, advance, is_draining_old, give_way, drive, reconcile,
}
use zattera_dev.Scheduler.Passes
use zattera_dev.Scheduler.Passes.{Lawful}
use zattera_dev.Scheduler.Passes.Stateful
use zattera_dev.Scheduler.Passes.Stateful.{StatefulAllowed}
use zattera_dev.Scheduler.Passes.RedGreen.{RedGreenAllowed, advance-Keeps}

module _ (d : Deployment) (R : Store → Store → Type 0) (Allowed : DeploymentPhase → Type 0)
    (l : Lawful d R Allowed) where
  -- What giving way to a newer deployment may do.
  abbrev pub GivingWayAllowed : Store → Type 0
  GivingWayAllowed st =
      superseded st d ≡ true
      → (is_draining_old d.phase ≡ true → Allowed DeploymentPhase.succeeded)
        × (is_draining_old d.phase ≡ false → Allowed DeploymentPhase.superseded)

  give_way-Keeps :
      (is_draining_old d.phase ≡ true → Allowed DeploymentPhase.succeeded)
      → (is_draining_old d.phase ≡ false → Allowed DeploymentPhase.superseded)
      → Keeps R (give_way d)
  unfolding give_way
  give_way-Keeps a b =
      by_if (Keeps R) (is_draining_old d.phase) (set_phase d DeploymentPhase.succeeded none)
        (reap_green d >> set_phase d DeploymentPhase.superseded (some Message.superseded_by_newer))
        (λ e. Passes.set_phase-Keeps d R Allowed l _ _ (a e))
        (λ e.
          Passes.then_Keeps d R Allowed l (reap_green d) _ (Passes.reap_green-Keeps d R Allowed l)
            (Passes.set_phase-Keeps d R Allowed l _ _ (b e)))

  -- What the pass may do for the environment and the release that it finds.
  abbrev pub DriveAllowed : World → Environment → Release → Type 0
  DriveAllowed w env rel =
      (rel.service.stateful ≡ true → StatefulAllowed d R Allowed l w.store d.phase)
      × (rel.service.stateful ≡ false → RedGreenAllowed d R Allowed l w env rel d.phase)

  abbrev pub PassAllowed : World → Type 0
  PassAllowed w =
      (env : Environment) (rel : Release)
      → release w.store d.release_id ≡ some rel
      → DriveAllowed w env rel

  drive-Keeps :
      Allowed DeploymentPhase.failed
      → (o : Orchestrator) (env : Environment) (rel : Release) (w : World)
      → GivingWayAllowed w.store
      → DriveAllowed w env rel
      → R w.store (drive o env rel d w).0.store
  unfolding drive
  drive-Keeps f o env rel w g h =
      let stop_start = reconcile_stateful env rel d d.phase in
      let red_green = advance o env rel d d.phase in
      Passes.if_Keeps d R Allowed l (superseded w.store d) (give_way d)
        (λ u. if rel.service.stateful then stop_start u else red_green u) w
        (λ e. give_way-Keeps (g e).0 (g e).1 w)
        (λ _.
          Passes.if_Keeps d R Allowed l rel.service.stateful stop_start red_green w
            (λ e. Stateful.reconcile_stateful-Keeps d R Allowed l f env rel d.phase w (h.0 e))
            (λ e. advance-Keeps d R Allowed l f o env rel d.phase w (h.1 e)))

  on_release-Keeps :
      Allowed DeploymentPhase.failed
      → (o : Orchestrator) (env : Environment) (w : World) → GivingWayAllowed w.store
      → PassAllowed w
      → (found : Option Release) → release w.store d.release_id ≡ found
      → R w.store (
          let r : World × Outcome = elim found [
            | none ↦ abort d Message.release_not_found w
            | some rel ↦ drive o env rel d w
          ] in
          r.0.store)
  on_release-Keeps f o env w g h none e = Passes.abort-Keeps d R Allowed l f _ w
  on_release-Keeps f o env w g h (some rel) e = drive-Keeps f o env rel w g (h env rel e)

  -- A whole pass over one deployment.
  pub reconcile-Keeps :
      (o : Orchestrator) (w : World)
      → Allowed DeploymentPhase.failed
      → GivingWayAllowed w.store
      → PassAllowed w
      → R w.store (reconcile o d w).0.store
  unfolding reconcile
  reconcile-Keeps o w f g h = elim (Bool-cases (is_terminal_phase d.phase)) [
    | inl over ↦ rw over (Passes.return-Keeps d R Allowed l w)
    | inr live ↦ elim (Option-cases (environment w.store d.environment_id)) [
      | inl e ↦ rw (live, e) (Passes.abort-Keeps d R Allowed l f Message.environment_not_found w)
      | inr (env, e) ↦
          rw (live, e) (on_release-Keeps f o env w g h (release w.store d.release_id) refl)
    ]
  ]
