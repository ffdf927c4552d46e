-- ===== src/Scheduler/Passes/RedGreen.antt =====
-- The handlers of red/green rollouts (internal/daemon/scheduler/deployment.go) keep what their proposals
-- keep.
use zattera_dev.Base.{
  ◌+◌, ◌-◌, arith, refl, inl, inr, not, ◌&&◌, ◌||◌, none, Option-cases, is_nil, all, length, ltb,
  leb, if◌then◌else◌, ◌==◌,
}
use zattera_dev.State.Types.{
  blank, Message, Environment, Release, Deployment, DeploymentPhase, AssignmentDesired,
}
use zattera_dev.State.Store.{Store}
use zattera_dev.Raft.World.{World, return}
use zattera_dev.Raft.Rules.{Keeps}
use zattera_dev.Scheduler.Helpers.{
  is_healthy, state_of, green_assignments, blue_assignments, deploy_replicas, any_failed, node_set,
  health_deadline,
}
use zattera_dev.Scheduler.Placement.{place}
use zattera_dev.Scheduler.Rollout.{set_phase, abort, put_all}
use zattera_dev.Scheduler.Stateful.{is_up, with_desired, promote_command}
use zattera_dev.Scheduler.Orchestrator.{
  Orchestrator, warm_enough, green_puts, fill_green, place_green, check_starting, check_health,
  start_drain, promote, stop_blue, complete_drain, drain, pending_step, advance,
}
use zattera_dev.Scheduler.Guards.{GreenUp, GreenHealthy, DrainOver, Warm}
use zattera_dev.Scheduler.Passes
use zattera_dev.Scheduler.Passes.{Lawful}

module _ (d : Deployment) (R : Store → Store → Type 0) (Allowed : DeploymentPhase → Type 0)
    (l : Lawful d R Allowed) where
  fill_green-Keeps : (env : Environment) (rel : Release) → Keeps R (fill_green env rel d)
  unfolding fill_green
  fill_green-Keeps env rel w =
      let green = green_assignments w.store d in
      let desired = deploy_replicas env rel in
      let picks = (place w.store rel env.id (desired - length green) (node_set green)).0 in
      let fill = λ (u : World).
        put_all (green_puts u.fresh u.drawn u.now env rel d.id picks)
          (record u { drawn = u.drawn + length picks }) in
      Passes.if_Keeps d R Allowed l (not (ltb (length green) desired) || is_nil picks) return fill w
        (λ _. Passes.return-Keeps d R Allowed l w) (λ _. Passes.put_asgs-Keeps d R Allowed l _ _)

  place_green-Keeps :
      Allowed DeploymentPhase.starting
      → (env : Environment) (rel : Release) → Keeps R (place_green env rel d)
  unfolding place_green
  place_green-Keeps a env rel =
      Passes.then_Keeps d R Allowed l (fill_green env rel d) _ (fill_green-Keeps env rel) (λ w.
        Passes.if_Keeps d R Allowed l
          (leb (deploy_replicas env rel) (length (green_assignments w.store d)))
          (set_phase d DeploymentPhase.starting none) return w
          (λ _. Passes.set_phase-Keeps d R Allowed l _ _ a w)
          (λ _. Passes.return-Keeps d R Allowed l w))

  check_starting-Keeps :
      Allowed DeploymentPhase.failed
      → (w : World) → (GreenUp d w.store → Allowed DeploymentPhase.healthchecking)
      → R w.store (check_starting d w).0.store
  unfolding check_starting
  check_starting-Keeps f w a =
      let green = green_assignments w.store d in
      let next = set_phase d DeploymentPhase.healthchecking none in
      let up = all (λ x. is_up (state_of x)) green in
      let give_up = abort d Message.green_failed_to_start in
      Passes.if_Keeps d R Allowed l (any_failed green) give_up
        (λ u. if not up then return u else next u) w (λ _. Passes.abort-Keeps d R Allowed l f _ w)
        (λ sound.
          Passes.if_Keeps d R Allowed l (not up) return next w
            (λ _. Passes.return-Keeps d R Allowed l w)
            (λ ready. Passes.set_phase-Keeps d R Allowed l _ _ (a (sound, ground arith)) w))

  check_health-Keeps :
      Allowed DeploymentPhase.failed
      → (rel : Release) (w : World) → (GreenHealthy d w.store → Allowed DeploymentPhase.promoting)
      → R w.store (check_health rel d w).0.store
  unfolding check_health
  check_health-Keeps f rel w a =
      let green = green_assignments w.store d in
      let next = set_phase d DeploymentPhase.promoting none in
      let ready = all (λ x. is_healthy (state_of x)) green in
      let give_up = abort d Message.green_unhealthy in
      let late = abort d Message.green_not_healthy_in_time in
      let over = ltb (d.updated_at + health_deadline rel) w.now in
      Passes.if_Keeps d R Allowed l (any_failed green) give_up
        (λ u. if ready then next u else if over then late u else return u) w
        (λ _. Passes.abort-Keeps d R Allowed l f _ w)
        (λ _.
          Passes.if_Keeps d R Allowed l ready next (λ u. if over then late u else return u) w
            (λ e. Passes.set_phase-Keeps d R Allowed l _ _ (a e) w)
            (λ _.
              Passes.if_Keeps d R Allowed l over late return w
                (λ _. Passes.abort-Keeps d R Allowed l f _ w)
                (λ _. Passes.return-Keeps d R Allowed l w)))

  promote-Keeps :
      Keeps R (promote_command d)
      → Allowed DeploymentPhase.draining_old
      → (o : Orchestrator) → Keeps R (promote o d)
  unfolding promote start_drain
  promote-Keeps p a o =
      Passes.then_Keeps d R Allowed l (promote_command d) _ p
        (λ w. Passes.set_deployment_phase-Keeps d R Allowed l _ refl a w)

  complete_drain-Keeps : Allowed DeploymentPhase.succeeded → Keeps R (complete_drain d)
  unfolding complete_drain
  complete_drain-Keeps a =
      Passes.then_Keeps d R Allowed l (stop_blue d) _
        (λ w.
          let puts = with_desired AssignmentDesired.stop (blue_assignments w.store d) in
          Passes.if_Keeps d R Allowed l (is_nil puts) return (put_all puts) w
            (λ _. Passes.return-Keeps d R Allowed l w)
            (λ _. Passes.put_asgs-Keeps d R Allowed l puts w))
        (Passes.set_phase-Keeps d R Allowed l _ _ a)

  drain-Keeps :
      (w : World)
      → (DrainOver d w.now → Allowed DeploymentPhase.succeeded)
      → R w.store (drain d w).0.store
  unfolding drain
  drain-Keeps w a = elim (Option-cases d.drain_deadline) [
    | inl e ↦ rw (e, drain) (complete_drain-Keeps (a (inl e)) w)
    | inr (deadline, e) ↦
        rw (e, drain)
          (Passes.if_Keeps d R Allowed l (ltb w.now deadline) return (complete_drain d) w
            (λ _. Passes.return-Keeps d R Allowed l w)
            (λ over. complete_drain-Keeps (a (inr (deadline, e, ground arith))) w))
  ]

  pending_step-Keeps :
      Allowed DeploymentPhase.failed
      → Allowed DeploymentPhase.building
      → Allowed DeploymentPhase.placing
      → (env : Environment) (rel : Release) (w : World)
      → (Warm d w.store env rel → Allowed DeploymentPhase.promoting)
      → R w.store (pending_step env rel d w).0.store
  unfolding pending_step
  pending_step-Keeps f a c env rel w b =
      let refuse = abort d Message.no_image_ref in
      let warm = set_phase d DeploymentPhase.promoting none in
      let next = set_phase d DeploymentPhase.placing none in
      let is_warm = d.is_rollback && warm_enough w.store env rel d in
      Passes.if_Keeps d R Allowed l (not (d.build_id == blank) && rel.image_ref == blank)
        (set_phase d DeploymentPhase.building none)
        (λ u. if rel.image_ref == blank then refuse u else if is_warm then warm u else next u) w
        (λ _. Passes.set_phase-Keeps d R Allowed l _ _ a w)
        (λ _.
          Passes.if_Keeps d R Allowed l (rel.image_ref == blank) refuse
            (λ u. if is_warm then warm u else next u) w
            (λ _. Passes.abort-Keeps d R Allowed l f _ w)
            (λ _.
              Passes.if_Keeps d R Allowed l is_warm warm next w
                (λ e. Passes.set_phase-Keeps d R Allowed l _ _ (b (ground arith, ground arith)) w)
                (λ _. Passes.set_phase-Keeps d R Allowed l _ _ c w)))

  -- What a pass over a red/green rollout may do, by the phase that it starts from.
  abbrev pub RedGreenAllowed : World → Environment → Release → DeploymentPhase → Type 0
  RedGreenAllowed w env rel DeploymentPhase.pending =
      Allowed DeploymentPhase.building
      × Allowed DeploymentPhase.placing
      × (Warm d w.store env rel → Allowed DeploymentPhase.promoting)
  RedGreenAllowed w env rel DeploymentPhase.building = Allowed DeploymentPhase.placing
  RedGreenAllowed w env rel DeploymentPhase.placing = Allowed DeploymentPhase.starting
  RedGreenAllowed w env rel DeploymentPhase.starting =
      GreenUp d w.store → Allowed DeploymentPhase.healthchecking
  RedGreenAllowed w env rel DeploymentPhase.healthchecking =
      GreenHealthy d w.store → Allowed DeploymentPhase.promoting
  RedGreenAllowed w env rel DeploymentPhase.promoting =
      Keeps R (promote_command d) × Allowed DeploymentPhase.draining_old
  RedGreenAllowed w env rel DeploymentPhase.draining_old =
      DrainOver d w.now → Allowed DeploymentPhase.succeeded
  RedGreenAllowed w env rel _ = Unit {0}

  pub advance-Keeps :
      Allowed DeploymentPhase.failed
      → (o : Orchestrator) (env : Environment) (rel : Release) (p : DeploymentPhase) (w : World)
      → RedGreenAllowed w env rel p
      → R w.store (advance o env rel d p w).0.store
  unfolding advance
  advance-Keeps f o env rel DeploymentPhase.pending w a = pending_step-Keeps f a.0 a.1 env rel w a.2
  advance-Keeps f o env rel DeploymentPhase.building w a =
      Passes.check_build-Keeps d R Allowed l f DeploymentPhase.placing a rel w
  advance-Keeps f o env rel DeploymentPhase.placing w a = place_green-Keeps a env rel w
  advance-Keeps f o env rel DeploymentPhase.starting w a = check_starting-Keeps f w a
  advance-Keeps f o env rel DeploymentPhase.healthchecking w a = check_health-Keeps f rel w a
  advance-Keeps f o env rel DeploymentPhase.promoting w a = promote-Keeps a.0 a.1 o w
  advance-Keeps f o env rel DeploymentPhase.draining_old w a = drain-Keeps w a
  advance-Keeps f o env rel _ w a = Passes.return-Keeps d R Allowed l w
