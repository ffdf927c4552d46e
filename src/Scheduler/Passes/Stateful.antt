-- ===== src/Scheduler/Passes/Stateful.antt =====
-- The handlers of stop-then-start rollouts (internal/daemon/scheduler/stateful.go) keep what their
-- proposals keep.
use zattera_dev.Base.{
  ◌≡◌, map, any, arith, refl, inl, inr, Bool, true, false, not, none, List, [], ◌∷◌, Option-cases,
  is_nil, all, filter, ltb, ◌+◌, ◌&&◌, ◌==◌, if◌then◌else◌,
}
use zattera_dev.State.Types.{
  Ident, blank, Message, Environment, Release, Deployment, DeploymentPhase, Assignment,
  AssignmentDesired,
}
use zattera_dev.State.Store.{Store, volume_by_name}
use zattera_dev.Raft.World.{World, Action, return, ◌>>◌}
use zattera_dev.Raft.Rules.{by_if, Keeps, each-Keeps}
use zattera_dev.Scheduler.Helpers.{
  is_run, is_healthy, state_of, green_assignments, any_failed, health_deadline,
}
use zattera_dev.Scheduler.Placement.{place}
use zattera_dev.Scheduler.Rollout.{set_phase, emit, reap_green, abort, put_all}
use zattera_dev.Scheduler.Stateful.{
  is_up, still_running, old_instances, with_desired, stop_old, restart_old, stateful_fail,
  ensure_volume, ensure_deploy_volumes, start_on, stateful_start, stateful_health, promote_command,
  stateful_promote, stateful_pending, reconcile_stateful,
}
use zattera_dev.Scheduler.Guards.{OldStopped, GreenUp, InstanceHealthy}
use zattera_dev.Scheduler.Passes
use zattera_dev.Scheduler.Passes.{Lawful}

-- A selection that comes out empty: the test holds of nothing.
none_selected :
    (test : Assignment → Bool) (f : Assignment → Assignment) (xs : List Assignment)
    → is_nil (map f (filter test xs)) ≡ true
    → any test xs ≡ false
none_selected test f [] h = refl
none_selected test f (x ∷ xs) h = ground (arith, none_selected test f xs)

module _ (d : Deployment) (R : Store → Store → Type 0) (Allowed : DeploymentPhase → Type 0)
    (l : Lawful d R Allowed) where
  put_then_emit-Keeps :
      (batch : List Assignment) (m : Action) → Keeps R m → Keeps R (put_all batch >> m)
  put_then_emit-Keeps batch m k =
      Passes.then_Keeps d R Allowed l (put_all batch) m (Passes.put_asgs-Keeps d R Allowed l batch)
        k

  stop_old-Keeps :
      (w : World)
      → (OldStopped d w.store → Allowed DeploymentPhase.starting)
      → R w.store (stop_old d w).0.store
  unfolding stop_old
  stop_old-Keeps w a =
      let old = old_instances w.store d in
      let stop_puts = with_desired AssignmentDesired.stop (filter (λ x. is_run x.desired) old) in
      let flip =
        put_all stop_puts >> emit d "deploy.maintenance_start" "warning" Message.stopping_current in
      Passes.if_Keeps d R Allowed l (not (is_nil stop_puts)) flip
        (λ u. if still_running old then return u else set_phase d DeploymentPhase.starting none u) w
        (λ _. put_then_emit-Keeps stop_puts _ (Passes.emit-Keeps d R Allowed l _ _ _) w)
        (λ told.
          Passes.if_Keeps d R Allowed l (still_running old) return
            (set_phase d DeploymentPhase.starting none) w (λ _. Passes.return-Keeps d R Allowed l w)
            (λ quiet.
              Passes.set_phase-Keeps d R Allowed l DeploymentPhase.starting none
                (a (
                  none_selected (λ x. is_run x.desired)
                      (λ x. record x { desired = AssignmentDesired.stop }) old (ground arith),
                  quiet,
                ))
                w))

  restart_old-Keeps : Keeps R (restart_old d)
  unfolding restart_old
  restart_old-Keeps w =
      Passes.if_Keeps d R Allowed l _ return (put_all _ >> emit d _ _ _) w
        (λ _. Passes.return-Keeps d R Allowed l w)
        (λ _. put_then_emit-Keeps _ _ (Passes.emit-Keeps d R Allowed l _ _ _) w)

  pub stateful_fail-Keeps :
      Allowed DeploymentPhase.failed → (reason : Message) → Keeps R (stateful_fail d reason)
  unfolding stateful_fail
  stateful_fail-Keeps a reason =
      Passes.then_Keeps d R Allowed l
        (reap_green d >> restart_old d >> emit d "deploy.failed" "error" reason) _
        (Passes.then_Keeps d R Allowed l (reap_green d >> restart_old d) _
          (Passes.then_Keeps d R Allowed l (reap_green d) _ (Passes.reap_green-Keeps d R Allowed l)
            restart_old-Keeps)
          (Passes.emit-Keeps d R Allowed l _ _ _))
        (Passes.set_phase-Keeps d R Allowed l _ _ a)

  ensure_volume-Keeps :
      (env : Environment) (node_id name : Ident) → Keeps R (ensure_volume env node_id name)
  unfolding ensure_volume
  ensure_volume-Keeps env node_id name w =
      elim (Option-cases (volume_by_name w.store env.project_id env.id name)) [
        | inl e ↦ rw (e, ensure_volume) (Passes.put_vol-Keeps d R Allowed l _ _)
        | inr (v, e) ↦ rw (e, ensure_volume) (Passes.return-Keeps d R Allowed l w)
      ]

  start_on-Keeps :
      Allowed DeploymentPhase.failed
      → (env : Environment) (rel : Release) (nodes : List Ident)
      → Keeps R (start_on env rel d nodes)
  unfolding start_on ensure_deploy_volumes
  start_on-Keeps f env rel [] = stateful_fail-Keeps f _
  start_on-Keeps f env rel (node_id ∷ rest) =
      Passes.then_Keeps d R Allowed l (ensure_deploy_volumes env rel node_id) _
        (each-Keeps R l.step (ensure_volume env node_id) rel.service.volumes
          (ensure_volume-Keeps env node_id))
        (λ w. Passes.put_asgs-Keeps d R Allowed l _ _)

  stateful_start-Keeps :
      Allowed DeploymentPhase.failed
      → (env : Environment) (rel : Release) (w : World)
      → (GreenUp d w.store → Allowed DeploymentPhase.healthchecking)
      → R w.store (stateful_start env rel d w).0.store
  unfolding stateful_start
  stateful_start-Keeps f env rel w a =
      let green = green_assignments w.store d in
      let place_one = start_on env rel d (place w.store rel env.id 1 []).0 in
      let next = set_phase d DeploymentPhase.healthchecking none in
      let give_up = stateful_fail d Message.new_failed_to_start in
      let up = all (λ x. is_up (state_of x)) green in
      Passes.if_Keeps d R Allowed l (is_nil green) place_one
        (λ u. if any_failed green then give_up u else if not up then return u else next u) w
        (λ _. start_on-Keeps f env rel _ w)
        (λ _.
          Passes.if_Keeps d R Allowed l (any_failed green) give_up
            (λ u. if not up then return u else next u) w (λ _. stateful_fail-Keeps f _ w)
            (λ sound.
              Passes.if_Keeps d R Allowed l (not up) return next w
                (λ _. Passes.return-Keeps d R Allowed l w)
                (λ ready. Passes.set_phase-Keeps d R Allowed l _ _ (a (sound, ground arith)) w)))

  stateful_health-Keeps :
      Allowed DeploymentPhase.failed
      → (rel : Release) (w : World)
      → (InstanceHealthy d w.store → Allowed DeploymentPhase.promoting)
      → R w.store (stateful_health rel d w).0.store
  unfolding stateful_health
  stateful_health-Keeps f rel w a =
      let green = green_assignments w.store d in
      let next = set_phase d DeploymentPhase.promoting none in
      let give_up = stateful_fail d Message.new_unhealthy in
      let late = stateful_fail d Message.new_not_healthy_in_time in
      let ready = not (is_nil green) && all (λ x. is_healthy (state_of x)) green in
      let over = ltb (d.updated_at + health_deadline rel) w.now in
      Passes.if_Keeps d R Allowed l (any_failed green) give_up
        (λ u. if ready then next u else if over then late u else return u) w
        (λ _. stateful_fail-Keeps f _ w)
        (λ _.
          Passes.if_Keeps d R Allowed l ready next (λ u. if over then late u else return u) w
            (λ e. Passes.set_phase-Keeps d R Allowed l _ _ (a (ground arith, ground arith)) w)
            (λ _.
              Passes.if_Keeps d R Allowed l over late return w (λ _. stateful_fail-Keeps f _ w)
                (λ _. Passes.return-Keeps d R Allowed l w)))

  stateful_promote-Keeps :
      Keeps R (promote_command d) → Allowed DeploymentPhase.succeeded → Keeps R (stateful_promote d)
  unfolding stateful_promote
  stateful_promote-Keeps p a =
      Passes.then_Keeps d R Allowed l
        (promote_command d >> emit d "deploy.maintenance_end" "info" Message.promoted_healthy) _
        (Passes.then_Keeps d R Allowed l (promote_command d) _ p
          (Passes.emit-Keeps d R Allowed l _ _ _))
        (Passes.set_phase-Keeps d R Allowed l _ _ a)

  stateful_pending-Keeps :
      Allowed DeploymentPhase.failed
      → Allowed DeploymentPhase.building
      → Allowed DeploymentPhase.stopping_old
      → (rel : Release) → Keeps R (stateful_pending rel d)
  unfolding stateful_pending
  stateful_pending-Keeps f a b rel =
      let refuse = abort d Message.no_image_ref in
      let next = set_phase d DeploymentPhase.stopping_old none in
      by_if (Keeps R) (not (d.build_id == blank) && rel.image_ref == blank)
        (set_phase d DeploymentPhase.building none)
        (if rel.image_ref == blank then refuse else next)
        (λ _. Passes.set_phase-Keeps d R Allowed l _ _ a)
        (λ _.
          by_if (Keeps R) (rel.image_ref == blank) refuse next
            (λ _. Passes.abort-Keeps d R Allowed l f _)
            (λ _. Passes.set_phase-Keeps d R Allowed l _ _ b))

  -- What a pass over a stateful rollout may do, by the phase that it starts from.
  abbrev pub StatefulAllowed : Store → DeploymentPhase → Type 0
  StatefulAllowed st DeploymentPhase.pending =
      Allowed DeploymentPhase.building × Allowed DeploymentPhase.stopping_old
  StatefulAllowed st DeploymentPhase.building = Allowed DeploymentPhase.stopping_old
  StatefulAllowed st DeploymentPhase.stopping_old =
      OldStopped d st → Allowed DeploymentPhase.starting
  StatefulAllowed st DeploymentPhase.starting =
      GreenUp d st → Allowed DeploymentPhase.healthchecking
  StatefulAllowed st DeploymentPhase.healthchecking =
      InstanceHealthy d st → Allowed DeploymentPhase.promoting
  StatefulAllowed st DeploymentPhase.promoting =
      Keeps R (promote_command d) × Allowed DeploymentPhase.succeeded
  StatefulAllowed st _ = Unit {0}

  pub reconcile_stateful-Keeps :
      Allowed DeploymentPhase.failed
      → (env : Environment) (rel : Release) (p : DeploymentPhase) (w : World)
      → StatefulAllowed w.store p
      → R w.store (reconcile_stateful env rel d p w).0.store
  unfolding reconcile_stateful
  reconcile_stateful-Keeps f env rel DeploymentPhase.pending w a =
      stateful_pending-Keeps f a.0 a.1 rel w
  reconcile_stateful-Keeps f env rel DeploymentPhase.building w a =
      Passes.check_build-Keeps d R Allowed l f DeploymentPhase.stopping_old a rel w
  reconcile_stateful-Keeps f env rel DeploymentPhase.stopping_old w a = stop_old-Keeps w a
  reconcile_stateful-Keeps f env rel DeploymentPhase.starting w a =
      stateful_start-Keeps f env rel w a
  reconcile_stateful-Keeps f env rel DeploymentPhase.healthchecking w a =
      stateful_health-Keeps f rel w a
  reconcile_stateful-Keeps f env rel DeploymentPhase.promoting w a =
      stateful_promote-Keeps a.0 a.1 w
  reconcile_stateful-Keeps f env rel _ w a = Passes.return-Keeps d R Allowed l w
