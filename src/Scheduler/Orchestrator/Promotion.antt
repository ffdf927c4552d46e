-- ===== src/Scheduler/Orchestrator/Promotion.antt =====
-- A promotion makes two proposals, of the switch and of the drain: what becomes of them.
use zattera_dev.Base.{
  ℕ, ◌+◌, ◌%◌, ◌^◌, ◌<◌, ◌≡◌, Bool, true, false, not, ◌&&◌, ◌||◌, if◌then◌else◌, refl, ap, ◌∙◌,
  Option, none, some, arith, get, get-put,
}
use zattera_dev.State.Types.{Ident, Environment, Release, Deployment, DeploymentPhase}
use zattera_dev.State.Store.{
  Store, environment, release, deployment, put_deployment, put_environment,
}
use zattera_dev.Raft.Fsm
use zattera_dev.Raft.Fsm.{
  with_phase, SetDeploymentPhase, PromoteRelease, with_active, apply_set_deployment_phase,
  apply_promote_release,
}
use zattera_dev.Raft.World.{
  World, Outcome, Answer, committed, not_leader, leadership_lost, failed, done, lost, propose,
}
use zattera_dev.Scheduler.Stateful.{promote_command}
use zattera_dev.Scheduler.Orchestrator.{Orchestrator, drain_window_dur, start_drain, promote}

pub phase_quiet :
    (now : ℕ) (m : SetDeploymentPhase) (s : Store)
    → (apply_set_deployment_phase (some now) m s).0.environments ≡ s.environments
unfolding apply_set_deployment_phase put_deployment
phase_quiet now m s = ground arith

set_phase_found :
    (now : Option ℕ) (m : SetDeploymentPhase) (s : Store) (x : Deployment)
    → deployment s m.deployment_id ≡ some x
    → x.id ≡ m.deployment_id
    → deployment (apply_set_deployment_phase now m s).0 m.deployment_id ≡ some (with_phase now m x)
unfolding apply_set_deployment_phase put_deployment with_phase
set_phase_found now m s x f k =
    rw (f, apply_set_deployment_phase)
      (unfold deployment in
        ground (arith, get-put m.deployment_id x.id (with_phase now m x) s.deployments))

promote_release_found :
    (m : PromoteRelease) (s : Store) (env : Environment) (rel : Release)
    → environment s m.environment_id ≡ some env
    → env.id ≡ m.environment_id
    → release s m.release_id ≡ some rel
    → environment (apply_promote_release m s).0 m.environment_id
      ≡ some (with_active m.release_id env)
unfolding apply_promote_release put_environment with_active
promote_release_found m s env rel e k r =
    rw (e, r, apply_promote_release)
      (unfold environment in
        ground
          (arith, get-put m.environment_id env.id (with_active m.release_id env) s.environments))

phase_environment :
    (now : ℕ) (m : SetDeploymentPhase) (s : Store) (j : Ident)
    → environment (apply_set_deployment_phase (some now) m s).0 j ≡ environment s j
unfolding environment
phase_environment now m s j = ap (get j) (phase_quiet now m s)

promote_release_deployment :
    (m : PromoteRelease) (s : Store) (j : Ident)
    → deployment (apply_promote_release m s).0 j ≡ deployment s j
unfolding deployment apply_promote_release put_environment
promote_release_deployment m s j = ground arith

-- What a promotion writes to the deployment.
abbrev drain_start : Orchestrator → Deployment → ℕ → SetDeploymentPhase
drain_start o d now = record {
  deployment_id = d.id;
  phase = DeploymentPhase.draining_old;
  error = none;
  promoted_at = some now;
  drain_deadline = some (now + drain_window_dur o);
}

-- Whether the command of a proposal is applied, and whether the pass ends with the loss of leadership.
abbrev pub takes_effect : Answer → Bool
takes_effect committed = true
takes_effect not_leader = false
takes_effect leadership_lost = true
takes_effect failed = false

abbrev pub ends_pass : Answer → Bool
ends_pass committed = false
ends_pass not_leader = true
ends_pass leadership_lost = true
ends_pass failed = false

-- The environment with traffic on a release; the route generation is a uint64.
abbrev pub switched : Ident → Environment → Environment
switched release_id env = record env {
  active_release_id = release_id;
  route_generation = (env.route_generation + 1) % 2 ^ 64;
}

-- The deployment drains its old release from `now` on, for the configured time, or for ten minutes
-- where none is configured.
pub record IsDraining (o : Orchestrator) (now : ℕ) (x y : Deployment) : Type 0 where
  pub draining : y.phase ≡ DeploymentPhase.draining_old
  pub promoted : y.promoted_at ≡ some now
  pub same_release : y.release_id ≡ x.release_id
  pub same_error : y.error ≡ x.error
  pub configured : 0 < o.drain_dur → y.drain_deadline ≡ some (now + o.drain_dur)
  pub standard : o.drain_dur ≡ 0 → y.drain_deadline ≡ some (now + 600000000000)

drained :
    (o : Orchestrator) (d x : Deployment) (now : ℕ)
    → IsDraining o now x (with_phase (some now) (drain_start o d now) x)
unfolding with_phase drain_window_dur
drained o d x now = record {
  draining = refl;
  promoted = refl;
  same_release = refl;
  same_error = refl;
  configured = λ h. ground (arith, h);
  standard = λ h. ground (arith, h);
}

-- What the second proposal leaves, by its answer.
record DrainSettled (o : Orchestrator) (d : Deployment) (w : World) (x : Deployment) (a : Answer)
    (r : World × Outcome) : Type 0 where
  same_environments : (j : Ident) → environment r.0.store j ≡ environment w.store j
  drains :
      (y : Deployment) × (deployment r.0.store d.id ≡ some y)
      × (takes_effect a ≡ true → IsDraining o w.now x y)
      × (takes_effect a ≡ false → y ≡ x)
  outcome : r.1 ≡ (if ends_pass a then lost else done)

start_drain_lem :
    (o : Orchestrator) (d : Deployment) (w : World) (x : Deployment) (a : Answer)
    → w.answers w.asked ≡ a
    → deployment w.store d.id ≡ some x
    → x.id ≡ d.id
    → DrainSettled o d w x a (start_drain o d w)
unfolding start_drain propose Fsm.apply
start_drain_lem o d w x committed e f fk = rw e (record {
  same_environments = phase_environment w.now (drain_start o d w.now) w.store;
  drains = (
    with_phase (some w.now) (drain_start o d w.now) x,
    set_phase_found (some w.now) (drain_start o d w.now) w.store x f fk,
    (λ _. drained o d x w.now),
    (λ h. absurd (cc h)),
  );
  outcome = refl;
})
start_drain_lem o d w x leadership_lost e f fk = rw e (record {
  same_environments = phase_environment w.now (drain_start o d w.now) w.store;
  drains = (
    with_phase (some w.now) (drain_start o d w.now) x,
    set_phase_found (some w.now) (drain_start o d w.now) w.store x f fk,
    (λ _. drained o d x w.now),
    (λ h. absurd (cc h)),
  );
  outcome = refl;
})
start_drain_lem o d w x not_leader e f fk = rw e (record {
  same_environments = λ j. refl;
  drains = (x, f, (λ h. absurd (cc h)), (λ _. refl));
  outcome = refl;
})
start_drain_lem o d w x failed e f fk = rw e (record {
  same_environments = λ j. refl;
  drains = (x, f, (λ h. absurd (cc h)), (λ _. refl));
  outcome = refl;
})

-- What a promotion leaves, by the answers to its two proposals.
abbrev pub IsPromoted :
    Orchestrator
    → Deployment
    → World
    → Environment
    → Deployment
    → Answer
    → Answer
    → World × Outcome
    → Type 0
IsPromoted o d w env x first second r =
    (environment r.0.store d.environment_id
      ≡ some (if takes_effect first then switched d.release_id env else env))
    × ((y : Deployment) × (deployment r.0.store d.id ≡ some y)
        × ((not (ends_pass first) && takes_effect second) ≡ true → IsDraining o w.now x y)
        × ((not (ends_pass first) && takes_effect second) ≡ false → y ≡ x))
    × (r.1 ≡ (if ends_pass first || ends_pass second then lost else done))

promote_settled :
    (o : Orchestrator) (d : Deployment) (w : World) (env : Environment) (rel : Release)
    (x : Deployment) (first second : Answer)
    → environment w.store d.environment_id ≡ some env
    → env.id ≡ d.environment_id
    → release w.store d.release_id ≡ some rel
    → deployment w.store d.id ≡ some x
    → x.id ≡ d.id
    → w.answers w.asked ≡ first
    → w.answers (w.asked + 1) ≡ second
    → IsPromoted o d w env x first second (promote o d w)
unfolding promote propose Fsm.apply promote_command with_active
promote_settled o d w env rel x committed second e ek r f fk a b =
    let switch : PromoteRelease = record {
      environment_id = d.environment_id;
      release_id = d.release_id;
      deployment_id = d.id;
    } in
    let w1 = record w { store = (apply_promote_release switch w.store).0; asked = w.asked + 1 } in
    let rest =
      start_drain_lem o d w1 x second b (promote_release_deployment switch w.store d.id ∙ f) fk in
    rw a (
      rest.same_environments d.environment_id ∙ promote_release_found switch w.store env rel e ek r,
      rest.drains,
      rest.outcome,
    )
promote_settled o d w env rel x failed second e ek r f fk a b =
    let rest = start_drain_lem o d (record w { asked = w.asked + 1 }) x second b f fk in
    rw a (rest.same_environments d.environment_id ∙ e, rest.drains, rest.outcome)
promote_settled o d w env rel x not_leader second e ek r f fk a b =
    rw a (e, (x, f, (λ h. absurd (cc h)), (λ _. refl)), refl)
promote_settled o d w env rel x leadership_lost second e ek r f fk a b =
    let switch : PromoteRelease = record {
      environment_id = d.environment_id;
      release_id = d.release_id;
      deployment_id = d.id;
    } in
    rw a (
      promote_release_found switch w.store env rel e ek r,
      (x, promote_release_deployment switch w.store d.id ∙ f, (λ h. absurd (cc h)), (λ _. refl)),
      refl,
    )

-- A promotion of a deployment, for an environment, a release and a deployment that exist, stored under
-- their own ids, whatever raft answers to its two proposals. If the first takes effect, the environment
-- has the release as its active one, its route generation, a uint64, counts up, and nothing else of it
-- changes; if not, it is as it was. If the first does not end the pass and the second takes effect, the
-- deployment, its release and error kept, drains the old release until its configured time from now, or
-- ten minutes; if not, it is as it was. The pass ends with the loss of leadership exactly if the first
-- answer or the second reports it. A committed proposal, and one that leadership is lost over,
-- takes effect; the latter and one refused by a node that does not lead end the pass.
pub promote-IsPromoted :
    (o : Orchestrator) (d : Deployment) (w : World) (env : Environment) (rel : Release)
    (x : Deployment)
    → environment w.store d.environment_id ≡ some env
    → env.id ≡ d.environment_id
    → release w.store d.release_id ≡ some rel
    → deployment w.store d.id ≡ some x
    → x.id ≡ d.id
    → IsPromoted o d w env x (w.answers w.asked) (w.answers (w.asked + 1)) (promote o d w)
promote-IsPromoted o d w env rel x e ek r f fk =
    promote_settled o d w env rel x (w.answers w.asked) (w.answers (w.asked + 1)) e ek r f fk refl
      refl

-- A promotion whose first proposal fails for another reason than leadership, and whose second one is
-- committed, drains the old release although no traffic has moved: the deployment goes on to draining,
-- every environment is as it was, and the pass reports no error.
pub promote-failed :
    (o : Orchestrator) (d : Deployment) (w : World) (x : Deployment)
    → deployment w.store d.id ≡ some x
    → x.id ≡ d.id
    → w.answers w.asked ≡ failed
    → w.answers (w.asked + 1) ≡ committed
    → let r = promote o d w in
      (r.1 ≡ done)
      × (r.0.store.environments ≡ w.store.environments)
      × ((y : Deployment) × (deployment r.0.store d.id ≡ some y)
          × (y.phase ≡ DeploymentPhase.draining_old))
unfolding promote propose Fsm.apply start_drain
promote-failed o d w x f fk first second =
    let drain = drain_start o d w.now in
    rw (first, second)
      (
        refl,
        phase_quiet w.now drain w.store,
        (
          with_phase (some w.now) drain x,
          set_phase_found (some w.now) drain w.store x f fk,
          (unfold with_phase in refl),
        ),
      )
