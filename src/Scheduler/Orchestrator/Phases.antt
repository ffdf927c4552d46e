-- ===== src/Scheduler/Orchestrator/Phases.antt =====
-- The phase diagram of a rollout: a pass of the orchestrator moves the deployment along one edge of it,
-- or not at all, and touches no other deployment.
use zattera_dev.Base.{
  ℕ, ◌≡◌, ◌≢◌, ◌⊎◌, refl, sym, ap, ◌∙◌, inl, inr, Bool, true, false, Option, none, some, arith, get,
  get-put, subst, Bool-cases,
}
use zattera_dev.State.Types.{Ident, Environment, Release, Deployment, DeploymentPhase}
use zattera_dev.State.Store.{
  Store, release, put_deployment, put_release, put_volume, put_environment, deployment,
}
use zattera_dev.Raft.Fsm.{
  SetDeploymentPhase, PromoteRelease, with_phase, apply_set_deployment_phase, apply_promote_release,
}
use zattera_dev.Raft.World.{World}
use zattera_dev.Raft.Rules.{Keeps}
use zattera_dev.Raft.Frames.{
  put_assignments-Framed, delete_assignments-Framed, append_events-EventsOnly,
}
use zattera_dev.Scheduler.Helpers.{is_terminal_phase}
use zattera_dev.Scheduler.Stateful.{promote_command}
use zattera_dev.Scheduler.Orchestrator.{Orchestrator, is_draining_old, reconcile}
use zattera_dev.Scheduler.Passes.{Lawful, promote_command_store}
use zattera_dev.Scheduler.Passes.Stateful.{StatefulAllowed}
use zattera_dev.Scheduler.Passes.RedGreen.{RedGreenAllowed}
use zattera_dev.Scheduler.Passes.Whole.{reconcile-Keeps}
use zattera_dev.Scheduler.Rollout.{superseded}
use zattera_dev.Scheduler.Guards.{
  OldStopped, GreenUp, GreenHealthy, InstanceHealthy, DrainOver, Warm,
}

-- The edges out of a phase in a pass at `now` over the store `st`, with what the pass has seen when it
-- takes one; for a service that is stateful or not.
pub data Edge (st : Store) (now : ℕ) (d : Deployment)
    : Bool → DeploymentPhase → DeploymentPhase → Type 0 where
  fail :
      {k : Bool} {p : DeploymentPhase}
      → is_terminal_phase p ≡ false
      → Edge st now d k p DeploymentPhase.failed
  give_way_to_newer :
      {k : Bool} {p : DeploymentPhase}
      → superseded st d ≡ true
      → is_terminal_phase p ≡ false
      → is_draining_old p ≡ false
      → Edge st now d k p DeploymentPhase.superseded
  cut_drain :
      {k : Bool}
      → superseded st d ≡ true
      → Edge st now d k DeploymentPhase.draining_old DeploymentPhase.succeeded
  drained :
      DrainOver d now → Edge st now d false DeploymentPhase.draining_old DeploymentPhase.succeeded
  build_first : {k : Bool} → Edge st now d k DeploymentPhase.pending DeploymentPhase.building
  built : Edge st now d false DeploymentPhase.building DeploymentPhase.placing
  place_first : Edge st now d false DeploymentPhase.pending DeploymentPhase.placing
  still_warm :
      (env : Environment) (rel : Release)
      → release st d.release_id ≡ some rel
      → Warm d st env rel
      → Edge st now d false DeploymentPhase.pending DeploymentPhase.promoting
  placed : Edge st now d false DeploymentPhase.placing DeploymentPhase.starting
  started :
      {k : Bool}
      → GreenUp d st
      → Edge st now d k DeploymentPhase.starting DeploymentPhase.healthchecking
  all_healthy :
      GreenHealthy d st
      → Edge st now d false DeploymentPhase.healthchecking DeploymentPhase.promoting
  instance_healthy :
      InstanceHealthy d st
      → Edge st now d true DeploymentPhase.healthchecking DeploymentPhase.promoting
  promoted : Edge st now d false DeploymentPhase.promoting DeploymentPhase.draining_old
  stop_first : Edge st now d true DeploymentPhase.pending DeploymentPhase.stopping_old
  built_stateful : Edge st now d true DeploymentPhase.building DeploymentPhase.stopping_old
  old_stopped :
      OldStopped d st → Edge st now d true DeploymentPhase.stopping_old DeploymentPhase.starting
  promoted_stateful : Edge st now d true DeploymentPhase.promoting DeploymentPhase.succeeded

-- Every deployment is stored under its own id.
abbrev pub Keyed : Store → Type 0
Keyed s = (j : Ident) (x : Deployment) → get j s.deployments ≡ some x → x.id ≡ j

-- The phase of this deployment moved along an edge, or its object is as before; every other deployment
-- is as before.
pub record Moves (st : Store) (now : ℕ) (d : Deployment) (k : Bool) (s t : Store) : Type 0 where
  pub others : (j : Ident) → j ≢ d.id → get j t.deployments ≡ get j s.deployments
  pub own :
      (get d.id t.deployments ≡ get d.id s.deployments)
      ⊎ ((x : Deployment) × (get d.id t.deployments ≡ some x) × Edge st now d k d.phase x.phase)
  pub keyed : Keyed t

module _ (st : Store) (clock : ℕ) (d : Deployment) (k : Bool) where
  abbrev MovesKeyed : Store → Store → Type 0
  MovesKeyed s t = Keyed s → Moves st clock d k s t

  quiet_Moves : (s t : Store) → t.deployments ≡ s.deployments → MovesKeyed s t
  quiet_Moves s t e keyed = record {
    others = λ j h. ap (get j) e;
    own = inl (ap (get d.id) e);
    keyed = λ j x found. keyed j x (sym (ap (get j) e) ∙ found);
  }

  join_Moves : (s t u : Store) → MovesKeyed s t → MovesKeyed t u → MovesKeyed s u
  join_Moves s t u f g keyed =
      let p = f keyed in
      let q = g p.keyed in
      record {
        others = λ j h. q.others j h ∙ p.others j h;
        own = elim q.own [
          | inr moved ↦ inr moved
          | inl same ↦ elim p.own [
            | inl before ↦ inl (same ∙ before)
            | inr (x, e, edge) ↦ inr (x, same ∙ e, edge)
          ]
        ];
        keyed = q.keyed;
      }

  -- The object that the handler writes: the stored one in its new phase.
  put_Moves :
      (s : Store) (x : Deployment)
      → x.id ≡ d.id
      → Edge st clock d k d.phase x.phase
      → MovesKeyed s (put_deployment x s)
  unfolding put_deployment
  put_Moves s x same edge keyed = record {
    others = λ j h. ground (arith, get-put j x.id x s.deployments);
    own = inr (x, ground (arith, get-put d.id x.id x s.deployments), edge);
    keyed = λ j y found. ground (arith, get-put j x.id x s.deployments, keyed j y);
  }

  set_phase_Moves :
      (now : ℕ) (m : SetDeploymentPhase) (s : Store)
      → m.deployment_id ≡ d.id
      → Edge st clock d k d.phase m.phase
      → (stored : Option Deployment) → deployment s m.deployment_id ≡ stored
      → MovesKeyed s (apply_set_deployment_phase (some now) m s).0
  unfolding apply_set_deployment_phase deployment
  set_phase_Moves now m s e edge none found keyed =
      rw (found, apply_set_deployment_phase) (quiet_Moves s s refl keyed)
  set_phase_Moves now m s e edge (some x) found keyed =
      rw (found, apply_set_deployment_phase)
        (put_Moves s (with_phase (some now) m x) (keyed m.deployment_id x found ∙ e) edge keyed)

  Moves-Lawful : Lawful d MovesKeyed (Edge st clock d k d.phase)
  Moves-Lawful = record {
    step = record { stay = λ s. quiet_Moves s s refl; join = join_Moves };
    puts = λ batch s. quiet_Moves s _ (put_assignments-Framed batch s).deployments;
    deletes = λ ids s. quiet_Moves s _ (delete_assignments-Framed ids s).deployments;
    events = λ es s. quiet_Moves s _ (append_events-EventsOnly es s).framed.deployments;
    stamps = λ rel s. quiet_Moves s _ (unfold put_release in refl);
    volumes = λ v s. quiet_Moves s _ (unfold put_volume in refl);
    phase = λ now m s e edge. set_phase_Moves now m s e edge (deployment s m.deployment_id) refl;
  }

  promote_quiet :
      (m : PromoteRelease) (s : Store) → (apply_promote_release m s).0.deployments ≡ s.deployments
  unfolding apply_promote_release put_environment
  promote_quiet m s = ground arith

  promote_command_Moves : Keeps MovesKeyed (promote_command d)
  promote_command_Moves w =
      promote_command_store MovesKeyed d w (quiet_Moves w.store w.store refl)
        (λ m _ _. quiet_Moves w.store _ (promote_quiet m w.store))

  edge_from :
      {b : Bool} {p q : DeploymentPhase}
      → k ≡ b
      → d.phase ≡ p
      → Edge st clock d b p q
      → Edge st clock d k d.phase q
  edge_from {b = b} {q = q} t e edge =
      subst (λ c. Edge st clock d c d.phase q) (sym t)
        (subst (λ y. Edge st clock d b y q) (sym e) edge)

  stateful_edges :
      k ≡ true
      → (p : DeploymentPhase) → d.phase ≡ p
      → StatefulAllowed d MovesKeyed (Edge st clock d k d.phase) Moves-Lawful st p
  stateful_edges t DeploymentPhase.pending e = (edge_from t e build_first, edge_from t e stop_first)
  stateful_edges t DeploymentPhase.building e = edge_from t e built_stateful
  stateful_edges t DeploymentPhase.stopping_old e = λ h. edge_from t e (old_stopped h)
  stateful_edges t DeploymentPhase.starting e = λ h. edge_from t e (started h)
  stateful_edges t DeploymentPhase.healthchecking e = λ h. edge_from t e (instance_healthy h)
  stateful_edges t DeploymentPhase.promoting e =
      (promote_command_Moves, edge_from t e promoted_stateful)
  stateful_edges t _ e = tt

  cut_drain_edge :
      superseded st d ≡ true
      → (p : DeploymentPhase) → is_draining_old p ≡ true
      → Edge st clock d k p DeploymentPhase.succeeded
  cut_drain_edge newer DeploymentPhase.draining_old e = cut_drain newer
  cut_drain_edge newer _ e = absurd (ground arith)

red_green_edges :
    (w : World) (d : Deployment) (k : Bool)
    → k ≡ false
    → (env : Environment) (rel : Release) → release w.store d.release_id ≡ some rel
    → (p : DeploymentPhase) → d.phase ≡ p
    → RedGreenAllowed d
        (MovesKeyed w.store w.now d k)
        (Edge w.store w.now d k d.phase)
        (Moves-Lawful w.store w.now d k)
        w
        env
        rel
        p
red_green_edges w d k t env rel found DeploymentPhase.pending e = (
  edge_from w.store w.now d k t e build_first,
  edge_from w.store w.now d k t e place_first,
  λ h. edge_from w.store w.now d k t e (still_warm env rel found h),
)
red_green_edges w d k t env rel found DeploymentPhase.building e =
    edge_from w.store w.now d k t e built
red_green_edges w d k t env rel found DeploymentPhase.placing e =
    edge_from w.store w.now d k t e placed
red_green_edges w d k t env rel found DeploymentPhase.starting e =
    λ h. edge_from w.store w.now d k t e (started h)
red_green_edges w d k t env rel found DeploymentPhase.healthchecking e =
    λ h. edge_from w.store w.now d k t e (all_healthy h)
red_green_edges w d k t env rel found DeploymentPhase.promoting e =
    (promote_command_Moves w.store w.now d k, edge_from w.store w.now d k t e promoted)
red_green_edges w d k t env rel found DeploymentPhase.draining_old e =
    λ h. edge_from w.store w.now d k t e (drained h)
red_green_edges w d k t env rel found _ e = tt

-- Whether the deployment's release, if it exists, is of a stateful service.
abbrev pub stateful_of : Store → Deployment → Bool
stateful_of st d = elim (release st d.release_id) [ none ↦ false | some rel ↦ rel.service.stateful ]

-- One pass over a deployment leaves its stored object as it was, or moves it along one edge of the phase
-- diagram out of the phase that the pass read, with the edge's condition true of the store and the clock
-- that the pass started with: whatever raft answers to the proposals, and with every other deployment
-- untouched. Deployments are assumed to be stored under their own ids.
pub reconcile-Moves :
    (o : Orchestrator) (d : Deployment) (w : World)
    → Keyed w.store
    → Moves w.store w.now d (stateful_of w.store d) w.store (reconcile o d w).0.store
unfolding reconcile release
reconcile-Moves o d w keyed = elim (Bool-cases (is_terminal_phase d.phase)) [
  | inl over ↦
      rw (over, reconcile)
        (quiet_Moves w.store w.now d (stateful_of w.store d) w.store w.store refl keyed)
  | inr live ↦
      let k = stateful_of w.store d in
      reconcile-Keeps d (MovesKeyed w.store w.now d k) (Edge w.store w.now d k d.phase)
        (Moves-Lawful w.store w.now d k) o w (fail live)
        (λ newer. (
          (λ e. cut_drain_edge w.store w.now d k newer d.phase e),
          (λ e. give_way_to_newer newer live e),
        ))
        (λ env rel found. (
          (λ t. stateful_edges w.store w.now d k (ground (arith, found)) d.phase refl),
          (λ t. red_green_edges w d k (ground (arith, found)) env rel found d.phase refl),
        ))
        keyed
]
