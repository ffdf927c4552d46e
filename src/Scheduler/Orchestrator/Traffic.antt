-- ===== src/Scheduler/Orchestrator/Traffic.antt =====
-- Which release receives an environment's traffic: a pass of the orchestrator moves it only when it
-- promotes.
use zattera_dev.Base.{
  ◌≡◌, ◌≢◌, ◌⊎◌, refl, sym, ap, ◌∙◌, inl, inr, some, arith, get, get-put, Option-cases,
}
use zattera_dev.State.Types.{Ident, Environment, Release, Deployment, DeploymentPhase}
use zattera_dev.State.Store.{Store, environment, release, put_release, put_volume, put_environment}
use zattera_dev.Raft.Fsm.{PromoteRelease, with_active, apply_promote_release}
use zattera_dev.Raft.World.{World}
use zattera_dev.Raft.Rules.{Keeps}
use zattera_dev.Raft.Frames.{
  put_assignments-Framed, delete_assignments-Framed, append_events-EventsOnly,
}
use zattera_dev.Scheduler.Stateful.{promote_command}
use zattera_dev.Scheduler.Orchestrator.{Orchestrator, reconcile}
use zattera_dev.Scheduler.Orchestrator.Promotion.{phase_quiet}
use zattera_dev.Scheduler.Passes.{Lawful, promote_command_store}
use zattera_dev.Scheduler.Passes.Stateful.{StatefulAllowed}
use zattera_dev.Scheduler.Passes.RedGreen.{RedGreenAllowed}
use zattera_dev.Scheduler.Passes.Whole.{reconcile-Keeps}

-- Every environment is stored under its own id.
abbrev pub EnvironmentsKeyed : Store → Type 0
EnvironmentsKeyed s = (j : Ident) (x : Environment) → get j s.environments ≡ some x → x.id ≡ j

-- The deployment's environment now has the deployment's release as its active one, for a deployment that
-- is in the promoting phase and whose release exists.
pub record Switched (d : Deployment) (t : Store) : Type 0 where
  pub promoting : d.phase ≡ DeploymentPhase.promoting
  pub switched :
      (x : Environment) × (get d.environment_id t.environments ≡ some x)
      × (x.active_release_id ≡ d.release_id)

-- The environments are as before, or the deployment's one has been switched to its release and the
-- others are as before.
pub record Traffic (d : Deployment) (s t : Store) : Type 0 where
  pub others : (j : Ident) → j ≢ d.environment_id → get j t.environments ≡ get j s.environments
  pub own : (t.environments ≡ s.environments) ⊎ Switched d t
  pub keyed : EnvironmentsKeyed t

module _ (d : Deployment) where
  abbrev TrafficKeyed : Store → Store → Type 0
  TrafficKeyed s t = EnvironmentsKeyed s → Traffic d s t

  quiet_Traffic : (s t : Store) → t.environments ≡ s.environments → TrafficKeyed s t
  quiet_Traffic s t e keyed = record {
    others = λ j h. ap (get j) e;
    own = inl e;
    keyed = λ j x found. keyed j x (sym (ap (get j) e) ∙ found);
  }

  join_Traffic : (s t u : Store) → TrafficKeyed s t → TrafficKeyed t u → TrafficKeyed s u
  join_Traffic s t u f g keyed =
      let p = f keyed in
      let q = g p.keyed in
      record {
        others = λ j h. q.others j h ∙ p.others j h;
        own = elim q.own [
          | inr now ↦ inr (record { promoting = now.promoting; switched = now.switched })
          | inl same ↦ elim p.own [
            | inl before ↦ inl (same ∙ before)
            | inr was ↦ inr (record {
              promoting = was.promoting;
              switched =
                  (was.switched.0, ap (get d.environment_id) same ∙ was.switched.1, was.switched.2);
            })
          ]
        ];
        keyed = q.keyed;
      }

  -- No phase of the deployment is barred.
  abbrev Any : DeploymentPhase → Type 0
  Any _ = Unit {0}

  Traffic-Lawful : Lawful d TrafficKeyed Any
  Traffic-Lawful = record {
    step = record { stay = λ s. quiet_Traffic s s refl; join = join_Traffic };
    puts = λ batch s. quiet_Traffic s _ (put_assignments-Framed batch s).environments;
    deletes = λ ids s. quiet_Traffic s _ (delete_assignments-Framed ids s).environments;
    events = λ es s. quiet_Traffic s _ (append_events-EventsOnly es s).framed.environments;
    stamps = λ rel s. quiet_Traffic s _ (unfold put_release in refl);
    volumes = λ v s. quiet_Traffic s _ (unfold put_volume in refl);
    phase = λ now m s e _. quiet_Traffic s _ (phase_quiet now m s);
  }

  put_Traffic :
      d.phase ≡ DeploymentPhase.promoting
      → (s : Store) (x : Environment) → x.id ≡ d.environment_id
      → x.active_release_id ≡ d.release_id
      → TrafficKeyed s (put_environment x s)
  unfolding put_environment
  put_Traffic p s x same active keyed = record {
    others = λ j h. ground (arith, get-put j x.id x s.environments);
    own = inr (record {
      promoting = p;
      switched = (x, ground (arith, get-put d.environment_id x.id x s.environments), active);
    });
    keyed = λ j y found. ground (arith, get-put j x.id x s.environments, keyed j y);
  }

  promote_release_Traffic :
      d.phase ≡ DeploymentPhase.promoting
      → (m : PromoteRelease) (s : Store) → m.environment_id ≡ d.environment_id
      → m.release_id ≡ d.release_id
      → TrafficKeyed s (apply_promote_release m s).0
  unfolding apply_promote_release environment with_active
  promote_release_Traffic p m s e r keyed = elim (Option-cases (environment s m.environment_id)) [
    | inl none_found ↦ rw (none_found, apply_promote_release) (quiet_Traffic s s refl keyed)
    | inr (x, found) ↦ elim (Option-cases (release s m.release_id)) [
      | inl missing ↦ rw (found, missing, apply_promote_release) (quiet_Traffic s s refl keyed)
      | inr (rel, present) ↦
          rw (found, present, apply_promote_release)
            (put_Traffic p s (with_active m.release_id x) (keyed m.environment_id x found ∙ e) r
              keyed)
    ]
  ]

  promote_command_Traffic :
      d.phase ≡ DeploymentPhase.promoting → Keeps TrafficKeyed (promote_command d)
  promote_command_Traffic p w =
      promote_command_store TrafficKeyed d w (quiet_Traffic w.store w.store refl)
        (λ m e r. promote_release_Traffic p m w.store e r)

  stateful_free :
      (st : Store) (p : DeploymentPhase)
      → d.phase ≡ p
      → StatefulAllowed d TrafficKeyed Any Traffic-Lawful st p
  stateful_free st DeploymentPhase.pending e = (tt, tt)
  stateful_free st DeploymentPhase.building e = tt
  stateful_free st DeploymentPhase.stopping_old e = λ _. tt
  stateful_free st DeploymentPhase.starting e = λ _. tt
  stateful_free st DeploymentPhase.healthchecking e = λ _. tt
  stateful_free st DeploymentPhase.promoting e = (promote_command_Traffic e, tt)
  stateful_free st _ e = tt

  red_green_free :
      (w : World) (env : Environment) (rel : Release) (p : DeploymentPhase)
      → d.phase ≡ p
      → RedGreenAllowed d TrafficKeyed Any Traffic-Lawful w env rel p
  red_green_free w env rel DeploymentPhase.pending e = (tt, tt, λ _. tt)
  red_green_free w env rel DeploymentPhase.building e = tt
  red_green_free w env rel DeploymentPhase.placing e = tt
  red_green_free w env rel DeploymentPhase.starting e = λ _. tt
  red_green_free w env rel DeploymentPhase.healthchecking e = λ _. tt
  red_green_free w env rel DeploymentPhase.promoting e = (promote_command_Traffic e, tt)
  red_green_free w env rel DeploymentPhase.draining_old e = λ _. tt
  red_green_free w env rel _ e = tt

-- One pass over a deployment leaves the environments as they were, or the deployment was promoting and
-- its environment now has the deployment's release as the active one; the other environments are as they
-- were in both cases. So an abort, a supersession, a failed health check and a drain never move traffic.
-- Environments are assumed to be stored under their own ids; what raft answers is arbitrary.
pub reconcile-Traffic :
    (o : Orchestrator) (d : Deployment) (w : World)
    → EnvironmentsKeyed w.store
    → Traffic d w.store (reconcile o d w).0.store
reconcile-Traffic o d w =
    reconcile-Keeps d (TrafficKeyed d) (Any d) (Traffic-Lawful d) o w tt
      (λ _. ((λ _. tt), (λ _. tt)))
      (λ env rel found. (
        (λ _. stateful_free d w.store d.phase refl),
        (λ _. red_green_free d w env rel d.phase refl),
      ))
