-- ===== src/Tests/Rollouts.antt =====
-- A rollout that is promoted, by a promotion that succeeds and by one whose first proposal fails.
use zattera_dev.Base.{◌≡◌, ◌*◌, some, refl, arith, get}
use zattera_dev.State.Types.{Deployment, DeploymentPhase}
use zattera_dev.State.Store.{Store, environment, release, deployment}
use zattera_dev.Raft.World.{committed, done}
use zattera_dev.Scheduler.Orchestrator.{reconcile, promote}
use zattera_dev.Scheduler.Orchestrator.Phases.{Keyed, Moves, stateful_of, reconcile-Moves}
use zattera_dev.Scheduler.Orchestrator.Traffic.{EnvironmentsKeyed, Traffic, reconcile-Traffic}
use zattera_dev.Scheduler.Orchestrator.Promotion.{IsPromoted, promote-IsPromoted, promote-failed}
use zattera_dev.Scheduler.Helpers.{second}
use zattera_dev.Tests.{
  cluster, rollout, world, always, fails_first, orchestrator, production, release_of,
}

abbrev promoting : Deployment
promoting = rollout DeploymentPhase.promoting

abbrev st : Store
st = cluster DeploymentPhase.promoting

cluster-Keyed : Keyed st
unfolding get
cluster-Keyed j x found = ground arith

cluster-EnvironmentsKeyed : EnvironmentsKeyed st
unfolding get
cluster-EnvironmentsKeyed j x found = ground arith

reconcile-Moves_example :
    Moves st
      (60 * second)
      promoting
      (stateful_of st promoting)
      st
      (reconcile orchestrator promoting (world always DeploymentPhase.promoting)).0.store
reconcile-Moves_example =
    reconcile-Moves orchestrator promoting (world always DeploymentPhase.promoting) cluster-Keyed

reconcile-Traffic_example :
    Traffic promoting st
      (reconcile orchestrator promoting (world fails_first DeploymentPhase.promoting)).0.store
reconcile-Traffic_example =
    reconcile-Traffic orchestrator promoting (world fails_first DeploymentPhase.promoting)
      cluster-EnvironmentsKeyed

promote-IsPromoted_example :
    IsPromoted orchestrator promoting
      (world always DeploymentPhase.promoting)
      production
      promoting
      committed
      committed
      (promote orchestrator promoting (world always DeploymentPhase.promoting))
unfolding environment release deployment get
promote-IsPromoted_example =
    promote-IsPromoted orchestrator promoting (world always DeploymentPhase.promoting) production
      (release_of 11) promoting refl refl refl refl refl

promote-failed_example :
    let r = promote orchestrator promoting (world fails_first DeploymentPhase.promoting) in
    (r.1 ≡ done)
    × (r.0.store.environments ≡ st.environments)
    × ((y : Deployment) × (deployment r.0.store 300 ≡ some y)
        × (y.phase ≡ DeploymentPhase.draining_old))
unfolding deployment get
promote-failed_example =
    promote-failed orchestrator promoting (world fails_first DeploymentPhase.promoting) promoting
      refl refl refl refl
