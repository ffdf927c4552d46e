-- ===== src/Tests/Running.antt =====
-- A job with one retry left.
use zattera_dev.Base.{
  inl, ℕ, zero, suc, ◌≤◌, ◌<◌, ◌⊎◌, ◌+◌, [], ◌∷◌, refl, ◌≡◌, ◌*◌, ◌-◌, ◌^◌, min, arith,
}
use zattera_dev.State.Types.{Environment, DeploymentPhase}
use zattera_dev.Scheduler.Jobs.{reconcile_jobs, job_backoff, job_retry_max, job_retry_base}
use zattera_dev.Scheduler.Jobs.Backoff.{job_backoff_lem}
use zattera_dev.Scheduler.Jobs.Bounds.{JobBounded, JobsBounded, reconcile_jobs-Bounded}
use zattera_dev.Scheduler.Jobs.{run_on}
use zattera_dev.Scheduler.Jobs.Handover.{RunsUnder, run_on-twice}
use zattera_dev.Scheduler.Serverless.{target}
use zattera_dev.Scheduler.Serverless.Target.{target_lem}
use zattera_dev.Raft.World.{World, Answer, committed, not_leader}
use zattera_dev.Tests.{web, cluster, world, always, nightly, production, release_of}

pub nightly-JobBounded : JobBounded nightly
nightly-JobBounded = record {
  waiting = λ e. ground arith;
  again = λ e. ground arith;
  within = ground arith;
}

reconcile_jobs-Bounded_example :
    JobsBounded (reconcile_jobs (world always DeploymentPhase.succeeded)).0.store
reconcile_jobs-Bounded_example =
    reconcile_jobs-Bounded (world always DeploymentPhase.succeeded) (nightly-JobBounded, tt)

job_backoff_lem_example : job_backoff 3 ≡ min job_retry_max (job_retry_base * 2 ^ (3 - 1))
job_backoff_lem_example = job_backoff_lem 3

target_lem_example :
    let t = target 25 10 1 4 in
    (1 ≤ t) × (t ≤ 4) × ((25 ≤ t * 10) ⊎ (t ≡ 4)) × ((t * 10 < 25 + 10) ⊎ (t ≡ 1))
target_lem_example = target_lem 25 10 1 4 (omega arith) (omega arith)

-- Committed once, then no longer the leader.
abbrev loses_second : ℕ → Answer
loses_second zero = committed
loses_second (suc _) = not_leader

abbrev starting : World
starting = world loses_second DeploymentPhase.succeeded

-- The next leader, which draws other ids.
abbrev next_leader : World
next_leader = record (world always DeploymentPhase.succeeded) {
  store = (run_on nightly production (release_of 10) (50 ∷ []) starting).0.store;
  drawn = 7;
}

run_on-twice_example :
    (next_leader.store.jobs ≡ (400, nightly) ∷ [])
    × RunsUnder 1000 nightly production (release_of 10) 50 next_leader.store
    × RunsUnder 1000 nightly production
        (release_of 10)
        50
        (run_on nightly production (release_of 10) (51 ∷ []) next_leader).0.store
    × RunsUnder 1007 nightly production
        (release_of 10)
        51
        (run_on nightly production (release_of 10) (51 ∷ []) next_leader).0.store
run_on-twice_example =
    run_on-twice nightly production (release_of 10) 50 51 [] [] starting next_leader refl (inl refl)
      refl refl (λ e. omega (arith, e))

-- Eight requests are in flight, three to a replica: three replicas, of which two are allowed.
abbrev busy : Environment
busy = record production { service = record web { max_concurrency = 3 } }

abbrev serving : World
serving = record (world always DeploymentPhase.succeeded) {
  store = record (cluster DeploymentPhase.succeeded) { environments = (1, busy) ∷ [] };
}
