-- ===== src/Tests/Leading.antt =====
-- The log's duplicates, the key-value table, a cron spec, a retention sweep and the pool of VIPs on the sample cluster.
use zattera_dev.Base.{
  ℕ, ◌+◌, ◌*◌, ◌≡◌, ◌⊎◌, List, inl, refl, ap, arith, false, [], ◌∷◌, Option, none, some, get,
  values, inr,
}
use zattera_dev.State.Types.{Ident, pos, CronSpec, ConcurrencyPolicy, DeploymentPhase}
use zattera_dev.State.Store.{environment}
use zattera_dev.State.Kv.{Kv, Write, cur_version, put_kv, put_all}
use zattera_dev.State.Kv.Swap.{put_kv-once}
use zattera_dev.Raft.Fsm.{delete_rel}
use zattera_dev.Raft.Applied.{FsmState, Command, duplicate, remembers, fsm_apply, apply_log}
use zattera_dev.Raft.Applied.Ring.{IsIndexed}
use zattera_dev.Raft.Applied.Once.{fsm_apply-once}
use zattera_dev.Scheduler.Vips.{Vip, is_used, free_in, free_from, next_free_vip}
use zattera_dev.Scheduler.Vips.Pool.{IsFull, IsLowest, next_free_vip-Lowest}
use zattera_dev.Scheduler.Jobs.Bounds.{JobsBounded}
use zattera_dev.Scheduler.Cron.{reset_cron, reconcile_cron}
use zattera_dev.Scheduler.Cron.Slots.{fires, IsTimely, fires-Timely}
use zattera_dev.Scheduler.Cron.Bounds.{reconcile_cron-Bounded}
use zattera_dev.Scheduler.Retention.{sweep_env}
use zattera_dev.Scheduler.Retention.Safety.{ReleasesKeyed, IsReleaseOf, IsRecent, sweep_env-Safe}
use zattera_dev.Raft.World.{World}
use zattera_dev.State.Store.{Store}
use zattera_dev.Tests.{production, web, cluster, world, always, release_of}
use zattera_dev.Tests.Running.{nightly-JobBounded}

abbrev replica : FsmState
replica = record {
  store = cluster DeploymentPhase.pending;
  applied_requests = 8 ∷ [];
  applied_set = 8 ∷ [];
}

abbrev drop_release : Command
drop_release = record { request_id = 9; time = some 5; mutation = delete_rel 11 }

replica-IsIndexed : IsIndexed 2 replica
unfolding remembers
replica-IsIndexed = record { same = refl; unique = (refl, tt); bounded = omega arith }

replica_new : remembers 9 replica.applied_set ≡ false
unfolding remembers
replica_new = refl

fsm_apply-once_example :
    fsm_apply 2 drop_release (apply_log 2 (drop_release ∷ []) replica)
    ≡ (apply_log 2 (drop_release ∷ []) replica, duplicate)
fsm_apply-once_example =
    fsm_apply-once 2 drop_release drop_release [] replica replica-IsIndexed (λ e. omega (arith, e))
      replica_new refl (omega arith)

-- A lock that two holders try to take over at version 3.
abbrev locks : Kv
locks = (6, record { value = 1; version = 3; expires_at = 0 }) ∷ []

abbrev take_over : Ident → Write
take_over holder = record { key = 6; value = holder; expected = pos 3; expires_at = 100 }

locks_version : cur_version 6 locks ≡ 3
unfolding cur_version get
locks_version = refl

put_kv-once_example :
    let after = put_all (take_over 9 ∷ []) (put_kv 6 2 (pos 3) 100 locks).0 in
    ((put_kv 6 2 (pos 3) 100 locks).1 ≡ some 4)
    × (cur_version 6 (put_kv 6 2 (pos 3) 100 locks).0 ≡ 4)
    × (put_kv 6 7 (pos 3) 100 after ≡ (after, none))
put_kv-once_example =
    put_kv-once (take_over 2) (take_over 7) (take_over 9 ∷ []) 3 locks refl refl refl locks_version
      (omega arith)

-- A schedule of every ten nanoseconds, and a jitter of nothing.
abbrev every_ten : Ident → Option (ℕ → ℕ)
every_ten schedule = some (λ t. t + 10)

abbrev no_hash : Ident → Ident → ℕ
no_hash env_id name = 0

abbrev pair_key : Ident → Ident → ℕ
pair_key env_id name = env_id * 1000 + name

abbrev tidy : CronSpec
tidy = record {
  name = 4;
  schedule = 5;
  command = 79;
  concurrency = ConcurrencyPolicy.replace;
  max_retries = 2;
}

fires-Timely_example :
    IsTimely every_ten no_hash pair_key production tidy 100 (
      fires every_ten no_hash pair_key production tidy
        (105 ∷ 111 ∷ 115 ∷ 140 ∷ [])
        (reset_cron 100))
fires-Timely_example =
    fires-Timely every_ten no_hash pair_key production tidy 100 (105 ∷ 111 ∷ 115 ∷ 140 ∷ [])
      (λ next e t.
        let same : t + 10 ≡ next t =
          ap (λ (o : Option (ℕ → ℕ)). elim o as (λ _. ℕ) [ none ↦ 0 | some f ↦ f t ]) e in
        omega (arith, same))

-- The sample cluster with the cron spec in its environment.
abbrev cron_world : World
cron_world =
    let w = world always DeploymentPhase.succeeded in
    let env = record production { service = record web { cron = tidy ∷ [] } } in
    record w { store = record w.store { environments = (1, env) ∷ [] } }

reconcile_cron-Bounded_example :
    JobsBounded (reconcile_cron every_ten no_hash pair_key (reset_cron 0) cron_world).1.store
reconcile_cron-Bounded_example =
    reconcile_cron-Bounded every_ten no_hash pair_key (reset_cron 0) cron_world
      (nightly-JobBounded, tt)

found : environment (cluster DeploymentPhase.promoting) 1 ≡ some production
unfolding environment get
found = refl

abbrev kept_store : Store
kept_store = cluster DeploymentPhase.promoting

releases-Keyed : ReleasesKeyed kept_store
unfolding get values
releases-Keyed = (refl, (refl, tt))

old-IsReleaseOf : IsReleaseOf 1 (release_of 10) kept_store
unfolding get
old-IsReleaseOf = (refl, refl)

old-IsRecent : IsRecent 1 (release_of 10) kept_store
unfolding values
old-IsRecent = omega arith

sweep_env-Safe_example :
    get 10 (sweep_env 1 (world always DeploymentPhase.promoting)).0.store.releases
    ≡ some (release_of 10)
sweep_env-Safe_example =
    sweep_env-Safe 1 production (release_of 10) (world always DeploymentPhase.promoting)
      (λ e. omega (arith, e)) releases-Keyed found old-IsReleaseOf (inr (inr (inl old-IsRecent)))

abbrev in_use : List Vip
in_use = (0, 2) ∷ (0, 3) ∷ []

first_free : next_free_vip in_use ≡ some (0, 4)
unfolding next_free_vip free_from free_in is_used
first_free = refl

next_free_vip-Lowest_example :
    ((next_free_vip in_use ≡ none) × IsFull 0 256 in_use)
    ⊎ ((v : Vip) × (next_free_vip in_use ≡ some v) × IsLowest 0 256 in_use v)
next_free_vip-Lowest_example = next_free_vip-Lowest in_use
