-- ===== src/Scheduler/Guards.antt =====
-- The conditions under which the orchestrator lets a rollout go on, in the terms of the store.
use zattera_dev.Base.{ℕ, ◌≡◌, ◌⊎◌, ◌≤◌, true, false, none, some, any, all, is_nil}
use zattera_dev.State.Types.{Environment, Release, Deployment}
use zattera_dev.State.Store.{Store}
use zattera_dev.Scheduler.Helpers.{is_run, is_healthy, state_of, green_assignments, any_failed}
use zattera_dev.Scheduler.Stateful.{is_up, still_running, old_instances}
use zattera_dev.Scheduler.Orchestrator.{warm_enough}

-- Every outgoing instance is told to stop, and none is live.
abbrev pub OldStopped : Deployment → Store → Type 0
OldStopped d st =
    (any (λ a. is_run a.desired) (old_instances st d) ≡ false)
    × (still_running (old_instances st d) ≡ false)

-- The new instances have all come up, and none has failed.
abbrev pub GreenUp : Deployment → Store → Type 0
GreenUp d st =
    (any_failed (green_assignments st d) ≡ false)
    × (all (λ a. is_up (state_of a)) (green_assignments st d) ≡ true)

-- All new instances are healthy; the code asks no more, so this holds where there is none.
abbrev pub GreenHealthy : Deployment → Store → Type 0
GreenHealthy d st = all (λ a. is_healthy (state_of a)) (green_assignments st d) ≡ true

-- The new instances, of which there is one at least, are all healthy.
abbrev pub InstanceHealthy : Deployment → Store → Type 0
InstanceHealthy d st = (is_nil (green_assignments st d) ≡ false) × GreenHealthy d st

-- The drain deadline is unset, or has come.
abbrev pub DrainOver : Deployment → ℕ → Type 0
DrainOver d now =
    (d.drain_deadline ≡ none)
    ⊎ ((deadline : ℕ) × (d.drain_deadline ≡ some deadline) × (deadline ≤ now))

-- A rollback whose release still has enough healthy replicas.
abbrev pub Warm : Deployment → Store → Environment → Release → Type 0
Warm d st env rel = (d.is_rollback ≡ true) × (warm_enough st env rel d ≡ true)
