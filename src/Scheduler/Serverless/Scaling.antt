-- ===== src/Scheduler/Serverless/Scaling.antt =====
-- What a pass of internal/daemon/scheduler/serverless.go writes to an environment.
use zattera_dev.Base.{◌≤◌, ◌≡◌, ◌⊎◌, get, some}
use zattera_dev.State.Types.{Environment}
use zattera_dev.State.Store.{Store}
use zattera_dev.Raft.Fsm
use zattera_dev.Raft.World.{World}
use zattera_dev.Scheduler.Serverless.{floor_of, ceiling_of}

-- The store is as before, or the environment now runs a count within its bounds.
abbrev pub Scaled : Environment → Store → Store → Type 0
Scaled env s t =
    (t ≡ s)
    ⊎ ((x : Environment) × (get env.id t.environments ≡ some x)
        × (floor_of env.service ≤ x.effective_replicas)
        × (x.effective_replicas ≤ ceiling_of env.service))
