-- ===== src/Scheduler/Serverless.antt =====
-- internal/daemon/scheduler/serverless.go: replicas by the requests in flight. What the nodes report
-- (internal/daemon/livestate) is an argument: one entry for each node, none before its first heartbeat,
-- else the requests in flight of each environment.
pub mod Target
pub mod Scaling
use zattera_dev.Base.{
  ℕ, ◌+◌, ◌-◌, ◌/◌, ◌%◌, ◌^◌, Bool, true, false, ◌||◌, Option, none, some, List, [], ◌∷◌, any, not,
  ltb, if◌then◌else◌, ◌==◌, Table,
}
use zattera_dev.State.Types.{Ident, blank, ServiceSpec, Environment}
use zattera_dev.State.Store.{Store, environment, list_environments, list_deployments}
use zattera_dev.Raft.Fsm.{put_env}
use zattera_dev.Raft.World.{World, lost, Action, return, each, propose}
use zattera_dev.Scheduler.Helpers.{is_terminal_phase, desired_replicas}
use zattera_dev.Scheduler.Placement.{u32, counted}

abbrev pub Snapshot : Type 0
Snapshot = List (Option (Table ℕ))

-- The sum, on a uint32, and whether any node has reported.
unfoldable pub total_inflight : Ident → ℕ → Bool → Snapshot → ℕ × Bool
total_inflight env_id total have [] = (total, have)
total_inflight env_id total have (none ∷ rest) = total_inflight env_id total have rest
total_inflight env_id total have (some proxy ∷ rest) =
    total_inflight env_id (u32 (total + counted env_id proxy)) true rest

unfoldable pub floor_of : ServiceSpec → ℕ
floor_of spec =
    if spec.scale_to_zero then 0 else if ltb spec.replicas_min 1 then 1 else spec.replicas_min

unfoldable pub ceiling_of : ServiceSpec → ℕ
unfolding floor_of
ceiling_of spec = if ltb spec.replicas_max (floor_of spec) then floor_of spec else spec.replicas_max

-- math.Ceil of the quotient of two uint32 as float64: the rounding of the quotient crosses no whole
-- number, so this is the quotient rounded up.
abbrev pub ceil_div : ℕ → ℕ → ℕ
ceil_div a b = (a + (b - 1)) / b

-- The replicas for this many requests in flight, within the floor and the ceiling.
unfoldable pub target : ℕ → ℕ → ℕ → ℕ → ℕ
target inflight max_concurrency floor ceiling =
    let desired = ceil_div inflight max_concurrency in
    let raised = if ltb desired floor then floor else desired in
    if ltb ceiling raised then ceiling else raised

unfoldable pub deployment_active : Store → Ident → Bool
deployment_active st env_id =
    any (λ d. not (is_terminal_phase d.phase)) (list_deployments st env_id)

unfoldable pub apply_scale : Environment → ℕ → Action
apply_scale env to w = elim (environment w.store env.id) [
  | none ↦ return w
  | some cur ↦ propose (put_env (record cur { effective_replicas = u32 to; updated_at = w.now })) w
]

unfoldable pub scale_env : Snapshot → Environment → Action
unfolding total_inflight floor_of ceiling_of target deployment_active apply_scale
scale_env live env w =
    let spec = env.service in
    let inflight = total_inflight env.id 0 false live in
    let desired = target inflight.0 spec.max_concurrency (floor_of spec) (ceiling_of spec) in
    if spec.max_concurrency == 0 || env.active_release_id == blank
    then return w
    else if deployment_active w.store env.id
    then return w
    else if not inflight.1
    then return w
    else if desired == desired_replicas env
    then return w
    else apply_scale env desired w

unfoldable pub scale_envs : Snapshot → Action
unfolding scale_env
scale_envs live w =
    if not w.leads
    then (w, lost)
    else each (scale_env live) (list_environments w.store blank blank) w
