-- ===== src/Scheduler/Cron.antt =====
-- internal/daemon/scheduler/cron.go: the cron specs of the environments, fired as one-shot jobs. The
-- parsing of a schedule and the slots that follow a time (robfig/cron), the FNV hash of the jitter and
-- the key of an environment and a name are parameters.
pub mod Slots
pub mod Bounds
use zattera_dev.Base.{
  ℕ, ◌+◌, ◌*◌, ◌%◌, Bool, true, false, not, ◌&&◌, ◌||◌, List, [], ◌∷◌, Option, none, some, ltb,
  ◌==◌, if◌then◌else◌, filter, is_nil, Table, get, put,
}
use zattera_dev.State.Types.{
  Ident, blank, pos, Environment, CronSpec, ConcurrencyPolicy, Assignment, AssignmentDesired, Job,
  JobStatus,
}
use zattera_dev.State.Store.{Store, list_jobs, list_environments}
use zattera_dev.Raft.Fsm.{put_jb, put_asgs}
use zattera_dev.Raft.World.{World, Outcome, done, lost, Action, return, ◌>>◌, each, new_id, propose}
use zattera_dev.Scheduler.Helpers.{is_stop, second}
use zattera_dev.Scheduler.Jobs.{job_assignment, write_job}

abbrev pub jitter_seconds : ℕ
jitter_seconds = 30

-- `cronLast` and `cronEpoch` of the scheduler.
pub record CronState : Type 0 where
  pub last : Table ℕ
  pub epoch : ℕ

unfoldable pub reset_cron : ℕ → CronState
reset_cron now = record { last = []; epoch = now }

unfoldable pub job_terminal : JobStatus → Bool
job_terminal JobStatus.succeeded = true
job_terminal JobStatus.failed = true
job_terminal JobStatus.canceled = true
job_terminal _ = false

unfoldable pub active_cron_jobs : Store → Environment → Ident → List Job
active_cron_jobs st env cron_name =
    filter (λ j. (j.cron_name == cron_name) && not (job_terminal j.status))
      (list_jobs st env.project_id env.id)

-- The job of a fired slot.
unfoldable pub cron_job : Ident → ℕ → Environment → CronSpec → Job
cron_job id now env spec = record {
  id = id;
  updated_at = now;
  project_id = env.project_id;
  app_id = env.app_id;
  environment_id = env.id;
  release_id = env.active_release_id;
  command = spec.command;
  cron_name = spec.name;
  status = JobStatus.queued;
  node_id = blank;
  exit_code = pos 0;
  attempt = 0;
  max_retries = spec.max_retries;
  error = none;
  started_at = none;
  finished_at = none;
}

unfoldable pub enqueue_cron_job : Environment → CronSpec → Action
enqueue_cron_job env spec = new_id (λ id w. propose (put_jb (cron_job id w.now env spec)) w)

-- The stop of a run's assignment, where it is not stopped yet.
unfoldable pub stop_run : Job → Action
stop_run job w = elim (job_assignment w.store job) [
  | none ↦ return w
  | some a ↦
      if is_stop a.desired
      then return w
      else propose (put_asgs (record a { desired = AssignmentDesired.stop } ∷ [])) w
]

unfoldable pub cancel_cron_job : Job → Action
cancel_cron_job job = stop_run job >> λ w.
    write_job (record job { status = JobStatus.canceled; finished_at = some w.now }) w

-- The concurrency policy, with the runs that are active.
unfoldable pub by_policy : ConcurrencyPolicy → List Job → Environment → CronSpec → Action
by_policy ConcurrencyPolicy.allow active env spec = enqueue_cron_job env spec
by_policy ConcurrencyPolicy.replace active env spec =
    each cancel_cron_job active >> enqueue_cron_job env spec
by_policy ConcurrencyPolicy.forbid active env spec =
    if is_nil active then enqueue_cron_job env spec else return
by_policy ConcurrencyPolicy.unspecified active env spec =
    if is_nil active then enqueue_cron_job env spec else return

unfoldable pub fire_cron : Environment → CronSpec → Action
fire_cron env spec w =
    if env.active_release_id == blank
    then return w
    else by_policy spec.concurrency (active_cron_jobs w.store env spec.name) env spec w

-- The later of the epoch and the slot fired last.
unfoldable pub baseline : CronState → Option ℕ → ℕ
baseline cs none = cs.epoch
baseline cs (some last) = if ltb cs.epoch last then last else cs.epoch

-- `due.After(last)`, where a slot was fired.
unfoldable pub not_fired : ℕ → Option ℕ → Bool
not_fired due none = true
not_fired due (some last) = ltb last due

module _ (parse : Ident → Option (ℕ → ℕ)) (hash : Ident → Ident → ℕ)
    (key_of : Ident → Ident → ℕ) where
  unfoldable pub cron_jitter : Ident → Ident → ℕ
  cron_jitter env_id name = hash env_id name % jitter_seconds * second

  -- The next slot of a schedule, when it is due at `now` and not fired yet.
  unfoldable pub due_of : (ℕ → ℕ) → ℕ → Environment → CronSpec → CronState → Option ℕ
  due_of next now env spec cs =
      let last = get (key_of env.id spec.name) cs.last in
      let due = next (baseline cs last) in
      if ltb now (due + cron_jitter env.id spec.name)
      then none
      else if not_fired due last
      then some due
      else none

  unfoldable pub due_slot : ℕ → Environment → CronSpec → CronState → Option ℕ
  due_slot now env spec cs =
      if (spec.name == blank) || (spec.schedule == blank)
      then none
      else (elim (parse spec.schedule) [ none ↦ none | some next ↦ due_of next now env spec cs ])

  unfoldable pub fired_slot : Environment → CronSpec → ℕ → CronState → CronState
  fired_slot env spec due cs = record cs { last = put (key_of env.id spec.name) due cs.last }

  unfoldable pub maybe_fire_cron :
      Environment → CronSpec → CronState → World → CronState × World × Outcome
  maybe_fire_cron env spec cs w = elim (due_slot w.now env spec cs) [
    | none ↦ (cs, w, done)
    | some due ↦ let fired = fire_cron env spec w in (fired_slot env spec due cs, fired.0, fired.1)
  ]

  -- The specs of one environment, then those of all; an error ends the pass.
  unfoldable pub each_spec :
      Environment → List CronSpec → CronState → World → CronState × World × Outcome
  each_spec env [] cs w = (cs, w, done)
  each_spec env (spec ∷ specs) cs w =
      let (cs', w', o) = maybe_fire_cron env spec cs w in
      elim o [ done ↦ each_spec env specs cs' w' | lost ↦ (cs', w', lost) ]

  unfoldable pub each_environment :
      List Environment → CronState → World → CronState × World × Outcome
  each_environment [] cs w = (cs, w, done)
  each_environment (env ∷ envs) cs w =
      let (cs', w', o) = each_spec env env.service.cron cs w in
      elim o [ done ↦ each_environment envs cs' w' | lost ↦ (cs', w', lost) ]

  unfoldable pub reconcile_cron : CronState → World → CronState × World × Outcome
  reconcile_cron cs w = each_environment (list_environments w.store blank blank) cs w
