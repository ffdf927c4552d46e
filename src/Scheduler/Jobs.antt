-- ===== src/Scheduler/Jobs.antt =====
-- internal/daemon/scheduler/jobs.go: one-shot jobs, their retries and their backoff.
pub mod Backoff
pub mod Bounds
pub mod Handover
use zattera_dev.Base.{
  ℕ, zero, suc, ◌+◌, ◌-◌, ◌*◌, ◌%◌, ◌^◌, Bool, true, false, not, ◌&&◌, Option, none, some, List, [],
  ◌∷◌, leb, ltb, if◌then◌else◌, ◌==◌,
}
use zattera_dev.State.Types.{
  Ident, blank, ℤ, pos, negsuc, Message, Environment, Release, Assignment, AssignmentDesired,
  InstanceState, Job, JobStatus,
}
use zattera_dev.State.Store.{Store, environment, release, list_assignments, list_jobs}
use zattera_dev.Raft.Fsm.{put_jb, delete_asgs, put_asgs}
use zattera_dev.Raft.World.{World, Action, return, ◌>>◌, each, new_id, propose}
use zattera_dev.Scheduler.Helpers.{second, unobserved, emit_event}
use zattera_dev.Scheduler.Placement.{place}

abbrev pub job_retry_base : ℕ
job_retry_base = 5 * second

abbrev pub job_retry_max : ℕ
job_retry_max = 5 * 60 * second

-- The loop of jobBackoff with this many iterations left.
unfoldable pub backoff_loop : ℕ → ℕ → ℕ
backoff_loop zero d = d
backoff_loop (suc n) d =
    let rest = backoff_loop n (d * 2) in if leb job_retry_max (d * 2) then job_retry_max else rest

unfoldable pub job_backoff : ℕ → ℕ
unfolding backoff_loop
job_backoff attempt = backoff_loop (attempt - 1) job_retry_base

unfoldable pub job_release : Store → Job → Environment → Option Release
job_release st j env =
    if not (j.release_id == blank)
    then release st j.release_id
    else if not (env.active_release_id == blank)
    then release st env.active_release_id
    else none

unfoldable pub first_of_job : Ident → List Assignment → Option Assignment
first_of_job id [] = none
first_of_job id (a ∷ rest) =
    let next = first_of_job id rest in if a.job_id == id then some a else next

unfoldable pub job_assignment : Store → Job → Option Assignment
unfolding first_of_job
job_assignment st j = first_of_job j.id (list_assignments st j.environment_id)

unfoldable pub write_job : Job → Action
write_job j w = propose (put_jb (record j { updated_at = w.now })) w

abbrev pub remove_assignment : Assignment → Action
remove_assignment a = propose (delete_asgs (a.id ∷ []))

unfoldable pub finish_job : Job → JobStatus → ℤ → Option Message → Action
unfolding write_job
finish_job j status code message w =
    write_job
      (record j { status = status; exit_code = code; error = message; finished_at = some w.now }) w

-- Another attempt where the attempts so far do not exceed the retries allowed.
abbrev pub after_failure : Job → JobStatus
after_failure j = if leb j.attempt j.max_retries then JobStatus.retrying else JobStatus.failed

unfoldable pub job_attempt_failed : Job → ℤ → Option Message → Action
unfolding write_job
job_attempt_failed j code message w =
    write_job
      (record j {
        exit_code = code;
        error = message;
        finished_at = some w.now;
        status = after_failure j;
      })
      w

unfoldable pub job_attempt_failed_with : Job → Assignment → ℤ → Option Message → Action
unfolding job_attempt_failed
job_attempt_failed_with j a code message = remove_assignment a >> job_attempt_failed j code message

unfoldable pub job_succeeded : Job → Assignment → Action
unfolding write_job
job_succeeded j a = remove_assignment a >> λ w.
    write_job
      (record j {
        status = JobStatus.succeeded;
        exit_code = pos 0;
        error = none;
        finished_at = some w.now;
      })
      w

-- The agent's text, none where it is empty.
abbrev pub text_of : Ident → Option Message
text_of id = if id == blank then none else some (Message.reported id)

abbrev pub is_zero : ℤ → Bool
is_zero (pos n) = n == 0
is_zero (negsuc _) = false

unfoldable pub on_observed : Job → Assignment → InstanceState → Action
unfolding job_succeeded job_attempt_failed_with
on_observed j a InstanceState.stopped =
    if is_zero a.observed.exit_code
    then job_succeeded j a
    else job_attempt_failed_with j a a.observed.exit_code (text_of a.observed.message)
on_observed j a InstanceState.failed =
    job_attempt_failed_with j a a.observed.exit_code (text_of a.observed.message)
on_observed j a _ = return

unfoldable pub observe_job : Job → Action
unfolding on_observed job_attempt_failed
observe_job j w = elim (job_assignment w.store j) [
  | none ↦ job_attempt_failed j (negsuc 0) (some Message.job_assignment_lost) w
  | some a ↦ on_observed j a a.observed.state w
]

-- The assignment that runs an attempt of the job.
unfoldable pub attempt_assignment : Ident → ℕ → Job → Environment → Release → Ident → Assignment
attempt_assignment id now j env rel node_id = record {
  id = id;
  created_at = now;
  updated_at = now;
  node_id = node_id;
  project_id = j.project_id;
  app_id = j.app_id;
  environment_id = env.id;
  release_id = rel.id;
  deployment_id = blank;
  desired = AssignmentDesired.run;
  config_hash = rel.config_hash;
  mesh_port_bindings = [];
  observed = unobserved;
  job_id = j.id;
}

-- The job with its attempt begun; the count of attempts is a uint32.
unfoldable pub begun : ℕ → Release → Ident → Job → Job
begun now rel node_id j = record j {
  status = JobStatus.running;
  node_id = node_id;
  release_id = rel.id;
  attempt = (j.attempt + 1) % 2 ^ 32;
  error = none;
  finished_at = none;
  started_at = elim j.started_at [ none ↦ some now | some t ↦ some t ];
}

unfoldable pub run_on : Job → Environment → Release → List Ident → Action
unfolding attempt_assignment begun write_job emit_event
run_on j env rel [] =
    emit_event env.project_id env.app_id env.id "job.no_capacity" "warning" Message.cannot_place_job
run_on j env rel (node_id ∷ _) =
    new_id (λ id w. propose (put_asgs (attempt_assignment id w.now j env rel node_id ∷ [])) w)
    >> λ w. write_job (begun w.now rel node_id j) w

abbrev pub is_retrying : JobStatus → Bool
is_retrying JobStatus.retrying = true
is_retrying _ = false

unfoldable pub backing_off : Job → ℕ → Bool
unfolding job_backoff
backing_off j now = elim j.finished_at [
  | none ↦ false
  | some fin ↦ is_retrying j.status && ltb now (fin + job_backoff j.attempt)
]

unfoldable pub place_job : Job → Action
unfolding backing_off finish_job job_release run_on
place_job j w =
    if backing_off j w.now then return w else (elim (environment w.store j.environment_id) [
      | none ↦ finish_job j JobStatus.failed (pos 0) (some Message.environment_not_found) w
      | some env ↦ elim (job_release w.store j env) [
        | none ↦ return w
        | some rel ↦ run_on j env rel (place w.store rel env.id 1 []).0 w
      ]
    ])

unfoldable pub reap_job_assignment : Job → Action
reap_job_assignment j w = elim (job_assignment w.store j) [
  | none ↦ return w
  | some a ↦ remove_assignment a w
]

unfoldable pub on_status : Job → JobStatus → Action
unfolding place_job observe_job reap_job_assignment
on_status j JobStatus.queued = place_job j
on_status j JobStatus.retrying = place_job j
on_status j JobStatus.running = observe_job j
on_status j _ = reap_job_assignment j

abbrev pub reconcile_job : Job → Action
reconcile_job j = on_status j j.status

unfoldable pub reconcile_jobs : Action
unfolding on_status
reconcile_jobs w = each reconcile_job (list_jobs w.store blank blank) w
