-- ===== src/Scheduler/Jobs/Bounds.antt =====
-- The attempts of a job stay within the retries it is allowed (internal/daemon/scheduler/jobs.go).
use zattera_dev.Base.{
  ℕ, ◌+◌, ◌^◌, ◌≤◌, ◌≡◌, refl, sym, arith, true, Option, none, some, List, [], ◌∷◌, Option-cases,
  Bool-cases, inl, inr, ◌&&◌, ◌||◌, Entries, put-Entries, Entries-values, All, All-filter, All-map,
  values, filter, ◌==◌, subst,
}
use native.Mathlib.Nat.{mod-le}
use Prim.Native.String.{String}
use zattera_dev.State.Types.{
  Ident, blank, ℤ, pos, Message, Environment, Release, Assignment, InstanceState, Job, JobStatus,
  Event,
}
use zattera_dev.State.Store.{
  Store, put_assignments, delete_assignments, append_events, put_job, list_jobs, environment,
}
use zattera_dev.Raft.Fsm
use zattera_dev.Raft.Fsm.{Mutation, put_jb, put_asgs, delete_asgs, append_evs}
use zattera_dev.Raft.World.{World, each, propose}
use zattera_dev.Raft.Rules.{IsStep, Keeps, by_if, propose_store, >>-Keeps}
use zattera_dev.Raft.Frames.{
  put_assignments-Framed, delete_assignments-Framed, append_events-EventsOnly,
}
use zattera_dev.Scheduler.Helpers.{emit_event}
use zattera_dev.Scheduler.Jobs.{
  write_job, remove_assignment, finish_job, after_failure, job_attempt_failed,
  job_attempt_failed_with, job_succeeded, on_observed, observe_job, job_assignment, job_release,
  begun, run_on, backing_off, place_job, reap_job_assignment, on_status, reconcile_job,
  reconcile_jobs, is_zero, text_of,
}

-- A job that waits for an attempt has retries left; no job has made more than one attempt more than its
-- retries.
pub record JobBounded (j : Job) : Type 0 where
  pub waiting : j.status ≡ JobStatus.queued → j.attempt ≤ j.max_retries
  pub again : j.status ≡ JobStatus.retrying → j.attempt ≤ j.max_retries
  pub within : j.attempt ≤ j.max_retries + 1

abbrev pub JobsBounded : Store → Type 0
JobsBounded s = Entries (λ _ j. JobBounded j) s.jobs

abbrev pub BoundedStep : Store → Store → Type 0
BoundedStep s t = JobsBounded s → JobsBounded t

pub bounded_step : IsStep BoundedStep
bounded_step = record { stay = λ s h. h; join = λ s t u f g h. g (f h) }

same_jobs : (s t : Store) → t.jobs ≡ s.jobs → BoundedStep s t
same_jobs s t e h = subst (λ x. Entries (λ _ j. JobBounded j) x) (sym e) h

pub write_job-Keeps :
    (j : Job)
    → ((now : ℕ) → JobBounded (record j { updated_at = now }))
    → Keeps BoundedStep (write_job j)
unfolding write_job Fsm.apply put_job
write_job-Keeps j b w =
    propose_store BoundedStep (put_jb (record j { updated_at = w.now })) w (λ h. h)
      (λ h.
        put-Entries (λ _ x. JobBounded x) j.id (record j { updated_at = w.now }) w.store.jobs
          (b w.now) h)

pub put_asgs-Keeps : (batch : List Assignment) → Keeps BoundedStep (propose (put_asgs batch))
unfolding Fsm.apply
put_asgs-Keeps batch w =
    propose_store BoundedStep (put_asgs batch) w (λ h. h)
      (same_jobs w.store (put_assignments batch w.store)
        (put_assignments-Framed batch w.store).jobs)

delete_asgs-Keeps : (ids : List Ident) → Keeps BoundedStep (propose (delete_asgs ids))
unfolding Fsm.apply
delete_asgs-Keeps ids w =
    propose_store BoundedStep (delete_asgs ids) w (λ h. h)
      (same_jobs w.store (delete_assignments ids w.store)
        (delete_assignments-Framed ids w.store).jobs)

append_evs-Keeps : (es : List Event) → Keeps BoundedStep (propose (append_evs es))
unfolding Fsm.apply
append_evs-Keeps es w =
    propose_store BoundedStep (append_evs es) w (λ h. h)
      (same_jobs w.store (append_events es w.store)
        (append_events-EventsOnly es w.store).framed.jobs)

job_attempt_failed-Keeps :
    (j : Job) (code : ℤ) (message : Option Message)
    → JobBounded j
    → Keeps BoundedStep (job_attempt_failed j code message)
unfolding job_attempt_failed
job_attempt_failed-Keeps j code message b w =
    write_job-Keeps
      (record j {
        exit_code = code;
        error = message;
        finished_at = some w.now;
        status = after_failure j;
      })
      (λ now. record {
        waiting = λ e. absurd (ground arith);
        again = λ e. ground arith;
        within = b.within;
      })
      w

job_attempt_failed_with-Keeps :
    (j : Job) (a : Assignment) (code : ℤ) (message : Option Message)
    → JobBounded j
    → Keeps BoundedStep (job_attempt_failed_with j a code message)
unfolding job_attempt_failed_with
job_attempt_failed_with-Keeps j a code message b =
    >>-Keeps BoundedStep bounded_step (remove_assignment a) (job_attempt_failed j code message)
      (delete_asgs-Keeps _) (job_attempt_failed-Keeps j code message b)

job_succeeded-Keeps :
    (j : Job) (a : Assignment) → JobBounded j → Keeps BoundedStep (job_succeeded j a)
unfolding job_succeeded
job_succeeded-Keeps j a b =
    >>-Keeps BoundedStep bounded_step (remove_assignment a) _ (delete_asgs-Keeps _) (λ w.
      write_job-Keeps
        (record j {
          status = JobStatus.succeeded;
          exit_code = pos 0;
          error = none;
          finished_at = some w.now;
        })
        (λ now. record {
          waiting = λ e. absurd (ground arith);
          again = λ e. absurd (ground arith);
          within = b.within;
        })
        w)

finish_job-Keeps :
    (j : Job) (code : ℤ) (message : Option Message)
    → JobBounded j
    → Keeps BoundedStep (finish_job j JobStatus.failed code message)
unfolding finish_job
finish_job-Keeps j code message b w =
    write_job-Keeps
      (record j {
        status = JobStatus.failed;
        exit_code = code;
        error = message;
        finished_at = some w.now;
      })
      (λ now. record {
        waiting = λ e. absurd (ground arith);
        again = λ e. absurd (ground arith);
        within = b.within;
      })
      w

on_observed-Keeps :
    (j : Job) (a : Assignment) (p : InstanceState)
    → JobBounded j
    → Keeps BoundedStep (on_observed j a p)
unfolding on_observed
on_observed-Keeps j a InstanceState.stopped b =
    by_if (Keeps BoundedStep) (is_zero a.observed.exit_code) (job_succeeded j a)
      (job_attempt_failed_with j a a.observed.exit_code (text_of a.observed.message))
      (λ _. job_succeeded-Keeps j a b) (λ _. job_attempt_failed_with-Keeps j a _ _ b)
on_observed-Keeps j a InstanceState.failed b = job_attempt_failed_with-Keeps j a _ _ b
on_observed-Keeps j a _ b = λ w h. h

observe_job-Keeps : (j : Job) → JobBounded j → Keeps BoundedStep (observe_job j)
unfolding observe_job
observe_job-Keeps j b w = elim (Option-cases (job_assignment w.store j)) [
  | inl e ↦ rw (e, observe_job) (job_attempt_failed-Keeps j _ _ b w)
  | inr (a, e) ↦ rw (e, observe_job) (on_observed-Keeps j a a.observed.state b w)
]

begun-JobBounded :
    (now at : ℕ) (rel : Release) (node_id : Ident) (j : Job)
    → j.attempt ≤ j.max_retries
    → JobBounded (record (begun now rel node_id j) { updated_at = at })
unfolding begun
begun-JobBounded now at rel node_id j h = record {
  waiting = λ e. absurd (ground arith);
  again = λ e. absurd (ground arith);
  within = let m = mod-le (j.attempt + 1) (2 ^ 32) in omega (arith, h, m);
}

emit_event-Keeps :
    (p a e : Ident) (kind severity : String) (m : Message)
    → Keeps BoundedStep (emit_event p a e kind severity m)
unfolding emit_event
emit_event-Keeps p a e kind severity m w = append_evs-Keeps _ (record w { drawn = w.drawn + 1 })

run_on-Keeps :
    (j : Job) (env : Environment) (rel : Release) (nodes : List Ident)
    → j.attempt ≤ j.max_retries
    → Keeps BoundedStep (run_on j env rel nodes)
unfolding run_on
run_on-Keeps j env rel [] h = emit_event-Keeps _ _ _ _ _ _
run_on-Keeps j env rel (node_id ∷ rest) h =
    >>-Keeps BoundedStep bounded_step _ _ (λ w. put_asgs-Keeps _ (record w { drawn = w.drawn + 1 }))
      (λ w.
        write_job-Keeps (begun w.now rel node_id j)
          (λ now. begun-JobBounded w.now now rel node_id j h) w)

place_job-Keeps :
    (j : Job) → JobBounded j → j.attempt ≤ j.max_retries → Keeps BoundedStep (place_job j)
unfolding place_job
place_job-Keeps j b h w = elim (Bool-cases (backing_off j w.now)) [
  | inl e ↦ rw (e, place_job) (λ k. k)
  | inr e ↦ elim (Option-cases (environment w.store j.environment_id)) [
    | inl missing ↦ rw (e, missing, place_job) (finish_job-Keeps j _ _ b w)
    | inr (env, found) ↦ elim (Option-cases (job_release w.store j env)) [
      | inl unreleased ↦ rw (e, found, unreleased, place_job) (λ k. k)
      | inr (rel, released) ↦ rw (e, found, released, place_job) (run_on-Keeps j env rel _ h w)
    ]
  ]
]

reap-Keeps : (j : Job) → Keeps BoundedStep (reap_job_assignment j)
unfolding reap_job_assignment
reap-Keeps j w = elim (Option-cases (job_assignment w.store j)) [
  | inl e ↦ rw (e, reap_job_assignment) (λ k. k)
  | inr (a, e) ↦ rw (e, reap_job_assignment) (delete_asgs-Keeps (a.id ∷ []) w)
]

on_status-Keeps :
    (j : Job) (p : JobStatus) → j.status ≡ p → JobBounded j → Keeps BoundedStep (on_status j p)
unfolding on_status
on_status-Keeps j JobStatus.queued e b = place_job-Keeps j b (b.waiting e)
on_status-Keeps j JobStatus.retrying e b = place_job-Keeps j b (b.again e)
on_status-Keeps j JobStatus.running e b = observe_job-Keeps j b
on_status-Keeps j _ e b = reap-Keeps j

each_job-Keeps : (js : List Job) → All JobBounded js → Keeps BoundedStep (each reconcile_job js)
each_job-Keeps [] h = λ w k. k
each_job-Keeps (j ∷ js) h =
    >>-Keeps BoundedStep bounded_step (reconcile_job j) (each reconcile_job js)
      (on_status-Keeps j j.status refl h.0) (each_job-Keeps js h.1)

listed_JobsBounded : (s : Store) → JobsBounded s → All JobBounded (list_jobs s blank blank)
unfolding list_jobs
listed_JobsBounded s h =
    let test = λ (j : Job).
      (blank == blank || j.project_id == blank) && (blank == blank || j.environment_id == blank) in
    All-map (λ j. (test j ≡ true) × JobBounded j) JobBounded (λ j x. x.1)
      (filter test (values s.jobs))
      (All-filter JobBounded test (values s.jobs) (Entries-values JobBounded s.jobs h))

-- A pass over the jobs keeps every job within its retries: whatever raft answers, whatever the agents
-- have reported and wherever the attempts are placed, no job has made more than one attempt more than
-- its `max_retries`, and one that is queued or retrying has made no more attempts than that.
pub reconcile_jobs-Bounded :
    (w : World) → JobsBounded w.store → JobsBounded (reconcile_jobs w).0.store
unfolding reconcile_jobs
reconcile_jobs-Bounded w h =
    each_job-Keeps (list_jobs w.store blank blank) (listed_JobsBounded w.store h) w h
