-- ===== src/Scheduler/Cron/Bounds.antt =====
-- A cron pass keeps the jobs within the attempts they are allowed.
use zattera_dev.Base.{
  ℕ, ◌+◌, ◌≡◌, arith, true, not, ◌&&◌, ◌||◌, List, [], ◌∷◌, Option, none, some, ◌==◌, All,
  All-filter, All-map, Entries-values, values, filter, is_nil, Option-cases, inl, inr, put-Entries,
}
use zattera_dev.State.Types.{
  Ident, blank, Environment, CronSpec, ConcurrencyPolicy, AssignmentDesired, Job, JobStatus,
}
use zattera_dev.State.Store.{Store, list_jobs, put_job}
use zattera_dev.Raft.Fsm
use zattera_dev.Raft.Fsm.{put_jb, put_asgs}
use zattera_dev.Raft.World.{World, Outcome, done, lost, return, each, propose}
use zattera_dev.Raft.Rules.{Keeps, by_if, propose_store, >>-Keeps}
use zattera_dev.Scheduler.Jobs.{job_assignment}
use zattera_dev.Scheduler.Jobs.Bounds.{
  JobBounded, JobsBounded, BoundedStep, bounded_step, write_job-Keeps, put_asgs-Keeps,
}
use zattera_dev.Scheduler.Helpers.{is_stop}
use zattera_dev.Scheduler.Cron.{
  CronState, active_cron_jobs, cron_job, enqueue_cron_job, stop_run, cancel_cron_job, by_policy,
  fire_cron, maybe_fire_cron, each_spec, each_environment, reconcile_cron, due_slot, job_terminal,
  fired_slot,
}

cron_job-JobBounded :
    (id : Ident) (now : ℕ) (env : Environment) (spec : CronSpec)
    → JobBounded (cron_job id now env spec)
unfolding cron_job
cron_job-JobBounded id now env spec = record {
  waiting = λ _. omega arith;
  again = λ _. omega arith;
  within = omega arith;
}

enqueue-Keeps :
    (env : Environment) (spec : CronSpec) → Keeps BoundedStep (enqueue_cron_job env spec)
unfolding enqueue_cron_job Fsm.apply put_job
enqueue-Keeps env spec w =
    let w' = record w { drawn = w.drawn + 1 } in
    let job = cron_job (w.fresh w.drawn) w.now env spec in
    propose_store BoundedStep (put_jb job) w' (λ h. h)
      (λ h.
        put-Entries (λ _ x. JobBounded x) job.id job w.store.jobs
          (cron_job-JobBounded (w.fresh w.drawn) w.now env spec) h)

stop_run-Keeps : (job : Job) → Keeps BoundedStep (stop_run job)
unfolding stop_run
stop_run-Keeps job w = elim (Option-cases (job_assignment w.store job)) [
  | inl e ↦ rw (e, stop_run) (λ h. h)
  | inr (a, e) ↦
      rw (e, stop_run)
        (by_if (λ (r : World × Outcome). BoundedStep w.store r.0.store) (is_stop a.desired)
          (return w) (propose (put_asgs (record a { desired = AssignmentDesired.stop } ∷ [])) w)
          (λ _ h. h) (λ _. put_asgs-Keeps (record a { desired = AssignmentDesired.stop } ∷ []) w))
]

cancel-Keeps : (job : Job) → JobBounded job → Keeps BoundedStep (cancel_cron_job job)
unfolding cancel_cron_job
cancel-Keeps job b = >>-Keeps BoundedStep bounded_step (stop_run job) _ (stop_run-Keeps job) (λ w.
    write_job-Keeps (record job { status = JobStatus.canceled; finished_at = some w.now })
      (λ now. record {
        waiting = λ e. absurd (ground arith);
        again = λ e. absurd (ground arith);
        within = b.within;
      })
      w)

each_cancel-Keeps :
    (jobs : List Job) → All JobBounded jobs → Keeps BoundedStep (each cancel_cron_job jobs)
each_cancel-Keeps [] h = λ w k. k
each_cancel-Keeps (j ∷ jobs) h =
    >>-Keeps BoundedStep bounded_step (cancel_cron_job j) (each cancel_cron_job jobs)
      (cancel-Keeps j h.0) (each_cancel-Keeps jobs h.1)

by_policy-Keeps :
    (p : ConcurrencyPolicy) (active : List Job) (env : Environment) (spec : CronSpec)
    → All JobBounded active
    → Keeps BoundedStep (by_policy p active env spec)
unfolding by_policy
by_policy-Keeps ConcurrencyPolicy.allow active env spec h = enqueue-Keeps env spec
by_policy-Keeps ConcurrencyPolicy.replace active env spec h =
    >>-Keeps BoundedStep bounded_step (each cancel_cron_job active) (enqueue_cron_job env spec)
      (each_cancel-Keeps active h) (enqueue-Keeps env spec)
by_policy-Keeps ConcurrencyPolicy.forbid active env spec h =
    by_if (Keeps BoundedStep) (is_nil active) _ _ (λ _. enqueue-Keeps env spec) (λ _ w k. k)
by_policy-Keeps ConcurrencyPolicy.unspecified active env spec h =
    by_if (Keeps BoundedStep) (is_nil active) _ _ (λ _. enqueue-Keeps env spec) (λ _ w k. k)

active-Bounded :
    (s : Store) (env : Environment) (name : Ident)
    → JobsBounded s
    → All JobBounded (active_cron_jobs s env name)
unfolding active_cron_jobs list_jobs
active-Bounded s env name h =
    let listed = λ (j : Job).
      (env.project_id == blank || j.project_id == env.project_id)
      && (env.id == blank || j.environment_id == env.id) in
    let active = λ (j : Job). (j.cron_name == name) && not (job_terminal j.status) in
    let all_listed =
      All-map (λ j. (listed j ≡ true) × JobBounded j) JobBounded (λ j x. x.1)
        (filter listed (values s.jobs))
        (All-filter JobBounded listed (values s.jobs) (Entries-values JobBounded s.jobs h)) in
    All-map (λ j. (active j ≡ true) × JobBounded j) JobBounded (λ j x. x.1)
      (filter active (filter listed (values s.jobs)))
      (All-filter JobBounded active (filter listed (values s.jobs)) all_listed)

fire_cron-Bounded :
    (env : Environment) (spec : CronSpec) (w : World)
    → JobsBounded w.store
    → JobsBounded (fire_cron env spec w).0.store
unfolding fire_cron
fire_cron-Bounded env spec w h =
    by_if (λ (r : World × Outcome). JobsBounded r.0.store) (env.active_release_id == blank) _ _
      (λ _. h)
      (λ _.
        by_policy-Keeps spec.concurrency (active_cron_jobs w.store env spec.name) env spec
          (active-Bounded w.store env spec.name h) w h)

module _ (parse : Ident → Option (ℕ → ℕ)) (hash : Ident → Ident → ℕ)
    (key_of : Ident → Ident → ℕ) where
  maybe_fire-Bounded :
      (env : Environment) (spec : CronSpec) (cs : CronState) (w : World)
      → JobsBounded w.store
      → JobsBounded (maybe_fire_cron parse hash key_of env spec cs w).1.store
  unfolding maybe_fire_cron
  maybe_fire-Bounded env spec cs w h =
      elim (due_slot parse hash key_of w.now env spec cs)
        as (λ o.
          JobsBounded
            (elim o as (λ _. CronState × World × Outcome) [
              | none ↦ (cs, w, done)
              | some due ↦ (
                fired_slot parse hash key_of env spec due cs,
                (fire_cron env spec w).0,
                (fire_cron env spec w).1,
              )
            ]).1.store) [ none ↦ h | some due ↦ fire_cron-Bounded env spec w h ]

  abbrev Turn : Type 0
  Turn = CronState × World × Outcome

  -- What follows a turn that did not end the pass.
  continue-Bounded :
      (r : Turn) (next : CronState → World → Turn)
      → JobsBounded r.1.store
      → ((cs : CronState) (w : World) → JobsBounded w.store → JobsBounded (next cs w).1.store)
      → JobsBounded
          (elim r.2 as (λ _. Turn) [ done ↦ next r.0 r.1 | lost ↦ (r.0, r.1, lost) ]).1.store
  continue-Bounded (cs, w, done) next h k = k cs w h
  continue-Bounded (cs, w, lost) next h k = h

  each_spec-Bounded :
      (env : Environment) (specs : List CronSpec) (cs : CronState) (w : World)
      → JobsBounded w.store
      → JobsBounded (each_spec parse hash key_of env specs cs w).1.store
  unfolding each_spec
  each_spec-Bounded env [] cs w h = h
  each_spec-Bounded env (spec ∷ specs) cs w h =
      continue-Bounded (maybe_fire_cron parse hash key_of env spec cs w)
        (each_spec parse hash key_of env specs) (maybe_fire-Bounded env spec cs w h)
        (λ cs' w' h'. each_spec-Bounded env specs cs' w' h')

  each_environment-Bounded :
      (envs : List Environment) (cs : CronState) (w : World)
      → JobsBounded w.store
      → JobsBounded (each_environment parse hash key_of envs cs w).1.store
  unfolding each_environment
  each_environment-Bounded [] cs w h = h
  each_environment-Bounded (env ∷ envs) cs w h =
      continue-Bounded (each_spec parse hash key_of env env.service.cron cs w)
        (each_environment parse hash key_of envs) (each_spec-Bounded env env.service.cron cs w h)
        (λ cs' w' h'. each_environment-Bounded envs cs' w' h')

  -- A cron pass over all environments, whatever is due, whatever the concurrency policies stop and
  -- whatever raft answers, leaves every job within the attempts it is allowed, if every job was: the
  -- invariant of the jobs' own pass.
  pub reconcile_cron-Bounded :
      (cs : CronState) (w : World)
      → JobsBounded w.store
      → JobsBounded (reconcile_cron parse hash key_of cs w).1.store
  unfolding reconcile_cron
  reconcile_cron-Bounded cs w h = each_environment-Bounded _ cs w h
