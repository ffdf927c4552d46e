-- ===== src/Scheduler/Jobs/Handover.antt =====
-- A job's start makes two proposals, of its assignment and of the job as running
-- (internal/daemon/scheduler/jobs.go, placeJob): what is left when leadership goes between them.
use zattera_dev.Base.{
  ℕ, ◌+◌, ◌≡◌, ◌≢◌, ◌⊎◌, inl, inr, ap, ◌∙◌, refl, List, [], ◌∷◌, some, arith, get, get-put,
}
use zattera_dev.State.Types.{Ident, AssignmentDesired, Environment, Release, Assignment, Job}
use zattera_dev.State.Store.{Store, put_assignment, put_assignments, put_job}
use zattera_dev.Raft.Fsm
use zattera_dev.Raft.Frames.{put_assignments-Framed}
use zattera_dev.Raft.World.{World, Answer, committed, not_leader, leadership_lost, failed, propose}
use zattera_dev.Scheduler.Jobs.{write_job, attempt_assignment, run_on}

Answer-cases :
    (a : Answer) → (a ≡ committed) ⊎ ((a ≡ not_leader) ⊎ ((a ≡ leadership_lost) ⊎ (a ≡ failed)))
Answer-cases committed = inl refl
Answer-cases not_leader = inr (inl refl)
Answer-cases leadership_lost = inr (inr (inl refl))
Answer-cases failed = inr (inr (inr refl))

stored : (a : Assignment) (s : Store) → get a.id (put_assignments (a ∷ []) s).assignments ≡ some a
unfolding put_assignments put_assignment
stored a s = ground (arith, get-put a.id a.id a s.assignments)

stored_before :
    (a : Assignment) (s : Store) (k : Ident)
    → k ≢ a.id
    → get k (put_assignments (a ∷ []) s).assignments ≡ get k s.assignments
unfolding put_assignments put_assignment
stored_before a s k ne = ground (arith, get-put k a.id a s.assignments)

-- An assignment by which a node runs the job, on a release of the environment.
pub record IsRunOf (j : Job) (env : Environment) (rel : Release) (node_id : Ident) (a : Assignment)
    : Type 0 where
  pub wanted : a.desired ≡ AssignmentDesired.run
  pub of_job : a.job_id ≡ j.id
  pub on_node : a.node_id ≡ node_id
  pub of_environment : a.environment_id ≡ env.id
  pub of_release : a.release_id ≡ rel.id

-- The store has such an assignment under the id.
abbrev pub RunsUnder : Ident → Job → Environment → Release → Ident → Store → Type 0
RunsUnder id j env rel node_id s =
    (a : Assignment) × (get id s.assignments ≡ some a) × IsRunOf j env rel node_id a

attempt-IsRunOf :
    (id : Ident) (now : ℕ) (j : Job) (env : Environment) (rel : Release) (node_id : Ident)
    → IsRunOf j env rel node_id (attempt_assignment id now j env rel node_id)
unfolding attempt_assignment
attempt-IsRunOf id now j env rel node_id = record {
  wanted = refl;
  of_job = refl;
  on_node = refl;
  of_environment = refl;
  of_release = refl;
}

-- The job's own proposal takes no effect: it is refused, or fails.
half_done :
    (j : Job) (env : Environment) (rel : Release) (node_id : Ident) (nodes : List Ident) (w : World)
    → w.answers w.asked ≡ committed
    → (w.answers (w.asked + 1) ≡ not_leader) ⊎ (w.answers (w.asked + 1) ≡ failed)
    → (run_on j env rel (node_id ∷ nodes) w).0.store
      ≡ put_assignments (attempt_assignment (w.fresh w.drawn) w.now j env rel node_id ∷ []) w.store
unfolding run_on propose Fsm.apply write_job
half_done j env rel node_id nodes w first (inl second) = rw (first, second) refl
half_done j env rel node_id nodes w first (inr second) = rw (first, second) refl

-- The assignment's proposal is committed, whatever becomes of the job's.
started :
    (j : Job) (env : Environment) (rel : Release) (node_id : Ident) (nodes : List Ident) (w : World)
    → w.answers w.asked ≡ committed
    → (run_on j env rel (node_id ∷ nodes) w).0.store.assignments
      ≡ (put_assignments
          (attempt_assignment (w.fresh w.drawn) w.now j env rel node_id ∷ [])
          w.store).assignments
unfolding run_on propose Fsm.apply write_job put_job
started j env rel node_id nodes w first = elim (Answer-cases (w.answers (w.asked + 1))) [
  | inl second ↦ rw (first, second) refl
  | inr (inl second) ↦ rw (first, second) refl
  | inr (inr (inl second)) ↦ rw (first, second) refl
  | inr (inr (inr second)) ↦ rw (first, second) refl
]

-- A job's start whose first proposal, of its assignment, is committed, and whose second, of the job as
-- running, is refused since the node no longer leads, or fails: the store has a new assignment that runs
-- the job on the chosen node, and every job is as it was, so that the job still waits for an attempt.
-- When it is started again from that store, by a pass that draws another id and whose first proposal is
-- committed, two assignments run the job, one on each of the nodes chosen.
pub run_on-twice :
    (j : Job) (env : Environment) (rel : Release) (node_id again : Ident)
    (nodes others : List Ident) (w later : World)
    → w.answers w.asked ≡ committed
    → (w.answers (w.asked + 1) ≡ not_leader) ⊎ (w.answers (w.asked + 1) ≡ failed)
    → later.store ≡ (run_on j env rel (node_id ∷ nodes) w).0.store
    → later.answers later.asked ≡ committed
    → w.fresh w.drawn ≢ later.fresh later.drawn
    → (later.store.jobs ≡ w.store.jobs)
      × RunsUnder (w.fresh w.drawn) j env rel node_id later.store
      × RunsUnder
          (w.fresh w.drawn)
          j
          env
          rel
          node_id
          (run_on j env rel (again ∷ others) later).0.store
      × RunsUnder
          (later.fresh later.drawn)
          j
          env
          rel
          again
          (run_on j env rel (again ∷ others) later).0.store
unfolding attempt_assignment
run_on-twice j env rel node_id again nodes others w later first second same committed_again ne =
    let id = w.fresh w.drawn in
    let id2 = later.fresh later.drawn in
    let a = attempt_assignment id w.now j env rel node_id in
    let b = attempt_assignment id2 later.now j env rel again in
    let half = same ∙ half_done j env rel node_id nodes w first second in
    let next = started j env rel again others later committed_again in
    let there : get id later.store.assignments ≡ some a =
      ap (λ (s : Store). get id s.assignments) half ∙ stored a w.store in
    let a_runs = attempt-IsRunOf id w.now j env rel node_id in
    (
      ap (λ (s : Store). s.jobs) half ∙ (put_assignments-Framed (a ∷ []) w.store).jobs,
      (a, there, a_runs),
      (a, ap (get id) next ∙ stored_before b later.store id ne ∙ there, a_runs),
      (b, ap (get id2) next ∙ stored b later.store, attempt-IsRunOf id2 later.now j env rel again),
    )
