-- ===== src/Scheduler/Reconciler/Drains.antt =====
-- internal/daemon/scheduler/drain.go: emptying a draining node keeps the service up.
use zattera_dev.Base.{
  ℕ, suc, ◌≡◌, ◌≢◌, ◌⊎◌, ◌≤◌, inl, inr, All, leb, not, true, none, Option-cases, Bool-cases, Table,
  get_below, refl, sym, ◌∙◌, Bool, ◌&&◌, ◌||◌, some, List, [], ◌∷◌, filter, arith, get, Ordered,
  values, ◌==◌, subst, length,
}
use zattera_dev.State.Types.{
  Ident, blank, AssignmentDesired, InstanceState, Environment, Release, Assignment, Node,
}
use zattera_dev.State.Store.{Store, environment, release, list_assignments}
use zattera_dev.State.Index.{IndexAgrees}
use zattera_dev.Raft.World.{World}
use zattera_dev.Scheduler.Helpers.{desired_replicas, is_stopped_state, is_run, is_stop, is_stopped}
use zattera_dev.Scheduler.Stateful.{is_up}
use zattera_dev.Scheduler.Reconciler.{leaves, drain_node, of_stateful, replacement_ready}
use zattera_dev.Scheduler.Reconciler.Batch.{AssignmentsKeyed}
use zattera_dev.Scheduler.Reconciler.Draining.{drainable, drain_node-keeps}

-- A replica of the same release and environment that is meant to run, and runs, on another node. Where
-- the assignment names no environment, those of all are looked at.
pub record IsElsewhere (s : Store) (n : Node) (a o : Assignment) : Type 0 where
  pub stored : get o.id s.assignments ≡ some o
  pub peer : (a.environment_id ≡ blank) ⊎ (o.environment_id ≡ a.environment_id)
  pub same_release : o.release_id ≡ a.release_id
  pub away : o.node_id ≢ n.id
  pub wanted : o.desired ≡ AssignmentDesired.run
  pub up : (o.observed.state ≡ InstanceState.running) ⊎ (o.observed.state ≡ InstanceState.healthy)

-- The assignments are in the order of their ids, none twice.
abbrev pub Ascending : ℕ → List Assignment → Type 0
Ascending n [] = Unit
Ascending n (o ∷ os) = (n ≤ o.id) × Ascending (suc o.id) os

-- Where the environment exists: as many such replicas as it wants, all different.
abbrev pub IsReplaced : Store → Node → Assignment → Type 0
IsReplaced s n a =
    (environment s a.environment_id ≡ none)
    ⊎ ((env : Environment) × (environment s a.environment_id ≡ some env)
        × ((os : List Assignment) × Ascending 0 os
            × All (IsElsewhere s n a) os
            × (desired_replicas env ≤ length os)))

abbrev pub IsOfStateful : Store → Assignment → Type 0
IsOfStateful s a =
    (rel : Release) × (release s a.release_id ≡ some rel) × (rel.service.stateful ≡ true)

-- What emptying the node may do away with.
abbrev pub MayLeave : Store → Node → Assignment → Type 0
MayLeave s n a =
    (a.node_id ≡ n.id)
    × (((a.desired ≡ AssignmentDesired.stop) × (a.observed.state ≡ InstanceState.stopped))
        ⊎ ((a.desired ≡ AssignmentDesired.run) × (IsOfStateful s a ⊎ IsReplaced s n a)))

run_lem : (d : AssignmentDesired) → is_run d ≡ true → d ≡ AssignmentDesired.run
run_lem d h = ground (arith, h)

stop_lem : (d : AssignmentDesired) → is_stop d ≡ true → d ≡ AssignmentDesired.stop
stop_lem d h = ground (arith, h)

stopped_lem : (i : InstanceState) → is_stopped_state i ≡ true → i ≡ InstanceState.stopped
stopped_lem i h = ground (arith, h)

up_lem :
    (i : InstanceState) → is_up i ≡ true → (i ≡ InstanceState.running) ⊎ (i ≡ InstanceState.healthy)
up_lem InstanceState.running h = inl refl
up_lem InstanceState.healthy h = inr refl
up_lem InstanceState.unspecified h = absurd (cc h)
up_lem InstanceState.pending h = absurd (cc h)
up_lem InstanceState.pulling h = absurd (cc h)
up_lem InstanceState.starting h = absurd (cc h)
up_lem InstanceState.unhealthy h = absurd (cc h)
up_lem InstanceState.failed h = absurd (cc h)
up_lem InstanceState.stopped h = absurd (cc h)

Ascending-mono : (m n : ℕ) (os : List Assignment) → m ≤ n → Ascending n os → Ascending m os
Ascending-mono m n [] le h = tt
Ascending-mono m n (o ∷ os) le h = (omega (arith, le, h.0), h.1)

filter-Ascending :
    (test : Assignment → Bool) (n : ℕ) (os : List Assignment)
    → Ascending n os
    → Ascending n (filter test os)
filter-Ascending test n [] h = tt
filter-Ascending test n (o ∷ os) h =
    let rest = filter-Ascending test (suc o.id) os h.1 in
    elim (Bool-cases (test o)) [
      | inl e ↦ rw e (h.0, rest)
      | inr e ↦ rw e (Ascending-mono n (suc o.id) (filter test os) (omega (arith, h.0)) rest)
    ]

values-Ascending :
    (n : ℕ) (t : Table Assignment)
    → Ordered n t
    → ((j : Ident) (x : Assignment) → get j t ≡ some x → x.id ≡ j)
    → Ascending n (values t)
unfolding get values
values-Ascending n [] o keyed = tt
values-Ascending n ((j, x) ∷ t) o keyed =
    let e : x.id ≡ j = keyed j x (ground arith) in
    let rest = values-Ascending (suc j) t o.1 (λ k y found. elim (Bool-cases (k == j)) [
      | inl same ↦ absurd (ground (arith, same, found, get_below j (suc j) t o.1))
      | inr other ↦ keyed k y (ground (arith, other, found))
    ]) in
    (omega (arith, o.0, e), subst (λ i. Ascending (suc i) (values t)) (sym e) rest)

-- The replicas that replacementReady counts.
abbrev counts : Assignment → Assignment → Bool
counts a o =
    (not (o.node_id == a.node_id) && o.release_id == a.release_id)
    && (is_run o.desired && is_up o.observed.state)

peer_lem :
    (a o : Assignment)
    → (a.environment_id == blank || o.environment_id == a.environment_id) ≡ true
    → (a.environment_id ≡ blank) ⊎ (o.environment_id ≡ a.environment_id)
peer_lem a o h = elim (Bool-cases (a.environment_id == blank)) [
  | inl e ↦ inl (ground (arith, e))
  | inr e ↦ inr (ground (arith, e, h))
]

elsewhere :
    (s : Store) (n : Node) (a : Assignment) (os : List Assignment)
    → a.node_id ≡ n.id
    → All (λ x. get x.id s.assignments ≡ some x) os
    → All (IsElsewhere s n a) (
        filter
          (counts a)
          (filter (λ o. a.environment_id == blank || o.environment_id == a.environment_id) os))
elsewhere s n a [] here h = tt
elsewhere s n a (o ∷ os) here h =
    let rest = elsewhere s n a os here h.1 in
    elim (Bool-cases (a.environment_id == blank || o.environment_id == a.environment_id)) [
      | inr e ↦ rw e rest
      | inl e ↦ elim (Bool-cases (counts a o)) [
        | inr f ↦ rw (e, f) rest
        | inl f ↦
            rw (e, f)
              (
                record {
                  stored = h.0;
                  peer = peer_lem a o e;
                  same_release = ground (arith, f);
                  away = ground (arith, f, here);
                  wanted = run_lem o.desired (ground (arith, f));
                  up = up_lem o.observed.state (ground (arith, f));
                },
                rest,
              )
      ]
    ]

enough_lem : (want n : ℕ) → (want == 0 || leb want n) ≡ true → want ≤ n
enough_lem want n h = ground (arith, h)

ready-IsReplaced :
    (s : Store) (n : Node) (a : Assignment)
    → AssignmentsKeyed s
    → a.node_id ≡ n.id
    → replacement_ready s a ≡ true
    → IsReplaced s n a
unfolding replacement_ready list_assignments
ready-IsReplaced s n a keyed here ready = elim (Option-cases (environment s a.environment_id)) [
  | inl gone ↦ inl gone
  | inr (env, found) ↦
      let all_here = values s.assignments in
      let peers =
        filter (λ o. a.environment_id == blank || o.environment_id == a.environment_id) all_here in
      let os = filter (counts a) peers in
      let want = desired_replicas env in
      let same : replacement_ready s a ≡ (want == 0 || leb want (length os)) =
        rw (found, replacement_ready) refl in
      let enough : (want == 0 || leb want (length os)) ≡ true = sym same ∙ ready in
      let sorted : Ascending 0 peers =
        filter-Ascending _ 0 all_here
          (values-Ascending 0 s.assignments keyed.ordered keyed.stored) in
      inr (
        env,
        found,
        (
          os,
          filter-Ascending (counts a) 0 peers sorted,
          elsewhere s n a all_here here keyed.listed,
          enough_lem want (length os) enough,
        ),
      )
]

stateful_lem : (s : Store) (a : Assignment) → of_stateful s a ≡ true → IsOfStateful s a
stateful_lem s a h = elim (Option-cases (release s a.release_id)) [
  | inl none_there ↦ absurd (ground (arith, none_there, h))
  | inr (rel, found) ↦ (rel, found, ground (arith, found, h))
]

-- An assignment that a drain acts on may leave.
drainable_lem :
    (s : Store) (n : Node) (a : Assignment)
    → AssignmentsKeyed s
    → drainable s n a ≡ true
    → MayLeave s n a
unfolding is_stopped
drainable_lem s n a keyed h =
    let here : a.node_id ≡ n.id = ground (arith, h) in
    (
      here,
      elim (Bool-cases (leaves s a)) [
        | inr stays ↦ inl (
          stop_lem a.desired (ground (arith, h, stays)),
          stopped_lem a.observed.state (ground (arith, h, stays)),
        )
        | inl go ↦ inr (
          run_lem a.desired (ground (arith, go)),
          elim (Bool-cases (of_stateful s a)) [
            | inl e ↦ inl (stateful_lem s a e)
            | inr e ↦ inr (ready-IsReplaced s n a keyed here (ground (arith, go, e)))
          ],
        )
      ],
    )

-- Emptying a draining node, whatever raft answers, leaves an assignment as it is, unless the assignment
-- is on the node and either was told to stop and has stopped, or is meant to run and its release is of a
-- stateful service, its environment is gone, or as many replicas of its release as its environment wants
-- are meant to run, and are running or healthy, on other nodes. The index by node is assumed to agree
-- with the map of assignments, and each assignment to be stored under its own id.
pub drain_node-spares :
    (n : Node) (w : World) (k : Ident) (a : Assignment)
    → IndexAgrees w.store
    → AssignmentsKeyed w.store
    → get k w.store.assignments ≡ some a
    → (get k (drain_node n w).0.store.assignments ≡ some a) ⊎ MayLeave w.store n a
drain_node-spares n w k a agrees keyed e = elim (Bool-cases (drainable w.store n a)) [
  | inl acts ↦ inr (drainable_lem w.store n a keyed acts)
  | inr spares ↦ inl (drain_node-keeps n w k a agrees keyed e spares)
]
