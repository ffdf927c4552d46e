-- ===== src/Scheduler/Reconciler/Batch.antt =====
-- What applyBatch of internal/daemon/scheduler/scheduler.go leaves alone, and with it the teardown of
-- orphans (teardown.go) and the emptying of a draining node (drain.go).
use zattera_dev.Base.{
  ◌≡◌, refl, ◌∙◌, inl, inr, Bool, true, false, ◌&&◌, ◌||◌, some, List, [], ◌∷◌, All, All-map,
  All-filter, any, filter, is_nil, arith, get, get-put, get-delete, Ordered, put-Ordered,
  delete-Ordered, values, Bool-cases, Option-cases, subst, ◌==◌,
}
use zattera_dev.State.Types.{Ident, blank, Assignment}
use zattera_dev.State.Store.{
  Store, assignment, put_assignment, put_assignments, delete_assignment, delete_assignments,
  list_assignments,
}
use zattera_dev.Raft.Fsm
use zattera_dev.Raft.Fsm.{put_asgs, delete_asgs}
use zattera_dev.Raft.World.{World, Outcome, return, propose}
use zattera_dev.Raft.Rules.{IsStep, Keeps, by_if, propose_store, >>-Keeps}
use zattera_dev.Scheduler.Helpers.{is_run, is_stop, is_stopped}
use zattera_dev.Scheduler.Reconciler.{
  stops_of, put_batch, delete_batch, apply_batch, ids_of, is_orphan, orphans_to_stop,
  orphans_to_delete, reconcile_orphans,
}

-- The map of assignments is in order, and each is stored under its own id.
pub record AssignmentsKeyed (s : Store) : Type 0 where
  pub ordered : Ordered 0 s.assignments
  pub stored : (j : Ident) (x : Assignment) → get j s.assignments ≡ some x → x.id ≡ j
  pub listed : All (λ x. get x.id s.assignments ≡ some x) (values s.assignments)

-- The id is not among these.
abbrev pub Absent : Ident → List Ident → Type 0
Absent k ids = any (λ x. x == k) ids ≡ false

module _ (k : Ident) where
  abbrev pub Untouched : Store → Store → Type 0
  Untouched s t =
      Ordered 0 s.assignments
      → Ordered 0 t.assignments × (get k t.assignments ≡ get k s.assignments)

  pub step : IsStep Untouched
  step = record {
    stay = λ s o. (o, refl);
    join = λ s t u f g o. let p = f o in let q = g p.0 in (q.0, q.1 ∙ p.1);
  }

  put_assignment-Untouched :
      (a : Assignment) (s : Store) → (a.id == k) ≡ false → Untouched s (put_assignment a s)
  unfolding put_assignment
  put_assignment-Untouched a s other o = (
    put-Ordered 0 a.id a s.assignments (omega arith) o,
    ground (arith, get-put k a.id a s.assignments),
  )

  put_assignments-Untouched :
      (batch : List Assignment) (s : Store)
      → any (λ a. a.id == k) batch ≡ false
      → Untouched s (put_assignments batch s)
  unfolding put_assignments
  put_assignments-Untouched [] s h = step.stay s
  put_assignments-Untouched (a ∷ batch) s h =
      step.join s (put_assignment a s) (put_assignments batch (put_assignment a s))
        (put_assignment-Untouched a s (ground arith))
        (put_assignments-Untouched batch (put_assignment a s) (ground arith))

  delete_assignment-Untouched :
      (id : Ident) (s : Store) → (id == k) ≡ false → Untouched s (delete_assignment id s)
  unfolding delete_assignment
  delete_assignment-Untouched id s other o = elim (Option-cases (get id s.assignments)) [
    | inl e ↦ rw (e, delete_assignment) (o, refl)
    | inr (a, e) ↦
        rw (e, delete_assignment)
          (delete-Ordered 0 id s.assignments o, ground (arith, get-delete k id 0 s.assignments o))
  ]

  delete_assignments-Untouched :
      (ids : List Ident) (s : Store) → Absent k ids → Untouched s (delete_assignments ids s)
  unfolding delete_assignments
  delete_assignments-Untouched [] s h = step.stay s
  delete_assignments-Untouched (id ∷ ids) s h =
      step.join s (delete_assignment id s) (delete_assignments ids (delete_assignment id s))
        (delete_assignment-Untouched id s (ground arith))
        (delete_assignments-Untouched ids (delete_assignment id s) (ground arith))

  stops-Absent :
      (s : Store) (ids : List Ident)
      → ((j : Ident) (x : Assignment) → get j s.assignments ≡ some x → x.id ≡ j)
      → Absent k ids
      → any (λ a. a.id == k) (stops_of s ids) ≡ false
  unfolding stops_of assignment
  stops-Absent s [] keyed h = refl
  stops-Absent s (id ∷ ids) keyed h =
      let rest = stops-Absent s ids keyed (ground arith) in
      elim (Option-cases (get id s.assignments)) [
        | inl e ↦ rw (e, stops_of) rest
        | inr (a, e) ↦ rw (e, stops_of) (ground (arith, rest, keyed id a e))
      ]

  put_batch-Untouched :
      (batch : List Assignment)
      → any (λ a. a.id == k) batch ≡ false
      → Keeps Untouched (put_batch batch)
  unfolding put_batch Fsm.apply
  put_batch-Untouched batch h =
      by_if (Keeps Untouched) (is_nil batch) return (propose (put_asgs batch))
        (λ _ w. step.stay w.store)
        (λ _ w.
          propose_store Untouched (put_asgs batch) w (step.stay w.store)
            (put_assignments-Untouched batch w.store h))

  delete_batch-Untouched : (ids : List Ident) → Absent k ids → Keeps Untouched (delete_batch ids)
  unfolding delete_batch Fsm.apply
  delete_batch-Untouched ids h =
      by_if (Keeps Untouched) (is_nil ids) return (propose (delete_asgs ids))
        (λ _ w. step.stay w.store)
        (λ _ w.
          propose_store Untouched (delete_asgs ids) w (step.stay w.store)
            (delete_assignments-Untouched ids w.store h))

  -- A batch without new replicas.
  pub stop_batch-Untouched :
      (stop_ids delete_ids : List Ident) (w : World)
      → ((j : Ident) (x : Assignment) → get j w.store.assignments ≡ some x → x.id ≡ j)
      → Absent k stop_ids
      → Absent k delete_ids
      → Untouched w.store (apply_batch [] stop_ids delete_ids w).0.store
  unfolding apply_batch
  stop_batch-Untouched stop_ids delete_ids w keyed h g =
      >>-Keeps Untouched step (put_batch (stops_of w.store stop_ids)) (delete_batch delete_ids)
        (put_batch-Untouched (stops_of w.store stop_ids) (stops-Absent w.store stop_ids keyed h))
        (delete_batch-Untouched delete_ids g) w

-- The assignment stored under an id is none of those that a test selects, if it fails the test.
pub unselected :
    (k : Ident) (a : Assignment) (s : Store) (test : Assignment → Bool) (xs : List Assignment)
    → All (λ x. get x.id s.assignments ≡ some x) xs
    → get k s.assignments ≡ some a
    → test a ≡ false
    → Absent k (ids_of (filter test xs))
unselected k a s test [] listed e t = refl
unselected k a s test (x ∷ xs) listed e t =
    let rest = unselected k a s test xs listed.1 e t in
    elim (Bool-cases (x.id == k)) [
      | inr other ↦ ground (arith, rest, other)
      | inl same ↦
          let a_is_x : a ≡ x = ground (arith, same, e, listed.0) in
          let fails : test x ≡ false = subst (λ z. test z ≡ false) a_is_x t in rw fails rest
    ]

pub listed_stored :
    (s : Store) (env_id : Ident)
    → All (λ x. get x.id s.assignments ≡ some x) (values s.assignments)
    → All (λ x. get x.id s.assignments ≡ some x) (list_assignments s env_id)
unfolding list_assignments
listed_stored s env_id h =
    let test = λ (a : Assignment). env_id == blank || a.environment_id == env_id in
    All-map (λ x. (test x ≡ true) × (get x.id s.assignments ≡ some x))
      (λ x. get x.id s.assignments ≡ some x) (λ x q. q.1) (filter test (values s.assignments))
      (All-filter (λ x. get x.id s.assignments ≡ some x) test (values s.assignments) h)

-- A pass over the orphans leaves every assignment alone whose environment exists, and whose release
-- exists where it names one: it is stored as before, whatever raft answers. The map of assignments is
-- assumed to be in order, with each assignment under its own id.
pub reconcile_orphans-keeps :
    (w : World) (k : Ident) (a : Assignment)
    → AssignmentsKeyed w.store
    → get k w.store.assignments ≡ some a
    → is_orphan w.store a ≡ false
    → get k (reconcile_orphans w).0.store.assignments ≡ some a
unfolding reconcile_orphans orphans_to_stop orphans_to_delete
reconcile_orphans-keeps w k a keyed e sound =
    let listed = listed_stored w.store blank keyed.listed in
    let spared_stop =
      unselected k a w.store (λ x. is_orphan w.store x && is_run x.desired)
        (list_assignments w.store blank) listed e (ground (arith, sound)) in
    let spared_delete =
      unselected k a w.store (λ x. is_orphan w.store x && (is_stop x.desired && is_stopped x))
        (list_assignments w.store blank) listed e (ground (arith, sound)) in
    by_if (λ (r : World × Outcome). get k r.0.store.assignments ≡ some a)
      (is_nil (orphans_to_stop w.store) && is_nil (orphans_to_delete w.store)) (return w)
      (apply_batch [] (orphans_to_stop w.store) (orphans_to_delete w.store) w) (λ _. e)
      (λ _.
        (stop_batch-Untouched k (orphans_to_stop w.store) (orphans_to_delete w.store) w keyed.stored
          spared_stop spared_delete keyed.ordered).1
        ∙ e)
