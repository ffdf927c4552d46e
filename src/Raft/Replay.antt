-- ===== src/Raft/Replay.antt =====
-- The FSM of internal/daemon/raftstore over whole logs: what holds of every replica that has applied
-- some sequence of commands.
use zattera_dev.Base.{ℕ, ◌≡◌, refl, Option, some, List, [], ◌∷◌, arith, get, values, filter, ◌==◌}
use zattera_dev.State.Types.{Ident, Event}
use zattera_dev.State.Store.{
  Store, new, touch_each, delete_node, set_volume_lease, put_environment, put_release,
  delete_release, put_deployment, put_build, put_node, put_volume, put_job, append_events,
  list_assignments_by_node, node_index,
}
use zattera_dev.State.Index.{
  IndexAgrees, put_assignments-IndexAgrees, delete_assignments-IndexAgrees,
  set_assignment_observed-IndexAgrees,
}
use zattera_dev.State.Index.Listing.{list_assignments_by_node_lem}
use zattera_dev.Raft.Fsm.{
  Mutation, put_env, put_asgs, delete_asgs, set_asgs_observed, append_evs, ApplyError, apply,
}

-- A step that leaves the assignments alone.
record SameAssignments (s t : Store) : Type 0 where
  objects : t.assignments ≡ s.assignments
  index : t.assignments_by_node ≡ s.assignments_by_node

SameAssignments-IndexAgrees : (s t : Store) → SameAssignments s t → IndexAgrees s → IndexAgrees t
SameAssignments-IndexAgrees s t same v = record {
  assignments_ordered = rw same.objects v.assignments_ordered;
  ids_ordered = λ n. rw same.index (v.ids_ordered n);
  agrees = λ n id. rw (same.objects, same.index) (v.agrees n id);
}

touch_each-SameAssignments : (es : List Event) (s : Store) → SameAssignments s (touch_each es s)
unfolding touch_each
touch_each-SameAssignments [] s = record { objects = refl; index = refl }
touch_each-SameAssignments (e ∷ es) s =
    let rest = touch_each-SameAssignments es _ in
    record { objects = rest.objects; index = rest.index }

append_events-SameAssignments :
    (es : List Event) (s : Store) → SameAssignments s (append_events es s)
unfolding append_events
append_events-SameAssignments es s =
    let rest = touch_each-SameAssignments es _ in
    record { objects = rest.objects; index = rest.index }

-- Each command keeps the index in agreement with the map of assignments.
apply-IndexAgrees :
    (now : Option ℕ) (m : Mutation) (s : Store) → IndexAgrees s → IndexAgrees (apply now m s).0
unfolding apply put_environment put_release delete_release put_deployment put_build put_node
    delete_node put_volume set_volume_lease put_job
apply-IndexAgrees now (put_asgs batch) s v = put_assignments-IndexAgrees batch s v
apply-IndexAgrees now (delete_asgs ids) s v = delete_assignments-IndexAgrees ids s v
apply-IndexAgrees now (set_asgs_observed n obs) s v = set_assignment_observed-IndexAgrees n obs s v
apply-IndexAgrees now (append_evs es) s v =
    SameAssignments-IndexAgrees s _ (append_events-SameAssignments es s) v
apply-IndexAgrees now m s v = SameAssignments-IndexAgrees s _ (ground arith) v

-- A refused command changes nothing.
pub apply_error_unchanged :
    (now : Option ℕ) (m : Mutation) (s : Store) {e : ApplyError}
    → (apply now m s).1 ≡ some e
    → (apply now m s).0 ≡ s
unfolding apply
apply_error_unchanged now (put_env x) s h = cc
apply_error_unchanged now _ s h = ground arith

-- The state of a replica that has applied a log.
pub replay : List (Option ℕ × Mutation) → Store → Store
replay [] s = s
replay ((now, m) ∷ log) s = replay log (apply now m s).0

replay-IndexAgrees :
    (log : List (Option ℕ × Mutation)) (s : Store) → IndexAgrees s → IndexAgrees (replay log s)
unfolding replay
replay-IndexAgrees [] s v = v
replay-IndexAgrees ((now, m) ∷ log) s v =
    replay-IndexAgrees log (apply now m s).0 (apply-IndexAgrees now m s v)

new-IndexAgrees : IndexAgrees new
unfolding new node_index get
new-IndexAgrees = record { assignments_ordered = tt; ids_ordered = λ n. tt; agrees = λ n id. refl }

-- After any log of commands applied to the empty store, listing the assignments of a node through the
-- index gives the assignments whose node_id is that node, each once and in the order of their ids.
pub list_assignments_by_node-replay :
    (log : List (Option ℕ × Mutation)) (n : Ident)
    → list_assignments_by_node (replay log new) n
      ≡ filter (λ a. a.node_id == n) (values (replay log new).assignments)
list_assignments_by_node-replay log n =
    list_assignments_by_node_lem (replay log new) n (replay-IndexAgrees log new new-IndexAgrees)
