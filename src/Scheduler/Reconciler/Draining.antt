-- ===== src/Scheduler/Reconciler/Draining.antt =====
-- internal/daemon/scheduler/drain.go: what the commands of a drain leave alone.
use zattera_dev.Base.{
  ◌+◌, ◌≡◌, refl, sym, ap, ◌∙◌, Bool, false, ◌&&◌, ◌||◌, some, List, [], ◌∷◌, any, filter, is_nil,
  arith, get, Ordered, values, if◌then◌else◌, ◌==◌, subst, length,
}
use Prim.Native.String.{String}
use zattera_dev.State.Types.{Ident, blank, Assignment, Event, Message, Node}
use zattera_dev.State.Store.{Store, put_node, append_events, list_assignments_by_node}
use zattera_dev.State.Index.{IndexAgrees}
use zattera_dev.State.Index.Listing.{list_assignments_by_node_lem}
use zattera_dev.Raft.Fsm
use zattera_dev.Raft.Fsm.{SetNodeStatus, append_evs, set_node_status, apply_set_node_status}
use zattera_dev.Raft.World.{World, Action, return, ◌>>◌, propose}
use zattera_dev.Raft.Rules.{Keeps, by_if, resume_store, propose_store}
use zattera_dev.Raft.Frames.{append_events-EventsOnly}
use zattera_dev.Scheduler.Helpers.{is_run, is_stop, is_stopped, emit_event}
use zattera_dev.Scheduler.Reconciler.{
  apply_batch, ids_of, leaves, drain_node, drained_status, of_stateful, occupies,
}
use zattera_dev.Scheduler.Reconciler.Batch.{
  AssignmentsKeyed, Absent, Untouched, step, stop_batch-Untouched, unselected,
}

-- What emptying a node may act on: an assignment on it that is to leave, or that has stopped.
abbrev pub drainable : Store → Node → Assignment → Bool
drainable s n a = a.node_id == n.id && (leaves s a || (is_stop a.desired && is_stopped a))

filter-filter :
    (t u : Assignment → Bool) (xs : List Assignment)
    → filter t (filter u xs) ≡ filter (λ x. u x && t x) xs
filter-filter t u [] = refl
filter-filter t u (x ∷ xs) = ground (arith, filter-filter t u xs)

-- An assignment that a drain does not act on is in neither of its lists.
spared :
    (s : Store) (n : Node) (k : Ident) (a : Assignment) (test : Assignment → Bool)
    → IndexAgrees s
    → AssignmentsKeyed s
    → get k s.assignments ≡ some a
    → (a.node_id == n.id && test a) ≡ false
    → Absent k (ids_of (filter test (list_assignments_by_node s n.id)))
spared s n k a test agrees keyed e h =
    subst (λ xs. Absent k (ids_of xs))
      (sym (
        ap (filter test) (list_assignments_by_node_lem s n.id agrees)
        ∙ filter-filter test (λ x. x.node_id == n.id) (values s.assignments)))
      (unselected k a s (λ x. x.node_id == n.id && test x) (values s.assignments) keyed.listed e h)

module _ (k : Ident) where
  same_assignments : (s t : Store) → t.assignments ≡ s.assignments → Untouched k s t
  same_assignments s t e o = (subst (λ x. Ordered 0 x) (sym e) o, ap (get k) e)

  append_evs-Untouched : (es : List Event) → Keeps (Untouched k) (propose (append_evs es))
  unfolding Fsm.apply
  append_evs-Untouched es w =
      propose_store (Untouched k) (append_evs es) w (λ o. (o, refl))
        (same_assignments w.store (append_events es w.store)
          (append_events-EventsOnly es w.store).assignments)

  emit_event-Untouched :
      (p a e : Ident) (kind severity : String) (m : Message)
      → Keeps (Untouched k) (emit_event p a e kind severity m)
  unfolding emit_event
  emit_event-Untouched p a e kind severity m w =
      append_evs-Untouched _ (record w { drawn = w.drawn + 1 })

  node_status_quiet :
      (m : SetNodeStatus) (s : Store) → (apply_set_node_status m s).0.assignments ≡ s.assignments
  unfolding apply_set_node_status put_node
  node_status_quiet m s = ground arith

  set_node_status-Untouched :
      (m : SetNodeStatus) → Keeps (Untouched k) (propose (set_node_status m))
  unfolding Fsm.apply
  set_node_status-Untouched m w =
      propose_store (Untouched k) (set_node_status m) w (λ o. (o, refl))
        (same_assignments w.store (apply_set_node_status m w.store).0 (node_status_quiet m w.store))

  -- An action that leaves the assignment alone in one world, then one that does in all.
  then_Untouched :
      (m rest : Action) (w : World)
      → Untouched k w.store (m w).0.store
      → Keeps (Untouched k) rest
      → Untouched k w.store ((m >> rest) w).0.store
  then_Untouched m rest w h n =
      resume_store (Untouched k w.store) (m w) rest h
        ((step k).join w.store (m w).0.store (rest (m w).0).0.store h (n (m w).0))

pub drain_node-keeps :
    (n : Node) (w : World) (k : Ident) (a : Assignment)
    → IndexAgrees w.store
    → AssignmentsKeyed w.store
    → get k w.store.assignments ≡ some a
    → drainable w.store n a ≡ false
    → get k (drain_node n w).0.store.assignments ≡ some a
unfolding drain_node
drain_node-keeps n w k a agrees keyed e h =
    let listed = list_assignments_by_node w.store n.id in
    let stateful_stopped = filter (λ x. is_run x.desired && of_stateful w.store x) listed in
    let event =
      emit_event blank blank blank "node.drain.stateful_stopped" "warning"
        (Message.stateful_stopped (length stateful_stopped)) in
    let told = if is_nil stateful_stopped then return else event in
    let batch =
      apply_batch [] (ids_of (filter (leaves w.store) listed))
        (ids_of (filter (λ x. is_stop x.desired && is_stopped x) listed)) in
    let stopped =
      stop_batch-Untouched k (ids_of (filter (leaves w.store) listed))
        (ids_of (filter (λ x. is_stop x.desired && is_stopped x) listed)) w keyed.stored
        (spared w.store n k a (leaves w.store) agrees keyed e (ground (arith, h)))
        (spared w.store n k a (λ x. is_stop x.desired && is_stopped x) agrees keyed e
          (ground (arith, h))) in
    let p =
      then_Untouched k (batch >> told) _ w
        (then_Untouched k batch told w stopped (
          by_if (Keeps (Untouched k)) (is_nil stateful_stopped) return event (λ _ u o. (o, refl))
            (λ _. emit_event-Untouched k _ _ _ _ _ _)))
        (by_if (Keeps (Untouched k)) (any occupies listed) return
          (propose (set_node_status (drained_status n))) (λ _ u o. (o, refl))
          (λ _. set_node_status-Untouched k (drained_status n)))
        keyed.ordered in
    p.1 ∙ e
