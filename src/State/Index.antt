-- ===== src/State/Index.antt =====
-- The index of assignments by node (assignmentsByNode of internal/state): it agrees with the map of
-- assignments after every operation on it.
pub mod Listing
use zattera_dev.Base.{
  ℕ, suc, ◌≤◌, ◌≡◌, refl, sym, ap, ◌∙◌, inl, inr, Bool, true, false, ◌&&◌, Option, none, some, List,
  [], ◌∷◌, arith, Table, get, put, delete, values, filter, Ordered, Ordered-mono, put-Ordered,
  delete-Ordered, get-put, get-delete, get_below, table_ext, if◌then◌else◌, ◌==◌, Option-cases,
  Bool-cases,
}
use zattera_dev.State.Types.{Ident, Assignment, AssignmentObserved}
use zattera_dev.State.Store.{
  Store, node_index, unindex, reindex, moved_from, put_assignment, put_assignments,
  delete_assignment, delete_assignments, observe, set_observed, set_assignment_observed,
  pick_values, list_assignments_by_node,
}

abbrev Index : Type 0
Index = Table (Table (Unit {0}))

-- Whether the assignment stored at an id, if any, is on a node.
abbrev pub placed_on : ℕ → Option Assignment → Option (Unit {0})
placed_on n none = none
placed_on n (some a) = if n == a.node_id then some tt else none

pub record IndexAgrees (s : Store) : Type 0 where
  pub assignments_ordered : Ordered 0 s.assignments
  pub ids_ordered : (n : ℕ) → Ordered 0 (node_index n s.assignments_by_node)
  pub agrees :
      (n id : ℕ) → get id (node_index n s.assignments_by_node) ≡ placed_on n (get id s.assignments)

node_index-put :
    (n m : ℕ) (ids : Table (Unit {0})) (t : Index)
    → node_index n (put m ids t) ≡ (if n == m then ids else node_index n t)
unfolding node_index
node_index-put n m ids t = ground (arith, get-put n m ids t)

unindex_lem :
    (n m id : ℕ) (t : Index)
    → node_index n (unindex m id t)
      ≡ (if n == m then delete id (node_index n t) else node_index n t)
unfolding unindex node_index delete
unindex_lem n m id t = elim (Option-cases (get m t)) [
  | inl e ↦ ground (arith, e, get-put n m [] t)
  | inr (ids, e) ↦ ground (arith, e, get-put n m (delete id ids) t)
]

reindex_lem :
    (n m id : ℕ) (t : Index)
    → node_index n (reindex m id t)
      ≡ (if n == m then put id tt (node_index n t) else node_index n t)
unfolding reindex
reindex_lem n m id t = ground (arith, node_index-put n m (put id tt (node_index m t)) t)

-- The ids of every node stay in order.
abbrev AllOrdered : Index → Type 0
AllOrdered t = (n : ℕ) → Ordered 0 (node_index n t)

unindex-AllOrdered : (m id : ℕ) (t : Index) → AllOrdered t → AllOrdered (unindex m id t)
unindex-AllOrdered m id t o n =
    rw (unindex_lem n m id t) (ground (arith, o n, delete-Ordered 0 id (node_index n t) (o n)))

reindex-AllOrdered : (m id : ℕ) (t : Index) → AllOrdered t → AllOrdered (reindex m id t)
reindex-AllOrdered m id t o n =
    rw (reindex_lem n m id t)
      (ground (arith, o n, put-Ordered 0 id tt (node_index n t) (omega arith) (o n)))

moved_from-AllOrdered :
    (o : Option Assignment) (a : Assignment) (t : Index)
    → AllOrdered t
    → AllOrdered (moved_from o a t)
unfolding moved_from
moved_from-AllOrdered none a t o = o
moved_from-AllOrdered (some prev) a t o = elim (Bool-cases (prev.node_id == a.node_id)) [
  | inl e ↦ rw e o
  | inr e ↦ rw e (unindex-AllOrdered prev.node_id a.id t o)
]

-- What the index says of an id after a move, a removal and an entry.
get-unindex :
    (n m id k : ℕ) (t : Index)
    → AllOrdered t
    → get k (node_index n (unindex m id t))
      ≡ (if n == m && k == id then none else get k (node_index n t))
get-unindex n m id k t o =
    ground (arith, unindex_lem n m id t, get-delete k id 0 (node_index n t) (o n))

get-reindex :
    (n m id k : ℕ) (t : Index)
    → get k (node_index n (reindex m id t))
      ≡ (if n == m && k == id then some tt else get k (node_index n t))
get-reindex n m id k t = ground (arith, reindex_lem n m id t, get-put k id tt (node_index n t))

get-moved_from :
    (n k : ℕ) (o : Option Assignment) (a : Assignment) (t : Index)
    → AllOrdered t
    → ((m : ℕ) → get a.id (node_index m t) ≡ placed_on m o)
    → get k (node_index n (reindex a.node_id a.id (moved_from o a t)))
      ≡ (if k == a.id then placed_on n (some a) else get k (node_index n t))
unfolding moved_from
get-moved_from n k none a t o h = ground (arith, get-reindex n a.node_id a.id k t, h n)
get-moved_from n k (some prev) a t o h = ground (
  arith,
  get-reindex n a.node_id a.id k t,
  get-reindex n a.node_id a.id k (unindex prev.node_id a.id t),
  get-unindex n prev.node_id a.id k t o,
  h n,
)

pub put_assignment-IndexAgrees :
    (a : Assignment) (s : Store) → IndexAgrees s → IndexAgrees (put_assignment a s)
unfolding put_assignment
put_assignment-IndexAgrees a s v =
    let old = get a.id s.assignments in
    record {
      assignments_ordered = put-Ordered 0 a.id a s.assignments (omega arith) v.assignments_ordered;
      ids_ordered =
          reindex-AllOrdered a.node_id a.id _ (moved_from-AllOrdered old a _ v.ids_ordered);
      agrees = λ n id. ground (
        arith,
        get-put id a.id a s.assignments,
        v.agrees n id,
        get-moved_from n id old a s.assignments_by_node v.ids_ordered (λ m. v.agrees m a.id),
      );
    }

delete_assignment-IndexAgrees :
    (id : ℕ) (s : Store) → IndexAgrees s → IndexAgrees (delete_assignment id s)
unfolding delete_assignment
delete_assignment-IndexAgrees id s v = elim (Option-cases (get id s.assignments)) [
  | inl e ↦ rw (e, delete_assignment) v
  | inr (prev, e) ↦
      rw (e, delete_assignment)
        (record {
          assignments_ordered = delete-Ordered 0 id s.assignments v.assignments_ordered;
          ids_ordered = unindex-AllOrdered prev.node_id id _ v.ids_ordered;
          agrees = λ n k. ground (
            arith,
            e,
            get-delete k id 0 s.assignments v.assignments_ordered,
            v.agrees n k,
            get-unindex n prev.node_id id k s.assignments_by_node v.ids_ordered,
          );
        })
]

set_observed-IndexAgrees :
    (node_id id : ℕ) (obs : AssignmentObserved) (s : Store)
    → IndexAgrees s
    → IndexAgrees (set_observed node_id id obs s)
unfolding set_observed
set_observed-IndexAgrees node_id id obs s v = elim (Option-cases (get id s.assignments)) [
  | inl e ↦ rw (e, set_observed) v
  | inr (a, e) ↦ elim (Bool-cases (a.node_id == node_id)) [
    | inr f ↦ rw (e, set_observed, f) v
    | inl f ↦
        rw (e, set_observed, f)
          (record {
            assignments_ordered =
                put-Ordered 0 id (observe obs a) s.assignments (omega arith) v.assignments_ordered;
            ids_ordered = v.ids_ordered;
            agrees = λ n k. ground (
              arith,
              e,
              get-put k id (observe obs a) s.assignments,
              v.agrees n k,
              observe-node_id obs a,
            );
          })
  ]
]
  where
    observe-node_id :
        (obs : AssignmentObserved) (a : Assignment) → (observe obs a).node_id ≡ a.node_id
    observe-node_id obs a = unfold observe in refl

-- The index agrees with the map after a batch of puts.
pub put_assignments-IndexAgrees :
    (batch : List Assignment) (s : Store) → IndexAgrees s → IndexAgrees (put_assignments batch s)
unfolding put_assignments
put_assignments-IndexAgrees [] s v = v
put_assignments-IndexAgrees (a ∷ batch) s v =
    put_assignments-IndexAgrees batch (put_assignment a s) (put_assignment-IndexAgrees a s v)

-- After a batch of removals.
pub delete_assignments-IndexAgrees :
    (ids : List Ident) (s : Store) → IndexAgrees s → IndexAgrees (delete_assignments ids s)
unfolding delete_assignments
delete_assignments-IndexAgrees [] s v = v
delete_assignments-IndexAgrees (id ∷ ids) s v =
    delete_assignments-IndexAgrees ids (delete_assignment id s)
      (delete_assignment-IndexAgrees id s v)

-- After a report of an agent.
pub set_assignment_observed-IndexAgrees :
    (node_id : Ident) (observed : Table AssignmentObserved) (s : Store)
    → IndexAgrees s
    → IndexAgrees (set_assignment_observed node_id observed s)
unfolding set_assignment_observed
set_assignment_observed-IndexAgrees node_id [] s v = v
set_assignment_observed-IndexAgrees node_id ((id, obs) ∷ rest) s v =
    set_assignment_observed-IndexAgrees node_id rest (set_observed node_id id obs s)
      (set_observed-IndexAgrees node_id id obs s v)
