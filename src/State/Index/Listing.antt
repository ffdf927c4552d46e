-- ===== src/State/Index/Listing.antt =====
-- ListAssignmentsByNode reads the index; what it returns is a scan of the map.
use zattera_dev.Base.{
  ℕ, suc, ◌≤◌, ◌≡◌, refl, sym, ◌∙◌, [], ◌∷◌, arith, Table, get, values, filter, Ordered,
  Ordered-mono, get_below, table_ext, if◌then◌else◌, ◌==◌,
}
use zattera_dev.State.Types.{Ident, Assignment}
use zattera_dev.State.Store.{Store, node_index, pick_values, list_assignments_by_node}
use zattera_dev.State.Index.{IndexAgrees, placed_on}

-- The ids of the assignments on a node, by a scan.
ids_on : ℕ → Table Assignment → Table (Unit {0})
ids_on n [] = []
ids_on n ((id, a) ∷ t) = if a.node_id == n then (id, tt) ∷ ids_on n t else ids_on n t

ids_on-Ordered : (n m : ℕ) (t : Table Assignment) → Ordered m t → Ordered m (ids_on n t)
unfolding ids_on
ids_on-Ordered n m [] o = tt
ids_on-Ordered n m ((id, a) ∷ t) o =
    let rest = ids_on-Ordered n (suc id) t o.1 in
    ground (arith, rest, Ordered-mono m (suc id) (ids_on n t))

get-ids_on :
    (n k m : ℕ) (t : Table Assignment) → Ordered m t → get k (ids_on n t) ≡ placed_on n (get k t)
unfolding ids_on get
get-ids_on n k m [] o = refl
get-ids_on n k m ((id, a) ∷ t) o = ground (
  arith,
  get-ids_on n k (suc id) t o.1,
  get_below k (suc id) t o.1,
  get_below k (suc id) (ids_on n t) (ids_on-Ordered n (suc id) t o.1),
)

-- A larger table does not change the values at ids above its first key.
pick_values-cons :
    (n : ℕ) (ids : Table (Unit {0})) (id : ℕ) (a : Assignment) (t : Table Assignment)
    → id ≤ n
    → Ordered (suc n) ids
    → pick_values ids ((id, a) ∷ t) ≡ pick_values ids t
unfolding pick_values get
pick_values-cons n [] id a t h o = refl
pick_values-cons n ((j, u) ∷ ids) id a t h o =
    ground (arith, pick_values-cons j ids id a t (omega arith) o.1)

pick_values-ids_on :
    (n m : ℕ) (t : Table Assignment)
    → Ordered m t
    → pick_values (ids_on n t) t ≡ filter (λ a. a.node_id == n) (values t)
unfolding ids_on pick_values get values
pick_values-ids_on n m [] o = refl
pick_values-ids_on n m ((id, a) ∷ t) o = ground (
  arith,
  pick_values-ids_on n (suc id) t o.1,
  pick_values-cons id (ids_on n t) id a t (omega arith) (ids_on-Ordered n (suc id) t o.1),
)

-- While the index agrees with the map, the listing of a node is the filtered scan of the map, in the
-- order of the ids.
pub list_assignments_by_node_lem :
    (s : Store) (n : Ident)
    → IndexAgrees s
    → list_assignments_by_node s n ≡ filter (λ a. a.node_id == n) (values s.assignments)
unfolding list_assignments_by_node
list_assignments_by_node_lem s n v =
    let same : node_index n s.assignments_by_node ≡ ids_on n s.assignments =
      table_ext 0 0 _ _ (v.ids_ordered n) (ids_on-Ordered n 0 s.assignments v.assignments_ordered)
        (λ k. v.agrees n k ∙ sym (get-ids_on n k 0 s.assignments v.assignments_ordered)) in
    rw same (pick_values-ids_on n 0 s.assignments v.assignments_ordered)
