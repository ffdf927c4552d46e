-- ===== src/Scheduler/Placement/Result.antt =====
-- What Place of internal/daemon/scheduler/placement.go returns: how many nodes, which, and in what
-- order of preference.
use mathlib.Core.List.{List}
use zattera_dev.Base.{
  ℕ, zero, suc, ◌≤◌, ◌≡◌, ◌↔◌, ◌⊎◌, ap, inl, inr, true, false, none, [], ◌∷◌, All, Exists, All-map,
  Exists-map, Exists-filter, All-self, arith, length, any, Option-cases, ◌==◌,
}
use zattera_dev.Platform.{supports}
use zattera_dev.State.Types.{Ident, blank, Release, Node}
use zattera_dev.State.Store.{Store, list_nodes}
use zattera_dev.Scheduler.Helpers.{is_alive, labels_match}
use zattera_dev.Scheduler.Placement.{
  Ledger, Tally, less, choose, has_room, score, verdict, is_candidate, candidates, record_pick,
  picks, picked_result, empty_tally, request, ledger, pinned_node_id, place,
}
use zattera_dev.Scheduler.Placement.Choice.{choose_lem, choose_best}

length-picks : (b : Ledger) (cands : List Node) (n : ℕ) (t : Tally) → length (picks b cands n t) ≤ n
unfolding picks
length-picks b cands zero t = omega arith
length-picks b cands (suc i) t = elim (Option-cases (choose b t none cands)) [
  | inl e ↦ ground (arith, e)
  | inr (n, e) ↦ ground (arith, e, length-picks b cands i (record_pick b n t))
]

-- Place returns at most the number of nodes asked for, and exactly that many if and only if it returns
-- no error.
pub length-place :
    (st : Store) (rel : Release) (env_id : Ident) (n : ℕ) (exclude : List Ident)
    → (length (place st rel env_id n exclude).0 ≤ n)
      × (((place st rel env_id n exclude).1 ≡ none)
          ↔ (length (place st rel env_id n exclude).0 ≡ n))
unfolding place picked_result
length-place st rel env_id zero exclude = ground arith
length-place st rel env_id (suc k) exclude =
    let q = request st rel env_id exclude in
    let cands = candidates q st in
    let b = ledger st rel env_id in ground (arith, length-picks b cands (suc k) empty_tally)

-- The nodes that Place returns are none, or those of the pick loop.
pub place_nodes :
    (st : Store) (rel : Release) (env_id : Ident) (k : ℕ) (exclude : List Ident)
    → ((place st rel env_id (suc k) exclude).0 ≡ [])
      ⊎ ((place st rel env_id (suc k) exclude).0
          ≡ picks
              (ledger st rel env_id)
              (candidates (request st rel env_id exclude) st)
              (suc k)
              empty_tally)
unfolding place picked_result
place_nodes st rel env_id k exclude = ground arith

-- Where a replica may run, by the nodes' own fields.
pub record Eligible (st : Store) (rel : Release) (env_id : Ident) (exclude : List Ident) (n : Node)
    : Type 0 where
  pub alive : is_alive n.status ≡ true
  pub schedulable : n.schedulable ≡ true
  pub not_excluded : any (λ x. x == n.id) exclude ≡ false
  pub platform : supports n.os_arch rel.platforms ≡ true
  pub labelled : labels_match n.labels rel.service.placement_constraints ≡ true
  pub on_pin :
      (pinned_node_id st rel.service env_id ≡ blank) ⊎ (n.id ≡ pinned_node_id st rel.service env_id)

candidate-Eligible :
    (st : Store) (rel : Release) (env_id : Ident) (exclude : List Ident) (n : Node)
    → is_candidate (verdict (request st rel env_id exclude) n) ≡ true
    → Eligible st rel env_id exclude n
unfolding verdict request
candidate-Eligible st rel env_id exclude n h = ground arith

-- A property of every candidate is a property of the node behind each pick.
picks-All :
    (P : Node → Type 0) (Q : Ident → Type 0) (b : Ledger) (cands : List Node)
    → ((n : Node) → P n → Q n.id)
    → All P cands
    → (k : ℕ) (t : Tally) → All Q (picks b cands k t)
unfolding picks
picks-All P Q b cands f a zero t = tt
picks-All P Q b cands f a (suc k) t = elim (Option-cases (choose b t none cands)) [
  | inl e ↦ rw (e, picks) tt
  | inr (n, e) ↦
      let chosen = choose_lem P b t cands {m = n} a e in
      rw (e, picks) (f n chosen.1, picks-All P Q b cands f a k (record_pick b n t))
]

place-All :
    (Q : Ident → Type 0) (st : Store) (rel : Release) (env_id : Ident) (n : ℕ)
    (exclude : List Ident)
    → ((k : ℕ) (t : Tally)
        → All Q (picks (ledger st rel env_id) (candidates (request st rel env_id exclude) st) k t))
    → All Q (place st rel env_id n exclude).0
unfolding place picked_result
place-All Q st rel env_id zero exclude h = tt
place-All Q st rel env_id (suc k) exclude h =
    let cands = candidates (request st rel env_id exclude) st in
    ground (arith, h (suc k) empty_tally)

-- Each id that Place returns, also beside an error, is that of a node of the store that is alive and
-- schedulable, not excluded, of a supported platform, with the constraints' labels, and the pinned node
-- where the service is pinned.
pub place-Eligible :
    (st : Store) (rel : Release) (env_id : Ident) (n : ℕ) (exclude : List Ident)
    → All
        (λ id. Exists (λ m. Eligible st rel env_id exclude m × (m.id ≡ id)) (list_nodes st))
        (place st rel env_id n exclude).0
unfolding candidates
place-Eligible st rel env_id n exclude =
    let q = request st rel env_id exclude in
    place-All (λ id. Exists (λ m. Eligible st rel env_id exclude m × (m.id ≡ id)) (list_nodes st))
      st rel env_id n exclude
      (picks-All
        (λ c. Exists (λ m. Eligible st rel env_id exclude m × (m.id ≡ c.id)) (list_nodes st)) _
        (ledger st rel env_id) (candidates q st) (λ m h. h)
        (All-map (λ c. Exists (λ m. m ≡ c) (candidates q st)) _
          (λ c h.
            Exists-map (λ m. (is_candidate (verdict q m) ≡ true) × (m ≡ c)) _
              (λ m g. (candidate-Eligible st rel env_id exclude m g.0, ap (λ (x : Node). x.id) g.1))
              (list_nodes st)
              (Exists-filter (λ m. m ≡ c) (λ m. is_candidate (verdict q m)) (list_nodes st) h))
          (candidates q st) (All-self (candidates q st))))

-- A run of greedy picks: each is a candidate with room under the reservations so far, and no candidate
-- with room has a better score.
pub data Greedy (b : Ledger) (cands : List Node) : Tally → List Ident → Type 0 where
  stop : (t : Tally) → Greedy b cands t []
  pick :
      {t : Tally} {ids : List Ident} (n : Node)
      → Exists (λ c. c ≡ n) cands
      → has_room b t n ≡ true
      → All (λ c. has_room b t c ≡ true → less (score b t c) (score b t n) ≡ false) cands
      → Greedy b cands (record_pick b n t) ids
      → Greedy b cands t (n.id ∷ ids)

picks-Greedy :
    (b : Ledger) (cands : List Node) (k : ℕ) (t : Tally) → Greedy b cands t (picks b cands k t)
unfolding picks
picks-Greedy b cands zero t = stop t
picks-Greedy b cands (suc k) t = elim (Option-cases (choose b t none cands)) [
  | inl e ↦ rw (e, picks) (stop t)
  | inr (n, e) ↦
      let chosen =
        choose_lem (λ x. Exists (λ c. c ≡ x) cands) b t cands {m = n} (All-self cands) e in
      rw (e, picks)
        (pick n chosen.1 chosen.0 (choose_best b t none cands {m = n} e).1
          (picks-Greedy b cands k (record_pick b n t)))
]

-- The nodes that Place returns are picked one at a time, each with the best score among the candidates
-- that still have room once the picks before it are reserved.
pub place-Greedy :
    (st : Store) (rel : Release) (env_id : Ident) (n : ℕ) (exclude : List Ident)
    → Greedy
        (ledger st rel env_id)
        (candidates (request st rel env_id exclude) st)
        empty_tally
        (place st rel env_id n exclude).0
unfolding place picked_result
place-Greedy st rel env_id zero exclude = stop empty_tally
place-Greedy st rel env_id (suc k) exclude =
    let cands = candidates (request st rel env_id exclude) st in
    let b = ledger st rel env_id in
    let none_picked : Greedy b cands empty_tally [] = stop empty_tally in
    ground (arith, picks-Greedy b cands (suc k) empty_tally, none_picked)
