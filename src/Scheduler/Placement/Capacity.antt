-- ===== src/Scheduler/Placement/Capacity.antt =====
-- Place keeps within the capacities that nodes report, and stops short only where nothing is left.
use zattera_dev.Base.{
  ℕ, zero, suc, ◌+◌, ◌*◌, ◌^◌, ◌≤◌, ◌<◌, ◌≡◌, ◌≢◌, ◌⊎◌, refl, ap, inl, inr, true, false, none, some,
  List, [], ◌∷◌, All, All-map, All-filter, arith, length, get, get-put, Bool-cases, Option-cases,
  ◌==◌, if◌then◌else◌,
}
use zattera_dev.State.Types.{Ident, Resources, Release, Node}
use zattera_dev.State.Store.{Store, list_nodes}
use zattera_dev.Scheduler.Placement.{
  Ledger, Tally, only, choose, has_room, fits, reserved_at, add, record_pick, picks, picked_result,
  empty_tally, candidates, Request, verdict, is_candidate, request, ledger, place,
}
use zattera_dev.Scheduler.Placement.Choice.{choose_lem, choose-none}
use zattera_dev.Scheduler.Placement.Result.{place_nodes}

-- How often a node is picked.
unfoldable pub times : Ident → List Ident → ℕ
times id [] = 0
times id (x ∷ xs) = if x == id then suc (times id xs) else times id xs

-- The two dimensions of a reservation.
pub data Dimension : Type 0 where
  cpu memory : Dimension

abbrev pub along : Dimension → Resources → ℕ
along cpu r = r.cpu_millis
along memory r = r.memory_mb

-- What is reserved on a node before and during the call.
abbrev before : Dimension → Ledger → Node → ℕ
before d b n = along d (reserved_at n.id b.reserved)

abbrev added : Dimension → Tally → Node → ℕ
added d t n = along d (reserved_at n.id t.add_res)

room_bound :
    (d : Dimension) (b : Ledger) (t : Tally) (n : Node)
    → has_room b t n ≡ true
    → along d n.capacity ≢ 0
    → before d b n + added d t n + along d b.need < 2 ^ 32
    → before d b n + added d t n + along d b.need ≤ along d n.capacity
unfolding has_room fits
room_bound cpu b t n h c w = ground arith
room_bound memory b t n h c w = ground arith

added-pick :
    (d : Dimension) (b : Ledger) (t : Tally) (m n : Node)
    → added d t n + along d b.need < 2 ^ 32
    → added d (record_pick b m t) n
      ≡ (if n.id == m.id then added d t n + along d b.need else added d t n)
unfolding reserved_at
added-pick cpu b t m n w =
    ground (arith, get-put n.id m.id (add (reserved_at m.id t.add_res) b.need) t.add_res)
added-pick memory b t m n w =
    ground (arith, get-put n.id m.id (add (reserved_at m.id t.add_res) b.need) t.add_res)

-- The candidates with the id of `n` are as large as `n`.
abbrev pub SameCapacity : Node → List Node → Type 0
SameCapacity n = All (λ c. c.id ≡ n.id → c.capacity ≡ n.capacity)

abbrev Within : Dimension → Ledger → Tally → Node → ℕ → Type 0
Within d b t n count =
    (count ≡ 0) ⊎ (before d b n + added d t n + count * along d b.need ≤ along d n.capacity)

-- One pick, with the bound on the rest.
pick-Within :
    (d : Dimension) (b : Ledger) (t : Tally) (m n : Node) (k count : ℕ)
    → has_room b t m ≡ true
    → (m.id ≡ n.id → m.capacity ≡ n.capacity)
    → along d n.capacity ≢ 0
    → before d b n + added d t n + suc k * along d b.need < 2 ^ 32
    → Within d b (record_pick b m t) n count
    → Within d b t n (if m.id == n.id then suc count else count)
pick-Within d b t m n k count room same cap w h = elim (Bool-cases (m.id == n.id)) [
  | inr other ↦ rw other (other_pick (ground arith))
  | inl this ↦ rw this (inr (this_pick (ground arith)))
]
  where
    small : added d t n + along d b.need < 2 ^ 32
    small = omega arith

    other_pick : ((n.id == m.id) ≡ false) → Within d b t n count
    other_pick e = rw (added-pick d b t m n small, e) at h

    this_pick :
        m.id ≡ n.id → before d b n + added d t n + suc count * along d b.need ≤ along d n.capacity
    this_pick e =
        let same_before : before d b m ≡ before d b n =
          ap (λ (i : ℕ). along d (reserved_at i b.reserved)) e in
        let same_added : added d t m ≡ added d t n =
          ap (λ (i : ℕ). along d (reserved_at i t.add_res)) e in
        let same_cap : along d m.capacity ≡ along d n.capacity = ap (along d) (same e) in
        let first : before d b n + added d t n + along d b.need ≤ along d n.capacity = omega (
          arith,
          same_before,
          same_added,
          same_cap,
          room_bound d b t m room (omega (arith, same_cap))
              (omega (arith, same_before, same_added)),
        ) in
        let next : added d (record_pick b m t) n ≡ added d t n + along d b.need =
          ground (arith, added-pick d b t m n small) in
        elim h [ inl z ↦ rw z (omega (arith, first)) | inr rest ↦ omega (arith, next, rest) ]

picks-Within :
    (d : Dimension) (b : Ledger) (cands : List Node) (n : Node)
    → SameCapacity n cands
    → along d n.capacity ≢ 0
    → (k : ℕ) (t : Tally) → before d b n + added d t n + k * along d b.need < 2 ^ 32
    → Within d b t n (times n.id (picks b cands k t))
unfolding picks times
picks-Within d b cands n same cap zero t w = inl refl
picks-Within d b cands n same cap (suc k) t w = elim (Option-cases (choose b t none cands)) [
  | inl e ↦ rw (e, picks) (inl refl)
  | inr (m, e) ↦
      let chosen =
        choose_lem (λ c. c.id ≡ n.id → c.capacity ≡ n.capacity) b t cands {m = m} same e in
      rw (e, picks)
        (pick-Within d b t m n k (times n.id (picks b cands k (record_pick b m t))) chosen.0
          chosen.1 cap w
          (picks-Within d b cands n same cap k (record_pick b m t)
            (ground (arith, added-pick d b t m n))))
]

-- The counts and reservations after the picks of a run.
pub last_tally : Ledger → List Node → ℕ → Tally → Tally
last_tally b cands zero t = t
last_tally b cands (suc k) t = elim (choose b t none cands) [
  | none ↦ t
  | some m ↦ last_tally b cands k (record_pick b m t)
]

abbrev pub NoRoom : Ledger → Tally → List Node → Type 0
NoRoom b t = All (λ c. has_room b t c ≡ false)

picks_short :
    (b : Ledger) (cands : List Node) (k : ℕ) (t : Tally)
    → length (picks b cands k t) < k
    → NoRoom b (last_tally b cands k t) cands
unfolding picks last_tally
picks_short b cands zero t h = elim h [ ]
picks_short b cands (suc k) t h = elim (Option-cases (choose b t none cands)) [
  | inl e ↦ rw (e, last_tally) (choose-none b t cands e)
  | inr (m, e) ↦ rw (e, last_tally) (picks_short b cands k (record_pick b m t) (ground (arith, e)))
]

-- Where Place reports that only some of the replicas are placeable, no candidate has room for one more
-- once those are reserved.
pub place_short :
    (st : Store) (rel : Release) (env_id : Ident) (n : ℕ) (exclude : List Ident) {p q : ℕ}
    → (place st rel env_id n exclude).1 ≡ some (only p q)
    → NoRoom
        (ledger st rel env_id)
        (last_tally
          (ledger st rel env_id)
          (candidates (request st rel env_id exclude) st)
          n
          empty_tally)
        (candidates (request st rel env_id exclude) st)
unfolding place picked_result
place_short st rel env_id zero exclude h = absurd (ground arith)
place_short st rel env_id (suc k) exclude h =
    let cands = candidates (request st rel env_id exclude) st in
    let b = ledger st rel env_id in picks_short b cands (suc k) empty_tally (ground arith)

none_added : (d : Dimension) (n : Node) → added d empty_tally n ≡ 0
unfolding reserved_at get
none_added cpu n = refl
none_added memory n = refl

candidates-SameCapacity :
    (q : Request) (st : Store) (n : Node)
    → SameCapacity n (list_nodes st)
    → SameCapacity n (candidates q st)
unfolding candidates
candidates-SameCapacity q st n same =
    All-map _ (λ c. c.id ≡ n.id → c.capacity ≡ n.capacity) (λ c h. h.1) (candidates q st)
      (All-filter (λ c. c.id ≡ n.id → c.capacity ≡ n.capacity) (λ c. is_candidate (verdict q c))
        (list_nodes st) same)

-- For a node whose capacity is reported in a dimension, and which shares its id with no node of another
-- capacity: Place picks it not at all, or the reservations on it together with those of the new
-- replicas stay within that capacity. The sums are assumed to fit 32 bits.
pub place-within :
    (d : Dimension) (st : Store) (rel : Release) (env_id : Ident) (k : ℕ) (exclude : List Ident)
    (n : Node)
    → SameCapacity n (list_nodes st)
    → along d n.capacity ≢ 0
    → along d (reserved_at n.id (ledger st rel env_id).reserved)
        + k * along d (ledger st rel env_id).need
      < 2 ^ 32
    → (times n.id (place st rel env_id k exclude).0 ≡ 0)
      ⊎ (along d (reserved_at n.id (ledger st rel env_id).reserved)
            + times n.id (place st rel env_id k exclude).0 * along d (ledger st rel env_id).need
          ≤ along d n.capacity)
place-within d st rel env_id zero exclude n same cap w = inl (unfold place times in refl)
place-within d st rel env_id (suc k) exclude n same cap w =
    let q = request st rel env_id exclude in
    let cands = candidates q st in
    let b = ledger st rel env_id in
    let nothing : added d empty_tally n ≡ 0 = none_added d n in
    let bound =
      picks-Within d b cands n (candidates-SameCapacity q st n same) cap (suc k) empty_tally
        (omega (arith, nothing)) in
    elim (place_nodes st rel env_id k exclude) [
      | inl e ↦ inl (rw e (unfold times in refl))
      | inr e ↦ rw e (elim bound [ inl z ↦ inl z | inr le ↦ inr (omega (arith, nothing, le)) ])
    ]
