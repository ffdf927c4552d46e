-- ===== src/Scheduler/Placement.antt =====
-- internal/daemon/scheduler/placement.go: which nodes run the next replicas. A pure function of the
-- store: a filter of the nodes, then a greedy pick by score within the reservations.
pub mod Choice
pub mod Result
pub mod Capacity
use Prim.Native.String.{String}
use text.Mathlib.Text.{◌==◌ as str_eq}
use zattera_dev.Base.{
  ℕ, zero, suc, ◌+◌, ◌-◌, ◌%◌, ◌^◌, Bool, true, false, ◌&&◌, ◌||◌, not, Option, none, some, List,
  [], ◌∷◌, any, filter, is_nil, length, ltb, leb, if◌then◌else◌, ◌==◌, Table, get, put,
}
use zattera_dev.Platform.{supports}
use zattera_dev.State.Types.{
  Ident, blank, Resources, ServiceSpec, Release, Environment, Node, Assignment, Volume,
}
use zattera_dev.State.Store.{
  Store, environment, release, node, list_nodes, list_assignments, volume_by_name,
}
use zattera_dev.Scheduler.Helpers.{is_run, is_alive, label, labels_match}

abbrev pub default_reserve_cpu_millis : ℕ
default_reserve_cpu_millis = 100

abbrev pub default_reserve_memory_mb : ℕ
default_reserve_memory_mb = 256

-- uint32 arithmetic wraps.
abbrev pub u32 : ℕ → ℕ
u32 n = n % 2 ^ 32

abbrev pub add : Resources → Resources → Resources
add r o = record {
  cpu_millis = u32 (r.cpu_millis + o.cpu_millis);
  memory_mb = u32 (r.memory_mb + o.memory_mb);
}

abbrev pub no_resources : Resources
no_resources = record { cpu_millis = 0; memory_mb = 0 }

-- The getters of a nil spec return zeros.
unfoldable pub effective_resources : Option ServiceSpec → Resources
effective_resources none = record {
  cpu_millis = default_reserve_cpu_millis;
  memory_mb = default_reserve_memory_mb;
}
effective_resources (some spec) = record {
  cpu_millis =
      if spec.resources.cpu_millis == 0
      then default_reserve_cpu_millis
      else spec.resources.cpu_millis;
  memory_mb =
      if spec.resources.memory_mb == 0 then default_reserve_memory_mb else spec.resources.memory_mb;
}

unfoldable pub fits : Resources → Resources → Resources → Bool
fits cur need cap =
    (cap.cpu_millis == 0 || leb (u32 (cur.cpu_millis + need.cpu_millis)) cap.cpu_millis)
    && (cap.memory_mb == 0 || leb (u32 (cur.memory_mb + need.memory_mb)) cap.memory_mb)

-- math.MaxInt64 where the capacity is not reported.
unfoldable pub free_memory : Resources → Resources → ℕ
free_memory cap cur = if cap.memory_mb == 0 then 2 ^ 63 - 1 else cap.memory_mb - cur.memory_mb

abbrev pub region_of : Node → String
region_of n = label "region" n.labels

-- The code keeps the negated free memory, so that less is better: `less` compares it the other way.
pub record ScoreKey : Type 0 where
  pub env_replicas : ℕ
  pub region_replicas : ℕ
  pub free_mem : ℕ
  pub node_id : Ident

unfoldable pub less : ScoreKey → ScoreKey → Bool
less k o =
    if not (k.env_replicas == o.env_replicas)
    then ltb k.env_replicas o.env_replicas
    else if not (k.region_replicas == o.region_replicas)
    then ltb k.region_replicas o.region_replicas
    else if not (k.free_mem == o.free_mem)
    then ltb o.free_mem k.free_mem
    else ltb k.node_id o.node_id

-- The first declared volume that exists and has a node.
unfoldable pub pin_of : Store → Environment → Ident → List Ident → Ident
pin_of st env env_id [] = blank
pin_of st env env_id (name ∷ names) =
    let rest = pin_of st env env_id names in
    elim (volume_by_name st env.project_id env_id name) [
      | none ↦ rest
      | some v ↦ if v.node_id == blank then rest else v.node_id
    ]

unfoldable pub pinned_node_id : Store → ServiceSpec → Ident → Ident
unfolding pin_of
pinned_node_id st spec env_id =
    if not spec.stateful || is_nil spec.volumes then blank else elim (environment st env_id) [
      | none ↦ blank
      | some env ↦ pin_of st env env_id spec.volumes
    ]

-- Maps from ids to counters and reservations: a missing entry reads as zero.
abbrev pub counted : Ident → Table ℕ → ℕ
counted id t = elim (get id t) [ none ↦ 0 | some c ↦ c ]

unfoldable pub reserved_at : Ident → Table Resources → Resources
reserved_at id t = elim (get id t) [ none ↦ no_resources | some r ↦ r ]

abbrev pub reserve : Ident → Resources → Table Resources → Table Resources
reserve id r t = put id (add (reserved_at id t) r) t

abbrev pub spec_of : Store → Ident → Option ServiceSpec
spec_of st release_id = elim (release st release_id) [ none ↦ none | some rel ↦ some rel.service ]

unfoldable pub reserve_all : Store → List Assignment → Table Resources → Table Resources
unfolding effective_resources
reserve_all st [] out = out
reserve_all st (a ∷ rest) out = reserve_all st rest (
    if is_run a.desired
    then reserve a.node_id (effective_resources (spec_of st a.release_id)) out
    else out)

unfoldable pub reservations_by_node : Store → Table Resources
unfolding reserve_all
reservations_by_node st = reserve_all st (list_assignments st blank) []

-- The replicas of the environment per node, then per region.
unfoldable pub count_by_node : List Assignment → Table ℕ → Table ℕ
count_by_node [] out = out
count_by_node (a ∷ rest) out =
    count_by_node rest
      (if is_run a.desired then put a.node_id (counted a.node_id out + 1) out else out)

abbrev pub RegionCounts : Type 0
RegionCounts = List (String × ℕ)

unfoldable pub region_count : String → RegionCounts → ℕ
region_count r [] = 0
region_count r ((q, c) ∷ t) = if str_eq q r then c else region_count r t

unfoldable pub add_region : String → ℕ → RegionCounts → RegionCounts
add_region r n [] = (r, n) ∷ []
add_region r n ((q, c) ∷ t) = if str_eq q r then (q, c + n) ∷ t else (q, c) ∷ add_region r n t

unfoldable pub count_by_region : Store → Table ℕ → RegionCounts → RegionCounts
unfolding add_region
count_by_region st [] out = out
count_by_region st ((node_id, c) ∷ rest) out =
    count_by_region st rest
      (elim (node st node_id) [ none ↦ out | some n ↦ add_region (region_of n) c out ])

-- What the filter loop decides of a node: `continue` in silence, `continue` with a flag, or a candidate.
pub data Verdict : Type 0 where
  skipped wrong_arch wrong_labels candidate : Verdict

pub record Request : Type 0 where
  pub platforms : List String
  pub constraints : List (String × String)
  pub pinned : Ident
  pub exclude : List Ident

unfoldable pub verdict : Request → Node → Verdict
verdict q n =
    if any (λ x. x == n.id) q.exclude
    then skipped
    else if not (is_alive n.status) || not n.schedulable
    then skipped
    else if not (supports n.os_arch q.platforms)
    then wrong_arch
    else if not (labels_match n.labels q.constraints)
    then wrong_labels
    else if not (q.pinned == blank) && not (n.id == q.pinned)
    then skipped
    else candidate

abbrev pub is_candidate : Verdict → Bool
is_candidate candidate = true
is_candidate _ = false

abbrev pub is_wrong_arch : Verdict → Bool
is_wrong_arch wrong_arch = true
is_wrong_arch _ = false

abbrev pub is_wrong_labels : Verdict → Bool
is_wrong_labels wrong_labels = true
is_wrong_labels _ = false

-- What the pick loop reads: the need of a replica, the reservations and counts of the store.
pub record Ledger : Type 0 where
  pub need : Resources
  pub reserved : Table Resources
  pub env_by_node : Table ℕ
  pub env_by_region : RegionCounts

-- What the pick loop adds with each pick.
pub record Tally : Type 0 where
  pub pick_env : Table ℕ
  pub pick_region : RegionCounts
  pub add_res : Table Resources

abbrev pub current : Ledger → Tally → Node → Resources
current b t n = add (reserved_at n.id b.reserved) (reserved_at n.id t.add_res)

unfoldable pub has_room : Ledger → Tally → Node → Bool
unfolding fits
has_room b t n = fits (current b t n) b.need n.capacity

unfoldable pub score : Ledger → Tally → Node → ScoreKey
unfolding free_memory
score b t n = record {
  env_replicas = counted n.id b.env_by_node + counted n.id t.pick_env;
  region_replicas =
      region_count (region_of n) b.env_by_region + region_count (region_of n) t.pick_region;
  free_mem = free_memory n.capacity (current b t n);
  node_id = n.id;
}

-- `if best == nil || key.less(bestKey) { best = node }`.
unfoldable pub better : Ledger → Tally → Option Node → Node → Node
better b t none n = n
better b t (some best) n = if less (score b t n) (score b t best) then n else best

unfoldable pub choose : Ledger → Tally → Option Node → List Node → Option Node
choose b t best [] = best
choose b t best (n ∷ ns) = choose b t (if has_room b t n then some (better b t best n) else best) ns

abbrev pub record_pick : Ledger → Node → Tally → Tally
record_pick b n t = record {
  pick_env = put n.id (counted n.id t.pick_env + 1) t.pick_env;
  pick_region = add_region (region_of n) 1 t.pick_region;
  add_res = reserve n.id b.need t.add_res;
}

unfoldable pub picks : Ledger → List Node → ℕ → Tally → List Ident
picks b cands zero t = []
picks b cands (suc i) t = elim (choose b t none cands) [
  | none ↦ []
  | some best ↦ best.id ∷ picks b cands i (record_pick b best t)
]

pub data PlaceError : Type 0 where
  no_supported_architecture no_matching_labels : PlaceError
  only : ℕ → ℕ → PlaceError

abbrev pub empty_tally : Tally
empty_tally = record { pick_env = []; pick_region = []; add_res = [] }

unfoldable pub request : Store → Release → Ident → List Ident → Request
unfolding pinned_node_id
request st rel env_id exclude = record {
  platforms = rel.platforms;
  constraints = rel.service.placement_constraints;
  pinned = pinned_node_id st rel.service env_id;
  exclude = exclude;
}

unfoldable pub ledger : Store → Release → Ident → Ledger
unfolding reservations_by_node count_by_node count_by_region
ledger st rel env_id =
    let env_by_node = count_by_node (list_assignments st env_id) [] in
    record {
      need = effective_resources (some rel.service);
      reserved = reservations_by_node st;
      env_by_node = env_by_node;
      env_by_region = count_by_region st env_by_node [];
    }

unfoldable pub candidates : Request → Store → List Node
candidates q st = filter (λ n. is_candidate (verdict q n)) (list_nodes st)

-- The result of the pick loop: an error where it fell short.
unfoldable pub picked_result : ℕ → List Ident → List Ident × Option PlaceError
picked_result n picked =
    if ltb (length picked) n then (picked, some (only (length picked) n)) else (picked, none)

unfoldable pub place : Store → Release → Ident → ℕ → List Ident → List Ident × Option PlaceError
place st rel env_id zero exclude = ([], none)
place st rel env_id (suc k) exclude =
    let q = request st rel env_id exclude in
    let cands = candidates q st in
    if is_nil cands && any (λ n. is_wrong_arch (verdict q n)) (list_nodes st)
    then ([], some no_supported_architecture)
    else if is_nil cands && any (λ n. is_wrong_labels (verdict q n)) (list_nodes st)
    then ([], some no_matching_labels)
    else picked_result (suc k) (picks (ledger st rel env_id) cands (suc k) empty_tally)
