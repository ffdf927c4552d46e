-- ===== src/Scheduler/Retention.antt =====
-- internal/daemon/scheduler/retention.go: the old releases of an environment that are deleted, and
-- ListReleases of internal/state. The registry's sweep of an image is best effort and outside the state;
-- the tarballs are files, and not modelled.
pub mod Listing
pub mod Pruning
pub mod Safety
use zattera_dev.Base.{
  ℕ, zero, suc, Bool, true, false, not, ◌&&◌, ◌||◌, List, [], ◌∷◌, ◌++◌, Option, none, some, ltb,
  ◌==◌, if◌then◌else◌, filter, values, any, take, map,
}
use zattera_dev.State.Types.{Ident, blank, Environment, Release, Deployment}
use zattera_dev.State.Store.{Store, environment, list_deployments}
use zattera_dev.Raft.Fsm.{delete_rel}
use zattera_dev.Raft.World.{Action, return, each, propose}
use zattera_dev.Scheduler.Helpers.{is_terminal_phase}

abbrev pub retention_keep : ℕ
retention_keep = 10

-- Newest version first.
unfoldable pub insert_newest : Release → List Release → List Release
insert_newest r [] = r ∷ []
insert_newest r (x ∷ rs) =
    let rest = insert_newest r rs in if ltb x.version r.version then r ∷ x ∷ rs else x ∷ rest

unfoldable pub newest_first : List Release → List Release
newest_first [] = []
newest_first (r ∷ rs) = insert_newest r (newest_first rs)

unfoldable pub list_releases : Store → Ident → List Release
list_releases s env_id =
    newest_first (filter (λ r. env_id == blank || r.environment_id == env_id) (values s.releases))

unfoldable pub version_of : Ident → List Release → Option ℕ
version_of id [] = none
version_of id (r ∷ rs) = let rest = version_of id rs in if r.id == id then some r.version else rest

unfoldable pub first_below : ℕ → List Release → Ident
first_below version [] = blank
first_below version (r ∷ rs) =
    let rest = first_below version rs in if ltb r.version version then r.id else rest

unfoldable pub previous_release_id : List Release → Ident → Ident
previous_release_id rels active_id = elim (version_of active_id rels) [
  | none ↦ blank
  | some version ↦ first_below version rels
]

-- The releases of the deployments that are not over.
unfoldable pub in_flight : List Deployment → List Ident
in_flight [] = []
in_flight (d ∷ ds) =
    let rest = in_flight ds in
    if is_terminal_phase d.phase then rest else d.release_id ∷ d.previous_release_id ∷ rest

unfoldable pub is_kept : Ident → List Ident → Bool
is_kept id ids = any (λ k. k == id) ids

-- The keys of the map `keep`.
unfoldable pub keep_ids : Store → Ident → Environment → List Ident
keep_ids st env_id env =
    let rels = list_releases st env_id in
    env.active_release_id
    ∷ previous_release_id rels env.active_release_id
    ∷ (map (λ (r : Release). r.id) (take retention_keep rels)
        ++ in_flight (list_deployments st env_id))

unfoldable pub prune : List Ident → Release → Action
prune keep rel = if is_kept rel.id keep then return else propose (delete_rel rel.id)

unfoldable pub sweep_env : Ident → Action
sweep_env env_id w = elim (environment w.store env_id) [
  | none ↦ return w
  | some env ↦ each (prune (keep_ids w.store env_id env)) (list_releases w.store env_id) w
]

-- The environments that have a release.
unfoldable pub swept : List Release → List Ident → List Ident
swept [] seen = seen
swept (r ∷ rs) seen =
    swept rs (if is_kept r.environment_id seen then seen else seen ++ (r.environment_id ∷ []))

unfoldable pub sweep : Action
sweep w = each sweep_env (swept (list_releases w.store blank) []) w
