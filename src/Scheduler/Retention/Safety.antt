-- ===== src/Scheduler/Retention/Safety.antt =====
-- The releases that retention leaves.
use zattera_dev.Base.{
  ℕ, ◌≡◌, ◌≢◌, ◌⊎◌, ◌<◌, ◌≤◌, refl, sym, ap, ◌∙◌, subst, arith, Bool, true, false, not, ◌&&◌, ◌||◌,
  ltb, length, filter, List, [], ◌∷◌, ◌++◌, Option, none, some, ◌==◌, take, map, Table, get, values,
  Exists, All, Bool-cases, inl, inr,
}
use zattera_dev.State.Types.{Ident, blank, Environment, Release, Deployment, DeploymentPhase}
use zattera_dev.State.Store.{Store, environment, list_deployments}
use zattera_dev.Raft.World.{World, Outcome, each}
use zattera_dev.Scheduler.Helpers.{is_terminal_phase}
use zattera_dev.Scheduler.Retention.Listing.{
  Descending, newest_first-All, newest_first-Exists, newest_first-Descending, newest_first_count,
  version_of_lem, first_below_lem, take_lem,
}
use zattera_dev.Scheduler.Retention.{
  version_of, retention_keep, list_releases, previous_release_id, in_flight, is_kept, keep_ids,
  prune, sweep_env,
}
use zattera_dev.Scheduler.Retention.Pruning.{each-prune-Keeps, kept-append, kept-map}

-- The phase is none of those in which a deployment is over.
abbrev pub IsUnderWay : DeploymentPhase → Type 0
IsUnderWay p =
    (p ≢ DeploymentPhase.succeeded)
    × (p ≢ DeploymentPhase.failed)
    × (p ≢ DeploymentPhase.rolled_back)
    × (p ≢ DeploymentPhase.superseded)
    × (p ≢ DeploymentPhase.unspecified)

under_way_lem : (p : DeploymentPhase) → IsUnderWay p → is_terminal_phase p ≡ false
unfolding is_terminal_phase
under_way_lem p h = elim (Bool-cases (is_terminal_phase p)) [
  | inr e ↦ e
  | inl e ↦ absurd (ground (arith, e, h))
]

-- A deployment of the environment that is under way brings out the release, or would go back to it.
abbrev pub IsUsing : Ident → Ident → Deployment → Type 0
IsUsing env_id id d =
    (d.environment_id ≡ env_id)
    × IsUnderWay d.phase
    × ((d.release_id ≡ id) ⊎ (d.previous_release_id ≡ id))

kept-in_flight :
    (env_id id : Ident) (ds : List Deployment)
    → Exists (IsUsing env_id id) ds
    → is_kept id (in_flight (filter (λ d. env_id == blank || d.environment_id == env_id) ds)) ≡ true
unfolding is_kept in_flight
kept-in_flight env_id id [] h = elim h [ ]
kept-in_flight env_id id (d ∷ ds) (inl (of_env, live, use_it)) =
    let going = under_way_lem d.phase live in
    elim use_it [
      | inl e ↦ ground (arith, of_env, going, e)
      | inr e ↦ ground (arith, of_env, going, e)
    ]
kept-in_flight env_id id (d ∷ ds) (inr h) = ground (arith, kept-in_flight env_id id ds h)

-- Each release is stored under its own id.
abbrev pub ReleasesKeyed : Store → Type 0
ReleasesKeyed s = All (λ r. get r.id s.releases ≡ some r) (values s.releases)

-- A stored release of the environment.
abbrev pub IsReleaseOf : Ident → Release → Store → Type 0
IsReleaseOf env_id r s = (get r.id s.releases ≡ some r) × (r.environment_id ≡ env_id)

-- The release of the highest version below that of the active release.
abbrev pub IsPrevious : Ident → Environment → Release → Store → Type 0
IsPrevious env_id env r s =
    (active : Release) × IsReleaseOf env_id active s
    × (active.id ≡ env.active_release_id)
    × (r.version < active.version)
    × ((x : Release)
        → IsReleaseOf env_id x s
        → x.version < active.version
        → (x ≡ r) ⊎ (x.version < r.version))

-- At most ten releases of the environment, this one included, are not older.
abbrev pub IsRecent : Ident → Release → Store → Type 0
IsRecent env_id r s =
    length (
      filter (λ x. x.environment_id == env_id && not (ltb x.version r.version)) (values s.releases))
    ≤ 10

-- What an environment still needs: the active release, the one before it, the newest ten, and those of
-- the deployments under way.
abbrev pub IsNeeded : Ident → Environment → Release → Store → Type 0
IsNeeded env_id env r s =
    (env.active_release_id ≡ r.id)
    ⊎ (IsPrevious env_id env r s
        ⊎ (IsRecent env_id r s ⊎ Exists (IsUsing env_id r.id) (values s.deployments)))

found_in_values :
    (k : Ident) (r : Release) (t : Table Release)
    → get k t ≡ some r
    → Exists (λ x. x ≡ r) (values t)
unfolding get values
found_in_values k r [] e = absurd (ground (arith, e))
found_in_values k r ((j, x) ∷ t) e = elim (Bool-cases (k == j)) [
  | inl hit ↦ inl (ground (arith, hit, e))
  | inr miss ↦ inr (found_in_values k r t (ground (arith, miss, e)))
]

-- The filter of ListReleases, for an environment's id.
abbrev belongs : Ident → Release → Bool
belongs env_id r = env_id == blank || r.environment_id == env_id

filter-Exists :
    (env_id : Ident) (r : Release) (rs : List Release)
    → r.environment_id ≡ env_id
    → Exists (λ x. x ≡ r) rs
    → Exists (λ x. x ≡ r) (filter (belongs env_id) rs)
filter-Exists env_id r [] e h = elim h [ ]
filter-Exists env_id r (x ∷ rs) e (inl hit) =
    let yes_it : belongs env_id x ≡ true =
      subst (λ y. belongs env_id y ≡ true) (sym hit) (ground (arith, e)) in
    rw yes_it (inl hit)
filter-Exists env_id r (x ∷ rs) e (inr h) = elim (Bool-cases (belongs env_id x)) [
  | inl passes ↦ rw passes (inr (filter-Exists env_id r rs e h))
  | inr fails ↦ rw fails (filter-Exists env_id r rs e h)
]

filter-All :
    (env_id : Ident) (P : Release → Type 0) (s : Store) (rs : List Release)
    → env_id ≢ blank
    → All (λ x. get x.id s.releases ≡ some x) rs
    → ((x : Release) → IsReleaseOf env_id x s → P x)
    → All P (filter (belongs env_id) rs)
filter-All env_id P s [] ne h p = tt
filter-All env_id P s (x ∷ rs) ne h p = elim (Bool-cases (belongs env_id x)) [
  | inl passes ↦
      let e : x.environment_id ≡ env_id = ground (arith, passes, ne) in
      rw passes (p x (h.0, e), filter-All env_id P s rs ne h.1 p)
  | inr fails ↦ rw fails (filter-All env_id P s rs ne h.1 p)
]

count_listed :
    (env_id v : ℕ) (rs : List Release)
    → env_id ≢ blank
    → length (filter (λ x. not (ltb x.version v)) (filter (belongs env_id) rs))
      ≡ length (filter (λ x. x.environment_id == env_id && not (ltb x.version v)) rs)
count_listed env_id v [] ne = refl
count_listed env_id v (x ∷ rs) ne = ground (arith, ne, count_listed env_id v rs ne)

-- A listed release with an id.
active_listed :
    (active : Release) (id : Ident)
    → active.id ≡ id
    → (rs : List Release) → Exists (λ x. x ≡ active) rs
    → Exists (λ x. x.id ≡ id) rs
active_listed active id same [] h = elim h [ ]
active_listed active id same (x ∷ rs) (inl hit) = inl (ap (λ (y : Release). y.id) hit ∙ same)
active_listed active id same (x ∷ rs) (inr h) = inr (active_listed active id same rs h)

-- ListReleases of an environment has its stored releases, and only them.
module _ (env_id : Ident) (s : Store) where
  listed : (r : Release) → IsReleaseOf env_id r s → Exists (λ x. x ≡ r) (list_releases s env_id)
  unfolding list_releases
  listed r h =
      newest_first-Exists (λ x. x ≡ r) (filter (belongs env_id) (values s.releases))
        (filter-Exists env_id r (values s.releases) h.1 (found_in_values r.id r s.releases h.0))

  all_listed :
      (P : Release → Type 0)
      → env_id ≢ blank
      → ReleasesKeyed s
      → ((x : Release) → IsReleaseOf env_id x s → P x)
      → All P (list_releases s env_id)
  unfolding list_releases
  all_listed P ne keyed p =
      newest_first-All P (filter (belongs env_id) (values s.releases))
        (filter-All env_id P s (values s.releases) ne keyed p)

  listed-Descending : Descending (list_releases s env_id)
  unfolding list_releases
  listed-Descending = newest_first-Descending (filter (belongs env_id) (values s.releases))

  previous_lem :
      (env : Environment) (r : Release)
      → env_id ≢ blank
      → ReleasesKeyed s
      → IsReleaseOf env_id r s
      → IsPrevious env_id env r s
      → previous_release_id (list_releases s env_id) env.active_release_id ≡ r.id
  unfolding previous_release_id
  previous_lem env r ne keyed of_env (active, of_active, same, below, best) =
      let rels = list_releases s env_id in
      let there : Exists (λ x. x.id ≡ env.active_release_id) rels =
        active_listed active env.active_release_id same rels (listed active of_active) in
      let version : version_of env.active_release_id rels ≡ some active.version =
        version_of_lem env.active_release_id active.version rels there (
          all_listed (λ x. x.id ≡ env.active_release_id → x.version ≡ active.version) ne keyed
            (λ x of_x e.
              ap (λ (o : Option Release). elim o as (λ _. ℕ) [ none ↦ 0 | some y ↦ y.version ])
                (sym of_x.0 ∙ ap (λ i. get i s.releases) (e ∙ sym same) ∙ of_active.0))) in
      rw (version, previous_release_id)
        (first_below_lem r active.version rels listed-Descending below (listed r of_env) (
          all_listed (λ x. x.version < active.version → (x ≡ r) ⊎ (x.version < r.version)) ne keyed
            best))

  recent_lem :
      (r : Release)
      → env_id ≢ blank
      → IsReleaseOf env_id r s
      → IsRecent env_id r s
      → Exists (λ x. x.id ≡ r.id) (take retention_keep (list_releases s env_id))
  unfolding list_releases
  recent_lem r ne of_env few =
      take_lem r retention_keep (list_releases s env_id) listed-Descending (listed r of_env) (
        omega (
          arith,
          few,
          newest_first_count (λ x. not (ltb x.version r.version))
              (filter (belongs env_id) (values s.releases)),
          count_listed env_id r.version (values s.releases) ne,
        ))

needed-kept :
    (env_id : Ident) (env : Environment) (r : Release) (s : Store)
    → env_id ≢ blank
    → ReleasesKeyed s
    → IsReleaseOf env_id r s
    → IsNeeded env_id env r s
    → is_kept r.id (keep_ids s env_id env) ≡ true
unfolding keep_ids list_deployments
needed-kept env_id env r s ne keyed of_env h =
    let id = r.id in
    let rels = list_releases s env_id in
    let newest = map (λ (x : Release). x.id) (take retention_keep rels) in
    let live = in_flight (list_deployments s env_id) in
    let front = env.active_release_id ∷ previous_release_id rels env.active_release_id ∷ [] in
    kept-append id front (newest ++ live) (elim h [
      | inl active ↦ inl (unfold is_kept in ground (arith, active))
      | inr (inl previous) ↦
          let e = previous_lem env_id s env r ne keyed of_env previous in
          inl (unfold is_kept in ground (arith, e))
      | inr (inr (inl new)) ↦
          inr
            (kept-append id newest live (inl (kept-map id _ (recent_lem env_id s r ne of_env new))))
      | inr (inr (inr used)) ↦
          inr (
            kept-append id newest live (inr (kept-in_flight env_id id (values s.deployments) used)))
    ])

sweep_found :
    (env_id : Ident) (env : Environment) (w : World)
    → environment w.store env_id ≡ some env
    → sweep_env env_id w
      ≡ each (prune (keep_ids w.store env_id env)) (list_releases w.store env_id) w
unfolding sweep_env
sweep_found env_id env w e = rw (e, sweep_env) refl

-- For an environment whose id is not empty, where each release is stored under its own id: the sweep of
-- the environment, whatever raft answers, leaves as it was each of its releases that is active, that has
-- the highest version below the active one's, that is among the ten newest (at most ten of the
-- environment's releases, itself included, have no lower version), or that a deployment of the
-- environment under way brings out or would go back to.
pub sweep_env-Safe :
    (env_id : Ident) (env : Environment) (r : Release) (w : World)
    → env_id ≢ blank
    → ReleasesKeyed w.store
    → environment w.store env_id ≡ some env
    → IsReleaseOf env_id r w.store
    → IsNeeded env_id env r w.store
    → get r.id (sweep_env env_id w).0.store.releases ≡ some r
sweep_env-Safe env_id env r w ne keyed found of_env needed =
    ap (λ (t : World × Outcome). get r.id t.0.store.releases) (sweep_found env_id env w found)
    ∙ each-prune-Keeps r.id (keep_ids w.store env_id env) (list_releases w.store env_id)
        (needed-kept env_id env r w.store ne keyed of_env needed) w
    ∙ of_env.0
