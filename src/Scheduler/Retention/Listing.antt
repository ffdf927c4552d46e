-- ===== src/Scheduler/Retention/Listing.antt =====
-- ListReleases of internal/state, and what previousReleaseID reads off it.
use zattera_dev.Base.{
  ℕ, zero, suc, ◌≡◌, ◌⊎◌, ◌<◌, ◌≤◌, refl, ap, ◌∙◌, subst, arith, not, Bool, List, [], ◌∷◌, some,
  ltb, ◌==◌, take, length, filter, Exists, All, Bool-cases, inl, inr,
}
use zattera_dev.State.Types.{Ident, Release}
use zattera_dev.Scheduler.Retention.{insert_newest, newest_first, version_of, first_below}

-- No release stands before one of a higher version.
abbrev pub Descending : List Release → Type 0
Descending [] = Unit
Descending (r ∷ rs) = All (λ x. x.version ≤ r.version) rs × Descending rs

module _ (P : Release → Type 0) where
  insert_newest-All :
      (r : Release) (rs : List Release) → P r → All P rs → All P (insert_newest r rs)
  unfolding insert_newest
  insert_newest-All r [] p h = (p, tt)
  insert_newest-All r (x ∷ rs) p h = elim (Bool-cases (ltb x.version r.version)) [
    | inl e ↦ rw (e, insert_newest) (p, h)
    | inr e ↦ rw (e, insert_newest) (h.0, insert_newest-All r rs p h.1)
  ]

  pub newest_first-All : (rs : List Release) → All P rs → All P (newest_first rs)
  unfolding newest_first
  newest_first-All [] h = tt
  newest_first-All (r ∷ rs) h = insert_newest-All r (newest_first rs) h.0 (newest_first-All rs h.1)

  insert_newest-Exists :
      (r : Release) (rs : List Release) → P r ⊎ Exists P rs → Exists P (insert_newest r rs)
  unfolding insert_newest
  insert_newest-Exists r [] (inl p) = inl p
  insert_newest-Exists r [] (inr h) = elim h [ ]
  insert_newest-Exists r (x ∷ rs) h = elim (Bool-cases (ltb x.version r.version)) [
    | inl e ↦ rw (e, insert_newest) h
    | inr e ↦
        rw (e, insert_newest)
          (elim h [
            | inl p ↦ inr (insert_newest-Exists r rs (inl p))
            | inr (inl p) ↦ inl p
            | inr (inr q) ↦ inr (insert_newest-Exists r rs (inr q))
          ])
  ]

  pub newest_first-Exists : (rs : List Release) → Exists P rs → Exists P (newest_first rs)
  unfolding newest_first
  newest_first-Exists [] h = elim h [ ]
  newest_first-Exists (r ∷ rs) (inl p) = insert_newest-Exists r (newest_first rs) (inl p)
  newest_first-Exists (r ∷ rs) (inr h) =
      insert_newest-Exists r (newest_first rs) (inr (newest_first-Exists rs h))

lower :
    (m n : ℕ) (rs : List Release)
    → m ≤ n
    → All (λ x. x.version ≤ m) rs
    → All (λ x. x.version ≤ n) rs
lower m n [] le h = tt
lower m n (r ∷ rs) le h = (omega (arith, h.0), lower m n rs le h.1)

insert_newest-Descending :
    (r : Release) (rs : List Release) → Descending rs → Descending (insert_newest r rs)
unfolding insert_newest
insert_newest-Descending r [] h = (tt, tt)
insert_newest-Descending r (x ∷ rs) h = elim (Bool-cases (ltb x.version r.version)) [
  | inl e ↦
      let le : x.version ≤ r.version = ground arith in
      rw (e, insert_newest) ((le, lower x.version r.version rs le h.0), h)
  | inr e ↦
      let le : r.version ≤ x.version = ground arith in
      rw (e, insert_newest)
        (
          insert_newest-All (λ y. y.version ≤ x.version) r rs le h.0,
          insert_newest-Descending r rs h.1,
        )
]

pub newest_first-Descending : (rs : List Release) → Descending (newest_first rs)
unfolding newest_first
newest_first-Descending [] = tt
newest_first-Descending (r ∷ rs) =
    insert_newest-Descending r (newest_first rs) (newest_first-Descending rs)

-- Sorting keeps how many releases pass a test.
module _ (test : Release → Bool) where
  insert_newest_count :
      (r : Release) (rs : List Release)
      → length (filter test (insert_newest r rs)) ≡ length (filter test (r ∷ rs))
  unfolding insert_newest
  insert_newest_count r [] = refl
  insert_newest_count r (x ∷ rs) = elim (Bool-cases (ltb x.version r.version)) [
    | inl e ↦ rw (e, insert_newest) refl
    | inr e ↦ rw (e, insert_newest) (ground (arith, insert_newest_count r rs))
  ]

  pub newest_first_count :
      (rs : List Release) → length (filter test (newest_first rs)) ≡ length (filter test rs)
  unfolding newest_first
  newest_first_count [] = refl
  newest_first_count (r ∷ rs) =
      insert_newest_count r (newest_first rs) ∙ ground (arith, newest_first_count rs)

pub all_at :
    (P : Release → Type 0) (r : Release) (rs : List Release)
    → All P rs
    → Exists (λ x. x ≡ r) rs
    → P r
all_at P r [] h found = elim found [ ]
all_at P r (x ∷ rs) h (inl hit) = subst P hit h.0
all_at P r (x ∷ rs) h (inr later) = all_at P r rs h.1 later

-- No release of the list is newer than the first.
head_newest :
    (r x : Release) (rs : List Release)
    → Descending (x ∷ rs)
    → Exists (λ y. y ≡ r) (x ∷ rs)
    → r.version ≤ x.version
head_newest r x rs sorted (inl hit) = omega (arith, ap (λ (y : Release). y.version) hit)
head_newest r x rs sorted (inr later) = all_at (λ y. y.version ≤ x.version) r rs sorted.0 later

pub version_of_lem :
    (id : Ident) (v : ℕ) (rs : List Release)
    → Exists (λ r. r.id ≡ id) rs
    → All (λ r. r.id ≡ id → r.version ≡ v) rs
    → version_of id rs ≡ some v
unfolding version_of
version_of_lem id v [] found same = elim found [ ]
version_of_lem id v (r ∷ rs) found same = elim (Bool-cases (r.id == id)) [
  | inl e ↦ rw (e, version_of) (ap some (same.0 (ground arith)))
  | inr e ↦
      rw (e, version_of)
        (elim found [
          | inl hit ↦ absurd (ground (arith, hit, e))
          | inr later ↦ version_of_lem id v rs later same.1
        ])
]

pub first_below_lem :
    (r : Release) (v : ℕ) (rs : List Release)
    → Descending rs
    → r.version < v
    → Exists (λ x. x ≡ r) rs
    → All (λ x. x.version < v → (x ≡ r) ⊎ (x.version < r.version)) rs
    → first_below v rs ≡ r.id
unfolding first_below
first_below_lem r v [] sorted below found best = elim found [ ]
first_below_lem r v (x ∷ rs) sorted below found best = elim (Bool-cases (ltb x.version v)) [
  | inl e ↦
      rw (e, first_below)
        (elim (best.0 (ground arith)) [
          | inl same ↦ ap (λ (y : Release). y.id) same
          | inr less ↦ absurd (omega (arith, less, head_newest r x rs sorted found))
        ])
  | inr e ↦
      rw (e, first_below)
        (elim found [
          | inl hit ↦ absurd (ground (arith, below, e, ap (λ (y : Release). y.version) hit))
          | inr later ↦ first_below_lem r v rs sorted.1 below later best.1
        ])
]

pub take_lem :
    (r : Release) (n : ℕ) (rs : List Release)
    → Descending rs
    → Exists (λ x. x ≡ r) rs
    → length (filter (λ x. not (ltb x.version r.version)) rs) ≤ n
    → Exists (λ x. x.id ≡ r.id) (take n rs)
take_lem r n [] sorted found few = elim found [ ]
take_lem r zero (x ∷ rs) sorted found few =
    absurd (ground (arith, few, head_newest r x rs sorted found))
take_lem r (suc n) (x ∷ rs) sorted (inl hit) few = inl (ap (λ (y : Release). y.id) hit)
take_lem r (suc n) (x ∷ rs) sorted (inr later) few =
    inr
      (take_lem r n rs sorted.1 later (ground (arith, few, head_newest r x rs sorted (inr later))))
