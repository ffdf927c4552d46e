-- ===== src/Scheduler/Vips/Pool.antt =====
-- The free address of the pool that comes first.
use zattera_dev.Base.{
  ℕ, zero, suc, ◌+◌, ◌≡◌, ◌≢◌, ◌⊎◌, ◌<◌, ◌≤◌, refl, sym, ap, ◌∙◌, subst, arith, true, false, List,
  none, some, inl, inr, ◌==◌, Bool-cases,
}
use zattera_dev.Scheduler.Vips.{Vip, is_used, free_in, free_from, next_free_vip}

-- The addresses of a row from `b` up to `k` are in use.
abbrev IsTaken : ℕ → ℕ → ℕ → List Vip → Type 0
IsTaken a b k used = (j : ℕ) → b ≤ j → j < k → is_used (a, j) used ≡ true

-- One more address in use in front.
extend :
    (a b k : ℕ) (used : List Vip)
    → is_used (a, b) used ≡ true
    → IsTaken a (suc b) k used
    → IsTaken a b k used
extend a b k used e h j lo hi = elim (Bool-cases (b == j)) [
  | inl same ↦ let eq : b ≡ j = ground arith in ap (λ i. is_used (a, i) used) (sym eq) ∙ e
  | inr other ↦ let ne : b ≢ j = ground arith in h j (omega (arith, ne)) hi
]

-- The loop over b ends at the first free address of the row, or has found all in use.
abbrev IsRowResult : ℕ → ℕ → ℕ → List Vip → Type 0
IsRowResult a b n used =
    ((free_in a b n used ≡ none) × IsTaken a b (b + n) used)
    ⊎ ((k : ℕ) × (free_in a b n used ≡ some (a, k))
        × (b ≤ k)
        × (k < b + n)
        × (is_used (a, k) used ≡ false)
        × IsTaken a b k used)

row_lem : (a b n : ℕ) (used : List Vip) → IsRowResult a b n used
unfolding free_in
row_lem a b zero used = inl (refl, λ j lo hi. absurd (omega (arith, lo, hi)))
row_lem a b (suc n) used = elim (Bool-cases (is_used (a, b) used)) [
  | inr e ↦ inr (
    b,
    rw (e, free_in) refl,
    omega arith,
    omega arith,
    e,
    λ j lo hi. absurd (omega (arith, lo, hi)),
  )
  | inl e ↦ elim (row_lem a (suc b) n used) [
    | inl (stop, h) ↦
        inl (rw (e, free_in) stop, λ j lo hi. extend a b (suc b + n) used e h j lo (omega arith))
    | inr (k, found, lo, hi, free, h) ↦
        inr (k, rw (e, free_in) found, omega arith, omega arith, free, extend a b k used e h)
  ]
]

-- Every address of the rows from `a` up to `r` is in use.
abbrev pub IsFull : ℕ → ℕ → List Vip → Type 0
IsFull a r used = (i : ℕ) → a ≤ i → i < r → IsTaken i 2 255 used

fill : (a r : ℕ) (used : List Vip) → IsTaken a 2 255 used → IsFull (suc a) r used → IsFull a r used
fill a r used row h i lo hi = elim (Bool-cases (a == i)) [
  | inl same ↦ let eq : a ≡ i = ground arith in subst (λ x. IsTaken x 2 255 used) eq row
  | inr other ↦ let ne : a ≢ i = ground arith in h i (omega (arith, ne)) hi
]

-- An address of the pool from row `a` up to row `r` that is free, with all before it in use.
abbrev pub IsLowest : ℕ → ℕ → List Vip → Vip → Type 0
IsLowest a r used v =
    (a ≤ v.0)
    × (v.0 < r)
    × (2 ≤ v.1)
    × (v.1 < 255)
    × (is_used v used ≡ false)
    × IsFull a v.0 used
    × IsTaken v.0 2 v.1 used

rows_lem :
    (a n : ℕ) (used : List Vip)
    → ((free_from a n used ≡ none) × IsFull a (a + n) used)
      ⊎ ((v : Vip) × (free_from a n used ≡ some v) × IsLowest a (a + n) used v)
unfolding free_from
rows_lem a zero used = inl (refl, λ i lo hi. absurd (omega (arith, lo, hi)))
rows_lem a (suc n) used = elim (row_lem a 2 253 used) [
  | inr (k, found, lo, hi, free, h) ↦ inr (
    (a, k),
    rw (found, free_from) refl,
    (omega arith, omega arith, lo, hi, free, (λ i lo' hi'. absurd (omega (arith, lo', hi'))), h),
  )
  | inl (stop, row) ↦ elim (rows_lem (suc a) n used) [
    | inl (stop', h) ↦ inl (
      rw (stop, free_from) stop',
      subst (λ r. IsFull a r used) (omega arith) (fill a (suc a + n) used row h),
    )
    | inr (v, found, (lo, hi, lo', hi', free, h, h')) ↦ inr (
      v,
      rw (stop, free_from) found,
      (omega (arith, lo), omega (arith, hi), lo', hi', free, fill a v.0 used row h, h'),
    )
  ]
]

-- The allocator of service VIPs gives the first address of the pool, 10.97.a.b with a at most 255 and b
-- from 2 to 254, that is not in use: it is in the pool and free, and all addresses before it are in use.
-- It fails exactly when every address of the pool is in use.
pub next_free_vip-Lowest :
    (used : List Vip)
    → ((next_free_vip used ≡ none) × IsFull 0 256 used)
      ⊎ ((v : Vip) × (next_free_vip used ≡ some v) × IsLowest 0 256 used v)
unfolding next_free_vip
next_free_vip-Lowest used = rows_lem 0 256 used
