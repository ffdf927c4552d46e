-- ===== src/Scheduler/Serverless/Target.antt =====
-- The replicas that internal/daemon/scheduler/serverless.go asks for.
use zattera_dev.Base.{
  ℕ, ◌+◌, ◌-◌, ◌*◌, ◌/◌, ◌%◌, ◌≤◌, ◌<◌, ◌≡◌, ◌⊎◌, inl, inr, refl, false, arith, ltb, Bool-cases,
}
use native.Mathlib.Nat.{mod-lt, mod-add-div, mul-le-mul_right}
use zattera_dev.Scheduler.Serverless.{ceil_div, target, floor_of, ceiling_of}
use zattera_dev.State.Types.{ServiceSpec}

-- The quotient rounded up serves every request, and one replica less does not.
ceil_div-bounds : (a b : ℕ) → 0 < b → (a ≤ ceil_div a b * b) × (ceil_div a b * b < a + b)
ceil_div-bounds a b h =
    let n = a + (b - 1) in
    let r : n % b < b = mod-lt n h in
    let e : n % b + b * (n / b) ≡ n = mod-add-div n b in
    let c : n / b * b ≡ b * (n / b) = grind arith in ground (arith, r, e, c)

-- For a concurrency above 0 and a floor within the ceiling, the target lies between them; it serves
-- every request in flight unless it is the ceiling; and one replica less would not, unless it is the
-- floor.
pub target_lem :
    (inflight max_concurrency floor ceiling : ℕ)
    → 0 < max_concurrency
    → floor ≤ ceiling
    → let t = target inflight max_concurrency floor ceiling in
      (floor ≤ t)
      × (t ≤ ceiling)
      × ((inflight ≤ t * max_concurrency) ⊎ (t ≡ ceiling))
      × ((t * max_concurrency < inflight + max_concurrency) ⊎ (t ≡ floor))
unfolding target
target_lem inflight max_concurrency floor ceiling h g =
    let q = ceil_div inflight max_concurrency in
    let p = ceil_div-bounds inflight max_concurrency h in
    elim (Bool-cases (ltb q floor)) [
      | inl low ↦
          let m : q * max_concurrency ≤ floor * max_concurrency =
            mul-le-mul_right max_concurrency (ground (arith, low)) in
          let top : ltb ceiling floor ≡ false = ground (arith, g) in
          rw (low, top) (omega arith, g, inl (omega (arith, m, p.0)), inr refl)
      | inr high ↦ elim (Bool-cases (ltb ceiling q)) [
        | inl over ↦
            let m : ceiling * max_concurrency ≤ q * max_concurrency =
              mul-le-mul_right max_concurrency (ground (arith, over)) in
            rw (high, over) (g, omega arith, inr refl, inl (omega (arith, m, p.1)))
        | inr fits ↦ rw (high, fits) (ground (arith, high), ground (arith, fits), inl p.0, inl p.1)
      ]
    ]

-- The bounds of a service are in order.
pub floor-ceiling : (spec : ServiceSpec) → floor_of spec ≤ ceiling_of spec
unfolding ceiling_of
floor-ceiling spec = ground arith
