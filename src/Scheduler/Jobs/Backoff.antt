-- ===== src/Scheduler/Jobs/Backoff.antt =====
-- jobBackoff of internal/daemon/scheduler/jobs.go against its closed form.
use zattera_dev.Base.{ℕ, zero, suc, ◌-◌, ◌*◌, ◌^◌, ◌≤◌, ◌≡◌, arith, min, leb, Bool-cases, inl, inr}
use zattera_dev.Scheduler.Jobs.{job_retry_base, job_retry_max, backoff_loop, job_backoff}

-- Doubling once more.
double_power : (d n : ℕ) → d * 2 * 2 ^ n ≡ d * 2 ^ (suc n)
double_power d n = grind arith

grows : (x n : ℕ) → x ≤ x * 2 ^ n
grows x zero = omega arith
grows x (suc n) =
    let r = grows x n in
    let d = double_power x n in
    let e : x * 2 * 2 ^ n ≡ x * 2 ^ n * 2 = grind arith in omega (arith, r, d, e)

backoff_loop_lem : (n d : ℕ) → d ≤ job_retry_max → backoff_loop n d ≡ min job_retry_max (d * 2 ^ n)
unfolding backoff_loop
backoff_loop_lem zero d h = ground arith
backoff_loop_lem (suc n) d h = elim (Bool-cases (leb job_retry_max (d * 2))) [
  | inl e ↦ rw e (ground (arith, grows (d * 2) n, double_power d n))
  | inr e ↦ rw e (ground (arith, backoff_loop_lem n (d * 2) (ground arith), double_power d n))
]

-- The delay before a retry is five seconds doubled for each attempt after the first, and five minutes
-- where that is more.
pub job_backoff_lem :
    (attempt : ℕ) → job_backoff attempt ≡ min job_retry_max (job_retry_base * 2 ^ (attempt - 1))
unfolding job_backoff
job_backoff_lem attempt = backoff_loop_lem (attempt - 1) job_retry_base (ground arith)
