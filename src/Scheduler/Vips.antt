-- ===== src/Scheduler/Vips.antt =====
-- internal/daemon/scheduler/vips.go: the pool of service VIPs (nextFreeVIP). An address 10.97.a.b is the
-- pair of a and b, and the map of the addresses in use is the list of them.
pub mod Pool
use zattera_dev.Base.{ℕ, zero, suc, Bool, true, false, List, Option, none, some, any, ◌==◌, ◌&&◌}

abbrev pub Vip : Type 0
Vip = ℕ × ℕ

unfoldable pub is_used : Vip → List Vip → Bool
is_used v used = any (λ (u : Vip). u.0 == v.0 && u.1 == v.1) used

-- The loop over b: `n` addresses from 10.97.a.b on.
unfoldable pub free_in : ℕ → ℕ → ℕ → List Vip → Option Vip
free_in a b zero used = none
free_in a b (suc n) used = elim (is_used (a, b) used) [
  | false ↦ some (a, b)
  | true ↦ free_in a (suc b) n used
]

-- The loop over a: `n` values from `a` on, each with b from 2 to 254.
unfoldable pub free_from : ℕ → ℕ → List Vip → Option Vip
free_from a zero used = none
free_from a (suc n) used = elim (free_in a 2 253 used) [
  | some v ↦ some v
  | none ↦ free_from (suc a) n used
]

unfoldable pub next_free_vip : List Vip → Option Vip
next_free_vip used = free_from 0 256 used
