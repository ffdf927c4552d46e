-- ===== src/Proxy.antt =====
-- internal/daemon/proxy/lb.go: the balancer of a route's endpoints. The two draws of `rnd` are arguments.
pub mod Choice
use zattera_dev.Base.{
  ℕ, zero, suc, ◌+◌, ◌-◌, ◌≤◌, Bool, true, false, not, ◌&&◌, List, [], ◌∷◌, Option, none, some, ltb,
  leb, ◌==◌, if◌then◌else◌, filter, any, length, Table, get, put,
}
use zattera_dev.Base.Arrays.{nth}
use zattera_dev.State.Types.{Ident}

pub record Endpoint : Type 0 where
  pub addr : Ident
  pub node_id : Ident
  pub healthy : Bool

-- `inflight` counts the requests on an address; an address without a counter has none.
pub record Balancer : Type 0 where
  pub local : Ident
  pub inflight : Table ℕ

unfoldable pub load : Balancer → Ident → ℕ
load b addr = elim (get addr b.inflight) [ none ↦ 0 | some n ↦ n ]

unfoldable pub acquire : Ident → Balancer → Balancer
acquire addr b = record b { inflight = put addr (load b addr + 1) b.inflight }

-- What the function that acquire returns does.
unfoldable pub release : Ident → Balancer → Balancer
release addr b = record b { inflight = put addr (load b addr - 1) b.inflight }

-- Healthy, and under the cap where there is one.
unfoldable pub is_available : Balancer → ℕ → Endpoint → Bool
is_available b max_conc e = e.healthy && not (ltb 0 max_conc && leb max_conc (load b e.addr))

-- The better of two choices: the less loaded, then the local one, then the first.
unfoldable pub better : Balancer → Endpoint → Endpoint → Endpoint
better b a c =
    let la = load b a.addr in
    let lc = load b c.addr in
    if not (la == lc)
    then (if ltb la lc then a else c)
    else if (a.node_id == b.local) && not (c.node_id == b.local)
    then a
    else if (c.node_id == b.local) && not (a.node_id == b.local)
    then c
    else a

-- `if j >= i { j++ }`.
unfoldable pub second_draw : ℕ → ℕ → ℕ
second_draw i j = if leb i j then j + 1 else j

unfoldable pub two_choices : Balancer → List Endpoint → ℕ → ℕ → Option Endpoint
two_choices b avail i j = elim (nth i avail) [
  | none ↦ none
  | some a ↦ elim (nth (second_draw i j) avail) [ none ↦ none | some c ↦ some (better b a c) ]
]

unfoldable pub choose : Balancer → List Endpoint → ℕ → ℕ → Option Endpoint
choose b [] i j = none
choose b (e ∷ []) i j = some e
choose b (e ∷ f ∷ es) i j = two_choices b (e ∷ f ∷ es) i j

unfoldable pub pick : Balancer → List Endpoint → ℕ → ℕ → ℕ → Option Endpoint
pick b eps i j max_conc = choose b (filter (is_available b max_conc) eps) i j

unfoldable pub any_healthy : List Endpoint → Bool
any_healthy eps = any (λ e. e.healthy) eps
