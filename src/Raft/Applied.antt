-- ===== src/Raft/Applied.antt =====
-- FSM.Apply of internal/daemon/raftstore/fsm.go and MarkApplied of internal/state/accessors_infra.go: a
-- request id that was applied is not applied again while the ring of the last ids remembers it. An
-- entry is decoded already; its mutation is applied by `apply` of Raft/Fsm.
pub mod Ring
pub mod Once
use zattera_dev.Base.{
  ℕ, zero, suc, ◌+◌, ◌-◌, Bool, true, false, not, List, [], ◌∷◌, ◌++◌, Option, none, some, ltb,
  ◌==◌, if◌then◌else◌, any, filter, length, drop, take,
}
use zattera_dev.State.Types.{Ident}
use zattera_dev.State.Store.{Store}
use zattera_dev.Raft.Fsm.{Mutation, ApplyError, apply}

abbrev pub applied_ring_cap : ℕ
applied_ring_cap = 8192

-- `applied_requests` is the ring, oldest first; `applied_set` its index, in the order of insertion.
pub record FsmState : Type 0 where
  pub store : Store
  pub applied_requests : List Ident
  pub applied_set : List Ident

-- A decoded command: its request id, 0 when it is empty, its time and its mutation.
pub record Command : Type 0 where
  pub request_id : Ident
  pub time : Option ℕ
  pub mutation : Mutation

pub data ApplyResult : Type 0 where
  duplicate : ApplyResult
  result : Option ApplyError → ApplyResult

unfoldable pub remembers : Ident → List Ident → Bool
remembers id ids = any (λ j. j == id) ids

-- `delete(s.appliedSet, old)` for each dropped id.
unfoldable pub forget : List Ident → List Ident → List Ident
forget [] ids = ids
forget (old ∷ olds) ids = forget olds (filter (λ j. not (j == old)) ids)

-- The ids beyond the capacity leave the ring and its index.
unfoldable pub trim : ℕ → FsmState → FsmState
trim cap s =
    let over = length s.applied_requests - cap in
    record s {
      applied_requests = drop over s.applied_requests;
      applied_set = forget (take over s.applied_requests) s.applied_set;
    }

-- MarkApplied, and whether the id is new; the capacity is a parameter so that small rings can be run.
unfoldable pub mark_applied : ℕ → Ident → FsmState → FsmState × Bool
mark_applied cap id s = if remembers id s.applied_set then (s, false) else (
  trim cap (record s {
    applied_set = s.applied_set ++ (id ∷ []);
    applied_requests = s.applied_requests ++ (id ∷ []);
  }),
  true,
)

unfoldable pub apply_mutation : Command → FsmState → FsmState × ApplyResult
apply_mutation c s =
    let r = apply c.time c.mutation s.store in (record s { store = r.0 }, result r.1)

-- FSM.Apply.
unfoldable pub fsm_apply : ℕ → Command → FsmState → FsmState × ApplyResult
fsm_apply cap c s =
    if c.request_id == 0
    then apply_mutation c s
    else let m = mark_applied cap c.request_id s in
      if m.1 then apply_mutation c m.0 else (m.0, duplicate)

-- FSM.Apply on one entry after another, in the order of the log, as raft calls it.
unfoldable pub apply_log : ℕ → List Command → FsmState → FsmState
apply_log cap [] s = s
apply_log cap (c ∷ cs) s = apply_log cap cs (fsm_apply cap c s).0
