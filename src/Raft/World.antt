-- ===== src/Raft/World.antt =====
-- Store.Apply of internal/daemon/raftstore/store.go as a control loop sees it, and the wrappers of it
-- that the loops share. What raft answers, the clock and the source of ids are not this program's: they
-- enter as the fields `answers`, `leads`, `now` and `fresh`, which a theorem leaves arbitrary.
use zattera_dev.Base.{ℕ, Bool, List, [], ◌∷◌, ◌+◌, some}
use zattera_dev.State.Types.{Ident}
use zattera_dev.State.Store.{Store}
use zattera_dev.Raft.Fsm
use zattera_dev.Raft.Fsm.{Mutation}

-- The fate of a proposal: committed; refused because this node does not lead; reported as leadership
-- lost although the entry is committed; or failed otherwise (a timeout, a shutdown).
pub data Answer : Type 0 where
  committed not_leader leadership_lost failed : Answer

-- `leads` is what IsLeader answers. A pass of a loop reads one time throughout. `fresh n` is the n-th id that ids.New returns.
pub record World : Type 0 where
  pub store : Store
  pub answers : ℕ → Answer
  pub asked : ℕ
  pub leads : Bool
  pub now : ℕ
  pub fresh : ℕ → Ident
  pub drawn : ℕ

-- A loop's step returns nil or ErrNotLeader.
pub data Outcome : Type 0 where
  done lost : Outcome

abbrev pub Action : Type 0
Action = World → World × Outcome

abbrev pub return : Action
return w = (w, done)

-- `if err := …; err != nil { return err }`.
abbrev pub resume : World × Outcome → Action → World × Outcome
resume (w, done) k = k w
resume (w, lost) k = (w, lost)

infixl 5 ◌>>◌
abbrev pub ◌>>◌ : Action → Action → Action
◌>>◌ m k w = resume (m w) k

-- `_ = s.apply(…)`: the outcome is dropped.
abbrev pub ignore : Action → Action
ignore m w = ((m w).0, done)

-- `for _, x := range xs { if err := f(x); err != nil { return err } }`.
abbrev pub each {ℓ} : {A : Type ℓ} → (A → Action) → List A → Action
each f [] = return
each f (x ∷ xs) = f x >> each f xs

-- ids.New.
abbrev pub new_id : (Ident → Action) → Action
new_id k w = k (w.fresh w.drawn) (record w { drawn = w.drawn + 1 })

-- The loops' `apply`: leadership loss is returned; any other error, of raft or of the handler, is
-- logged and dropped. Every command has a request id of its own and the time of the pass.
unfoldable pub settle : Answer → Mutation → World → World × Outcome
settle committed m w = (record w { store = (Fsm.apply (some w.now) m w.store).0 }, done)
settle not_leader m w = (w, lost)
settle leadership_lost m w = (record w { store = (Fsm.apply (some w.now) m w.store).0 }, lost)
settle failed m w = (w, done)

unfoldable pub propose : Mutation → Action
unfolding settle
propose m w = settle (w.answers w.asked) m (record w { asked = w.asked + 1 })
