-- ===== src/Raft/Rules.antt =====
-- Rules for proofs about the loops' actions: what holds of every branch holds of the whole.
use zattera_dev.Base.{◌≡◌, refl, ◌+◌, Bool, true, false, some, List, [], ◌∷◌, if◌then◌else◌}
use zattera_dev.State.Store.{Store}
use zattera_dev.Raft.Fsm
use zattera_dev.Raft.Fsm.{Mutation}
use zattera_dev.Raft.World.{
  World, Answer, committed, not_leader, leadership_lost, failed, Outcome, done, lost, Action,
  resume, ◌>>◌, each, propose, settle,
}

pub by_if {ℓ} :
    {A : Type ℓ} (P : A → Type 0) (b : Bool) (x y : A)
    → (b ≡ true → P x)
    → (b ≡ false → P y)
    → P (if b then x else y)
by_if P true x y p q = p refl
by_if P false x y p q = q refl

-- A relation between the store before and after an action, which composes.
pub record IsStep (R : Store → Store → Type 0) : Type 0 where
  pub stay : (s : Store) → R s s
  pub join : (s t u : Store) → R s t → R t u → R s u

-- The action moves the store along the relation, whatever raft answers.
abbrev pub Keeps : (Store → Store → Type 0) → Action → Type 0
Keeps R m = (w : World) → R w.store (m w).0.store

-- An action and its continuation, where the first may end the pass.
pub resume_store :
    (P : Store → Type 0) (p : World × Outcome) (k : Action)
    → P p.0.store
    → P (k p.0).0.store
    → P (resume p k).0.store
resume_store P (w, done) k h n = n
resume_store P (w, lost) k h n = h

-- What raft does with a proposal: the store is as before, or the handler has run on it.
pub propose_store :
    (R : Store → Store → Type 0) (m : Mutation) (w : World)
    → R w.store w.store
    → R w.store (Fsm.apply (some w.now) m w.store).0
    → R w.store (propose m w).0.store
unfolding propose
propose_store R m w same applied = settled (w.answers w.asked)
  where
    settled : (a : Answer) → R w.store (settle a m (record w { asked = w.asked + 1 })).0.store
    settled committed = applied
    settled not_leader = same
    settled leadership_lost = applied
    settled failed = same

module _ (R : Store → Store → Type 0) (step : IsStep R) where
  pub >>-Keeps : (m k : Action) → Keeps R m → Keeps R k → Keeps R (m >> k)
  >>-Keeps m k h n w =
      resume_store (R w.store) (m w) k (h w)
        (step.join w.store (m w).0.store (k (m w).0).0.store (h w) (n (m w).0))

  pub each-Keeps :
      {A : Type 0} (f : A → Action) (xs : List A) → ((x : A) → Keeps R (f x)) → Keeps R (each f xs)
  each-Keeps f [] h = λ w. step.stay w.store
  each-Keeps f (x ∷ xs) h = >>-Keeps (f x) (each f xs) (h x) (each-Keeps f xs h)
