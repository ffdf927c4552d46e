-- ===== src/Scheduler/Retention/Pruning.antt =====
-- internal/daemon/scheduler/retention.go: what is in the map `keep` is not deleted.
use zattera_dev.Base.{
  ℕ, ◌≡◌, ◌≢◌, ◌⊎◌, refl, ap, ◌∙◌, arith, true, List, [], ◌∷◌, ◌++◌, ◌==◌, map, Table, get, delete,
  Exists, Bool-cases, inl, inr,
}
use zattera_dev.State.Types.{Ident, Release}
use zattera_dev.State.Store.{Store, delete_release}
use zattera_dev.Raft.Fsm
use zattera_dev.Raft.Fsm.{delete_rel}
use zattera_dev.Raft.World.{return, each, propose}
use zattera_dev.Raft.Rules.{IsStep, Keeps, by_if, propose_store, >>-Keeps}
use zattera_dev.Scheduler.Retention.{is_kept, prune}

delete_other : (k j : ℕ) (t : Table Release) → k ≢ j → get k (delete j t) ≡ get k t
unfolding get delete
delete_other k j [] h = refl
delete_other k j ((i, b) ∷ t) h = ground (arith, delete_other k j t h)

-- The release is as it was.
abbrev pub IsSame : Ident → Store → Store → Type 0
IsSame id s t = get id t.releases ≡ get id s.releases

IsSame-step : (id : Ident) → IsStep (IsSame id)
IsSame-step id = record { stay = λ s. refl; join = λ s t u e f. f ∙ e }

delete-Keeps : (id other : Ident) → id ≢ other → Keeps (IsSame id) (propose (delete_rel other))
unfolding Fsm.apply delete_release
delete-Keeps id other ne w =
    propose_store (IsSame id) (delete_rel other) w refl (delete_other id other w.store.releases ne)

prune-Keeps :
    (id : Ident) (keep : List Ident) (r : Release)
    → is_kept id keep ≡ true
    → Keeps (IsSame id) (prune keep r)
unfolding prune
prune-Keeps id keep r h =
    by_if (Keeps (IsSame id)) (is_kept r.id keep) return (propose (delete_rel r.id)) (λ _ w. refl)
      (λ e. delete-Keeps id r.id (λ same. absurd (cc (ap (λ i. is_kept i keep) same, h, e))))

pub each-prune-Keeps :
    (id : Ident) (keep : List Ident) (rs : List Release)
    → is_kept id keep ≡ true
    → Keeps (IsSame id) (each (prune keep) rs)
each-prune-Keeps id keep [] h = λ w. refl
each-prune-Keeps id keep (r ∷ rs) h =
    >>-Keeps (IsSame id) (IsSame-step id) (prune keep r) (each (prune keep) rs)
      (prune-Keeps id keep r h) (each-prune-Keeps id keep rs h)

pub kept-append :
    (id : Ident) (xs ys : List Ident)
    → (is_kept id xs ≡ true) ⊎ (is_kept id ys ≡ true)
    → is_kept id (xs ++ ys) ≡ true
unfolding is_kept
kept-append id [] ys (inl e) = absurd (cc e)
kept-append id [] ys (inr e) = e
kept-append id (x ∷ xs) ys (inl e) = elim (Bool-cases (x == id)) [
  | inl hit ↦ ground (arith, hit)
  | inr miss ↦ ground (arith, miss, e, kept-append id xs ys (inl (ground (arith, miss, e))))
]
kept-append id (x ∷ xs) ys (inr e) = ground (arith, kept-append id xs ys (inr e))

pub kept-map :
    (id : Ident) (rs : List Release)
    → Exists (λ r. r.id ≡ id) rs
    → is_kept id (map (λ (r : Release). r.id) rs) ≡ true
unfolding is_kept
kept-map id [] h = elim h [ ]
kept-map id (r ∷ rs) (inl e) = ground (arith, e)
kept-map id (r ∷ rs) (inr h) = ground (arith, kept-map id rs h)
