-- ===== src/Scheduler/Placement/Choice.antt =====
-- The pick of one node: it is a candidate with room, and no candidate with room scores better.
use zattera_dev.Base.{
  ◌≡◌, inl, inr, ◌⊎◌, ◌≢◌, true, false, Option, none, some, List, [], ◌∷◌, All, arith, Bool-cases,
}
use zattera_dev.State.Types.{Node}
use zattera_dev.Scheduler.Placement.{Ledger, Tally, ScoreKey, less, better, choose, has_room, score}

-- What a choice may be: nothing, or a node with the property.
abbrev pub Of {κ} : (Node → Type κ) → Option Node → Type κ
Of P none = Unit
Of P (some n) = P n

better-Of :
    (P : Node → Type 0) (b : Ledger) (t : Tally) (best : Option Node) (n : Node)
    → Of P best
    → P n
    → P (better b t best n)
unfolding better
better-Of P b t none n h p = p
better-Of P b t (some m) n h p = elim (Bool-cases (less (score b t n) (score b t m))) [
  | inl e ↦ rw e p
  | inr e ↦ rw e h
]

choose-Of :
    (P : Node → Type 0) (b : Ledger) (t : Tally) (best : Option Node) (ns : List Node)
    → Of (λ n. (has_room b t n ≡ true) × P n) best
    → All P ns
    → Of (λ n. (has_room b t n ≡ true) × P n) (choose b t best ns)
unfolding choose
choose-Of P b t best [] h a = h
choose-Of P b t best (n ∷ ns) h a = elim (Bool-cases (has_room b t n)) [
  | inr full ↦ rw full (choose-Of P b t best ns h a.1)
  | inl room ↦ rw room (
      choose-Of P b t (some (better b t best n)) ns
        (better-Of (λ m. (has_room b t m ≡ true) × P m) b t best n h (room, a.0)) a.1)
]

-- A chosen node has room and whatever all candidates have.
pub choose_lem :
    (P : Node → Type 0) (b : Ledger) (t : Tally) (ns : List Node) {m : Node}
    → All P ns
    → choose b t none ns ≡ some m
    → (has_room b t m ≡ true) × P m
choose_lem P b t ns {m} a e = rw e at (choose-Of P b t none ns tt a)

-- The order of the scores is strict, and comparing with a third score decides.
less_asym : (x y : ScoreKey) → less x y ≡ true → less y x ≡ false
unfolding less
less_asym x y h = ground arith

less_split : (x y z : ScoreKey) → less x z ≡ true → (less x y ≡ true) ⊎ (less y z ≡ true)
unfolding less
less_split x y z h = ground arith

-- `m` is no worse than the choice so far.
abbrev NoWorse : Ledger → Tally → Node → Option Node → Type 0
NoWorse b t m = Of (λ x. less (score b t x) (score b t m) ≡ false)

-- What is no better than the choice after a comparison is no better than either side of it.
better-NoWorse :
    (b : Ledger) (t : Tally) (best : Option Node) (n m : Node)
    → less (score b t (better b t best n)) (score b t m) ≡ false
    → NoWorse b t m best × (less (score b t n) (score b t m) ≡ false)
unfolding better
better-NoWorse b t none n m h = (tt, h)
better-NoWorse b t (some x) n m h =
    let n' = score b t n in
    let x' = score b t x in
    let m' = score b t m in
    ground (arith, less_split n' x' m', less_split x' n' m', less_asym n' x')

pub choose_best :
    (b : Ledger) (t : Tally) (best : Option Node) (ns : List Node) {m : Node}
    → choose b t best ns ≡ some m
    → NoWorse b t m best
      × All (λ c. has_room b t c ≡ true → less (score b t c) (score b t m) ≡ false) ns
unfolding choose
choose_best b t none [] h = (tt, tt)
choose_best b t (some x) [] {m} h = (less_irrefl x m (ground arith), tt)
  where
    less_irrefl : (x y : Node) → x ≡ y → less (score b t x) (score b t y) ≡ false
    less_irrefl x y e = rw e (unfold less in ground arith)
choose_best b t best (n ∷ ns) {m} h = elim (Bool-cases (has_room b t n)) [
  | inr full ↦
      let rest = choose_best b t best ns {m = m} (rw full at h) in
      (rest.0, ((λ room. absurd (ground arith)), rest.1))
  | inl room ↦
      let rest = choose_best b t (some (better b t best n)) ns {m = m} (rw room at h) in
      let both = better-NoWorse b t best n m rest.0 in (both.0, ((λ _. both.1), rest.1))
]

-- Nothing is chosen only where no candidate has room.
choose-some : (b : Ledger) (t : Tally) (x : Node) (ns : List Node) → choose b t (some x) ns ≢ none
unfolding choose
choose-some b t x [] = λ e. cc
choose-some b t x (n ∷ ns) = elim (Bool-cases (has_room b t n)) [
  | inr full ↦ rw full (choose-some b t x ns)
  | inl room ↦ rw room (choose-some b t (better b t (some x) n) ns)
]

pub choose-none :
    (b : Ledger) (t : Tally) (ns : List Node)
    → choose b t none ns ≡ none
    → All (λ c. has_room b t c ≡ false) ns
unfolding choose
choose-none b t [] h = tt
choose-none b t (n ∷ ns) h = elim (Bool-cases (has_room b t n)) [
  | inr full ↦ (full, choose-none b t ns (rw full at h))
  | inl room ↦ absurd (choose-some b t (better b t none n) ns (rw room at h))
]
