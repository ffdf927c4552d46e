-- ===== src/Raft/Applied/Ring.antt =====
-- The ring of applied request ids and its index: what a new id does to them.
use zattera_dev.Base.{
  ℕ, zero, suc, ◌-◌, ◌≤◌, ◌<◌, ◌≡◌, refl, ap, ◌∙◌, arith, true, false, not, ◌||◌, List, [], ◌∷◌,
  ◌++◌, ◌==◌, filter, length, drop, take, length-append, length-drop, drop-append,
}
use zattera_dev.State.Types.{Ident}
use zattera_dev.Raft.Applied.{FsmState, remembers, forget, trim}
use mathlib.Core.List.{append_assoc}

abbrev Distinct : List Ident → Type 0
Distinct [] = Unit
Distinct (x ∷ xs) = (remembers x xs ≡ false) × Distinct xs

remembers-append :
    (id j : Ident) (xs : List Ident)
    → remembers id (xs ++ (j ∷ [])) ≡ (remembers id xs || (j == id))
unfolding remembers
remembers-append id j [] = ground arith
remembers-append id j (x ∷ xs) = ground (arith, remembers-append id j xs)

filter_absent :
    (x : Ident) (xs : List Ident) → remembers x xs ≡ false → filter (λ j. not (j == x)) xs ≡ xs
unfolding remembers
filter_absent x [] h = refl
filter_absent x (y ∷ xs) h = ground (arith, filter_absent x xs)

-- Forgetting the oldest ids of a ring without repetition leaves the others.
forget_oldest : (n : ℕ) (xs : List Ident) → Distinct xs → forget (take n xs) xs ≡ drop n xs
unfolding forget
forget_oldest zero xs d = refl
forget_oldest (suc n) [] d = refl
forget_oldest (suc n) (x ∷ xs) d =
    let kept : filter (λ j. not (j == x)) (x ∷ xs) ≡ xs = ground (arith, filter_absent x xs d.0) in
    ap (forget (take n xs)) kept ∙ forget_oldest n xs d.1

drop-Distinct : (n : ℕ) (xs : List Ident) → Distinct xs → Distinct (drop n xs)
drop-Distinct zero xs d = d
drop-Distinct (suc n) [] d = d
drop-Distinct (suc n) (x ∷ xs) d = drop-Distinct n xs d.1

append-Distinct :
    (id : Ident) (xs : List Ident)
    → Distinct xs
    → remembers id xs ≡ false
    → Distinct (xs ++ (id ∷ []))
unfolding remembers
append-Distinct id [] d h = (refl, tt)
append-Distinct id (x ∷ xs) d h =
    (ground (arith, remembers-append x id xs, d.0), append-Distinct id xs d.1 (ground arith))

-- The index holds the ids of the ring, which does not repeat one and is within its capacity.
pub record IsIndexed (cap : ℕ) (s : FsmState) : Type 0 where
  pub same : s.applied_set ≡ s.applied_requests
  pub unique : Distinct s.applied_requests
  pub bounded : length s.applied_requests ≤ cap

-- The state after a new id.
unfoldable pub marked : ℕ → Ident → FsmState → FsmState
marked cap id s = trim cap (record s {
  applied_set = s.applied_set ++ (id ∷ []);
  applied_requests = s.applied_requests ++ (id ∷ []);
})

pub marked-Indexed :
    (cap : ℕ) (id : Ident) (s : FsmState)
    → IsIndexed cap s
    → remembers id s.applied_requests ≡ false
    → IsIndexed cap (marked cap id s)
unfolding marked trim
marked-Indexed cap id s k new =
    let ring = s.applied_requests ++ (id ∷ []) in
    let d = append-Distinct id s.applied_requests k.unique new in
    record {
      same =
          ap (λ xs. forget (take (length ring - cap) ring) (xs ++ (id ∷ []))) k.same
          ∙ forget_oldest (length ring - cap) ring d;
      unique = drop-Distinct (length ring - cap) ring d;
      bounded = omega (arith, length-drop (length ring - cap) ring);
    }

-- The id stands in the ring with at most `n` ids after it.
pub record IsWithin (id : Ident) (n : ℕ) (ring : List Ident) : Type 0 where
  pub before : List Ident
  pub after : List Ident
  pub split : ring ≡ before ++ (id ∷ after)
  pub few : length after ≤ n

found_in : (id : Ident) (xs ys : List Ident) → remembers id (xs ++ (id ∷ ys)) ≡ true
unfolding remembers
found_in id [] ys = ground arith
found_in id (x ∷ xs) ys = ground (arith, found_in id xs ys)

pub within_remembered :
    (id : Ident) (n : ℕ) (ring : List Ident) → IsWithin id n ring → remembers id ring ≡ true
within_remembered id n ring w = ap (remembers id) w.split ∙ found_in id w.before w.after

-- A new id goes behind; while the capacity allows it, the id in question stays.
pub marked-Within :
    (cap n : ℕ) (id j : Ident) (s : FsmState)
    → IsWithin id n s.applied_requests
    → suc (suc n) ≤ cap
    → IsWithin id (suc n) (marked cap j s).applied_requests
unfolding marked trim
marked-Within cap n id j s w room =
    let ring = s.applied_requests ++ (j ∷ []) in
    let over = length ring - cap in
    let tail = w.after ++ (j ∷ []) in
    let whole : ring ≡ w.before ++ (id ∷ tail) =
      ap (λ xs. xs ++ (j ∷ [])) w.split ∙ append_assoc w.before (id ∷ w.after) (j ∷ []) in
    let sizes = ap length whole in
    let joined = length-append w.before (id ∷ tail) in
    let size = length-append w.after (j ∷ []) in
    record {
      before = drop over w.before;
      after = tail;
      split =
          ap (drop over) whole
          ∙ drop-append over w.before (id ∷ tail) (omega (arith, sizes, joined, size, w.few));
      few = omega (arith, size, w.few);
    }

pub marked_new :
    (cap : ℕ) (id : Ident) (s : FsmState)
    → 0 < cap
    → length s.applied_requests ≤ cap
    → IsWithin id 0 (marked cap id s).applied_requests
unfolding marked trim
marked_new cap id s positive bounded =
    let over = length (s.applied_requests ++ (id ∷ [])) - cap in
    record {
      before = drop over s.applied_requests;
      after = [];
      split =
          drop-append over s.applied_requests (id ∷ [])
            (omega (arith, length-append s.applied_requests (id ∷ [])));
      few = omega arith;
    }
