-- ===== src/Raft/Applied/Once.antt =====
-- A request id is applied once while it is among the last ids.
use zattera_dev.Base.{
  ℕ, suc, ◌+◌, ◌≤◌, ◌<◌, ◌≡◌, ◌≢◌, refl, sym, ap, ◌∙◌, subst, arith, Bool, true, false, List, [],
  ◌∷◌, ◌==◌, length, if_true, if_false, if◌then◌else◌, Bool-cases, inl, inr,
}
use zattera_dev.State.Types.{Ident}
use zattera_dev.Raft.Applied.{
  FsmState, Command, ApplyResult, duplicate, remembers, mark_applied, apply_mutation, fsm_apply,
  apply_log,
}
use zattera_dev.Raft.Applied.Ring.{
  IsIndexed, marked, marked-Indexed, IsWithin, within_remembered, marked-Within, marked_new,
}

-- The three ways in which an entry is applied.
no_id :
    (cap : ℕ) (c : Command) (s : FsmState)
    → (c.request_id == 0) ≡ true
    → fsm_apply cap c s ≡ apply_mutation c s
unfolding fsm_apply
no_id cap c s e = if_true (c.request_id == 0) _ _ e

seen_id :
    (cap : ℕ) (c : Command) (s : FsmState)
    → (c.request_id == 0) ≡ false
    → remembers c.request_id s.applied_set ≡ true
    → fsm_apply cap c s ≡ (s, duplicate)
unfolding fsm_apply mark_applied
seen_id cap c s e h =
    let m : mark_applied cap c.request_id s ≡ (s, false) =
      if_true (remembers c.request_id s.applied_set) _ _ h in
    if_false (c.request_id == 0) _ _ e
    ∙ ap (λ (r : FsmState × Bool). if r.1 then apply_mutation c r.0 else (r.0, duplicate)) m

new_id :
    (cap : ℕ) (c : Command) (s : FsmState)
    → (c.request_id == 0) ≡ false
    → remembers c.request_id s.applied_set ≡ false
    → fsm_apply cap c s ≡ apply_mutation c (marked cap c.request_id s)
unfolding fsm_apply mark_applied marked
new_id cap c s e h =
    let m : mark_applied cap c.request_id s ≡ (marked cap c.request_id s, true) =
      if_false (remembers c.request_id s.applied_set) _ _ h in
    if_false (c.request_id == 0) _ _ e
    ∙ ap (λ (r : FsmState × Bool). if r.1 then apply_mutation c r.0 else (r.0, duplicate)) m

-- A mutation leaves the ring and its index alone.
mutation-Indexed :
    (cap : ℕ) (c : Command) (s : FsmState) → IsIndexed cap s → IsIndexed cap (apply_mutation c s).0
unfolding apply_mutation
mutation-Indexed cap c s k = record { same = k.same; unique = k.unique; bounded = k.bounded }

mutation-ring :
    (c : Command) (s : FsmState) → (apply_mutation c s).0.applied_requests ≡ s.applied_requests
unfolding apply_mutation
mutation-ring c s = refl

-- After an entry, the index is right, and an id that had `n` ids behind it has one more at most.
entry-Within :
    (cap n : ℕ) (id : Ident) (c : Command) (s : FsmState)
    → IsIndexed cap s
    → IsWithin id n s.applied_requests
    → suc (suc n) ≤ cap
    → IsIndexed cap (fsm_apply cap c s).0
      × IsWithin id (suc n) (fsm_apply cap c s).0.applied_requests
entry-Within cap n id c s k w room = elim (Bool-cases (c.request_id == 0)) [
  | inl e ↦
      moved (no_id cap c s e) (
        mutation-Indexed cap c s k,
        subst (IsWithin id (suc n)) (sym (mutation-ring c s)) (weaken w),
      )
  | inr e ↦ elim (Bool-cases (remembers c.request_id s.applied_set)) [
    | inl h ↦ moved (seen_id cap c s e h) (k, weaken w)
    | inr h ↦
        let s' = marked cap c.request_id s in
        moved (new_id cap c s e h) (
          mutation-Indexed cap c s'
              (marked-Indexed cap c.request_id s k (ap (remembers c.request_id) (sym k.same) ∙ h)),
          subst (IsWithin id (suc n)) (sym (mutation-ring c s'))
              (marked-Within cap n id c.request_id s w room),
        )
  ]
]
  where
    weaken : IsWithin id n s.applied_requests → IsWithin id (suc n) s.applied_requests
    weaken v = record {
      before = v.before;
      after = v.after;
      split = v.split;
      few = omega (arith, v.few);
    }

    moved :
        {r : FsmState × ApplyResult}
        → fsm_apply cap c s ≡ r
        → IsIndexed cap r.0 × IsWithin id (suc n) r.0.applied_requests
        → IsIndexed cap (fsm_apply cap c s).0
          × IsWithin id (suc n) (fsm_apply cap c s).0.applied_requests
    moved e h =
        subst
          (λ (q : FsmState × ApplyResult).
            IsIndexed cap q.0 × IsWithin id (suc n) q.0.applied_requests)
          (sym e) h

log-Within :
    (cap n : ℕ) (id : Ident) (cs : List Command) (s : FsmState)
    → IsIndexed cap s
    → IsWithin id n s.applied_requests
    → n + length cs < cap
    → IsIndexed cap (apply_log cap cs s)
      × IsWithin id (n + length cs) (apply_log cap cs s).applied_requests
unfolding apply_log
log-Within cap n id [] s k w room =
    let e : n ≡ n + length {A = Command} [] = omega arith in
    (k, subst (λ m. IsWithin id m s.applied_requests) e w)
log-Within cap n id (c ∷ cs) s k w room =
    let next = entry-Within cap n id c s k w (omega (arith, room)) in
    let rest =
      log-Within cap (suc n) id cs (fsm_apply cap c s).0 next.0 next.1 (omega (arith, room)) in
    let count : suc n + length cs ≡ n + length (c ∷ cs) = omega arith in
    (
      rest.0,
      subst (λ m. IsWithin id m (apply_log cap cs (fsm_apply cap c s).0).applied_requests) count
          rest.1,
    )

-- A command whose request id is not empty is new to a state whose index holds the ids of its ring. After
-- it and fewer commands than the ring holds, whatever they are, an entry with the same request id is a
-- duplicate, and changes nothing: not the store, and not the ring.
pub fsm_apply-once :
    (cap : ℕ) (c again : Command) (cs : List Command) (s : FsmState)
    → IsIndexed cap s
    → c.request_id ≢ 0
    → remembers c.request_id s.applied_set ≡ false
    → again.request_id ≡ c.request_id
    → length cs < cap
    → fsm_apply cap again (apply_log cap (c ∷ cs) s) ≡ (apply_log cap (c ∷ cs) s, duplicate)
unfolding apply_log
fsm_apply-once cap c again cs s k named new same room =
    let id = c.request_id in
    let entered = marked cap id s in
    let step = new_id cap c s (ground arith) new in
    let fresh = ap (remembers id) (sym k.same) ∙ new in
    let start : IsIndexed cap (fsm_apply cap c s).0
        × IsWithin id 0 (fsm_apply cap c s).0.applied_requests =
      subst (λ (q : FsmState × ApplyResult). IsIndexed cap q.0 × IsWithin id 0 q.0.applied_requests)
        (sym step)
        (
          mutation-Indexed cap c entered (marked-Indexed cap id s k fresh),
          subst (IsWithin id 0) (sym (mutation-ring c entered))
              (marked_new cap id s (omega (arith, room)) k.bounded),
        ) in
    let ends = log-Within cap 0 id cs (fsm_apply cap c s).0 start.0 start.1 (omega (arith, room)) in
    let final = apply_log cap cs (fsm_apply cap c s).0 in
    seen_id cap again final (ground (arith, same)) (
      ap (λ i. remembers i final.applied_set) same
      ∙ ap (remembers id) ends.0.same
      ∙ within_remembered id _ final.applied_requests ends.1)
