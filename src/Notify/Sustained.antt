-- ===== src/Notify/Sustained.antt =====
-- An alert fires only for a condition that has held long enough.
use zattera_dev.Base.{
  ℕ, ◌-◌, ◌≤◌, ◌≡◌, ◌≢◌, ◌⊎◌, refl, sym, ap, ◌∙◌, subst, arith, Bool, true, false, List, [], ◌∷◌,
  Option, none, some, ltb, if◌then◌else◌, Option-cases, inl, inr,
}
use zattera_dev.State.Types.{Ident}
use zattera_dev.Notify.{
  MetricCondition, Watch, new_watch, Alert, fired, resolved, start_of, is_silenced, holds, clears,
  judge, reading, eval_metric,
}

module _ {V : Type 0} (value : ℕ → Ident → Ident → Option V) (less at_most : V → V → Bool)
    (mc : MetricCondition V) where
  abbrev seen : ℕ → Option Bool
  seen t = reading value less at_most t mc

  -- The condition held at the tick `s` of a history, newest first, and no tick since saw it fail.
  abbrev pub IsHeld : ℕ → List ℕ → Type 0
  IsHeld s [] = ⊥
  IsHeld s (t ∷ history) =
      ((t ≡ s) × (seen t ≡ some true)) ⊎ ((seen t ≢ some false) × IsHeld s history)

  -- The state after a history, newest tick first.
  abbrev pub watched : List ℕ → Watch
  watched [] = new_watch
  watched (t ∷ history) = (eval_metric value less at_most mc t (watched history)).0

  abbrev IsSince : Watch → List ℕ → Type 0
  IsSince w history = (s : ℕ) → w.since ≡ some s → IsHeld s history

  -- What an evaluation says when the condition holds.
  abbrev IsTimed : ℕ → ℕ → ℕ → Watch × List Alert → Type 0
  IsTimed sustained now start r =
      (r.0.since ≡ some start) × (r.1 ≡ fired now ∷ [] → sustained ≤ now - start)

  if_Timed :
      (sustained now start : ℕ) (b : Bool) (r r' : Watch × List Alert)
      → (b ≡ true → IsTimed sustained now start r)
      → (b ≡ false → IsTimed sustained now start r')
      → IsTimed sustained now start (if b then r else r')
  if_Timed sustained now start true r r' h h' = h refl
  if_Timed sustained now start false r r' h h' = h' refl

  holds-Timed :
      (sustained now : ℕ) (w : Watch)
      → IsTimed sustained now (start_of now w) (holds sustained now w)
  unfolding holds
  holds-Timed sustained now w =
      let start = start_of now w in
      if_Timed sustained now start (ltb (now - start) sustained) _ _
        (λ _. (refl, λ e. absurd (cc e)))
        (λ late.
          if_Timed sustained now start (is_silenced now w.firing) _ _
            (λ _. (refl, λ e. absurd (cc e))) (λ _. (refl, λ _. ground (arith, late))))

  start_of_lem :
      (t : ℕ) (w : Watch) (o : Option ℕ)
      → w.since ≡ o
      → start_of t w ≡ elim o as (λ _. ℕ) [ none ↦ t | some s ↦ s ]
  unfolding start_of
  start_of_lem t w o e = ap (λ (q : Option ℕ). elim q as (λ _. ℕ) [ none ↦ t | some s ↦ s ]) e

  -- The start of the time that the condition has held.
  start-Held :
      (t : ℕ) (w : Watch) (history : List ℕ)
      → IsSince w history
      → seen t ≡ some true
      → IsHeld (start_of t w) (t ∷ history)
  start-Held t w history h e = elim (Option-cases w.since) [
    | inl none_yet ↦ inl (sym (start_of_lem t w none none_yet), e)
    | inr (s, was) ↦ inr (
      (λ failed. absurd (cc (e, failed))),
      subst (λ i. IsHeld i history) (sym (start_of_lem t w (some s) was)) (h s was),
    )
  ]

  judge-Since :
      (o : Option Bool) (t : ℕ) (w : Watch) (history : List ℕ)
      → IsSince w history
      → seen t ≡ o
      → IsSince (judge mc.sustained t o w).0 (t ∷ history)
  unfolding judge clears
  judge-Since none t w history h e s was = inr ((λ failed. absurd (cc (e, failed))), h s was)
  judge-Since (some false) t w history h e s was = absurd (cc was)
  judge-Since (some true) t w history h e s was =
      let timed = holds-Timed mc.sustained t w in
      let same : some (start_of t w) ≡ some s = sym timed.0 ∙ was in
      let start : start_of t w ≡ s = cc same in
      subst (λ i. IsHeld i (t ∷ history)) start (start-Held t w history h e)

  watched-Since : (history : List ℕ) → IsSince (watched history) history
  unfolding eval_metric
  watched-Since [] s e = absurd (cc e)
  watched-Since (t ∷ history) s e =
      judge-Since (seen t) t (watched history) history (watched-Since history) refl s e

  -- A resolution is no firing.
  not_fired :
      (t : ℕ) (o : Option ℕ)
      → elim o as (λ _. List Alert) [ none ↦ [] | some _ ↦ resolved t ∷ [] ] ≡ fired t ∷ []
      → ⊥
  not_fired t none e = cc e
  not_fired t (some last) e = cc e

  judge-fired :
      (o : Option Bool) (t : ℕ) (w : Watch)
      → (judge mc.sustained t o w).1 ≡ fired t ∷ []
      → (o ≡ some true) × (mc.sustained ≤ t - start_of t w)
  unfolding judge clears
  judge-fired none t w e = absurd (cc e)
  judge-fired (some true) t w e = (refl, (holds-Timed mc.sustained t w).1 e)
  judge-fired (some false) t w e = absurd (not_fired t w.firing e)

  -- When the evaluation at a tick sends a firing notification, the condition held at some tick of the
  -- history, no tick since, this one included, saw it fail, and that was at least `sustained` ago.
  pub fired-Held :
      (t : ℕ) (history : List ℕ)
      → (eval_metric value less at_most mc t (watched history)).1 ≡ fired t ∷ []
      → (s : ℕ) × IsHeld s (t ∷ history) × (mc.sustained ≤ t - s)
  unfolding eval_metric
  fired-Held t history e =
      let (holding, long) = judge-fired (seen t) t (watched history) e in
      (
        start_of t (watched history),
        start-Held t (watched history) history (watched-Since history) holding,
        long,
      )
