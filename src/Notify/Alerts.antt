-- ===== src/Notify/Alerts.antt =====
-- When an alert is repeated, and when it is resolved.
use zattera_dev.Base.{
  ℕ, ◌-◌, ◌≤◌, ◌≡◌, refl, arith, Bool, true, false, List, [], ◌∷◌, ◌++◌, Option, none, some, ltb,
  if◌then◌else◌,
}
use zattera_dev.State.Types.{Ident}
use zattera_dev.Notify.{
  dedupe_window, MetricCondition, Watch, new_watch, Alert, fired, resolved, start_of, is_silenced,
  holds, clears, judge, reading, eval_metric, alerts,
}

-- A firing comes a window after the last one or after a resolution; a resolution only after a firing.
abbrev pub IsSpaced : Option ℕ → List Alert → Type 0
IsSpaced last [] = Unit
IsSpaced none (fired t ∷ rest) = IsSpaced (some t) rest
IsSpaced (some last) (fired t ∷ rest) = (dedupe_window ≤ t - last) × IsSpaced (some t) rest
IsSpaced none (resolved t ∷ rest) = ⊥
IsSpaced (some last) (resolved t ∷ rest) = IsSpaced none rest

-- An evaluation, before alerts that are spaced after it.
abbrev Extends : Watch → Watch × List Alert → Type 0
Extends w r = (rest : List Alert) → IsSpaced r.0.firing rest → IsSpaced w.firing (r.1 ++ rest)

if_Extends :
    (w : Watch) (b : Bool) (r r' : Watch × List Alert)
    → Extends w r
    → (b ≡ false → Extends w r')
    → Extends w (if b then r else r')
if_Extends w true r r' h h' = h
if_Extends w false r r' h h' = h' refl

fires-Spaced :
    (now : ℕ) (o : Option ℕ) (rest : List Alert)
    → is_silenced now o ≡ false
    → IsSpaced (some now) rest
    → IsSpaced o (fired now ∷ rest)
unfolding is_silenced
fires-Spaced now none rest e h = h
fires-Spaced now (some last) rest e h = (ground (arith, e), h)

clears-Spaced :
    (now : ℕ) (o : Option ℕ) (rest : List Alert)
    → IsSpaced none rest
    → IsSpaced o (elim o as (λ _. List Alert) [ none ↦ [] | some _ ↦ resolved now ∷ [] ] ++ rest)
clears-Spaced now none rest h = h
clears-Spaced now (some last) rest h = h

judge-Extends :
    (sustained now : ℕ) (o : Option Bool) (w : Watch) → Extends w (judge sustained now o w)
unfolding judge holds clears
judge-Extends sustained now none w = λ rest h. h
judge-Extends sustained now (some false) w = λ rest h. clears-Spaced now w.firing rest h
judge-Extends sustained now (some true) w =
    if_Extends w (ltb (now - start_of now w) sustained) _ _ (λ rest h. h)
      (λ _.
        if_Extends w (is_silenced now w.firing) _ _ (λ rest h. h)
          (λ e rest h. fires-Spaced now w.firing rest e h))

module _ {V : Type 0} (value : ℕ → Ident → Ident → Option V) (less at_most : V → V → Bool) where
  IsSpaced-from :
      (mc : MetricCondition V) (ts : List ℕ) (w : Watch)
      → IsSpaced w.firing (alerts value less at_most mc ts w)
  unfolding alerts eval_metric
  IsSpaced-from mc [] w = tt
  IsSpaced-from mc (t ∷ ts) w =
      judge-Extends mc.sustained t (reading value less at_most t mc) w _
        (IsSpaced-from mc ts (judge mc.sustained t (reading value less at_most t mc) w).0)

  -- The notifications of a metric rule over any ticks of a term, whatever the metric does: a firing
  -- notification comes at least fifteen minutes after the one before unless the alert was resolved in
  -- between, and a resolution only after a firing that was not resolved yet.
  pub alerts-Spaced :
      (mc : MetricCondition V) (ts : List ℕ)
      → IsSpaced none (alerts value less at_most mc ts new_watch)
  alerts-Spaced mc ts = IsSpaced-from mc ts new_watch
