-- ===== src/Scheduler/Cron/Slots.antt =====
-- The slots that a cron spec is fired for.
use zattera_dev.Base.{
  ℕ, ◌+◌, ◌≤◌, ◌<◌, ◌≡◌, refl, sym, ap, ◌∙◌, subst, arith, Bool, true, false, List, [], ◌∷◌, Option,
  none, some, ltb, ◌==◌, if◌then◌else◌, get, get-put, Option-cases, inl, inr, if_true,
}
use zattera_dev.State.Types.{Ident, Environment, CronSpec}
use zattera_dev.Scheduler.Cron.{
  CronState, reset_cron, cron_jitter, baseline, not_fired, due_of, due_slot, fired_slot,
}

module _ (parse : Ident → Option (ℕ → ℕ)) (hash : Ident → Ident → ℕ) (key_of : Ident → Ident → ℕ)
    (env : Environment) (spec : CronSpec) where
  -- The slots fired at the ticks of a term, with the times of the ticks.
  abbrev pub fires : List ℕ → CronState → List (ℕ × ℕ)
  fires [] cs = []
  fires (now ∷ ticks) cs = elim (due_slot parse hash key_of now env spec cs) [
    | none ↦ fires ticks cs
    | some due ↦ (now, due) ∷ fires ticks (fired_slot parse hash key_of env spec due cs)
  ]

  abbrev key : ℕ
  key = key_of env.id spec.name

  abbrev base : CronState → ℕ
  base cs = baseline cs (get key cs.last)

  abbrev IsDue : ℕ → ℕ → ℕ → Type 0
  IsDue b now due =
      (b < due)
      × (due + cron_jitter parse hash key_of env.id spec.name ≤ now)
      × ((next : ℕ → ℕ) × (parse spec.schedule ≡ some next) × (due ≡ next b))

  -- Each slot is the next of the schedule after the one before, and is fired when its time with its
  -- jitter has come.
  abbrev pub IsTimely : ℕ → List (ℕ × ℕ) → Type 0
  IsTimely b [] = Unit
  IsTimely b ((now, due) ∷ rest) = IsDue b now due × IsTimely due rest

  guard_inv :
      (b : Bool) (o : Option ℕ) (due : ℕ)
      → (if b then none else o) ≡ some due
      → (b ≡ false) × (o ≡ some due)
  guard_inv true o due e = absurd (cc e)
  guard_inv false o due e = (refl, e)

  keep_inv : (b : Bool) (due d : ℕ) → (if b then some due else none) ≡ some d → due ≡ d
  keep_inv true due d e = cc e
  keep_inv false due d e = absurd (cc e)

  due_of_inv :
      (next : ℕ → ℕ) (now due : ℕ) (cs : CronState)
      → due_of parse hash key_of next now env spec cs ≡ some due
      → (due ≡ next (base cs)) × (due + cron_jitter parse hash key_of env.id spec.name ≤ now)
  unfolding due_of
  due_of_inv next now due cs e =
      let slot = next (base cs) in
      let jitter = cron_jitter parse hash key_of env.id spec.name in
      let (early, kept) = guard_inv (ltb now (slot + jitter)) _ due e in
      let same = keep_inv (not_fired slot (get key cs.last)) slot due kept in
      (sym same, ground (arith, early, same))

  due_slot_inv :
      (now due : ℕ) (cs : CronState)
      → due_slot parse hash key_of now env spec cs ≡ some due
      → (next : ℕ → ℕ) × (parse spec.schedule ≡ some next)
        × (due_of parse hash key_of next now env spec cs ≡ some due)
  unfolding due_slot
  due_slot_inv now due cs e = parsed (parse spec.schedule) refl (guard_inv _ _ due e).1
    where
      parsed :
          (o : Option (ℕ → ℕ))
          → parse spec.schedule ≡ o
          → elim o as (λ _. Option ℕ) [
            | none ↦ none
            | some next ↦ due_of parse hash key_of next now env spec cs
          ]
            ≡ some due
          → (next : ℕ → ℕ) × (parse spec.schedule ≡ some next)
            × (due_of parse hash key_of next now env spec cs ≡ some due)
      parsed none p h = absurd (cc h)
      parsed (some next) p h = (next, p, h)

  fired_last :
      (due : ℕ) (cs : CronState)
      → get key (fired_slot parse hash key_of env spec due cs).last ≡ some due
  unfolding fired_slot
  fired_last due cs = get-put key key due cs.last ∙ if_true (key == key) _ _ (ground arith)

  after_epoch : (cs : CronState) (o : Option ℕ) → cs.epoch ≤ baseline cs o
  unfolding baseline
  after_epoch cs none = omega arith
  after_epoch cs (some last) = ground arith

  -- The slot fired is where the next search starts.
  base_fired :
      (due : ℕ) (cs : CronState)
      → base cs < due
      → base (fired_slot parse hash key_of env spec due cs) ≡ due
  base_fired due cs h =
      let later : cs.epoch < due = omega (arith, h, after_epoch cs (get key cs.last)) in
      ap (baseline (fired_slot parse hash key_of env spec due cs)) (fired_last due cs)
      ∙ unfold baseline fired_slot in
        if_true (ltb cs.epoch due) due cs.epoch (ground (arith, later))

  -- A schedule's next slot after a time is later than the time.
  abbrev pub IsAdvancing : Type 0
  IsAdvancing = (next : ℕ → ℕ) → parse spec.schedule ≡ some next → (t : ℕ) → t < next t

  after : ℕ → List ℕ → CronState → Option ℕ → List (ℕ × ℕ)
  after now ticks cs o = elim o [
    | none ↦ fires ticks cs
    | some due ↦ (now, due) ∷ fires ticks (fired_slot parse hash key_of env spec due cs)
  ]

  fires-from : (ticks : List ℕ) (cs : CronState) → IsAdvancing → IsTimely (base cs) (fires ticks cs)
  unfolding after
  fires-from [] cs h = tt
  fires-from (now ∷ ticks) cs h = elim (Option-cases (due_slot parse hash key_of now env spec cs)) [
    | inl e ↦ subst (λ o. IsTimely (base cs) (after now ticks cs o)) (sym e) (fires-from ticks cs h)
    | inr (due, e) ↦
        let (next, parsed, found) = due_slot_inv now due cs e in
        let (slot, time) = due_of_inv next now due cs found in
        let later : base cs < due = omega (arith, slot, h next parsed (base cs)) in
        let cs' = fired_slot parse hash key_of env spec due cs in
        subst (λ o. IsTimely (base cs) (after now ticks cs o)) (sym e)
          (
            (later, time, (next, parsed, slot)),
            subst (λ b. IsTimely b (fires ticks cs')) (base_fired due cs later)
                (fires-from ticks cs' h),
          )
  ]

  -- Where the next slot of a schedule is later than the time asked about: over any ticks of a leader's
  -- term that began at an epoch, the slots for which a cron spec is fired are each the schedule's next
  -- after the one fired before, the first the next after the epoch, so that they grow and none is fired
  -- twice; and none is fired before its time and its jitter have passed.
  pub fires-Timely :
      (epoch : ℕ) (ticks : List ℕ) → IsAdvancing → IsTimely epoch (fires ticks (reset_cron epoch))
  unfolding reset_cron baseline get
  fires-Timely epoch ticks h = fires-from ticks (reset_cron epoch) h
