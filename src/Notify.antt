-- ===== src/Notify.antt =====
-- internal/daemon/notify/engine.go: the state that the alert engine keeps of one rule and scope, and the
-- notifications of its evaluations, and compare of notify.go. The metric source and the order of float64
-- are parameters; times are nanoseconds. Delivery to the channels is not modelled.
pub mod Alerts
pub mod Sustained
use zattera_dev.Base.{
  ℕ, ◌+◌, ◌-◌, ◌*◌, Bool, true, false, not, ◌&&◌, ◌||◌, List, [], ◌∷◌, ◌++◌, Option, none, some,
  ltb, ◌==◌, if◌then◌else◌, any, filter,
}
use zattera_dev.State.Types.{Ident}

abbrev pub dedupe_window : ℕ
dedupe_window = 15 * 60 * 1000000000

-- The operators of a rule: >, >=, <, <=, and any other string.
pub data Op : Type 0 where
  greater greater_equal lower lower_equal other_op : Op

pub record MetricCondition (V : Type 0) : Type 0 where
  pub metric : Ident
  pub scope : Ident
  pub op : Op
  pub threshold : V
  pub sustained : ℕ

-- `since[key]` and `firing[key]`: absent is `none`.
pub record Watch : Type 0 where
  pub since : Option ℕ
  pub firing : Option ℕ

abbrev pub new_watch : Watch
new_watch = record { since = none; firing = none }

-- A notification: when, and whether the alert fires or has recovered.
pub data Alert : Type 0 where
  fired resolved : ℕ → Alert

-- `since[key]`, set to now if it was absent.
unfoldable pub start_of : ℕ → Watch → ℕ
start_of now w = elim w.since as (λ _. ℕ) [ none ↦ now | some t ↦ t ]

-- Still firing, and notified within the window.
unfoldable pub is_silenced : ℕ → Option ℕ → Bool
is_silenced now none = false
is_silenced now (some last) = ltb (now - last) dedupe_window

-- The branch of evalMetric where the condition holds.
unfoldable pub holds : ℕ → ℕ → Watch → Watch × List Alert
holds sustained now w =
    let start = start_of now w in
    let held = record w { since = some start } in
    if ltb (now - start) sustained
    then (held, [])
    else if is_silenced now w.firing
    then (held, [])
    else (record held { firing = some now }, fired now ∷ [])

-- The branch where it does not.
unfoldable pub clears : ℕ → Watch → Watch × List Alert
clears now w =
    (new_watch, elim w.firing as (λ _. List Alert) [ none ↦ [] | some _ ↦ resolved now ∷ [] ])

-- evalMetric on the state of the rule's key: `none` is a metric without data.
unfoldable pub judge : ℕ → ℕ → Option Bool → Watch → Watch × List Alert
judge sustained now none w = (w, [])
judge sustained now (some true) w = holds sustained now w
judge sustained now (some false) w = clears now w

module _ {V : Type 0} (value : ℕ → Ident → Ident → Option V) (less at_most : V → V → Bool) where
  unfoldable pub compare : V → Op → V → Bool
  compare v greater threshold = less threshold v
  compare v greater_equal threshold = at_most threshold v
  compare v lower threshold = less v threshold
  compare v lower_equal threshold = at_most v threshold
  compare v other_op threshold = false

  unfoldable pub reading : ℕ → MetricCondition V → Option Bool
  reading now mc = elim (value now mc.metric mc.scope) [
    | none ↦ none
    | some v ↦ some (compare v mc.op mc.threshold)
  ]

  unfoldable pub eval_metric : MetricCondition V → ℕ → Watch → Watch × List Alert
  eval_metric mc now w = judge mc.sustained now (reading now mc) w

  -- The notifications of the ticks of one term, oldest first.
  unfoldable pub alerts : MetricCondition V → List ℕ → Watch → List Alert
  alerts mc [] w = []
  alerts mc (t ∷ ts) w = (eval_metric mc t w).1 ++ alerts mc ts (eval_metric mc t w).0
