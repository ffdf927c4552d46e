-- ===== src/Tests/Metrics.antt =====
-- A small ring store, its file, an alert rule and a route's endpoints.
use zattera_dev.Base.{
  ℕ, zero, suc, ◌+◌, ◌-◌, ◌^◌, ◌≤◌, ◌<◌, ◌≡◌, ◌⊎◌, refl, arith, Bool, true, false, List, [], ◌∷◌,
  Option, none, some, length, ltb, leb, filter, Exists,
}
use zattera_dev.Wire.{ok}
use zattera_dev.State.Types.{Ident}
use zattera_dev.Tsdb.{SeriesKey, Series}
use zattera_dev.Tsdb.File.{encode, decode}
use zattera_dev.Tsdb.RoundTrip.{Entries, IsWritable, decode-encode}
use zattera_dev.Notify.{
  MetricCondition, Op, Watch, new_watch, Alert, fired, judge, holds, start_of, is_silenced, clears,
  reading, eval_metric, alerts,
}
use zattera_dev.Notify
use zattera_dev.Notify.Alerts.{IsSpaced, alerts-Spaced}
use zattera_dev.Notify.Sustained.{IsHeld, watched, fired-Held}
use zattera_dev.Proxy.{Endpoint, Balancer, is_available, pick}
use zattera_dev.Proxy.Choice.{IsChosen, pick-Chosen}

abbrev keep_old : ℕ → ℕ → ℕ → ℕ
keep_old old v c = old

-- The third sample is older than the second, the fourth overwrites it, the last one wraps around.
abbrev samples : List (ℕ × ℕ)
samples = (15, 1) ∷ (30, 2) ∷ (16, 3) ∷ (31, 4) ∷ (90, 5) ∷ []

abbrev cpu : SeriesKey
cpu = record { metric = 99 ∷ 112 ∷ 117 ∷ []; scope = 110 ∷ []; scope_id = 49 ∷ [] }

abbrev cpu_series : Series
cpu_series = record {
  raw = record { abs = some 4 ∷ none ∷ []; val = 7 ∷ 0 ∷ []; cnt = [] };
  down = record { abs = some 0 ∷ none ∷ []; val = 7 ∷ 0 ∷ []; cnt = 1 ∷ 0 ∷ [] };
  cur_abs = some 4;
}

cpu_series-IsWritable : IsWritable 2 2 cpu_series
cpu_series-IsWritable = record {
  raw_full = record {
    abs_len = refl;
    val_len = refl;
    cnt_len = refl;
    abs_fit = (omega arith, (tt, tt));
    val_fit = (omega arith, (omega arith, tt));
    cnt_fit = tt;
  };
  down_full = record {
    abs_len = refl;
    val_len = refl;
    cnt_len = refl;
    abs_fit = (omega arith, (tt, tt));
    val_fit = (omega arith, (omega arith, tt));
    cnt_fit = (omega arith, (omega arith, tt));
  };
  cur_fit = omega arith;
}

abbrev one_series : Entries 2 2
one_series = (cpu, cpu_series) ∷ []

decode-encode_example : decode 2 2 (encode one_series) ≡ ok one_series
decode-encode_example =
    decode-encode 2 2 one_series (omega arith)
      (tt, (omega arith, omega arith, omega arith), cpu_series-IsWritable, tt)

-- A metric that is its own time, and a rule for values from 10 on, held for 20.
abbrev clock_value : ℕ → Ident → Ident → Option ℕ
clock_value now metric scope = some now

abbrev from_ten : MetricCondition ℕ
from_ten = record { metric = 1; scope = 2; op = Op.greater_equal; threshold = 10; sustained = 20 }

alerts-Spaced_example :
    IsSpaced none (alerts clock_value ltb leb from_ten (5 ∷ 10 ∷ 30 ∷ 40 ∷ []) new_watch)
alerts-Spaced_example = alerts-Spaced clock_value ltb leb from_ten (5 ∷ 10 ∷ 30 ∷ 40 ∷ [])

fires_at_thirty :
    (eval_metric clock_value ltb leb from_ten 30
      (watched clock_value ltb leb from_ten (10 ∷ 5 ∷ []))).1
    ≡ fired 30 ∷ []
unfolding eval_metric judge holds start_of is_silenced clears reading Notify.compare
fires_at_thirty = refl

fired-Held_example :
    (s : ℕ) × IsHeld clock_value ltb leb from_ten s (30 ∷ 10 ∷ 5 ∷ []) × (20 ≤ 30 - s)
fired-Held_example = fired-Held clock_value ltb leb from_ten 30 (10 ∷ 5 ∷ []) fires_at_thirty

abbrev replica : Ident → Bool → Endpoint
replica addr healthy = record { addr = addr; node_id = addr; healthy = healthy }

abbrev replicas : List Endpoint
replicas = replica 1 true ∷ replica 2 false ∷ replica 3 true ∷ []

abbrev balancer : Balancer
balancer = record { local = 3; inflight = (1, 2) ∷ [] }

pick-Chosen_example :
    ((filter (is_available balancer 5) replicas ≡ []) × (pick balancer replicas 0 0 5 ≡ none))
    ⊎ ((e : Endpoint) × (pick balancer replicas 0 0 5 ≡ some e)
        × Exists (λ x. (is_available balancer 5 x ≡ true) × (x ≡ e)) replicas
        × IsChosen balancer (filter (is_available balancer 5) replicas) e)
unfolding is_available zattera_dev.Proxy.load zattera_dev.Base.get
pick-Chosen_example = pick-Chosen balancer replicas 0 0 5 (λ _. (omega arith, omega arith))
