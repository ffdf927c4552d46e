-- ===== src/Tsdb/Retention.antt =====
-- The raw ring answers as an unbounded log does, for every slot of the retention window.
use zattera_dev.Base.{ℕ, suc, ◌+◌, ◌-◌, ◌/◌, ◌<◌, ◌≡◌, true, List, Option, none, some, length}
use zattera_dev.Tsdb.{Ring, Series, slot_value, collect, query_from, is_newer, raw_step_sec}
use zattera_dev.Tsdb.Log.{Log, newest, log_value}

-- The ring and the log agree on every slot less than `size` before the newest, and after it.
abbrev InWindow : ℕ → ℕ → Option ℕ → Type 0
InWindow size abs none = Unit
InWindow size abs (some cur) = cur < abs + size

record IsKept (size : ℕ) (r : Ring) (cur : Option ℕ) (log : Log) : Type 0 where
  abs_len : length r.abs ≡ size
  val_len : length r.val ≡ size
  newest_is : cur ≡ newest log
  later : (abs : ℕ) → is_newer abs (newest log) ≡ true → log_value abs log ≡ none
  agrees : (abs : ℕ) → InWindow size abs (newest log) → slot_value size abs r ≡ log_value abs log

module _ (average : ℕ → ℕ → ℕ → ℕ) (raw_slots down_slots : ℕ) (positive : 0 < raw_slots) where
  abbrev Kept : Series → Log → Type 0
  Kept se log = IsKept raw_slots se.raw se.cur_abs log

  -- What Query would answer from a log that forgets nothing.
  abbrev pub log_query : Log → ℕ → ℕ → List (ℕ × ℕ)
  log_query log since until =
      let from_abs = query_from raw_slots (since / raw_step_sec) (until / raw_step_sec) in
      collect (suc (until / raw_step_sec) - from_abs) raw_step_sec (λ abs. log_value abs log)
        from_abs
