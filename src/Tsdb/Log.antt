-- ===== src/Tsdb/Log.antt =====
-- An unbounded log of samples, and what a write to the ring does to the value of each slot.
use zattera_dev.Base.{
  ℕ, suc, ◌+◌, ◌*◌, ◌/◌, ◌%◌, ◌≤◌, ◌<◌, ◌≡◌, ◌≢◌, refl, arith, List, [], ◌∷◌, Option, none, some,
  leb, ◌==◌, if◌then◌else◌, length, Bool-cases, leb→le, inl, inr,
}
use zattera_dev.Tsdb.{Ring, read_slot, slot_value, put_raw, is_older, raw_step_sec}
use zattera_dev.Base.Arrays.{nth-set_nth_self, nth-set_nth_ne}
use native.Mathlib.Nat.{div-add-mod, mul-le-mul_right}

-- A log of samples by slot, newest first.
abbrev pub Log : Type 0
Log = List (ℕ × ℕ)

abbrev pub newest : Log → Option ℕ
newest [] = none
newest ((abs, _) ∷ log) = some abs

abbrev pub log_value : ℕ → Log → Option ℕ
log_value abs [] = none
log_value abs ((a, v) ∷ log) = if a == abs then some v else log_value abs log

-- A sample of an older slot than the newest is not kept.
unfoldable pub log_sample : ℕ → ℕ → Log → Log
log_sample unix v log =
    let abs = unix / raw_step_sec in if is_older abs (newest log) then log else (abs, v) ∷ log

abbrev pub log_all : List (ℕ × ℕ) → Log → Log
log_all [] log = log
log_all ((unix, v) ∷ samples) log = log_all samples (log_sample unix v log)

-- Slots less than `size` apart stand at different positions.
pub positions_apart : (size a b : ℕ) → b < a → a < b + size → a % size ≢ b % size
positions_apart size a b h k e =
    let da = div-add-mod a size in
    let db = div-add-mod b size in
    elim (Bool-cases (leb (a / size) (b / size))) [
      | inl le ↦
          let m : a / size * size ≤ b / size * size = mul-le-mul_right size (leb→le _ _ le) in
          omega (arith, m, da, db)
      | inr gt ↦
          let above : suc (b / size) ≤ a / size = ground arith in
          let m : suc (b / size) * size ≤ a / size * size = mul-le-mul_right size above in
          omega (arith, m, da, db)
    ]

-- What a write does to each slot's value.
module _ (size : ℕ) (r : Ring) (a v : ℕ) where
  pub slot_value_self :
      a % size < length r.abs
      → a % size < length r.val
      → slot_value size a (put_raw size a v r) ≡ some v
  unfolding slot_value put_raw read_slot
  slot_value_self ha hv =
      rw (nth-set_nth_self (a % size) (some a) r.abs ha, nth-set_nth_self (a % size) v r.val hv)
        (ground arith)

  pub slot_value_ne :
      (abs : ℕ)
      → abs % size ≢ a % size
      → slot_value size abs (put_raw size a v r) ≡ slot_value size abs r
  unfolding slot_value put_raw
  slot_value_ne abs h =
      rw
        (
          nth-set_nth_ne (a % size) (abs % size) (some a) r.abs h,
          nth-set_nth_ne (a % size) (abs % size) v r.val h,
        )
        refl

  pub slot_value_clash :
      (abs : ℕ)
      → a % size < length r.abs
      → abs ≢ a
      → abs % size ≡ a % size
      → slot_value size abs (put_raw size a v r) ≡ none
  unfolding slot_value put_raw read_slot
  slot_value_clash abs ha ne e =
      rw (e, nth-set_nth_self (a % size) (some a) r.abs ha) (ground arith)
