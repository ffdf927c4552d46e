-- ===== src/Tsdb.antt =====
-- internal/daemon/tsdb (ring.go, store.go): the ring time series of one node. A float32 is its 32 bits;
-- the running average on them is a parameter. Times are seconds since 1970, not negative. The numbers of
-- slots of the two rings, 5760 and 8640 in the source, are parameters, so that small rings can be run.
pub mod Log
pub mod Retention
pub mod File
pub mod Slots
pub mod RoundTrip
use zattera_dev.Base.{
  ℕ, zero, suc, ◌+◌, ◌-◌, ◌*◌, ◌/◌, ◌%◌, ◌^◌, ◌<◌, Bool, true, false, not, ◌&&◌, ◌||◌, List, [],
  ◌∷◌, ◌++◌, Option, none, some, ltb, leb, ◌==◌, if◌then◌else◌, filter, is_nil, max,
}
use zattera_dev.Wire.{Bytes, bytes_eq}
use zattera_dev.Base.Arrays.{nth, set_nth, repeat}

abbrev pub raw_step_sec : ℕ
raw_step_sec = 15

abbrev pub down_step_sec : ℕ
down_step_sec = 300

abbrev pub raw_slots_default : ℕ
raw_slots_default = 24 * 3600 / raw_step_sec

abbrev pub down_slots_default : ℕ
down_slots_default = 30 * 24 * 3600 / down_step_sec

-- 48 hours in seconds.
abbrev pub gc_age : ℕ
gc_age = 48 * 3600

pub record SeriesKey : Type 0 where
  pub metric : Bytes
  pub scope : Bytes
  pub scope_id : Bytes

unfoldable pub key_eq : SeriesKey → SeriesKey → Bool
key_eq k j =
    bytes_eq k.metric j.metric && bytes_eq k.scope j.scope && bytes_eq k.scope_id j.scope_id

-- `abs[i]` is `none` where the source has emptySlot.
pub record Ring : Type 0 where
  pub abs : List (Option ℕ)
  pub val : List ℕ
  pub cnt : List ℕ

unfoldable pub new_ring : ℕ → Bool → Ring
new_ring size downsampled = record {
  abs = repeat size none;
  val = repeat size 0;
  cnt = if downsampled then repeat size 0 else [];
}

pub record Series : Type 0 where
  pub raw : Ring
  pub down : Ring
  pub cur_abs : Option ℕ

-- `ring.abs[pos] == abs`, and the value there; what stands at the position comes first.
unfoldable pub read_slot : Option (Option ℕ) → ℕ → Option ℕ → Option ℕ
read_slot none abs val = none
read_slot (some none) abs val = none
read_slot (some (some a)) abs val = if a == abs then val else none

unfoldable pub slot_value : ℕ → ℕ → Ring → Option ℕ
slot_value size abs r = read_slot (nth (abs % size) r.abs) abs (nth (abs % size) r.val)

-- A point for a slot that has a value.
unfoldable pub with_point : ℕ → Option ℕ → List (ℕ × ℕ) → List (ℕ × ℕ)
with_point time none points = points
with_point time (some v) points = (time, v) ∷ points

-- The loop of Query: `n` slots from `abs` on.
unfoldable pub collect : ℕ → ℕ → (ℕ → Option ℕ) → ℕ → List (ℕ × ℕ)
collect zero step_sec value abs = []
collect (suc n) step_sec value abs =
    with_point (abs * step_sec) (value abs) (collect n step_sec value (suc abs))

-- The first slot that Query reads: at most `size` slots up to `to_abs`.
unfoldable pub query_from : ℕ → ℕ → ℕ → ℕ
query_from size from_abs to_abs = max from_abs (suc to_abs - size)

unfoldable pub query_ring : ℕ → ℕ → Ring → ℕ → ℕ → List (ℕ × ℕ)
query_ring size step_sec r since until =
    let from_abs = query_from size (since / step_sec) (until / step_sec) in
    collect (suc (until / step_sec) - from_abs) step_sec (λ abs. slot_value size abs r) from_abs

unfoldable pub put_raw : ℕ → ℕ → ℕ → Ring → Ring
put_raw size abs v r = record r {
  abs = set_nth (abs % size) (some abs) r.abs;
  val = set_nth (abs % size) v r.val;
}

-- `se.curAbs != emptySlot && rawAbs < se.curAbs`.
unfoldable pub is_older : ℕ → Option ℕ → Bool
is_older abs none = false
is_older abs (some cur) = ltb abs cur

-- `rawAbs > se.curAbs`; emptySlot is below every slot.
unfoldable pub is_newer : ℕ → Option ℕ → Bool
is_newer abs none = true
is_newer abs (some cur) = ltb cur abs

-- An array read in range.
abbrev or_zero : Option ℕ → ℕ
or_zero none = 0
or_zero (some x) = x

-- `se.down.abs[pos] == downAbs`.
unfoldable pub holds_slot : Option (Option ℕ) → ℕ → Bool
holds_slot none abs = false
holds_slot (some none) abs = false
holds_slot (some (some a)) abs = a == abs

-- The mean of `c` samples, a new one and `c`: `val + (v - val) / float32(c + 1)`, and the sizes of the rings.
module _ (average : ℕ → ℕ → ℕ → ℕ) (raw_slots down_slots : ℕ) where
  unfoldable pub new_series : Series
  new_series = record {
    raw = new_ring raw_slots false;
    down = new_ring down_slots true;
    cur_abs = none;
  }

  -- The running average of a slot, or its first sample.
  unfoldable pub fold_down : Bool → ℕ → ℕ → Ring → Ring
  fold_down false down_abs v r = record {
    abs = set_nth (down_abs % down_slots) (some down_abs) r.abs;
    val = set_nth (down_abs % down_slots) v r.val;
    cnt = set_nth (down_abs % down_slots) 1 r.cnt;
  }
  fold_down true down_abs v r =
      let pos = down_abs % down_slots in
      let c = or_zero (nth pos r.cnt) in
      record r {
        val = set_nth pos (average (or_zero (nth pos r.val)) v c) r.val;
        cnt = if ltb c (2 ^ 16 - 1) then set_nth pos (c + 1) r.cnt else r.cnt;
      }

  unfoldable pub feed_down : ℕ → ℕ → Series → Series
  feed_down down_abs v se = record se {
    down =
        fold_down (holds_slot (nth (down_abs % down_slots) se.down.abs) down_abs) down_abs v
          se.down;
  }

  -- A sample of the newest slot or of a later one: only a later one feeds the averages.
  unfoldable pub keep_sample : Bool → ℕ → ℕ → Series → Series
  keep_sample newer unix v se =
      let raw_abs = unix / raw_step_sec in
      let written = record se { raw = put_raw raw_slots raw_abs v se.raw } in
      if newer
      then record (feed_down (unix / down_step_sec) v written) { cur_abs = some raw_abs }
      else written

  -- Record, on the series of the sample's key.
  unfoldable pub record_sample : ℕ → ℕ → Series → Series
  record_sample unix v se =
      let raw_abs = unix / raw_step_sec in
      if is_older raw_abs se.cur_abs
      then se
      else keep_sample (is_newer raw_abs se.cur_abs) unix v se

  unfoldable pub record_all : List (ℕ × ℕ) → Series → Series
  record_all [] se = se
  record_all ((unix, v) ∷ samples) se = record_all samples (record_sample unix v se)

  -- Query, with the step in seconds.
  unfoldable pub query : Series → ℕ → ℕ → ℕ → List (ℕ × ℕ)
  query se since until step =
      if ltb until since
      then []
      else if leb down_step_sec step
      then query_ring down_slots down_step_sec se.down since until
      else query_ring raw_slots raw_step_sec se.raw since until

-- Keys: the scope filter.
unfoldable pub matches : Bytes → Bytes → SeriesKey → Bool
matches scope scope_id k =
    (is_nil scope || bytes_eq k.scope scope) && (is_nil scope_id || bytes_eq k.scope_id scope_id)

-- gc: the series whose newest slot is not before the cutoff.
unfoldable pub gc : ℕ → List (SeriesKey × Series) → List (SeriesKey × Series)
gc now m =
    filter
      (λ e. elim e.1.cur_abs as (λ _. Bool) [
        | none ↦ false
        | some cur ↦ not (ltb cur ((now - gc_age) / raw_step_sec))
      ])
      m
