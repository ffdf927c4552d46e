-- ===== src/Tsdb/File.antt =====
-- The file of the ring store (encode, decode, writeString, readString of ring.go). The file is the list
-- of its bytes; what encode writes is one such list, so that no write fails.
use zattera_dev.Base.{
  ℕ, zero, suc, ◌-◌, ◌%◌, ◌^◌, not, List, [], ◌∷◌, ◌++◌, Option, none, some, ltb, ◌==◌,
  if◌then◌else◌, length, map, slice,
}
use zattera_dev.Wire.{Bytes, Result, ok, err, ◌>>=◌, read_or, le, of_le}
use zattera_dev.Tsdb.{SeriesKey, Series, Ring, key_eq}

abbrev pub file_magic : ℕ
file_magic = 0x5A545344

abbrev pub file_version : ℕ
file_version = 1

-- `1 << 20`.
abbrev pub max_string : ℕ
max_string = 1048576

pub data FileError : Type 0 where
  short_read bad_magic bad_version bad_length : FileError

abbrev pub Read {ℓ} : Type ℓ → Type ℓ
Read A = Result FileError (A × Bytes)

unfoldable pub read_word : ℕ → Bytes → Read ℕ
read_word w bs = do (front, back) ← read_or short_read w bs; ok (of_le front, back)

-- binary.Write and binary.Read of a slice of `w`-byte words; a read fills the slice that it is given.
unfoldable pub write_words : ℕ → List ℕ → Bytes
write_words w [] = []
write_words w (x ∷ xs) = le w x ++ write_words w xs

unfoldable pub read_words : ℕ → ℕ → Bytes → Read (List ℕ)
read_words w zero bs = ok ([], bs)
read_words w (suc n) bs = do
  (x, bs1) ← read_word w bs
  (xs, bs2) ← read_words w n bs1
  ok (x ∷ xs, bs2)

-- An int64 slot number; emptySlot is -1, in two's complement.
unfoldable pub slot_word : Option ℕ → ℕ
slot_word none = 2 ^ 64 - 1
slot_word (some abs) = abs

unfoldable pub word_slot : ℕ → Option ℕ
word_slot n = if n == 2 ^ 64 - 1 then none else some n

unfoldable pub write_string : Bytes → Bytes
write_string str = le 4 (length str % 2 ^ 32) ++ str

unfoldable pub read_string : Bytes → Read Bytes
read_string bs = do
  (n, bs1) ← read_word 4 bs
  if ltb max_string n then err bad_length else read_or short_read n bs1

unfoldable pub write_key : SeriesKey → Bytes
write_key k = write_string k.metric ++ (write_string k.scope ++ write_string k.scope_id)

unfoldable pub read_key : Bytes → Read SeriesKey
read_key bs = do
  (metric, bs1) ← read_string bs
  (scope, bs2) ← read_string bs1
  (scope_id, bs3) ← read_string bs2
  ok (record { metric = metric; scope = scope; scope_id = scope_id }, bs3)

-- The slices of a ring; the raw ring has no counts, and writes none.
unfoldable pub write_ring : Ring → Bytes
write_ring r = write_words 8 (map slot_word r.abs) ++ (write_words 4 r.val ++ write_words 2 r.cnt)

unfoldable pub write_series : Series → Bytes
write_series se = le 8 (slot_word se.cur_abs) ++ (write_ring se.raw ++ write_ring se.down)

unfoldable pub write_entries : List (SeriesKey × Series) → Bytes
write_entries [] = []
write_entries ((k, se) ∷ m) = (write_key k ++ write_series se) ++ write_entries m

-- encode: magic, version, number of series, and the series in the order in which the map gives them.
unfoldable pub encode : List (SeriesKey × Series) → Bytes
encode m = le 4 file_magic ++ (le 4 file_version ++ (le 4 (length m % 2 ^ 32) ++ write_entries m))

-- `loaded[k] = se`.
unfoldable pub load_entry :
    SeriesKey → Series → List (SeriesKey × Series) → List (SeriesKey × Series)
load_entry k se [] = (k, se) ∷ []
load_entry k se ((j, other) ∷ m) =
    let rest = load_entry k se m in if key_eq k j then (k, se) ∷ m else (j, other) ∷ rest

-- The slices that are filled have `size` entries, and `counted` counts.
unfoldable pub read_ring : ℕ → ℕ → Bytes → Read Ring
read_ring size counted bs = do
  (abs, bs1) ← read_words 8 size bs
  (val, bs2) ← read_words 4 size bs1
  (cnt, bs3) ← read_words 2 counted bs2
  ok (record { abs = map word_slot abs; val = val; cnt = cnt }, bs3)

-- The rings of the new series that decode fills have these lengths.
module _ (raw_slots down_slots : ℕ) where
  unfoldable pub read_series : Bytes → Read Series
  read_series bs = do
    (cur, bs1) ← read_word 8 bs
    (raw, bs2) ← read_ring raw_slots 0 bs1
    (down, bs3) ← read_ring down_slots down_slots bs2
    ok (record { raw = raw; down = down; cur_abs = word_slot cur }, bs3)

  unfoldable pub read_entries :
      ℕ → List (SeriesKey × Series) → Bytes → Result FileError (List (SeriesKey × Series))
  read_entries zero loaded bs = ok loaded
  read_entries (suc n) loaded bs = do
    (k, bs1) ← read_key bs
    (se, bs2) ← read_series bs1
    read_entries n (load_entry k se loaded) bs2

  -- decode, after the header's twelve bytes.
  unfoldable pub read_body : Bytes → Bytes → Result FileError (List (SeriesKey × Series))
  read_body hdr body =
      if not (of_le (slice 0 4 hdr) == file_magic)
      then err bad_magic
      else if not (of_le (slice 4 8 hdr) == file_version)
      then err bad_version
      else read_entries (of_le (slice 8 12 hdr)) [] body

  unfoldable pub decode : Bytes → Result FileError (List (SeriesKey × Series))
  decode bs = do (hdr, body) ← read_or short_read 12 bs; read_body hdr body
