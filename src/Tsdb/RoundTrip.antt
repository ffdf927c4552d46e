-- ===== src/Tsdb/RoundTrip.antt =====
-- A store file is read back as it was written.
use zattera_dev.Base.{
  ℕ, suc, ◌%◌, ◌^◌, ◌<◌, ◌≡◌, refl, sym, ap, ◌∙◌, arith, false, not, List, [], ◌∷◌, ◌++◌, ◌==◌,
  length, map, All, slice, if_false,
}
use zattera_dev.Wire.{Bytes, Result, ok, read_or, le, of_le}
use zattera_dev.Wire.Words.{of_le-le, read_or-append, bind_ok}
use zattera_dev.Tsdb.{SeriesKey, Series, Ring, key_eq}
use zattera_dev.Tsdb.File.{
  file_magic, file_version, FileError, short_read, write_words, read_words, slot_word, write_key,
  write_series, write_entries, encode, load_entry, read_ring, write_ring, read_series, read_entries,
  read_body, decode,
}
use mathlib.Core.List.{append_assoc, append-nil}
use zattera_dev.Tsdb.Slots.{
  read_le, read_words-write_words, IsStorable, read_key-write_key, IsSlot, word_slot-slot_word,
  slot_word_bound, slots_back, slots_bound, length-slots,
}

-- The slices have the ring's length, and every entry fits its word.
pub record IsFull (size : ℕ) (counted : ℕ) (r : Ring) : Type 0 where
  pub abs_len : length r.abs ≡ size
  pub val_len : length r.val ≡ size
  pub cnt_len : length r.cnt ≡ counted
  pub abs_fit : All IsSlot r.abs
  pub val_fit : All (λ x. x < 2 ^ 32) r.val
  pub cnt_fit : All (λ x. x < 2 ^ 16) r.cnt

-- A slice read with the length that it was written with.
read_sized :
    (w n : ℕ) (xs : List ℕ) (rest : Bytes)
    → length xs ≡ n
    → All (λ x. x < 256 ^ w) xs
    → read_words w n (write_words w xs ++ rest) ≡ ok (xs, rest)
read_sized w n xs rest e h =
    ap (λ k. read_words w k (write_words w xs ++ rest)) (sym e) ∙ read_words-write_words w xs rest h

module _ (size counted : ℕ) where
  read_ring-write_ring :
      (r : Ring) (rest : Bytes)
      → IsFull size counted r
      → read_ring size counted (write_ring r ++ rest) ≡ ok (r, rest)
  unfolding read_ring write_ring
  read_ring-write_ring r rest h =
      let a = write_words 8 (map slot_word r.abs) in
      let v = write_words 4 r.val in
      let c = write_words 2 r.cnt in
      let back : Ring → Result FileError (Ring × Bytes) = λ q. ok (q, rest) in
      ap (read_ring size counted)
        (append_assoc a (v ++ c) rest ∙ ap (λ t. a ++ t) (append_assoc v c rest))
      ∙ bind_ok _ _ (map slot_word r.abs, v ++ (c ++ rest)) (ok (r, rest))
          (read_sized 8 size (map slot_word r.abs) (v ++ (c ++ rest))
            (length-slots r.abs ∙ h.abs_len) (slots_bound r.abs h.abs_fit))
          (bind_ok _ _ (r.val, c ++ rest) (ok (r, rest))
            (read_sized 4 size r.val (c ++ rest) h.val_len h.val_fit)
            (bind_ok _ _ (r.cnt, rest) (ok (r, rest))
              (read_sized 2 counted r.cnt rest h.cnt_len h.cnt_fit)
              (ap (λ o. back (record r { abs = o })) (slots_back r.abs h.abs_fit))))

module _ (raw_slots down_slots : ℕ) where
  -- A series as the store makes them: the raw ring has no counts.
  pub record IsWritable (se : Series) : Type 0 where
    pub raw_full : IsFull raw_slots 0 se.raw
    pub down_full : IsFull down_slots down_slots se.down
    pub cur_fit : IsSlot se.cur_abs

  read_series-write_series :
      (se : Series) (rest : Bytes)
      → IsWritable se
      → read_series raw_slots down_slots (write_series se ++ rest) ≡ ok (se, rest)
  unfolding read_series write_series
  read_series-write_series se rest h =
      let w = le 8 (slot_word se.cur_abs) in
      let a = write_ring se.raw in
      let b = write_ring se.down in
      let back : Series → Result FileError (Series × Bytes) = λ q. ok (q, rest) in
      ap (read_series raw_slots down_slots)
        (append_assoc w (a ++ b) rest ∙ ap (λ t. w ++ t) (append_assoc a b rest))
      ∙ bind_ok _ _ (slot_word se.cur_abs, a ++ (b ++ rest)) (ok (se, rest))
          (read_le 8 (slot_word se.cur_abs) (a ++ (b ++ rest))
            (slot_word_bound se.cur_abs h.cur_fit))
          (bind_ok _ _ (se.raw, b ++ rest) (ok (se, rest))
            (read_ring-write_ring raw_slots 0 se.raw (b ++ rest) h.raw_full)
            (bind_ok _ _ (se.down, rest) (ok (se, rest))
              (read_ring-write_ring down_slots down_slots se.down rest h.down_full)
              (ap (λ o. back (record se { cur_abs = o }))
                (word_slot-slot_word se.cur_abs h.cur_fit))))

  abbrev pub Entries : Type 0
  Entries = List (SeriesKey × Series)

  -- No entry of the map has the key.
  abbrev pub Absent : SeriesKey → Entries → Type 0
  Absent k m = All (λ e. key_eq k e.0 ≡ false) m

  -- Each key is absent from the entries before it, and its entry can be written.
  abbrev pub IsSaved : Entries → Entries → Type 0
  IsSaved before [] = Unit
  IsSaved before ((k, se) ∷ m) =
      Absent k before × IsStorable k × IsWritable se × IsSaved (before ++ ((k, se) ∷ [])) m

  load_new :
      (k : SeriesKey) (se : Series) (m : Entries)
      → Absent k m
      → load_entry k se m ≡ m ++ ((k, se) ∷ [])
  unfolding load_entry
  load_new k se [] h = refl
  load_new k se ((j, other) ∷ m) h =
      if_false (key_eq k j) _ _ h.0 ∙ ap (λ t. (j, other) ∷ t) (load_new k se m h.1)

  read_entries-write_entries :
      (m before : Entries) (rest : Bytes)
      → IsSaved before m
      → read_entries raw_slots down_slots (length m) before (write_entries m ++ rest)
        ≡ ok (before ++ m)
  unfolding read_entries write_entries
  read_entries-write_entries [] before rest h = ap ok (sym (append-nil before))
  read_entries-write_entries ((k, se) ∷ m) before rest (new, storable, writable, later) =
      let kb = write_key k in
      let sb = write_series se in
      let more = write_entries m in
      let goal : Result FileError Entries = ok (before ++ ((k, se) ∷ m)) in
      ap (read_entries raw_slots down_slots (suc (length m)) before)
        (append_assoc (kb ++ sb) more rest ∙ append_assoc kb sb (more ++ rest))
      ∙ bind_ok _ _ (k, sb ++ (more ++ rest)) goal
          (read_key-write_key k (sb ++ (more ++ rest)) storable)
          (bind_ok _ _ (se, more ++ rest) goal (read_series-write_series se (more ++ rest) writable)
            (ap (λ t. read_entries raw_slots down_slots (length m) t (more ++ rest))
                (load_new k se before new)
              ∙ read_entries-write_entries m (before ++ ((k, se) ∷ [])) rest later
              ∙ ap ok (append_assoc before ((k, se) ∷ []) m)))

  -- The header's three words.
  header : ℕ → Bytes
  header n = le 4 file_magic ++ (le 4 file_version ++ le 4 n)

  magic_at : (n : ℕ) → of_le (slice 0 4 (header n)) ≡ file_magic
  unfolding header le of_le
  magic_at n = refl

  version_at : (n : ℕ) → of_le (slice 4 8 (header n)) ≡ file_version
  unfolding header le of_le
  version_at n = refl

  count_at : (n : ℕ) → slice 8 12 (header n) ≡ le 4 n
  unfolding header le
  count_at n = refl

  length-header : (n : ℕ) → length (header n) ≡ 12
  unfolding header le
  length-header n = refl

  whole_lem :
      (n : ℕ) (body : Bytes)
      → le 4 file_magic ++ (le 4 file_version ++ (le 4 n ++ body)) ≡ header n ++ body
  unfolding header le
  whole_lem n body = refl

  -- The checks of the header pass, and the entries are read.
  read_counted :
      (n count : ℕ) (body : Bytes) (r : Result FileError Entries)
      → of_le (slice 8 12 (header n)) ≡ count
      → read_entries raw_slots down_slots count [] body ≡ r
      → read_body raw_slots down_slots (header n) body ≡ r
  unfolding read_body
  read_counted n count body r e e' =
      if_false (not (of_le (slice 0 4 (header n)) == file_magic)) _ _
        (ap (λ k. not (k == file_magic)) (magic_at n))
      ∙ if_false (not (of_le (slice 4 8 (header n)) == file_version)) _ _
          (ap (λ k. not (k == file_version)) (version_at n))
      ∙ ap (λ c. read_entries raw_slots down_slots c [] body) e
      ∙ e'

  -- A store of fewer than 2^32 series with different keys, whose strings have at most 2^20 bytes and whose
  -- rings have the store's sizes, slot numbers below 2^63, 32-bit values and 16-bit counts, is read back
  -- from its file as it was: every series, under its key and in the order of the file.
  pub decode-encode :
      (m : Entries)
      → length m < 2 ^ 32
      → IsSaved [] m
      → decode raw_slots down_slots (encode m) ≡ ok m
  unfolding decode encode
  decode-encode m few h =
      let n = length m % 2 ^ 32 in
      let body = write_entries m in
      let same : n ≡ length m = omega arith in
      let whole : le 4 file_magic ++ (le 4 file_version ++ (le 4 n ++ body)) ≡ header n ++ body =
        whole_lem n body in
      let counted : of_le (slice 8 12 (header n)) ≡ length m =
        ap of_le (count_at n) ∙ of_le-le 4 n (omega arith) ∙ same in
      ap (decode raw_slots down_slots) whole
      ∙ bind_ok _ _ (header n, body) (ok m)
          (ap (λ k. read_or short_read k (header n ++ body)) (sym (length-header n))
            ∙ read_or-append short_read (header n) body)
          (read_counted n (length m) body (ok m) counted (
            ap (read_entries raw_slots down_slots (length m) []) (sym (append-nil body))
            ∙ read_entries-write_entries m [] [] h))
