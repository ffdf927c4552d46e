-- ===== src/Tsdb/Slots.antt =====
-- Words, strings, keys and slot numbers are read back from a store file as they were written.
use zattera_dev.Base.{
  ℕ, suc, ◌-◌, ◌%◌, ◌^◌, ◌≤◌, ◌<◌, ◌≡◌, refl, sym, ap, ◌∙◌, arith, List, [], ◌∷◌, ◌++◌, Option,
  none, some, ltb, ◌==◌, length, map, All, if_false,
}
use zattera_dev.Wire.{Bytes, ok, read_or, le}
use zattera_dev.Wire.Words.{length-le, of_le-le, read_or-append, bind_ok}
use zattera_dev.Tsdb.{SeriesKey}
use zattera_dev.Tsdb.File.{
  max_string, short_read, read_word, write_words, read_words, slot_word, word_slot, write_string,
  read_string, write_key, read_key,
}
use mathlib.Core.List.{append_assoc}

-- Words read from a file, and what follows them.
pub read_le : (w n : ℕ) (rest : Bytes) → n < 256 ^ w → read_word w (le w n ++ rest) ≡ ok (n, rest)
unfolding read_word
read_le w n rest h =
    bind_ok _ _ (le w n, rest) _
      (ap (λ k. read_or short_read k (le w n ++ rest)) (sym (length-le w n))
        ∙ read_or-append short_read (le w n) rest)
      (ap (λ k. ok (k, rest)) (of_le-le w n h))

pub read_words-write_words :
    (w : ℕ) (xs : List ℕ) (rest : Bytes)
    → All (λ x. x < 256 ^ w) xs
    → read_words w (length xs) (write_words w xs ++ rest) ≡ ok (xs, rest)
unfolding write_words read_words
read_words-write_words w [] rest h = refl
read_words-write_words w (x ∷ xs) rest h =
    ap (read_words w (suc (length xs))) (append_assoc (le w x) (write_words w xs) rest)
    ∙ bind_ok _ _ (x, write_words w xs ++ rest) _ (read_le w x (write_words w xs ++ rest) h.0)
        (bind_ok _ _ (xs, rest) _ (read_words-write_words w xs rest h.1) refl)

read_string-write_string :
    (str rest : Bytes)
    → length str ≤ max_string
    → read_string (write_string str ++ rest) ≡ ok (str, rest)
unfolding read_string write_string
read_string-write_string str rest h =
    let small : length str % 2 ^ 32 ≡ length str = omega arith in
    ap read_string (append_assoc (le 4 (length str % 2 ^ 32)) str rest)
    ∙ bind_ok _ _ (length str, str ++ rest) _
        (ap (λ n. read_word 4 (le 4 n ++ (str ++ rest))) small
          ∙ read_le 4 (length str) (str ++ rest) (omega arith))
        (if_false (ltb max_string (length str)) _ _ (ground arith)
          ∙ read_or-append short_read str rest)

-- A key whose strings decode does not refuse.
abbrev pub IsStorable : SeriesKey → Type 0
IsStorable k =
    (length k.metric ≤ max_string)
    × (length k.scope ≤ max_string)
    × (length k.scope_id ≤ max_string)

pub read_key-write_key :
    (k : SeriesKey) (rest : Bytes) → IsStorable k → read_key (write_key k ++ rest) ≡ ok (k, rest)
unfolding read_key write_key
read_key-write_key k rest h =
    let m = write_string k.metric in
    let s = write_string k.scope in
    let i = write_string k.scope_id in
    ap read_key (append_assoc m (s ++ i) rest ∙ ap (λ t. m ++ t) (append_assoc s i rest))
    ∙ bind_ok _ _ (k.metric, s ++ (i ++ rest)) _ (read_string-write_string k.metric _ h.0)
        (bind_ok _ _ (k.scope, i ++ rest) _ (read_string-write_string k.scope _ h.1)
          (bind_ok _ _ (k.scope_id, rest) _ (read_string-write_string k.scope_id rest h.2) refl))

-- Slot numbers are below 2^63, as those of an int64 are.
abbrev pub IsSlot : Option ℕ → Type 0
IsSlot none = Unit
IsSlot (some abs) = abs < 2 ^ 63

pub word_slot-slot_word : (o : Option ℕ) → IsSlot o → word_slot (slot_word o) ≡ o
unfolding word_slot slot_word
word_slot-slot_word none h = refl
word_slot-slot_word (some abs) h = if_false (abs == 2 ^ 64 - 1) none (some abs) (ground arith)

pub slot_word_bound : (o : Option ℕ) → IsSlot o → slot_word o < 256 ^ 8
unfolding slot_word
slot_word_bound none h = omega arith
slot_word_bound (some abs) h = omega arith

pub slots_back : (os : List (Option ℕ)) → All IsSlot os → map word_slot (map slot_word os) ≡ os
slots_back [] h = refl
slots_back (o ∷ os) h = cc (word_slot-slot_word o h.0, slots_back os h.1)

pub slots_bound : (os : List (Option ℕ)) → All IsSlot os → All (λ x. x < 256 ^ 8) (map slot_word os)
slots_bound [] h = tt
slots_bound (o ∷ os) h = (slot_word_bound o h.0, slots_bound os h.1)

pub length-slots : (os : List (Option ℕ)) → length (map slot_word os) ≡ length os
length-slots [] = refl
length-slots (o ∷ os) = ap suc (length-slots os)
