-- ===== src/Wire.antt =====
-- The byte-level helpers the codecs call: encoding/binary's fixed-width words in both byte orders,
-- io.ReadFull, and errors as values. A byte slice, a string or what a connection still holds is the
-- list of its bytes.
pub mod Words
use zattera_dev.Base.{ℕ, zero, suc, ◌+◌, ◌*◌, ◌/◌, ◌%◌, ◌<◌, Bool, true, false, ◌&&◌, ◌==◌}
use zattera_dev.Base.{List, [], ◌∷◌, Option, none, some, All}
use mathlib.Core.List.{reverse}

abbrev pub Bytes : Type 0
Bytes = List ℕ

abbrev pub IsByte : ℕ → Type 0
IsByte b = b < 256

abbrev pub IsBytes : Bytes → Type 0
IsBytes = All IsByte

-- Go's (value, error) pair.
pub data Result {ℓ} (E : Type 0) (A : Type ℓ) : Type ℓ where
  ok : A → Result E A
  err : E → Result E A

infixl 5 ◌>>=◌
abbrev pub ◌>>=◌ {ℓ κ} :
    {E : Type 0} {A : Type ℓ} {B : Type κ} → Result E A → (A → Result E B) → Result E B
ok a >>= f = f a
err e >>= f = err e

-- io.ReadFull: exactly `n` bytes and what follows them, or an error when fewer are left.
unfoldable pub read_full : ℕ → Bytes → Option (Bytes × Bytes)
read_full zero bs = some ([], bs)
read_full (suc n) [] = none
read_full (suc n) (b ∷ bs) = elim (read_full n bs) [
  | none ↦ none
  | some (front, back) ↦ some (b ∷ front, back)
]

-- io.ReadFull with its error named.
abbrev pub read_or : {E : Type 0} → E → ℕ → Bytes → Result E (Bytes × Bytes)
read_or e n bs = elim (read_full n bs) [ none ↦ err e | some r ↦ ok r ]

-- binary.LittleEndian.PutUint and Uint on `w` bytes.
unfoldable pub le : ℕ → ℕ → Bytes
le zero n = []
le (suc w) n = n % 256 ∷ le w (n / 256)

unfoldable pub of_le : Bytes → ℕ
of_le [] = 0
of_le (b ∷ bs) = b + 256 * of_le bs

-- binary.BigEndian: the same bytes, the other way round.
unfoldable pub be : ℕ → ℕ → Bytes
unfolding le
be w n = reverse (le w n)

unfoldable pub of_be : Bytes → ℕ
unfolding of_le
of_be bs = of_le (reverse bs)

-- bytes.Equal.
unfoldable pub bytes_eq : Bytes → Bytes → Bool
bytes_eq [] [] = true
bytes_eq [] (_ ∷ _) = false
bytes_eq (_ ∷ _) [] = false
bytes_eq (x ∷ xs) (y ∷ ys) = (x == y) && bytes_eq xs ys
