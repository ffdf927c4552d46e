-- ===== src/Wire/Words.antt =====
-- Words and their bytes determine each other, and reading gives back what was written.
use zattera_dev.Base.{
  ℕ, zero, suc, ◌+◌, ◌*◌, ◌^◌, ◌<◌, ◌≡◌, refl, sym, ◌%◌, ap, ◌∙◌, arith, Option-cases, inl, inr,
  subst, true, ◌/◌,
}
use zattera_dev.Base.{[], ◌∷◌, ◌++◌, none, some, length, length-append, all, ltb}
use zattera_dev.Wire.{
  Result, ok, ◌>>=◌, read_or, Bytes, IsBytes, read_full, le, of_le, be, of_be, bytes_eq,
}
use mathlib.Core.List.{reverse, reverse-reverse, reverse-cons}

pub length-le : (w n : ℕ) → length (le w n) ≡ w
unfolding le
length-le zero n = refl
length-le (suc w) n = ap suc (length-le w _)

length-reverse : (bs : Bytes) → length (reverse bs) ≡ length bs
length-reverse [] = refl
length-reverse (b ∷ bs) =
    ap length (reverse-cons b bs)
    ∙ omega (arith, length-append (reverse bs) (b ∷ []), length-reverse bs)

pub length-be : (w n : ℕ) → length (be w n) ≡ w
unfolding be
length-be w n = length-reverse (le w n) ∙ length-le w n

power_suc : (w : ℕ) → 256 ^ suc w ≡ 256 * 256 ^ w
power_suc w = grind arith

pub of_le-le : (w n : ℕ) → n < 256 ^ w → of_le (le w n) ≡ n
unfolding le of_le
of_le-le zero n h = omega arith
of_le-le (suc w) n h = omega (arith, of_le-le w (n / 256) (omega (arith, power_suc w)), power_suc w)

pub of_be-be : (w n : ℕ) → n < 256 ^ w → of_be (be w n) ≡ n
unfolding be of_be
of_be-be w n h = ap of_le (reverse-reverse (le w n)) ∙ of_le-le w n h

pub le-of_le : (bs : Bytes) → IsBytes bs → le (length bs) (of_le bs) ≡ bs
unfolding le of_le
le-of_le [] h = refl
le-of_le (b ∷ bs) h =
    let low : (b + 256 * of_le bs) % 256 ≡ b = omega (arith, h.0) in
    let high : (b + 256 * of_le bs) / 256 ≡ of_le bs = omega (arith, h.0) in
    cc (low, high, le-of_le bs h.1)

pub IsBytes-append : (xs ys : Bytes) → IsBytes xs → IsBytes ys → IsBytes (xs ++ ys)
IsBytes-append [] ys hx hy = hy
IsBytes-append (x ∷ xs) ys hx hy = (hx.0, IsBytes-append xs ys hx.1 hy)

reverse-IsBytes : (bs : Bytes) → IsBytes bs → IsBytes (reverse bs)
reverse-IsBytes [] h = tt
reverse-IsBytes (b ∷ bs) h =
    subst IsBytes (sym (reverse-cons b bs))
      (IsBytes-append (reverse bs) (b ∷ []) (reverse-IsBytes bs h.1) (h.0, tt))

pub be-of_be : (bs : Bytes) → IsBytes bs → be (length bs) (of_be bs) ≡ bs
unfolding be of_be
be-of_be bs h =
    ap (λ n. reverse (le n (of_le (reverse bs)))) (sym (length-reverse bs))
    ∙ ap reverse (le-of_le (reverse bs) (reverse-IsBytes bs h))
    ∙ reverse-reverse bs

pub of_le_bound : (bs : Bytes) → IsBytes bs → of_le bs < 256 ^ length bs
unfolding of_le
of_le_bound [] h = omega arith
of_le_bound (b ∷ bs) h = omega (arith, h.0, of_le_bound bs h.1, power_suc (length bs))

pub of_be_bound : (bs : Bytes) → IsBytes bs → of_be bs < 256 ^ length bs
unfolding of_be
of_be_bound bs h =
    omega (
      arith,
      of_le_bound (reverse bs) (reverse-IsBytes bs h),
      ap (λ n. 256 ^ n) (length-reverse bs),
    )

-- What was written is read back whole, and what follows is left.
pub read_full-append : (xs ys : Bytes) → read_full (length xs) (xs ++ ys) ≡ some (xs, ys)
unfolding read_full
read_full-append [] ys = refl
read_full-append (x ∷ xs) ys = rw (read_full-append xs ys) refl

-- What a read returned stood in front of what it left.
pub read_full_inv :
    (n : ℕ) (bs xs ys : Bytes) → read_full n bs ≡ some (xs, ys) → (bs ≡ xs ++ ys) × (length xs ≡ n)
unfolding read_full
read_full_inv zero bs xs ys e = ground arith
read_full_inv (suc n) [] xs ys e = ground arith
read_full_inv (suc n) (b ∷ bs) xs ys e = elim (Option-cases (read_full n bs)) [
  | inl h ↦ absurd (ground (arith, h))
  | inr ((front, back), h) ↦ ground (arith, h, read_full_inv n bs front back h)
]

pub read_full_short : (n : ℕ) (bs : Bytes) → length bs < n → read_full n bs ≡ none
unfolding read_full
read_full_short zero bs h = absurd (omega arith)
read_full_short (suc n) [] h = refl
read_full_short (suc n) (b ∷ bs) h = rw (read_full_short n bs (omega arith)) refl

pub bytes_eq_refl : (bs : Bytes) → bytes_eq bs bs ≡ true
unfolding bytes_eq
bytes_eq_refl [] = refl
bytes_eq_refl (b ∷ bs) = ground (arith, bytes_eq_refl bs)

pub bytes_eq→eq : (xs ys : Bytes) → bytes_eq xs ys ≡ true → xs ≡ ys
unfolding bytes_eq
bytes_eq→eq [] [] e = refl
bytes_eq→eq [] (y ∷ ys) e = ground arith
bytes_eq→eq (x ∷ xs) [] e = ground arith
bytes_eq→eq (x ∷ xs) (y ∷ ys) e = ground (arith, bytes_eq→eq xs ys)

-- A step of a reader that succeeded, and what comes after it.
pub bind_ok {ℓ κ} :
    {E : Type 0} {A : Type ℓ} {B : Type κ} (r : Result E A) (f : A → Result E B) (a : A)
    (c : Result E B)
    → r ≡ ok a
    → f a ≡ c
    → (r >>= f) ≡ c
bind_ok r f a c e e' = ap (λ q. q >>= f) e ∙ e'

pub read_or-append :
    {E : Type 0} (e : E) (xs ys : Bytes) → read_or e (length xs) (xs ++ ys) ≡ ok (xs, ys)
read_or-append e xs ys = rw (read_full-append xs ys, read_or) refl

-- A test of every byte.
pub bytes_check : (bs : Bytes) → all (λ b. ltb b 256) bs ≡ true → IsBytes bs
bytes_check [] h = tt
bytes_check (b ∷ bs) h = (ground arith, bytes_check bs (ground arith))
