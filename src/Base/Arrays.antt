-- ===== src/Base/Arrays.antt =====
-- Fixed arrays as lists: reads and writes by index.
use Prim.Native.Nat.{ℕ, zero, suc, ◌<◌}
use mathlib.Core.Path.{◌≡◌, refl, ap}
use mathlib.Core.Logic.{◌≢◌}
use mathlib.Core.Option.{Option, none, some}
use mathlib.Core.List.{List, [], ◌∷◌}
use native.Mathlib.Omega.{arith}
use zattera_dev.Base.Lists.{length}

module _ {ℓ} {A : Type ℓ} where
  abbrev pub nth : ℕ → List A → Option A
  nth i [] = none
  nth zero (x ∷ xs) = some x
  nth (suc i) (x ∷ xs) = nth i xs

  abbrev pub set_nth : ℕ → A → List A → List A
  set_nth i v [] = []
  set_nth zero v (x ∷ xs) = v ∷ xs
  set_nth (suc i) v (x ∷ xs) = x ∷ set_nth i v xs

  abbrev pub repeat : ℕ → A → List A
  repeat zero x = []
  repeat (suc n) x = x ∷ repeat n x

  pub length-set_nth : (i : ℕ) (v : A) (xs : List A) → length (set_nth i v xs) ≡ length xs
  length-set_nth i v [] = refl
  length-set_nth zero v (x ∷ xs) = refl
  length-set_nth (suc i) v (x ∷ xs) = ap suc (length-set_nth i v xs)

  pub length-repeat : (n : ℕ) (x : A) → length (repeat n x) ≡ n
  length-repeat zero x = refl
  length-repeat (suc n) x = ap suc (length-repeat n x)

  pub nth-set_nth_self :
      (i : ℕ) (v : A) (xs : List A) → i < length xs → nth i (set_nth i v xs) ≡ some v
  nth-set_nth_self i v [] h = absurd (omega arith)
  nth-set_nth_self zero v (x ∷ xs) h = refl
  nth-set_nth_self (suc i) v (x ∷ xs) h = nth-set_nth_self i v xs (omega arith)

  pub nth-set_nth_ne : (i j : ℕ) (v : A) (xs : List A) → j ≢ i → nth j (set_nth i v xs) ≡ nth j xs
  nth-set_nth_ne i j v [] h = refl
  nth-set_nth_ne zero zero v (x ∷ xs) h = absurd (h refl)
  nth-set_nth_ne zero (suc j) v (x ∷ xs) h = refl
  nth-set_nth_ne (suc i) zero v (x ∷ xs) h = refl
  nth-set_nth_ne (suc i) (suc j) v (x ∷ xs) h = nth-set_nth_ne i j v xs (λ e. h (ap suc e))

  pub nth-repeat : (i n : ℕ) (x y : A) → nth i (repeat n x) ≡ some y → x ≡ y
  nth-repeat i zero x y e = absurd (cc e)
  nth-repeat zero (suc n) x y e = cc e
  nth-repeat (suc i) (suc n) x y e = nth-repeat i n x y e
