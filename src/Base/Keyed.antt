-- ===== src/Base/Keyed.antt =====
-- A Go map from ids to values, as an association list in the order of its keys: the order in which
-- the list methods of internal/state return the values (sortByID).
use Prim.Native.Nat.{ℕ, suc, ◌≤◌, ◌<◌}
use mathlib.Core.Path.{◌≡◌, refl, sym, ◌∙◌}
use mathlib.Core.Option.{Option, none, some}
use mathlib.Core.List.{List, [], ◌∷◌}
use native.Mathlib.Omega.{arith}
use zattera_dev.Base.Tests.{if◌then◌else◌, ltb, ◌==◌}
use zattera_dev.Base.Lists.{All}

abbrev pub Table {ℓ} : Type ℓ → Type ℓ
Table A = List (ℕ × A)

module _ {ℓ} {A : Type ℓ} where
  unfoldable pub get : ℕ → Table A → Option A
  get k [] = none
  get k ((j, a) ∷ t) = if k == j then some a else get k t

  unfoldable pub put : ℕ → A → Table A → Table A
  put k a [] = (k, a) ∷ []
  put k a ((j, b) ∷ t) =
      if k == j then (k, a) ∷ t else if ltb k j then (k, a) ∷ (j, b) ∷ t else (j, b) ∷ put k a t

  unfoldable pub delete : ℕ → Table A → Table A
  delete k [] = []
  delete k ((j, b) ∷ t) = if k == j then t else (j, b) ∷ delete k t

  unfoldable pub values : Table A → List A
  values [] = []
  values ((j, b) ∷ t) = b ∷ values t

  -- Keys grow along the table and stay at or above the bound.
  abbrev pub Ordered : ℕ → Table A → Type 0
  Ordered n [] = Unit {0}
  Ordered n ((j, b) ∷ t) = (n ≤ j) × Ordered (suc j) t

  pub Ordered-mono : (m n : ℕ) (t : Table A) → m ≤ n → Ordered n t → Ordered m t
  Ordered-mono m n [] h o = tt
  Ordered-mono m n ((j, b) ∷ t) h o = (omega arith, o.1)

  pub put-Ordered : (n k : ℕ) (a : A) (t : Table A) → n ≤ k → Ordered n t → Ordered n (put k a t)
  unfolding put
  put-Ordered n k a [] h o = (h, tt)
  put-Ordered n k a ((j, b) ∷ t) h o =
      ground (arith, put-Ordered (suc j) k a t, Ordered-mono (suc k) (suc j) t)

  pub delete-Ordered : (n k : ℕ) (t : Table A) → Ordered n t → Ordered n (delete k t)
  unfolding delete
  delete-Ordered n k [] o = tt
  delete-Ordered n k ((j, b) ∷ t) o =
      ground (arith, delete-Ordered (suc j) k t o.1, Ordered-mono n (suc j) t)

  pub get_below : (k n : ℕ) (t : Table A) → Ordered n t → k < n → get k t ≡ none
  unfolding get
  get_below k n [] o h = refl
  get_below k n ((j, b) ∷ t) o h = ground (arith, get_below k (suc j) t o.1)

  pub get-put :
      (k j : ℕ) (a : A) (t : Table A) → get k (put j a t) ≡ (if k == j then some a else get k t)
  unfolding get put
  get-put k j a [] = refl
  get-put k j a ((i, b) ∷ t) = ground (arith, get-put k j a t)

  pub get-delete :
      (k j n : ℕ) (t : Table A)
      → Ordered n t
      → get k (delete j t) ≡ (if k == j then none else get k t)
  unfolding get delete
  get-delete k j n [] o = ground arith
  get-delete k j n ((i, b) ∷ t) o =
      ground (arith, get-delete k j (suc i) t o.1, get_below k (suc i) t o.1)

  -- A property of every entry is a property of what a lookup returns, and of the values listed.
  abbrev pub Entries {κ} : (ℕ → A → Type κ) → Table A → Type κ
  Entries P [] = Unit
  Entries P ((j, b) ∷ t) = P j b × Entries P t

  pub put-Entries {κ} :
      (P : ℕ → A → Type κ) (k : ℕ) (a : A) (t : Table A)
      → P k a
      → Entries P t
      → Entries P (put k a t)
  unfolding put
  put-Entries P k a [] p h = (p, tt)
  put-Entries P k a ((j, b) ∷ t) p h = let rest = put-Entries P k a t p h.1 in ground (arith, rest)

  pub delete-Entries {κ} :
      (P : ℕ → A → Type κ) (k : ℕ) (t : Table A) → Entries P t → Entries P (delete k t)
  unfolding delete
  delete-Entries P k [] h = tt
  delete-Entries P k ((j, b) ∷ t) h = let rest = delete-Entries P k t h.1 in ground (arith, rest)

  pub Entries-values {κ} :
      (P : A → Type κ) (t : Table A) → Entries (λ _ a. P a) t → All P (values t)
  unfolding values
  Entries-values P [] h = tt
  Entries-values P ((j, b) ∷ t) h = (h.0, Entries-values P t h.1)

module _ {A : Type 0} where
  get_head : (k : ℕ) (a : A) (t : Table A) → get k ((k, a) ∷ t) ≡ some a
  unfolding get
  get_head k a t = ground arith

  get_cons_lt :
      (k j : ℕ) (a : A) (t : Table A) → Ordered (suc j) t → k < j → get k ((j, a) ∷ t) ≡ none
  unfolding get
  get_cons_lt k j a t o h = ground (arith, get_below k (suc j) t o)

  get_cons_gt : (k j : ℕ) (a : A) (t : Table A) → j < k → get k ((j, a) ∷ t) ≡ get k t
  unfolding get
  get_cons_gt k j a t h = ground arith

  nil_none : (k : ℕ) → get {A = A} k [] ≡ none
  unfolding get
  nil_none k = refl

  -- The heads of two tables with the same lookups.
  heads_agree :
      (i j : ℕ) (a b : A) (t u : Table A)
      → Ordered (suc i) t
      → Ordered (suc j) u
      → ((k : ℕ) → get k ((i, a) ∷ t) ≡ get k ((j, b) ∷ u))
      → (i ≡ j) × (a ≡ b)
  heads_agree i j a b t u o p h = ground (
    arith,
    h i,
    h j,
    get_head i a t,
    get_head j b u,
    get_cons_lt i j b u p,
    get_cons_lt j i a t o,
  )

  tails_agree :
      (i j : ℕ) (a b : A) (t u : Table A)
      → Ordered (suc i) t
      → Ordered (suc j) u
      → i ≡ j
      → ((k : ℕ) → get k ((i, a) ∷ t) ≡ get k ((j, b) ∷ u))
      → (k : ℕ) → get k t ≡ get k u
  tails_agree i j a b t u o p e h k = ground (
    arith,
    h k,
    get_cons_gt k i a t,
    get_cons_gt k j b u,
    get_below k (suc i) t o,
    get_below k (suc j) u p,
  )

  -- A table is determined by its lookups.
  pub table_ext :
      (n m : ℕ) (t u : Table A) → Ordered n t → Ordered m u → ((k : ℕ) → get k t ≡ get k u) → t ≡ u
  table_ext n m [] [] o p h = refl
  table_ext n m [] ((j, b) ∷ u) o p h = absurd (ground (arith, h j ∙ get_head j b u, nil_none j))
  table_ext n m ((i, a) ∷ t) [] o p h =
      absurd (ground (arith, sym (h i) ∙ get_head i a t, nil_none i))
  table_ext n m ((i, a) ∷ t) ((j, b) ∷ u) o p h =
      let e = heads_agree i j a b t u o.1 p.1 h in
      cc (e.0, e.1, table_ext (suc i) (suc j) t u o.1 p.1 (tails_agree i j a b t u o.1 p.1 e.0 h))
