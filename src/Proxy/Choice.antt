-- ===== src/Proxy/Choice.antt =====
-- What the balancer picks.
use zattera_dev.Base.{
  ℕ, zero, suc, ◌≤◌, ◌<◌, ◌≡◌, ◌≢◌, ◌⊎◌, refl, sym, ap, ◌∙◌, arith, Bool, true, false, not, ◌&&◌,
  List, [], ◌∷◌, none, some, ltb, ◌==◌, if◌then◌else◌, filter, length, Exists, Exists-filter, inl,
  inr,
}
use zattera_dev.Base.Arrays.{nth}
use zattera_dev.Proxy.{
  Endpoint, Balancer, load, is_available, better, second_draw, two_choices, choose, pick,
}

nth_in : (i : ℕ) (es : List Endpoint) → i < length es → (e : Endpoint) × (nth i es ≡ some e)
nth_in i [] h = absurd (omega arith)
nth_in zero (e ∷ es) h = (e, refl)
nth_in (suc i) (e ∷ es) h = nth_in i es (omega arith)

nth-Exists :
    (i : ℕ) (es : List Endpoint) (e : Endpoint) → nth i es ≡ some e → Exists (λ x. x ≡ e) es
nth-Exists i [] e h = absurd (cc h)
nth-Exists zero (x ∷ es) e h = inl (cc h)
nth-Exists (suc i) (x ∷ es) e h = inr (nth-Exists i es e h)

-- One of two endpoints, that carries no more than either.
abbrev pub IsBetter : Balancer → Endpoint → Endpoint → Endpoint → Type 0
IsBetter b a c r =
    ((r ≡ a) ⊎ (r ≡ c)) × (load b r.addr ≤ load b a.addr) × (load b r.addr ≤ load b c.addr)

if_Better :
    (b : Balancer) (a c : Endpoint) (test : Bool) (r r' : Endpoint)
    → (test ≡ true → IsBetter b a c r)
    → (test ≡ false → IsBetter b a c r')
    → IsBetter b a c (if test then r else r')
if_Better b a c true r r' h h' = h refl
if_Better b a c false r r' h h' = h' refl

better-Better : (b : Balancer) (a c : Endpoint) → IsBetter b a c (better b a c)
unfolding better
better-Better b a c =
    let la = load b a.addr in
    let lc = load b c.addr in
    if_Better b a c (not (la == lc)) _ _
      (λ _.
        if_Better b a c (ltb la lc) _ _ (λ e. (inl refl, omega arith, ground (arith, e)))
          (λ e. (inr refl, ground (arith, e), omega arith)))
      (λ tie.
        let same : la ≡ lc = ground (arith, tie) in
        let first : IsBetter b a c a = (inl refl, omega arith, omega (arith, same)) in
        if_Better b a c ((a.node_id == b.local) && not (c.node_id == b.local)) _ _ (λ _. first)
          (λ _.
            if_Better b a c ((c.node_id == b.local) && not (a.node_id == b.local)) _ _
              (λ _. (inr refl, omega (arith, same), omega arith)) (λ _. first)))

-- Two draws in range are two endpoints.
abbrev pub InRange : ℕ → ℕ → ℕ → Type 0
InRange n i j = 2 ≤ n → (i < n) × (suc j < n)

-- The endpoint is in the list, and where there are two it is the better of two at different places.
abbrev pub IsChosen : Balancer → List Endpoint → Endpoint → Type 0
IsChosen b avail e =
    Exists (λ x. x ≡ e) avail
    × (2 ≤ length avail
        → (i : ℕ) × (k : ℕ) × (a : Endpoint) × (c : Endpoint) × (i ≢ k)
          × (nth i avail ≡ some a)
          × (nth k avail ≡ some c)
          × IsBetter b a c e)

second_draw-apart : (i j : ℕ) → i ≢ second_draw i j
unfolding second_draw
second_draw-apart i j e = ground (arith, e)

second_draw-room : (i j n : ℕ) → i < n → suc j < n → second_draw i j < n
unfolding second_draw
second_draw-room i j n hi hj = ground arith

two_choices_ok :
    (b : Balancer) (avail : List Endpoint) (i j : ℕ) (a c : Endpoint)
    → nth i avail ≡ some a
    → nth (second_draw i j) avail ≡ some c
    → two_choices b avail i j ≡ some (better b a c)
unfolding two_choices
two_choices_ok b avail i j a c e e' = rw (e, e', two_choices) refl

two_choices-Chosen :
    (b : Balancer) (avail : List Endpoint) (i j : ℕ)
    → i < length avail
    → suc j < length avail
    → (e : Endpoint) × (two_choices b avail i j ≡ some e) × IsChosen b avail e
two_choices-Chosen b avail i j hi hj =
    let k = second_draw i j in
    let apart : i ≢ k = second_draw-apart i j in
    let room : k < length avail = second_draw-room i j (length avail) hi hj in
    let (a, at_i) = nth_in i avail hi in
    let (c, at_k) = nth_in k avail room in
    let better_one = better-Better b a c in
    (
      better b a c,
      two_choices_ok b avail i j a c at_i at_k,
      (
        elim better_one.0 [
          | inl is_a ↦ nth-Exists i avail _ (at_i ∙ ap some (sym is_a))
          | inr is_c ↦ nth-Exists k avail _ (at_k ∙ ap some (sym is_c))
        ],
        (λ _. (i, k, a, c, apart, at_i, at_k, better_one)),
      ),
    )

choose-Chosen :
    (b : Balancer) (avail : List Endpoint) (i j : ℕ)
    → InRange (length avail) i j
    → ((avail ≡ []) × (choose b avail i j ≡ none))
      ⊎ ((e : Endpoint) × (choose b avail i j ≡ some e) × IsChosen b avail e)
unfolding choose
choose-Chosen b [] i j draws = inl (refl, refl)
choose-Chosen b (e ∷ []) i j draws = inr (e, refl, (inl refl, λ h. absurd (omega arith)))
choose-Chosen b (e ∷ f ∷ es) i j draws =
    let (hi, hj) = draws (omega arith) in inr (two_choices-Chosen b (e ∷ f ∷ es) i j hi hj)

-- With two draws in range: the balancer picks none exactly when no endpoint is both healthy and under the
-- cap; otherwise it picks one of those, and where there are several, the one of two at different places
-- that has no more requests in flight than the other.
pub pick-Chosen :
    (b : Balancer) (eps : List Endpoint) (i j max_conc : ℕ)
    → InRange (length (filter (is_available b max_conc) eps)) i j
    → ((filter (is_available b max_conc) eps ≡ []) × (pick b eps i j max_conc ≡ none))
      ⊎ ((e : Endpoint) × (pick b eps i j max_conc ≡ some e)
          × Exists (λ x. (is_available b max_conc x ≡ true) × (x ≡ e)) eps
          × IsChosen b (filter (is_available b max_conc) eps) e)
unfolding pick
pick-Chosen b eps i j max_conc draws =
    elim (choose-Chosen b (filter (is_available b max_conc) eps) i j draws) [
      | inl empty ↦ inl empty
      | inr (e, picked, chosen) ↦
          inr (e, picked, Exists-filter (λ x. x ≡ e) (is_available b max_conc) eps chosen.0, chosen)
    ]
