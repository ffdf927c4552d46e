-- ===== src/Platform/Laws.antt =====
-- What Normalize and Supports of internal/pkgutil/platform promise.
use zattera_dev.Base.{
  ◌≡◌, refl, inl, inr, true, ◌||◌, some, List, [], ◌∷◌, ◌++◌, any, All, is_nil, arith, Option-cases,
  Bool-cases,
}
use zattera_dev.Platform.{
  Text, codes, eq_text, known_os, known_arch, arch_alias, checked, normalize, cut, to_lower,
  trim_space,
}

pub eq_text_sound : (s t : Text) → eq_text s t ≡ true → s ≡ t
unfolding eq_text
eq_text_sound [] [] h = refl
eq_text_sound [] (d ∷ t) h = cc
eq_text_sound (c ∷ s) [] h = cc
eq_text_sound (c ∷ s) (d ∷ t) h = ground (arith, eq_text_sound s t)

pub eq_text_refl : (s : Text) → eq_text s s ≡ true
unfolding eq_text
eq_text_refl [] = refl
eq_text_refl (c ∷ s) = ground (arith, eq_text_refl s)

-- What holds of every text of a list holds of a text that the list has.
any-elim :
    (P : Text → Type 0) (x : Text) (ys : List Text) → All P ys → any (eq_text x) ys ≡ true → P x
any-elim P x [] h e = absurd (ground arith)
any-elim P x (y ∷ ys) h e = elim (Bool-cases (eq_text x y)) [
  | inl same ↦ rw (eq_text_sound x y same) h.0
  | inr other ↦ any-elim P x ys h.1 (ground arith)
]

abbrev Stable : Text → Type 0
Stable p = normalize p ≡ some p

-- The 28 normal forms.
Stable-linux : All (λ arch. Stable (codes "linux" ++ b'/' ∷ arch)) known_arch
unfolding normalize
Stable-linux = (refl, (refl, (refl, (refl, (refl, (refl, (refl, tt)))))))

Stable-darwin : All (λ arch. Stable (codes "darwin" ++ b'/' ∷ arch)) known_arch
unfolding normalize
Stable-darwin = (refl, (refl, (refl, (refl, (refl, (refl, (refl, tt)))))))

Stable-windows : All (λ arch. Stable (codes "windows" ++ b'/' ∷ arch)) known_arch
unfolding normalize
Stable-windows = (refl, (refl, (refl, (refl, (refl, (refl, (refl, tt)))))))

Stable-freebsd : All (λ arch. Stable (codes "freebsd" ++ b'/' ∷ arch)) known_arch
unfolding normalize
Stable-freebsd = (refl, (refl, (refl, (refl, (refl, (refl, (refl, tt)))))))

All-Stable : All (λ os. All (λ arch. Stable (os ++ b'/' ∷ arch)) known_arch) known_os
All-Stable = (Stable-linux, (Stable-darwin, (Stable-windows, (Stable-freebsd, tt))))

checked-Stable : (os arch : Text) {p : Text} → checked os arch ≡ some p → Stable p
unfolding checked
checked-Stable os arch h = elim (Bool-cases (any (eq_text os) known_os)) [
  | inr bad ↦ absurd (ground arith)
  | inl good ↦ elim (Bool-cases (any (eq_text arch) known_arch)) [
    | inr bad ↦ absurd (ground arith)
    | inl fine ↦
        let stable : Stable (os ++ b'/' ∷ arch) =
          any-elim (λ a. Stable (os ++ b'/' ∷ a)) arch known_arch
            (any-elim (λ o. All (λ a. Stable (o ++ b'/' ∷ a)) known_arch) os known_os All-Stable
              good)
            fine in
        ground arith
  ]
]

-- A platform string that Normalize accepts is in normal form: normalizing it again accepts it and
-- changes nothing.
pub normalize_idem : (s : Text) {p : Text} → normalize s ≡ some p → normalize p ≡ some p
unfolding normalize
normalize_idem s h = elim (Option-cases (cut (to_lower (trim_space s)))) [
  | inl e ↦ absurd (ground arith)
  | inr ((os, arch), e) ↦ elim (Bool-cases (is_nil os || is_nil arch)) [
    | inl bad ↦ absurd (ground arith)
    | inr fine ↦ checked-Stable os (arch_alias arch) (ground arith)
  ]
]
