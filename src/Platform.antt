-- ===== src/Platform.antt =====
-- internal/pkgutil/platform: OCI platform strings, their normal form and the match of a node against
-- the platforms of an image. A text is the list of its bytes; letters and spaces are the ASCII ones,
-- which is all that a platform string holds.
pub mod Laws
use Prim.Native.Char.{code}
use Prim.Native.String.{String}
use mathlib.Core.List.{reverse}
use zattera_dev.Base.{
  ℕ, ◌+◌, Bool, true, false, ◌&&◌, ◌||◌, not, Option, none, some, List, [], ◌∷◌, ◌++◌, any, is_nil,
  leb, if◌then◌else◌, ◌==◌,
}

abbrev pub Text : Type 0
Text = List ℕ

abbrev pub codes : String → Text
codes String.[] = []
codes (String.◌∷◌ c s) = code c ∷ codes s

unfoldable pub eq_text : Text → Text → Bool
eq_text [] [] = true
eq_text [] (d ∷ t) = false
eq_text (c ∷ s) [] = false
eq_text (c ∷ s) (d ∷ t) = c == d && eq_text s t

unfoldable pub lower : ℕ → ℕ
lower c = if leb b'A' c && leb c b'Z' then c + 32 else c

-- strings.ToLower.
unfoldable pub to_lower : Text → Text
unfolding lower
to_lower [] = []
to_lower (c ∷ s) = lower c ∷ to_lower s

unfoldable pub is_space : ℕ → Bool
is_space c = c == 32 || (leb 9 c && leb c 13)

unfoldable pub trim_left : Text → Text
unfolding is_space
trim_left [] = []
trim_left (c ∷ s) = if is_space c then trim_left s else c ∷ s

-- strings.TrimSpace.
unfoldable pub trim_space : Text → Text
unfolding trim_left
trim_space s = reverse (trim_left (reverse (trim_left s)))

-- strings.Cut at the first slash.
unfoldable pub cut : Text → Option (Text × Text)
cut [] = none
cut (c ∷ s) =
    let rest = cut s in
    if c == b'/' then some ([], s) else elim rest [ none ↦ none | some (a, b) ↦ some (c ∷ a, b) ]

abbrev pub known_os : List Text
known_os = codes "linux" ∷ codes "darwin" ∷ codes "windows" ∷ codes "freebsd" ∷ []

abbrev pub known_arch : List Text
known_arch =
    codes "amd64"
    ∷ codes "arm64"
    ∷ codes "arm"
    ∷ codes "386"
    ∷ codes "riscv64"
    ∷ codes "ppc64le"
    ∷ codes "s390x"
    ∷ []

unfoldable pub arch_alias : Text → Text
unfolding eq_text
arch_alias a =
    if any (eq_text a) (codes "x86_64" ∷ codes "x86-64" ∷ [])
    then codes "amd64"
    else if any (eq_text a) (codes "aarch64" ∷ codes "arm64/v8" ∷ [])
    then codes "arm64"
    else if any (eq_text a) (codes "armv7l" ∷ codes "arm/v7" ∷ [])
    then codes "arm"
    else a

-- The checks of Normalize on the two parts of the lowered text.
unfoldable pub checked : Text → Text → Option Text
unfolding eq_text
checked os_part arch_part =
    if not (any (eq_text os_part) known_os)
    then none
    else if not (any (eq_text arch_part) known_arch)
    then none
    else some (os_part ++ b'/' ∷ arch_part)

unfoldable pub normalize : Text → Option Text
unfolding to_lower trim_space cut arch_alias checked
normalize s = elim (cut (to_lower (trim_space s))) [
  | none ↦ none
  | some (os_part, arch_part) ↦
      if is_nil os_part || is_nil arch_part then none else checked os_part (arch_alias arch_part)
]

unfoldable pub loose : Text → Text
unfolding normalize
loose s = elim (normalize s) [ some n ↦ n | none ↦ to_lower (trim_space s) ]

unfoldable pub supports : String → List String → Bool
unfolding loose eq_text
supports node_arch platforms =
    is_nil platforms || any (λ p. eq_text (loose (codes p)) (loose (codes node_arch))) platforms
