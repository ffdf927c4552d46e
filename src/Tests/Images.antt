-- ===== src/Tests/Images.antt =====
-- A platform string in normal form.
use zattera_dev.Base.{◌≡◌, some, refl}
use zattera_dev.Platform.{codes, normalize}
use zattera_dev.Platform.Laws.{normalize_idem}

normalize_idem_example : normalize (codes "linux/arm64") ≡ some (codes "linux/arm64")
unfolding normalize
normalize_idem_example = normalize_idem (codes " Linux/AArch64 ") {p = codes "linux/arm64"} refl
