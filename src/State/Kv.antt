-- ===== src/State/Kv.antt =====
-- The replicated key-value table of internal/state/accessors_infra.go: certmagic's storage and the
-- internal locks. A version is an int64, kept here as its 64 bits: from 2^63 on they stand for the negative
-- numbers.
pub mod Swap
use zattera_dev.Base.{
  ℕ, ◌+◌, ◌%◌, ◌^◌, Bool, true, false, not, ◌&&◌, List, [], ◌∷◌, Option, none, some, ◌==◌,
  if◌then◌else◌, Table, get, put, delete,
}
use zattera_dev.State.Types.{Ident, ℤ, pos, negsuc}

pub record KvEntry : Type 0 where
  pub value : Ident
  pub version : ℕ
  pub expires_at : ℕ

abbrev pub Kv : Type 0
Kv = Table KvEntry

-- The version of a key, 0 when it is absent.
unfoldable pub cur_version : Ident → Kv → ℕ
cur_version key kv = elim (get key kv) [ none ↦ 0 | some e ↦ e.version ]

-- A negative expectation is none; one that is not negative is below 2^63.
unfoldable pub expects : ℤ → ℕ → Bool
expects (pos n) version = version == n
expects (negsuc _) version = true

-- PutKV: the table and the new version, or a conflict.
unfoldable pub put_kv : Ident → Ident → ℤ → ℕ → Kv → Kv × Option ℕ
put_kv key value expected expires_at kv =
    let next = (cur_version key kv + 1) % 2 ^ 64 in
    if expects expected (cur_version key kv)
    then (put key (record { value = value; version = next; expires_at = expires_at }) kv, some next)
    else (kv, none)

-- DeleteKV: true where there is no conflict.
unfoldable pub delete_kv : Ident → ℤ → Kv → Kv × Bool
delete_kv key expected kv = elim (get key kv) [
  | none ↦ (kv, true)
  | some e ↦ if expects expected e.version then (delete key kv, true) else (kv, false)
]

-- A write: its key, its value, what it expects and its expiry.
pub record Write : Type 0 where
  pub key : Ident
  pub value : Ident
  pub expected : ℤ
  pub expires_at : ℕ

unfoldable pub put_all : List Write → Kv → Kv
put_all [] kv = kv
put_all (c ∷ cs) kv = put_all cs (put_kv c.key c.value c.expected c.expires_at kv).0
