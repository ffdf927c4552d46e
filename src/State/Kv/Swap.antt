-- ===== src/State/Kv/Swap.antt =====
-- Compare-and-swap: of the writers that expect one version of a key, one succeeds.
use zattera_dev.Base.{
  ℕ, suc, ◌+◌, ◌%◌, ◌^◌, ◌≤◌, ◌<◌, ◌≡◌, sym, subst, length, ap, ◌∙◌, arith, true, false, List, [],
  ◌∷◌, Option, none, some, ◌==◌, if◌then◌else◌, put, get-put, if_true, if_false, Bool-cases, inl,
  inr,
}
use zattera_dev.State.Types.{Ident, pos}
use zattera_dev.State.Kv.{KvEntry, Kv, cur_version, expects, put_kv, Write, put_all}

version-put :
    (k j : Ident) (e : KvEntry) (kv : Kv)
    → cur_version k (put j e kv) ≡ (if k == j then e.version else cur_version k kv)
unfolding cur_version
version-put k j e kv = elim (Bool-cases (k == j)) [
  | inl same ↦
      ap (λ (o : Option KvEntry). elim o as (λ _. ℕ) [ none ↦ 0 | some x ↦ x.version ])
        (get-put k j e kv ∙ if_true (k == j) _ _ same)
      ∙ sym (if_true (k == j) _ _ same)
  | inr other ↦
      ap (λ (o : Option KvEntry). elim o as (λ _. ℕ) [ none ↦ 0 | some x ↦ x.version ])
        (get-put k j e kv ∙ if_false (k == j) _ _ other)
      ∙ sym (if_false (k == j) _ _ other)
]

-- The entry that a write leaves.
abbrev written : Write → Kv → Kv
written c kv =
    put c.key
      (record {
        value = c.value;
        version = (cur_version c.key kv + 1) % 2 ^ 64;
        expires_at = c.expires_at;
      })
      kv

abbrev attempt : Write → Kv → Kv × Option ℕ
attempt c kv = put_kv c.key c.value c.expected c.expires_at kv

attempt_ok :
    (c : Write) (kv : Kv)
    → expects c.expected (cur_version c.key kv) ≡ true
    → attempt c kv ≡ (written c kv, some ((cur_version c.key kv + 1) % 2 ^ 64))
unfolding put_kv
attempt_ok c kv e = if_true (expects c.expected (cur_version c.key kv)) _ _ e

attempt_conflict :
    (c : Write) (kv : Kv)
    → expects c.expected (cur_version c.key kv) ≡ false
    → attempt c kv ≡ (kv, none)
unfolding put_kv
attempt_conflict c kv e = if_false (expects c.expected (cur_version c.key kv)) _ _ e

-- A write adds one to a version at most, short of the wrap-around.
abbrev Grows : ℕ → ℕ → ℕ → Type 0
Grows n v v' = (v ≤ v') × (v' ≤ v + n)

version-written :
    (k : Ident) (c : Write) (kv : Kv)
    → cur_version k kv + 1 < 2 ^ 64
    → Grows 1 (cur_version k kv) (cur_version k (written c kv))
version-written k c kv fits = elim (Bool-cases (k == c.key)) [
  | inl same ↦
      let e : cur_version k (written c kv) ≡ (cur_version c.key kv + 1) % 2 ^ 64 =
        version-put k c.key _ kv ∙ if_true (k == c.key) _ _ same in
      let at : k ≡ c.key = ground (arith, same) in
      let v : cur_version k kv ≡ cur_version c.key kv = ap (λ i. cur_version i kv) at in
      (omega (arith, e, v, fits), omega (arith, e, v, fits))
  | inr other ↦
      let e : cur_version k (written c kv) ≡ cur_version k kv =
        version-put k c.key _ kv ∙ if_false (k == c.key) _ _ other in
      (omega (arith, e), omega (arith, e))
]

version-attempt :
    (k : Ident) (c : Write) (kv : Kv)
    → cur_version k kv + 1 < 2 ^ 64
    → Grows 1 (cur_version k kv) (cur_version k (attempt c kv).0)
version-attempt k c kv fits = elim (Bool-cases (expects c.expected (cur_version c.key kv))) [
  | inl e ↦
      subst (λ (r : Kv × Option ℕ). Grows 1 (cur_version k kv) (cur_version k r.0))
        (sym (attempt_ok c kv e)) (version-written k c kv fits)
  | inr e ↦
      subst (λ (r : Kv × Option ℕ). Grows 1 (cur_version k kv) (cur_version k r.0))
        (sym (attempt_conflict c kv e)) (omega arith, omega arith)
]

version-put_all :
    (k : Ident) (cs : List Write) (kv : Kv)
    → cur_version k kv + length cs < 2 ^ 64
    → Grows (length cs) (cur_version k kv) (cur_version k (put_all cs kv))
unfolding put_all
version-put_all k [] kv fits = (omega arith, omega arith)
version-put_all k (c ∷ cs) kv fits =
    let one = version-attempt k c kv (omega (arith, fits)) in
    let rest = version-put_all k cs (attempt c kv).0 (omega (arith, fits, one.0, one.1)) in
    (omega (arith, one.0, rest.0), omega (arith, one.1, rest.1))

-- A write of a key that expects a version and succeeds returns the version after it, and stores it. Any
-- writes later, whatever they expect and whichever keys they write, and no deletion, a write of the key
-- that expects the same version is a conflict and changes nothing; so long as the writes are too few to
-- carry the version to 2^63, where it would overflow.
pub put_kv-once :
    (c d : Write) (between : List Write) (expected : ℕ) (kv : Kv)
    → c.expected ≡ pos expected
    → d.expected ≡ pos expected
    → d.key ≡ c.key
    → cur_version c.key kv ≡ expected
    → expected + 1 + length between < 2 ^ 63
    → let after = put_all between (put_kv c.key c.value c.expected c.expires_at kv).0 in
      ((put_kv c.key c.value c.expected c.expires_at kv).1 ≡ some (suc expected))
      × (cur_version c.key (put_kv c.key c.value c.expected c.expires_at kv).0 ≡ suc expected)
      × (put_kv d.key d.value d.expected d.expires_at after ≡ (after, none))
unfolding expects
put_kv-once c d between expected kv ec ed same now few =
    let after = put_all between (attempt c kv).0 in
    let passes : expects c.expected (cur_version c.key kv) ≡ true =
      ap (λ z. expects z (cur_version c.key kv)) ec ∙ ground (arith, now) in
    let done = attempt_ok c kv passes in
    let next : (cur_version c.key kv + 1) % 2 ^ 64 ≡ suc expected = omega (arith, now, few) in
    let version : cur_version c.key (attempt c kv).0 ≡ suc expected =
      ap (λ (r : Kv × Option ℕ). cur_version c.key r.0) done
      ∙ version-put c.key c.key _ kv
      ∙ if_true (c.key == c.key) _ _ (ground arith)
      ∙ next in
    let grown = version-put_all c.key between (attempt c kv).0 (omega (arith, version, few)) in
    let later : suc expected ≤ cur_version d.key after =
      omega (arith, version, grown.0, ap (λ i. cur_version i after) same) in
    (
      ap (λ (r : Kv × Option ℕ). r.1) done ∙ ap some next,
      version,
      attempt_conflict d after
          (ap (λ z. expects z (cur_version d.key after)) ed ∙ ground (arith, later)),
    )
