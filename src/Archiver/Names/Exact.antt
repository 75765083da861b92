-- ===== src/Archiver/Names/Exact.antt =====
-- services/audit-archiver/src/partition.rs and storage.rs: which names pass the check, and that the keys
-- of different months differ.
use mathlib.Core.List.{append_cancel_left}
use agent_auth.Prelude.{
  ℕ, ◌+◌, ◌-◌, ◌*◌, ◌/◌, ◌%◌, ◌≤◌, ◌<◌, ◌≡◌, refl, sym, subst, ◌∙◌, ◌↔◌, true, [], ◌∷◌, ◌++◌, arith,
  length, ok, Bytes, codes, ok_inj,
}
use agent_auth.Archiver.Names.{
  partition_name, drop, starts_with, validate_partition_name, storage_key,
}
use agent_auth.Archiver.Names.RoundTrip.{partition_name_bytes, partition_name_valid}

-- What is left of a text behind a prefix that it starts with.
starts_with_sound :
    (name prefix : Bytes)
    → starts_with name prefix ≡ true
    → name ≡ prefix ++ drop (length prefix) name
starts_with_sound name [] h = refl
starts_with_sound [] (p ∷ ps) h = cc
starts_with_sound (b ∷ bs) (p ∷ ps) h = ground (arith, starts_with_sound bs ps)

abbrev Made : Bytes → Type 0
Made name = (y m : ℕ) × (y < 10000) × (m < 100) × (name ≡ partition_name y m)

-- The number that digits stand for.
abbrev number : ℕ → Bytes → ℕ
number n [] = n
number n (b ∷ bs) = number (n * 10 + (b - b'0')) bs

abbrev IsDigit : ℕ → Type 0
IsDigit b = (b'0' ≤ b) × (b ≤ b'9')

valid_digits :
    (a b c d u e f : ℕ)
    → validate_partition_name (codes "audit_events_" ++ a ∷ b ∷ c ∷ d ∷ u ∷ e ∷ f ∷ []) ≡ ok true
    → IsDigit a × IsDigit b × IsDigit c × IsDigit d × (u ≡ b'_') × IsDigit e × IsDigit f
unfolding validate_partition_name
valid_digits a b c d u e f h = ground arith

digits-Made :
    (a b c d e f : ℕ)
    → IsDigit a × IsDigit b × IsDigit c × IsDigit d × IsDigit e × IsDigit f
    → Made (codes "audit_events_" ++ a ∷ b ∷ c ∷ d ∷ b'_' ∷ e ∷ f ∷ [])
digits-Made a b c d e f h =
    let y = number 0 (a ∷ b ∷ c ∷ d ∷ []) in
    let m = number 0 (e ∷ f ∷ []) in
    let hy : y < 10000 = omega arith in
    let hm : m < 100 = omega arith in
    (y, m, hy, hm, rw (partition_name_bytes y m hy hm) (ground arith))

valid_tail :
    (tail : Bytes)
    → validate_partition_name (codes "audit_events_" ++ tail) ≡ ok true
    → Made (codes "audit_events_" ++ tail)
unfolding validate_partition_name
valid_tail [] h = absurd (ground arith)
valid_tail (a ∷ []) h = absurd (ground arith)
valid_tail (a ∷ b ∷ []) h = absurd (ground arith)
valid_tail (a ∷ b ∷ c ∷ []) h = absurd (ground arith)
valid_tail (a ∷ b ∷ c ∷ d ∷ []) h = absurd (ground arith)
valid_tail (a ∷ b ∷ c ∷ d ∷ u ∷ []) h = absurd (ground arith)
valid_tail (a ∷ b ∷ c ∷ d ∷ u ∷ e ∷ []) h = absurd (ground arith)
valid_tail (a ∷ b ∷ c ∷ d ∷ u ∷ e ∷ f ∷ []) h =
    let v = valid_digits a b c d u e f h in
    rw v.4 (digits-Made a b c d e f (v.0, v.1, v.2, v.3, v.5, v.6))
valid_tail (a ∷ b ∷ c ∷ d ∷ u ∷ e ∷ f ∷ g ∷ tail) h = absurd (ground arith)

prefixed :
    (name : Bytes)
    → validate_partition_name name ≡ ok true
    → starts_with name (codes "audit_events_") ≡ true
unfolding validate_partition_name
prefixed name h = ground arith

-- The check of names accepts exactly the names that the code makes of a year of up to four digits and a
-- number of up to two.
pub validate_partition_name_iff :
    (name : Bytes)
    → (validate_partition_name name ≡ ok true)
      ↔ ((y m : ℕ) × (y < 10000) × (m < 100) × (name ≡ partition_name y m))
validate_partition_name_iff name = (forth, back)
  where
    forth : validate_partition_name name ≡ ok true → Made name
    forth h =
        let e = starts_with_sound name (codes "audit_events_") (prefixed name h) in
        subst Made (sym e) (valid_tail _ (subst (λ n. validate_partition_name n ≡ ok true) e h))

    back : Made name → validate_partition_name name ≡ ok true
    back (y, m, hy, hm, e) = rw e (partition_name_valid y m hy hm)

key_of :
    (prefix : Bytes) (y m : ℕ)
    → y < 10000
    → m < 100
    → storage_key prefix (partition_name y m)
      ≡ ok (
          prefix
          ++ (codes "year="
              ++ ((b'0' + y / 1000)
                  ∷ (b'0' + y / 100 % 10)
                  ∷ (b'0' + y / 10 % 10)
                  ∷ (b'0' + y % 10)
                  ∷ (codes "/month="
                      ++ ((b'0' + m / 10)
                          ∷ (b'0' + m % 10)
                          ∷ (codes "/" ++ (partition_name y m ++ codes ".parquet")))))))
unfolding storage_key
key_of prefix y m hy hm = rw (partition_name_bytes y m hy hm) (ground arith)

-- The files of different months have different keys.
pub storage_key_inj :
    (prefix : Bytes) (y m y' m' : ℕ)
    → y < 10000
    → m < 100
    → y' < 10000
    → m' < 100
    → storage_key prefix (partition_name y m) ≡ storage_key prefix (partition_name y' m')
    → (y ≡ y') × (m ≡ m')
storage_key_inj prefix y m y' m' hy hm hy' hm' h =
    let e =
      append_cancel_left prefix _ _
        (ok_inj (sym (key_of prefix y m hy hm) ∙ h ∙ key_of prefix y' m' hy' hm')) in
    ground (arith, e)
