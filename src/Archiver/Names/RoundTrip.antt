-- ===== src/Archiver/Names/RoundTrip.antt =====
-- services/audit-archiver/src/partition.rs: the names that the code makes are those that it takes.
use agent_auth.Prelude.{
  ℕ, zero, suc, ◌+◌, ◌*◌, ◌/◌, ◌%◌, ◌<◌, ◌≡◌, refl, ◌≢◌, inl, inr, true, false, some, [], ◌∷◌, ◌++◌,
  arith, ltb, lt→ltb, Bool-cases, ok, pos, Bytes, codes, decimal,
}
use agent_auth.Archiver.Names.{
  padded, partition_name, validate_partition_name, parse_u32, parse_i32, Dates, month_range,
  info_for, parse_partition_name,
}

abbrev power : ℕ → ℕ
power zero = 1
power (suc w) = 10 * power w

-- The rounds that a number of few digits takes.
decimal_width :
    (f w n : ℕ) (rest : Bytes)
    → n < f
    → n < power (suc w)
    → decimal f n rest ≡ decimal (suc w) n rest
unfolding decimal
decimal_width zero w n rest lt small = absurd (omega arith)
decimal_width (suc f) zero n rest lt small = rw (lt→ltb n 10 (omega arith)) refl
decimal_width (suc f) (suc w) n rest lt small = elim (Bool-cases (ltb n 10)) [
  | inl one ↦ rw one refl
  | inr more ↦
      rw more (decimal_width f w (n / 10) ((b'0' + n % 10) ∷ rest) (ground arith) (omega arith))
]

padded_two : (n : ℕ) → n < 100 → padded 2 n ≡ (b'0' + n / 10) ∷ (b'0' + n % 10) ∷ []
unfolding padded
padded_two n lt = rw (decimal_width (suc n) 1 n [] (omega arith) (omega arith)) (ground arith)

padded_four :
    (n : ℕ)
    → n < 10000
    → padded 4 n
      ≡ (b'0' + n / 1000) ∷ (b'0' + n / 100 % 10) ∷ (b'0' + n / 10 % 10) ∷ (b'0' + n % 10) ∷ []
unfolding padded
padded_four n lt = rw (decimal_width (suc n) 3 n [] (omega arith) (omega arith)) (ground arith)

-- The bytes of a name.
pub partition_name_bytes :
    (y m : ℕ)
    → y < 10000
    → m < 100
    → partition_name y m
      ≡ codes "audit_events_"
        ++ ((b'0' + y / 1000)
            ∷ (b'0' + y / 100 % 10)
            ∷ (b'0' + y / 10 % 10)
            ∷ (b'0' + y % 10)
            ∷ b'_'
            ∷ (b'0' + m / 10)
            ∷ (b'0' + m % 10)
            ∷ [])
unfolding partition_name
partition_name_bytes y m hy hm = rw (padded_four y hy, padded_two m hm) refl

-- A name that the code makes passes its check.
pub partition_name_valid :
    (y m : ℕ) → y < 10000 → m < 100 → validate_partition_name (partition_name y m) ≡ ok true
unfolding validate_partition_name
partition_name_valid y m hy hm = rw (partition_name_bytes y m hy hm) (ground arith)

parse_year :
    (y : ℕ)
    → y < 10000
    → parse_i32
        ((b'0' + y / 1000) ∷ (b'0' + y / 100 % 10) ∷ (b'0' + y / 10 % 10) ∷ (b'0' + y % 10) ∷ [])
      ≡ some (pos y)
unfolding parse_i32
parse_year y hy = ground arith

parse_month : (m : ℕ) → m < 100 → parse_u32 ((b'0' + m / 10) ∷ (b'0' + m % 10) ∷ []) ≡ some m
unfolding parse_u32
parse_month m hm = ground arith

-- The parts of a name: four digits, a byte and two digits after the prefix.
abbrev pub name_with : (separator y m : ℕ) → Bytes
name_with separator y m =
    codes "audit_events_"
    ++ ((b'0' + y / 1000)
        ∷ (b'0' + y / 100 % 10)
        ∷ (b'0' + y / 10 % 10)
        ∷ (b'0' + y % 10)
        ∷ separator
        ∷ (b'0' + m / 10)
        ∷ (b'0' + m % 10)
        ∷ [])

module _ (d : Dates) where
  open d use {NaiveDate}

  parse-name_with :
      (separator y m : ℕ) (s e : NaiveDate)
      → separator < 128
      → y < 10000
      → m < 100
      → month_range d (pos y) m ≡ some (s, e)
      → parse_partition_name d (name_with separator y m)
        ≡ ok (some (record { name = name_with separator y m; range_start = s; range_end = e }))
  unfolding parse_partition_name info_for
  parse-name_with separator y m s e hs hy hm range =
      rw
        (
          lt→ltb _ 128 hs,
          lt→ltb (b'0' + m / 10) 128 (omega arith),
          lt→ltb (b'0' + y / 1000) 128 (omega arith),
        )
        (rw (parse_year y hy) (rw (parse_month m hm) (rw range refl)))

  -- A name that the code makes for a month of a year of up to four digits passes the check of names
  -- and is read back as that name, with the first days of the month and of the next.
  pub partition_name_round_trip :
      (y m : ℕ) (s e : NaiveDate)
      → y < 10000
      → m < 100
      → month_range d (pos y) m ≡ some (s, e)
      → (validate_partition_name (partition_name y m) ≡ ok true)
        × (parse_partition_name d (partition_name y m)
            ≡ ok (some (record { name = partition_name y m; range_start = s; range_end = e })))
  partition_name_round_trip y m s e hy hm range = (
    partition_name_valid y m hy hm,
    rw (partition_name_bytes y m hy hm) (parse-name_with b'_' y m s e (omega arith) hy hm range),
  )

  -- The reading of names looks at no separator: a name with another byte between year and month is
  -- read as if it were well formed, and the check that every statement on a partition makes refuses it.
  pub parse_any_separator :
      (separator y m : ℕ) (s e : NaiveDate)
      → separator < 128
      → separator ≢ b'_'
      → y < 10000
      → m < 100
      → month_range d (pos y) m ≡ some (s, e)
      → (parse_partition_name d (name_with separator y m)
          ≡ ok (some (record { name = name_with separator y m; range_start = s; range_end = e })))
        × (validate_partition_name (name_with separator y m) ≡ ok false)
  unfolding validate_partition_name
  parse_any_separator separator y m s e hs ne hy hm range =
      (parse-name_with separator y m s e hs hy hm range, ground arith)
