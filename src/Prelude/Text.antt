-- ===== src/Prelude/Text.antt =====
-- Texts as bytes, and `split` at a byte.
use Prim.Native.Char.{code}
use Prim.Native.Nat.{ℕ, zero, suc, ◌+◌, ◌/◌, ◌%◌}
use Prim.Native.String.{String}
use mathlib.Core.Path.{◌≡◌, refl}
use mathlib.Core.Logic.{◌≢◌}
use mathlib.Core.Bool.{Bool, true, false, ◌&&◌}
use mathlib.Core.List.{List, [], ◌∷◌, ◌++◌}
use native.Mathlib.Omega.{arith}
use agent_auth.Prelude.Tests.{◌==◌, ltb, if◌then◌else◌}
use agent_auth.Prelude.Lists.{All}

abbrev pub Bytes : Type 0
Bytes = List ℕ

-- The bytes of a text in ASCII.
abbrev pub codes : String → Bytes
codes String.[] = []
codes (String.◌∷◌ c s) = code c ∷ codes s

-- Whether two texts are one.
abbrev pub bytes_eq : Bytes → Bytes → Bool
bytes_eq [] [] = true
bytes_eq [] (b ∷ bs) = false
bytes_eq (a ∷ xs) [] = false
bytes_eq (a ∷ xs) (b ∷ bs) = a == b && bytes_eq xs bs

pub bytes_eq_refl : (bs : Bytes) → bytes_eq bs bs ≡ true
bytes_eq_refl [] = refl
bytes_eq_refl (b ∷ bs) = ground (arith, bytes_eq_refl bs)

pub bytes_eq_sound : (xs ys : Bytes) → bytes_eq xs ys ≡ true → xs ≡ ys
bytes_eq_sound [] [] h = refl
bytes_eq_sound [] (b ∷ bs) h = cc
bytes_eq_sound (a ∷ xs) [] h = cc
bytes_eq_sound (a ∷ xs) (b ∷ bs) h = ground (arith, bytes_eq_sound xs bs)

abbrev onto_first : ℕ → List Bytes → List Bytes
onto_first c [] = (c ∷ []) ∷ []
onto_first c (p ∷ ps) = (c ∷ p) ∷ ps

-- The parts of a text between the places where a byte stands.
unfoldable pub split : ℕ → Bytes → List Bytes
split sep [] = [] ∷ []
split sep (c ∷ cs) = if c == sep then [] ∷ split sep cs else onto_first c (split sep cs)

pub split_once :
    (sep : ℕ) (part rest : Bytes)
    → All (λ c. c ≢ sep) part
    → split sep (part ++ sep ∷ rest) ≡ part ∷ split sep rest
unfolding split
split_once sep [] rest h = ground arith
split_once sep (c ∷ part) rest h = ground (arith, split_once sep part rest h.1)

pub split_last : (sep : ℕ) (part : Bytes) → All (λ c. c ≢ sep) part → split sep part ≡ part ∷ []
unfolding split
split_last sep [] h = refl
split_last sep (c ∷ part) h = ground (arith, split_last sep part h.1)

-- The decimal digits of a number before those of `rest`; every round takes one digit, so `n + 1`
-- rounds are enough.
unfoldable pub decimal : (fuel : ℕ) → ℕ → Bytes → Bytes
decimal zero n rest = rest
decimal (suc f) n rest =
    let longer = decimal f (n / 10) ((b'0' + n % 10) ∷ rest) in
    if ltb n 10 then (b'0' + n) ∷ rest else longer

-- `to_string()` of a number.
unfoldable pub to_string : ℕ → Bytes
unfolding decimal
to_string n = decimal (suc n) n []
