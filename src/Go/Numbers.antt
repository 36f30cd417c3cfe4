-- ===== src/Go/Numbers.antt =====
-- strconv.ParseUint in base 10 with 64 bits, and strconv.Atoi where int has 64 bits: the number, or
-- nothing where they return an error.
use pispot.Base.{
  ℕ, ◌+◌, ◌-◌, ◌*◌, ◌≡◌, refl, ◌&&◌, Option, none, some, [], ◌∷◌, leb, ltb, ◌==◌, if◌then◌else◌,
}
use pispot.Go.Bytes.{Bytes, lit}

-- Integers: `negsuc n` is -(n + 1).
pub data ℤ : Type 0 where
  pos : ℕ → ℤ
  negsuc : ℕ → ℤ

-- The value of decimal digits behind `acc`.
digits : ℕ → Bytes → Option ℕ
digits acc [] = some acc
digits acc (c ∷ s) =
    let rest = digits (acc * 10 + (c - 48)) s in if leb 48 c && leb c 57 then rest else none

-- At least one digit.
number : Bytes → Option ℕ
number [] = none
number (c ∷ s) = digits 0 (c ∷ s)

below : ℕ → Option ℕ → Option ℕ
below limit none = none
below limit (some n) = if ltb n limit then some n else none

-- ParseUint(s, 10, 64)
unfoldable pub parse_uint : Bytes → Option ℕ
unfolding digits number below
parse_uint s = below 18_446_744_073_709_551_616 (number s)

negated : ℕ → ℤ
negated n = if leb 1 n then negsuc (n - 1) else pos 0

signed : (ℕ → ℤ) → Option ℕ → Option ℤ
signed sign none = none
signed sign (some n) = some (sign n)

unfoldable pub atoi : Bytes → Option ℤ
unfolding digits number below negated signed
atoi [] = none
atoi (c ∷ s) =
    if c == b'-'
    then signed negated (below 9_223_372_036_854_775_809 (number s))
    else if c == b'+'
    then signed pos (below 9_223_372_036_854_775_808 (number s))
    else signed pos (below 9_223_372_036_854_775_808 (number (c ∷ s)))

atoi_test : atoi (lit "-47") ≡ some (negsuc 46)
unfolding atoi
atoi_test = refl
