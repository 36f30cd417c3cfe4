-- ===== src/Go/Bytes.antt =====
-- Go strings and byte slices, and the functions of package strings that walk them.
use Prim.Native.Char.{code}
use mathlib.Core.Option
use pispot.Base.{
  ℕ, zero, suc, ◌+◌, ◌/◌, ◌%◌, ◌≡◌, refl, ◌↔◌, Bool, Option, none, some, true, false, ◌&&◌, ◌||◌,
  List, [], ◌∷◌, ◌++◌, String, arith, ltb, ◌==◌, if◌then◌else◌, length,
}

abbrev pub Bytes : Type 0
Bytes = List ℕ

-- A literal of the source; every literal of the model is ASCII, so a code point is a byte.
abbrev pub lit : String → Bytes
lit String.[] = []
lit (String.◌∷◌ c s) = code c ∷ lit s

-- `s == ""`
abbrev pub is_empty : Bytes → Bool
is_empty [] = true
is_empty (c ∷ s) = false

-- `==` on strings.
unfoldable pub equal : Bytes → Bytes → Bool
equal [] t = is_empty t
equal (c ∷ s) [] = false
equal (c ∷ s) (d ∷ t) = c == d && equal s t

pub equal_iff : (s t : Bytes) → (equal s t ≡ true) ↔ (s ≡ t)
unfolding equal
equal_iff [] [] = ground arith
equal_iff [] (d ∷ t) = ground arith
equal_iff (c ∷ s) [] = ground arith
equal_iff (c ∷ s) (d ∷ t) = ground (arith, equal_iff s t)

pub equal_refl : (a : Bytes) → equal a a ≡ true
equal_refl a = (equal_iff a a).1 refl

-- strings.HasPrefix
unfoldable pub has_prefix : Bytes → Bytes → Bool
has_prefix s [] = true
has_prefix [] (p ∷ ps) = false
has_prefix (c ∷ s) (p ∷ ps) = c == p && has_prefix s ps

unfoldable pub drop : ℕ → Bytes → Bytes
drop zero s = s
drop (suc n) [] = []
drop (suc n) (c ∷ s) = drop n s

-- strings.TrimPrefix
unfoldable pub trim_prefix : Bytes → Bytes → Bytes
unfolding has_prefix drop
trim_prefix s p = if has_prefix s p then drop (length p) s else s

-- What stands in front of and behind the first `sep`: strings.IndexByte and the two slices, or
-- strings.SplitN with a limit of 2.
unfoldable pub cut : ℕ → Bytes → Option (Bytes × Bytes)
cut sep [] = none
cut sep (c ∷ s) =
    let rest = cut sep s in
    if c == sep then some ([], s) else Option.map (λ (p : Bytes × Bytes). (c ∷ p.0, p.1)) rest

-- `s[len(s)-1]`, and 0 for an empty string, where Go would panic; the callers test the length.
unfoldable pub last_byte : Bytes → ℕ
last_byte [] = 0
last_byte (c ∷ []) = c
last_byte (c ∷ d ∷ s) = last_byte (d ∷ s)

-- `s[:len(s)-1]`
unfoldable pub drop_last : Bytes → Bytes
drop_last [] = []
drop_last (c ∷ []) = []
drop_last (c ∷ d ∷ s) = c ∷ drop_last (d ∷ s)

-- strings.Join(ls, "\n")
unfoldable pub join_lines : List Bytes → Bytes
join_lines [] = []
join_lines (l ∷ []) = l
join_lines (l ∷ m ∷ ls) = l ++ (b'\n' ∷ join_lines (m ∷ ls))

pub last_byte-concat : (s : Bytes) (c : ℕ) → last_byte (s ++ c ∷ []) ≡ c
unfolding last_byte
last_byte-concat [] c = refl
last_byte-concat (d ∷ []) c = refl
last_byte-concat (d ∷ e ∷ s) c = last_byte-concat (e ∷ s) c

pub last_byte-append : (s t : Bytes) (c : ℕ) → last_byte (s ++ (c ∷ t)) ≡ last_byte (c ∷ t)
unfolding last_byte
last_byte-append [] t c = refl
last_byte-append (d ∷ []) t c = refl
last_byte-append (d ∷ e ∷ s) t c = last_byte-append (e ∷ s) t c

pub drop_last-concat : (s : Bytes) (c : ℕ) → drop_last (s ++ c ∷ []) ≡ s
unfolding drop_last
drop_last-concat [] c = refl
drop_last-concat (d ∷ []) c = refl
drop_last-concat (d ∷ e ∷ s) c = λ i. d ∷ drop_last-concat (e ∷ s) c i

-- The decimal digits of a number, `%d`; `decimal_digits` has enough fuel at `suc n`.
decimal_digits : ℕ → ℕ → Bytes → Bytes
decimal_digits zero n acc = acc
decimal_digits (suc f) n acc =
    let digit = 48 + n % 10 in
    let rest = decimal_digits f (n / 10) (digit ∷ acc) in if ltb n 10 then digit ∷ acc else rest

unfoldable pub decimal : ℕ → Bytes
unfolding decimal_digits
decimal n = decimal_digits (suc n) n []

decimal_test : decimal 65535 ≡ lit "65535"
unfolding decimal
decimal_test = refl

-- strings.Contains and bytes.Contains
unfoldable pub contains : Bytes → Bytes → Bool
unfolding has_prefix
contains [] p = is_empty p
contains (c ∷ s) p = has_prefix (c ∷ s) p || contains s p
