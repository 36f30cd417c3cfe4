-- ===== src/Go/Space.antt =====
-- strings.TrimSpace and strings.Fields. White space is that of unicode.IsSpace, in UTF-8. The byte
-- sequences below are whole runes and start with no continuation byte, so a scan by bytes finds
-- the same runes as Go's decoding, from either end.
pub mod Words
pub mod Padded
use pispot.Base.{
  ℕ, zero, suc, ◌-◌, ◌≡◌, refl, sym, ap, ◌∙◌, Bool, true, not, ◌&&◌, ◌||◌, List, [], ◌∷◌, ◌++◌,
  reverse, arith, ltb, leb, ◌==◌, if◌then◌else◌,
}
use mathlib.Core.List.{reverse-append, reverse-reverse}
use pispot.Go.Bytes.{Bytes, lit}

abbrev pub is_ascii_space : ℕ → Bool
is_ascii_space c = (leb 9 c && leb c 13) || c == 32

-- U+0085 and U+00A0
is_space_pair : ℕ → ℕ → Bool
is_space_pair c d = c == 0xC2 && (d == 0x85 || d == 0xA0)

-- U+1680, U+2000 to U+200A, U+2028, U+2029, U+202F, U+205F and U+3000
is_space_triple : ℕ → ℕ → ℕ → Bool
is_space_triple c d e =
    (c == 0xE1 && d == 0x9A && e == 0x80)
    || (c == 0xE2
        && d == 0x80
        && ((leb 0x80 e && leb e 0x8A) || e == 0xA8 || e == 0xA9 || e == 0xAF))
    || (c == 0xE2 && d == 0x81 && e == 0x9F)
    || (c == 0xE3 && d == 0x80 && e == 0x80)

-- The length of the white-space rune that the bytes begin with; 0 if they begin with none.
unfoldable pub space_length : Bytes → ℕ
unfolding is_space_pair is_space_triple
space_length [] = 0
space_length (c ∷ []) = if is_ascii_space c then 1 else 0
space_length (c ∷ d ∷ []) = if is_ascii_space c then 1 else if is_space_pair c d then 2 else 0
space_length (c ∷ d ∷ e ∷ s) =
    if is_ascii_space c
    then 1
    else if is_space_pair c d
    then 2
    else if is_space_triple c d e
    then 3
    else 0

-- The same for the last rune, on the reversed bytes.
unfoldable pub space_length_back : Bytes → ℕ
unfolding is_space_pair is_space_triple
space_length_back [] = 0
space_length_back (c ∷ []) = if is_ascii_space c then 1 else 0
space_length_back (c ∷ d ∷ []) = if is_ascii_space c then 1 else if is_space_pair d c then 2 else 0
space_length_back (c ∷ d ∷ e ∷ s) =
    if is_ascii_space c
    then 1
    else if is_space_pair d c
    then 2
    else if is_space_triple e d c
    then 3
    else 0

-- Drops the runes that `measure` finds at the front; the number counts the bytes left of one.
unfoldable pub trim_front : (Bytes → ℕ) → ℕ → Bytes → Bytes
trim_front measure skip [] = []
trim_front measure (suc k) (c ∷ s) = trim_front measure k s
trim_front measure zero (c ∷ s) =
    let n = measure (c ∷ s) in
    let rest = trim_front measure (n - 1) s in if n == 0 then c ∷ s else rest

unfoldable pub trim_space : Bytes → Bytes
unfolding trim_front space_length space_length_back
trim_space s = reverse (trim_front space_length_back 0 (reverse (trim_front space_length 0 s)))

emit : Bytes → List Bytes
emit [] = []
emit (c ∷ s) = (c ∷ s) ∷ []

fields_from : ℕ → Bytes → Bytes → List Bytes
fields_from skip cur [] = emit cur
fields_from (suc k) cur (c ∷ s) = fields_from k cur s
fields_from zero cur (c ∷ s) =
    let n = space_length (c ∷ s) in
    let inside = fields_from 0 (cur ++ c ∷ []) s in
    let next = fields_from (n - 1) [] s in if n == 0 then inside else emit cur ++ next

-- strings.Fields
unfoldable pub fields : Bytes → List Bytes
unfolding fields_from emit space_length
fields s = fields_from 0 [] s

-- A byte that is a rune of its own and no white space.
abbrev pub is_solid : ℕ → Bool
is_solid c = ltb c 0x80 && not (is_ascii_space c)

space_length-is_solid : (c : ℕ) (s : Bytes) → is_solid c ≡ true → space_length (c ∷ s) ≡ 0
unfolding space_length
space_length-is_solid c [] h = ground arith
space_length-is_solid c (d ∷ []) h = ground arith
space_length-is_solid c (d ∷ e ∷ s) h = ground arith

space_length_back-is_solid : (c : ℕ) (s : Bytes) → is_solid c ≡ true → space_length_back (c ∷ s) ≡ 0
unfolding space_length_back
space_length_back-is_solid c [] h = ground arith
space_length_back-is_solid c (d ∷ []) h = ground arith
space_length_back-is_solid c (d ∷ e ∷ s) h = ground arith

trim_front-is_solid :
    (measure : Bytes → ℕ) (c : ℕ) (s : Bytes)
    → measure (c ∷ s) ≡ 0
    → trim_front measure 0 (c ∷ s) ≡ c ∷ s
unfolding trim_front
trim_front-is_solid measure c s h = ground arith

trim_space_lem :
    (s : Bytes)
    → trim_space s
      ≡ reverse (trim_front space_length_back 0 (reverse (trim_front space_length 0 s)))
unfolding trim_space
trim_space_lem s = refl

space_length-space : (c : ℕ) (s : Bytes) → is_ascii_space c ≡ true → space_length (c ∷ s) ≡ 1
unfolding space_length
space_length-space c [] h = ground arith
space_length-space c (d ∷ []) h = ground arith
space_length-space c (d ∷ e ∷ s) h = ground arith

trim_front-space :
    (c : ℕ) (s : Bytes)
    → is_ascii_space c ≡ true
    → trim_front space_length 0 (c ∷ s) ≡ trim_front space_length 0 s
unfolding trim_front
trim_front-space c s h = rw (space_length-space c s h)

space_length_back-space :
    (c : ℕ) (s : Bytes) → is_ascii_space c ≡ true → space_length_back (c ∷ s) ≡ 1
unfolding space_length_back
space_length_back-space c [] h = ground arith
space_length_back-space c (d ∷ []) h = ground arith
space_length_back-space c (d ∷ e ∷ s) h = ground arith

trim_front-space_back :
    (c : ℕ) (s : Bytes)
    → is_ascii_space c ≡ true
    → trim_front space_length_back 0 (c ∷ s) ≡ trim_front space_length_back 0 s
unfolding trim_front
trim_front-space_back c s h = rw (space_length_back-space c s h)

-- White space behind a text that begins with a solid byte is dropped.
pub trim_space-space_back :
    (c : ℕ) (s : Bytes) (d : ℕ)
    → is_solid c ≡ true
    → is_ascii_space d ≡ true
    → trim_space (c ∷ (s ++ d ∷ [])) ≡ trim_space (c ∷ s)
trim_space-space_back c s d hc hd = rw (
  trim_space_lem,
  trim_space_lem,
  trim_front-is_solid space_length c (s ++ d ∷ []) (space_length-is_solid c _ hc),
  trim_front-is_solid space_length c s (space_length-is_solid c _ hc),
  reverse-append (c ∷ s) (d ∷ []),
  trim_front-space_back d (reverse (c ∷ s)) hd,
)

-- Leading ASCII white space is dropped.
pub trim_space-space :
    (c : ℕ) (s : Bytes) → is_ascii_space c ≡ true → trim_space (c ∷ s) ≡ trim_space s
trim_space-space c s h = rw (trim_space_lem, trim_space_lem, trim_front-space c s h)

-- Text between two solid bytes is left alone.
pub trim_space-is_solid :
    (c : ℕ) (s : Bytes) (d : ℕ)
    → is_solid c ≡ true
    → is_solid d ≡ true
    → trim_space (c ∷ (s ++ d ∷ [])) ≡ c ∷ (s ++ d ∷ [])
trim_space-is_solid c s d hc hd =
    let front = trim_front-is_solid space_length c (s ++ d ∷ []) (space_length-is_solid c _ hc) in
    let back =
      trim_front-is_solid space_length_back d (reverse (c ∷ s))
        (space_length_back-is_solid d _ hd) in
    rw (trim_space_lem, front, reverse-append (c ∷ s) (d ∷ []), back)
      (ap reverse (sym (reverse-append (c ∷ s) (d ∷ []))) ∙ reverse-reverse _)

fields_test : fields (lit " a  bc\t") ≡ lit "a" ∷ lit "bc" ∷ []
unfolding fields
fields_test = refl
