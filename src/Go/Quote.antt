-- ===== src/Go/Quote.antt =====
-- The format verb %q, strconv.Quote: decoding of UTF-8, escapes, and the quotation marks.
use pispot.Base.{
  ℕ, zero, suc, ◌+◌, ◌-◌, ◌*◌, ◌/◌, ◌%◌, ◌≡◌, refl, ◌∙◌, Bool, true, false, not, ◌&&◌, ◌||◌, [],
  ◌∷◌, ◌++◌, leb, ltb, ◌==◌, if◌then◌else◌, arith, ap, All, All-append, Bool-cases, inl, inr,
}
use pispot.Go.Bytes.{Bytes, lit, is_empty}
use pispot.Go.Unicode.{Unicode}

-- A decoded rune: its code point, the bytes that it takes, and whether they were well-formed.
pub record Rune : Type 0 where
  pub point : ℕ
  pub width : ℕ
  pub valid : Bool

-- utf8.RuneError, one byte wide
abbrev rune_error : Rune
rune_error = record { point = 0xFFFD; width = 1; valid = false }

abbrev within : ℕ → ℕ → ℕ → Bool
within lo hi c = leb lo c && leb c hi

decode_pair : ℕ → ℕ → Rune
decode_pair c d =
    if within 0xC2 0xDF c && within 0x80 0xBF d
    then record { point = (c - 0xC0) * 64 + (d - 0x80); width = 2; valid = true }
    else rune_error

-- The range of the second byte depends on the first.
second_of_three : ℕ → ℕ → Bool
second_of_three c d =
    (c == 0xE0 && within 0xA0 0xBF d)
    || (c == 0xED && within 0x80 0x9F d)
    || ((within 0xE1 0xEC c || within 0xEE 0xEF c) && within 0x80 0xBF d)

second_of_four : ℕ → ℕ → Bool
second_of_four c d =
    (c == 0xF0 && within 0x90 0xBF d)
    || (c == 0xF4 && within 0x80 0x8F d)
    || (within 0xF1 0xF3 c && within 0x80 0xBF d)

decode_triple : ℕ → ℕ → ℕ → Rune
decode_triple c d e =
    if second_of_three c d && within 0x80 0xBF e
    then record {
      point = (c - 0xE0) * 4096 + (d - 0x80) * 64 + (e - 0x80);
      width = 3;
      valid = true;
    }
    else decode_pair c d

decode_four : ℕ → ℕ → ℕ → ℕ → Rune
decode_four c d e f =
    if second_of_four c d && within 0x80 0xBF e && within 0x80 0xBF f
    then record {
      point = (c - 0xF0) * 262144 + (d - 0x80) * 4096 + (e - 0x80) * 64 + (f - 0x80);
      width = 4;
      valid = true;
    }
    else decode_triple c d e

-- utf8.DecodeRuneInString at a byte `c` of 0x80 or more, with the bytes behind it.
unfoldable pub decode_rune : ℕ → Bytes → Rune
unfolding decode_pair second_of_three second_of_four decode_triple decode_four
decode_rune c [] = rune_error
decode_rune c (d ∷ []) = decode_pair c d
decode_rune c (d ∷ e ∷ []) = decode_triple c d e
decode_rune c (d ∷ e ∷ f ∷ s) = decode_four c d e f

-- "0123456789abcdef"[n]
abbrev hex_digit : ℕ → ℕ
hex_digit n = if ltb n 10 then 48 + n else 87 + n

-- `k` hexadecimal digits of `n`.
hex_digits : ℕ → ℕ → Bytes
hex_digits zero n = []
hex_digits (suc k) n = hex_digits k (n / 16) ++ hex_digit (n % 16) ∷ []

escape_hex : ℕ → ℕ → ℕ → Bytes
escape_hex letter k n = b'\\' ∷ letter ∷ hex_digits k n

-- appendEscapedRune at an ASCII rune, with `"` for the quote.
escape_ascii : ℕ → Bytes
escape_ascii c =
    if c == b'"' || c == b'\\'
    then b'\\' ∷ c ∷ []
    else if within 0x20 0x7E c
    then c ∷ []
    else if c == 7
    then lit "\\a"
    else if c == 8
    then lit "\\b"
    else if c == 12
    then lit "\\f"
    else if c == 10
    then lit "\\n"
    else if c == 13
    then lit "\\r"
    else if c == 9
    then lit "\\t"
    else if c == 11
    then lit "\\v"
    else escape_hex b'x' 2 c

take : ℕ → Bytes → Bytes
take zero s = []
take (suc n) [] = []
take (suc n) (c ∷ s) = c ∷ take n s

module _ (u : Unicode) where
  -- strconv.IsPrint from U+0080 on
  is_print : ℕ → Bool
  is_print r = if leb r 0xFF then (leb 0xA1 r && not (r == 0xAD)) else u.is_print r

  -- appendEscapedRune at a rune above ASCII, or a byte that begins none.
  escape_wide : Rune → ℕ → Bytes → Bytes
  escape_wide r c s =
      if not r.valid
      then escape_hex b'x' 2 c
      else if is_print r.point
      then c ∷ take (r.width - 1) s
      else if ltb r.point 0x10000
      then escape_hex b'u' 4 r.point
      else escape_hex b'U' 8 r.point

  -- appendQuotedWith between the marks; the number counts the bytes left of the last rune.
  pub quote_body : ℕ → Bytes → Bytes
  quote_body skip [] = []
  quote_body (suc k) (c ∷ s) = quote_body k s
  quote_body zero (c ∷ s) =
      if ltb c 0x80
      then escape_ascii c ++ quote_body zero s
      else escape_wide (decode_rune c s) c s ++ quote_body ((decode_rune c s).width - 1) s

  pub quote : Bytes → Bytes
  quote s = b'"' ∷ (quote_body zero s ++ b'"' ∷ [])

-- Printable ASCII but for the quotation mark and the backslash.
abbrev pub is_plain : ℕ → Bool
is_plain c = leb 0x20 c && leb c 0x7E && not (c == b'"' || c == b'\\')

escape_ascii-is_plain : (c : ℕ) → is_plain c ≡ true → escape_ascii c ≡ c ∷ []
unfolding escape_ascii
escape_ascii-is_plain c h = ground arith

-- Plain text is quoted as it is.
quote_body-plain_byte :
    (u : Unicode) (c : ℕ) (s : Bytes)
    → is_plain c ≡ true
    → quote_body u 0 (c ∷ s) ≡ c ∷ quote_body u 0 s
quote_body-plain_byte u c s h =
    let short : ltb c 0x80 ≡ true = ground arith in
    unfold quote_body in rw (short, escape_ascii-is_plain c h)

pub quote_body-is_plain :
    (u : Unicode) (s : Bytes) → All (λ c. is_plain c ≡ true) s → quote_body u 0 s ≡ s
quote_body-is_plain u [] h = unfold quote_body in refl
quote_body-is_plain u (c ∷ s) (p, h) =
    quote_body-plain_byte u c s p ∙ ap (λ t. c ∷ t) (quote_body-is_plain u s h)

-- No control byte is left in quoted text.
abbrev pub IsVisible : Bytes → Type 0
IsVisible s = All (λ c. leb 0x20 c ≡ true) s

hex_digits-IsVisible : (k n : ℕ) → IsVisible (hex_digits k n)
unfolding hex_digits
hex_digits-IsVisible zero n = tt
hex_digits-IsVisible (suc k) n =
    All-append (λ c. leb 0x20 c ≡ true) (hex_digits k (n / 16)) (hex_digit (n % 16) ∷ [])
      (hex_digits-IsVisible k (n / 16)) (ground arith, tt)

escape_hex-IsVisible : (letter k n : ℕ) → leb 0x20 letter ≡ true → IsVisible (escape_hex letter k n)
unfolding escape_hex
escape_hex-IsVisible letter k n h = (refl, (h, hex_digits-IsVisible k n))

escape_ascii-IsVisible : (c : ℕ) → IsVisible (escape_ascii c)
unfolding escape_ascii
escape_ascii-IsVisible c = ground (arith, escape_hex-IsVisible b'x' 2 c refl)

-- The continuation bytes of a rune are no control bytes.
abbrev Continues : Rune → Bytes → Type 0
Continues r s = IsVisible (take (r.width - 1) s)

rune_error-Continues : (s : Bytes) → Continues rune_error s
unfolding take
rune_error-Continues s = tt

decode_pair-Continues : (c d : ℕ) (s : Bytes) → Continues (decode_pair c d) (d ∷ s)
unfolding decode_pair take
decode_pair-Continues c d s = ground arith

second_of_three-visible : (c d : ℕ) → second_of_three c d ≡ true → leb 0x20 d ≡ true
unfolding second_of_three
second_of_three-visible c d h = ground arith

second_of_four-visible : (c d : ℕ) → second_of_four c d ≡ true → leb 0x20 d ≡ true
unfolding second_of_four
second_of_four-visible c d h = ground arith

decode_triple-Continues : (c d e : ℕ) (s : Bytes) → Continues (decode_triple c d e) (d ∷ e ∷ s)
unfolding decode_triple take
decode_triple-Continues c d e s = elim (Bool-cases (second_of_three c d && within 0x80 0xBF e)) [
  | inl h ↦ rw h (ground (arith, second_of_three-visible c d), (ground arith, tt))
  | inr h ↦ rw h (decode_pair-Continues c d (e ∷ s))
]

decode_four-Continues : (c d e f : ℕ) (s : Bytes) → Continues (decode_four c d e f) (d ∷ e ∷ f ∷ s)
unfolding decode_four take
decode_four-Continues c d e f s =
    elim (Bool-cases (second_of_four c d && within 0x80 0xBF e && within 0x80 0xBF f)) [
      | inl h ↦
          rw h (ground (arith, second_of_four-visible c d), (ground arith, (ground arith, tt)))
      | inr h ↦ rw h (decode_triple-Continues c d e (f ∷ s))
    ]

decode_rune-Continues : (c : ℕ) (s : Bytes) → Continues (decode_rune c s) s
unfolding decode_rune
decode_rune-Continues c [] = rune_error-Continues []
decode_rune-Continues c (d ∷ []) = decode_pair-Continues c d []
decode_rune-Continues c (d ∷ e ∷ []) = decode_triple-Continues c d e []
decode_rune-Continues c (d ∷ e ∷ f ∷ s) = decode_four-Continues c d e f s

escape_wide-IsVisible :
    (u : Unicode) (c : ℕ) (s : Bytes)
    → ltb c 0x80 ≡ false
    → IsVisible (escape_wide u (decode_rune c s) c s)
unfolding escape_wide
escape_wide-IsVisible u c s h = ground (
  arith,
  decode_rune-Continues c s,
  escape_hex-IsVisible b'x' 2 c refl,
  escape_hex-IsVisible b'u' 4 (decode_rune c s).point refl,
  escape_hex-IsVisible b'U' 8 (decode_rune c s).point refl,
)

pub quote_body-IsVisible : (u : Unicode) (skip : ℕ) (s : Bytes) → IsVisible (quote_body u skip s)
unfolding quote_body
quote_body-IsVisible u zero [] = tt
quote_body-IsVisible u (suc k) [] = tt
quote_body-IsVisible u (suc k) (c ∷ s) = quote_body-IsVisible u k s
quote_body-IsVisible u zero (c ∷ s) = elim (Bool-cases (ltb c 0x80)) [
  | inl short ↦ rw short (
      All-append (λ b. leb 0x20 b ≡ true) (escape_ascii c) _ (escape_ascii-IsVisible c)
        (quote_body-IsVisible u zero s))
  | inr long ↦ rw long (
      All-append (λ b. leb 0x20 b ≡ true) (escape_wide u (decode_rune c s) c s) _
        (escape_wide-IsVisible u c s long) (quote_body-IsVisible u ((decode_rune c s).width - 1) s))
]

pub quote_body-ne-nil :
    (u : Unicode) (s : Bytes) → is_empty s ≡ false → is_empty (quote_body u 0 s) ≡ false
unfolding quote_body escape_ascii escape_wide escape_hex
quote_body-ne-nil u [] h = cc
quote_body-ne-nil u (c ∷ s) h = ground arith

pub quote_lem : (u : Unicode) (s : Bytes) → quote u s ≡ b'"' ∷ (quote_body u 0 s ++ b'"' ∷ [])
unfolding quote
quote_lem u s = refl

-- All that `quote` computes with.
unfoldable pub quoting : Unit {0}
unfolding quote quote_body escape_ascii escape_wide escape_hex hex_digits is_print decode_rune take
quoting = tt

abbrev latin : Unicode
latin = record { is_print = λ r. false; to_lower = λ r. r }

quote_ascii_test : quote latin (lit "a\"\\\n\u{1}") ≡ lit "\"a\\\"\\\\\\n\\x01\""
unfolding quoting
quote_ascii_test = refl

quote_wide_test :
    quote latin (0xC3 ∷ 0xA9 ∷ 0xE2 ∷ 0x80 ∷ 0x8B ∷ 0xFF ∷ [])
    ≡ b'"' ∷ 0xC3 ∷ 0xA9 ∷ lit "\\u200b\\xff\""
unfolding quoting
quote_wide_test = refl
