-- ===== src/Go/Lower.antt =====
-- strings.ToLower: each rune in turn, decoded, mapped and encoded again. A byte that is no part of a
-- rune comes out as U+FFFD.
use pispot.Base.{
  ℕ, ◌≡◌, refl, zero, suc, ◌+◌, ◌-◌, ◌/◌, ◌%◌, false, ◌||◌, ◌&&◌, [], ◌∷◌, ◌++◌, leb, ltb,
  if◌then◌else◌,
}
use pispot.Go.Bytes.{Bytes, lit}
use pispot.Go.Quote.{decode_rune}
use pispot.Go.Unicode.{Unicode}

-- utf8.AppendRune
encode_rune : ℕ → Bytes
encode_rune r =
    if ltb r 0x80
    then r ∷ []
    else if ltb r 0x800
    then (0xC0 + r / 64) ∷ (0x80 + r % 64) ∷ []
    else if (leb 0xD800 r && leb r 0xDFFF) || ltb 0x10FFFF r
    then 0xEF ∷ 0xBF ∷ 0xBD ∷ []
    else if ltb r 0x10000
    then (0xE0 + r / 4096) ∷ (0x80 + (r / 64) % 64) ∷ (0x80 + r % 64) ∷ []
    else (0xF0 + r / 262144)
      ∷ (0x80 + (r / 4096) % 64)
      ∷ (0x80 + (r / 64) % 64)
      ∷ (0x80 + r % 64)
      ∷ []

lower_ascii : ℕ → ℕ
lower_ascii c = if leb 65 c && leb c 90 then c + 32 else c

-- The number counts the bytes left of a rune.
lower_from : Unicode → ℕ → Bytes → Bytes
lower_from u skip [] = []
lower_from u (suc k) (c ∷ s) = lower_from u k s
lower_from u zero (c ∷ s) =
    let r = decode_rune c s in
    let next = lower_from u 0 s in
    let behind = lower_from u (r.width - 1) s in
    if ltb c 0x80 then lower_ascii c ∷ next else encode_rune (u.to_lower r.point) ++ behind

unfoldable pub to_lower : Unicode → Bytes → Bytes
unfolding lower_from lower_ascii encode_rune decode_rune
to_lower u s = lower_from u 0 s

to_lower_test :
    to_lower
      (record { is_print = λ r. false; to_lower = λ r. if leb 0x400 r then r + 1 else r })
      (lit "aZ:" ++ 0xC3 ∷ 0xA9 ∷ 0xE2 ∷ 0x82 ∷ 0xAC ∷ 0xFF ∷ lit "B")
    ≡ lit "az:" ++ 0xC3 ∷ 0xA9 ∷ 0xE2 ∷ 0x82 ∷ 0xAD ∷ 0xEF ∷ 0xBF ∷ 0xBE ∷ lit "b"
unfolding to_lower
to_lower_test = refl
