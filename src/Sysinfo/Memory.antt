-- ===== src/Sysinfo/Memory.antt =====
-- What the memory pane can show.
use pispot.Base.{
  ℕ, ◌≡◌, refl, ap, sym, ◌∙◌, ◌+◌, ◌-◌, ◌*◌, ◌%◌, ◌≤◌, ◌⊎◌, inl, inr, Bool, true, false, ◌&&◌,
  Option, none, some, List, [], ◌∷◌, ◌++◌, ltb, is_some, arith, Bool-cases, append_assoc,
  append-nil, if◌then◌else◌,
}
use pispot.Go.Bytes.{Bytes, has_prefix}
use pispot.Go.Lines.{scan}
use pispot.Result.{Result, ok, err}
use pispot.Sysinfo.{
  MemInfo, parse_meminfo_value, newer, mem_total, mem_available, read_line, read_lines, word,
  in_bytes, parse_meminfo,
}

-- The number on a line that begins with the key.
number_of : Bytes → Bytes → Option ℕ
number_of key line = if has_prefix line key then parse_meminfo_value line else none

-- The last number on the lines that begin with the key.
pub last_number : Bytes → List Bytes → Option ℕ
last_number key [] = none
last_number key (line ∷ lines) = newer (last_number key lines) (number_of key line)

-- A line cannot begin with both keys.
prefixes_apart :
    (line : Bytes) → has_prefix line mem_total ≡ true → has_prefix line mem_available ≡ false
unfolding has_prefix
prefixes_apart [] h = ground arith
prefixes_apart (a ∷ []) h = ground arith
prefixes_apart (a ∷ b ∷ []) h = ground arith
prefixes_apart (a ∷ b ∷ c ∷ []) h = ground arith
prefixes_apart (a ∷ b ∷ c ∷ d ∷ line) h = ground arith

newer-none : (new : Option ℕ) → newer new none ≡ new
unfolding newer
newer-none none = refl
newer-none (some n) = refl

newer_assoc : (x y z : Option ℕ) → newer x (newer y z) ≡ newer (newer x y) z
unfolding newer
newer_assoc none y z = refl
newer_assoc (some n) y z = refl

last_number-append :
    (key line : Bytes) (front : List Bytes)
    → last_number key (front ++ line ∷ []) ≡ newer (number_of key line) (last_number key front)
unfolding last_number
last_number-append key line [] = unfold newer in sym (newer-none (number_of key line))
last_number-append key line (l ∷ front) =
    ap (λ n. newer n (number_of key l)) (last_number-append key line front)
    ∙ sym (newer_assoc (number_of key line) (last_number key front) (number_of key l))

-- What the lines say.
abbrev seen : List Bytes → MemInfo
seen lines = record { total = last_number mem_total lines; avail = last_number mem_available lines }

read_line_lem :
    (line : Bytes) (m : MemInfo)
    → read_line line m ≡ record {
      total = newer (number_of mem_total line) m.total;
      avail = newer (number_of mem_available line) m.avail;
    }
unfolding read_line number_of newer
read_line_lem line m = elim (Bool-cases (has_prefix line mem_total)) [
  | inl total ↦ rw (total, prefixes_apart line total)
  | inr other ↦ elim (Bool-cases (has_prefix line mem_available)) [
    | inl avail ↦ rw (other, avail)
    | inr neither ↦ rw (other, neither)
  ]
]

read_line-seen :
    (line : Bytes) (front : List Bytes) → read_line line (seen front) ≡ seen (front ++ line ∷ [])
read_line-seen line front = rw (
  read_line_lem line (seen front),
  last_number-append mem_total line front,
  last_number-append mem_available line front,
)

found : MemInfo → Bool
found m = is_some m.total && is_some m.avail

-- The loop ends behind the first line by which both numbers are known, or at the end of the lines.
data ReadOff (lines : List Bytes) : MemInfo → Type 0 where
  exhausted : found (seen lines) ≡ false → ReadOff lines (seen lines)
  stopped :
      (front : List Bytes) (line : Bytes) (rest : List Bytes)
      → lines ≡ front ++ line ∷ rest
      → found (seen front) ≡ false
      → found (seen (front ++ line ∷ [])) ≡ true
      → ReadOff lines (seen (front ++ line ∷ []))

read_lines-ReadOff :
    (front lines : List Bytes)
    → found (seen front) ≡ false
    → ReadOff (front ++ lines) (read_lines lines (seen front))
unfolding read_lines found
read_lines-ReadOff front [] h = rw (append-nil front) (exhausted h)
read_lines-ReadOff front (line ∷ lines) h =
    let rest = read_lines-ReadOff (front ++ line ∷ []) lines in
    elim (Bool-cases (found (seen (front ++ line ∷ [])))) [
      | inl both ↦ rw (read_line-seen line front, both) (stopped front line lines refl h both)
      | inr part ↦
          rw (read_line-seen line front, part)
            (rw (append_assoc front (line ∷ []) lines) at rest part)
    ]

used-total : (kb free : ℕ) → ((kb - free) * 1024 % word ≤ kb * 1024 % word) ⊎ (word ≤ kb * 1024)
used-total kb free = elim (Bool-cases (ltb (kb * 1024) word)) [
  | inl small ↦ inl (ground arith)
  | inr large ↦ inr (ground arith)
]

-- The difference does not wrap, if it is not negative.
difference :
    (kb free : ℕ) → free ≤ kb → (kb + word - free) % word * 1024 % word ≡ (kb - free) * 1024 % word
difference kb free h = omega arith

-- What the lines allow for a result.
pub Measured : List Bytes → Result (ℕ × ℕ) → Type 0
Measured lines (err e) =
    (last_number mem_total lines ≡ none) ⊎ (last_number mem_available lines ≡ none)
Measured lines (ok (total, used)) =
    (front : List Bytes) × (line : Bytes) × (rest : List Bytes) × (kb : ℕ) × (free : ℕ) × (lines
      ≡ front ++ line ∷ rest)
    × ((last_number mem_total front ≡ none) ⊎ (last_number mem_available front ≡ none))
    × (last_number mem_total (front ++ line ∷ []) ≡ some kb)
    × (last_number mem_available (front ++ line ∷ []) ≡ some free)
    × (total ≡ kb * 1024 % word)
    × (used ≡ (kb - free) * 1024 % word)
    × ((used ≤ total) ⊎ (word ≤ kb * 1024))

lacking :
    (total avail : Option ℕ)
    → is_some total && is_some avail ≡ false
    → (total ≡ none) ⊎ (avail ≡ none)
lacking none avail h = inl refl
lacking (some n) none h = inr refl
lacking (some n) (some k) h = cc

in_bytes-lacking :
    (lines : List Bytes) (total avail : Option ℕ)
    → is_some total && is_some avail ≡ false
    → last_number mem_total lines ≡ total
    → last_number mem_available lines ≡ avail
    → Measured lines (in_bytes total avail)
unfolding in_bytes Measured
in_bytes-lacking lines none avail h t a = inl t
in_bytes-lacking lines (some n) none h t a = inr a
in_bytes-lacking lines (some n) (some k) h t a = cc

in_bytes-stopped :
    (front : List Bytes) (line : Bytes) (rest : List Bytes) (total avail : Option ℕ)
    → (last_number mem_total front ≡ none) ⊎ (last_number mem_available front ≡ none)
    → is_some total && is_some avail ≡ true
    → last_number mem_total (front ++ line ∷ []) ≡ total
    → last_number mem_available (front ++ line ∷ []) ≡ avail
    → Measured (front ++ line ∷ rest) (in_bytes total avail)
unfolding in_bytes Measured
in_bytes-stopped front line rest none avail before h t a = cc
in_bytes-stopped front line rest (some n) none before h t a = cc
in_bytes-stopped front line rest (some kb) (some free) before h t a =
    elim (Bool-cases (ltb kb free)) [
      | inl more ↦
          let zero_used =
            difference kb kb (omega arith)
            ∙ ap (λ x. x * 1024 % word)
                (let none_left : kb - kb ≡ kb - free = ground arith in none_left) in
          rw more (
            front,
            line,
            rest,
            kb,
            free,
            refl,
            before,
            t,
            a,
            refl,
            zero_used,
            rw zero_used (used-total kb free),
          )
      | inr less ↦
          let rest_used = difference kb free (ground arith) in
          rw less (
            front,
            line,
            rest,
            kb,
            free,
            refl,
            before,
            t,
            a,
            refl,
            rest_used,
            rw rest_used (used-total kb free),
          )
    ]

ReadOff-Measured :
    (lines : List Bytes) (m : MemInfo) → ReadOff lines m → Measured lines (in_bytes m.total m.avail)
unfolding found
ReadOff-Measured lines _ (exhausted h) =
    in_bytes-lacking lines (last_number mem_total lines) (last_number mem_available lines) h refl
      refl
ReadOff-Measured lines _ (stopped front line rest split h both) = rw split (
    in_bytes-stopped front line rest (last_number mem_total (front ++ line ∷ []))
      (last_number mem_available (front ++ line ∷ [])) (lacking _ _ h) both refl refl)

-- For every text, of the lines that the scanner gives: an error means that no line that begins with
-- MemTotal: or none that begins with MemAvailable: has a number of 64 bits behind its first colon.
-- Without an error there is a first line by which both have one. With kb and free for the last numbers
-- of the two up to that line, the total is kb kilobytes, and the used bytes are those of kb less free, 0
-- if free is more, both in bytes modulo 2^64; and the used bytes are at most the total, unless the total
-- does not fit in 64 bits.
pub parse_meminfo-Measured : (raw : Bytes) → Measured (scan raw).lines (parse_meminfo raw)
unfolding parse_meminfo found last_number
parse_meminfo-Measured raw =
    ReadOff-Measured (scan raw).lines _ (read_lines-ReadOff [] (scan raw).lines refl)
