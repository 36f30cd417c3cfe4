-- ===== src/Sysinfo.antt =====
-- dashboard/internal/system/info.go: what the host tells of its load, its memory, its temperature and
-- the time since it was started.
pub mod Memory
pub mod Zones
pub mod Collector
use pispot.Base.{
  ℕ, ◌+◌, ◌-◌, ◌*◌, ◌%◌, Bool, ◌&&◌, Option, none, some, List, [], ◌∷◌, ◌++◌, length, ltb, is_some,
  if◌then◌else◌,
}
use pispot.Go.Bytes.{Bytes, lit, cut, decimal, has_prefix, is_empty}
use pispot.Go.Floats.{Floats}
use pispot.Go.Lines.{scan}
use pispot.Go.Numbers.{ℤ, atoi, parse_uint}
use pispot.Go.Space.{trim_space, fields}
use pispot.Result.{Result, ok, err, wrap}

-- The two variables of `parseMeminfo`, each with its flag.
pub record MemInfo : Type 0 where
  pub total : Option ℕ
  pub avail : Option ℕ

pub value_field : List Bytes → Option ℕ
value_field [] = none
value_field (w ∷ ws) = parse_uint w

pub value_behind : Option (Bytes × Bytes) → Option ℕ
value_behind none = none
value_behind (some (key, value)) = value_field (fields value)

-- `parseMeminfoValue`
pub parse_meminfo_value : Bytes → Option ℕ
parse_meminfo_value line = value_behind (cut b':' line)

newer : Option ℕ → Option ℕ → Option ℕ
newer none old = old
newer (some v) old = some v

abbrev pub mem_total : Bytes
mem_total = lit "MemTotal:"

abbrev pub mem_available : Bytes
mem_available = lit "MemAvailable:"

-- The switch on a line.
read_line : Bytes → MemInfo → MemInfo
read_line line m =
    if has_prefix line mem_total
    then record m { total = newer (parse_meminfo_value line) m.total }
    else if has_prefix line mem_available
    then record m { avail = newer (parse_meminfo_value line) m.avail }
    else m

-- The loop, which ends behind the line that gives the second number.
read_lines : List Bytes → MemInfo → MemInfo
read_lines [] m = m
read_lines (line ∷ lines) m =
    let here = read_line line m in
    let rest = read_lines lines here in
    if is_some here.total && is_some here.avail then here else rest

-- uint64
abbrev pub word : ℕ
word = 18_446_744_073_709_551_616

-- What follows the loop. The difference and the products are those of uint64, which wrap.
in_bytes : Option ℕ → Option ℕ → Result (ℕ × ℕ)
in_bytes none avail = err (lit "MemTotal not found")
in_bytes (some total) none = err (lit "MemAvailable not found")
in_bytes (some total) (some found) =
    let avail = if ltb total found then total else found in
    ok (total * 1024 % word, (total + word - avail) % word * 1024 % word)

-- The total and the used bytes.
pub parse_meminfo : Bytes → Result (ℕ × ℕ)
parse_meminfo raw =
    let m = read_lines (scan raw).lines (record { total = none; avail = none }) in
    in_bytes m.total m.avail

module _ {F : Type 0} (floats : Floats F) where
  -- On the fields.
  load_fields : List Bytes → Result (F × F × F)
  load_fields (one ∷ five ∷ fifteen ∷ rest) = elim (wrap (lit "1m: ") (floats.parse_float one)) [
    | err e ↦ err e
    | ok l1 ↦ elim (wrap (lit "5m: ") (floats.parse_float five)) [
      | err e ↦ err e
      | ok l5 ↦ elim (wrap (lit "15m: ") (floats.parse_float fifteen)) [
        | err e ↦ err e
        | ok l15 ↦ ok (l1, l5, l15)
      ]
    ]
  ]
  load_fields short = err (lit "expected 3+ fields, got " ++ decimal (length short))

  pub parse_loadavg : Bytes → Result (F × F × F)
  parse_loadavg raw = load_fields (fields raw)

  uptime_fields : List Bytes → Result F
  uptime_fields [] = err (lit "empty uptime reading")
  uptime_fields (w ∷ ws) = wrap (lit "parse uptime: ") (floats.parse_float w)

  pub parse_uptime : Bytes → Result F
  parse_uptime raw = uptime_fields (fields raw)

  -- `int_error` gives the text of the error that strconv.ParseInt returns.
  celsius : (Bytes → Bytes) → Bytes → Option ℤ → Result F
  celsius int_error s none = err (int_error s)
  celsius int_error s (some n) = ok (floats.thousandth n)

  pub parse_temp_millideg : (Bytes → Bytes) → Bytes → Result F
  parse_temp_millideg int_error raw =
      let s = trim_space raw in
      if is_empty s then err (lit "empty temperature reading") else celsius int_error s (atoi s)
