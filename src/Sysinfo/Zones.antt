-- ===== src/Sysinfo/Zones.antt =====
-- dashboard/internal/system/info.go, `selectThermalZone`: which file the temperature is read from.
use pispot.Base.{
  ◌≡◌, refl, Bool, false, ◌||◌, Option, none, some, List, [], ◌∷◌, ◌++◌, if◌then◌else◌, if_false,
  inl, inr, Bool-cases, arith,
}
use pispot.Go.Bytes.{Bytes, lit, contains, equal, is_empty}
use pispot.Go.Lower.{to_lower}
use pispot.Go.Space.{trim_space}
use pispot.Go.Unicode.{Unicode}
use pispot.Result.{Result, ok, err}

-- A match of filepath.Glob: its directory, and the file that it names.
pub record Zone : Type 0 where
  pub dir : Bytes
  pub type : Result Bytes

temp_file : Zone → Bytes
temp_file z = z.dir ++ lit "/temp"

type_of : Result Bytes → Option Bytes
type_of (err e) = none
type_of (ok b) = some (trim_space b)

is_cpu : Option Bytes → Bool
is_cpu none = false
is_cpu (some t) = equal t (lit "cpu-thermal")

-- The other two cases of the switch, which do the same.
is_candidate : Unicode → Option Bytes → Bool
is_candidate u none = false
is_candidate u (some t) = equal t (lit "bcm2712_thermal") || contains (to_lower u t) (lit "cpu")

-- `cpuContains` is set once.
keep : Bytes → Bytes → Bytes
keep best path = if is_empty best then path else best

-- The loop, with `cpuContains` where it does not return.
choose : Unicode → List Zone → Bytes → Bytes
choose u [] best = best
choose u (z ∷ zs) best =
    let rest =
      choose u zs (if is_candidate u (type_of z.type) then keep best (temp_file z) else best) in
    if is_cpu (type_of z.type) then temp_file z else rest

fallback_file : Bytes → Bytes
fallback_file root = root ++ lit "/thermal_zone0/temp"

-- `missing` is the error of os.Stat, if there is one.
fallback : Bytes → Option Bytes → Result Bytes
fallback root none = ok (fallback_file root)
fallback root (some e) = err (lit "no usable thermal zone under " ++ root ++ lit ": " ++ e)

or_fallback : Bytes → Option Bytes → Bytes → Result Bytes
or_fallback root missing chosen = if is_empty chosen then fallback root missing else ok chosen

pub select_thermal_zone : Unicode → Bytes → Result (List Zone) → Option Bytes → Result Bytes
select_thermal_zone u root (err e) missing = fallback root missing
select_thermal_zone u root (ok zones) missing = or_fallback root missing (choose u zones [])

first : (Zone → Bool) → List Zone → Option Zone
first test [] = none
first test (z ∷ zs) = if test z then some z else first test zs

or_else : Option Zone → Result Bytes → Result Bytes
or_else none r = r
or_else (some z) r = ok (temp_file z)

-- By preference alone: the first zone of type cpu-thermal, or else the first whose type is
-- bcm2712_thermal or holds "cpu", or else the zone 0 if it is there.
pub preferred : Unicode → Bytes → List Zone → Option Bytes → Result Bytes
preferred u root zones missing =
    or_else (first (λ z. is_cpu (type_of z.type)) zones)
      (or_else (first (λ z. is_candidate u (type_of z.type)) zones) (fallback root missing))

temp_file-filled : (z : Zone) → is_empty (temp_file z) ≡ false
unfolding temp_file
temp_file-filled z = go z.dir
  where
    go : (dir : Bytes) → is_empty (dir ++ lit "/temp") ≡ false
    go [] = refl
    go (c ∷ dir) = refl

module _ (u : Unicode) (root : Bytes) (missing : Option Bytes) where
  or_fallback-temp_file : (z : Zone) → or_fallback root missing (temp_file z) ≡ ok (temp_file z)
  unfolding or_fallback
  or_fallback-temp_file z = if_false _ _ (temp_file-filled z)

  -- Once a candidate is kept, only a zone of type cpu-thermal is preferred to it.
  choose-kept :
      (kept : Zone) (zs : List Zone)
      → or_fallback root missing (choose u zs (temp_file kept))
        ≡ or_else (first (λ z. is_cpu (type_of z.type)) zs) (ok (temp_file kept))
  unfolding choose first or_else keep
  choose-kept kept [] = or_fallback-temp_file kept
  choose-kept kept (z ∷ zs) = elim (Bool-cases (is_cpu (type_of z.type))) [
    | inl cpu ↦ rw cpu (or_fallback-temp_file z)
    | inr other ↦
        let same : (if is_candidate u (type_of z.type)
              then keep (temp_file kept) (temp_file z)
              else temp_file kept)
            ≡ temp_file kept =
          ground (arith, temp_file-filled kept) in
        rw (other, same) (choose-kept kept zs)
  ]

  choose-none :
      (zs : List Zone) → or_fallback root missing (choose u zs []) ≡ preferred u root zs missing
  unfolding choose first or_else keep preferred
  choose-none [] = unfold or_fallback in refl
  choose-none (z ∷ zs) = elim (Bool-cases (is_cpu (type_of z.type))) [
    | inl cpu ↦ rw cpu (or_fallback-temp_file z)
    | inr other ↦ elim (Bool-cases (is_candidate u (type_of z.type))) [
      | inl candidate ↦ rw (other, candidate) (choose-kept z zs)
      | inr neither ↦ rw (other, neither) (choose-none zs)
    ]
  ]

-- The loop with its early return gives the file of the first zone of type cpu-thermal, wherever it
-- stands; or else of the first whose type is bcm2712_thermal or, in lower case, holds "cpu"; or else of
-- zone 0, with an error if that is missing. A zone whose type cannot be read counts for nothing.
pub select_thermal_zone-preferred :
    (u : Unicode) (root : Bytes) (zones : List Zone) (missing : Option Bytes)
    → select_thermal_zone u root (ok zones) missing ≡ preferred u root zones missing
unfolding select_thermal_zone
select_thermal_zone-preferred u root zones missing = choose-none u root missing zones
