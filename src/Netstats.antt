-- ===== src/Netstats.antt =====
-- dashboard/internal/netstats/throughput.go: the byte counters of the interfaces and their rates.
pub mod History
use pispot.Base.{
  ℕ, zero, suc, ◌-◌, Bool, true, false, ◌&&◌, Option, none, some, List, [], ◌∷◌, length, ltb, leb,
  select, not, if◌then◌else◌,
}
use pispot.Go.Bytes.{Bytes, lit, cut, equal, is_empty}
use pispot.Go.Floats.{Floats}
use pispot.Go.Lines.{scan}
use pispot.Go.Map.{Map, lookup, insert}
use pispot.Go.Numbers.{parse_uint}
use pispot.Go.Space.{trim_space, fields}
use pispot.Result.{Result, ok, err}

-- `parsedLine`
pub record Counters : Type 0 where
  pub rx_bytes : ℕ
  pub tx_bytes : ℕ

pub record Sample : Type 0 where
  pub rx_bytes : ℕ
  pub tx_bytes : ℕ
  pub at : ℕ
  pub present : Bool

pub record InterfaceStats (F : Type 0) : Type 0 where
  pub name : Bytes
  pub up : Bool
  pub rx_mbps : F
  pub tx_mbps : F
  pub rx_total_bytes : ℕ
  pub tx_total_bytes : ℕ

-- What the clock and the host say to a tick: /proc/net/dev, and the operstate of an interface.
pub record Reading : Type 0 where
  pub now : ℕ
  pub source : Result Bytes
  pub operstate : Bytes → Result Bytes

-- `prev`, and the two fields of the snapshot.
pub record Collector (F : Type 0) : Type 0 where
  pub prev : Map Sample
  pub at : ℕ
  pub interfaces : Map (InterfaceStats F)

digit_prefix : Bytes → Bytes
digit_prefix [] = []
digit_prefix (c ∷ s) = let rest = digit_prefix s in if leb 48 c && leb c 57 then c ∷ rest else []

-- fmt.Sscanf with "%d" of a word, into 64 bits: what stands behind the digits is not read.
scan_uint : Bytes → Option ℕ
scan_uint w = parse_uint (digit_prefix w)

nth : ℕ → List Bytes → Bytes
nth i [] = []
nth zero (w ∷ ws) = w
nth (suc i) (w ∷ ws) = nth i ws

both : Option ℕ → Option ℕ → Option Counters
both (some rx) (some tx) = some (record { rx_bytes = rx; tx_bytes = tx })
both _ _ = none

counters_of : List Bytes → Option Counters
counters_of ws =
    if ltb (length ws) 16 then none else both (scan_uint (nth 0 ws)) (scan_uint (nth 8 ws))

put : Bytes → Option Counters → Map Counters → Map Counters
put name none out = out
put name (some c) out = insert name c out

read_parts : Option (Bytes × Bytes) → Map Counters → Map Counters
read_parts none out = out
read_parts (some (before, behind)) out =
    let name = trim_space before in
    if is_empty name then out else put name (counters_of (fields behind)) out

read_lines : List Bytes → Map Counters → Map Counters
read_lines [] out = out
read_lines (line ∷ lines) out = read_lines lines (read_parts (cut b':' line) out)

pub parse_proc_net_dev : Bytes → Map Counters
parse_proc_net_dev raw = read_lines (scan raw).lines []

sample_of : ℕ → Option Counters → Sample
sample_of now none = record { rx_bytes = 0; tx_bytes = 0; at = now; present = false }
sample_of now (some c) = record {
  rx_bytes = c.rx_bytes;
  tx_bytes = c.tx_bytes;
  at = now;
  present = true;
}

parsed : Result Bytes → Map Counters
parsed (err e) = []
parsed (ok raw) = parse_proc_net_dev raw

-- What a tick finds of an interface. Where the source fails, it finds none.
pub found : Reading → Bytes → Sample
found r name = sample_of r.now (lookup name (parsed r.source))

-- A loop over the interfaces that writes an entry for each.
pub fill : {V : Type 0} → (Bytes → V) → List Bytes → Map V → Map V
fill f [] items = items
fill f (name ∷ names) items = fill f names (insert name (f name) items)

pub filter_empty : List Bytes → List Bytes
filter_empty = select (λ name. not (is_empty name))

says_up : Result Bytes → Bool
says_up (err e) = false
says_up (ok state) = equal (trim_space state) (lit "up")

-- `isUp`, with the trimming of `New`
pub is_up : Reading → Bytes → Bool
is_up r name = says_up (r.operstate name)

-- `current[name]`, also of a name that is not in the map
or_absent : Option Sample → Sample
or_absent none = record { rx_bytes = 0; tx_bytes = 0; at = 0; present = false }
or_absent (some s) = s

module _ {F : Type 0} (floats : Floats F) where
  pub compute_mbps : ℕ → ℕ → ℕ → ℕ → F
  compute_mbps prev_bytes cur_bytes prev_at cur_at =
      if leb cur_at prev_at
      then floats.zero
      else if ltb cur_bytes prev_bytes
      then floats.zero
      else floats.megabits_per_second (cur_bytes - prev_bytes) (cur_at - prev_at)

  initial_stats : Bytes → InterfaceStats F
  initial_stats name = record {
    name = name;
    up = false;
    rx_mbps = floats.zero;
    tx_mbps = floats.zero;
    rx_total_bytes = 0;
    tx_total_bytes = 0;
  }

  with_rates : Sample → Option Sample → InterfaceStats F → InterfaceStats F
  with_rates cur none stats = stats
  with_rates cur (some prev) stats =
      if cur.present && prev.present
      then record stats {
        rx_mbps = compute_mbps prev.rx_bytes cur.rx_bytes prev.at cur.at;
        tx_mbps = compute_mbps prev.tx_bytes cur.tx_bytes prev.at cur.at;
      }
      else stats

  -- The body of the loop that builds the snapshot.
  stats_of : Reading → Map Sample → Map Sample → Bytes → InterfaceStats F
  stats_of r current prev name =
      let cur = or_absent (lookup name current) in
      with_rates cur (lookup name prev) (record {
        name = name;
        up = is_up r name;
        rx_mbps = floats.zero;
        tx_mbps = floats.zero;
        rx_total_bytes = cur.rx_bytes;
        tx_total_bytes = cur.tx_bytes;
      })

  -- `newWithDeps`
  pub start : List Bytes → ℕ → Collector F
  start names began = record { prev = []; at = began; interfaces = fill initial_stats names [] }

  pub tick : List Bytes → Reading → Collector F → Collector F
  tick names r c =
      let current = fill (found r) names [] in
      record { prev = current; at = r.now; interfaces = fill (stats_of r current c.prev) names [] }

  -- `Run`, behind a row of ticks, the last of them first.
  pub run : List Bytes → ℕ → List Reading → Collector F
  run names began [] = start names began
  run names began (r ∷ past) = tick names r (run names began past)
