-- ===== src/WanLink.antt =====
-- dashboard/internal/wan/ssid.go: what `iw dev … link` and `ip` tell of the upstream association.
pub mod Association
pub mod Collector
use pispot.Base.{ℕ, Bool, true, false, Option, none, some, List, [], ◌∷◌, if◌then◌else◌}
use pispot.Go.Bytes.{Bytes, lit, cut, equal, has_prefix, is_empty}
use pispot.Go.Floats.{Floats}
use pispot.Go.Lines.{scan_from}
use pispot.Go.Lower.{to_lower}
use pispot.Go.Numbers.{ℤ, pos, atoi}
use pispot.Go.Space.{trim_space, fields}
use pispot.Go.Unicode.{Unicode}
use pispot.Ip.{Address, Route, first_address, first_gateway}
use pispot.Result.{Result, ok, err}

-- `linkResult`
pub record Link (F : Type 0) : Type 0 where
  pub connected : Bool
  pub ssid : Bytes
  pub bssid : Bytes
  pub signal_dbm : ℤ
  pub freq_mhz : ℤ
  pub tx_bitrate_mbps : F

int_or_zero : Option ℤ → ℤ
int_or_zero none = pos 0
int_or_zero (some n) = n

first_int : List Bytes → ℤ
first_int [] = pos 0
first_int (w ∷ ws) = int_or_zero (atoi w)

-- `parseIPAddr`, behind json.Unmarshal
pub parse_ip_addr : Option (List (List Address)) → Bytes
parse_ip_addr none = []
parse_ip_addr (some doc) = first_address doc

-- `parseIPRoute`, behind json.Unmarshal
pub parse_ip_route : Bytes → Option (List Route) → Bytes
parse_ip_route iface none = []
parse_ip_route iface (some doc) = first_gateway iface doc

-- The new `bssid` of a line that begins with "Connected to ".
third_word : Unicode → List Bytes → Bytes → Bytes
third_word u (w ∷ v ∷ bssid ∷ rest) old = to_lower u bssid
third_word u _ old = old

abbrev pub not_connected : Bytes
not_connected = lit "Not connected"

abbrev pub connected_to : Bytes
connected_to = lit "Connected to "

-- The buffer that `sc.Buffer` allows.
abbrev pub buffer_size : ℕ
buffer_size = 1_048_576

module _ {F : Type 0} (floats : Floats F) where
  -- linkResult{}
  pub no_link : Link F
  no_link = record {
    connected = false;
    ssid = [];
    bssid = [];
    signal_dbm = pos 0;
    freq_mhz = pos 0;
    tx_bitrate_mbps = floats.zero;
  }

  float_or_zero : Result F → F
  float_or_zero (err e) = floats.zero
  float_or_zero (ok f) = f

  -- `parseFirstFloat`, on the fields
  first_float : List Bytes → F
  first_float [] = floats.zero
  first_float (w ∷ ws) = float_or_zero (floats.parse_float w)

  -- The switch on the key.
  update : Bytes → Bytes → Link F → Link F
  update key value out =
      if equal key (lit "SSID")
      then record out { ssid = value }
      else if equal key (lit "freq")
      then record out { freq_mhz = floats.to_int (first_float (fields value)) }
      else if equal key (lit "signal")
      then record out { signal_dbm = first_int (fields value) }
      else if equal key (lit "tx bitrate")
      then record out { tx_bitrate_mbps = first_float (fields value) }
      else out

  -- `splitKeyValue` and what follows it.
  read_value : Option (Bytes × Bytes) → Link F → Link F
  read_value none out = out
  read_value (some (key, value)) out = update (trim_space key) (trim_space value) out

  -- A line, trimmed, that does not end the loop.
  read_line : Unicode → Bytes → Link F → Link F
  read_line u line out =
      if is_empty line
      then out
      else if has_prefix line connected_to
      then record out { connected = true; bssid = third_word u (fields line) out.bssid }
      else read_value (cut b':' line) out

  read_lines : Unicode → List Bytes → Link F → Link F
  read_lines u [] out = out
  read_lines u (text ∷ lines) out =
      let line = trim_space text in
      let rest = read_lines u lines (read_line u line out) in
      if has_prefix line not_connected then no_link else rest

  pub parse_iw_link : Unicode → Bytes → Link F
  parse_iw_link u raw = read_lines u (scan_from buffer_size [] raw).lines no_link
