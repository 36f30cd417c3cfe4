-- ===== src/Hotspot/Stations.antt =====
-- dashboard/internal/hotspot/clients.go: the stations that `iw dev … station dump` lists.
pub mod Bare
pub mod Order
use pispot.Base.{ℕ, Bool, true, false, Option, none, some, List, [], ◌∷◌, ◌++◌, if◌then◌else◌}
use pispot.Go.Bytes.{Bytes, lit, cut, equal, has_prefix, is_empty}
use pispot.Go.Lines.{Scan, scan_from}
use pispot.Go.Lower.{to_lower}
use pispot.Go.Numbers.{ℤ, pos, parse_uint, atoi}
use pispot.Go.Space.{trim_space, fields}
use pispot.Go.Unicode.{Unicode}

pub record Client : Type 0 where
  pub mac : Bytes
  pub ip : Bytes
  pub hostname : Bytes
  pub signal_dbm : ℤ
  pub connected_seconds : ℕ
  pub rx_bytes : ℕ
  pub tx_bytes : ℕ

-- &Client{MAC: mac}
abbrev pub new_client : Bytes → Client
new_client mac = record {
  mac = mac;
  ip = [];
  hostname = [];
  signal_dbm = pos 0;
  connected_seconds = 0;
  rx_bytes = 0;
  tx_bytes = 0;
}

-- The loop's variables, `clients` and `cur`.
pub record Reader : Type 0 where
  pub clients : List Client
  pub cur : Option Client

or_zero : Option ℕ → ℕ
or_zero none = 0
or_zero (some n) = n

or_zero_int : Option ℤ → ℤ
or_zero_int none = pos 0
or_zero_int (some n) = n

first_uint : List Bytes → ℕ
first_uint [] = 0
first_uint (w ∷ ws) = or_zero (parse_uint w)

-- `parseUint`
uint_of : Bytes → ℕ
uint_of s = first_uint (fields s)

first_int : List Bytes → ℤ
first_int [] = pos 0
first_int (w ∷ ws) = or_zero_int (atoi w)

-- `parseFirstInt`
int_of : Bytes → ℤ
int_of s = first_int (fields s)

-- The switch on the key.
update : Bytes → Bytes → Client → Client
update key value c =
    if equal key (lit "rx bytes")
    then record c { rx_bytes = uint_of value }
    else if equal key (lit "tx bytes")
    then record c { tx_bytes = uint_of value }
    else if equal key (lit "signal")
    then record c { signal_dbm = int_of value }
    else if equal key (lit "connected time")
    then record c { connected_seconds = uint_of value }
    else c

-- `splitKeyValue` and what follows it.
read_value : Option (Bytes × Bytes) → Client → Client
read_value none c = c
read_value (some (key, value)) c = update (trim_space key) (trim_space value) c

-- `flush`, on the client in hand.
flushed : List Client → Option Client → List Client
flushed clients none = clients
flushed clients (some c) = clients ++ c ∷ []

-- The new `cur` of a line that begins with "Station ".
station : Unicode → List Bytes → Option Client
station u (word ∷ mac ∷ rest) = some (new_client (to_lower u mac))
station u _ = none

read_cur : Bytes → Option Client → Option Client
read_cur line none = none
read_cur line (some c) = some (read_value (cut b':' line) c)

read_line : Unicode → Bytes → Reader → Reader
read_line u text r =
    let line = trim_space text in
    if is_empty line
    then r
    else if has_prefix line (lit "Station ")
    then record { clients = flushed r.clients r.cur; cur = station u (fields line) }
    else record r { cur = read_cur line r.cur }

read_lines : Unicode → List Bytes → Reader → Reader
read_lines u [] r = r
read_lines u (line ∷ lines) r = read_lines u lines (read_line u line r)

-- The buffer that `sc.Buffer` allows.
abbrev pub buffer_size : ℕ
buffer_size = 1_048_576

abbrev pub begin : Reader
begin = record { clients = []; cur = none }

pub parse_station_dump : Unicode → Bytes → List Client
parse_station_dump u raw =
    let r = read_lines u (scan_from buffer_size [] raw).lines begin in flushed r.clients r.cur

-- All that `parse_station_dump` computes with.
unfoldable pub listing : Unit {0}
unfolding parse_station_dump read_lines read_line read_cur station flushed read_value update int_of
    uint_of first_int first_uint or_zero or_zero_int parse_uint atoi fields trim_space cut
    has_prefix equal scan_from to_lower
listing = tt
