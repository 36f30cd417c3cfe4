-- ===== src/Hotspot/Stations/Bare.antt =====
-- A station dump tells no client's address on the network, nor its name there.
use pispot.Base.{
  ◌≡◌, refl, Option, none, some, List, [], ◌∷◌, All, All-append, arith, Bool-cases, inl, inr,
}
use pispot.Go.Bytes.{Bytes, lit, cut, has_prefix, is_empty}
use pispot.Go.Lines.{scan_from}
use pispot.Go.Space.{trim_space, fields}
use pispot.Go.Unicode.{Unicode}
use pispot.Hotspot.Stations.{
  Client, Reader, update, read_value, flushed, station, read_cur, read_line, read_lines,
  buffer_size, begin, parse_station_dump,
}

abbrev pub IsBare : Client → Type 0
IsBare c = (c.ip ≡ []) × (c.hostname ≡ [])

abbrev IsBareOption : Option Client → Type 0
IsBareOption none = Unit
IsBareOption (some c) = IsBare c

abbrev HasBare : Reader → Type 0
HasBare r = All IsBare r.clients × IsBareOption r.cur

update-IsBare : (key value : Bytes) (c : Client) → IsBare c → IsBare (update key value c)
unfolding update
update-IsBare key value c h = ground arith

read_value-IsBare :
    (parts : Option (Bytes × Bytes)) (c : Client) → IsBare c → IsBare (read_value parts c)
unfolding read_value
read_value-IsBare none c h = h
read_value-IsBare (some (key, value)) c h = update-IsBare (trim_space key) (trim_space value) c h

read_cur-IsBare :
    (line : Bytes) (cur : Option Client) → IsBareOption cur → IsBareOption (read_cur line cur)
unfolding read_cur
read_cur-IsBare line none h = tt
read_cur-IsBare line (some c) h = read_value-IsBare (cut b':' line) c h

station-IsBare : (u : Unicode) (words : List Bytes) → IsBareOption (station u words)
unfolding station
station-IsBare u [] = tt
station-IsBare u (word ∷ []) = tt
station-IsBare u (word ∷ mac ∷ rest) = (refl, refl)

flushed-IsBare :
    (clients : List Client) (cur : Option Client)
    → All IsBare clients
    → IsBareOption cur
    → All IsBare (flushed clients cur)
unfolding flushed
flushed-IsBare clients none h k = h
flushed-IsBare clients (some c) h k = All-append IsBare clients (c ∷ []) h (k, tt)

read_line-HasBare :
    (u : Unicode) (line : Bytes) (r : Reader) → HasBare r → HasBare (read_line u line r)
unfolding read_line
read_line-HasBare u line r (h, k) = elim (Bool-cases (is_empty (trim_space line))) [
  | inl blank ↦ rw blank (h, k)
  | inr filled ↦ elim (Bool-cases (has_prefix (trim_space line) (lit "Station "))) [
    | inl header ↦
        rw (filled, header)
          (flushed-IsBare r.clients r.cur h k, station-IsBare u (fields (trim_space line)))
    | inr other ↦ rw (filled, other) (h, read_cur-IsBare (trim_space line) r.cur k)
  ]
]

read_lines-HasBare :
    (u : Unicode) (lines : List Bytes) (r : Reader) → HasBare r → HasBare (read_lines u lines r)
unfolding read_lines
read_lines-HasBare u [] r h = h
read_lines-HasBare u (line ∷ lines) r h =
    read_lines-HasBare u lines (read_line u line r) (read_line-HasBare u line r h)

pub parse_station_dump-IsBare : (u : Unicode) (raw : Bytes) → All IsBare (parse_station_dump u raw)
unfolding parse_station_dump
parse_station_dump-IsBare u raw =
    let (h, k) = read_lines-HasBare u (scan_from buffer_size [] raw).lines begin (tt, tt) in
    flushed-IsBare _ _ h k
