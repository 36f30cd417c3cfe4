-- ===== src/Hotspot/Stations/Order.antt =====
-- Which clients a station dump gives.
use pispot.Base.{
  ◌≡◌, refl, sym, ap, ◌∙◌, true, false, inl, inr, Bool-cases, Option, none, some, List, [], ◌∷◌,
  ◌++◌, map, append_assoc, append-nil, arith, if◌then◌else◌,
}
use pispot.Go.Bytes.{Bytes, lit, cut, has_prefix, is_empty}
use pispot.Go.Lines.{scan_from}
use pispot.Go.Lower.{to_lower}
use pispot.Go.Space.{trim_space, fields}
use pispot.Go.Unicode.{Unicode}
use pispot.Hotspot.Stations.{
  Client, Reader, update, read_value, flushed, station, read_cur, read_line, read_lines,
  buffer_size, begin, parse_station_dump,
}

-- The address that a line announces: the second word of a line that begins with "Station ".
second_word : Unicode → List Bytes → List Bytes
second_word u (word ∷ mac ∷ rest) = to_lower u mac ∷ []
second_word u _ = []

announced : Unicode → Bytes → List Bytes
announced u line =
    if has_prefix (trim_space line) (lit "Station ")
    then second_word u (fields (trim_space line))
    else []

pub stations : Unicode → List Bytes → List Bytes
stations u [] = []
stations u (line ∷ lines) = announced u line ++ stations u lines

abbrev pub macs : List Client → List Bytes
macs clients = map (λ (c : Client). c.mac) clients

abbrev all_macs : Reader → List Bytes
all_macs r = macs (flushed r.clients r.cur)

update-mac : (key value : Bytes) (c : Client) → (update key value c).mac ≡ c.mac
unfolding update
update-mac key value c = ground arith

read_value-mac : (parts : Option (Bytes × Bytes)) (c : Client) → (read_value parts c).mac ≡ c.mac
unfolding read_value
read_value-mac none c = refl
read_value-mac (some (key, value)) c = update-mac (trim_space key) (trim_space value) c

macs-append : (cs ds : List Client) → macs (cs ++ ds) ≡ macs cs ++ macs ds
macs-append [] ds = refl
macs-append (c ∷ cs) ds = ap (λ ms. c.mac ∷ ms) (macs-append cs ds)

flushed-read_cur :
    (line : Bytes) (clients : List Client) (cur : Option Client)
    → macs (flushed clients (read_cur line cur)) ≡ macs (flushed clients cur)
unfolding flushed read_cur
flushed-read_cur line clients none = refl
flushed-read_cur line clients (some c) =
    macs-append clients (read_value (cut b':' line) c ∷ [])
    ∙ ap (λ m. macs clients ++ m ∷ []) (read_value-mac (cut b':' line) c)
    ∙ sym (macs-append clients (c ∷ []))

flushed-station :
    (u : Unicode) (clients : List Client) (words : List Bytes)
    → macs (flushed clients (station u words)) ≡ macs clients ++ second_word u words
unfolding flushed station second_word
flushed-station u clients [] = sym (append-nil (macs clients))
flushed-station u clients (word ∷ []) = sym (append-nil (macs clients))
flushed-station u clients (word ∷ mac ∷ rest) = macs-append clients _

empty-no_prefix : (s : Bytes) → is_empty s ≡ true → has_prefix s (lit "Station ") ≡ false
unfolding has_prefix
empty-no_prefix [] h = refl
empty-no_prefix (c ∷ s) h = cc

read_line-macs :
    (u : Unicode) (line : Bytes) (r : Reader)
    → all_macs (read_line u line r) ≡ all_macs r ++ announced u line
unfolding read_line announced
read_line-macs u line r = elim (Bool-cases (is_empty (trim_space line))) [
  | inl blank ↦ rw (blank, empty-no_prefix (trim_space line) blank) (sym (append-nil _))
  | inr filled ↦ elim (Bool-cases (has_prefix (trim_space line) (lit "Station "))) [
    | inl header ↦
        rw (filled, header) (flushed-station u (flushed r.clients r.cur) (fields (trim_space line)))
    | inr other ↦
        rw (filled, other) (flushed-read_cur (trim_space line) r.clients r.cur ∙ sym (append-nil _))
  ]
]

read_lines-macs :
    (u : Unicode) (lines : List Bytes) (r : Reader)
    → all_macs (read_lines u lines r) ≡ all_macs r ++ stations u lines
unfolding read_lines stations
read_lines-macs u [] r = sym (append-nil (all_macs r))
read_lines-macs u (line ∷ lines) r =
    read_lines-macs u lines (read_line u line r)
    ∙ ap (λ ms. ms ++ stations u lines) (read_line-macs u line r)
    ∙ append_assoc (all_macs r) (announced u line) (stations u lines)

-- Whatever the text: each line that begins with "Station " and has a second word gives one client, in
-- the order of the lines, with that word in lower case for an address, and no other line gives one.
pub parse_station_dump-macs :
    (u : Unicode) (raw : Bytes)
    → macs (parse_station_dump u raw) ≡ stations u (scan_from buffer_size [] raw).lines
unfolding parse_station_dump
parse_station_dump-macs u raw =
    read_lines-macs u (scan_from buffer_size [] raw).lines begin ∙ unfold flushed in refl
