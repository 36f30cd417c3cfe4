-- ===== src/Hotspot/Leases/Printed.antt =====
-- Files that dnsmasq prints, read back.
use pispot.Base.{
  ◌<◌, ◌≡◌, refl, sym, ap, ◌∙◌, false, inl, inr, Bool-cases, Option, none, some, List, [], ◌∷◌, map,
  All, if◌then◌else◌, length,
}
use pispot.Go.Bytes.{Bytes, lit, equal, has_prefix, is_empty}
use pispot.Go.Lines.{scan-unlines, unlines, IsLine, max_scan_token_size}
use pispot.Go.Lower.{to_lower}
use pispot.Go.Map.{Map, lookup, insert, lookup-insert}
use pispot.Go.Space.{trim_space, fields}
use pispot.Go.Space.Words.{
  IsWord, join_words, fields-join_words, trim_space-join_words, is_empty-join_words,
  join_words-IsLine,
}
use pispot.Go.Unicode.{Unicode}
use pispot.Hotspot.Leases.{
  LeaseEntry, lease_entry, read_fields, read_line, read_lines, parse_leases,
}

-- A lease as dnsmasq prints it.
pub record Lease : Type 0 where
  pub expiry : Bytes
  pub mac : Bytes
  pub ip : Bytes
  pub hostname : Bytes
  pub client_id : Bytes

abbrev words : Lease → List Bytes
words l = l.expiry ∷ l.mac ∷ l.ip ∷ l.hostname ∷ l.client_id ∷ []

unfoldable pub print_lease : Lease → Bytes
print_lease l = join_words (words l)

-- Its parts are words, it is no comment, and the scanner's buffer holds it.
pub record IsPrintable (l : Lease) : Type 0 where
  pub words_filled : All IsWord (words l)
  pub no_comment : has_prefix (print_lease l) (lit "#") ≡ false
  pub fits : length (print_lease l) < max_scan_token_size

read_line-print_lease :
    (u : Unicode) (l : Lease) (out : Map LeaseEntry)
    → IsPrintable l
    → read_line u (print_lease l) out ≡ insert (to_lower u l.mac) (lease_entry l.ip l.hostname) out
unfolding read_line read_fields
read_line-print_lease u l out h =
    let whole : trim_space (print_lease l) ≡ print_lease l =
      unfold print_lease in
      trim_space-join_words l.expiry (l.mac ∷ l.ip ∷ l.hostname ∷ l.client_id ∷ [])
        h.words_filled in
    let filled : is_empty (print_lease l) ≡ false =
      unfold print_lease in
      is_empty-join_words l.expiry (l.mac ∷ l.ip ∷ l.hostname ∷ l.client_id ∷ []) h.words_filled in
    let split : fields (print_lease l) ≡ words l =
      unfold print_lease in fields-join_words (words l) h.words_filled in
    rw (whole, filled, h.no_comment, split)

print_lease-IsLine : (l : Lease) → IsPrintable l → IsLine max_scan_token_size (print_lease l)
print_lease-IsLine l h =
    let fits = h.fits in
    unfold print_lease in
    join_words-IsLine l.expiry (l.mac ∷ l.ip ∷ l.hostname ∷ l.client_id ∷ []) h.words_filled fits

print_leases-IsLine :
    (ls : List Lease) → All IsPrintable ls → All (IsLine max_scan_token_size) (map print_lease ls)
print_leases-IsLine [] h = tt
print_leases-IsLine (l ∷ ls) (p, h) = (print_lease-IsLine l p, print_leases-IsLine ls h)

-- The entry of the last lease with the address, or else `other`.
pub last_lease : Unicode → Bytes → Option LeaseEntry → List Lease → Option LeaseEntry
last_lease u mac other [] = other
last_lease u mac other (l ∷ ls) =
    let here = last_lease u mac (some (lease_entry l.ip l.hostname)) ls in
    let not_here = last_lease u mac other ls in
    if equal (to_lower u l.mac) mac then here else not_here

last_lease-cons :
    (u : Unicode) (mac : Bytes) (other : Option LeaseEntry) (l : Lease) (ls : List Lease)
    → last_lease u mac other (l ∷ ls)
      ≡ last_lease u mac
          (if equal (to_lower u l.mac) mac then some (lease_entry l.ip l.hostname) else other)
          ls
unfolding last_lease
last_lease-cons u mac other l ls = elim (Bool-cases (equal (to_lower u l.mac) mac)) [
  | inl same ↦ rw same refl
  | inr differs ↦ rw differs refl
]

lookup-read_lines :
    (u : Unicode) (mac : Bytes) (ls : List Lease) (out : Map LeaseEntry)
    → All IsPrintable ls
    → lookup mac (read_lines u (map print_lease ls) out) ≡ last_lease u mac (lookup mac out) ls
unfolding read_lines last_lease
lookup-read_lines u mac [] out h = refl
lookup-read_lines u mac (l ∷ ls) out (p, h) =
    ap (λ items. lookup mac (read_lines u (map print_lease ls) items))
      (read_line-print_lease u l out p)
    ∙ lookup-read_lines u mac ls (insert (to_lower u l.mac) (lease_entry l.ip l.hostname) out) h
    ∙ ap (λ other. last_lease u mac other ls)
        (lookup-insert (to_lower u l.mac) mac (lease_entry l.ip l.hostname) out)
    ∙ sym (last_lease-cons u mac (lookup mac out) l ls)

-- Of a file of leases, each on a line that the scanner's buffer holds and that is no comment, an
-- address is looked up as the last lease of that address, in lower case, gives it, with no name for
-- `*`; an address without a lease is not found.
pub lookup-parse_leases :
    (u : Unicode) (mac : Bytes) (ls : List Lease)
    → All IsPrintable ls
    → lookup mac (parse_leases u (unlines (map print_lease ls))) ≡ last_lease u mac none ls
unfolding parse_leases
lookup-parse_leases u mac ls h =
    ap (λ lines. lookup mac (read_lines u lines []))
      (scan-unlines (map print_lease ls) (print_leases-IsLine ls h))
    ∙ lookup-read_lines u mac ls [] h
    ∙ ap (λ other. last_lease u mac other ls) (unfold lookup in refl)
