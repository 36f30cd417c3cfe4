-- ===== src/Wifi/Store/Refine.antt =====
-- The operations on the file against the operations on a list of networks.
use pispot.Base.{
  ◌≡◌, refl, ap, ◌∙◌, true, false, ◌||◌, none, some, List, [], ◌∷◌, arith, length, ltb, Bool-cases,
  inl, inr, All, All-append, map, select,
}
use pispot.Go.Bytes.{Bytes, is_empty, equal, equal_refl}
use pispot.Go.Space.{trim_space}
use pispot.Go.Lines.{unlines}
use pispot.Go.Quote.{quote_body}
use pispot.Go.Unicode.{Unicode}
use pispot.Result.{ok}
use pispot.Wifi.Config.{Network, parse, render}
use pispot.Wifi.Config.Header.{IsHeader}
use pispot.Wifi.Config.Blocks.{IsStorable, stored}
use pispot.Wifi.Config.RoundTrip.{parse-render}
use pispot.Wifi.Store.{
  Files, Os, read_file, rename_temp, write_text, write, after_read, list_from, has_ssid,
  without_ssid, add_to, add, remove_from, remove, list,
}
use pispot.Wifi.Store.Atomic.{Addable, Removable, added}

-- Quoting changes neither the name nor the password.
pub record IsVerbatim (u : Unicode) (n : Network) : Type 0 where
  pub storable : IsStorable u n
  pub ssid : quote_body u 0 n.ssid ≡ n.ssid
  pub psk : quote_body u 0 n.psk ≡ n.psk

-- The configuration file stands for a header and a list of networks.
pub record Holds (u : Unicode) (hs : List Bytes) (ns : List Network) (fs : Files) : Type 0 where
  pub header : IsHeader hs
  pub networks : All (IsVerbatim u) ns
  pub config : fs.config ≡ some (render u (unlines hs) ns)

-- No system call fails.
pub record IsWorking (os : Os) : Type 0 where
  pub reads : os.read_error ≡ none
  pub writes : os.write_error ≡ none
  pub renames : os.rename_error ≡ none

pub map-stored : (u : Unicode) (ns : List Network) → All (IsVerbatim u) ns → map (stored u) ns ≡ ns
map-stored u [] h = refl
map-stored u (n ∷ ns) (p, h) = λ i. record { ssid = p.ssid i; psk = p.psk i } ∷ map-stored u ns h i

pub All-storable : (u : Unicode) (ns : List Network) → All (IsVerbatim u) ns → All (IsStorable u) ns
All-storable u [] h = tt
All-storable u (n ∷ ns) (p, h) = (p.storable, All-storable u ns h)

-- The file is read back as the list that it stands for.
pub parse-verbatim :
    (u : Unicode) (hs : List Bytes) (ns : List Network)
    → IsHeader hs
    → All (IsVerbatim u) ns
    → parse (render u (unlines hs) ns)
      ≡ record { networks = ns; header = unlines hs; failed = false }
parse-verbatim u hs ns h k = parse-render u hs ns h (All-storable u ns k) ∙ rw (map-stored u ns k)

read_file-Holds :
    (u : Unicode) (os : Os) (hs : List Bytes) (ns : List Network) (fs : Files)
    → IsWorking os
    → Holds u hs ns fs
    → read_file os fs ≡ ok (render u (unlines hs) ns)
unfolding read_file
read_file-Holds u os hs ns fs w h = rw (w.reads, h.config)

-- `List` gives the list.
pub list-Holds :
    (u : Unicode) (os : Os) (hs : List Bytes) (ns : List Network) (fs : Files)
    → IsWorking os
    → Holds u hs ns fs
    → list os fs ≡ ok ns
unfolding list list_from
list-Holds u os hs ns fs w h =
    rw (read_file-Holds u os hs ns fs w h, parse-verbatim u hs ns h.header h.networks)

write-Holds :
    (u : Unicode) (os : Os) (hs : List Bytes) (ns : List Network) (fs : Files)
    → IsWorking os
    → IsHeader hs
    → All (IsVerbatim u) ns
    → ((write u os (unlines hs) ns fs).0 ≡ ok tt) × Holds u hs ns (write u os (unlines hs) ns fs).1
unfolding write write_text rename_temp
write-Holds u os hs ns fs w h k =
    rw (w.writes, w.renames) (refl, record { header = h; networks = k; config = refl })

-- On a working system, where the file holds a list of networks that %q leaves as they are: `Add` of a
-- further such network, with a name that is not blank and not in the list, and a password of 8 to 63
-- bytes that is not blank, succeeds, and the file holds the list with the network at its end.
pub add-Holds :
    (u : Unicode) (os : Os) (hs : List Bytes) (ns : List Network) (ssid psk : Bytes) (fs : Files)
    → IsWorking os
    → Holds u hs ns fs
    → IsVerbatim u (record { ssid = ssid; psk = psk })
    → Addable ssid psk ns
    → is_empty (trim_space psk) ≡ false
    → ((add u os ssid psk fs).0 ≡ ok tt) × Holds u hs (added ssid psk ns) (add u os ssid psk fs).1
unfolding add after_read add_to
add-Holds u os hs ns ssid psk fs w h v (fresh, named, low, high) given =
    let fits : ltb (length psk) 8 || ltb 63 (length psk) ≡ false = ground arith in
    rw
      (
        named,
        given,
        fits,
        read_file-Holds u os hs ns fs w h,
        parse-verbatim u hs ns h.header h.networks,
        fresh,
      )
      (write-Holds u os hs (added ssid psk ns) fs w h.header
        (All-append (IsVerbatim u) ns _ h.networks (v, tt)))

pub All-without_ssid :
    (P : Network → Type 0) (ssid : Bytes) (ns : List Network)
    → All P ns
    → All P (without_ssid ssid ns)
unfolding without_ssid select
All-without_ssid P ssid [] h = tt
All-without_ssid P ssid (n ∷ ns) (p, h) =
    let rest = All-without_ssid P ssid ns h in
    elim (Bool-cases (equal n.ssid ssid)) [ inl e ↦ rw e rest | inr e ↦ rw e (p, rest) ]

-- On a working system `Remove` of a network that is listed drops every network of that name.
pub remove-Holds :
    (u : Unicode) (os : Os) (hs : List Bytes) (ns : List Network) (ssid : Bytes) (fs : Files)
    → IsWorking os
    → Holds u hs ns fs
    → Removable ssid ns
    → ((remove u os ssid fs).0 ≡ ok tt) × Holds u hs (without_ssid ssid ns) (remove u os ssid fs).1
unfolding remove after_read remove_from
remove-Holds u os hs ns ssid fs w h found =
    rw (read_file-Holds u os hs ns fs w h, parse-verbatim u hs ns h.header h.networks, found)
      (write-Holds u os hs (without_ssid ssid ns) fs w h.header
        (All-without_ssid (IsVerbatim u) ssid ns h.networks))

has_ssid-fresh :
    (ssid psk : Bytes) (ns : List Network)
    → has_ssid ssid ns ≡ false
    → (has_ssid ssid (added ssid psk ns) ≡ true) × (without_ssid ssid (added ssid psk ns) ≡ ns)
unfolding has_ssid without_ssid select
has_ssid-fresh ssid psk [] h = rw (equal_refl ssid) (refl, refl)
has_ssid-fresh ssid psk (n ∷ ns) h =
    let here : equal n.ssid ssid ≡ false = ground arith in
    let (found, back) = has_ssid-fresh ssid psk ns (ground arith) in
    rw here (found, ap (λ t. n ∷ t) back)

-- On a working system `Remove` undoes `Add`: the file stands for the list that it stood for.
pub remove-add :
    (u : Unicode) (os : Os) (hs : List Bytes) (ns : List Network) (ssid psk : Bytes) (fs : Files)
    → IsWorking os
    → Holds u hs ns fs
    → IsVerbatim u (record { ssid = ssid; psk = psk })
    → Addable ssid psk ns
    → is_empty (trim_space psk) ≡ false
    → ((remove u os ssid (add u os ssid psk fs).1).0 ≡ ok tt)
      × Holds u hs ns (remove u os ssid (add u os ssid psk fs).1).1
remove-add u os hs ns ssid psk fs w h v addable given =
    let (_, holds) = add-Holds u os hs ns ssid psk fs w h v addable given in
    let (found, back) = has_ssid-fresh ssid psk ns addable.0 in
    rw back at
      (remove-Holds u os hs (added ssid psk ns) ssid (add u os ssid psk fs).1 w holds found)
