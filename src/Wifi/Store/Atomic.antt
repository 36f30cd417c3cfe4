-- ===== src/Wifi/Store/Atomic.antt =====
-- An operation that fails leaves the configuration file as it was, and one that succeeds writes
-- exactly the new list.
use pispot.Base.{
  ◌≡◌, true, false, ◌||◌, some, List, [], ◌∷◌, ◌++◌, arith, length, ltb, ◌≤◌, Bool-cases, inl, inr,
}
use pispot.Go.Bytes.{Bytes, is_empty}
use pispot.Go.Space.{trim_space}
use pispot.Go.Unicode.{Unicode}
use pispot.Result.{Result, ok, err, Result-cases}
use pispot.Wifi.Config.{Network, parse, render}
use pispot.Wifi.Store.{
  Files, Os, read_file, rename_temp, write_text, write, after_read, has_ssid, without_ssid, add_to,
  add, remove_from, remove,
}

-- With an error the file is what it was; without one it is the text given.
abbrev Written : Files → Bytes → Result (Unit {0}) × Files → Type 0
Written fs contents (ok _, fs') = fs'.config ≡ some contents
Written fs contents (err _, fs') = fs'.config ≡ fs.config

write-Written :
    (u : Unicode) (os : Os) (header : Bytes) (ns : List Network) (fs : Files)
    → Written fs (render u header ns) (write u os header ns fs)
unfolding write write_text rename_temp
write-Written u os header ns fs = ground arith

-- What `Add` and `Remove` have read, and what they leave. `new` gives the networks to write,
-- `Allowed` the tests that were passed.
abbrev pub Changes :
    Unicode
    → Files
    → (List Network → List Network)
    → (List Network → Type 0)
    → Result (Unit {0}) × Files
    → Type 0
Changes u fs new Allowed (err _, fs') = fs'.config ≡ fs.config
Changes u fs new Allowed (ok _, fs') =
    (contents : Bytes) × (fs.config ≡ some contents)
    × ((parse contents).failed ≡ false)
    × Allowed (parse contents).networks
    × (fs'.config ≡ some (render u (parse contents).header (new (parse contents).networks)))

write-Changes :
    (u : Unicode) (os : Os) (contents : Bytes) (fs : Files) (new : List Network → List Network)
    (Allowed : List Network → Type 0)
    → fs.config ≡ some contents
    → (parse contents).failed ≡ false
    → Allowed (parse contents).networks
    → Changes u fs new Allowed
        (write u os (parse contents).header (new (parse contents).networks) fs)
write-Changes u os contents fs new Allowed there parsed allowed =
    go (write u os (parse contents).header (new (parse contents).networks) fs)
      (write-Written u os (parse contents).header (new (parse contents).networks) fs)
  where
    go :
        (r : Result (Unit {0}) × Files)
        → Written fs (render u (parse contents).header (new (parse contents).networks)) r
        → Changes u fs new Allowed r
    go (ok _, fs') w = (contents, there, parsed, allowed, w)
    go (err _, fs') w = w

read_file-eq-ok :
    (os : Os) (fs : Files) (contents : Bytes)
    → read_file os fs ≡ ok contents
    → fs.config ≡ some contents
unfolding read_file
read_file-eq-ok os fs contents h = ground arith

abbrev pub Addable : Bytes → Bytes → List Network → Type 0
Addable ssid psk ns =
    (has_ssid ssid ns ≡ false)
    × (is_empty (trim_space ssid) ≡ false)
    × (8 ≤ length psk)
    × (length psk ≤ 63)

abbrev pub added : Bytes → Bytes → List Network → List Network
added ssid psk ns = ns ++ record { ssid = ssid; psk = psk } ∷ []

add_to-Changes :
    (u : Unicode) (os : Os) (ssid psk contents : Bytes) (fs : Files)
    → fs.config ≡ some contents
    → is_empty (trim_space ssid) ≡ false
    → 8 ≤ length psk
    → length psk ≤ 63
    → Changes u fs (added ssid psk) (Addable ssid psk) (add_to u os ssid psk contents fs)
unfolding add_to
add_to-Changes u os ssid psk contents fs there named low high =
    elim (Bool-cases (parse contents).failed) [
      | inl failed ↦ rw failed
      | inr parsed ↦ elim (Bool-cases (has_ssid ssid (parse contents).networks)) [
        | inl dup ↦ rw (parsed, dup)
        | inr fresh ↦
            rw (parsed, fresh)
              (write-Changes u os contents fs (added ssid psk) (Addable ssid psk) there parsed
                (fresh, named, low, high))
      ]
    ]

-- Whatever the operating system does, an `Add` that returns an error leaves the configuration as it
-- was; one that succeeds has read a file that holds no network of that name, with a name that is not
-- blank and a password of 8 to 63 bytes, and writes the header and the networks that it read with the
-- new one behind them.
pub add-Changes :
    (u : Unicode) (os : Os) (ssid psk : Bytes) (fs : Files)
    → Changes u fs (added ssid psk) (Addable ssid psk) (add u os ssid psk fs)
unfolding add after_read
add-Changes u os ssid psk fs = elim (Bool-cases (is_empty (trim_space ssid))) [
  | inl blank ↦ rw blank
  | inr named ↦ elim (Bool-cases (is_empty (trim_space psk))) [
    | inl blank ↦ rw (named, blank)
    | inr given ↦ elim (Bool-cases (ltb (length psk) 8 || ltb 63 (length psk))) [
      | inl long ↦ rw (named, given, long)
      | inr fits ↦ elim (Result-cases (read_file os fs)) [
        | inr (e, unread) ↦ rw (named, given, fits, unread)
        | inl (contents, read) ↦
            rw (named, given, fits, read)
              (add_to-Changes u os ssid psk contents fs (read_file-eq-ok os fs contents read) named
                (ground arith) (ground arith))
      ]
    ]
  ]
]

abbrev pub Removable : Bytes → List Network → Type 0
Removable ssid ns = has_ssid ssid ns ≡ true

remove_from-Changes :
    (u : Unicode) (os : Os) (ssid contents : Bytes) (fs : Files)
    → fs.config ≡ some contents
    → Changes u fs (without_ssid ssid) (Removable ssid) (remove_from u os ssid contents fs)
unfolding remove_from
remove_from-Changes u os ssid contents fs there = elim (Bool-cases (parse contents).failed) [
  | inl failed ↦ rw failed
  | inr parsed ↦ elim (Bool-cases (has_ssid ssid (parse contents).networks)) [
    | inr unknown ↦ rw (parsed, unknown)
    | inl found ↦
        rw (parsed, found)
          (write-Changes u os contents fs (without_ssid ssid) (Removable ssid) there parsed found)
  ]
]

-- Whatever the operating system does, a `Remove` that returns an error leaves the configuration as
-- it was; one that succeeds has read a file that holds a network of that name, and writes the header
-- and the networks of every other name that it read, in their order.
pub remove-Changes :
    (u : Unicode) (os : Os) (ssid : Bytes) (fs : Files)
    → Changes u fs (without_ssid ssid) (Removable ssid) (remove u os ssid fs)
unfolding remove after_read
remove-Changes u os ssid fs = elim (Result-cases (read_file os fs)) [
  | inr (e, unread) ↦ rw unread
  | inl (contents, read) ↦
      rw read (remove_from-Changes u os ssid contents fs (read_file-eq-ok os fs contents read))
]
