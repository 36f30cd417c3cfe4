-- ===== src/Wifi/Store/Race/Outcome.antt =====
-- The operations of the store as one function of the text that was read.
use pispot.Base.{◌≡◌, refl, true, ◌||◌, Option, none, some, length, ltb, Bool-cases, inl, inr}
use pispot.Go.Bytes.{Bytes, is_empty}
use pispot.Go.Space.{trim_space}
use pispot.Result.{Result, ok, err}
use pispot.Wifi.Config.{parse}
use pispot.Wifi.Store.Race.{Change, adding, dropping, Texts, refusal, new_text}
use pispot.Wifi.Store.{
  Files, Os, read_file, write_text, write, after_read, has_ssid, add, add_to, remove, remove_from,
}

-- No call fails but for a missing file.
abbrev pub working : Texts → Os
working texts = record {
  read_error = none;
  not_exist = texts.no_config;
  write_error = none;
  rename_error = none;
  removes = true;
}

-- The operation of the store.
pub stored : Texts → Change → Files → Result (Unit {0}) × Files
stored texts (adding ssid psk) fs = add texts.unicode (working texts) ssid psk fs
stored texts (dropping ssid) fs = remove texts.unicode (working texts) ssid fs

unfoldable pub outcome : Texts → Files → Result Bytes → Result (Unit {0}) × Files
outcome texts fs (err e) = (err e, fs)
outcome texts fs (ok text) = write_text (working texts) text fs

-- The operation behind its checks of the arguments.
unfoldable pub accepted : Texts → Change → Option Bytes → Files → Result (Unit {0}) × Files
accepted texts change (some e) fs = (err e, fs)
accepted texts change none fs =
    after_read (read_file (working texts) fs)
      (λ contents. outcome texts fs (new_text texts.unicode change contents)) fs

add_to-outcome :
    (texts : Texts) (ssid psk contents : Bytes) (fs : Files)
    → add_to texts.unicode (working texts) ssid psk contents fs
      ≡ outcome texts fs (new_text texts.unicode (adding ssid psk) contents)
unfolding add_to new_text outcome write
add_to-outcome texts ssid psk contents fs = elim (Bool-cases (parse contents).failed) [
  | inl failed ↦ rw failed
  | inr parsed ↦ elim (Bool-cases (has_ssid ssid (parse contents).networks)) [
    | inl dup ↦ rw (parsed, dup)
    | inr fresh ↦ rw (parsed, fresh)
  ]
]

remove_from-outcome :
    (texts : Texts) (ssid contents : Bytes) (fs : Files)
    → remove_from texts.unicode (working texts) ssid contents fs
      ≡ outcome texts fs (new_text texts.unicode (dropping ssid) contents)
unfolding remove_from new_text outcome write
remove_from-outcome texts ssid contents fs = elim (Bool-cases (parse contents).failed) [
  | inl failed ↦ rw failed
  | inr parsed ↦ elim (Bool-cases (has_ssid ssid (parse contents).networks)) [
    | inl found ↦ rw (parsed, found)
    | inr unknown ↦ rw (parsed, unknown)
  ]
]

after_read-same :
    (r : Result Bytes) (f g : Bytes → Result (Unit {0}) × Files) (fs : Files)
    → ((contents : Bytes) → f contents ≡ g contents)
    → after_read r f fs ≡ after_read r g fs
unfolding after_read
after_read-same (err e) f g fs same = refl
after_read-same (ok contents) f g fs same = same contents

pub stored-accepted :
    (texts : Texts) (change : Change) (fs : Files)
    → stored texts change fs ≡ accepted texts change (refusal change) fs
unfolding stored accepted refusal add remove
stored-accepted texts (adding ssid psk) fs = elim (Bool-cases (is_empty (trim_space ssid))) [
  | inl blank ↦ rw blank
  | inr named ↦ elim (Bool-cases (is_empty (trim_space psk))) [
    | inl blank ↦ rw (named, blank)
    | inr given ↦ elim (Bool-cases (ltb (length psk) 8 || ltb 63 (length psk))) [
      | inl long ↦ rw (named, given, long)
      | inr fits ↦
          rw (named, given, fits)
            (after_read-same _ _ _ fs (λ contents. add_to-outcome texts ssid psk contents fs))
    ]
  ]
]
stored-accepted texts (dropping ssid) fs =
    after_read-same _ _ _ fs (λ contents. remove_from-outcome texts ssid contents fs)
