-- ===== src/Authd/Settings/Printed.antt =====
-- What `loadConfig` makes of a file of settings, comments and sections.
use pispot.Base.{
  ℕ, ◌≡◌, ◌⊎◌, refl, sym, ap, ◌∙◌, Bool, true, false, ◌||◌, inl, inr, Bool-cases, none, some, List,
  [], ◌∷◌, ◌++◌, map, All, All-append, append_assoc, append-nil, arith, if◌then◌else◌, ◌==◌,
}
use pispot.Go.Bytes.{Bytes, lit, cut, equal, equal_iff, has_prefix, is_empty, last_byte}
use pispot.Go.Lines.{scan-unlines, scan-unlines-whole, unlines, IsLine, max_scan_token_size}
use pispot.Go.Space.{trim_space}
use pispot.Go.Space.Padded.{
  IsPad, is_trimmed, is_trimmed-between, is_trimmed-filled, trim_space-pad, trim_space-padded,
}
use pispot.Groups.{Config}
use pispot.Result.{ok}
use pispot.Authd.Settings.{
  default_config, assign, read_parts, read_line, read_lines, scanned, load_config,
}

pub record Setting : Type 0 where
  pub key : Bytes
  pub value : Bytes

-- A line of the file: white space, a text that is no setting, a setting, or one with an empty value.
-- White space may stand around each text.
pub data Line : Type 0 where
  blank : Bytes → Line
  remark : (lead text trail : Bytes) → Line
  assigned : (lead key before after value trail : Bytes) → Line
  cleared : (lead key before trail : Bytes) → Line

unfoldable pub print_line : Line → Bytes
print_line (blank pad) = pad
print_line (remark lead text trail) = lead ++ (text ++ trail)
print_line (assigned lead key before after value trail) =
    lead ++ ((key ++ ((before ++ b'=' ∷ after) ++ value)) ++ trail)
print_line (cleared lead key before trail) = lead ++ ((key ++ (before ++ b'=' ∷ [])) ++ trail)

-- The settings on the lines.
pub settings : List Line → List Setting
settings [] = []
settings (assigned lead key before after value trail ∷ ls) =
    record { key = key; value = value } ∷ settings ls
settings (cleared lead key before trail ∷ ls) = record { key = key; value = [] } ∷ settings ls
settings (blank pad ∷ ls) = settings ls
settings (remark lead text trail ∷ ls) = settings ls

abbrev pub is_ignored : Bytes → Bool
is_ignored text = has_prefix text (lit "#") || has_prefix text (lit "[")

-- A key begins and ends with visible ASCII, has no `=` in it, and does not begin like a comment or a
-- section.
pub record IsKey (key : Bytes) : Type 0 where
  pub trimmed : is_trimmed key ≡ true
  pub plain : All (λ c. (c == b'=') ≡ false) key
  pub listed : is_ignored key ≡ false

-- A text that is no setting is a comment, a section, or has no `=`; a value begins and ends with
-- visible ASCII.
abbrev pub IsWritten : Line → Type 0
IsWritten (blank pad) = IsPad pad
IsWritten (remark lead text trail) =
    IsPad lead
    × (is_trimmed text ≡ true)
    × IsPad trail
    × ((is_ignored text ≡ true) ⊎ (cut b'=' text ≡ none))
IsWritten (assigned lead key before after value trail) =
    IsPad lead × IsKey key × IsPad before × IsPad after × (is_trimmed value ≡ true) × IsPad trail
IsWritten (cleared lead key before trail) = IsPad lead × IsKey key × IsPad before × IsPad trail

-- The line is as above, and the scanner takes it whole.
pub record IsPrintable (l : Line) : Type 0 where
  pub written : IsWritten l
  pub line : IsLine max_scan_token_size (print_line l)

-- The value of the last setting with the key, or else `other`.
pub last_value : Bytes → Bytes → List Setting → Bytes
last_value key other [] = other
last_value key other (s ∷ ss) =
    let here = last_value key s.value ss in
    let not_here = last_value key other ss in if equal s.key key then here else not_here

-- What a line does to the configuration.
read : Line → Config → Config
read (assigned lead key before after value trail) cfg = assign key value cfg
read (cleared lead key before trail) cfg = assign key [] cfg
read _ cfg = cfg

cut-plain :
    (key rest : Bytes)
    → All (λ c. (c == b'=') ≡ false) key
    → cut b'=' (key ++ b'=' ∷ rest) ≡ some (key, rest)
unfolding cut
cut-plain [] rest h = refl
cut-plain (c ∷ key) rest (p, h) = rw (p, cut-plain key rest h)

pad-plain : (pad : Bytes) → IsPad pad → All (λ c. (c == b'=') ≡ false) pad
pad-plain [] h = tt
pad-plain (c ∷ pad) (p, h) = (ground arith, pad-plain pad h)

first-has_prefix :
    (s t : Bytes) (c : ℕ)
    → is_empty s ≡ false
    → has_prefix (s ++ t) (c ∷ []) ≡ has_prefix s (c ∷ [])
unfolding has_prefix
first-has_prefix [] t c h = cc
first-has_prefix (d ∷ s) t c h = ground arith

is_ignored-append : (s t : Bytes) → is_empty s ≡ false → is_ignored (s ++ t) ≡ is_ignored s
is_ignored-append s t h = rw (first-has_prefix s t b'#' h, first-has_prefix s t b'[' h)

-- A line is read as the text between its white space.
read_line-padded :
    (lead text trail : Bytes) (cfg : Config)
    → IsPad lead
    → is_trimmed text ≡ true
    → IsPad trail
    → read_line (lead ++ (text ++ trail)) cfg
      ≡ (if is_ignored text then cfg else read_parts (cut b'=' text) cfg)
unfolding read_line
read_line-padded lead text trail cfg hl h ht =
    rw (trim_space-padded lead text trail hl h ht, is_trimmed-filled text h)

-- A setting without the white space around it: `rest` is what stands behind its `=`.
read_line-setting :
    (lead key before rest trail : Bytes) (cfg : Config)
    → IsPad lead
    → IsKey key
    → IsPad before
    → is_trimmed (key ++ (before ++ b'=' ∷ rest)) ≡ true
    → IsPad trail
    → read_line (lead ++ ((key ++ (before ++ b'=' ∷ rest)) ++ trail)) cfg
      ≡ assign key (trim_space rest) cfg
read_line-setting lead key before rest trail cfg hl hk hb h ht =
    let filled = is_trimmed-filled key hk.trimmed in
    let outside : is_ignored (key ++ (before ++ b'=' ∷ rest)) ≡ false =
      is_ignored-append key (before ++ b'=' ∷ rest) filled ∙ hk.listed in
    let parts : cut b'=' (key ++ (before ++ b'=' ∷ rest)) ≡ some (key ++ before, rest) =
      ap (cut b'=') (sym (append_assoc key before (b'=' ∷ rest)))
      ∙ cut-plain (key ++ before) rest (All-append _ key before hk.plain (pad-plain before hb)) in
    let key_read : trim_space (key ++ before) ≡ key =
      trim_space-padded [] key before tt hk.trimmed hb in
    read_line-padded lead (key ++ (before ++ b'=' ∷ rest)) trail cfg hl h ht
    ∙ rw (outside, parts) (unfold read_parts in rw key_read refl)

read_line-print_line :
    (l : Line) (cfg : Config) → IsWritten l → read_line (print_line l) cfg ≡ read l cfg
unfolding print_line read
read_line-print_line (blank pad) cfg h = unfold read_line in rw (trim_space-pad pad h)
read_line-print_line (remark lead text trail) cfg (hl, h, ht, inl ignored) =
    read_line-padded lead text trail cfg hl h ht ∙ rw ignored
read_line-print_line (remark lead text trail) cfg (hl, h, ht, inr uncut) =
    read_line-padded lead text trail cfg hl h ht ∙ elim (Bool-cases (is_ignored text)) [
      | inl ignored ↦ rw ignored
      | inr outside ↦ rw (outside, uncut) (unfold read_parts in refl)
    ]
read_line-print_line (assigned lead key before after value trail) cfg (hl, hk, hb, ha, hv, ht) =
    let whole = is_trimmed-between key (before ++ b'=' ∷ after) value hk.trimmed hv in
    let moved = append_assoc before (b'=' ∷ after) value in
    let value_read : trim_space (after ++ value) ≡ value =
      ap (λ v. trim_space (after ++ v)) (sym (append-nil value))
      ∙ trim_space-padded after value [] ha hv tt in
    ap (λ t. read_line (lead ++ ((key ++ t) ++ trail)) cfg) moved
    ∙ read_line-setting lead key before (after ++ value) trail cfg hl hk hb (rw moved at whole) ht
    ∙ rw value_read
read_line-print_line (cleared lead key before trail) cfg (hl, hk, hb, ht) =
    read_line-setting lead key before [] trail cfg hl hk hb
      (is_trimmed-between key before (b'=' ∷ []) hk.trimmed (unfold is_trimmed last_byte in refl))
      ht
    ∙ ap (λ v. assign key v cfg) (trim_space-pad [] tt)

-- The configuration by the last values of the two keys.
abbrev pub configured : Config → List Setting → Config
configured cfg ss = record {
  readonly_group = last_value (lit "readonly") cfg.readonly_group ss;
  admin_group = last_value (lit "admin") cfg.admin_group ss;
}

keys_differ : equal (lit "readonly") (lit "admin") ≡ false
unfolding equal
keys_differ = refl

assign-last_value :
    (s : Setting) (ss : List Setting) (cfg : Config)
    → configured (assign s.key s.value cfg) ss ≡ configured cfg (s ∷ ss)
unfolding assign last_value
assign-last_value s ss cfg = elim (Bool-cases (equal s.key (lit "readonly"))) [
  | inl readonly ↦
      let other =
        ap (λ key. equal key (lit "admin")) ((equal_iff s.key (lit "readonly")).0 readonly)
        ∙ keys_differ in
      rw (readonly, other) refl
  | inr other ↦ elim (Bool-cases (equal s.key (lit "admin"))) [
    | inl admin ↦ rw (other, admin) refl
    | inr neither ↦ rw (other, neither) refl
  ]
]

read-settings :
    (l : Line) (ls : List Line) (cfg : Config)
    → configured (read l cfg) (settings ls) ≡ configured cfg (settings (l ∷ ls))
unfolding read settings
read-settings (blank pad) ls cfg = refl
read-settings (remark lead text trail) ls cfg = refl
read-settings (assigned lead key before after value trail) ls cfg =
    assign-last_value (record { key = key; value = value }) (settings ls) cfg
read-settings (cleared lead key before trail) ls cfg =
    assign-last_value (record { key = key; value = [] }) (settings ls) cfg

read_lines-settings :
    (ls : List Line) (cfg : Config)
    → All IsPrintable ls
    → read_lines (map print_line ls) cfg ≡ configured cfg (settings ls)
unfolding read_lines
read_lines-settings [] cfg h = unfold last_value settings in refl
read_lines-settings (l ∷ ls) cfg (p, h) =
    ap (read_lines (map print_line ls)) (read_line-print_line l cfg p.written)
    ∙ read_lines-settings ls (read l cfg) h
    ∙ read-settings l ls cfg

lines-IsLine :
    (ls : List Line) → All IsPrintable ls → All (IsLine max_scan_token_size) (map print_line ls)
lines-IsLine [] h = tt
lines-IsLine (l ∷ ls) (p, h) = (p.line, lines-IsLine ls h)

-- Of a file of blank lines, comments, sections, lines without `=` and settings, with white space around
-- every text and a value that may be empty, each on a line that the scanner takes whole: the two groups
-- are the values of the last setting of readonly and of admin, or else pispot-ro and pispot-admin; other
-- keys count for nothing, and there is no error.
pub load_config-settings :
    (ls : List Line)
    → All IsPrintable ls
    → load_config (ok (unlines (map print_line ls)))
      ≡ (configured default_config (settings ls), none)
unfolding load_config scanned
load_config-settings ls h =
    let lines = lines-IsLine ls h in
    rw (scan-unlines (map print_line ls) lines, scan-unlines-whole (map print_line ls) lines)
      (ap (λ (cfg : Config). (cfg, none)) (read_lines-settings ls default_config h))
