-- ===== src/Tests/Settings.antt =====
-- The configuration of the daemon and that of the dashboard.
use pispot.Dashboard.Config.Start.{Encrypts, start_server, start_server-load}
use pispot.Go.Lower.{to_lower}
use pispot.Go.Space.{trim_space}
use pispot.Base.{
  ◌≡◌, refl, inl, Bool, true, false, not, ◌&&◌, none, some, List, [], ◌∷◌, String, arith, All, map,
  length, ltb, ◌==◌, if◌then◌else◌,
}
use pispot.Authd.Settings.{default_config, load_config}
use pispot.Authd.Settings.Printed.{
  Line, blank, remark, assigned, print_line, settings, is_ignored, IsPrintable, configured,
  load_config-settings,
}
use pispot.Go.Space.Padded.{is_trimmed}
use pispot.Dashboard.Config.{Environment, load}
use pispot.Go.Bytes.{Bytes, lit, equal, has_prefix, last_byte}
use pispot.Go.Lines.{unlines, IsLine, max_scan_token_size}
use pispot.Result.{ok}
use pispot.Tests.Daemon.{tables}

-- host/files/pispot-authd.conf
abbrev shipped : Bytes
shipped =
    lit
      "# pispot-authd configuration\n# Restart pispot-authd after changing group names:\n#   sudo systemctl restart pispot-authd\n\n[groups]\n# Unix group whose members get read-only dashboard access.\nreadonly = pispot-ro\n\n# Unix group whose members get full admin dashboard access.\n# Admin always wins if a user is in both groups.\nadmin    = pispot-admin\n"

abbrev note : String → Line
note text = remark [] (lit text) []

abbrev shipped_lines : List Line
shipped_lines =
    note "# pispot-authd configuration"
    ∷ note "# Restart pispot-authd after changing group names:"
    ∷ note "#   sudo systemctl restart pispot-authd"
    ∷ blank []
    ∷ note "[groups]"
    ∷ note "# Unix group whose members get read-only dashboard access."
    ∷ assigned [] (lit "readonly") (lit " ") (lit " ") (lit "pispot-ro") []
    ∷ blank []
    ∷ note "# Unix group whose members get full admin dashboard access."
    ∷ note "# Admin always wins if a user is in both groups."
    ∷ assigned [] (lit "admin") (lit "    ") (lit " ") (lit "pispot-admin") []
    ∷ []

shipped_printed : unlines (map print_line shipped_lines) ≡ shipped
unfolding unlines print_line
shipped_printed = refl

no_newline : Bytes → Bool
no_newline [] = true
no_newline (c ∷ s) = not (c == b'\n') && no_newline s

no_newline-All : (s : Bytes) → no_newline s ≡ true → All (λ c. (c == b'\n') ≡ false) s
unfolding no_newline
no_newline-All [] h = tt
no_newline-All (c ∷ s) h = (ground arith, no_newline-All s (ground arith))

-- A test for a line that the scanner takes whole.
abbrev is_line : Bytes → Bool
is_line s = no_newline s && ltb (length s) max_scan_token_size && not (last_byte s == b'\r')

is_line-IsLine : (s : Bytes) → is_line s ≡ true → IsLine max_scan_token_size s
is_line-IsLine s h = record {
  no_newline = no_newline-All s (ground arith);
  fits = ground arith;
  no_cr = ground arith;
}

blank-IsPrintable : IsPrintable (blank [])
unfolding print_line last_byte
blank-IsPrintable = record {
  written = tt;
  line = record { no_newline = tt; fits = omega arith; no_cr = refl };
}

note-IsPrintable :
    (text : String)
    → is_trimmed (lit text) ≡ true
    → is_ignored (lit text) ≡ true
    → is_line (print_line (note text)) ≡ true
    → IsPrintable (note text)
note-IsPrintable text trimmed ignored line = record {
  written = (tt, trimmed, tt, inl ignored);
  line = is_line-IsLine (print_line (note text)) line;
}

readonly-IsPrintable :
    IsPrintable (assigned [] (lit "readonly") (lit " ") (lit " ") (lit "pispot-ro") [])
unfolding print_line is_trimmed has_prefix last_byte no_newline
readonly-IsPrintable = record {
  written = (
    tt,
    record { trimmed = refl; plain = ground arith; listed = refl },
    (refl, tt),
    (refl, tt),
    refl,
    tt,
  );
  line = is_line-IsLine _ refl;
}

admin-IsPrintable :
    IsPrintable (assigned [] (lit "admin") (lit "    ") (lit " ") (lit "pispot-admin") [])
unfolding print_line is_trimmed has_prefix last_byte no_newline
admin-IsPrintable = record {
  written = (
    tt,
    record { trimmed = refl; plain = ground arith; listed = refl },
    (refl, (refl, (refl, (refl, tt)))),
    (refl, tt),
    refl,
    tt,
  );
  line = is_line-IsLine _ refl;
}

shipped-IsPrintable : All IsPrintable shipped_lines
unfolding print_line is_trimmed has_prefix last_byte no_newline
shipped-IsPrintable = (
  note-IsPrintable "# pispot-authd configuration" refl refl refl,
  (
    note-IsPrintable "# Restart pispot-authd after changing group names:" refl refl refl,
    (
      note-IsPrintable "#   sudo systemctl restart pispot-authd" refl refl refl,
      (
        blank-IsPrintable,
        (
          note-IsPrintable "[groups]" refl refl refl,
          (
            note-IsPrintable "# Unix group whose members get read-only dashboard access." refl refl
                refl,
            (
              readonly-IsPrintable,
              (
                blank-IsPrintable,
                (
                  note-IsPrintable "# Unix group whose members get full admin dashboard access."
                      refl refl refl,
                  (
                    note-IsPrintable "# Admin always wins if a user is in both groups." refl refl
                        refl,
                    (admin-IsPrintable, tt),
                  ),
                ),
              ),
            ),
          ),
        ),
      ),
    ),
  ),
)

load_config-settings_example :
    load_config (ok (unlines (map print_line shipped_lines)))
    ≡ (configured default_config (settings shipped_lines), none)
load_config-settings_example = load_config-settings shipped_lines shipped-IsPrintable

abbrev pub environment : Environment
environment key =
    if equal key (lit "WAN_IF")
    then some []
    else if equal key (lit "REQUIRE_TLS")
    then some (lit " YES ")
    else none

abbrev pub secured : Environment
secured key =
    if equal key (lit "TLS_CERT_FILE")
    then some (lit "/certs/fullchain.pem")
    else if equal key (lit "TLS_KEY_FILE")
    then some (lit "/certs/privkey.pem")
    else environment key

start_server-load_example : Encrypts secured (start_server (load tables secured))
unfolding equal to_lower trim_space
start_server-load_example = start_server-load tables secured (lit " YES ") refl refl refl
