-- ===== src/Tests/Daemon.antt =====
-- pispot-authd on one host: the wlan1 interface is there, dhcpcd fails, and eve is an admin.
use pispot.Base.{◌≡◌, refl, ◌⊎◌, ◌||◌, true, false, none, some, [], ◌∷◌, if◌then◌else◌}
use pispot.Authd.{Env, Daemon, handle_auth, handle_request, handling}
use pispot.Authd.Auth.{Answers, handle_auth-Answers}
use pispot.Go.Bytes.{Bytes, lit, equal, is_empty}
use pispot.Go.Space.{trim_space}
use pispot.Go.Unicode.{Unicode}
use pispot.Groups.{Config, Names, resolve, expected, resolve-expected}
use pispot.Host.{Argv, Outcome, Host, found, is_missing}
use pispot.Result.{ok, err}
use pispot.Socket.{Request, request, op_auth}
use pispot.Wan.{wlan1_path, wireless_path, up_with, reload}
use pispot.Wan.Plan.{Runs, up_plan, reload_plan, up_with_lem, reload_lem}
use pispot.Wifi.Store.{Os}

abbrev pub tables : Unicode
tables = record { is_print = λ r. false; to_lower = λ r. r }

abbrev first_word : Argv → Bytes
first_word [] = []
first_word (word ∷ words) = word

-- Commands work, but for dhcpcd.
abbrev no_lease : Host
no_lease = record {
  stat = λ path. found;
  exec = λ ran argv.
      if equal (first_word argv) (lit "dhcpcd")
      then record { output = lit "timed out\n"; failed = some (lit "exit status 1") }
      else record { output = []; failed = none };
}

abbrev eve : Names
eve = record {
  lookup = λ name. if equal name (lit "eve") then ok (lit "1001") else err (lit "unknown user");
  group_ids = λ uid. ok (lit "50" ∷ lit "51" ∷ lit "52" ∷ []);
  group_name = λ gid.
      if equal gid (lit "50")
      then some (lit "pispot-ro")
      else if equal gid (lit "51")
      then some (lit "pispot-admin")
      else none;
}

abbrev group_config : Config
group_config = record { readonly_group = lit "pispot-ro"; admin_group = lit "pispot-admin" }

abbrev pam : Argv → Bytes → Outcome
pam argv input =
    if equal input (lit "s3cret\n")
    then record { output = []; failed = none }
    else record { output = lit "denied\n"; failed = some (lit "exit status 1") }

abbrev os : Os
os = record {
  read_error = none;
  not_exist = lit "no such file";
  write_error = none;
  rename_error = none;
  removes = true;
}

abbrev pub env : Env
env = record {
  unicode = tables;
  os = os;
  host = no_lease;
  names = eve;
  pam = pam;
  groups = group_config;
}

abbrev pub daemon : Daemon
daemon = record { files = record { config = some []; temp = none }; ran = [] }

abbrev login : Request
login = record (request op_auth) { username = lit "eve"; password = lit "s3cret" }

up_with_lem_example :
    (((is_missing (no_lease.stat wlan1_path) || is_missing (no_lease.stat wireless_path)) ≡ true)
      × ((e : Bytes) × (up_with no_lease trim_space [] ≡ (err e, []))))
    ⊎ (((is_missing (no_lease.stat wlan1_path) || is_missing (no_lease.stat wireless_path)) ≡ false)
        × Runs no_lease up_plan [] (up_with no_lease trim_space []))
up_with_lem_example = up_with_lem no_lease trim_space []

reload_lem_example :
    ((is_missing (no_lease.stat wlan1_path) ≡ true) × (reload no_lease [] ≡ (ok tt, [])))
    ⊎ ((is_missing (no_lease.stat wlan1_path) ≡ false)
        × Runs no_lease reload_plan [] (reload no_lease []))
reload_lem_example = reload_lem no_lease []

eve_known : eve.lookup (lit "eve") ≡ ok (lit "1001")
unfolding equal
eve_known = refl

resolve-expected_example :
    resolve tables eve group_config (lit "eve")
    ≡ expected eve group_config (lit "50" ∷ lit "51" ∷ lit "52" ∷ [])
resolve-expected_example =
    resolve-expected tables eve group_config (lit "eve") (lit "1001")
      (lit "50" ∷ lit "51" ∷ lit "52" ∷ []) eve_known refl

handle_auth-Answers_example : Answers env login (handle_auth env login)
handle_auth-Answers_example = handle_auth-Answers env login

login_named : is_empty (handle_request env login daemon).0.role ≡ false
unfolding handling equal resolve
login_named = refl
