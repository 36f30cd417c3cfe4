-- ===== src/Dashboard/Config.antt =====
-- dashboard/internal/config/config.go: the configuration of pispot-ui, from its environment.
pub mod Start
use pispot.Base.{
  ◌≡◌, refl, Bool, true, false, ◌||◌, inl, inr, Bool-cases, Option, none, some, [], if◌then◌else◌,
}
use pispot.Go.Bytes.{Bytes, lit, equal, is_empty}
use pispot.Go.Lower.{to_lower}
use pispot.Go.Space.{trim_space}
use pispot.Go.Unicode.{Unicode}

pub record Config : Type 0 where
  pub listen_addr : Bytes
  pub hotspot_if : Bytes
  pub wan_if : Bytes
  pub admin_if : Bytes
  pub proc_path : Bytes
  pub sys_path : Bytes
  pub leases_path : Bytes
  pub tls_cert_file : Bytes
  pub tls_key_file : Bytes
  pub require_tls : Bool
  pub auth_socket : Bytes
  pub auth_realm : Bytes
  pub dashboard_title : Bytes

-- os.LookupEnv
abbrev pub Environment : Type 0
Environment = Bytes → Option Bytes

value_or : Option Bytes → Bytes → Bytes
value_or none def = def
value_or (some v) def = if is_empty v then def else v

getenv : Environment → Bytes → Bytes → Bytes
getenv env key def = value_or (env key) def

-- The switch on the value, trimmed and in lower case.
truth : Bytes → Bool → Bool
truth word def =
    if equal word (lit "1")
      || equal word (lit "true")
      || equal word (lit "yes")
      || equal word (lit "on")
    then true
    else if equal word (lit "0")
        || equal word (lit "false")
        || equal word (lit "no")
        || equal word (lit "off")
    then false
    else def

bool_or : Unicode → Option Bytes → Bool → Bool
bool_or u none def = def
bool_or u (some v) def = if is_empty v then def else truth (to_lower u (trim_space v)) def

getenv_bool : Unicode → Environment → Bytes → Bool → Bool
getenv_bool u env key def = bool_or u (env key) def

pub load : Unicode → Environment → Config
load u env = record {
  listen_addr = getenv env (lit "LISTEN_ADDR") (lit ":8080");
  hotspot_if = getenv env (lit "HOTSPOT_IF") (lit "wlan0");
  wan_if = getenv env (lit "WAN_IF") (lit "wlan1");
  admin_if = getenv env (lit "ADMIN_IF") (lit "eth0");
  proc_path = getenv env (lit "PROC_PATH") (lit "/proc");
  sys_path = getenv env (lit "SYS_PATH") (lit "/sys");
  leases_path = getenv env (lit "LEASES_PATH") (lit "/var/lib/misc/dnsmasq.leases");
  tls_cert_file = getenv env (lit "TLS_CERT_FILE") [];
  tls_key_file = getenv env (lit "TLS_KEY_FILE") [];
  require_tls = getenv_bool u env (lit "REQUIRE_TLS") false;
  auth_socket = getenv env (lit "AUTH_SOCKET") [];
  auth_realm = getenv env (lit "AUTH_REALM") (lit "pispot");
  dashboard_title = getenv env (lit "DASHBOARD_TITLE") (lit "pispot");
}

-- An environment without its empty variables.
filled : Option Bytes → Option Bytes
filled none = none
filled (some v) = if is_empty v then none else some v

pub without_empty : Environment → Environment
without_empty env key = filled (env key)

value_or-filled : (v : Option Bytes) (def : Bytes) → value_or (filled v) def ≡ value_or v def
unfolding value_or filled
value_or-filled none def = refl
value_or-filled (some v) def = elim (Bool-cases (is_empty v)) [
  | inl blank ↦ rw blank refl
  | inr set ↦ rw set (rw set refl)
]

bool_or-filled :
    (u : Unicode) (v : Option Bytes) (def : Bool) → bool_or u (filled v) def ≡ bool_or u v def
unfolding bool_or filled
bool_or-filled u none def = refl
bool_or-filled u (some v) def = elim (Bool-cases (is_empty v)) [
  | inl blank ↦ rw blank refl
  | inr set ↦ rw set (rw set refl)
]

getenv-without_empty :
    (env : Environment) (key def : Bytes) → getenv (without_empty env) key def ≡ getenv env key def
unfolding getenv without_empty
getenv-without_empty env key def = value_or-filled (env key) def

getenv_bool-without_empty :
    (u : Unicode) (env : Environment) (key : Bytes) (def : Bool)
    → getenv_bool u (without_empty env) key def ≡ getenv_bool u env key def
unfolding getenv_bool without_empty
getenv_bool-without_empty u env key def = bool_or-filled u (env key) def

-- An empty variable counts as one that is not set, for every setting.
pub load-without_empty : (u : Unicode) (env : Environment) → load u (without_empty env) ≡ load u env
unfolding load
load-without_empty u env = simp (getenv-without_empty env, getenv_bool-without_empty u env)
