-- ===== src/Dashboard/Config/Start.antt =====
-- dashboard/cmd/pispot-ui/main.go: whether the server starts, and whether it speaks TLS.
use pispot.Base.{
  ◌≡◌, refl, Bool, true, false, not, ◌&&◌, ◌||◌, Option, none, some, [], if◌then◌else◌, Bool-cases,
  inl, inr, arith, ap, sym, ◌∙◌,
}
use pispot.Dashboard.Config.{
  Config, Environment, value_or, getenv, truth, bool_or, getenv_bool, load,
}
use pispot.Go.Bytes.{Bytes, lit, equal, is_empty}
use pispot.Go.Lower.{to_lower}
use pispot.Go.Space.{trim_space}
use pispot.Go.Unicode.{Unicode}

-- What `main` comes to in front of its wait for a signal.
pub data Start : Type 0 where
  refuses : Bytes → Start
  serves_tls : Bytes → Bytes → Bytes → Start
  serves_plain : Bytes → Start

tls_enabled : Config → Bool
tls_enabled cfg = not (is_empty cfg.tls_cert_file) && not (is_empty cfg.tls_key_file)

differ : Bool → Bool → Bool
differ a b = a && not b || not a && b

pub start_server : Config → Start
start_server cfg =
    if differ (is_empty cfg.tls_cert_file) (is_empty cfg.tls_key_file)
    then refuses (lit "TLS_CERT_FILE and TLS_KEY_FILE must be set together")
    else if cfg.require_tls && not (tls_enabled cfg)
    then refuses (lit "REQUIRE_TLS is true but TLS_CERT_FILE/TLS_KEY_FILE are not both set")
    else if tls_enabled cfg
    then serves_tls cfg.listen_addr cfg.tls_cert_file cfg.tls_key_file
    else serves_plain cfg.listen_addr

-- Words that switch a setting on.
abbrev pub is_on : Bytes → Bool
is_on word =
    equal word (lit "1")
    || equal word (lit "true")
    || equal word (lit "yes")
    || equal word (lit "on")

-- Plain HTTP is never served, and TLS only with the two files that the environment names.
pub Encrypts : Environment → Start → Type 0
Encrypts env (refuses e) = Unit
Encrypts env (serves_tls addr cert key) =
    (env (lit "TLS_CERT_FILE") ≡ some cert) × (env (lit "TLS_KEY_FILE") ≡ some key)
Encrypts env (serves_plain addr) = ⊥

value_or-set : (v : Option Bytes) → is_empty (value_or v []) ≡ false → v ≡ some (value_or v [])
unfolding value_or
value_or-set none h = ground arith
value_or-set (some v) h = elim (Bool-cases (is_empty v)) [
  | inl blank ↦ ground arith
  | inr set ↦ rw set refl
]

bool_or-on :
    (u : Unicode) (v : Bytes) (def : Bool)
    → is_empty v ≡ false
    → is_on (to_lower u (trim_space v)) ≡ true
    → bool_or u (some v) def ≡ true
unfolding bool_or truth
bool_or-on u v def filled on = rw (filled, on) refl

start_server-Encrypts :
    (env : Environment) (cfg : Config)
    → cfg.require_tls ≡ true
    → cfg.tls_cert_file ≡ value_or (env (lit "TLS_CERT_FILE")) []
    → cfg.tls_key_file ≡ value_or (env (lit "TLS_KEY_FILE")) []
    → Encrypts env (start_server cfg)
unfolding start_server tls_enabled differ Encrypts
start_server-Encrypts env cfg require cert key = elim (Bool-cases (is_empty cfg.tls_cert_file)) [
  | inl no_cert ↦ elim (Bool-cases (is_empty cfg.tls_key_file)) [
    | inl no_key ↦ rw (no_cert, no_key, require) tt
    | inr has_key ↦ rw (no_cert, has_key) tt
  ]
  | inr has_cert ↦ elim (Bool-cases (is_empty cfg.tls_key_file)) [
    | inl no_key ↦ rw (has_cert, no_key) tt
    | inr has_key ↦
        rw (has_cert, has_key, require)
          (
            value_or-set (env (lit "TLS_CERT_FILE")) (ap (λ s. is_empty s) (sym cert) ∙ has_cert)
                ∙ ap some (sym cert),
            value_or-set (env (lit "TLS_KEY_FILE")) (ap (λ s. is_empty s) (sym key) ∙ has_key)
                ∙ ap some (sym key),
          )
  ]
]

-- Where REQUIRE_TLS is set to 1, true, yes or on, in any case and with spaces around it, the dashboard
-- either does not start or serves TLS with the certificate and the key that the environment names.
pub start_server-load :
    (u : Unicode) (env : Environment) (v : Bytes)
    → env (lit "REQUIRE_TLS") ≡ some v
    → is_empty v ≡ false
    → is_on (to_lower u (trim_space v)) ≡ true
    → Encrypts env (start_server (load u env))
unfolding load getenv getenv_bool
start_server-load u env v set filled on =
    start_server-Encrypts env (load u env)
      (ap (λ value. bool_or u value false) set ∙ bool_or-on u v false filled on) refl refl
