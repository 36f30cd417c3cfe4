-- ===== src/Authd/Auth.antt =====
-- What it takes for the daemon to grant a role, and what it says otherwise.
use mathlib.Core.Bool.{false≢true}
use pispot.Wan.{up, down, reload}
use pispot.Wifi.Store.{list, add, remove}
use pispot.Base.{
  ◌≡◌, refl, sym, true, false, ◌||◌, none, some, List, [], ◌∷◌, ◌++◌, inl, inr, arith, Bool-cases,
}
use pispot.Go.Bytes.{Bytes, lit, equal, equal_iff, is_empty}
use pispot.Groups.{Resolution, role, not_authorized, lookup_failed, resolve}
use pispot.Result.{Result, ok, err, Result-cases}
use pispot.Socket.{Request, Response, refused, succeeded, op_auth}
use pispot.Wifi.Config.{Network}
use pispot.Authd.{
  Env, Daemon, authenticate, answer, authorize, handle_auth, reply, reply_list, handle_wan_op,
  handle_wifi_list, handle_wifi_add, handle_wifi_remove, handle_wifi_reload, handle_request, handle,
}

-- The credentials are given, pamtester accepts them for the service pispot with the password on its
-- standard input, and the user's groups give the role.
pub record Accepts (env : Env) (username password r : Bytes) : Type 0 where
  pub named : is_empty username ≡ false
  pub given : is_empty password ≡ false
  pub authentic :
      (env.pam
        (lit "pamtester" ∷ lit "pispot" ∷ username ∷ lit "authenticate" ∷ [])
        (password ++ lit "\n")).failed
      ≡ none
  pub authorized : resolve env.unicode env.names env.groups username ≡ role r

-- The texts of a refusal. None tells what pamtester or the name service said.
pub data IsDenial : Bytes → Type 0 where
  missing : IsDenial (lit "username and password required")
  wrong : IsDenial (lit "authentication failed")
  outside : IsDenial (lit "not authorized")
  unknown : IsDenial (lit "authorization error")

-- Every answer to an authentication: the role of the user, who is accepted, or a refusal.
pub data Answers (env : Env) (req : Request) : Response → Type 0 where
  granted :
      (r : Bytes)
      → Accepts env req.username req.password r
      → Answers env req (record succeeded { username = req.username; role = r })
  denied : {text : Bytes} → IsDenial text → Answers env req (refused text)

answer-Answers :
    (env : Env) (req : Request) (resolved : Resolution)
    → is_empty req.username ≡ false
    → is_empty req.password ≡ false
    → authenticate env (lit "pispot") req.username req.password ≡ ok tt
    → resolve env.unicode env.names env.groups req.username ≡ resolved
    → Answers env req (answer req.username resolved)
unfolding answer authenticate
answer-Answers env req (role r) named given authentic resolved =
    granted r
      (record { named = named; given = given; authentic = ground arith; authorized = resolved })
answer-Answers env req not_authorized named given authentic resolved = denied outside
answer-Answers env req (lookup_failed e) named given authentic resolved = denied unknown

-- An authentication is answered with a role only if both credentials are given, pamtester accepts
-- them and the user's groups give that role; any other answer is one of four fixed texts.
pub handle_auth-Answers : (env : Env) (req : Request) → Answers env req (handle_auth env req)
unfolding handle_auth authorize
handle_auth-Answers env req = elim (Bool-cases (is_empty req.username || is_empty req.password)) [
  | inl blank ↦ rw blank (denied missing)
  | inr given ↦ elim (Result-cases (authenticate env (lit "pispot") req.username req.password)) [
    | inr (e, failed) ↦ rw (given, failed) (denied wrong)
    | inl (done, passed) ↦
        rw (given, passed)
          (answer-Answers env req (resolve env.unicode env.names env.groups req.username)
            (ground arith) (ground arith) passed refl)
  ]
]

Answers-role :
    (env : Env) (req : Request) {resp : Response}
    → Answers env req resp
    → is_empty resp.role ≡ false
    → Accepts env req.username req.password resp.role
Answers-role env req (granted r h) named = h
Answers-role env req (denied d) named = cc

reply-role : (r : Result (Unit {0})) → (reply r).role ≡ []
unfolding reply
reply-role (ok _) = refl
reply-role (err e) = refl

reply_list-role : (r : Result (List Network)) → (reply_list r).role ≡ []
unfolding reply_list
reply_list-role (ok _) = refl
reply_list-role (err e) = refl

handle_request-no_role :
    (env : Env) (req : Request) (d : Daemon)
    → equal req.op op_auth ≡ false
    → (handle_request env req d).0.role ≡ []
unfolding handle_request handle_wan_op handle_wifi_list handle_wifi_add handle_wifi_remove
    handle_wifi_reload
handle_request-no_role env req d other = ground (
  arith,
  reply-role (up env.host d.ran).0,
  reply-role (down env.host d.ran).0,
  reply-role (reload env.host d.ran).0,
  reply_list-role (list env.os d.files),
  reply-role (add env.unicode env.os req.ssid req.psk d.files).0,
  reply-role (remove env.unicode env.os req.ssid d.files).0,
)

handle_request-auth :
    (env : Env) (req : Request) (d : Daemon)
    → equal req.op op_auth ≡ true
    → handle_request env req d ≡ (handle_auth env req, d)
unfolding handle_request
handle_request-auth env req d is_auth = rw is_auth

-- No other operation gives a role: a response with a role answers an authentication, and its user is
-- accepted with that role.
pub handle_request-role :
    (env : Env) (req : Request) (d : Daemon)
    → is_empty (handle_request env req d).0.role ≡ false
    → (req.op ≡ op_auth) × Accepts env req.username req.password (handle_request env req d).0.role
handle_request-role env req d named = elim (Bool-cases (equal req.op op_auth)) [
  | inl is_auth ↦ (
    (equal_iff req.op op_auth).0 is_auth,
    rw (handle_request-auth env req d is_auth) (
        Answers-role env req (handle_auth-Answers env req)
          (rw (handle_request-auth env req d is_auth) at named)),
  )
  | inr other ↦ absurd (false≢true (sym (rw (handle_request-no_role env req d other) at named)))
]

pub handle-role :
    (env : Env) (req : Request) (d : Daemon)
    → is_empty (handle env (some req) d).0.role ≡ false
    → (req.op ≡ op_auth) × Accepts env req.username req.password (handle env (some req) d).0.role
unfolding handle
handle-role env req d named = handle_request-role env req d named
