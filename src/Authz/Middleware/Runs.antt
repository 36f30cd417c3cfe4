-- ===== src/Authz/Middleware/Runs.antt =====
-- Who gets past the middleware, over every row of requests.
use pispot.Base.{
  ℕ, ◌+◌, ◌≤◌, ◌≡◌, refl, sym, ap, ◌∙◌, ◌⊎◌, inl, inr, true, false, Option, none, some, List, [],
  ◌∷◌, Any, Any-map, Bool-cases, Option-cases, arith,
}
use pispot.Authz.Cache.{AuthCache, CachedEntry, cache_ttl, cache_key, get, set}
use pispot.Authz.Cache.Keys.{IsDigest, cache_key-injective, lookup-set, get-eq-some}
use pispot.Authz.Middleware.{
  Settings, Visit, pass, on_miss, on_cache, on_credentials, decide, after,
}
use pispot.Go.Bytes.{Bytes, lit, equal, equal_iff, is_empty}
use pispot.Go.Map.{lookup}
use pispot.Result.{Result, ok, err}
use pispot.Socket.{Response}

-- `cache'` is `cache` with what a granted authentication of the visit stores.
pub record Stores (st : Settings) (v : Visit) (cache cache' : AuthCache) : Type 0 where
  pub username : Bytes
  pub password : Bytes
  pub resp : Response
  pub credentials : v.http.basic_auth ≡ some (username, password)
  pub answered : v.helper ≡ ok resp
  pub success : resp.success ≡ true
  pub stored : cache' ≡ set st.digest v.written_at username password resp.role cache

abbrev Changes : Settings → Visit → AuthCache → AuthCache → Type 0
Changes st v cache cache' = (cache' ≡ cache) ⊎ Stores st v cache cache'

on_miss-Changes :
    (st : Settings) (v : Visit) (username password : Bytes) (helper : Result Response)
    (cache : AuthCache)
    → v.http.basic_auth ≡ some (username, password)
    → v.helper ≡ helper
    → Changes st v cache (on_miss st v username password helper cache).1
unfolding on_miss
on_miss-Changes st v username password (err e) cache creds answered = inl refl
on_miss-Changes st v username password (ok resp) cache creds answered =
    elim (Bool-cases resp.success) [
      | inl success ↦ rw success (
          inr (record {
            username = username;
            password = password;
            resp = resp;
            credentials = creds;
            answered = answered;
            success = success;
            stored = refl;
          }))
      | inr denied ↦ rw denied (inl refl)
    ]

on_cache-Changes :
    (st : Settings) (v : Visit) (username password : Bytes) (found : Option Bytes)
    (cache : AuthCache)
    → v.http.basic_auth ≡ some (username, password)
    → Changes st v cache (on_cache st v username password found cache).1
unfolding on_cache
on_cache-Changes st v username password (some role) cache creds = inl refl
on_cache-Changes st v username password none cache creds =
    on_miss-Changes st v username password v.helper cache creds refl

on_credentials-Changes :
    (st : Settings) (v : Visit) (creds : Option (Bytes × Bytes)) (cache : AuthCache)
    → v.http.basic_auth ≡ creds
    → Changes st v cache (on_credentials st v creds cache).1
unfolding on_credentials
on_credentials-Changes st v none cache e = inl refl
on_credentials-Changes st v (some (username, password)) cache e =
    elim (Bool-cases (is_empty username)) [
      | inl blank ↦ rw blank (inl refl)
      | inr named ↦ rw named (on_cache-Changes st v username password _ cache e)
    ]

decide-Changes :
    (st : Settings) (v : Visit) (cache : AuthCache) → Changes st v cache (decide st v cache).1
unfolding decide
decide-Changes st v cache = elim (Bool-cases (is_empty st.socket_path)) [
  | inl off ↦ rw off (inl refl)
  | inr on ↦ elim (Bool-cases (equal v.http.path (lit "/healthz"))) [
    | inl probe ↦ rw (on, probe) (inl refl)
    | inr other ↦ rw (on, other) (on_credentials-Changes st v v.http.basic_auth cache refl)
  ]
]

-- The daemon answered a visit with the name `username`, and a password of the same digest, by the
-- role `role`, and the answer was stored at `time`.
pub record Vouches (st : Settings) (w : Visit) (username password role : Bytes) (time : ℕ)
    : Type 0 where
  pub password' : Bytes
  pub resp : Response
  pub credentials : w.http.basic_auth ≡ some (username, password')
  pub same_digest : st.digest password' ≡ st.digest password
  pub answered : w.helper ≡ ok resp
  pub success : resp.success ≡ true
  pub same_role : resp.role ≡ role
  pub same_time : w.written_at ≡ time

-- The same, where the answer is good until `expires`.
abbrev Vouched : Settings → Visit → Bytes → Bytes → Bytes → ℕ → Type 0
Vouched st w username password role expires =
    (time : ℕ) × Vouches st w username password role time × (expires ≡ time + cache_ttl)

-- Every entry of the cache stands for an answer of the daemon.
abbrev Backed : Settings → List Visit → AuthCache → Type 0
Backed st past cache =
    (username password : Bytes) (e : CachedEntry)
    → lookup (cache_key st.digest username password) cache ≡ some e
    → Any (λ w. Vouched st w username password e.role e.expires) past

-- The entry that a visit stored.
Stores-Vouches :
    (st : Settings) (v : Visit) (cache cache' : AuthCache) (s : Stores st v cache cache')
    (username password : Bytes) (e : CachedEntry)
    → IsDigest st.digest
    → cache_key st.digest s.username s.password ≡ cache_key st.digest username password
    → some (record { role = s.resp.role; expires = v.written_at + cache_ttl }) ≡ some e
    → Vouched st v username password e.role e.expires
Stores-Vouches st v cache cache' s username password e h keys entry =
    let (names, digests) =
      cache_key-injective st.digest s.username s.password username password h keys in
    (
      v.written_at,
      record {
        password' = s.password;
        resp = s.resp;
        credentials = s.credentials ∙ ap (λ n. some (n, s.password)) names;
        same_digest = digests;
        answered = s.answered;
        success = s.success;
        same_role = ground arith;
        same_time = refl;
      },
      ground arith,
    )

Stores-Backed :
    (st : Settings) (v : Visit) (past : List Visit) (cache cache' : AuthCache)
    → IsDigest st.digest
    → Backed st past cache
    → Stores st v cache cache'
    → Backed st (v ∷ past) cache'
Stores-Backed st v past cache cache' h backed s username password e found =
    let key = cache_key st.digest username password in
    let there =
      sym (lookup-set st.digest v.written_at s.username s.password s.resp.role key cache)
      ∙ sym (ap (lookup key) s.stored)
      ∙ found in
    elim (Bool-cases (equal (cache_key st.digest s.username s.password) key)) [
      | inl same ↦ inl (
          Stores-Vouches st v cache cache' s username password e h ((equal_iff _ _).0 same)
            (rw same at there))
      | inr other ↦ inr (backed username password e (rw other at there))
    ]

pass-injective : {a b : Bytes} → pass a ≡ pass b → a ≡ b
pass-injective e = cc

pub after-nil : (st : Settings) → after st [] ≡ []
unfolding after
after-nil st = refl

pub after-cons :
    (st : Settings) (v : Visit) (past : List Visit)
    → after st (v ∷ past) ≡ (decide st v (after st past)).1
unfolding after
after-cons st v past = refl

after-Backed :
    (st : Settings) (past : List Visit) → IsDigest st.digest → Backed st past (after st past)
after-Backed st [] h username password e found = absurd (unfold after lookup in cc)
after-Backed st (v ∷ past) h username password e found =
    let backed = after-Backed st past h in
    let there = rw (after-cons st v past) at found in
    elim (decide-Changes st v (after st past)) [
      | inl same ↦ inr (backed username password e (rw same at there))
      | inr s ↦ Stores-Backed st v past _ _ h backed s username password e there
    ]

-- The daemon accepted the visit's own credentials, in this visit or in an earlier one whose answer
-- was stored no more than five minutes before the cache was read.
pub record Entitled (st : Settings) (past : List Visit) (v : Visit) (role : Bytes) : Type 0 where
  pub username : Bytes
  pub password : Bytes
  pub credentials : v.http.basic_auth ≡ some (username, password)
  pub named : is_empty username ≡ false
  pub accepted :
      Vouches st v username password role v.written_at
      ⊎ Any
          (λ w.
            (time : ℕ) × Vouches st w username password role time × (v.read_at ≤ time + cache_ttl))
          past

fresh-Entitled :
    (st : Settings) (past : List Visit) (v : Visit) (username password r : Bytes)
    (helper : Result Response) (cache : AuthCache)
    → v.http.basic_auth ≡ some (username, password)
    → is_empty username ≡ false
    → v.helper ≡ helper
    → (on_miss st v username password helper cache).0 ≡ pass r
    → Entitled st past v r
unfolding on_miss
fresh-Entitled st past v username password r (err e) cache creds named answered passed = cc
fresh-Entitled st past v username password r (ok resp) cache creds named answered passed = record {
  username = username;
  password = password;
  credentials = creds;
  named = named;
  accepted = inl (record {
    password' = password;
    resp = resp;
    credentials = creds;
    same_digest = refl;
    answered = answered;
    success = ground arith;
    same_role = ground arith;
    same_time = refl;
  });
}

cached-Entitled :
    (st : Settings) (past : List Visit) (v : Visit) (username password r : Bytes)
    → IsDigest st.digest
    → v.http.basic_auth ≡ some (username, password)
    → is_empty username ≡ false
    → get st.digest v.read_at username password (after st past) ≡ some r
    → Entitled st past v r
cached-Entitled st past v username password r h creds named found =
    let (e, there, same, good) = get-eq-some st.digest v.read_at username password r _ found in
    record {
      username = username;
      password = password;
      credentials = creds;
      named = named;
      accepted = inr (
          Any-map past
            (λ w (time, vouches, expires). (time, rw same at vouches, rw expires at good))
            (after-Backed st past h username password e there));
    }

credentials-Entitled :
    (st : Settings) (past : List Visit) (v : Visit) (r : Bytes) (creds : Option (Bytes × Bytes))
    → IsDigest st.digest
    → v.http.basic_auth ≡ creds
    → (on_credentials st v creds (after st past)).0 ≡ pass r
    → Entitled st past v r
unfolding on_credentials on_cache
credentials-Entitled st past v r none h e passed = cc
credentials-Entitled st past v r (some (username, password)) h e passed =
    elim (Bool-cases (is_empty username)) [
      | inl blank ↦ absurd (let no = rw blank at passed in cc)
      | inr named ↦
          let p = rw named at passed in
          elim (Option-cases (get st.digest v.read_at username password (after st past))) [
            | inl missed ↦
                fresh-Entitled st past v username password r v.helper (after st past) e named refl
                  (rw missed at p)
            | inr (role, found) ↦
                cached-Entitled st past v username password r h e named
                  (found ∙ ap some (pass-injective (rw found at p)))
          ]
    ]

-- With an auth socket, a request that the middleware lets through either is for /healthz and has no
-- role, or has credentials with a name that the daemon accepted with that role: in answer to this
-- request, or to an earlier one with the same name and a password of the same digest, stored at
-- most five minutes before.
pub decide-pass :
    (st : Settings) (past : List Visit) (v : Visit) (r : Bytes)
    → IsDigest st.digest
    → is_empty st.socket_path ≡ false
    → (decide st v (after st past)).0 ≡ pass r
    → ((v.http.path ≡ lit "/healthz") × (r ≡ [])) ⊎ Entitled st past v r
unfolding decide
decide-pass st past v r h on passed =
    let p = rw on at passed in
    elim (Bool-cases (equal v.http.path (lit "/healthz"))) [
      | inl probe ↦ inl ((equal_iff _ _).0 probe, sym (pass-injective (rw probe at p)))
      | inr other ↦ inr (credentials-Entitled st past v r v.http.basic_auth h refl (rw other at p))
    ]
