-- ===== src/Authz/Middleware/Race/Invariant.antt =====
-- What is known of the requests, and of the cache, at any time.
use pispot.Base.{
  ℕ, ◌+◌, ◌≤◌, ◌≡◌, refl, ◌⊎◌, inl, inr, false, Option, none, some, [], Bool-cases, Option-cases,
}
use pispot.Authz.Cache.{AuthCache, CachedEntry, cache_ttl, cache_key, get}
use pispot.Authz.Cache.Keys.{IsDigest, get-eq-some}
use pispot.Authz.Middleware.{Settings, Visit, Decision, pass, deny}
use pispot.Authz.Middleware.Race.{
  Pc, arrived, calling, storing, decided, System, on_lookup, ask_cache, on_answer, advance,
}
use pispot.Authz.Middleware.Runs.{Vouches}
use pispot.Go.Bytes.{Bytes, lit, equal, equal_iff, is_empty}
use pispot.Go.Map.{lookup}
use pispot.Result.{Result, ok, err}
use pispot.Socket.{Response}

-- No decision is taken back.
abbrev pub Later : System → System → Type 0
Later s s' = (j : ℕ) (d : Decision) → s.pc j ≡ decided d → s'.pc j ≡ decided d

module _ (st : Settings) (visits : ℕ → Visit) where
  -- The credentials of a request, with a name.
  pub record Names (i : ℕ) (username password : Bytes) : Type 0 where
    pub credentials : (visits i).http.basic_auth ≡ some (username, password)
    pub named : is_empty username ≡ false

  -- The daemon accepted request `j`, with this name and a password of this digest, and it was let
  -- through by this role.
  abbrev pub Served : System → ℕ → Bytes → Bytes → Bytes → Type 0
  Served s j username password role =
      Vouches st (visits j) username password role (visits j).written_at
      × (s.pc j ≡ decided (pass role))

  -- The daemon accepted the credentials of request `i`: in answer to its own call, or to that of
  -- another one that was let through, and that stored the answer at most five minutes before `i` read
  -- the cache.
  pub record Entitled (s : System) (i : ℕ) (role : Bytes) : Type 0 where
    pub username : Bytes
    pub password : Bytes
    pub credentials : (visits i).http.basic_auth ≡ some (username, password)
    pub named : is_empty username ≡ false
    pub accepted :
        Vouches st (visits i) username password role (visits i).written_at
        ⊎ ((j : ℕ) × Served s j username password role
            × ((visits i).read_at ≤ (visits j).written_at + cache_ttl))

  -- A request that needs no credentials, or has those that are needed.
  abbrev pub Admitted : System → ℕ → Bytes → Type 0
  Admitted s i role = (((visits i).http.path ≡ lit "/healthz") × (role ≡ [])) ⊎ Entitled s i role

  -- Every entry of the cache stands for a request that the daemon accepted.
  abbrev pub Backed : System → AuthCache → Type 0
  Backed s cache =
      (username password : Bytes) (e : CachedEntry)
      → lookup (cache_key st.digest username password) cache ≡ some e
      → (j : ℕ) × Served s j username password e.role
        × (e.expires ≡ (visits j).written_at + cache_ttl)

  -- What has been found out of a request where it stands.
  unfoldable pub Legit : System → ℕ → Pc → Type 0
  Legit s i arrived = Unit
  Legit s i (calling username password) = Names i username password
  Legit s i (storing username password role) =
      Names i username password × Vouches st (visits i) username password role (visits i).written_at
  Legit s i (decided (pass role)) = Admitted s i role
  Legit s i (decided (deny answer)) = Unit

  pub record Inv (s : System) : Type 0 where
    pub backed : Backed s s.shared
    pub legit : (i : ℕ) → Legit s i (s.pc i)

  Served-Later :
      (s s' : System)
      → Later s s'
      → (j : ℕ) (username password role : Bytes) → Served s j username password role
      → Served s' j username password role
  Served-Later s s' later j username password role (vouches, at) = (vouches, later j (pass role) at)

  Entitled-Later :
      (s s' : System) → Later s s' → (i : ℕ) (role : Bytes) → Entitled s i role → Entitled s' i role
  Entitled-Later s s' later i role h = record {
    username = h.username;
    password = h.password;
    credentials = h.credentials;
    named = h.named;
    accepted = elim h.accepted [
      | inl own ↦ inl own
      | inr (j, served, good) ↦
          inr (j, Served-Later s s' later j h.username h.password role served, good)
    ];
  }

  pub Legit-Later : (s s' : System) → Later s s' → (i : ℕ) (p : Pc) → Legit s i p → Legit s' i p
  unfolding Legit
  Legit-Later s s' later i arrived h = h
  Legit-Later s s' later i (calling username password) h = h
  Legit-Later s s' later i (storing username password role) h = h
  Legit-Later s s' later i (decided (pass role)) (inl probe) = inl probe
  Legit-Later s s' later i (decided (pass role)) (inr h) = inr (Entitled-Later s s' later i role h)
  Legit-Later s s' later i (decided (deny answer)) h = h

  pub Backed-Later :
      (s s' : System) → Later s s' → (cache : AuthCache) → Backed s cache → Backed s' cache
  Backed-Later s s' later cache h username password e found =
      let (j, served, same) = h username password e found in
      (j, Served-Later s s' later j username password e.role served, same)

  -- The steps of one request.
  Legit-on_answer :
      (s : System) (i : ℕ) (username password : Bytes) (helper : Result Response)
      → Names i username password
      → (visits i).helper ≡ helper
      → Legit s i (on_answer st username password helper)
  unfolding Legit on_answer
  Legit-on_answer s i username password (err e) names answered = tt
  Legit-on_answer s i username password (ok resp) names answered = elim (Bool-cases resp.success) [
    | inr denied ↦ rw denied tt
    | inl success ↦ rw success (
      names,
      record {
        password' = password;
        resp = resp;
        credentials = names.credentials;
        same_digest = refl;
        answered = answered;
        success = success;
        same_role = refl;
        same_time = refl;
      },
    )
  ]

  Legit-ask_cache :
      (s : System) (i : ℕ) (creds : Option (Bytes × Bytes))
      → IsDigest st.digest
      → Backed s s.shared
      → (visits i).http.basic_auth ≡ creds
      → Legit s i (ask_cache st (visits i) creds s.shared)
  unfolding Legit ask_cache on_lookup
  Legit-ask_cache s i none h backed e = tt
  Legit-ask_cache s i (some (username, password)) h backed e =
      elim (Bool-cases (is_empty username)) [
        | inl blank ↦ rw blank tt
        | inr named ↦
            elim (Option-cases (get st.digest (visits i).read_at username password s.shared)) [
              | inl missed ↦ rw (named, missed) (record { credentials = e; named = named })
              | inr (role, hit) ↦
                  let (entry, there, same, good) =
                    get-eq-some st.digest (visits i).read_at username password role s.shared hit in
                  let (j, served, expires) = backed username password entry there in
                  rw (named, hit)
                    (inr (record {
                      username = username;
                      password = password;
                      credentials = e;
                      named = named;
                      accepted = inr (j, rw same at served, rw expires at good);
                    }))
            ]
      ]

  pub Legit-advance :
      (s : System) (i : ℕ) (p : Pc)
      → IsDigest st.digest
      → is_empty st.socket_path ≡ false
      → Backed s s.shared
      → Legit s i p
      → Legit s i (advance st (visits i) s.shared p).1
  unfolding Legit advance
  Legit-advance s i arrived h on backed k =
      elim (Bool-cases (equal (visits i).http.path (lit "/healthz"))) [
        | inl probe ↦ rw (on, probe) (inl ((equal_iff _ _).0 probe, refl))
        | inr other ↦ rw (on, other) (Legit-ask_cache s i (visits i).http.basic_auth h backed refl)
      ]
  Legit-advance s i (calling username password) h on backed k =
      Legit-on_answer s i username password (visits i).helper k refl
  Legit-advance s i (storing username password role) h on backed (names, vouches) = inr (record {
    username = username;
    password = password;
    credentials = names.credentials;
    named = names.named;
    accepted = inl vouches;
  })
  Legit-advance s i (decided decision) h on backed k = k
