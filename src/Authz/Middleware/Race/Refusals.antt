-- ===== src/Authz/Middleware/Race/Refusals.antt =====
-- What the middleware answers to those that it does not let through.
use pispot.Base.{◌≡◌, refl, ◌⊎◌, inl, inr, Option, none, some, [], Bool-cases}
use pispot.Authz.Cache.{AuthCache}
use pispot.Authz.Middleware.{Settings, Visit, pass, deny, unauthorized}
use pispot.Authz.Middleware.Race.{
  Pc, arrived, calling, storing, decided, on_lookup, ask_cache, on_answer, advance,
}
use pispot.Go.Bytes.{Bytes, lit, equal, is_empty}
use pispot.Http.{HttpResponse, http_error}
use pispot.Result.{Result, ok, err}
use pispot.Socket.{Response}

-- The answer to a request for which the daemon cannot be asked.
abbrev pub unavailable : HttpResponse
unavailable = http_error [] 503 (lit "Authentication service unavailable")

-- The two answers of the middleware.
abbrev pub IsRefusal : Settings → HttpResponse → Type 0
IsRefusal st a = (a ≡ unauthorized st) ⊎ (a ≡ unavailable)

module _ (st : Settings) where
  -- What is known where a request stands in the middleware.
  unfoldable pub Refuses : Pc → Type 0
  Refuses (decided (deny a)) = IsRefusal st a
  Refuses (decided (pass role)) = Unit
  Refuses (arrived) = Unit
  Refuses (calling username password) = Unit
  Refuses (storing username password role) = Unit

  on_answer-Refuses :
      (username password : Bytes) (helper : Result Response)
      → Refuses (on_answer st username password helper)
  unfolding Refuses on_answer
  on_answer-Refuses username password (err e) = inr refl
  on_answer-Refuses username password (ok resp) = elim (Bool-cases resp.success) [
    | inl success ↦ rw success tt
    | inr denied ↦ rw denied (inl refl)
  ]

  on_lookup-Refuses :
      (username password : Bytes) (found : Option Bytes)
      → Refuses (on_lookup username password found)
  unfolding Refuses on_lookup
  on_lookup-Refuses username password (some role) = tt
  on_lookup-Refuses username password none = tt

  ask_cache-Refuses :
      (v : Visit) (creds : Option (Bytes × Bytes)) (cache : AuthCache)
      → Refuses (ask_cache st v creds cache)
  unfolding Refuses ask_cache
  ask_cache-Refuses v none cache = inl refl
  ask_cache-Refuses v (some (username, password)) cache = elim (Bool-cases (is_empty username)) [
    | inl blank ↦ rw blank (inl refl)
    | inr named ↦ rw named (on_lookup-Refuses username password _)
  ]

  pub advance-Refuses :
      (v : Visit) (cache : AuthCache) (p : Pc) → Refuses p → Refuses (advance st v cache p).1
  unfolding Refuses advance
  advance-Refuses v cache arrived h = elim (Bool-cases (is_empty st.socket_path)) [
    | inl off ↦ rw off tt
    | inr on ↦ elim (Bool-cases (equal v.http.path (lit "/healthz"))) [
      | inl probe ↦ rw (on, probe) tt
      | inr other ↦ rw (on, other) (ask_cache-Refuses v v.http.basic_auth cache)
    ]
  ]
  advance-Refuses v cache (calling username password) h =
      on_answer-Refuses username password v.helper
  advance-Refuses v cache (storing username password role) h = tt
  advance-Refuses v cache (decided decision) h = h
