-- ===== src/Authz/Middleware/Race/Safety.antt =====
-- Who gets past the middleware, over every interleaving of requests.
use pispot.Base.{
  ℕ, ◌==◌, ◌≡◌, refl, sym, ap, subst, ◌∙◌, inl, inr, false, some, none, List, Bool-cases, arith,
}
use pispot.Authz.Cache.{AuthCache, cache_key, set}
use pispot.Authz.Cache.Keys.{IsDigest, cache_key-injective, lookup-set}
use pispot.Authz.Middleware.{Settings, Visit, Decision, pass}
use pispot.Authz.Middleware.Race.{
  Pc, arrived, calling, storing, decided, System, advance, start, run,
}
use pispot.Authz.Middleware.Race.Invariant.{
  Admitted, Backed, Legit, Inv, Later, Legit-Later, Backed-Later, Legit-advance,
}
use pispot.Authz.Middleware.Runs.{Vouches}
use pispot.Go.Bytes.{Bytes, equal, equal_iff, is_empty}
use pispot.Go.Map.{lookup}
use pispot.Schedule.{update, update-here, pick, interleave-keeps}

module _ (st : Settings) (visits : ℕ → Visit) where
  abbrev step : ℕ → System → System
  step = pick (λ i. advance st (visits i))

  advance-decided :
      (v : Visit) (cache : AuthCache) (p : Pc) (d : Decision)
      → p ≡ decided d
      → (advance st v cache p).1 ≡ decided d
  unfolding advance
  advance-decided v cache p d e = rw e refl

  step-Later : (i : ℕ) (s : System) → Later s (step i s)
  unfolding pick update
  step-Later i s j d e = elim (Bool-cases (j == i)) [
    | inl same ↦
        let ji : j ≡ i = ground arith in
        rw same
          (advance-decided (visits i) s.shared (s.pc i) d (subst (λ k. s.pc k ≡ decided d) ji e))
    | inr other ↦ rw other e
  ]

  -- The new entry of a request that stores its answer.
  set-Backed :
      (s : System) (i : ℕ) (username password role : Bytes) (cache : AuthCache)
      → IsDigest st.digest
      → Vouches st (visits i) username password role (visits i).written_at
      → s.pc i ≡ decided (pass role)
      → Backed st visits s cache
      → Backed st visits s (set st.digest (visits i).written_at username password role cache)
  set-Backed s i username password role cache h vouches at backed username' password' e found =
      let key = cache_key st.digest username' password' in
      let there =
        sym (lookup-set st.digest (visits i).written_at username password role key cache) ∙ found in
      elim (Bool-cases (equal (cache_key st.digest username password) key)) [
        | inr other ↦ backed username' password' e (rw other at there)
        | inl same ↦
            let (names, digests) =
              cache_key-injective st.digest username password username' password' h
                ((equal_iff _ _).0 same) in
            let entry = rw same at there in
            (
              i,
              (
                record {
                  password' = vouches.password';
                  resp = vouches.resp;
                  credentials = vouches.credentials ∙ ap (λ n. some (n, vouches.password')) names;
                  same_digest = vouches.same_digest ∙ digests;
                  answered = vouches.answered;
                  success = vouches.success;
                  same_role = vouches.same_role ∙ ground arith;
                  same_time = refl;
                },
                at ∙ ap (λ r. decided (pass r)) (ground arith),
              ),
              ground arith,
            )
      ]

  -- What a step leaves in the cache.
  advance-Backed :
      (s : System) (i : ℕ) (p : Pc) (cache : AuthCache)
      → IsDigest st.digest
      → Legit st visits s i p
      → s.pc i ≡ (advance st (visits i) cache p).1
      → Backed st visits s cache
      → Backed st visits s (advance st (visits i) cache p).0
  unfolding Legit advance
  advance-Backed s i arrived cache h k at backed = backed
  advance-Backed s i (calling username password) cache h k at backed = backed
  advance-Backed s i (storing username password role) cache h (names, vouches) at backed =
      set-Backed s i username password role cache h vouches at backed
  advance-Backed s i (decided decision) cache h k at backed = backed

  -- What is known of a request where it stands, when another one has taken a step.
  step-Legit :
      (i : ℕ) (s : System)
      → IsDigest st.digest
      → is_empty st.socket_path ≡ false
      → Inv st visits s
      → (j : ℕ) → Legit st visits (step i s) j ((step i s).pc j)
  unfolding pick update
  step-Legit i s h on inv j = elim (Bool-cases (j == i)) [
    | inl same ↦
        let ji : j ≡ i = ground arith in
        rw (same, ji)
          (Legit-Later st visits s (step i s) (step-Later i s) i _
            (Legit-advance st visits s i (s.pc i) h on inv.backed (inv.legit i)))
    | inr other ↦
        rw other (Legit-Later st visits s (step i s) (step-Later i s) j (s.pc j) (inv.legit j))
  ]

  step-Inv :
      (i : ℕ) (s : System)
      → IsDigest st.digest
      → is_empty st.socket_path ≡ false
      → Inv st visits s
      → Inv st visits (step i s)
  unfolding pick
  step-Inv i s h on inv =
      let later = step-Later i s in
      record {
        backed =
            advance-Backed (step i s) i (s.pc i) s.shared h
              (Legit-Later st visits s (step i s) later i (s.pc i) (inv.legit i))
              (update-here s.pc i (advance st (visits i) s.shared (s.pc i)).1)
              (Backed-Later st visits s (step i s) later s.shared inv.backed);
        legit = step-Legit i s h on inv;
      }

start-Inv : (st : Settings) (visits : ℕ → Visit) → Inv st visits start
unfolding Legit lookup
start-Inv st visits = record {
  backed = λ username password e found. absurd (let no : none ≡ some e = found in cc);
  legit = λ i. tt;
}

Admitted-at :
    (st : Settings) (visits : ℕ → Visit) (s : System) (i : ℕ) (role : Bytes) (p : Pc)
    → p ≡ decided (pass role)
    → Legit st visits s i p
    → Admitted st visits s i role
unfolding Legit
Admitted-at st visits s i role p e h = rw e at h

-- With an auth socket and a digest of 32 bytes, requests take their steps in any order: a request that
-- was let through is either for /healthz and has no role, or has credentials with a name that the
-- daemon accepted with that role, in answer to this request or to another one, with the same name and a
-- password of the same digest, that was let through itself and whose answer was stored at most five
-- minutes before this one read the cache.
pub run-Admitted :
    (st : Settings) (visits : ℕ → Visit) (schedule : List ℕ) (i : ℕ) (role : Bytes)
    → IsDigest st.digest
    → is_empty st.socket_path ≡ false
    → (run st visits schedule start).pc i ≡ decided (pass role)
    → Admitted st visits (run st visits schedule start) i role
run-Admitted st visits schedule i role h on passed =
    let inv =
      interleave-keeps (λ j. advance st (visits j)) (Inv st visits)
        (λ j s. step-Inv st visits j s h on) schedule start (start-Inv st visits) in
    Admitted-at st visits (run st visits schedule start) i role _ passed (inv.legit i)
