-- ===== src/Netstats/History.antt =====
-- What the snapshot shows, by the readings alone.
use pispot.Base.{
  arith, not, select, ltb, leb, ◌-◌, ◌&&◌, ℕ, ◌≡◌, refl, ap, sym, ◌∙◌, Bool, true, false, ◌||◌,
  Option, none, some, List, [], ◌∷◌, if◌then◌else◌, Bool-cases, inl, inr, if_true, if_false,
}
use pispot.Go.Bytes.{Bytes, equal, equal_iff, is_empty}
use pispot.Go.Floats.{Floats}
use pispot.Go.Map.{Map, lookup, insert, lookup-insert}
use pispot.Netstats.{
  compute_mbps, Sample, or_absent, InterfaceStats, Reading, found, fill, is_up, initial_stats,
  with_rates, stats_of, start, tick, run, filter_empty,
}

pub member : Bytes → List Bytes → Bool
member name [] = false
member name (n ∷ ns) = equal n name || member name ns

lookup-fill :
    {V : Type 0} (f : Bytes → V) (name : Bytes) (names : List Bytes) (items : Map V)
    → lookup name (fill f names items)
      ≡ (if member name names then some (f name) else lookup name items)
unfolding fill member
lookup-fill f name [] items = refl
lookup-fill f name (n ∷ ns) items =
    let rest = lookup-fill f name ns (insert n (f n) items) in
    let here = lookup-insert n name (f n) items in
    elim (Bool-cases (member name ns)) [
      | inl known ↦ rest ∙ if_true _ _ known ∙ sym (if_true _ _ (known_or (equal n name) known))
      | inr unknown ↦ elim (Bool-cases (equal n name)) [
        | inl same ↦
            rest
            ∙ if_false _ _ unknown
            ∙ here
            ∙ if_true _ _ same
            ∙ ap (λ key. some (f key)) ((equal_iff n name).0 same)
            ∙ sym (if_true _ _ (or_true (equal n name) (member name ns) same))
        | inr other ↦
            rest
            ∙ if_false _ _ unknown
            ∙ here
            ∙ if_false _ _ other
            ∙ sym (if_false _ _ (or_false (equal n name) (member name ns) other unknown))
      ]
    ]
  where
    known_or : (b : Bool) {c : Bool} → c ≡ true → b || c ≡ true
    known_or true h = refl
    known_or false h = h

    or_false : (b c : Bool) → b ≡ false → c ≡ false → b || c ≡ false
    or_false b c h k = rw (h, k) refl

    or_true : (b c : Bool) → b ≡ true → b || c ≡ true
    or_true b c h = rw h refl

-- Of the last reading, and of the one before it, if there is one.
-- The names that are not empty.
pub member-filter_empty :
    (name : Bytes) (ns : List Bytes)
    → member name (filter_empty ns) ≡ (not (is_empty name) && member name ns)
unfolding member filter_empty select
member-filter_empty name [] = ground arith
member-filter_empty name (n ∷ ns) = ground (arith, member-filter_empty name ns, equal_iff n name)

module _ {F : Type 0} (floats : Floats F) where
  seen : Reading → Bytes → InterfaceStats F
  seen r name = record {
    name = name;
    up = is_up r name;
    rx_mbps = floats.zero;
    tx_mbps = floats.zero;
    rx_total_bytes = (found r name).rx_bytes;
    tx_total_bytes = (found r name).tx_bytes;
  }

  -- Of two samples: 0, unless both found the counters, time went on and the counter did not go back.
  rate : (Sample → ℕ) → Sample → Sample → F
  rate bytes prev cur =
      if cur.present && prev.present && ltb prev.at cur.at && leb (bytes prev) (bytes cur)
      then floats.megabits_per_second (bytes cur - bytes prev) (cur.at - prev.at)
      else floats.zero

  pub shown : List Reading → Bytes → InterfaceStats F
  shown [] name = initial_stats floats name
  shown (r ∷ []) name = seen r name
  shown (r ∷ q ∷ past) name = record (seen r name) {
    rx_mbps = rate (λ s. s.rx_bytes) (found q name) (found r name);
    tx_mbps = rate (λ s. s.tx_bytes) (found q name) (found r name);
  }

  compute_mbps-rate :
      (bytes : Sample → ℕ) (prev cur : Sample)
      → rate bytes prev cur ≡ (
          if cur.present && prev.present
          then compute_mbps floats (bytes prev) (bytes cur) prev.at cur.at
          else floats.zero)
  unfolding rate compute_mbps
  compute_mbps-rate bytes prev cur = ground arith

  with_rates-rate :
      (cur prev : Sample) (r : Reading) (name : Bytes)
      → with_rates floats cur (some prev) (seen r name) ≡ record (seen r name) {
        rx_mbps = rate (λ s. s.rx_bytes) prev cur;
        tx_mbps = rate (λ s. s.tx_bytes) prev cur;
      }
  unfolding with_rates seen
  with_rates-rate cur prev r name =
      let rx = compute_mbps-rate (λ s. s.rx_bytes) prev cur in
      let tx = compute_mbps-rate (λ s. s.tx_bytes) prev cur in
      elim (Bool-cases (cur.present && prev.present)) [
        | inl both ↦ rw (rx ∙ if_true _ _ both, tx ∙ if_true _ _ both) (if_true _ _ both)
        | inr not_both ↦
            rw (rx ∙ if_false _ _ not_both, tx ∙ if_false _ _ not_both) (if_false _ _ not_both)
      ]

  last_found : List Reading → Bytes → Option Sample
  last_found [] name = none
  last_found (r ∷ past) name = some (found r name)

  rates :
      (r : Reading) (past : List Reading) (name : Bytes)
      → with_rates floats (found r name) (last_found past name) (seen r name)
        ≡ shown (r ∷ past) name
  unfolding last_found shown
  rates r [] name = unfold with_rates in refl
  rates r (q ∷ past) name = with_rates-rate (found r name) (found q name) r name

  kept :
      (names : List Bytes) (began : ℕ) (name : Bytes) (past : List Reading)
      → member name names ≡ true
      → lookup name (run floats names began past).prev ≡ last_found past name
  unfolding run tick start last_found lookup
  kept names began name [] h = refl
  kept names began name (r ∷ past) h = lookup-fill (found r) name names [] ∙ if_true _ _ h

  stats_of-shown :
      (names : List Bytes) (began : ℕ) (name : Bytes) (r : Reading) (past : List Reading)
      → member name names ≡ true
      → stats_of floats r (fill (found r) names []) (run floats names began past).prev name
        ≡ shown (r ∷ past) name
  unfolding stats_of or_absent seen
  stats_of-shown names began name r past h =
      rw (lookup-fill (found r) name names [], h, kept names began name past h) (rates r past name)

-- Behind every row of ticks, the snapshot has an entry for each configured interface and for no other:
-- with the counters of the last reading, or 0 where it had none, and with rates computed from the last
-- two readings if both had counters, the clock went on and the counter did not go back, or else 0.
pub run-shown :
    {F : Type 0} (floats : Floats F) (names : List Bytes) (began : ℕ) (past : List Reading)
    (name : Bytes)
    → lookup name (run floats names began past).interfaces
      ≡ (if member name names then some (shown floats past name) else none)
unfolding run tick start shown lookup
run-shown floats names began [] name = lookup-fill (initial_stats floats) name names []
run-shown floats names began (r ∷ past) name =
    let entry =
      lookup-fill (stats_of floats r (fill (found r) names []) (run floats names began past).prev)
        name names [] in
    elim (Bool-cases (member name names)) [
      | inl known ↦
          entry
          ∙ if_true _ _ known
          ∙ ap some (stats_of-shown floats names began name r past known)
          ∙ sym (if_true _ _ known)
      | inr unknown ↦ entry ∙ if_false _ _ unknown ∙ sym (if_false _ _ unknown)
    ]
