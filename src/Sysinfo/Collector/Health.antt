-- ===== src/Sysinfo/Collector/Health.antt =====
-- What a snapshot shows of sources that fail.
use pispot.Base.{ℕ, ◌≡◌, refl, ap, ◌∙◌, Bool, true, false, not, ◌&&◌, ◌++◌, is_some}
use pispot.Result.{Result, ok, err}
use pispot.Sysinfo.Collector.{
  Info, Setup, Reading, error_of, failure, load_of, mem_of, temp_of, uptime_of, no_info, with_load,
  with_mem, with_temp, with_uptime, gathered, tick,
}

is_ok : {A : Type 0} → Result A → Bool
is_ok (err e) = false
is_ok (ok a) = true

-- The sources all gave something.
pub healthy : {F : Type 0} → Setup F → Reading → Bool
healthy setup r =
    is_ok (load_of setup r)
    && is_ok (mem_of setup r)
    && is_ok (temp_of setup r)
    && is_ok (uptime_of setup r)

failed_unless :
    {A B C D : Type 0} (a : Result A) (b : Result B) (c : Result C) (d : Result D)
    → is_some (failure (error_of a ++ error_of b ++ error_of c ++ error_of d))
      ≡ not (is_ok a && is_ok b && is_ok c && is_ok d)
unfolding failure error_of is_ok
failed_unless (err e) b c d = refl
failed_unless (ok a) (err e) c d = refl
failed_unless (ok a) (ok b) (err e) d = refl
failed_unless (ok a) (ok b) (ok c) (err e) = refl
failed_unless (ok a) (ok b) (ok c) (ok d) = refl

value : {A : Type 0} → Result A → A → A
value (err e) default = default
value (ok a) default = a

module _ {F : Type 0} (setup : Setup F) where
  -- Each number by its own source alone: what that gave, or else 0.
  pub shown : Reading → Info F
  shown r =
      let zero = setup.floats.zero in
      let load = value (load_of setup r) (zero, zero, zero) in
      let mem = value (mem_of setup r) (0, 0) in
      record {
        load_1m = load.0;
        load_5m = load.1;
        load_15m = load.2;
        mem_total_bytes = mem.0;
        mem_used_bytes = mem.1;
        temp_celsius = value (temp_of setup r) zero;
        throttled = is_ok (temp_of setup r) && setup.floats.is_hot (value (temp_of setup r) zero);
        uptime_seconds = value (uptime_of setup r) zero;
      }

  with_load-value :
      (load : Result (F × F × F)) (info : Info F)
      → with_load setup load info ≡ record info {
        load_1m = (value load (info.load_1m, info.load_5m, info.load_15m)).0;
        load_5m = (value load (info.load_1m, info.load_5m, info.load_15m)).1;
        load_15m = (value load (info.load_1m, info.load_5m, info.load_15m)).2;
      }
  unfolding with_load value
  with_load-value (err e) info = refl
  with_load-value (ok (l1, l5, l15)) info = refl

  with_mem-value :
      (mem : Result (ℕ × ℕ)) (info : Info F)
      → with_mem setup mem info ≡ record info {
        mem_total_bytes = (value mem (info.mem_total_bytes, info.mem_used_bytes)).0;
        mem_used_bytes = (value mem (info.mem_total_bytes, info.mem_used_bytes)).1;
      }
  unfolding with_mem value
  with_mem-value (err e) info = refl
  with_mem-value (ok (total, used)) info = refl

  with_temp-value :
      (temp : Result F) (info : Info F)
      → info.throttled ≡ false
      → with_temp setup temp info ≡ record info {
        temp_celsius = value temp info.temp_celsius;
        throttled = is_ok temp && setup.floats.is_hot (value temp info.temp_celsius);
      }
  unfolding with_temp value is_ok
  with_temp-value (err e) info h = λ i. record info { throttled = h i }
  with_temp-value (ok temp) info h = refl

  with_uptime-value :
      (uptime : Result F) (info : Info F)
      → with_uptime setup uptime info
        ≡ record info { uptime_seconds = value uptime info.uptime_seconds }
  unfolding with_uptime value
  with_uptime-value (err e) info = refl
  with_uptime-value (ok u) info = refl

  gathered-info : (r : Reading) → (tick setup r).info ≡ shown r
  unfolding tick gathered shown no_info
  gathered-info r =
      let load = load_of setup r in
      let mem = mem_of setup r in
      let temp = temp_of setup r in
      let uptime = uptime_of setup r in
      let loaded = with_load setup load (no_info setup) in
      let measured =
        with_mem-value mem loaded
        ∙ ap
            (λ (info : Info F). record info {
              mem_total_bytes = (value mem (info.mem_total_bytes, info.mem_used_bytes)).0;
              mem_used_bytes = (value mem (info.mem_total_bytes, info.mem_used_bytes)).1;
            })
            (with_load-value load (no_info setup)) in
      let heated =
        with_temp-value temp (with_mem setup mem loaded)
          (ap (λ (info : Info F). info.throttled) measured)
        ∙ ap
            (λ (info : Info F). record info {
              temp_celsius = value temp info.temp_celsius;
              throttled = is_ok temp && setup.floats.is_hot (value temp info.temp_celsius);
            })
            measured in
      with_uptime-value uptime (with_temp setup temp (with_mem setup mem loaded))
      ∙ ap (λ (info : Info F). record info { uptime_seconds = value uptime info.uptime_seconds })
          heated

-- Whichever sources fail: every number is that of its own source, or 0 if that failed; the flag of the
-- throttling is set only by a temperature that was read; and there is an error if and only if a source
-- failed.
pub tick-shown :
    {F : Type 0} (setup : Setup F) (r : Reading)
    → ((tick setup r).info ≡ shown setup r)
      × (is_some (tick setup r).failed ≡ not (healthy setup r))
unfolding tick gathered healthy
tick-shown setup r = (
  gathered-info setup r,
  failed_unless (load_of setup r) (mem_of setup r) (temp_of setup r) (uptime_of setup r),
)
