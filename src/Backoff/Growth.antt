-- ===== src/Backoff/Growth.antt =====
-- How the delay grows.
use xiaomi_feeder_iv.Common.{
  ltb, if◌then◌else◌, u32, ℕ, zero, suc, ◌*◌, ◌^◌, min, ◌≡◌, Option, some, arith, refl, sym, ap,
  ◌∙◌,
}
use xiaomi_feeder_iv.Backoff.{
  mqtt_backoff_max_ms, mqtt_backoff_on_failure, mqtt_backoff_on_success, mqtt_backoff_current_ms,
  mqtt_backoff_init,
}

-- The struct after n failures in a row.
pub failures : ℕ → Option ℕ → Option ℕ
failures zero backoff = backoff
failures (suc n) backoff = mqtt_backoff_on_failure (failures n backoff)

doubled : (n : ℕ) → 2 ^ suc n ≡ 2 ^ n * 2
doubled n = omega arith

step :
    (p : ℕ)
    → (if ltb mqtt_backoff_max_ms (u32 (min (1000 * p) 60000 * 2))
        then mqtt_backoff_max_ms
        else u32 (min (1000 * p) 60000 * 2))
      ≡ min (1000 * (p * 2)) 60000
step p = ground arith

failures-some :
    (n delay_ms : ℕ)
    → failures n (mqtt_backoff_on_success (some delay_ms)) ≡ some (min (1000 * 2 ^ n) 60000)
unfolding failures mqtt_backoff_on_success mqtt_backoff_init mqtt_backoff_on_failure
failures-some zero delay_ms = refl
failures-some (suc n) delay_ms =
    ap mqtt_backoff_on_failure (failures-some n delay_ms)
    ∙ ap some (step (2 ^ n) ∙ ap (λ p. min (1000 * p) 60000) (sym (doubled n)))

-- After a success and n failures, the delay is 1000 * 2 ^ n milliseconds, and 60000 from where that
-- is more, for every n.
pub failures-on_success :
    (n delay_ms : ℕ)
    → mqtt_backoff_current_ms (failures n (mqtt_backoff_on_success (some delay_ms)))
      ≡ min (1000 * 2 ^ n) 60000
unfolding mqtt_backoff_current_ms
failures-on_success n delay_ms = ap mqtt_backoff_current_ms (failures-some n delay_ms)
