-- ===== src/Hopper/Debounce.antt =====
-- What stands behind a change of the debounced level.
use xiaomi_feeder_iv.Common.{
  leb, Bool-cases, ℕ, ◌≡◌, inl, inr, Bool, true, false, List, refl, ◌==◌, u32_max, not, ◌&&◌,
  if◌then◌else◌, sub32,
}
use xiaomi_feeder_iv.Hopper.{
  HopperLevel, HopperInput, IrSense, sensed, hopper_input_should_sample, no_port, sense_failed,
  hopper_input_background_due, hopper_input_sample, hopper_input_poll, background_interval_ms,
}
use xiaomi_feeder_iv.Hopper.Evidence.{
  with_reading, IsDebounced, Evidence, Sound, unchanged, reading-Sound,
}

-- The readings after a poll.
pub readings_after : ℕ → Bool → IrSense → HopperInput → List Bool → List Bool
readings_after now_ms background_enabled sense s seen =
    with_reading ((hopper_input_should_sample now_ms background_enabled s).0) sense seen

-- The same streaks, level and buffer: the other fields play no part.
moved :
    (seen : List Bool) (s : HopperInput) (d f : Bool) (n l : ℕ)
    → IsDebounced seen s
    → IsDebounced seen (record s {
      debounce_active = d;
      force_sample = f;
      next_sample_ms = n;
      last_background_ms = l;
    })
moved seen s d f n l v = record {
  clear_run = v.clear_run;
  blocked_run = v.blocked_run;
  clear_below = v.clear_below;
  blocked_below = v.blocked_below;
  ring = v.ring;
}

abbrev Waits : HopperInput → List Bool → HopperInput → Type 0
Waits s seen t = IsDebounced seen t × (s.level ≡ t.level)

either :
    (s : HopperInput) (seen : List Bool) (b : Bool) (x y : Bool × HopperInput)
    → Waits s seen x.1
    → Waits s seen y.1
    → Waits s seen (if b then x else y).1
either s seen true x y p q = p
either s seen false x y p q = q

background-Waits :
    (now_ms : ℕ) (s : HopperInput) (seen : List Bool)
    → IsDebounced seen s
    → Waits s seen ((hopper_input_background_due now_ms s).1)
unfolding hopper_input_background_due
background-Waits now_ms s seen v =
    either s seen (s.last_background_ms == u32_max)
      (false, record s { last_background_ms = now_ms })
      (leb background_interval_ms (sub32 now_ms s.last_background_ms), s)
      (moved seen s s.debounce_active s.force_sample s.next_sample_ms now_ms v, refl) (v, refl)

waiting-Waits :
    (now_ms : ℕ) (background_enabled : Bool) (s : HopperInput) (seen : List Bool)
    → IsDebounced seen s
    → Waits s seen ((hopper_input_should_sample now_ms background_enabled s).1)
unfolding hopper_input_should_sample
waiting-Waits now_ms background_enabled s seen v =
    let due = hopper_input_background_due now_ms s in
    let third = if not s.debounce_active && background_enabled then due else (false, s) in
    let second = if s.debounce_active && leb s.next_sample_ms now_ms then (true, s) else third in
    either s seen s.force_sample (true, s) second (v, refl)
      (either s seen (s.debounce_active && leb s.next_sample_ms now_ms) (true, s) third (v, refl)
        (either s seen (not s.debounce_active && background_enabled) due (false, s)
          (background-Waits now_ms s seen v) (v, refl)))

sample-Sound :
    (sense : IrSense) (now_ms : ℕ) (background : Bool) (s : HopperInput) (seen : List Bool)
    → IsDebounced seen s
    → Sound (with_reading true sense seen) s.level (hopper_input_sample sense now_ms background s)
unfolding hopper_input_sample with_reading
sample-Sound no_port now_ms background s seen v = record {
  debounced = v;
  evidence = unchanged s.level seen;
}
sample-Sound sense_failed now_ms background s seen v = record {
  debounced = moved seen s s.debounce_active false s.next_sample_ms s.last_background_ms v;
  evidence = unchanged s.level seen;
}
sample-Sound (sensed b) now_ms background s seen v =
    reading-Sound b now_ms _ seen (moved seen s s.debounce_active false s.next_sample_ms _ v)

kept_level : {l m : HopperLevel} (seen : List Bool) → l ≡ m → Evidence l m seen
kept_level {m} seen e = rw e (unchanged m seen)

rest_on :
    {l m : HopperLevel} (k : HopperLevel) (seen : List Bool)
    → l ≡ m
    → Evidence m k seen
    → Evidence l k seen
rest_on k seen e h = rw e h

-- A poll keeps the streaks true to the readings that were made and below their limits, and it
-- changes the level only on evidence: to low after six clear readings in a row, to normal after
-- three blocked ones.
pub poll-Backed :
    (now_ms : ℕ) (background_enabled : Bool) (sense : IrSense) (s : HopperInput) (seen : List Bool)
    → IsDebounced seen s
    → let t = hopper_input_poll now_ms background_enabled sense s in
      let seen_now = readings_after now_ms background_enabled sense s seen in
      IsDebounced seen_now t × Evidence s.level t.level seen_now
unfolding hopper_input_poll readings_after with_reading
poll-Backed now_ms background_enabled sense s seen v =
    let (w, e) = waiting-Waits now_ms background_enabled s seen v in
    elim (Bool-cases (hopper_input_should_sample now_ms background_enabled s).0) [
      | inl t ↦
          let r =
            sample-Sound sense now_ms _ (hopper_input_should_sample now_ms background_enabled s).1
              seen w in
          rw t (r.debounced, rest_on _ _ e r.evidence)
      | inr f ↦ rw f (w, kept_level seen e)
    ]
