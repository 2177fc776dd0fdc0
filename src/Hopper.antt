-- ===== src/Hopper.antt =====
-- The debounced hopper level, firmware/src/hopper_input.c.
-- `sense` of the port is a parameter of each poll: what the call would give if it were made.
-- Times are 32-bit milliseconds and the streaks are bytes.
pub mod Evidence
pub mod Debounce
pub mod Level
pub mod Latch
pub mod Drain
use xiaomi_feeder_iv.Common.{
  leb, ◌==◌, if◌then◌else◌, u8, u32_max, u32, sub32, ℕ, ◌+◌, Bool, true, false, not, ◌&&◌, Option,
  map, none, some,
}
use xiaomi_feeder_iv.Ring.{Ring, push, pop}

pub data HopperLevel : Type 0 where
  level_normal level_low : HopperLevel

pub record LevelTransition : Type 0 where
  pub level : HopperLevel
  pub at_ms : ℕ

abbrev pub debounce_interval_ms : ℕ
debounce_interval_ms = 1000

abbrev pub low_streak_required : ℕ
low_streak_required = 6

abbrev pub normal_streak_required : ℕ
normal_streak_required = 3

abbrev pub background_interval_ms : ℕ
background_interval_ms = 60000

abbrev pub hopper_input_depth : ℕ
hopper_input_depth = 4

pub record HopperInput : Type 0 where
  pub level : HopperLevel
  pub clear_streak : ℕ
  pub blocked_streak : ℕ
  pub debounce_active : Bool
  pub force_sample : Bool
  pub next_sample_ms : ℕ
  pub last_background_ms : ℕ
  pub transitions : Ring LevelTransition

-- `sense` of hopper_ir_port_t: no port, an error, or whether the beam is blocked.
pub data IrSense : Type 0 where
  no_port sense_failed : IrSense
  sensed : Bool → IrSense

unfoldable pub hopper_input_enqueue_transition : HopperLevel → ℕ → HopperInput → HopperInput
hopper_input_enqueue_transition level at_ms s = record s {
  transitions = push hopper_input_depth s.transitions (record { level = level; at_ms = at_ms });
}

unfoldable pub same_level : HopperLevel → HopperLevel → Bool
same_level level_normal level_normal = true
same_level level_low level_low = true
same_level level_normal level_low = false
same_level level_low level_normal = false

unfoldable pub hopper_input_set_level : HopperLevel → ℕ → HopperInput → HopperInput
unfolding same_level
hopper_input_set_level level at_ms s =
    if same_level level s.level
    then s
    else hopper_input_enqueue_transition level at_ms (record s { level = level })

unfoldable pub hopper_input_background_due : ℕ → HopperInput → Bool × HopperInput
hopper_input_background_due now_ms s =
    if s.last_background_ms == u32_max
    then (false, record s { last_background_ms = now_ms })
    else (leb background_interval_ms (sub32 now_ms s.last_background_ms), s)

unfoldable pub hopper_input_should_sample : ℕ → Bool → HopperInput → Bool × HopperInput
unfolding hopper_input_background_due
hopper_input_should_sample now_ms background_enabled s =
    if s.force_sample
    then (true, s)
    else (if s.debounce_active && leb s.next_sample_ms now_ms
        then (true, s)
        else (if not s.debounce_active && background_enabled
            then hopper_input_background_due now_ms s
            else (false, s)))

unfoldable pub retry_soon : ℕ → HopperInput → HopperInput
retry_soon now_ms s = record s {
  debounce_active = true;
  next_sample_ms = u32 (now_ms + debounce_interval_ms);
}

unfoldable pub blocked_while_low : ℕ → HopperInput → HopperInput
unfolding hopper_input_set_level retry_soon
blocked_while_low now_ms s =
    let streak = u8 (s.blocked_streak + 1) in
    if leb normal_streak_required streak
    then record (hopper_input_set_level level_normal now_ms s) {
      blocked_streak = 0;
      debounce_active = false;
    }
    else retry_soon now_ms (record s { blocked_streak = streak })

unfoldable pub clear_while_normal : ℕ → HopperInput → HopperInput
unfolding hopper_input_set_level retry_soon
clear_while_normal now_ms s =
    let streak = u8 (s.clear_streak + 1) in
    if leb low_streak_required streak
    then record (hopper_input_set_level level_low now_ms s) {
      clear_streak = 0;
      debounce_active = false;
    }
    else retry_soon now_ms (record s { clear_streak = streak })

-- The beam is blocked while there is food, and clear when the hopper runs low.
unfoldable pub hopper_input_apply_reading : Bool → ℕ → HopperInput → HopperInput
hopper_input_apply_reading true now_ms s =
    let t = record s { clear_streak = 0 } in
    if same_level s.level level_low
    then blocked_while_low now_ms t
    else record t { debounce_active = false }
hopper_input_apply_reading false now_ms s =
    let t = record s { blocked_streak = 0 } in
    if same_level s.level level_low then t else clear_while_normal now_ms t

unfoldable pub hopper_input_sample : IrSense → ℕ → Bool → HopperInput → HopperInput
hopper_input_sample no_port now_ms background s = s
hopper_input_sample sense_failed now_ms background s = record s { force_sample = false }
hopper_input_sample (sensed beam_blocked) now_ms background s =
    hopper_input_apply_reading beam_blocked now_ms (record s {
      force_sample = false;
      last_background_ms = if background then now_ms else s.last_background_ms;
    })

unfoldable pub hopper_input_reset : HopperInput → HopperInput
hopper_input_reset s = record {
  level = level_normal;
  clear_streak = 0;
  blocked_streak = 0;
  debounce_active = false;
  force_sample = false;
  next_sample_ms = 0;
  last_background_ms = u32_max;
  transitions = record s.transitions { head = 0; tail = 0 };
}

unfoldable pub hopper_input_notify_dispense_complete : HopperInput → HopperInput
hopper_input_notify_dispense_complete s = record s { clear_streak = 0; force_sample = true }

unfoldable pub hopper_input_poll : ℕ → Bool → IrSense → HopperInput → HopperInput
hopper_input_poll now_ms background_enabled sense s =
    let (sample, t) = hopper_input_should_sample now_ms background_enabled s in
    if sample
    then hopper_input_sample sense now_ms
        (background_enabled && not t.force_sample && not t.debounce_active) t
    else t

unfoldable pub hopper_input_almost_empty : HopperInput → Bool
hopper_input_almost_empty s = same_level s.level level_low

abbrev pub popped_transition :
    HopperInput
    → Option (LevelTransition × Ring LevelTransition)
    → Option (LevelTransition × HopperInput)
popped_transition s none = none
popped_transition s (some (tr, rest)) = some (tr, record s { transitions = rest })

unfoldable pub hopper_input_pop_transition : HopperInput → Option (LevelTransition × HopperInput)
hopper_input_pop_transition s = popped_transition s (pop hopper_input_depth s.transitions)
