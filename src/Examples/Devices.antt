-- ===== src/Examples/Devices.antt =====
-- The theorems on the buffers and the devices at small concrete states.
use xiaomi_feeder_iv.Button.Press.{
  ButtonAct, turned, ticked, acted, all_acted, StaysHeld, all_acted-IsSilent,
}
use xiaomi_feeder_iv.Button.Silent.{IsSilent}
use xiaomi_feeder_iv.Common.{
  if◌then◌else◌, ℕ, ◌*◌, ◌/◌, ◌^◌, min, ◌≡◌, refl, Bool, true, false, none, some, List, [], ◌∷◌,
  arith,
}
use xiaomi_feeder_iv.Common.Int.{pos, ◌+ℤ◌, ◌-ℤ◌}
use xiaomi_feeder_iv.Ring.{items, Ring, count, contents, IsRing}
use xiaomi_feeder_iv.Ring.Refine.{QueueOp, put, get, ring_run, queue_run, Agrees, ring_run-Agrees}
use xiaomi_feeder_iv.Hopper.{
  level_normal, hopper_input_depth, HopperInput, sensed, hopper_input_poll,
}
use xiaomi_feeder_iv.Hopper.Evidence.{IsDebounced, Evidence}
use xiaomi_feeder_iv.Hopper.Debounce.{readings_after, poll-Backed}
use xiaomi_feeder_iv.Hopper.Level.{
  success, state_empty, LevelState, hopper_level_on_dispense_finished, hopper_level_poll,
}
use xiaomi_feeder_iv.Hopper.Drain.{Drained, hopper_level_poll-Drained}
use xiaomi_feeder_iv.Hopper.Latch.{
  latched_then, shown_then, reported_then, on_dispense_finished-latched,
}
use xiaomi_feeder_iv.Outbox.{Outbox, empty_message, MqttPort}
use xiaomi_feeder_iv.Outbox.Order.{Operation, enqueue, drain}
use xiaomi_feeder_iv.Boot.{
  boot_ctrl_magic, boot_flag_b, cm4_base, boot_vector_scan_limit, boot_vector_scan_step,
  ControlBlock, Header, word, stack_in_ram, boot_bank_vector_table_valid, scan_from,
  boot_bank_scan_vector_table,
}
use xiaomi_feeder_iv.Boot.Scan.{Found, scan_vector_table-Found}
use xiaomi_feeder_iv.Backoff.{mqtt_backoff_on_success, mqtt_backoff_current_ms}
use xiaomi_feeder_iv.Backoff.Growth.{failures, failures-on_success}
use xiaomi_feeder_iv.Button.{power, reset, dispense, edge_up}
use xiaomi_feeder_iv.Button.Gesture.{
  gesture_held, ChannelGesture, short, Gestures, channel_of, with_channel,
  button_gesture_is_combo_partner, button_gesture_purge_combo_partner_events,
  button_gesture_end_combo_session_if_released, button_gesture_long_ms, button_gesture_enqueue,
  button_gesture_update_combo, idle_channel, is_held, on_release, button_gesture_on_transition,
  step_combo, step_channel, button_gesture_step,
}
use xiaomi_feeder_iv.Tare.{bowl_ok, Tare, auto_tare_idle_sample, auto_tare_present_dg}
use xiaomi_feeder_iv.Tare.Drift.{near, sampled_all, last_of, Drifts, idle_samples-present}
use xiaomi_feeder_iv.Power.{edge_mains, PowerInput, mains, power_source_input_poll}
use xiaomi_feeder_iv.Power.Noise.{alternating, SameLevel, alternating-settles}

-- A full ring: the places 3, 0 and 1 of four are taken.
abbrev numbers : Ring ℕ
numbers = record { slots = λ i. i * 10; head = 3; tail = 2 }

numbers-IsRing : IsRing 4 numbers
numbers-IsRing = record { head_in = omega arith; tail_in = omega arith }

abbrev some_ops : List (QueueOp ℕ)
some_ops = put 99 ∷ get ∷ put 98 ∷ get ∷ []

ring_run-Agrees_example :
    Agrees 4 (ring_run 4 some_ops numbers) (queue_run 3 some_ops (contents 4 numbers))
ring_run-Agrees_example = ring_run-Agrees 4 some_ops numbers numbers-IsRing

-- Five clear readings so far, one transition waiting.
abbrev nearly_low : HopperInput
nearly_low = record {
  level = level_normal;
  clear_streak = 5;
  blocked_streak = 0;
  debounce_active = true;
  force_sample = false;
  next_sample_ms = 9000;
  last_background_ms = 4000;
  transitions = record {
    slots = λ i. record { level = level_normal; at_ms = 500 };
    head = 3;
    tail = 0;
  };
}

abbrev five_clear : List Bool
five_clear = false ∷ false ∷ false ∷ false ∷ false ∷ []

nearly_low-IsRing : IsRing hopper_input_depth nearly_low.transitions
nearly_low-IsRing = record { head_in = omega arith; tail_in = omega arith }

nearly_low-IsDebounced : IsDebounced five_clear nearly_low
nearly_low-IsDebounced = record {
  clear_run = refl;
  blocked_run = refl;
  clear_below = omega arith;
  blocked_below = omega arith;
  ring = nearly_low-IsRing;
}

poll-Backed_example :
    IsDebounced
      (readings_after 9000 true (sensed false) nearly_low five_clear)
      (hopper_input_poll 9000 true (sensed false) nearly_low)
    × Evidence level_normal
        (hopper_input_poll 9000 true (sensed false) nearly_low).level
        (readings_after 9000 true (sensed false) nearly_low five_clear)
poll-Backed_example =
    poll-Backed 9000 true (sensed false) nearly_low five_clear nearly_low-IsDebounced

abbrev shown_empty : LevelState
shown_empty = record {
  published = state_empty;
  empty_latched = true;
  transitions = record {
    slots = λ i. record { level = state_empty; at_ms = 0 };
    head = 0;
    tail = 0;
  };
}

hopper_level_poll-Drained_example :
    Drained nearly_low shown_empty (hopper_level_poll nearly_low shown_empty)
hopper_level_poll-Drained_example =
    hopper_level_poll-Drained nearly_low shown_empty nearly_low-IsRing

on_dispense_finished-latched_example :
    let r = hopper_level_on_dispense_finished success (pos 0) true 7 nearly_low shown_empty in
    let latched = latched_then success (pos 0) true nearly_low.level true in
    (r.1.empty_latched ≡ latched)
    × (r.1.published ≡ shown_then latched nearly_low.level)
    × (r.0 ≡ reported_then success latched)
on_dispense_finished-latched_example =
    on_dispense_finished-latched success (pos 0) true 7 nearly_low shown_empty

abbrev fresh_outbox : Outbox
fresh_outbox = record {
  slots = λ i. empty_message;
  head = 23;
  count = 0;
  last_drain_ticks = 0;
  drained_once = false;
  accepting = true;
}

abbrev online : MqttPort
online = record { is_connected = true; publish = λ m. true }

abbrev traffic : List Operation
traffic =
    enqueue (some (97 ∷ [])) (some (1 ∷ 2 ∷ [])) 2 0 true
    ∷ enqueue (some (98 ∷ [])) none 0 1 false
    ∷ drain (some online) 1000
    ∷ drain (some online) 1050
    ∷ []

abbrev on_bank_b : ControlBlock
on_bank_b = record {
  magic = boot_ctrl_magic;
  active_flag = boot_flag_b;
  unverified = 0;
  boot_attempts = 255;
  rolled_back = 0;
}

-- A stack at the top of TCM and an entry point just after the base of bank A.
abbrev image : Header
image = record {
  b0 = 0;
  b1 = 0x80;
  b2 = 0x01;
  b3 = 0x04;
  b4 = 0x01;
  b5 = 0x21;
  b6 = 0x01;
  b7 = 0x08;
}

scan_vector_table-Found_example :
    Found (λ offset. some image) 0x12000 cm4_base 0 (boot_vector_scan_limit / boot_vector_scan_step)
scan_vector_table-Found_example =
    scan_vector_table-Found (λ offset. some image) 0x12000 cm4_base (omega arith)
      (unfold boot_bank_scan_vector_table scan_from boot_bank_vector_table_valid word
          stack_in_ram in
        refl)

abbrev calibrated : Tare
calibrated = record {
  stable_dg = pos 120;
  drift_offset_dg = pos 3;
  stable_valid = true;
  pending_calibration = false;
  prev_raw_dg = pos 117;
  prev_raw_valid = true;
  quiet_streak = 0;
  bowl_err_sync_known = true;
  last_bowl_err_sync = bowl_ok;
}

-- The weight drifts down by 0.3 g, and 5 g are taken out of the bowl.
idle_samples-present_example :
    let t = sampled_all (pos 116 ∷ pos 115 ∷ pos 114 ∷ []) calibrated in
    (auto_tare_present_dg (pos 114) true t ≡ pos 120)
    × (auto_tare_present_dg (pos 64) true (auto_tare_idle_sample false (pos 64) true t)
        ≡ (if near (pos 64) (pos 114) then pos 120 else pos 120 +ℤ (pos 64 -ℤ pos 114)))
unfolding ◌+ℤ◌ last_of
idle_samples-present_example =
    idle_samples-present calibrated (pos 116) (pos 115 ∷ pos 114 ∷ []) (pos 64) refl refl refl
      (unfold Drifts near in (refl, (refl, (refl, tt))))

abbrev on_mains : PowerInput
on_mains = record {
  irq_sample_after_ms = 150;
  last_mains = true;
  confirmed_mains = true;
  valid = true;
  transitions = record { slots = λ i. record { edge = edge_mains; at_ms = 0 }; head = 0; tail = 0 };
}

alternating-settles_example :
    SameLevel on_mains (alternating false (160 ∷ 170 ∷ 180 ∷ []) on_mains)
    × ((power_source_input_poll (mains false) 200 (
          power_source_input_poll
            (mains false)
            190
            (alternating false (160 ∷ 170 ∷ 180 ∷ []) on_mains))).confirmed_mains
        ≡ false)
alternating-settles_example =
    alternating-settles (160 ∷ 170 ∷ 180 ∷ []) false false 190 200 on_mains refl
      (omega arith, (omega arith, (omega arith, tt))) (omega arith) (omega arith)

failures-on_success_example :
    mqtt_backoff_current_ms (failures 7 (mqtt_backoff_on_success (some 4000)))
    ≡ min (1000 * 2 ^ 7) 60000
failures-on_success_example = failures-on_success 7 4000

abbrev held : ChannelGesture
held = record { state = gesture_held; down_ms = 100; long_fired = false; down = true }

-- Reset and dispense are held, the child lock is not toggled yet.
abbrev both_held : Gestures
both_held = record {
  power_channel = idle_channel;
  reset_channel = held;
  dispense_channel = held;
  events = record {
    slots = λ i. record { id = power; kind = short; at_ms = 0 };
    head = 0;
    tail = 0;
  };
  combo_start_ms = 100;
  combo_active = true;
  combo_fired = false;
  combo_session = true;
}

both_held-IsSilent : IsSilent both_held.events
unfolding contents count items
both_held-IsSilent = record {
  ring = record { head_in = omega arith; tail_in = omega arith };
  others = tt;
}

-- The child lock is toggled at 3.2 s, reset goes up, and dispense after 8 s more.
abbrev both_go_up : List ButtonAct
both_go_up =
    ticked 3200
    ∷ turned (record { id = reset; edge = edge_up; at_ms = 3300 })
    ∷ ticked 9000
    ∷ turned (record { id = dispense; edge = edge_up; at_ms = 11300 })
    ∷ []

both_go_up-StaysHeld : StaysHeld both_go_up both_held
unfolding StaysHeld acted button_gesture_step step_combo step_channel
    button_gesture_purge_combo_partner_events button_gesture_on_transition on_release
    button_gesture_update_combo button_gesture_end_combo_session_if_released with_channel channel_of
    is_held button_gesture_is_combo_partner button_gesture_long_ms button_gesture_enqueue
both_go_up-StaysHeld = (refl, (refl, (refl, (refl, tt))))

all_acted-IsSilent_example : IsSilent (all_acted both_go_up both_held).events
all_acted-IsSilent_example =
    all_acted-IsSilent both_go_up both_held refl both_held-IsSilent both_go_up-StaysHeld
