-- ===== src/Examples/Supervisor.antt =====
-- The theorems on the dispense supervisor and the scale at concrete jobs and readings.
use xiaomi_feeder_iv.Bowl.Sample.{WeightPort}
use xiaomi_feeder_iv.Bowl.Sample.Rate.{Tick, ticks, Between, CountsRead, CountsPort, ticks-reads}
use xiaomi_feeder_iv.Schedule.Poll.{fire_skipped_full}
use xiaomi_feeder_iv.Bowl.Overfill.{is_full, schedule_fire-is_full}
use xiaomi_feeder_iv.Bowl.{boot_done, WeightState, fired_as, feed_schedule_fire}
use xiaomi_feeder_iv.Feed.{
  key_overfill_threshold_g, FeedPort, feed_config_overfill_enabled_get,
  feed_config_overfill_threshold_g_get,
}
use xiaomi_feeder_iv.Common.{
  if◌then◌else◌, All, ℕ, suc, ◌+◌, ◌*◌, ◌≤◌, ◌≡◌, refl, true, false, ◌&&◌, none, some, List, [],
  ◌∷◌, arith,
}
use xiaomi_feeder_iv.Common.Int.{negsuc, pos}
use xiaomi_feeder_iv.Tare.{bowl_ok, cal_success, Tare}
use xiaomi_feeder_iv.Hopper.{level_normal}
use xiaomi_feeder_iv.Hopper.Level.{success, state_normal}
use xiaomi_feeder_iv.Dispense.{
  phase_none, kind_grams, from_mqtt, from_button, from_schedule, open_loop, compensated, Request,
  Dispense, Feeder, Answers, dispense_is_active,
}
use xiaomi_feeder_iv.Weigh.{
  no_calibration, with_zero, weigh_cal_save_zero, write_span, weigh_cal_save_span,
  weigh_cal_food_dg,
}
use xiaomi_feeder_iv.Weigh.Bowl.{save_span-food}
use xiaomi_feeder_iv.Common.Port.{port_ok, io_error}
use xiaomi_feeder_iv.Dispense.Settle.{
  Weighed, verdict, dispense_on_burst_done, dispense_on_motor_fault, dispense_poll,
}
use xiaomi_feeder_iv.Dispense.Start.{
  dispense_submit_portions, dispense_submit_grams, dispense_start_from_request,
}
use xiaomi_feeder_iv.Dispense.Portions.{Justified, verdict-Justified}
use xiaomi_feeder_iv.Dispense.Flag.{IsFlagged, operations-IsFlagged}
use xiaomi_feeder_iv.Dispense.Round.{Round, IsRound, rounds}
use xiaomi_feeder_iv.Dispense.Batches.{start_from_request-rounds}

abbrev no_job : Dispense
no_job = record {
  job_pending = true;
  phase = phase_none;
  outcome = success;
  source = from_mqtt;
  portions = 0;
  total_portions = 0;
  target_grams = 0;
  target_dg = pos 0;
  gram_job = false;
  mode = open_loop;
  batch_count = 0;
  baseline_dg = pos 0;
  last_settle_dg = pos 0;
  baseline_valid = false;
  settle_start_ms = 0;
  zero_delta_streak = 0;
}

-- A request waits to be started.
abbrev waiting : Feeder
waiting = record {
  job = no_job;
  dispense_active = true;
  tare = record {
    stable_dg = pos 0;
    drift_offset_dg = pos 0;
    stable_valid = false;
    pending_calibration = false;
    prev_raw_dg = pos 0;
    prev_raw_valid = false;
    quiet_streak = 0;
    bowl_err_sync_known = false;
    last_bowl_err_sync = bowl_ok;
  };
  input = record {
    level = level_normal;
    clear_streak = 0;
    blocked_streak = 0;
    debounce_active = false;
    force_sample = false;
    next_sample_ms = 0;
    last_background_ms = 0;
    transitions = record {
      slots = λ i. record { level = level_normal; at_ms = 0 };
      head = 0;
      tail = 0;
    };
  };
  level = record {
    published = state_normal;
    empty_latched = false;
    transitions = record {
      slots = λ i. record { level = state_normal; at_ms = 0 };
      head = 0;
      tail = 0;
    };
  };
  schedule = record {
    slots = [];
    global_enabled = true;
    today_enabled = true;
    active_valid = false;
    active_hour = 0;
    active_min = 0;
    last_yday = 0;
    last_hour = 0;
    last_min = 0;
    poll_clock_valid = false;
    changed = 0;
  };
}

-- The bowl holds 5 g whenever it is weighed, and jobs are compensated.
abbrev weighed : Answers
weighed = record {
  read_dg = some (pos 50);
  cal_status = none;
  snapshot = some (record { valid = true; sample_age_ms = 100; dg = pos 50 });
  motor_takes = true;
  feed_mode = compensated;
}

abbrev twenty_grams : Request
twenty_grams = record { kind = kind_grams; target = 20; source = from_mqtt }

operations-IsFlagged_example :
    IsFlagged (dispense_submit_portions 3 from_button false true waiting).2
    × IsFlagged (dispense_submit_grams 3 from_button false true waiting).2
    × IsFlagged (dispense_start_from_request weighed (some twenty_grams) waiting)
    × IsFlagged (dispense_on_burst_done waiting).1
    × IsFlagged (dispense_on_motor_fault waiting).1
    × IsFlagged (dispense_poll 500 weighed waiting).1
operations-IsFlagged_example =
    operations-IsFlagged waiting 500 weighed (some twenty_grams) 3 from_button false true
      (unfold IsFlagged dispense_is_active in refl)

abbrev ended : ℕ → Round
ended t = record { fault = false; first = t; second = t + 3000; answers = weighed }

three_IsRound : All IsRound (ended 1000 ∷ ended 9000 ∷ ended 17000 ∷ [])
unfolding IsRound
three_IsRound =
    ((ground arith, omega arith), ((ground arith, omega arith), ((ground arith, omega arith), tt)))

start_from_request-rounds_example :
    (rounds
      (ended 1000 ∷ ended 9000 ∷ ended 17000 ∷ [])
      (dispense_start_from_request weighed (some twenty_grams) waiting)).job.phase
    ≡ phase_none
start_from_request-rounds_example =
    start_from_request-rounds weighed (some twenty_grams) waiting
      (ended 1000 ∷ ended 9000 ∷ ended 17000 ∷ []) refl three_IsRound refl

-- A compensated job of 20 g that has delivered 11 g in its first batch.
abbrev short_batch : Weighed
short_batch = record {
  delivered = pos 110;
  raw_delta = pos 110;
  event_grams = pos 11;
  measured = true;
  job = record no_job { mode = compensated; target_dg = pos 200; batch_count = 1 };
}

verdict-Justified_example : Justified short_batch (verdict short_batch)
verdict-Justified_example = verdict-Justified short_batch refl refl refl

-- The raw values 1000 without the bowl and 8000 with it.
save_span-food_example :
    let c =
      (weigh_cal_save_span
        (some (port_ok, port_ok))
        (pos 350)
        (pos 8000)
        (weigh_cal_save_zero (some port_ok) (pos 1000) no_calibration).1).1 in
    (weigh_cal_food_dg c (pos 8000) ≡ some (pos 0))
    × (weigh_cal_food_dg c (pos 1000) ≡ some (negsuc 3499))
save_span-food_example =
    save_span-food (some port_ok) (some (port_ok, port_ok)) (pos 1000) (pos 350) (pos 8000)
      no_calibration (unfold weigh_cal_save_zero in refl)
      (unfold weigh_cal_save_zero with_zero weigh_cal_save_span write_span in refl)

-- Protection is on from 40 g, and the bowl holds 39.6 g.
abbrev full_port : FeedPort Unit
full_port = record {
  read = λ key size s. elim key [
    | key_overfill_threshold_g ↦ (port_ok, 52 ∷ 48 ∷ [])
    | _ ↦ (port_ok, 49 ∷ [])
  ];
  write = λ key text s. (io_error, s);
}

abbrev sampled_bowl : WeightState
sampled_bowl = record {
  boot = boot_done;
  bowl_dg = pos 396;
  bowl_valid = true;
  last_sample_ms = 700;
  resample_after_dispense = false;
}

schedule_fire-is_full_example :
    let r = dispense_submit_grams 20 from_schedule false true waiting in
    feed_schedule_fire (some full_port) tt 20 1000 cal_success sampled_bowl false true waiting ≡ (
      if feed_config_overfill_enabled_get (some full_port) tt
        && is_full cal_success sampled_bowl
            (feed_config_overfill_threshold_g_get (some full_port) tt)
      then (fire_skipped_full, none, waiting)
      else (fired_as r.0, r.1, r.2))
schedule_fire-is_full_example =
    schedule_fire-is_full (some full_port) tt 20 1000 cal_success sampled_bowl false true waiting

abbrev untracked : Tare
untracked = record {
  stable_dg = pos 0;
  drift_offset_dg = pos 0;
  stable_valid = false;
  pending_calibration = true;
  prev_raw_dg = pos 0;
  prev_raw_valid = false;
  quiet_streak = 0;
  bowl_err_sync_known = false;
  last_bowl_err_sync = bowl_ok;
}

-- A scale that counts its reads and answers each with an error.
abbrev counted_scale : WeightPort ℕ
counted_scale = record {
  read_dg = some (λ n. ((io_error, pos 0), suc n));
  try_read_dg = none;
  boot_poll = none;
  cal = cal_success;
}

counted_scale-CountsPort : CountsPort (λ n. n) (some counted_scale)
unfolding CountsPort CountsRead
counted_scale-CountsPort = (λ n. refl, tt)

-- Ticks 300 ms, 500 ms, 900 ms and a second after the sample: the second and the fourth read.
abbrev tick_at : ℕ → Tick ℕ
tick_at now_ms = record { busy = false; now_ms = now_ms; port = some counted_scale }

abbrev four_ticks : List (Tick ℕ)
four_ticks = tick_at 1000 ∷ tick_at 1200 ∷ tick_at 1600 ∷ tick_at 1700 ∷ []

ticks-reads_example : 500 * (ticks four_ticks (sampled_bowl, untracked) 0).1 + 700 ≤ 500 * 0 + 1700
ticks-reads_example =
    let c = counted_scale-CountsPort in
    ticks-reads (λ n. n) four_ticks (sampled_bowl, untracked) 0 700 1700 (c, (c, (c, (c, tt))))
      (omega arith) (omega arith) (omega arith)
      (unfold Between in (omega arith, (omega arith, (omega arith, (omega arith, omega arith)))))
