-- ===== src/Motor/Turns.antt =====
-- A turn of the motor task keeps the account of sessions and events.
use xiaomi_feeder_iv.Common.{
  ltb, leb, if◌then◌else◌, if_both, u32, ℕ, ◌+◌, ◌≡◌, refl, Bool, true, false, not, ◌&&◌, arith, ap,
  ◌∙◌,
}
use xiaomi_feeder_iv.Motor.{
  index_irq_debounce_ms, burst_beam_poll_ms, park_beam_poll_ms, JamReason, jam_none, adc_isr,
  adc_instant, adc_sustained, index_timeout, session_timeout, burst_done, timed_run_done, Motor,
  Inputs, motor_coast_stop_retry, is_idle, is_burst, is_park, motor_ctrl_session_timed_out, Phase,
  idle, run_burst, run_park, run_bench, antijam_rev, antijam_wiggle_fwd, antijam_wiggle_rev,
}
use xiaomi_feeder_iv.Motor.Session.{
  motor_ctrl_finish_fault, finish_done, motor_ctrl_schedule_index_sample,
  motor_ctrl_try_index_sample, motor_ctrl_poll_session_beam, index_jam, load_jam, or_index,
  motor_ctrl_detect_jam,
}
use xiaomi_feeder_iv.Motor.Antijam.{motor_ctrl_after_antijam_step}
use xiaomi_feeder_iv.Motor.Task.{
  before_end, motor_ctrl_poll_bench, motor_ctrl_poll_antijam, on_notify, poll_park_beam, poll_beams,
  after_jam, motor_ctrl_poll_run, poll_phase,
}
use xiaomi_feeder_iv.Motor.Events.{
  Open, Runs, working, finish_fault-Runs, finish_done-Runs, same-Open, same-Runs, Runs-Open,
  burst_busy, park_busy,
}
use xiaomi_feeder_iv.Motor.Polls.{try_sample-Runs, poll_beam-Runs}
use xiaomi_feeder_iv.Motor.Recovery.{antijam-Runs, step-Runs}

busy : (m : Motor) (p : Phase) → m.phase ≡ p → is_idle p ≡ false → is_idle m.phase ≡ false
busy m p e h = ap (λ (x : Phase). is_idle x) e ∙ h

module _ (obeys : Bool) (i : Inputs)
    (works : obeys ≡ true → motor_coast_stop_retry i.coast ≡ true) where
  bench_poll-Runs :
      (n : ℕ) (m : Motor)
      → is_idle m.phase ≡ false
      → Open obeys n m
      → Runs obeys n (motor_ctrl_poll_bench i m)
  unfolding motor_ctrl_poll_bench
  bench_poll-Runs n m w o =
      if_both (Runs obeys n) (before_end i m) m (finish_done timed_run_done i m) (λ _. working w o)
        (λ _. finish_done-Runs obeys i works n timed_run_done m o)

  antijam_poll-Runs :
      (n : ℕ) (m : Motor)
      → is_idle m.phase ≡ false
      → Open obeys n m
      → Runs obeys n (motor_ctrl_poll_antijam i m)
  unfolding motor_ctrl_poll_antijam
  antijam_poll-Runs n m w o =
      let later = if before_end i m then m else motor_ctrl_after_antijam_step i m in
      if_both (Runs obeys n) (motor_ctrl_session_timed_out i m) (motor_ctrl_finish_fault i m) later
        (λ _. finish_fault-Runs obeys i works n m o)
        (λ _.
          if_both (Runs obeys n) (before_end i m) m (motor_ctrl_after_antijam_step i m)
            (λ _. working w o) (λ _. step-Runs obeys i works n m o))

  notify-Runs : (n : ℕ) (m : Motor) → Runs obeys n m → Runs obeys n (on_notify i m)
  unfolding on_notify motor_ctrl_schedule_index_sample
  notify-Runs n m v =
      let ready_at = u32 (i.now + i.ticks index_irq_debounce_ms) in
      let scheduled = if i.notify_index then motor_ctrl_schedule_index_sample i m else m in
      let v' : Runs obeys n scheduled =
        if_both (Runs obeys n) i.notify_index (motor_ctrl_schedule_index_sample i m) m
          (λ _.
            if_both (Runs obeys n) (ltb m.index_sample_after_tick ready_at)
              (record m { index_sample_after_tick = ready_at }) m
              (λ _. same-Runs m _ refl refl refl refl refl refl v) (λ _. v))
          (λ _. v) in
      if_both (Runs obeys n) i.notify_adc (record scheduled { instant_jam = true }) scheduled
        (λ _. same-Runs scheduled _ refl refl refl refl refl refl v') (λ _. v')

  park_beam-Runs : (n : ℕ) (m : Motor) → Runs obeys n m → Runs obeys n (poll_park_beam i m)
  unfolding poll_park_beam
  park_beam-Runs n m v =
      let polled = motor_ctrl_poll_session_beam park_beam_poll_ms i m in
      let later = if is_idle polled.phase then polled else on_notify i polled in
      if_both (Runs obeys n) (not (is_park m.phase)) (on_notify i m) later (λ _. notify-Runs n m v)
        (λ f.
          let w = park_busy m.phase (ground arith) in
          let v' = poll_beam-Runs obeys i works n park_beam_poll_ms m w (Runs-Open m v w) in
          if_both (Runs obeys n) (is_idle polled.phase) polled (on_notify i polled) (λ _. v')
            (λ _. notify-Runs n polled v'))

  beams-Runs : (n : ℕ) (m : Motor) → Runs obeys n m → Runs obeys n (poll_beams i m)
  unfolding poll_beams
  beams-Runs n m v =
      let polled = motor_ctrl_poll_session_beam burst_beam_poll_ms i m in
      let later = if is_idle polled.phase then polled else poll_park_beam i polled in
      if_both (Runs obeys n) (not (is_burst m.phase)) (poll_park_beam i m) later
        (λ _. park_beam-Runs n m v)
        (λ f.
          let w = burst_busy m.phase (ground arith) in
          let v' = poll_beam-Runs obeys i works n burst_beam_poll_ms m w (Runs-Open m v w) in
          if_both (Runs obeys n) (is_idle polled.phase) polled (poll_park_beam i polled) (λ _. v')
            (λ _. park_beam-Runs n polled v'))

  no_jam-Runs :
      (n : ℕ) (m : Motor)
      → is_idle m.phase ≡ false
      → Open obeys n m
      → Runs obeys n (after_jam i (jam_none, m))
  unfolding after_jam
  no_jam-Runs n m w o =
      if_both (Runs obeys n) (is_burst m.phase && leb m.active_cmd.pulse_target m.pulses)
        (finish_done burst_done i m) (poll_beams i (motor_ctrl_try_index_sample i m))
        (λ _. finish_done-Runs obeys i works n burst_done m o)
        (λ _. beams-Runs n _ (try_sample-Runs obeys i works n m w o))

  after_jam-Runs :
      (n : ℕ) (r : JamReason) (m : Motor)
      → is_idle m.phase ≡ false
      → Open obeys n m
      → Runs obeys n (after_jam i (r, m))
  unfolding after_jam
  after_jam-Runs n jam_none m w o = no_jam-Runs n m w o
  after_jam-Runs n adc_isr m w o = antijam-Runs obeys i works n adc_isr m o
  after_jam-Runs n adc_instant m w o = antijam-Runs obeys i works n adc_instant m o
  after_jam-Runs n adc_sustained m w o = antijam-Runs obeys i works n adc_sustained m o
  after_jam-Runs n index_timeout m w o = antijam-Runs obeys i works n index_timeout m o
  after_jam-Runs n session_timeout m w o = antijam-Runs obeys i works n session_timeout m o

  or_index-Runs :
      (n : ℕ) (r : JamReason) (over : ℕ) (m : Motor)
      → is_idle m.phase ≡ false
      → Open obeys n m
      → Runs obeys n (after_jam i (or_index (r, over) i m))
  unfolding or_index
  or_index-Runs n jam_none over m w o =
      after_jam-Runs n (index_jam i m) (record m { sustained_over_ms = over }) w
        (same-Open m _ refl refl refl refl refl o)
  or_index-Runs n adc_isr over m w o =
      after_jam-Runs n adc_isr (record m { sustained_over_ms = over }) w
        (same-Open m _ refl refl refl refl refl o)
  or_index-Runs n adc_instant over m w o =
      after_jam-Runs n adc_instant (record m { sustained_over_ms = over }) w
        (same-Open m _ refl refl refl refl refl o)
  or_index-Runs n adc_sustained over m w o =
      after_jam-Runs n adc_sustained (record m { sustained_over_ms = over }) w
        (same-Open m _ refl refl refl refl refl o)
  or_index-Runs n index_timeout over m w o =
      after_jam-Runs n index_timeout (record m { sustained_over_ms = over }) w
        (same-Open m _ refl refl refl refl refl o)
  or_index-Runs n session_timeout over m w o =
      after_jam-Runs n session_timeout (record m { sustained_over_ms = over }) w
        (same-Open m _ refl refl refl refl refl o)

  run_poll-Runs :
      (n : ℕ) (m : Motor)
      → is_idle m.phase ≡ false
      → Open obeys n m
      → Runs obeys n (motor_ctrl_poll_run i m)
  unfolding motor_ctrl_poll_run motor_ctrl_detect_jam
  run_poll-Runs n m w o =
      let found = if m.instant_jam then (adc_isr, m) else or_index (load_jam i.adc_jam m) i m in
      if_both (Runs obeys n) (motor_ctrl_session_timed_out i m) (motor_ctrl_finish_fault i m)
        (after_jam i found) (λ _. finish_fault-Runs obeys i works n m o)
        (λ _.
          if_both (λ (r : JamReason × Motor). Runs obeys n (after_jam i r)) m.instant_jam
            (adc_isr, m) (or_index (load_jam i.adc_jam m) i m) (λ _. after_jam-Runs n adc_isr m w o)
            (λ _. or_index-Runs n _ _ m w o))

  phase-Runs :
      (n : ℕ) (p : Phase) (m : Motor)
      → m.phase ≡ p
      → Runs obeys n m
      → Runs obeys n (poll_phase p i m)
  unfolding poll_phase
  phase-Runs n idle m e v = v
  phase-Runs n run_burst m e v =
      let w = busy m run_burst e refl in run_poll-Runs n m w (Runs-Open m v w)
  phase-Runs n run_park m e v =
      let w = busy m run_park e refl in run_poll-Runs n m w (Runs-Open m v w)
  phase-Runs n run_bench m e v =
      let w = busy m run_bench e refl in bench_poll-Runs n m w (Runs-Open m v w)
  phase-Runs n antijam_rev m e v =
      let w = busy m antijam_rev e refl in antijam_poll-Runs n m w (Runs-Open m v w)
  phase-Runs n antijam_wiggle_fwd m e v =
      let w = busy m antijam_wiggle_fwd e refl in antijam_poll-Runs n m w (Runs-Open m v w)
  phase-Runs n antijam_wiggle_rev m e v =
      let w = busy m antijam_wiggle_rev e refl in antijam_poll-Runs n m w (Runs-Open m v w)

  -- A poll in any phase.
  pub poll-Runs : (n : ℕ) (m : Motor) → Runs obeys n m → Runs obeys n (poll_phase m.phase i m)
  poll-Runs n m v = phase-Runs n m.phase m refl v
