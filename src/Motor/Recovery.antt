-- ===== src/Motor/Recovery.antt =====
-- The start of a run and the recovery from a jam keep the account of sessions and events.
use xiaomi_feeder_iv.Common.{
  if◌then◌else◌, if_both, ℕ, ◌≡◌, refl, Bool, true, false, not, leb, u32, ◌+◌, ap, ◌∙◌, Option,
  none, some, arith,
}
use xiaomi_feeder_iv.Motor.{
  Phase, JamReason, Motor, Inputs, motor_coast_stop_retry, motor_driver_start_ph, is_idle,
  anti_jam_reverse_ms, anti_jam_wiggle_ms, anti_jam_max_retries, idle, run_burst, run_park,
  run_bench, antijam_rev, antijam_wiggle_fwd, antijam_wiggle_rev, motor_driver_stop,
}
use xiaomi_feeder_iv.Motor.Antijam.{
  timed_phase, motor_ctrl_begin_antijam, motor_ctrl_begin_run, reset_run, first_beam_seen,
  run_forward, motor_ctrl_begin_bench_run, is_park_cmd, motor_ctrl_retry_active_cmd, still_jammed,
  next_wiggle, motor_ctrl_after_antijam_step,
}
use xiaomi_feeder_iv.Motor.Session.{motor_ctrl_finish_fault}
use xiaomi_feeder_iv.Motor.Events.{
  Open, Runs, working, same-Open, Halted, stop-Halted, finish_fault-Runs,
}

module _ (obeys : Bool) (i : Inputs)
    (works : obeys ≡ true → motor_coast_stop_retry i.coast ≡ true) where
  start-Open : (n : ℕ) (m : Motor) → Open obeys n m → Open obeys n (motor_driver_start_ph i m).1
  unfolding motor_driver_start_ph
  start-Open n m o =
      let P : Bool × Motor → Type 0 = λ (r : Bool × Motor). Open obeys n r.1 in
      let go : Bool × Motor = (true, record m { running = true; en = true }) in
      let last : Bool × Motor = if not i.en_ok then (false, m) else go in
      let next : Bool × Motor = if not i.ph_ok then (false, m) else last in
      if_both P m.running (false, m) next (λ _. o)
        (λ _.
          if_both P (not i.ph_ok) (false, m) last (λ _. o)
            (λ _.
              if_both P (not i.en_ok) (false, m) go (λ _. o)
                (λ _. record {
                  holds = o.holds;
                  count = o.count;
                  retries = o.retries;
                  pin = λ _. refl;
                })))

  start-phase : (m : Motor) → (motor_driver_start_ph i m).1.phase ≡ m.phase
  unfolding motor_driver_start_ph
  start-phase m =
      let P : Bool × Motor → Type 0 = λ (r : Bool × Motor). r.1.phase ≡ m.phase in
      let go : Bool × Motor = (true, record m { running = true; en = true }) in
      let last : Bool × Motor = if not i.en_ok then (false, m) else go in
      let next : Bool × Motor = if not i.ph_ok then (false, m) else last in
      if_both P m.running (false, m) next (λ _. refl)
        (λ _.
          if_both P (not i.ph_ok) (false, m) last (λ _. refl)
            (λ _. if_both P (not i.en_ok) (false, m) go (λ _. refl) (λ _. refl)))

  timed-Runs :
      (n ms : ℕ) (p : Phase) (m : Motor)
      → is_idle p ≡ false
      → Open obeys n m
      → Runs obeys n (timed_phase p ms i m)
  unfolding timed_phase
  timed-Runs n ms p m w o =
      let started =
        start-Open n (record m { phase = p }) (same-Open m _ refl refl refl refl refl o) in
      working (ap (λ (x : Phase). is_idle x) (start-phase (record m { phase = p })) ∙ w) (
        same-Open (motor_driver_start_ph i (record m { phase = p })).1 _ refl refl refl refl refl
          started)

  halted-Open : (n : ℕ) (m : Motor) → Open obeys n m → Open obeys n (motor_driver_stop i m).1
  unfolding Halted
  halted-Open n m o = (stop-Halted obeys i works n m o).0

  reset-Open : (n : ℕ) (m : Motor) → Open obeys n m → Open obeys n (reset_run i m)
  unfolding reset_run
  reset-Open n m o = same-Open m _ refl refl refl refl refl o

  pub antijam-Runs :
      (n : ℕ) (r : JamReason) (m : Motor)
      → Open obeys n m
      → Runs obeys n (motor_ctrl_begin_antijam r i m)
  unfolding motor_ctrl_begin_antijam
  antijam-Runs n r m o =
      let stopped = record ((motor_driver_stop i m).1) {
        sustained_over_ms = 0;
        instant_jam = false;
      } in
      let again = record stopped {
        last_jam_reason = r;
        antijam_retries = stopped.antijam_retries + 1;
      } in
      let o' : Open obeys n stopped =
        same-Open (motor_driver_stop i m).1 stopped refl refl refl refl refl (halted-Open n m o) in
      if_both (Runs obeys n) (leb anti_jam_max_retries stopped.antijam_retries)
        (motor_ctrl_finish_fault i stopped) (timed_phase antijam_rev anti_jam_reverse_ms i again)
        (λ _. finish_fault-Runs obeys i works n stopped o')
        (λ f.
          timed-Runs n anti_jam_reverse_ms antijam_rev again refl
            (record { holds = o'.holds; count = o'.count; retries = ground arith; pin = o'.pin }))

  forward-Runs :
      (n : ℕ) (park : Bool) (m : Motor) → Open obeys n m → Runs obeys n (run_forward park i m)
  unfolding run_forward
  forward-Runs n park m o =
      let (ok, started) = motor_driver_start_ph i m in
      let o' : Open obeys n started = start-Open n m o in
      let phase = if park then run_park else run_burst in
      if_both (Runs obeys n) (not ok) (motor_ctrl_finish_fault i started)
        (record started { phase = phase }) (λ _. finish_fault-Runs obeys i works n started o')
        (λ _.
          working
            (if_both (λ (p : Phase). is_idle p ≡ false) park run_park run_burst (λ _. refl)
              (λ _. refl))
            (same-Open started (record started { phase = phase }) refl refl refl refl refl o'))

  first_beam-Open :
      (n : ℕ) (b : Option Bool) (m : Motor) → Open obeys n m → Open obeys n (first_beam_seen b m)
  unfolding first_beam_seen
  first_beam-Open n none m o = o
  first_beam-Open n (some b) m o = same-Open m _ refl refl refl refl refl o

  pub begin_run-Runs :
      (n : ℕ) (park : Bool) (m : Motor)
      → Open obeys n m
      → Runs obeys n (motor_ctrl_begin_run park i m)
  unfolding motor_ctrl_begin_run
  begin_run-Runs n park m o =
      let o' : Open obeys n (reset_run i m) = reset-Open n m o in
      if_both (Runs obeys n) (not i.session_begin) (motor_ctrl_finish_fault i (reset_run i m)) _
        (λ _. finish_fault-Runs obeys i works n (reset_run i m) o')
        (λ _. forward-Runs n park _ (first_beam-Open n i.first_beam (reset_run i m) o'))

  pub bench-Runs :
      (n : ℕ) (m : Motor) → Open obeys n m → Runs obeys n (motor_ctrl_begin_bench_run i m)
  unfolding motor_ctrl_begin_bench_run
  bench-Runs n m o =
      let (ok, started) = motor_driver_start_ph i m in
      let o' : Open obeys n started = start-Open n m o in
      let bench = record started {
        phase = run_bench;
        phase_end_tick = u32 (i.start_tick + i.ticks m.active_cmd.timeout_ms);
      } in
      if_both (Runs obeys n) (not ok) (motor_ctrl_finish_fault i started) bench
        (λ _. finish_fault-Runs obeys i works n started o')
        (λ _. working refl (same-Open started bench refl refl refl refl refl o'))

  retry-Runs : (n : ℕ) (m : Motor) → Open obeys n m → Runs obeys n (motor_ctrl_retry_active_cmd i m)
  unfolding motor_ctrl_retry_active_cmd
  retry-Runs n m o =
      if_both (Runs obeys n) (is_park_cmd m.active_cmd.kind) (motor_ctrl_begin_run true i m)
        (motor_ctrl_begin_run false i m) (λ _. begin_run-Runs n true m o)
        (λ _. begin_run-Runs n false m o)

  wiggle-Runs : (n : ℕ) (p : Phase) (m : Motor) → Open obeys n m → Runs obeys n (next_wiggle p i m)
  unfolding next_wiggle
  wiggle-Runs n antijam_rev m o = timed-Runs n anti_jam_wiggle_ms antijam_wiggle_fwd m refl o
  wiggle-Runs n antijam_wiggle_fwd m o = timed-Runs n anti_jam_wiggle_ms antijam_wiggle_rev m refl o
  wiggle-Runs n antijam_wiggle_rev m o = antijam-Runs n m.last_jam_reason m o
  wiggle-Runs n idle m o = antijam-Runs n m.last_jam_reason m o
  wiggle-Runs n run_burst m o = antijam-Runs n m.last_jam_reason m o
  wiggle-Runs n run_park m o = antijam-Runs n m.last_jam_reason m o
  wiggle-Runs n run_bench m o = antijam-Runs n m.last_jam_reason m o

  pub step-Runs :
      (n : ℕ) (m : Motor) → Open obeys n m → Runs obeys n (motor_ctrl_after_antijam_step i m)
  unfolding motor_ctrl_after_antijam_step
  step-Runs n m o =
      let stopped = (motor_driver_stop i m).1 in
      let o' : Open obeys n stopped = halted-Open n m o in
      if_both (Runs obeys n) (not (still_jammed i.adc_step)) (motor_ctrl_retry_active_cmd i stopped)
        (next_wiggle stopped.phase i stopped) (λ _. retry-Runs n stopped o')
        (λ _. wiggle-Runs n stopped.phase stopped o')
