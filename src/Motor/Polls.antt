-- ===== src/Motor/Polls.antt =====
-- The polls of the beam keep the account of sessions and events.
use xiaomi_feeder_iv.Common.{
  ltb, leb, ◌==◌, if◌then◌else◌, if_both, sub32, ℕ, ◌+◌, ◌≡◌, refl, Bool, true, false, not, ◌&&◌,
  ◌||◌, arith,
}
use xiaomi_feeder_iv.Motor.{
  burst_done, park_done, Motor, BeamPoll, poll_busy, poll_failed, beam, Inputs,
  motor_coast_stop_retry, is_idle, is_burst, is_park,
}
use xiaomi_feeder_iv.Motor.Session.{
  motor_ctrl_finish_fault, finish_done, motor_ctrl_note_io_failure, motor_ctrl_note_io_success,
  note_beam, motor_ctrl_apply_beam_sample, finish_if_fed, on_sample, motor_ctrl_try_index_sample,
  finish_if_parked, finish_session_beam, on_session_beam, motor_ctrl_poll_session_beam,
}
use xiaomi_feeder_iv.Motor.Events.{
  Open, Runs, working, finish_fault-Runs, finish_done-Runs, same-Open, Runs-Open, burst_busy,
  park_busy,
}

module _ (obeys : Bool) (i : Inputs)
    (works : obeys ≡ true → motor_coast_stop_retry i.coast ≡ true) where
  io_failure-Runs :
      (n : ℕ) (m : Motor)
      → is_idle m.phase ≡ false
      → Open obeys n m
      → Runs obeys n (motor_ctrl_note_io_failure i m)
  unfolding motor_ctrl_note_io_failure
  io_failure-Runs n m w o =
      let streak = if ltb m.io_fail_streak 255 then m.io_fail_streak + 1 else m.io_fail_streak in
      let counted = record m { io_fail_streak = streak } in
      let o' = same-Open m counted refl refl refl refl refl o in
      if_both (Runs obeys n) (leb 3 streak) (motor_ctrl_finish_fault i counted) counted
        (λ _. finish_fault-Runs obeys i works n counted o') (λ _. working w o')

  apply-Runs :
      (n : ℕ) (b : Bool) (m : Motor)
      → is_idle m.phase ≡ false
      → Open obeys n m
      → Runs obeys n (motor_ctrl_apply_beam_sample b i m)
  unfolding motor_ctrl_apply_beam_sample note_beam
  apply-Runs n b m w o =
      let o' = same-Open m (note_beam b m) refl refl refl refl refl o in
      if_both (Runs obeys n) (is_park m.phase && b) (finish_done park_done i (note_beam b m))
        (note_beam b m) (λ _. finish_done-Runs obeys i works n park_done (note_beam b m) o')
        (λ _. working w o')

  fed-Runs : (n : ℕ) (m : Motor) → Runs obeys n m → Runs obeys n (finish_if_fed i m)
  unfolding finish_if_fed
  fed-Runs n m v =
      if_both (Runs obeys n) (is_burst m.phase && leb m.active_cmd.pulse_target m.pulses)
        (finish_done burst_done i m) m
        (λ t.
          finish_done-Runs obeys i works n burst_done m
            (Runs-Open m v (burst_busy m.phase (ground arith))))
        (λ _. v)

  parked-Runs : (n : ℕ) (m : Motor) → Runs obeys n m → Runs obeys n (finish_if_parked i m)
  unfolding finish_if_parked
  parked-Runs n m v =
      if_both (Runs obeys n) (is_park m.phase && leb m.active_cmd.max_pulses m.pulses)
        (finish_done park_done i m) m
        (λ t.
          finish_done-Runs obeys i works n park_done m
            (Runs-Open m v (park_busy m.phase (ground arith))))
        (λ _. v)

  on_sample-Runs :
      (n : ℕ) (p : BeamPoll) (m : Motor)
      → is_idle m.phase ≡ false
      → Open obeys n m
      → Runs obeys n (on_sample p i m)
  unfolding on_sample motor_ctrl_note_io_success
  on_sample-Runs n poll_busy m w o = working w (same-Open m _ refl refl refl refl refl o)
  on_sample-Runs n poll_failed m w o =
      io_failure-Runs n (record m { index_sample_after_tick = 0 }) w
        (same-Open m _ refl refl refl refl refl o)
  on_sample-Runs n (beam b) m w o = fed-Runs n _ (
      apply-Runs n b (record m { index_sample_after_tick = 0; io_fail_streak = 0 }) w
        (same-Open m _ refl refl refl refl refl o))

  pub try_sample-Runs :
      (n : ℕ) (m : Motor)
      → is_idle m.phase ≡ false
      → Open obeys n m
      → Runs obeys n (motor_ctrl_try_index_sample i m)
  unfolding motor_ctrl_try_index_sample
  try_sample-Runs n m w o =
      if_both (Runs obeys n) (m.index_sample_after_tick == 0 || ltb i.now m.index_sample_after_tick)
        m (on_sample i.sample_beam i m) (λ _. working w o)
        (λ _. on_sample-Runs n i.sample_beam m w o)

  finish_beam-Runs : (n : ℕ) (m : Motor) → Runs obeys n m → Runs obeys n (finish_session_beam i m)
  unfolding finish_session_beam
  finish_beam-Runs n m v =
      let later =
        if is_burst m.phase && leb m.active_cmd.pulse_target m.pulses
        then finish_done burst_done i m
        else finish_if_parked i m in
      if_both (Runs obeys n) (is_idle m.phase) m later (λ _. v)
        (λ f.
          if_both (Runs obeys n) (is_burst m.phase && leb m.active_cmd.pulse_target m.pulses)
            (finish_done burst_done i m) (finish_if_parked i m)
            (λ _. finish_done-Runs obeys i works n burst_done m (Runs-Open m v f))
            (λ _. parked-Runs n m v))

  on_beam-Runs :
      (n : ℕ) (p : BeamPoll) (m : Motor)
      → is_idle m.phase ≡ false
      → Open obeys n m
      → Runs obeys n (on_session_beam p i m)
  unfolding on_session_beam motor_ctrl_note_io_success
  on_beam-Runs n poll_busy m w o = working w o
  on_beam-Runs n poll_failed m w o = io_failure-Runs n m w o
  on_beam-Runs n (beam b) m w o = finish_beam-Runs n _ (
      apply-Runs n b (record m { io_fail_streak = 0 }) w (same-Open m _ refl refl refl refl refl o))

  pub poll_beam-Runs :
      (n ms : ℕ) (m : Motor)
      → is_idle m.phase ≡ false
      → Open obeys n m
      → Runs obeys n (motor_ctrl_poll_session_beam ms i m)
  unfolding motor_ctrl_poll_session_beam
  poll_beam-Runs n ms m w o =
      if_both (Runs obeys n)
        (not (m.last_beam_poll_tick == 0) && ltb (sub32 i.now m.last_beam_poll_tick) (i.ticks ms)) m
        (on_session_beam i.poll_beam i (record m { last_beam_poll_tick = i.now }))
        (λ _. working w o)
        (λ _.
          on_beam-Runs n i.poll_beam (record m { last_beam_poll_tick = i.now }) w
            (same-Open m _ refl refl refl refl refl o))
