-- ===== src/Motor/Account.antt =====
-- The handling of a command keeps the account of sessions and events.
use xiaomi_feeder_iv.Common.{
  ltb, if◌then◌else◌, if_both, length, ℕ, ◌+◌, ◌-◌, ◌≡◌, refl, sym, ◌∙◌, Bool, true, false, not,
  ◌||◌, List, [], ◌∷◌, arith, if_both2,
}
use xiaomi_feeder_iv.Motor.{
  cmd_queue_depth, CmdKind, cmd_burst, cmd_park, cmd_timed_fwd, cmd_timed_rev, cmd_stop, Cmd, idle,
  Motor, Inputs, motor_coast_stop_retry, is_idle, motor_ctrl_post_app_event,
}
use xiaomi_feeder_iv.Motor.Session.{
  motor_ctrl_session_teardown, motor_ctrl_finish_park_already_aligned,
}
use xiaomi_feeder_iv.Motor.Antijam.{motor_ctrl_begin_run}
use xiaomi_feeder_iv.Motor.Task.{
  beam_is_open, begin_cmd, is_stop, put_back, motor_ctrl_handle_cmd, receive,
}
use xiaomi_feeder_iv.Motor.Events.{
  force_stop-Halted, Open, Runs, resting, working, Halted, same-Open, same-Runs, Runs-Open,
}
use xiaomi_feeder_iv.Motor.Recovery.{begin_run-Runs, bench-Runs}

-- The sessions that are to post an event, after a turn that finds `queue`: one more for a command
-- that takes the mutex, one less for a stop in a session.
unfoldable pub sessions : List Cmd → Inputs → Motor → ℕ → ℕ
sessions [] i m n = n
sessions (cmd ∷ cmds) i m n =
    if is_stop cmd.kind
    then (if is_idle m.phase then n else n - 1)
    else if not i.mutex_ready || m.locked
    then n
    else n + 1

module _ (obeys : Bool) (i : Inputs)
    (works : obeys ≡ true → motor_coast_stop_retry i.coast ≡ true) where
  begin-Runs :
      (n : ℕ) (k : CmdKind) (m : Motor)
      → m.phase ≡ idle
      → m.running ≡ false
      → Open obeys n m
      → Runs obeys n (begin_cmd k i m)
  unfolding begin_cmd motor_ctrl_finish_park_already_aligned motor_ctrl_post_app_event
  begin-Runs n cmd_park m p r o =
      if_both (Runs obeys n) (beam_is_open i.sense) (motor_ctrl_finish_park_already_aligned m)
        (motor_ctrl_begin_run true i m) (λ _. resting p refl r (λ h. o.pin h ∙ r) o.count)
        (λ _. begin_run-Runs obeys i works n true m o)
  begin-Runs n cmd_timed_fwd m p r o = bench-Runs obeys i works n m o
  begin-Runs n cmd_timed_rev m p r o = bench-Runs obeys i works n m o
  begin-Runs n cmd_burst m p r o = begin_run-Runs obeys i works n false m o
  begin-Runs n cmd_stop m p r o = begin_run-Runs obeys i works n false m o

  stop-Runs :
      (n : ℕ) (m : Motor)
      → Open obeys n m
      → Runs obeys (n - 1) (motor_ctrl_session_teardown i (record m { instant_jam = false }))
  unfolding motor_ctrl_session_teardown Halted
  stop-Runs n m o =
      let (h, r) =
        force_stop-Halted obeys i works n (record m { instant_jam = false })
          (same-Open m _ refl refl refl refl refl o) in
      resting refl refl r (λ e. h.pin e ∙ r) (omega (arith, h.count))

  put_back-Runs : (n : ℕ) (cmd : Cmd) (m : Motor) → Runs obeys n m → Runs obeys n (put_back cmd m)
  unfolding put_back
  put_back-Runs n cmd m v =
      if_both (Runs obeys n) (ltb (length m.queue) cmd_queue_depth)
        (record m { queue = cmd ∷ m.queue }) m (λ _. same-Runs m _ refl refl refl refl refl refl v)
        (λ _. v)

  taken-Runs :
      (n : ℕ) (cmd : Cmd) (m : Motor)
      → Runs obeys n m
      → m.locked ≡ false
      → Runs obeys
          (n + 1)
          (begin_cmd cmd.kind i (record m { locked = true; active_cmd = cmd; antijam_retries = 0 }))
  taken-Runs n cmd m (resting p l r e c) f = begin-Runs (n + 1) cmd.kind _ p r (record {
    holds = refl;
    count = omega (arith, c);
    retries = omega arith;
    pin = λ h. e h ∙ sym r;
  })
  taken-Runs n cmd m (working w o) f = absurd (cc (o.holds, f))

  handle-Runs :
      (n : ℕ) (cmd : Cmd) (cmds : List Cmd) (m : Motor)
      → Runs obeys n m
      → Runs obeys (sessions (cmd ∷ cmds) i m n) (motor_ctrl_handle_cmd cmd i m)
  unfolding motor_ctrl_handle_cmd sessions
  handle-Runs n cmd cmds m v =
      let stopped = motor_ctrl_session_teardown i (record m { instant_jam = false }) in
      let taken =
        begin_cmd cmd.kind i (record m { locked = true; active_cmd = cmd; antijam_retries = 0 }) in
      let refuses = not i.mutex_ready || m.locked in
      if_both2 (Runs obeys) (is_stop cmd.kind) (if is_idle m.phase then n else n - 1)
        (if refuses then n else n + 1) (if is_idle m.phase then m else stopped)
        (if refuses then put_back cmd m else taken)
        (λ _.
          if_both2 (Runs obeys) (is_idle m.phase) n (n - 1) m stopped (λ _. v)
            (λ f. stop-Runs n m (Runs-Open m v f)))
        (λ _.
          if_both2 (Runs obeys) refuses n (n + 1) (put_back cmd m) taken
            (λ _. put_back-Runs n cmd m v) (λ f. taken-Runs n cmd m v (ground arith)))

  pub receive-Runs :
      (n : ℕ) (q : List Cmd) (m : Motor)
      → Runs obeys n m
      → Runs obeys (sessions q i m n) (receive q i m)
  unfolding receive sessions
  receive-Runs n [] m v = v
  receive-Runs n (cmd ∷ cmds) m v =
      unfold sessions in
      handle-Runs n cmd cmds (record m { queue = cmds })
        (same-Runs m _ refl refl refl refl refl refl v)
