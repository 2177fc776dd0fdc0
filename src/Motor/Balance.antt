-- ===== src/Motor/Balance.antt =====
-- Sessions and events over any sequence of turns and requests.
use xiaomi_feeder_iv.Common.{
  ltb, if◌then◌else◌, if_both, length, All, ℕ, ◌≡◌, refl, Bool, true, not, List, [], ◌∷◌,
}
use xiaomi_feeder_iv.Common.Port.{PortErr, invalid_arg, port_busy}
use xiaomi_feeder_iv.Motor.{cmd_queue_depth, Cmd, Motor, Inputs, motor_coast_stop_retry, is_idle}
use xiaomi_feeder_iv.Motor.Task.{
  motor_ctrl_task, motor_ctrl_enqueue, request, motor_ctrl_request_burst, motor_ctrl_request_park,
  motor_ctrl_request_timed_run, motor_ctrl_request_stop,
}
use xiaomi_feeder_iv.Motor.Events.{Runs, same-Runs}
use xiaomi_feeder_iv.Motor.Turns.{poll-Runs}
use xiaomi_feeder_iv.Motor.Account.{sessions, receive-Runs}

-- What happens to the motor: a turn of its loop, with the answers that the handling of a command
-- and the poll get, or a request of another task.
pub data Action : Type 0 where
  turn : Inputs → Inputs → Action
  ask_burst : ℕ → ℕ → Action
  ask_park : ℕ → Action
  ask_timed : Bool → ℕ → Action
  ask_stop : Action

unfoldable pub act : Action → Motor → Motor
act (turn begin i) m = motor_ctrl_task begin i m
act (ask_burst pulse_target timeout_ms) m = (motor_ctrl_request_burst pulse_target timeout_ms m).1
act (ask_park max_pulses) m = (motor_ctrl_request_park max_pulses m).1
act (ask_timed reverse duration_ms) m = (motor_ctrl_request_timed_run reverse duration_ms m).1
act ask_stop m = (motor_ctrl_request_stop m).1

-- The sessions that are to post an event, after an action.
unfoldable pub after : Action → Motor → ℕ → ℕ
after (turn begin i) m n = sessions m.queue begin m n
after (ask_burst p t) m n = n
after (ask_park p) m n = n
after (ask_timed r d) m n = n
after ask_stop m n = n

unfoldable pub count_sessions : List Action → Motor → ℕ → ℕ
count_sessions [] m n = n
count_sessions (a ∷ acts) m n = count_sessions acts (act a m) (after a m n)

unfoldable pub run : List Action → Motor → Motor
run [] m = m
run (a ∷ acts) m = run acts (act a m)

-- In a turn, one of the three tries to clear the enable pin works.
unfoldable pub Coasts : Action → Type 0
Coasts (turn begin i) =
    (motor_coast_stop_retry begin.coast ≡ true) × (motor_coast_stop_retry i.coast ≡ true)
Coasts (ask_burst p t) = Unit
Coasts (ask_park p) = Unit
Coasts (ask_timed r d) = Unit
Coasts ask_stop = Unit

module _ (obeys : Bool) where
  enqueue-Runs :
      (n : ℕ) (cmd : Cmd) (m : Motor) → Runs obeys n m → Runs obeys n (motor_ctrl_enqueue cmd m).1
  unfolding motor_ctrl_enqueue
  enqueue-Runs n cmd m v =
      if_both (λ (r : PortErr × Motor). Runs obeys n r.1) (ltb (length m.queue) cmd_queue_depth) _
        (port_busy, m) (λ _. same-Runs m _ refl refl refl refl refl refl v) (λ _. v)

  request-Runs : (n : ℕ) (cmd : Cmd) (m : Motor) → Runs obeys n m → Runs obeys n (request cmd m).1
  unfolding request
  request-Runs n cmd m v =
      if_both (λ (r : PortErr × Motor). Runs obeys n r.1) (not (is_idle m.phase)) (port_busy, m) _
        (λ _. v) (λ _. enqueue-Runs n cmd m v)

  guarded-Runs :
      (n : ℕ) (b : Bool) (cmd : Cmd) (m : Motor)
      → Runs obeys n m
      → Runs obeys n (if b then (invalid_arg, m) else request cmd m).1
  guarded-Runs n b cmd m v =
      if_both (λ (r : PortErr × Motor). Runs obeys n r.1) b (invalid_arg, m) (request cmd m)
        (λ _. v) (λ _. request-Runs n cmd m v)

  turn-Runs :
      (n : ℕ) (begin i : Inputs) (m : Motor)
      → (obeys ≡ true → Coasts (turn begin i))
      → Runs obeys n m
      → Runs obeys (sessions m.queue begin m n) (motor_ctrl_task begin i m)
  unfolding motor_ctrl_task Coasts
  turn-Runs n begin i m c v =
      poll-Runs obeys i (λ h. (c h).1) _ _ (receive-Runs obeys begin (λ h. (c h).0) n m.queue m v)

  act-Runs :
      (n : ℕ) (a : Action) (m : Motor)
      → (obeys ≡ true → Coasts a)
      → Runs obeys n m
      → Runs obeys (after a m n) (act a m)
  unfolding act after motor_ctrl_request_burst motor_ctrl_request_park motor_ctrl_request_timed_run
      motor_ctrl_request_stop
  act-Runs n (turn begin i) m c v = turn-Runs n begin i m c v
  act-Runs n (ask_burst p t) m c v = guarded-Runs n _ _ m v
  act-Runs n (ask_park p) m c v = guarded-Runs n _ _ m v
  act-Runs n (ask_timed r d) m c v = guarded-Runs n _ _ m v
  act-Runs n ask_stop m c v = enqueue-Runs n _ m v

-- From rest, or in a session, with `n` sessions posted or under way: after any turns and requests,
-- the mutex is taken exactly in a session, the running flag of the driver is clear when there is none,
-- and the events posted are as many as the sessions that a command began and no stop ended, less the
-- one under way. Where `obeys` is true and in each turn one of the three tries to clear the enable pin works,
-- the pin is clear whenever no session runs.
pub run-Runs :
    (obeys : Bool) (n : ℕ) (acts : List Action) (m : Motor)
    → (obeys ≡ true → All Coasts acts)
    → Runs obeys n m
    → Runs obeys (count_sessions acts m n) (run acts m)
unfolding run count_sessions
run-Runs obeys n [] m c v = v
run-Runs obeys n (a ∷ acts) m c v =
    run-Runs obeys (after a m n) acts (act a m) (λ h. (c h).1)
      (act-Runs obeys n a m (λ h. (c h).0) v)
