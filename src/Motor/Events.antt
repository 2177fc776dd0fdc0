-- ===== src/Motor/Events.antt =====
-- Each session of the motor ends in one event, with the motor stopped.
use xiaomi_feeder_iv.Common.{
  if_true, if_both, length, ℕ, suc, ◌≤◌, ◌≡◌, refl, ◌∙◌, Bool, true, false, not, arith, sym, ap,
  List,
}
use xiaomi_feeder_iv.Motor.{
  anti_jam_max_retries, idle, Event, motor_fault, Motor, Inputs, motor_coast_stop_retry,
  motor_driver_stop, motor_ctrl_force_stop, is_idle, motor_ctrl_post_app_event, Phase, is_burst,
  is_park,
}
use xiaomi_feeder_iv.Motor.Session.{
  motor_ctrl_session_teardown, motor_ctrl_finish_fault, finish_done,
}

-- A session is open, and will be the n-th to post its event. `obeys` says whether the enable pin
-- has the level that the driver believes.
pub record Open (obeys : Bool) (n : ℕ) (m : Motor) : Type 0 where
  pub holds : m.locked ≡ true
  pub count : suc (length m.posted) ≡ n
  pub retries : m.antijam_retries ≤ anti_jam_max_retries
  pub pin : obeys ≡ true → m.en ≡ m.running

-- Between sessions the mutex is free and the motor stopped; in one, the mutex is taken.
pub data Runs (obeys : Bool) (n : ℕ) (m : Motor) : Type 0 where
  resting :
      m.phase ≡ idle
      → m.locked ≡ false
      → m.running ≡ false
      → (obeys ≡ true → m.en ≡ false)
      → length m.posted ≡ n
      → Runs obeys n m
  working : is_idle m.phase ≡ false → Open obeys n m → Runs obeys n m

module _ (obeys : Bool) (i : Inputs)
    (works : obeys ≡ true → motor_coast_stop_retry i.coast ≡ true) where
  unfoldable pub Halted : ℕ → Motor → Type 0
  Halted n m = Open obeys n m × (m.running ≡ false)

  pub stop-Halted : (n : ℕ) (m : Motor) → Open obeys n m → Halted n (motor_driver_stop i m).1
  unfolding motor_driver_stop Halted
  stop-Halted n m o =
      if_both (λ (r : Bool × Motor). Halted n r.1) (not m.running) (true, m) _
        (λ t. (o, ground arith))
        (λ _. (
          record {
            holds = o.holds;
            count = o.count;
            retries = o.retries;
            pin = λ h. if_true false m.en (works h);
          },
          refl,
        ))

  pub force_stop-Halted :
      (n : ℕ) (m : Motor) → Open obeys n m → Halted n (motor_ctrl_force_stop i m).1
  unfolding motor_ctrl_force_stop Halted
  force_stop-Halted n m o =
      if_both (λ (r : Bool × Motor). Halted n r.1) (not m.running) (true, m) (motor_driver_stop i m)
        (λ t. (o, ground arith)) (λ _. stop-Halted n m o)

  ended :
      (n : ℕ) (e : Event) (m : Motor)
      → Halted n (motor_ctrl_force_stop i m).1
      → Runs obeys n (motor_ctrl_post_app_event e (motor_ctrl_session_teardown i m))
  unfolding motor_ctrl_post_app_event motor_ctrl_session_teardown Halted
  ended n e m (o, r) = resting refl refl r (λ h. o.pin h ∙ r) o.count

  pub finish_fault-Runs :
      (n : ℕ) (m : Motor) → Open obeys n m → Runs obeys n (motor_ctrl_finish_fault i m)
  unfolding motor_ctrl_finish_fault
  finish_fault-Runs n m o = ended n motor_fault m (force_stop-Halted n m o)

  pub finish_done-Runs :
      (n : ℕ) (e : Event) (m : Motor) → Open obeys n m → Runs obeys n (finish_done e i m)
  unfolding finish_done Halted
  finish_done-Runs n e m o =
      let (ok, stopped) = motor_ctrl_force_stop i m in
      let h = force_stop-Halted n m o in
      if_both (Runs obeys n) (not ok) (motor_ctrl_finish_fault i stopped) _
        (λ _. finish_fault-Runs n stopped h.0)
        (λ _. ended n e stopped (force_stop-Halted n stopped h.0))

-- A change of the other variables keeps a session open.
pub same-Open :
    {obeys : Bool} {n : ℕ} (m m' : Motor)
    → m'.locked ≡ m.locked
    → m'.posted ≡ m.posted
    → m'.antijam_retries ≡ m.antijam_retries
    → m'.en ≡ m.en
    → m'.running ≡ m.running
    → Open obeys n m
    → Open obeys n m'
same-Open m m' l p r e u o = record {
  holds = l ∙ o.holds;
  count = ap (λ (x : List Event). suc (length x)) p ∙ o.count;
  retries = omega (arith, o.retries, r);
  pin = λ h. e ∙ (o.pin h ∙ sym u);
}

pub same-Runs :
    {obeys : Bool} {n : ℕ} (m m' : Motor)
    → m'.phase ≡ m.phase
    → m'.locked ≡ m.locked
    → m'.posted ≡ m.posted
    → m'.antijam_retries ≡ m.antijam_retries
    → m'.en ≡ m.en
    → m'.running ≡ m.running
    → Runs obeys n m
    → Runs obeys n m'
same-Runs m m' f l p r e u (resting a b c d g) =
    resting (f ∙ a) (l ∙ b) (u ∙ c) (λ h. e ∙ d h) (ap (λ (x : List Event). length x) p ∙ g)
same-Runs m m' f l p r e u (working w o) =
    working (ap (λ (x : Phase). is_idle x) f ∙ w) (same-Open m m' l p r e u o)

pub Runs-Open :
    {obeys : Bool} {n : ℕ} (m : Motor) → Runs obeys n m → is_idle m.phase ≡ false → Open obeys n m
Runs-Open m (resting a b c d g) w = absurd (cc (rw a at w))
Runs-Open m (working w' o) w = o

pub burst_busy : (p : Phase) → is_burst p ≡ true → is_idle p ≡ false
burst_busy p h = ground arith

pub park_busy : (p : Phase) → is_park p ≡ true → is_idle p ≡ false
park_busy p h = ground arith
