-- ===== src/Dispense/Round.antt =====
-- The rounds of a job: a burst, its settle time and the weighing.
use xiaomi_feeder_iv.Common.{
  leb, if◌then◌else◌, if_both, sub32, ℕ, ◌+◌, ◌≤◌, ◌<◌, ◌≡◌, refl, ◌≢◌, Bool, Option, none, some,
  arith, suc, not, if_false, ap, ◌∙◌, true, false, ltb, ◌==◌, if_true, length, All, List, [], ◌∷◌,
}
use xiaomi_feeder_iv.Common.Int.{ℤ, pos, ◌-ℤ◌, leb_ℤ}
use xiaomi_feeder_iv.Hopper.Level.{success, underfill, Outcome, stuck}
use xiaomi_feeder_iv.Dispense.{
  settle_ms, comp_tolerance_dg, comp_max_batches, zero_delta_giveup, phase_none, phase_motor,
  Dispense, Feeder, Answers, dispense_update_zero_delta_streak, phase_settle, Completion,
  is_running, dispense_sync_runtime_active, dispense_publish_terminal,
}
use xiaomi_feeder_iv.Dispense.Settle.{
  Weighed, note_batch, estimated, is_measured, weigh_batch, Verdict, ends, again, extra_portions,
  verdict, dispense_on_burst_done, dispense_on_motor_fault, dispense_poll, next_batch, finish,
  conclude, anchored, dispense_after_settle, dispense_begin_settle, is_motor, is_settle,
}

-- The end of one burst, by the motor's event or its fault, and the two polls after it that act:
-- the one that starts the settle time and the first one that finds it over.
pub record Round : Type 0 where
  pub fault : Bool
  pub first : ℕ
  pub second : ℕ
  pub answers : Answers

-- The settle time starts at a tick other than 0, which the code reads as not started, and the
-- second poll comes `settle_ms` later or more.
unfoldable pub IsRound : Round → Type 0
IsRound r = (r.first ≢ 0) × (settle_ms ≤ sub32 r.second r.first)

unfoldable pub end_burst : Bool → Feeder → Feeder
end_burst fault f = if fault then (dispense_on_motor_fault f).1 else (dispense_on_burst_done f).1

unfoldable pub round : Round → Feeder → Feeder
round r f =
    let settling = (dispense_poll r.first r.answers (end_burst r.fault f)).1 in
    (dispense_poll r.second r.answers settling).1

-- At most `n` rounds remain: no job is under way, or the motor feeds one of three batches.
pub data Within (n : ℕ) (f : Feeder) : Type 0 where
  over : f.job.phase ≡ phase_none → Within n f
  feeding :
      f.job.phase ≡ phase_motor
      → 1 ≤ f.job.batch_count
      → f.job.batch_count ≤ comp_max_batches
      → comp_max_batches < n + f.job.batch_count
      → Within n f

Few : ℕ → Verdict → Type 0
Few bc (ends o) = bc ≡ bc
Few bc (again n) = bc < comp_max_batches

verdict-Few : (w : Weighed) → Few w.job.batch_count (verdict w)
unfolding verdict Few
verdict-Few w =
    let d = w.job in
    let P = Few d.batch_count in
    let v4 = again (extra_portions (d.target_dg -ℤ w.delivered)) in
    let v3 = if leb zero_delta_giveup d.zero_delta_streak then ends underfill else v4 in
    let v2 = if leb comp_max_batches d.batch_count then ends underfill else v3 in
    let v1 =
      if leb_ℤ (d.target_dg -ℤ pos comp_tolerance_dg) w.delivered then ends success else v2 in
    let v0 = if leb_ℤ d.target_dg w.delivered then ends success else v1 in
    if_both P _ (ends d.outcome) v0 (λ _. refl)
      (λ _.
        if_both P _ (ends success) v1 (λ _. refl)
          (λ _.
            if_both P _ (ends success) v2 (λ _. refl)
              (λ _.
                if_both P _ (ends underfill) v3 (λ _. refl)
                  (λ f. if_both P _ (ends underfill) v4 (λ _. refl) (λ _. ground arith)))))

streak-batches :
    (x : ℤ) (d : Dispense) → (dispense_update_zero_delta_streak x d).batch_count ≡ d.batch_count
unfolding dispense_update_zero_delta_streak
streak-batches x d =
    if_both (λ (e : Dispense). e.batch_count ≡ d.batch_count) _ _ _ (λ _. refl) (λ _. refl)

weigh-batches :
    (a : Answers) (r : Option ℤ) (d : Dispense)
    → (weigh_batch a r d).job.batch_count ≡ d.batch_count
unfolding weigh_batch note_batch estimated
weigh-batches a none d = refl
weigh-batches a (some g) d =
    let P = λ (w : Weighed). w.job.batch_count ≡ d.batch_count in
    if_both P (is_measured a g d) _ _ (λ _. streak-batches _ d)
      (λ _. if_both P d.baseline_valid _ _ (λ _. streak-batches _ d) (λ _. refl))

conclude-Within :
    (n now_ms : ℕ) (a : Answers) (w : Weighed) (v : Verdict) (f : Feeder)
    → Few f.job.batch_count v
    → 1 ≤ f.job.batch_count
    → comp_max_batches < suc n + f.job.batch_count
    → Within n (conclude now_ms a w v f).1
unfolding conclude finish next_batch dispense_publish_terminal dispense_sync_runtime_active Few
conclude-Within n now_ms a w (ends o) f c b l = over refl
conclude-Within n now_ms a w (again k) f c b l =
    if_both (λ (r : Option Completion × Feeder). Within n r.1) a.motor_takes _ _
      (λ _. feeding refl (omega arith) (omega arith) (omega arith)) (λ _. over refl)

anchored-batches : (r : Option ℤ) (f : Feeder) → (anchored r f).job ≡ f.job
unfolding anchored
anchored-batches none f = refl
anchored-batches (some g) f = refl

is_settling : (f : Feeder) → f.job.phase ≡ phase_settle → not (is_running f.job.phase) ≡ false
unfolding is_running
is_settling f s = rw s refl

after_settle-Within :
    (n now_ms : ℕ) (a : Answers) (f : Feeder)
    → f.job.phase ≡ phase_settle
    → 1 ≤ f.job.batch_count
    → f.job.batch_count ≤ comp_max_batches
    → comp_max_batches < suc n + f.job.batch_count
    → Within n (dispense_after_settle now_ms a f).1
unfolding dispense_after_settle is_running
after_settle-Within n now_ms a f s b c l =
    let w = weigh_batch a a.read_dg f.job in
    let same : w.job.batch_count ≡ f.job.batch_count = weigh-batches a a.read_dg f.job in
    if_both (λ (r : Option Completion × Feeder). Within n r.1) (not (is_running f.job.phase)) _ _
      (λ t. absurd (cc (t, is_settling f s)))
      (λ _. conclude-Within n now_ms a w (verdict w) _ (verdict-Few w) (rw same b) (rw same l))

burst_ends :
    (fault : Bool) (f : Feeder)
    → f.job.phase ≡ phase_motor
    → (o : Outcome) × (end_burst fault f ≡ dispense_begin_settle o f)
unfolding end_burst dispense_on_motor_fault dispense_on_burst_done is_motor
burst_ends true f m = (
  stuck,
  ap (λ (r : Bool × Feeder). r.1)
      (if_false (false, f) (true, dispense_begin_settle stuck f) (rw m refl)),
)
burst_ends false f m = (
  success,
  ap (λ (r : Bool × Feeder). r.1)
      (if_false (false, f) (true, dispense_begin_settle success f) (rw m refl)),
)

abbrev started : ℕ → Outcome → Feeder → Feeder
started now_ms o f = record (dispense_begin_settle o f) {
  job = record ((dispense_begin_settle o f).job) { settle_start_ms = now_ms };
}

poll-starts :
    (now_ms : ℕ) (a : Answers) (o : Outcome) (f : Feeder)
    → (dispense_poll now_ms a (dispense_begin_settle o f)).1 ≡ started now_ms o f
unfolding dispense_poll is_settle dispense_begin_settle dispense_sync_runtime_active
poll-starts now_ms a o f = refl

poll-settled :
    (now_ms start : ℕ) (a : Answers) (o : Outcome) (f : Feeder)
    → start ≢ 0
    → settle_ms ≤ sub32 now_ms start
    → dispense_poll now_ms a (started start o f)
      ≡ dispense_after_settle now_ms a (started start o f)
unfolding dispense_poll is_settle dispense_begin_settle dispense_sync_runtime_active
poll-settled now_ms start a o f n s =
    let e : (start == 0) ≡ false = ground arith in
    let l : ltb (sub32 now_ms start) settle_ms ≡ false = ground arith in
    if_false
      (
        none,
        record (started start o f) {
          job = record ((started start o f).job) { settle_start_ms = now_ms };
        },
      )
      _ e
    ∙ if_false (none, started start o f) (dispense_after_settle now_ms a (started start o f)) l

started-Within :
    (n now_ms start : ℕ) (a : Answers) (o : Outcome) (f : Feeder)
    → 1 ≤ f.job.batch_count
    → f.job.batch_count ≤ comp_max_batches
    → comp_max_batches < suc n + f.job.batch_count
    → Within n (dispense_after_settle now_ms a (started start o f)).1
unfolding dispense_begin_settle dispense_sync_runtime_active
started-Within n now_ms start a o f b c l =
    after_settle-Within n now_ms a (started start o f) refl b c l

poll-idle :
    (now_ms : ℕ) (a : Answers) (f : Feeder)
    → f.job.phase ≡ phase_none
    → (dispense_poll now_ms a f).1 ≡ f
unfolding dispense_poll is_settle
poll-idle now_ms a f e =
    ap (λ (r : Option Completion × Feeder). r.1)
      (if_true (none, f) _ {b = not (is_settle f.job.phase)} (rw e refl))

burst-idle : (fault : Bool) (f : Feeder) → f.job.phase ≡ phase_none → end_burst fault f ≡ f
unfolding end_burst dispense_on_motor_fault dispense_on_burst_done is_motor
burst-idle true f e =
    ap (λ (r : Bool × Feeder). r.1)
      (if_true (false, f) (true, dispense_begin_settle stuck f) (rw e refl))
burst-idle false f e =
    ap (λ (r : Bool × Feeder). r.1)
      (if_true (false, f) (true, dispense_begin_settle success f) (rw e refl))

round-idle : (r : Round) (f : Feeder) → f.job.phase ≡ phase_none → round r f ≡ f
unfolding round
round-idle r f e =
    let poll1 = λ (x : Feeder). (dispense_poll r.first r.answers x).1 in
    let poll2 = λ (x : Feeder). (dispense_poll r.second r.answers x).1 in
    ap (λ (x : Feeder). poll2 (poll1 x)) (burst-idle r.fault f e)
    ∙ (ap poll2 (poll-idle r.first r.answers f e) ∙ poll-idle r.second r.answers f e)

round-settled :
    (r : Round) (f : Feeder)
    → f.job.phase ≡ phase_motor
    → IsRound r
    → (o : Outcome) × (round r f
        ≡ (dispense_after_settle r.second r.answers (started r.first o f)).1)
unfolding round IsRound
round-settled r f m (n, s) =
    let poll1 = λ (x : Feeder). (dispense_poll r.first r.answers x).1 in
    let poll2 = λ (x : Feeder). (dispense_poll r.second r.answers x).1 in
    let (o, e) = burst_ends r.fault f m in
    (
      o,
      ap (λ (x : Feeder). poll2 (poll1 x)) e
          ∙ (ap poll2 (poll-starts r.first r.answers o f)
              ∙ ap (λ (p : Option Completion × Feeder). p.1)
                  (poll-settled r.second r.first r.answers o f n s)),
    )

round-Within :
    (n : ℕ) (r : Round) (f : Feeder) → IsRound r → Within (suc n) f → Within n (round r f)
round-Within n r f i (over e) = rw (round-idle r f e) (over e)
round-Within n r f i (feeding m b c l) =
    let (o, e) = round-settled r f m i in
    rw e (started-Within n r.second r.first r.answers o f b c l)

unfoldable pub rounds : List Round → Feeder → Feeder
unfolding round
rounds [] f = f
rounds (r ∷ rs) f = rounds rs (round r f)

pub rounds-Within :
    (rs : List Round) (f : Feeder) → All IsRound rs → Within (length rs) f → Within 0 (rounds rs f)
unfolding rounds
rounds-Within [] f a w = w
rounds-Within (r ∷ rs) f (i, is) w =
    rounds-Within rs (round r f) is (round-Within (length rs) r f i w)

pub Within-zero : (f : Feeder) → Within 0 f → f.job.phase ≡ phase_none
Within-zero f (over e) = e
Within-zero f (feeding m b c l) = absurd (omega (arith, c, l))
