-- ===== src/Dispense/Flag.antt =====
-- The run-time flag that the other modules read says whether a feed is under way.
use xiaomi_feeder_iv.Common.{
  ltb, ◌==◌, if_both, sub32, ℕ, ◌≡◌, refl, sym, ap, ◌∙◌, Bool, false, not, ◌||◌, Option, none, u8,
  ◌*◌, true, some,
}
use xiaomi_feeder_iv.Common.Int.{ℤ}
use xiaomi_feeder_iv.Schedule.{schedule_g_min, schedule_g_max}
use xiaomi_feeder_iv.Dispense.{
  settle_ms, Completion, Feeder, Answers, is_running, dispense_is_active,
  dispense_sync_runtime_active, dispense_capture_baseline, dispense_publish_terminal, portions_min,
  portions_max, grams_per_portion, DispenseKind, kind_portions, kind_grams, SubmitResult,
  submit_busy, submit_invalid, DispenseSource, Request, baseline_from_read, fresh_snapshot,
  baseline_from,
}
use xiaomi_feeder_iv.Dispense.Start.{
  submit, dispense_submit_portions, dispense_submit_grams, drop_request, begin_job,
  settled_from_baseline, kick_first, start_job, grams_to_portions, start_grams, start_portions,
  dispense_start_from_request,
}
use xiaomi_feeder_iv.Dispense.Settle.{
  Weighed, weigh_batch, Verdict, ends, again, verdict, next_batch, finish, conclude,
  dispense_after_settle, dispense_begin_settle, is_motor, is_settle, dispense_on_burst_done,
  dispense_on_motor_fault, dispense_poll,
}

-- `feeder_runtime_dispense_active()` equals `dispense_is_active()`.
unfoldable pub IsFlagged : Feeder → Type 0
IsFlagged f = f.dispense_active ≡ dispense_is_active f.job

synced : (f : Feeder) → IsFlagged (dispense_sync_runtime_active f)
unfolding IsFlagged dispense_sync_runtime_active
synced f = refl

-- Any change of the job that keeps `job_pending` and the phase.
same_job :
    (f g : Feeder)
    → g.dispense_active ≡ f.dispense_active
    → g.job.job_pending ≡ f.job.job_pending
    → g.job.phase ≡ f.job.phase
    → IsFlagged f
    → IsFlagged g
unfolding IsFlagged dispense_is_active
same_job f g a p q v =
    a
    ∙ (v
        ∙ sym (
            ap (λ b. b || is_running g.job.phase) p
            ∙ ap (λ x. f.job.job_pending || is_running x) q))

published :
    (now_ms : ℕ) (g : ℤ) (m : Bool) (r : ℤ) (f : Feeder)
    → IsFlagged (dispense_publish_terminal now_ms g m r f).1
unfolding dispense_publish_terminal IsFlagged dispense_sync_runtime_active
published now_ms g m r f = refl

concluded :
    (now_ms : ℕ) (a : Answers) (w : Weighed) (v : Verdict) (f : Feeder)
    → IsFlagged (conclude now_ms a w v f).1
unfolding conclude finish next_batch
concluded now_ms a w (ends o) f = published now_ms w.event_grams w.measured w.raw_delta _
concluded now_ms a w (again n) f =
    if_both (λ (r : Option Completion × Feeder). IsFlagged r.1) a.motor_takes _ _ (λ t. synced _)
      (λ t. published now_ms w.event_grams w.measured w.raw_delta _)

module _ (f : Feeder) (v : IsFlagged f) where
  after_settle-IsFlagged :
      (now_ms : ℕ) (a : Answers) → IsFlagged (dispense_after_settle now_ms a f).1
  unfolding dispense_after_settle
  after_settle-IsFlagged now_ms a =
      if_both (λ (r : Option Completion × Feeder). IsFlagged r.1) (not (is_running f.job.phase))
        (none, f) _ (λ t. v)
        (λ t.
          concluded now_ms a (weigh_batch a a.read_dg f.job)
            (verdict (weigh_batch a a.read_dg f.job)) _)

  poll-IsFlagged : (now_ms : ℕ) (a : Answers) → IsFlagged (dispense_poll now_ms a f).1
  unfolding dispense_poll
  poll-IsFlagged now_ms a =
      let P : Option Completion × Feeder → Type 0 =
        λ (r : Option Completion × Feeder). IsFlagged r.1 in
      if_both P (not (is_settle f.job.phase)) (none, f) _ (λ t. v)
        (λ t.
          if_both P (f.job.settle_start_ms == 0)
            (none, record f { job = record (f.job) { settle_start_ms = now_ms } }) _
            (λ u. same_job f _ refl refl refl v)
            (λ u.
              if_both P (ltb (sub32 now_ms f.job.settle_start_ms) settle_ms) (none, f)
                (dispense_after_settle now_ms a f) (λ _. v) (λ _. after_settle-IsFlagged now_ms a)))

  motor-IsFlagged : IsFlagged (dispense_on_burst_done f).1 × IsFlagged (dispense_on_motor_fault f).1
  unfolding dispense_on_burst_done dispense_on_motor_fault dispense_begin_settle
  motor-IsFlagged = (
    if_both (λ (r : Bool × Feeder). IsFlagged r.1) (not (is_motor f.job.phase)) (false, f) _
        (λ t. v) (λ t. synced _),
    if_both (λ (r : Bool × Feeder). IsFlagged r.1) (not (is_motor f.job.phase)) (false, f) _
        (λ t. v) (λ t. synced _),
  )

read-IsFlagged :
    (anchor : Bool) (r : Option ℤ) (f : Feeder)
    → IsFlagged f
    → IsFlagged (baseline_from_read anchor r f)
unfolding baseline_from_read
read-IsFlagged anchor none f v = same_job f _ refl refl refl v
read-IsFlagged anchor (some dg) f v = same_job f _ refl refl refl v

from-IsFlagged :
    (r : Option ℤ) (a : Answers) (f : Feeder) → IsFlagged f → IsFlagged (baseline_from r a f)
unfolding baseline_from
from-IsFlagged none a f v = read-IsFlagged false a.read_dg f v
from-IsFlagged (some dg) a f v = same_job f _ refl refl refl v

baseline-IsFlagged :
    (a : Answers) (f : Feeder) → IsFlagged f → IsFlagged (dispense_capture_baseline a f)
unfolding dispense_capture_baseline
baseline-IsFlagged a f v =
    if_both IsFlagged f.tare.pending_calibration (baseline_from_read true a.read_dg f)
      (baseline_from (fresh_snapshot a.snapshot) a f) (λ _. read-IsFlagged true a.read_dg f v)
      (λ _. from-IsFlagged (fresh_snapshot a.snapshot) a f v)

drop-IsFlagged : (f : Feeder) → IsFlagged (drop_request f)
unfolding drop_request IsFlagged dispense_sync_runtime_active
drop-IsFlagged f = refl

begin-IsFlagged :
    (a : Answers) (req : Request) (p g : ℕ) (b : Bool) (f : Feeder)
    → IsFlagged (begin_job a req p g b f)
unfolding begin_job IsFlagged dispense_sync_runtime_active
begin-IsFlagged a req p g b f = refl

settled-IsFlagged : (f : Feeder) → IsFlagged f → IsFlagged (settled_from_baseline f)
unfolding settled_from_baseline
settled-IsFlagged f v = same_job f _ refl refl refl v

kick-IsFlagged : (a : Answers) (f : Feeder) → IsFlagged f → IsFlagged (kick_first a f)
unfolding kick_first IsFlagged dispense_sync_runtime_active
kick-IsFlagged a f v = if_both IsFlagged a.motor_takes f _ (λ _. v) (λ _. refl)

start_job-IsFlagged :
    (a : Answers) (req : Request) (p g : ℕ) (b : Bool) (f : Feeder)
    → IsFlagged (start_job a req p g b f)
unfolding start_job
start_job-IsFlagged a req p g b f =
    kick-IsFlagged a _
      (settled-IsFlagged _ (baseline-IsFlagged a _ (begin-IsFlagged a req p g b f)))

start_grams-IsFlagged : (a : Answers) (req : Request) (f : Feeder) → IsFlagged (start_grams a req f)
unfolding start_grams
start_grams-IsFlagged a req f =
    if_both IsFlagged _ (drop_request f)
      (start_job a req (grams_to_portions (u8 req.target)) (u8 req.target) true f)
      (λ _. drop-IsFlagged f) (λ _. start_job-IsFlagged a req _ _ true f)

start_portions-IsFlagged :
    (a : Answers) (req : Request) (f : Feeder) → IsFlagged (start_portions a req f)
unfolding start_portions
start_portions-IsFlagged a req f =
    if_both IsFlagged _ (drop_request f)
      (start_job a req (u8 req.target) (u8 req.target * grams_per_portion) false f)
      (λ _. drop-IsFlagged f) (λ _. start_job-IsFlagged a req _ _ false f)

kind-IsFlagged :
    (k : DispenseKind) (a : Answers) (req : Request) (f : Feeder)
    → IsFlagged (elim k as (λ _. Feeder) [
      | kind_grams ↦ start_grams a req f
      | kind_portions ↦ start_portions a req f
    ])
kind-IsFlagged kind_grams a req f = start_grams-IsFlagged a req f
kind-IsFlagged kind_portions a req f = start_portions-IsFlagged a req f

start-IsFlagged :
    (a : Answers) (req : Option Request) (f : Feeder)
    → IsFlagged (dispense_start_from_request a req f)
unfolding dispense_start_from_request
start-IsFlagged a none f = drop-IsFlagged f
start-IsFlagged a (some req) f =
    if_both IsFlagged (not f.job.job_pending || is_running f.job.phase) (drop_request f) _
      (λ _. drop-IsFlagged f) (λ _. kind-IsFlagged req.kind a req f)

submit-IsFlagged :
    (req : Request) (m p : Bool) (f : Feeder) → IsFlagged f → IsFlagged (submit req m p f).2
unfolding submit
submit-IsFlagged req m p f v =
    if_both (λ (r : SubmitResult × Option Request × Feeder). IsFlagged r.2)
      (dispense_is_active f.job || m || not p) (submit_busy, none, f) _ (λ _. v)
      (λ _. unfold IsFlagged dispense_sync_runtime_active in refl)

-- Every operation of the supervisor leaves `feeder_runtime_dispense_active()` equal to
-- `dispense_is_active()`, whatever the ports answer.
pub operations-IsFlagged :
    (f : Feeder) (now_ms : ℕ) (a : Answers) (req : Option Request) (n : ℕ) (source : DispenseSource)
    (motor_active posts : Bool)
    → IsFlagged f
    → IsFlagged (dispense_submit_portions n source motor_active posts f).2
      × IsFlagged (dispense_submit_grams n source motor_active posts f).2
      × IsFlagged (dispense_start_from_request a req f)
      × IsFlagged (dispense_on_burst_done f).1
      × IsFlagged (dispense_on_motor_fault f).1
      × IsFlagged (dispense_poll now_ms a f).1
unfolding dispense_submit_portions dispense_submit_grams
operations-IsFlagged f now_ms a req n source motor_active posts v =
    let P : SubmitResult × Option Request × Feeder → Type 0 =
      λ (r : SubmitResult × Option Request × Feeder). IsFlagged r.2 in
    (
      if_both P (ltb n portions_min || ltb portions_max n) (submit_invalid, none, f) _ (λ _. v)
          (λ _. submit-IsFlagged _ motor_active posts f v),
      if_both P (ltb n schedule_g_min || ltb schedule_g_max n) (submit_invalid, none, f) _ (λ _. v)
          (λ _. submit-IsFlagged _ motor_active posts f v),
      start-IsFlagged a req f,
      (motor-IsFlagged f v).0,
      (motor-IsFlagged f v).1,
      poll-IsFlagged f v now_ms a,
    )
