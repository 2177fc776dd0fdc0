-- ===== src/Dispense/Start.antt =====
-- Requests and their start, firmware/src/dispense.c.
use xiaomi_feeder_iv.Common.{
  ltb, if◌then◌else◌, u8, ℕ, ◌+◌, ◌-◌, ◌*◌, ◌/◌, Bool, true, false, not, ◌||◌, Option, none, some,
}
use xiaomi_feeder_iv.Common.Int.{pos}
use xiaomi_feeder_iv.Schedule.{schedule_g_min, schedule_g_max}
use xiaomi_feeder_iv.Dispense.{
  portions_min, portions_max, grams_per_portion, phase_none, phase_motor, kind_portions, kind_grams,
  SubmitResult, submit_ok, submit_busy, submit_invalid, DispenseSource, Request, Feeder, Answers,
  is_running, dispense_is_active, dispense_sync_runtime_active, dispense_capture_baseline,
  dispense_resolve_mode,
}

-- The end of a submission: `motor_active` is the motor's answer, false with no port, and `posts`
-- whether the event queue takes the request.
unfoldable pub submit : Request → Bool → Bool → Feeder → SubmitResult × Option Request × Feeder
submit req motor_active posts f =
    if dispense_is_active f.job || motor_active || not posts then (submit_busy, none, f) else (
      submit_ok,
      some req,
      dispense_sync_runtime_active (record f { job = record (f.job) { job_pending = true } }),
    )

unfoldable pub dispense_submit_portions :
    ℕ → DispenseSource → Bool → Bool → Feeder → SubmitResult × Option Request × Feeder
dispense_submit_portions portions source motor_active posts f =
    if ltb portions portions_min || ltb portions_max portions
    then (submit_invalid, none, f)
    else submit (record { kind = kind_portions; target = portions; source = source }) motor_active
        posts f

unfoldable pub dispense_submit_grams :
    ℕ → DispenseSource → Bool → Bool → Feeder → SubmitResult × Option Request × Feeder
dispense_submit_grams grams source motor_active posts f =
    if ltb grams schedule_g_min || ltb schedule_g_max grams
    then (submit_invalid, none, f)
    else submit (record { kind = kind_grams; target = grams; source = source }) motor_active posts f

-- Every early return of the start.
unfoldable pub drop_request : Feeder → Feeder
drop_request f =
    dispense_sync_runtime_active (record f { job = record (f.job) { job_pending = false } })

-- The part that both kinds share: the job is set up, weighed and the motor started.
unfoldable pub begin_job : Answers → Request → ℕ → ℕ → Bool → Feeder → Feeder
begin_job a req portions grams gram_job f = dispense_sync_runtime_active (record f {
  job = record (f.job) {
    job_pending = false;
    gram_job = gram_job;
    portions = portions;
    total_portions = portions;
    target_grams = grams;
    target_dg = pos (grams * 10);
    source = req.source;
    mode = dispense_resolve_mode a req;
    batch_count = 1;
    zero_delta_streak = 0;
    phase = phase_motor;
  };
})

unfoldable pub settled_from_baseline : Feeder → Feeder
settled_from_baseline f = record f {
  job = record (f.job) {
    last_settle_dg = if f.job.baseline_valid then f.job.baseline_dg else pos 0;
  };
}

-- `gram_job` is reset by the gram branch alone, where it was set; the other branch has it false.
unfoldable pub kick_first : Answers → Feeder → Feeder
kick_first a f =
    if a.motor_takes
    then f
    else dispense_sync_runtime_active
        (record f { job = record (f.job) { phase = phase_none; gram_job = false } })

unfoldable pub start_job : Answers → Request → ℕ → ℕ → Bool → Feeder → Feeder
start_job a req portions grams gram_job f = kick_first a (
    settled_from_baseline (dispense_capture_baseline a (begin_job a req portions grams gram_job f)))

unfoldable pub grams_to_portions : ℕ → ℕ
grams_to_portions grams =
    let portions = u8 ((grams + grams_per_portion - 1) / grams_per_portion) in
    if ltb portions portions_min
    then portions_min
    else (if ltb portions_max portions then portions_max else portions)

unfoldable pub start_grams : Answers → Request → Feeder → Feeder
start_grams a req f =
    let grams = u8 req.target in
    if ltb grams schedule_g_min || ltb schedule_g_max grams
    then drop_request f
    else start_job a req (grams_to_portions grams) grams true f

unfoldable pub start_portions : Answers → Request → Feeder → Feeder
start_portions a req f =
    let portions = u8 req.target in
    if ltb portions portions_min || ltb portions_max portions
    then drop_request f
    else start_job a req portions (portions * grams_per_portion) false f

unfoldable pub dispense_start_from_request : Answers → Option Request → Feeder → Feeder
dispense_start_from_request a none f = drop_request f
dispense_start_from_request a (some req) f =
    if not f.job.job_pending || is_running f.job.phase
    then drop_request f
    else elim req.kind [ kind_grams ↦ start_grams a req f | kind_portions ↦ start_portions a req f ]
