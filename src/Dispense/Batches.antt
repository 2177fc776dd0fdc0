-- ===== src/Dispense/Batches.antt =====
-- How long a job runs, from its start.
use xiaomi_feeder_iv.Common.{
  if_both, length, All, u8, ℕ, ◌*◌, ◌≡◌, refl, Bool, true, false, not, ◌||◌, Option, none, some,
  List, arith,
}
use xiaomi_feeder_iv.Common.Int.{ℤ}
use xiaomi_feeder_iv.Dispense.{
  grams_per_portion, phase_none, phase_motor, DispenseKind, kind_portions, kind_grams, Request,
  Feeder, Answers, is_running, dispense_sync_runtime_active, baseline_from_read, fresh_snapshot,
  baseline_from, dispense_capture_baseline,
}
use xiaomi_feeder_iv.Dispense.Start.{
  drop_request, begin_job, settled_from_baseline, kick_first, start_job, grams_to_portions,
  start_grams, start_portions, dispense_start_from_request,
}
use xiaomi_feeder_iv.Dispense.Round.{
  Round, IsRound, Within, over, feeding, rounds, rounds-Within, Within-zero,
}

-- A job in its first batch.
First : Feeder → Type 0
First f = (f.job.phase ≡ phase_motor) × (f.job.batch_count ≡ 1)

read-First :
    (anchor : Bool) (r : Option ℤ) (f : Feeder) → First f → First (baseline_from_read anchor r f)
unfolding baseline_from_read First
read-First anchor none f p = p
read-First anchor (some dg) f p = p

from-First : (r : Option ℤ) (a : Answers) (f : Feeder) → First f → First (baseline_from r a f)
unfolding baseline_from First
from-First none a f p = read-First false a.read_dg f p
from-First (some dg) a f p = p

baseline-First : (a : Answers) (f : Feeder) → First f → First (dispense_capture_baseline a f)
unfolding dispense_capture_baseline
baseline-First a f p =
    if_both First f.tare.pending_calibration (baseline_from_read true a.read_dg f)
      (baseline_from (fresh_snapshot a.snapshot) a f) (λ _. read-First true a.read_dg f p)
      (λ _. from-First (fresh_snapshot a.snapshot) a f p)

First-Within : (f : Feeder) → First f → Within 3 f
unfolding First
First-Within f (m, b) = feeding m (omega (arith, b)) (omega (arith, b)) (omega (arith, b))

kick-Within : (a : Answers) (f : Feeder) → First f → Within 3 (kick_first a f)
unfolding kick_first dispense_sync_runtime_active
kick-Within a f p = if_both (Within 3) a.motor_takes f _ (λ _. First-Within f p) (λ _. over refl)

start_job-Within :
    (a : Answers) (req : Request) (p g : ℕ) (b : Bool) (f : Feeder)
    → Within 3 (start_job a req p g b f)
unfolding start_job settled_from_baseline First
start_job-Within a req p g b f = kick-Within a _ (
    baseline-First a (begin_job a req p g b f)
      (unfold First begin_job dispense_sync_runtime_active in (refl, refl)))

module _ (a : Answers) (req : Request) (f : Feeder) (idle : f.job.phase ≡ phase_none) where
  drop-Within : Within 3 (drop_request f)
  unfolding drop_request dispense_sync_runtime_active
  drop-Within = over idle

  start_grams-Within : Within 3 (start_grams a req f)
  unfolding start_grams
  start_grams-Within =
      if_both (Within 3) _ (drop_request f)
        (start_job a req (grams_to_portions (u8 req.target)) (u8 req.target) true f)
        (λ _. drop-Within) (λ _. start_job-Within a req _ _ true f)

  start_portions-Within : Within 3 (start_portions a req f)
  unfolding start_portions
  start_portions-Within =
      if_both (Within 3) _ (drop_request f)
        (start_job a req (u8 req.target) (u8 req.target * grams_per_portion) false f)
        (λ _. drop-Within) (λ _. start_job-Within a req _ _ false f)

  kind-Within :
      (k : DispenseKind)
      → Within 3 (elim k as (λ _. Feeder) [
        | kind_grams ↦ start_grams a req f
        | kind_portions ↦ start_portions a req f
      ])
  kind-Within kind_grams = start_grams-Within
  kind-Within kind_portions = start_portions-Within

start-Within :
    (a : Answers) (req : Option Request) (f : Feeder)
    → f.job.phase ≡ phase_none
    → Within 3 (dispense_start_from_request a req f)
unfolding dispense_start_from_request
start-Within a none f e = unfold drop_request dispense_sync_runtime_active in over e
start-Within a (some req) f e =
    if_both (Within 3) (not f.job.job_pending || is_running f.job.phase) (drop_request f) _
      (λ _. drop-Within a req f e) (λ _. kind-Within a req f e req.kind)

-- A request that is started when no job runs, whatever it asks for and the ports answer, is over
-- after three rounds, each one a burst that ends, by its event or its fault, and two polls: one
-- at a tick other than 0, and one at least the settle time later.
pub start_from_request-rounds :
    (a : Answers) (req : Option Request) (f : Feeder) (rs : List Round)
    → f.job.phase ≡ phase_none
    → All IsRound rs
    → length rs ≡ 3
    → (rounds rs (dispense_start_from_request a req f)).job.phase ≡ phase_none
start_from_request-rounds a req f rs e is l =
    Within-zero _ (rounds-Within rs _ is (rw l (start-Within a req f e)))
