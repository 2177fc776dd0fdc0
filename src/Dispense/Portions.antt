-- ===== src/Dispense/Portions.antt =====
-- When a compensated job ends, and how much it feeds again.
use xiaomi_feeder_iv.Common.{
  ℕ, ◌*◌, ◌≤◌, ◌<◌, ◌≡◌, ◌⊎◌, true, false, not, arith, leb, if◌then◌else◌, leb→le, if_both, refl,
  inl, inr, ◌||◌,
}
use xiaomi_feeder_iv.Common.Int.{
  ℤ, pos, ◌+ℤ◌, ◌-ℤ◌, ◌≤ℤ◌, ◌<ℤ◌, leb_ℤ, int_laws, negsuc, pos_part, neg_part, +ℤ_parts, -ℤ_parts,
}
use xiaomi_feeder_iv.Hopper.Level.{success, underfill}
use xiaomi_feeder_iv.Dispense.{
  portions_min, portions_max, comp_tolerance_dg, comp_max_batches, zero_delta_giveup, compensated,
}
use xiaomi_feeder_iv.Dispense.Settle.{
  Weighed, Verdict, ends, again, extra_portions, verdict, is_stuck, is_open_loop,
}

-- What each verdict on a measured, compensated batch rests on. `again n` gives a number of portions
-- that the motor takes, and of ten grams each they do not feed past the target, unless n is 1.
pub data Justified (w : Weighed) : Verdict → Type 0 where
  enough : w.job.target_dg ≤ℤ w.delivered +ℤ pos comp_tolerance_dg → Justified w (ends success)
  short :
      w.delivered +ℤ pos comp_tolerance_dg <ℤ w.job.target_dg
      → (comp_max_batches ≤ w.job.batch_count) ⊎ (zero_delta_giveup ≤ w.job.zero_delta_streak)
      → Justified w (ends underfill)
  more :
      {n : ℕ}
      → w.delivered +ℤ pos comp_tolerance_dg <ℤ w.job.target_dg
      → w.job.batch_count < comp_max_batches
      → (portions_min ≤ n) × (n ≤ portions_max)
      → (n ≡ 1) ⊎ (w.delivered +ℤ pos (n * 100) ≤ℤ w.job.target_dg)
      → Justified w (again n)

enough_at : (t d : ℤ) → leb_ℤ t d ≡ true → t ≤ℤ d +ℤ pos 50
enough_at t d h = grind int_laws

enough_near : (t d : ℤ) → leb_ℤ (t -ℤ pos 50) d ≡ true → t ≤ℤ d +ℤ pos 50
enough_near t d h = grind int_laws

too_little : (t d : ℤ) → leb_ℤ (t -ℤ pos 50) d ≡ false → d +ℤ pos 50 <ℤ t
too_little t d h = grind int_laws

extra_in :
    (deficit : ℤ)
    → (portions_min ≤ extra_portions deficit) × (extra_portions deficit ≤ portions_max)
unfolding extra_portions
extra_in deficit = ground arith

extra_small :
    (x : ℤ) → (extra_portions x ≡ 1) ⊎ ((extra_portions x * 100 ≤ pos_part x) × (neg_part x ≡ 0))
unfolding extra_portions
extra_small (pos k) = ground arith
extra_small (negsuc k) = ground arith

fits :
    (t d : ℤ) (n : ℕ)
    → n * 100 ≤ pos_part (t -ℤ d)
    → neg_part (t -ℤ d) ≡ 0
    → d +ℤ pos (n * 100) ≤ℤ t
fits t d n h k = omega (arith, h, k, -ℤ_parts t d, +ℤ_parts d (pos (n * 100)))

extra_fits :
    (t d : ℤ) → (extra_portions (t -ℤ d) ≡ 1) ⊎ (d +ℤ pos (extra_portions (t -ℤ d) * 100) ≤ℤ t)
extra_fits t d = elim (extra_small (t -ℤ d)) [ inl e ↦ inl e | inr (h, k) ↦ inr (fits t d _ h k) ]

unstuck :
    (w : Weighed)
    → w.job.outcome ≡ success
    → w.job.mode ≡ compensated
    → w.measured ≡ true
    → is_stuck w.job.outcome || is_open_loop w.job.mode || not w.measured ≡ false
unfolding is_stuck is_open_loop
unstuck w o m e = rw (o, m, e) refl

-- The verdict on a measured batch of a compensated job that the motor finished: the job succeeds
-- from 5 g below its target on, gives up below that after three batches or three deltas of
-- nothing, and otherwise runs a batch of 1 to 15 portions more.
pub verdict-Justified :
    (w : Weighed)
    → w.job.outcome ≡ success
    → w.job.mode ≡ compensated
    → w.measured ≡ true
    → Justified w (verdict w)
unfolding verdict
verdict-Justified w o m e =
    let d = w.job in
    let v4 = again (extra_portions (d.target_dg -ℤ w.delivered)) in
    let v3 = if leb zero_delta_giveup d.zero_delta_streak then ends underfill else v4 in
    let v2 = if leb comp_max_batches d.batch_count then ends underfill else v3 in
    let v1 =
      if leb_ℤ (d.target_dg -ℤ pos comp_tolerance_dg) w.delivered then ends success else v2 in
    let v0 = if leb_ℤ d.target_dg w.delivered then ends success else v1 in
    if_both (Justified w) _ (ends d.outcome) v0 (λ t. absurd (cc (t, unstuck w o m e)))
      (λ _.
        if_both (Justified w) _ (ends success) v1
          (λ t. enough (enough_at d.target_dg w.delivered t))
          (λ _.
            if_both (Justified w) _ (ends success) v2
              (λ t. enough (enough_near d.target_dg w.delivered t))
              (λ f.
                if_both (Justified w) _ (ends underfill) v3
                  (λ t. short (too_little d.target_dg w.delivered f) (inl (leb→le _ _ t)))
                  (λ g.
                    if_both (Justified w) _ (ends underfill) v4
                      (λ t. short (too_little d.target_dg w.delivered f) (inr (leb→le _ _ t)))
                      (λ _.
                        more (too_little d.target_dg w.delivered f) (ground arith) (extra_in _)
                          (extra_fits d.target_dg w.delivered))))))
