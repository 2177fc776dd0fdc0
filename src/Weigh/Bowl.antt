-- ===== src/Weigh/Bowl.antt =====
-- What a calibrated scale shows for its two reference points.
use native.Mathlib.Nat.{mul-div_cancel_left, zero-div}
use xiaomi_feeder_iv.Common.{
  sym, if◌then◌else◌, if_both, ℕ, suc, ◌+◌, ◌-◌, ◌*◌, ◌/◌, ◌<◌, ◌≡◌, refl, ap, ◌∙◌, Bool, true,
  false, not, ◌||◌, Option, none, some, arith, if_false,
}
use xiaomi_feeder_iv.Common.Port.{PortErr, port_ok, invalid_arg}
use xiaomi_feeder_iv.Common.Int.{ℤ, pos, negsuc, ◌-ℤ◌, -ℤ_parts, eq_of_parts}
use xiaomi_feeder_iv.Weigh.{
  weigh_cal_span_g, CalModel, succeeds, with_zero, weigh_cal_save_zero, eq_ℤ, write_span,
  weigh_cal_save_span, ◌*ℤ◌, quotient, weigh_cal_is_complete, weigh_cal_apply_dg, less_bowl,
  weigh_cal_food_dg,
}

times_pos : (n : ℕ) → pos n *ℤ pos 350 *ℤ pos 10 ≡ pos (n * 3500)
unfolding ◌*ℤ◌
times_pos n = ground arith

times_neg : (n : ℕ) → negsuc n *ℤ pos 350 *ℤ pos 10 ≡ negsuc (suc n * 3500 - 1)
unfolding ◌*ℤ◌
times_neg n = ground arith

divides : (n m : ℕ) → 0 < n → m ≡ n * 3500 → m / n ≡ 3500
divides n m h e = ap (λ k. k / n) e ∙ mul-div_cancel_left 3500 h

quotient_pos : (n : ℕ) → 0 < n → quotient (pos (n * 3500)) (pos n) ≡ pos 3500
unfolding quotient
quotient_pos n h = ground (arith, divides (n + 0) (n * 3500 + 0) (omega arith) (omega arith))

quotient_neg : (n : ℕ) → quotient (negsuc (suc n * 3500 - 1)) (negsuc n) ≡ pos 3500
unfolding quotient
quotient_neg n =
    ground (arith, divides (0 + suc n) (0 + suc (suc n * 3500 - 1)) (omega arith) (omega arith))

quotient_zero : (d : ℤ) → quotient (pos 0) d ≡ pos 0
unfolding quotient
quotient_zero (pos n) = ground (arith, zero-div (n + 0))
quotient_zero (negsuc n) = ground (arith, zero-div (0 + suc n))

fails {ℓ} : {X : Type ℓ} (err : PortErr) → succeeds err ≡ false → err ≡ port_ok → X
fails err f e = absurd (cc (rw e at f))

spanned : ℤ → ℤ → CalModel → CalModel
spanned g s m = record m { span_g = g; span_raw = s; span_set = true }

zero-saved :
    (cfg : Option PortErr) (z : ℤ) (m : CalModel)
    → (weigh_cal_save_zero cfg z m).0 ≡ port_ok
    → (weigh_cal_save_zero cfg z m).1 ≡ with_zero z m
unfolding weigh_cal_save_zero
zero-saved none z m = λ e. refl
zero-saved (some err) z m =
    if_both (λ (r : PortErr × CalModel). r.0 ≡ port_ok → r.1 ≡ with_zero z m) (succeeds err)
      (port_ok, with_zero z m) (err, m) (λ _ _. refl) (λ f e. fails err f e)

span-written :
    (cfg : Option (PortErr × PortErr)) (g s : ℤ) (m : CalModel)
    → (write_span cfg g s m).0 ≡ port_ok
    → (write_span cfg g s m).1 ≡ spanned g s m
unfolding write_span spanned
span-written none g s m = λ e. refl
span-written (some (a, b)) g s m =
    let P : PortErr × CalModel → Type 0 = λ (r : PortErr × CalModel).
      r.0 ≡ port_ok → r.1 ≡ record m { span_g = g; span_raw = s; span_set = true } in
    let done : PortErr × CalModel =
      (port_ok, record m { span_g = g; span_raw = s; span_set = true }) in
    let later : PortErr × CalModel = if not (succeeds b) then (b, m) else done in
    if_both P (not (succeeds a)) (a, m) later (λ f e. fails a (negated (succeeds a) f) e)
      (λ _.
        if_both P (not (succeeds b)) (b, m) done (λ f e. fails b (negated (succeeds b) f) e)
          (λ _ _. refl))
  where
    negated : (b : Bool) → not b ≡ true → b ≡ false
    negated b h = ground arith

eq_is : (a b : ℤ) → eq_ℤ a b ≡ true → a ≡ b
eq_is a b h = eq_of_parts a b (ground arith)

-- What a span that is saved rests on.
span-saved :
    (cfg : Option (PortErr × PortErr)) (g s : ℤ) (m : CalModel)
    → (weigh_cal_save_span cfg g s m).0 ≡ port_ok
    → ((weigh_cal_save_span cfg g s m).1 ≡ spanned g s m)
      × (m.zero_set ≡ true)
      × (g ≡ pos 350)
      × (eq_ℤ s m.zero_raw ≡ false)
unfolding weigh_cal_save_span
span-saved cfg g s m =
    if_both
      (λ (r : PortErr × CalModel).
        r.0 ≡ port_ok
        → (r.1 ≡ spanned g s m) × (m.zero_set ≡ true) × (g ≡ pos 350) × (eq_ℤ s m.zero_raw ≡ false))
      (not m.zero_set || not (eq_ℤ g weigh_cal_span_g) || eq_ℤ s m.zero_raw) (invalid_arg, m)
      (write_span cfg g s m) (λ _ e. absurd (cc e))
      (λ f e. (span-written cfg g s m e, ground arith, eq_is _ _ (ground arith), ground arith))

quotient_same : (d : ℤ) → eq_ℤ d (pos 0) ≡ false → quotient (d *ℤ pos 350 *ℤ pos 10) d ≡ pos 3500
quotient_same (pos n) h = rw (times_pos n) (quotient_pos n (ground arith))
quotient_same (negsuc n) h = rw (times_neg n) (quotient_neg n)

apart : (s z : ℤ) → eq_ℤ s z ≡ false → eq_ℤ (s -ℤ z) (pos 0) ≡ false
apart s z h = ground (arith, -ℤ_parts s z)

zero_times : pos 0 *ℤ pos 350 *ℤ pos 10 ≡ pos 0
unfolding ◌*ℤ◌
zero_times = refl

no_change : (z : ℤ) → z -ℤ z ≡ pos 0
no_change z = eq_of_parts _ _ (omega (arith, -ℤ_parts z z))

module _ (z s : ℤ) (m : CalModel) (h : eq_ℤ s z ≡ false) where
  full : CalModel
  full = spanned (pos 350) s (with_zero z m)

  applied :
      (raw : ℤ)
      → weigh_cal_apply_dg full raw ≡ some (quotient ((raw -ℤ z) *ℤ pos 350 *ℤ pos 10) (s -ℤ z))
  unfolding weigh_cal_apply_dg full spanned with_zero weigh_cal_is_complete
  applied raw =
      if_false none (some (quotient ((raw -ℤ z) *ℤ pos 350 *ℤ pos 10) (s -ℤ z))) (apart s z h)

  full_bowl : weigh_cal_food_dg full s ≡ some (pos 0)
  unfolding weigh_cal_food_dg less_bowl
  full_bowl = rw (applied s, quotient_same (s -ℤ z) (apart s z h)) (unfold ◌-ℤ◌ in refl)

  full_zero : weigh_cal_food_dg full z ≡ some (negsuc 3499)
  unfolding weigh_cal_food_dg less_bowl
  full_zero = rw (applied z, no_change z, zero_times, quotient_zero (s -ℤ z)) (unfold ◌-ℤ◌ in refl)

-- After a zero and a span are saved, whatever the model held, the raw value of the span, taken with
-- the empty bowl, shows no food, and the raw value of the zero, taken without it, shows the bowl's
-- 350 g less than none.
pub save_span-food :
    (zero_cfg : Option PortErr) (span_cfg : Option (PortErr × PortErr)) (z g s : ℤ) (m : CalModel)
    → (weigh_cal_save_zero zero_cfg z m).0 ≡ port_ok
    → (weigh_cal_save_span span_cfg g s (weigh_cal_save_zero zero_cfg z m).1).0 ≡ port_ok
    → let c = (weigh_cal_save_span span_cfg g s (weigh_cal_save_zero zero_cfg z m).1).1 in
      (weigh_cal_food_dg c s ≡ some (pos 0)) × (weigh_cal_food_dg c z ≡ some (negsuc 3499))
unfolding full with_zero
save_span-food zero_cfg span_cfg z g s m e f =
    let zeroed = (weigh_cal_save_zero zero_cfg z m).1 in
    let is_zeroed : zeroed ≡ with_zero z m = zero-saved zero_cfg z m e in
    let (a, b, c, d) = span-saved span_cfg g s zeroed f in
    let differs : eq_ℤ s z ≡ false = raw_differs s z m zeroed is_zeroed d in
    let is_full : (weigh_cal_save_span span_cfg g s zeroed).1 ≡ full z s m differs =
      a
      ∙ (ap (λ (x : ℤ). spanned x s zeroed) c
          ∙ ap (λ (x : CalModel). spanned (pos 350) s x) is_zeroed) in
    rw is_full (full_bowl z s m differs, full_zero z s m differs)
  where
    raw_differs :
        (s z : ℤ) (m zeroed : CalModel)
        → zeroed ≡ with_zero z m
        → eq_ℤ s zeroed.zero_raw ≡ false
        → eq_ℤ s z ≡ false
    raw_differs s z m zeroed e d = sym (ap (λ (x : CalModel). eq_ℤ s x.zero_raw) e) ∙ d
