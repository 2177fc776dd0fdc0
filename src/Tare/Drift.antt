-- ===== src/Tare/Drift.antt =====
-- What the compensation promises of the weight that is shown.
use xiaomi_feeder_iv.Common.{
  if◌then◌else◌, Bool-cases, if_true, if_false, ◌≡◌, refl, sym, ap, ◌∙◌, inl, inr, Bool, true,
  false, not, ◌&&◌, List, [], ◌∷◌, arith,
}
use xiaomi_feeder_iv.Common.Int.{ℤ, pos, ◌+ℤ◌, ◌-ℤ◌, leb_ℤ, int_laws}
use mathlib.Core.Path.{subst}
use xiaomi_feeder_iv.Tare.{
  Tare, auto_tare_abs_delta, auto_tare_sample_quiet, auto_tare_track_raw, drift_sample,
  auto_tare_idle_sample, auto_tare_present_dg,
}

back_to : (a r : ℤ) → r +ℤ (a -ℤ r) ≡ a
back_to a r = grind int_laws

moved : (a r x : ℤ) → x +ℤ (a -ℤ r) ≡ a +ℤ (x -ℤ r)
moved a r x = grind int_laws

-- Two weights that differ by a tenth of a gram at most.
unfoldable pub near : ℤ → ℤ → Bool
near a b = leb_ℤ a (b +ℤ pos 1) && leb_ℤ b (a +ℤ pos 1)

quiet-near :
    (raw_dg : ℤ) (s : Tare)
    → s.prev_raw_valid ≡ true
    → auto_tare_sample_quiet raw_dg s ≡ near raw_dg s.prev_raw_dg
unfolding auto_tare_sample_quiet auto_tare_abs_delta near ◌+ℤ◌ ◌-ℤ◌
quiet-near raw_dg s e = ground (arith, e)

-- The weights of valid samples while nothing is dispensed, one after the other.
unfoldable pub sampled_all : List ℤ → Tare → Tare
sampled_all [] s = s
sampled_all (r ∷ rs) s = sampled_all rs (auto_tare_idle_sample false r true s)

unfoldable pub last_of : ℤ → List ℤ → ℤ
last_of r [] = r
last_of r (x ∷ xs) = last_of x xs

-- Each weight is near the one before it, the first one near `prev`.
unfoldable pub Drifts : ℤ → List ℤ → Type 0
Drifts prev [] = Unit
Drifts prev (r ∷ rs) = (near r prev ≡ true) × Drifts r rs

record Follows (s : Tare) (t : Tare) : Type 0 where
  pending : t.pending_calibration ≡ false
  stable : t.stable_valid ≡ true
  tracked : t.prev_raw_valid ≡ true
  anchor : t.stable_dg ≡ s.stable_dg

-- The offset makes up for the drift up to `last`.
abbrev Levelled : ℤ → Tare → Type 0
Levelled last t = (t.prev_raw_dg ≡ last) × (t.drift_offset_dg ≡ t.stable_dg -ℤ last)

idle_sample-drift :
    (raw_dg : ℤ) (t : Tare)
    → t.pending_calibration ≡ false
    → t.stable_valid ≡ true
    → auto_tare_idle_sample false raw_dg true t ≡ drift_sample raw_dg t
unfolding auto_tare_idle_sample
idle_sample-drift raw_dg t p v = if_false _ _ p ∙ if_false _ _ (ap not v)

shown :
    (raw_dg : ℤ) (t : Tare)
    → t.pending_calibration ≡ false
    → t.stable_valid ≡ true
    → auto_tare_present_dg raw_dg true t ≡ raw_dg +ℤ t.drift_offset_dg
unfolding auto_tare_present_dg
shown raw_dg t q w = rw (q, w) refl

drifts-near :
    (raw_dg : ℤ) (t : Tare)
    → t.prev_raw_valid ≡ true
    → (t.prev_raw_valid && auto_tare_sample_quiet raw_dg t) ≡ near raw_dg t.prev_raw_dg
drifts-near raw_dg t v = ap (λ b. b && auto_tare_sample_quiet raw_dg t) v ∙ quiet-near raw_dg t v

abbrev levelled_at : ℤ → Tare → Tare
levelled_at raw_dg t = record t { drift_offset_dg = t.stable_dg -ℤ raw_dg }

module _ (raw_dg : ℤ) (t : Tare) (p : t.pending_calibration ≡ false) (v : t.stable_valid ≡ true)
    (w : t.prev_raw_valid ≡ true) where
  idle_sample-near :
      near raw_dg t.prev_raw_dg ≡ true
      → auto_tare_idle_sample false raw_dg true t
        ≡ auto_tare_track_raw raw_dg (levelled_at raw_dg t)
  unfolding drift_sample
  idle_sample-near n =
      idle_sample-drift raw_dg t p v
      ∙ ap (auto_tare_track_raw raw_dg) (if_true _ _ (drifts-near raw_dg t w ∙ n))

  idle_sample-far :
      near raw_dg t.prev_raw_dg ≡ false
      → auto_tare_idle_sample false raw_dg true t ≡ auto_tare_track_raw raw_dg t
  unfolding drift_sample
  idle_sample-far n =
      idle_sample-drift raw_dg t p v
      ∙ ap (auto_tare_track_raw raw_dg) (if_false _ _ (drifts-near raw_dg t w ∙ n))

drift-near :
    (raw_dg : ℤ) (s t : Tare)
    → Follows s t
    → near raw_dg t.prev_raw_dg ≡ true
    → Follows s (auto_tare_idle_sample false raw_dg true t)
      × Levelled raw_dg (auto_tare_idle_sample false raw_dg true t)
unfolding auto_tare_track_raw
drift-near raw_dg s t f n =
    subst (λ x. Follows s x × Levelled raw_dg x)
      (sym (idle_sample-near raw_dg t f.pending f.stable f.tracked n))
      (
        record { pending = f.pending; stable = f.stable; tracked = refl; anchor = f.anchor },
        (refl, refl),
      )

follow :
    (r : ℤ) (rs : List ℤ) (s t : Tare)
    → Follows s t
    → Drifts t.prev_raw_dg (r ∷ rs)
    → Follows s (sampled_all (r ∷ rs) t) × Levelled (last_of r rs) (sampled_all (r ∷ rs) t)
unfolding sampled_all last_of Drifts
follow r [] s t f d = drift-near r s t f d.0
follow r (x ∷ xs) s t f d = let (f', l) = drift-near r s t f d.0 in follow x xs s _ f' (rw l.0 d.1)

-- A calibrated scale, sampled while nothing is dispensed: after valid weights of which each differs
-- from the one before by a tenth of a gram at most, the anchored weight is shown, however far they
-- have drifted; the next weight is shown as the anchored one too if it is as near, and otherwise as
-- the anchored weight with the whole step, up or down.
pub idle_samples-present :
    (s : Tare) (r : ℤ) (rs : List ℤ) (raw_dg : ℤ)
    → s.pending_calibration ≡ false
    → s.stable_valid ≡ true
    → s.prev_raw_valid ≡ true
    → Drifts s.prev_raw_dg (r ∷ rs)
    → let last = last_of r rs in
      let t = sampled_all (r ∷ rs) s in
      (auto_tare_present_dg last true t ≡ s.stable_dg)
      × (auto_tare_present_dg raw_dg true (auto_tare_idle_sample false raw_dg true t)
          ≡ (if near raw_dg last then s.stable_dg else s.stable_dg +ℤ (raw_dg -ℤ last)))
unfolding auto_tare_track_raw
idle_samples-present s r rs raw_dg p v w d =
    let t = sampled_all (r ∷ rs) s in
    let last = last_of r rs in
    let (f, l) =
      follow r rs s s (record { pending = p; stable = v; tracked = w; anchor = refl }) d in
    let again : near raw_dg t.prev_raw_dg ≡ near raw_dg last = ap (near raw_dg) l.0 in
    (
      shown last t f.pending f.stable
          ∙ ap (λ o. last +ℤ o) l.1
          ∙ back_to t.stable_dg last
          ∙ f.anchor,
      elim (Bool-cases (near raw_dg last)) [
        | inl e ↦
            ap (auto_tare_present_dg raw_dg true)
              (idle_sample-near raw_dg t f.pending f.stable f.tracked (again ∙ e))
            ∙ shown raw_dg _ f.pending f.stable
            ∙ back_to t.stable_dg raw_dg
            ∙ f.anchor
            ∙ sym (if_true _ _ e)
        | inr e ↦
            ap (auto_tare_present_dg raw_dg true)
              (idle_sample-far raw_dg t f.pending f.stable f.tracked (again ∙ e))
            ∙ shown raw_dg _ f.pending f.stable
            ∙ ap (λ o. raw_dg +ℤ o) l.1
            ∙ moved t.stable_dg last raw_dg
            ∙ ap (λ a. a +ℤ (raw_dg -ℤ last)) f.anchor
            ∙ sym (if_false _ _ e)
      ],
    )
