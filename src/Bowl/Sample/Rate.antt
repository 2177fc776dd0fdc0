-- ===== src/Bowl/Sample/Rate.antt =====
-- How often the idle display ticks of firmware/src/app.c read the scale.
use xiaomi_feeder_iv.Common.{
  ltb, ◌==◌, if_both, All, u32_mod, sub32, ℕ, zero, suc, ◌+◌, ◌*◌, ◌≤◌, ◌<◌, ◌≡◌, refl, ◌⊎◌, inl,
  inr, Bool, true, false, not, ◌&&◌, Option, none, some, List, [], ◌∷◌, arith,
}
use xiaomi_feeder_iv.Common.Int.{ℤ}
use xiaomi_feeder_iv.Common.Port.{
  PortErr, port_ok, invalid_arg, not_found, io_error, not_supported, port_busy,
}
use xiaomi_feeder_iv.Tare.{Tare}
use xiaomi_feeder_iv.Bowl.{WeightState, is_done}
use xiaomi_feeder_iv.Bowl.Sample.{
  WeightPort, sampled, sampled_if, chosen_read, app_weight_sample, app_weight_idle_tick,
  app_weight_idle_on_display_tick,
}

pub record Tick (W : Type 0) : Type 0 where
  pub busy : Bool
  pub now_ms : ℕ
  pub port : Option (WeightPort W)

sampled-last : (r : PortErr × ℤ) (s : WeightState) → (sampled r s).last_sample_ms ≡ s.last_sample_ms
unfolding sampled
sampled-last (port_ok, dg) s = refl
sampled-last (port_busy, dg) s = refl
sampled-last (invalid_arg, dg) s = refl
sampled-last (not_found, dg) s = refl
sampled-last (io_error, dg) s = refl
sampled-last (not_supported, dg) s = refl

due : (last age : ℕ) → (not (last == 0) && ltb age 500) ≡ false → (last ≡ 0) ⊎ (500 ≤ age)
due zero age e = inl refl
due (suc last) age e = inr (ground (arith, e))

module _ {W : Type 0} where
  unfoldable pub ticks : List (Tick W) → WeightState × Tare → W → (WeightState × Tare) × W
  ticks [] s w = (s, w)
  ticks (t ∷ ts) s w =
      let (s', w') = app_weight_idle_on_display_tick t.busy t.now_ms t.port s w in ticks ts s' w'

  -- The ticks come in the order of their times, between these two.
  unfoldable pub Between : ℕ → ℕ → List (Tick W) → Type 0
  Between lo hi [] = lo ≤ hi
  Between lo hi (t ∷ ts) = (lo ≤ t.now_ms) × Between t.now_ms hi ts

  Between-le : (ts : List (Tick W)) (lo hi : ℕ) → Between lo hi ts → lo ≤ hi
  unfolding Between
  Between-le [] lo hi b = b
  Between-le (t ∷ ts) lo hi (a, b) = omega (arith, a, Between-le ts t.now_ms hi b)

module _ {W : Type 0} (reads : W → ℕ) where
  -- `reads` counts the calls of a read that the port may have.
  unfoldable pub CountsRead : Option (W → (PortErr × ℤ) × W) → Type 0
  CountsRead none = Unit
  CountsRead (some read) = (w : W) → reads (read w).1 ≡ suc (reads w)

  unfoldable pub CountsPort : Option (WeightPort W) → Type 0
  CountsPort none = Unit
  CountsPort (some p) = CountsRead p.read_dg × CountsRead p.try_read_dg

  sampled_if-reads :
      (read : Option (W → (PortErr × ℤ) × W)) (s : WeightState) (w : W)
      → CountsRead read
      → let r = sampled_if read s w in
        (r.0.last_sample_ms ≡ s.last_sample_ms) × (reads r.1 ≤ suc (reads w))
  unfolding CountsRead
  sampled_if-reads none s w c = (refl, omega arith)
  sampled_if-reads (some read) s w c = (sampled-last (read w).0 s, omega (arith, c w))

  chosen-CountsRead :
      (try_read read : Option (W → (PortErr × ℤ) × W))
      → CountsRead read
      → CountsRead try_read
      → CountsRead (elim try_read [ none ↦ read | some r ↦ some r ])
  chosen-CountsRead none read c t = c
  chosen-CountsRead (some r) read c t = t

  sample-reads :
      (port : Option (WeightPort W)) (s : WeightState) (w : W)
      → CountsPort port
      → let r = app_weight_sample true port s w in
        (r.0.last_sample_ms ≡ s.last_sample_ms) × (reads r.1 ≤ suc (reads w))
  unfolding app_weight_sample CountsPort
  sample-reads none s w c = (refl, omega arith)
  sample-reads (some p) s w c =
      sampled_if-reads (chosen_read true p) s w (chosen-CountsRead p.try_read_dg p.read_dg c.0 c.1)

  -- A tick leaves the time of the last sample and does not read, or it is due, stamps and reads.
  abbrev StepsTo : ℕ → ℕ → ℕ → ℕ → ℕ → Type 0
  StepsTo now_ms last read last' read' =
      ((last' ≡ last) × (read' ≡ read))
      ⊎ ((last' ≡ now_ms) × ((last ≡ 0) ⊎ (500 ≤ sub32 now_ms last)) × (read' ≤ suc read))

  tick-StepsTo :
      (busy : Bool) (now_ms : ℕ) (port : Option (WeightPort W)) (s : WeightState × Tare) (w : W)
      → CountsPort port
      → let r = app_weight_idle_on_display_tick busy now_ms port s w in
        StepsTo now_ms s.0.last_sample_ms (reads w) r.0.0.last_sample_ms (reads r.1)
  unfolding app_weight_idle_on_display_tick app_weight_idle_tick
  tick-StepsTo busy now_ms port (s, tare) w c =
      let P : (WeightState × Tare) × W → Type 0 =
        λ r. StepsTo now_ms s.last_sample_ms (reads w) r.0.0.last_sample_ms (reads r.1) in
      let age = sub32 now_ms s.last_sample_ms in
      let (stamped, read) = sample-reads port (record s { last_sample_ms = now_ms }) w c in
      if_both P (not (is_done s.boot)) _ _ (λ _. inl (refl, refl))
        (λ _.
          if_both P busy _ _ (λ _. inl (refl, refl))
            (λ _.
              if_both P (not (s.last_sample_ms == 0) && ltb age 500) _ _ (λ _. inl (refl, refl))
                (λ e. inr (stamped, due s.last_sample_ms age e, read))))

  step-le :
      (now_ms last read last' read' : ℕ)
      → StepsTo now_ms last read last' read'
      → 1 ≤ last
      → last ≤ now_ms
      → now_ms < u32_mod
      → (1 ≤ last') × (last' ≤ now_ms) × (500 * read' + last ≤ 500 * read + last')
  step-le now_ms last read last' read' (inl (e, q)) one l h =
      (omega (arith, e, one), omega (arith, e, l), omega (arith, e, q))
  step-le now_ms last read last' read' (inr (e, inl z, q)) one l h = absurd (omega (arith, z, one))
  step-le now_ms last read last' read' (inr (e, inr d, q)) one l h =
      (omega (arith, e, one, l), omega (arith, e), omega (arith, e, d, l, h, q))

  -- From a first sample on, idle display ticks that come in order read the scale once in 500 ms at
  -- most, whatever the scale answers, as long as the 32-bit clock does not wrap: the reads from the
  -- state `w` on, 500 ms for each, fit between the last sample and the last tick.
  pub ticks-reads :
      (ts : List (Tick W)) (s : WeightState × Tare) (w : W) (lo hi : ℕ)
      → All (λ t. CountsPort t.port) ts
      → 1 ≤ s.0.last_sample_ms
      → s.0.last_sample_ms ≤ lo
      → hi < u32_mod
      → Between lo hi ts
      → 500 * reads (ticks ts s w).1 + s.0.last_sample_ms ≤ 500 * reads w + hi
  unfolding ticks Between
  ticks-reads [] s w lo hi c one l h b = omega (arith, l, b)
  ticks-reads (t ∷ ts) s w lo hi (c, cs) one l h (a, b) =
      let le = Between-le ts t.now_ms hi b in
      let r = app_weight_idle_on_display_tick t.busy t.now_ms t.port s w in
      let m =
        step-le t.now_ms _ _ _ _ (tick-StepsTo t.busy t.now_ms t.port s w c) one
          (omega (arith, l, a)) (omega (arith, le, h)) in
      let rest = ticks-reads ts r.0 r.1 t.now_ms hi cs m.0 m.1 h b in omega (arith, m.2, rest)
