-- ===== src/Power/Noise.antt =====
-- What the debouncer filters out, and what it lets through.
use xiaomi_feeder_iv.Common.{
  leb, ◌==◌, if◌then◌else◌, if_false, if_both, All, ℕ, ◌≤◌, ◌≡◌, refl, ap, ◌∙◌, Bool, true, false,
  not, ◌&&◌, List, [], ◌∷◌, arith,
}
use xiaomi_feeder_iv.Power.{
  PowerInput, mains, power_source_input_enqueue_transition, power_source_input_confirm,
  power_source_input_may_sample, same, power_source_input_apply_reading, reading_taken,
  power_source_input_read, power_source_input_poll,
}

-- The state after polls at the given times whose readings alternate, the first one being b.
pub alternating : Bool → List ℕ → PowerInput → PowerInput
alternating b [] s = s
alternating b (t ∷ ts) s = alternating (not b) ts (power_source_input_poll (mains b) t s)

-- The level, and the transitions that wait.
pub record SameLevel (s t : PowerInput) : Type 0 where
  pub level : t.confirmed_mains ≡ s.confirmed_mains
  pub waiting : t.transitions ≡ s.transitions

same_iff : (b c : Bool) → same b c ≡ true → c ≡ b
unfolding same
same_iff true true e = refl
same_iff false false e = refl
same_iff true false e = absurd (cc e)
same_iff false true e = absurd (cc e)

same_self : (b : Bool) → same b b ≡ true
unfolding same
same_self true = refl
same_self false = refl

same-not : (b : Bool) → same b (not b) ≡ false
unfolding same
same-not true = refl
same-not false = refl

not-not : (b : Bool) → b ≡ not (not b)
not-not true = refl
not-not false = refl

and_not : (x y : Bool) → x ≡ true → x && not y ≡ false → y ≡ true
and_not true true e f = refl
and_not true false e f = absurd (cc f)
and_not false y e f = absurd (cc e)

gate_open : (g t : ℕ) → g ≤ t → (if g == 0 then true else leb g t) ≡ true
gate_open g t h = ground arith

module _ (b : Bool) (t : ℕ) (s : PowerInput) where
  poll_open :
      s.irq_sample_after_ms ≤ t
      → power_source_input_poll (mains b) t s
        ≡ power_source_input_apply_reading b t (record s { valid = true })
  unfolding power_source_input_poll power_source_input_read power_source_input_may_sample
      reading_taken
  poll_open h = if_false _ _ (ap not (gate_open s.irq_sample_after_ms t h))

  second_reading : s.last_mains ≡ b → (power_source_input_apply_reading b t s).confirmed_mains ≡ b
  unfolding power_source_input_apply_reading
  second_reading h =
      if_both (λ (r : PowerInput). r.confirmed_mains ≡ b)
        (same b s.last_mains && not (same b s.confirmed_mains)) (power_source_input_confirm b t s) s
        (λ _. unfold power_source_input_confirm power_source_input_enqueue_transition in refl)
        (λ f. same_iff b s.confirmed_mains (and_not _ _ (ap (same b) h ∙ same_self b) f))

  first_reading : s.last_mains ≡ not b → SameLevel s (power_source_input_apply_reading b t s)
  unfolding power_source_input_apply_reading
  first_reading h =
      let other : same b s.last_mains && not (same b s.confirmed_mains) ≡ false =
        ap (λ c. c && not (same b s.confirmed_mains)) (ap (same b) h ∙ same-not b) in
      record {
        level = ap (λ (r : PowerInput). r.confirmed_mains) (if_false _ _ other);
        waiting = ap (λ (r : PowerInput). r.transitions) (if_false _ _ other);
      }

  last_reading : (power_source_input_apply_reading b t s).last_mains ≡ b
  unfolding power_source_input_apply_reading
  last_reading = refl

  gate_kept : (power_source_input_apply_reading b t s).irq_sample_after_ms ≡ s.irq_sample_after_ms
  unfolding power_source_input_apply_reading
  gate_kept =
      if_both (λ (r : PowerInput). r.irq_sample_after_ms ≡ s.irq_sample_after_ms) _
        (power_source_input_confirm b t s) s
        (λ _. unfold power_source_input_confirm power_source_input_enqueue_transition in refl)
        (λ _. refl)

-- A signal that bounces, so that every reading differs from the one before it, changes neither the
-- level nor the transitions, however long it goes on.
alternating-SameLevel :
    (ts : List ℕ) (b : Bool) (s : PowerInput)
    → s.last_mains ≡ not b
    → All (λ t. s.irq_sample_after_ms ≤ t) ts
    → SameLevel s (alternating b ts s)
unfolding alternating
alternating-SameLevel [] b s h a = record { level = refl; waiting = refl }
alternating-SameLevel (t ∷ ts) b s h a =
    let one = first_reading b t (record s { valid = true }) h in
    let q = poll_open b t s a.0 in
    let next =
      alternating-SameLevel ts (not b) (power_source_input_poll (mains b) t s)
        (ap (λ (r : PowerInput). r.last_mains) q
          ∙ last_reading b t (record s { valid = true })
          ∙ not-not b)
        (rw
          (ap (λ (r : PowerInput). r.irq_sample_after_ms) q
            ∙ gate_kept b t (record s { valid = true }))
          a.1) in
    record {
      level = next.level ∙ ap (λ (r : PowerInput). r.confirmed_mains) q ∙ one.level;
      waiting = next.waiting ∙ ap (λ (r : PowerInput). r.transitions) q ∙ one.waiting;
    }

-- Two readings in a row that agree, at times when the gate is open, set the level that
-- `power_source_input_get` reports.
twice-confirmed :
    (b : Bool) (t u : ℕ) (s : PowerInput)
    → s.irq_sample_after_ms ≤ t
    → s.irq_sample_after_ms ≤ u
    → (power_source_input_poll (mains b) u (power_source_input_poll (mains b) t s)).confirmed_mains
      ≡ b
twice-confirmed b t u s h k =
    let s1 = power_source_input_poll (mains b) t s in
    let q = poll_open b t s h in
    let gate : s1.irq_sample_after_ms ≡ s.irq_sample_after_ms =
      ap (λ (r : PowerInput). r.irq_sample_after_ms) q
      ∙ gate_kept b t (record s { valid = true }) in
    let last : s1.last_mains ≡ b =
      ap (λ (r : PowerInput). r.last_mains) q ∙ last_reading b t (record s { valid = true }) in
    ap (λ (r : PowerInput). r.confirmed_mains) (poll_open b u s1 (omega (arith, gate, k)))
    ∙ second_reading b u (record s1 { valid = true }) last

alternating-gate :
    (ts : List ℕ) (b : Bool) (s : PowerInput)
    → All (λ t. s.irq_sample_after_ms ≤ t) ts
    → (alternating b ts s).irq_sample_after_ms ≡ s.irq_sample_after_ms
unfolding alternating
alternating-gate [] b s a = refl
alternating-gate (t ∷ ts) b s a =
    let kept =
      ap (λ (r : PowerInput). r.irq_sample_after_ms) (poll_open b t s a.0)
      ∙ gate_kept b t (record s { valid = true }) in
    alternating-gate ts (not b) (power_source_input_poll (mains b) t s) (rw kept a.1) ∙ kept

-- At times when the gate is open: a signal that bounces, so that every reading differs from the one
-- before it, changes neither the level nor the transitions, however long it goes on, and the first
-- two readings in a row that agree then set the level that `power_source_input_get` reports.
pub alternating-settles :
    (ts : List ℕ) (b c : Bool) (t u : ℕ) (s : PowerInput)
    → s.last_mains ≡ not b
    → All (λ t. s.irq_sample_after_ms ≤ t) ts
    → s.irq_sample_after_ms ≤ t
    → s.irq_sample_after_ms ≤ u
    → let bounced = alternating b ts s in
      SameLevel s bounced
      × ((power_source_input_poll
            (mains c)
            u
            (power_source_input_poll (mains c) t bounced)).confirmed_mains
          ≡ c)
alternating-settles ts b c t u s e a h k =
    let g = alternating-gate ts b s a in
    (
      alternating-SameLevel ts b s e a,
      twice-confirmed c t u (alternating b ts s) (omega (arith, g, h)) (omega (arith, g, k)),
    )
