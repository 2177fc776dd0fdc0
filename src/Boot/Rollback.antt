-- ===== src/Boot/Rollback.antt =====
-- The attempts of an unverified bank, and the roll-back.
use native.Mathlib.Decide.{dec_lt}
use xiaomi_feeder_iv.Common.{
  ◌==◌, if◌then◌else◌, ℕ, zero, suc, ◌/◌, ◌%◌, ◌≡◌, some, lt→ltb, Bool-cases, ◌<◌, refl, sym, ap,
  ◌∙◌, inl, inr, false, arith, ltb, ◌≤◌, Bool, true, not, if_true, if_false,
}
use xiaomi_feeder_iv.Boot.{
  BootBank, bank_a, bank_b, boot_ctrl_magic, ControlBlock, boot_bank_resolve,
  boot_bank_is_unverified, boot_bank_effective_boot_attempts, counted_attempt, toggle_bank,
  boot_bank_record_boot_attempt, boot_flag_b, boot_max_attempts, boot_bank_arm_unverified,
  boot_bank_confirm_slot, attempt_continue, attempt_toggled,
}

-- The block after k boots that nothing confirms.
unfoldable pub boots : ℕ → ControlBlock → ControlBlock
boots zero ctrl = ctrl
boots (suc k) ctrl = (boot_bank_record_boot_attempt (boots k ctrl)).1

unfoldable pub other_bank : BootBank → BootBank
other_bank bank_a = bank_b
other_bank bank_b = bank_a

unfoldable pub bank_after : ℕ → BootBank → BootBank
bank_after k bank = if k / 3 % 2 == 0 then bank else other_bank bank

-- What k boots leave of a block that was armed.
pub record Unconfirmed (k : ℕ) (bank : BootBank) (t : ControlBlock) : Type 0 where
  pub marked : t.magic ≡ boot_ctrl_magic
  pub armed : t.unverified ≡ 1
  pub attempts : t.boot_attempts ≡ k % 3
  pub boots_from : boot_bank_resolve (some t) ≡ bank_after k bank

counted_suc : (t : ControlBlock) → t.boot_attempts < 3 → counted_attempt t ≡ suc t.boot_attempts
unfolding counted_attempt boot_bank_effective_boot_attempts
counted_suc t h = ground arith

same_bank : (k : ℕ) (bank : BootBank) → k % 3 < 2 → bank_after (suc k) bank ≡ bank_after k bank
unfolding bank_after
same_bank k bank h = ap (λ q. if q % 2 == 0 then bank else other_bank bank) (omega (arith, h))

twice : (bank : BootBank) → bank ≡ other_bank (other_bank bank)
unfolding other_bank
twice bank_a = refl
twice bank_b = refl

flip_if :
    (b : Bool) (bank : BootBank)
    → (if not b then bank else other_bank bank) ≡ other_bank (if b then bank else other_bank bank)
flip_if true bank = refl
flip_if false bank = twice bank

parity : (k : ℕ) → ¬ (k % 3 < 2) → (suc k / 3 % 2 == 0) ≡ not (k / 3 % 2 == 0)
parity k h = ground arith

flipped :
    (k : ℕ) (bank : BootBank)
    → ¬ (k % 3 < 2)
    → bank_after (suc k) bank ≡ other_bank (bank_after k bank)
unfolding bank_after
flipped k bank h =
    ap (λ b. if b then bank else other_bank bank) (parity k h) ∙ flip_if (k / 3 % 2 == 0) bank

is_armed : (t : ControlBlock) → t.unverified ≡ 1 → boot_bank_is_unverified t ≡ true
unfolding boot_bank_is_unverified
is_armed t e = rw e refl

same_resolve :
    (t : ControlBlock) (n : ℕ)
    → boot_bank_resolve (some (record t { boot_attempts = n })) ≡ boot_bank_resolve (some t)
unfolding boot_bank_resolve
same_resolve t n = refl

toggled_bank :
    (t : ControlBlock)
    → t.magic ≡ boot_ctrl_magic
    → boot_bank_resolve (some (toggle_bank t)) ≡ other_bank (boot_bank_resolve (some t))
unfolding toggle_bank boot_bank_resolve other_bank
toggled_bank t m =
    rw m
      (elim (Bool-cases (t.active_flag == boot_flag_b)) [ inl e ↦ rw e refl | inr e ↦ rw e refl ])

not_below : (n : ℕ) → 3 ≤ n → ltb n boot_max_attempts ≡ false
not_below n h = ground arith

module _ (t : ControlBlock) (h : t.unverified ≡ 1) where
  attempt_counts :
      ltb (counted_attempt t) boot_max_attempts ≡ true
      → boot_bank_record_boot_attempt t
        ≡ (attempt_continue, record t { boot_attempts = counted_attempt t })
  unfolding boot_bank_record_boot_attempt
  attempt_counts e = if_false _ _ (ap not (is_armed t h)) ∙ if_true _ _ e

  attempt_toggles :
      ltb (counted_attempt t) boot_max_attempts ≡ false
      → boot_bank_record_boot_attempt t ≡ (attempt_toggled, toggle_bank t)
  unfolding boot_bank_record_boot_attempt
  attempt_toggles e = if_false _ _ (ap not (is_armed t h)) ∙ if_false _ _ e

toggled_mark : (t : ControlBlock) → (toggle_bank t).magic ≡ t.magic
unfolding toggle_bank
toggled_mark t = refl

toggled_armed : (t : ControlBlock) → (toggle_bank t).unverified ≡ t.unverified
unfolding toggle_bank
toggled_armed t = refl

toggled_attempts : (t : ControlBlock) → (toggle_bank t).boot_attempts ≡ 0
unfolding toggle_bank
toggled_attempts t = refl

step-Unconfirmed :
    (k : ℕ) (bank : BootBank) (t : ControlBlock)
    → Unconfirmed k bank t
    → Unconfirmed (suc k) bank (boot_bank_record_boot_attempt t).1
step-Unconfirmed k bank t v =
    let counted = counted_suc t (omega (arith, v.attempts)) in
    elim (dec_lt (k % 3) 2) [
      | yes p ↦
          rw
            (attempt_counts t v.armed
              (lt→ltb (counted_attempt t) boot_max_attempts (omega (arith, counted, v.attempts))))
            (record {
              marked = v.marked;
              armed = v.armed;
              attempts = omega (arith, counted, v.attempts);
              boots_from = same_resolve t _ ∙ (v.boots_from ∙ sym (same_bank k bank p));
            })
      | no p ↦
          rw
            (attempt_toggles t v.armed
              (not_below (counted_attempt t) (omega (arith, counted, v.attempts))))
            (record {
              marked = toggled_mark t ∙ v.marked;
              armed = toggled_armed t ∙ v.armed;
              attempts = toggled_attempts t ∙ omega (arith, p);
              boots_from =
                  toggled_bank t v.marked ∙ (ap other_bank v.boots_from ∙ sym (flipped k bank p));
            })
    ]

-- After a block is armed, boots that nothing confirms count the attempts by three and change the
-- bank with each third one: the bank is the other one after 3, 4 and 5 boots, the first again after
-- 6, and so on, for any number of boots.
pub boots-Unconfirmed :
    (k : ℕ) (ctrl : ControlBlock)
    → ctrl.magic ≡ boot_ctrl_magic
    → Unconfirmed k (boot_bank_resolve (some ctrl)) (boots k (boot_bank_arm_unverified ctrl))
unfolding boots
boots-Unconfirmed zero ctrl m = record {
  marked = unfold boot_bank_arm_unverified in m;
  armed = unfold boot_bank_arm_unverified in refl;
  attempts = unfold boot_bank_arm_unverified in refl;
  boots_from = unfold boot_bank_resolve boot_bank_arm_unverified bank_after in refl;
}
boots-Unconfirmed (suc k) ctrl m = step-Unconfirmed k _ _ (boots-Unconfirmed k ctrl m)

unarmed :
    (ctrl : ControlBlock)
    → (boot_bank_record_boot_attempt (boot_bank_confirm_slot ctrl)).1 ≡ boot_bank_confirm_slot ctrl
unfolding boot_bank_record_boot_attempt boot_bank_confirm_slot boot_bank_is_unverified
unarmed ctrl = refl

-- A confirmed block boots from the same bank for ever.
pub boots-confirm_slot :
    (k : ℕ) (ctrl : ControlBlock)
    → boots k (boot_bank_confirm_slot ctrl) ≡ boot_bank_confirm_slot ctrl
unfolding boots boot_bank_confirm_slot
boots-confirm_slot zero ctrl = refl
boots-confirm_slot (suc k) ctrl =
    ap (λ t. (boot_bank_record_boot_attempt t).1) (boots-confirm_slot k ctrl) ∙ unarmed ctrl
