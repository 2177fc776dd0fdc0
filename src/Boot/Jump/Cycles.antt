-- ===== src/Boot/Jump/Cycles.antt =====
-- The boot loader over many starts, on a flash that works, with a valid image in each bank.
use xiaomi_feeder_iv.Common.{
  if◌then◌else◌, Bool-cases, ℕ, zero, suc, ◌≡◌, refl, ap, ◌∙◌, inl, inr, Bool, true, false, not,
  some, arith,
}
use xiaomi_feeder_iv.Boot.{
  BootBank, boot_ctrl_magic, ControlBlock, boot_bank_resolve, boot_bank_load_address,
  boot_bank_is_unverified, boot_bank_record_boot_attempt, boot_bank_arm_unverified,
  boot_bank_confirm_slot,
}
use xiaomi_feeder_iv.Boot.Rollback.{
  boots, other_bank, bank_after, boots-Unconfirmed, boots-confirm_slot,
}
use xiaomi_feeder_iv.Boot.Jump.{
  Flash, all_ones, bl_dual_image_read_ctrl, bl_dual_image_write_ctrl, bl_dual_image_bank_valid,
  bl_dual_image_pick_bank, counted_boot, jump_from, bl_dual_image_boot_addr, boot_bank_write_ctrl,
  with_magic, switched, update_block, boot_bank_switch_with_hash, boot_bank_switch_active,
  boot_bank_confirm_boot,
}

-- A flash that works reads what it holds, erases to all ones, and programs erased places only.
pub record Works (flash : Flash) : Type 0 where
  pub reads : (cell : ControlBlock) → flash.read_block cell ≡ some cell
  pub erases : (cell : ControlBlock) → flash.erase cell ≡ (true, all_ones)
  pub writes : (ctrl : ControlBlock) → flash.write ctrl all_ones ≡ (true, ctrl)
  pub images : (bank : BootBank) → bl_dual_image_bank_valid flash bank ≡ true

verified :
    (cell : ControlBlock)
    → boot_bank_is_unverified cell ≡ false
    → (boot_bank_record_boot_attempt cell).1 ≡ cell
unfolding boot_bank_record_boot_attempt
verified cell e = rw e refl

last_boot :
    (k : ℕ) (t : ControlBlock)
    → boot_bank_resolve (some (boot_bank_record_boot_attempt (boots k t)).1)
      ≡ boot_bank_resolve (some (boots (suc k) t))
unfolding boots
last_boot k t = refl

module _ (flash : Flash) where
  -- What the flash holds after `k` starts of the boot loader alone.
  unfoldable pub starts : ℕ → ControlBlock → ControlBlock
  starts zero cell = cell
  starts (suc k) cell = (bl_dual_image_boot_addr flash (starts k cell)).1

  module _ (w : Works flash) where
    write_ctrl-writes :
        (ctrl cell : ControlBlock) → bl_dual_image_write_ctrl flash ctrl cell ≡ (true, ctrl)
    unfolding bl_dual_image_write_ctrl
    write_ctrl-writes ctrl cell = rw (w.erases cell) (w.writes ctrl)

    pick_preferred :
        (bank fallback : BootBank) (cell : ControlBlock)
        → bl_dual_image_pick_bank flash bank fallback cell ≡ (boot_bank_load_address bank, cell)
    unfolding bl_dual_image_pick_bank
    pick_preferred bank fallback cell = rw (w.images bank) refl

    -- The block of the boot loader and that of the flash agree, as if no attempt were written apart.
    counted_boot_lem :
        (cell : ControlBlock)
        → counted_boot flash cell cell
          ≡ ((boot_bank_record_boot_attempt cell).1, (boot_bank_record_boot_attempt cell).1)
    unfolding counted_boot
    counted_boot_lem cell = elim (Bool-cases (boot_bank_is_unverified cell)) [
      | inl e ↦ rw (e, write_ctrl-writes (boot_bank_record_boot_attempt cell).1 cell) refl
      | inr e ↦ rw (e, verified cell e) refl
    ]

    boot_addr-Works :
        (cell : ControlBlock)
        → let next = (boot_bank_record_boot_attempt cell).1 in
          bl_dual_image_boot_addr flash cell
          ≡ (boot_bank_load_address (boot_bank_resolve (some next)), next)
    unfolding bl_dual_image_boot_addr bl_dual_image_read_ctrl jump_from
    boot_addr-Works cell = rw (w.reads cell) (rw (counted_boot_lem cell) (pick_preferred _ _ _))

    starts_lem : (k : ℕ) (cell : ControlBlock) → starts k cell ≡ boots k cell
    unfolding starts boots
    starts_lem zero cell = refl
    starts_lem (suc k) cell =
        ap (λ (r : ℕ × ControlBlock). r.1) (boot_addr-Works (starts k cell))
        ∙ ap (λ t. (boot_bank_record_boot_attempt t).1) (starts_lem k cell)

    switched_bank :
        (cell : ControlBlock)
        → boot_bank_resolve (some (switched flash (with_magic flash cell)))
          ≡ other_bank (boot_bank_resolve (some cell))
    unfolding boot_bank_resolve other_bank
    switched_bank cell = ground arith

    switched_magic :
        (cell : ControlBlock) → (switched flash (with_magic flash cell)).magic ≡ boot_ctrl_magic
    switched_magic cell = ground arith

    update_block-Works :
        (change : ControlBlock → ControlBlock) (cell : ControlBlock)
        → (update_block flash change (flash.read_block cell) cell).1 ≡ change cell
    unfolding update_block boot_bank_write_ctrl
    update_block-Works change cell =
        ap (λ o. (update_block flash change o cell).1) (w.reads cell)
        ∙ ap
            (λ (r : Bool × ControlBlock).
              (if not r.0 then (false, r.1) else flash.write (change cell) r.1).1)
            (w.erases cell)
        ∙ ap (λ (r : Bool × ControlBlock). r.1) (w.writes (change cell))

    switch-Works :
        (cell : ControlBlock)
        → (boot_bank_switch_active flash cell).1
          ≡ boot_bank_arm_unverified (switched flash (with_magic flash cell))
    unfolding boot_bank_switch_active boot_bank_switch_with_hash
    switch-Works cell =
        update_block-Works (λ c. boot_bank_arm_unverified (switched flash (with_magic flash c)))
          cell

    -- On a flash that erases to all ones and programs erased places, with a valid image in each bank:
    -- after an update switches the bank, the first two starts jump to the new bank, the next three to the old one, and so on by three, as long
    -- as nothing confirms; whatever the block held.
    pub starts-switch :
        (k : ℕ) (cell : ControlBlock)
        → (bl_dual_image_boot_addr flash (starts k (boot_bank_switch_active flash cell).1)).0
          ≡ boot_bank_load_address (bank_after (suc k) (other_bank (boot_bank_resolve (some cell))))
    starts-switch k cell =
        let ctrl = switched flash (with_magic flash cell) in
        let armed : ControlBlock = boot_bank_arm_unverified ctrl in
        let u = boots-Unconfirmed (suc k) ctrl (switched_magic cell) in
        ap (λ t. (bl_dual_image_boot_addr flash (starts k t)).0) (switch-Works cell)
        ∙ ap (λ (r : ℕ × ControlBlock). r.0) (boot_addr-Works (starts k armed))
        ∙ ap
            (λ t.
              boot_bank_load_address (boot_bank_resolve (some (boot_bank_record_boot_attempt t).1)))
            (starts_lem k armed)
        ∙ ap boot_bank_load_address (last_boot k armed)
        ∙ ap boot_bank_load_address u.boots_from
        ∙ ap (λ b. boot_bank_load_address (bank_after (suc k) b)) (switched_bank cell)

    pub confirm-Works :
        (cell : ControlBlock) → (boot_bank_confirm_boot flash cell).1 ≡ boot_bank_confirm_slot cell
    unfolding boot_bank_confirm_boot
    confirm-Works cell = update_block-Works boot_bank_confirm_slot cell

    confirmed_bank :
        (cell : ControlBlock)
        → boot_bank_resolve (some (boot_bank_record_boot_attempt (boot_bank_confirm_slot cell)).1)
          ≡ boot_bank_resolve (some cell)
    unfolding boot_bank_record_boot_attempt boot_bank_confirm_slot boot_bank_is_unverified
        boot_bank_resolve
    confirmed_bank cell = refl

    -- On such a flash, after the firmware confirms its block, every later start jumps to the bank that
    -- the block names.
    pub starts-confirm :
        (k : ℕ) (cell : ControlBlock)
        → (bl_dual_image_boot_addr flash (starts k (boot_bank_confirm_boot flash cell).1)).0
          ≡ boot_bank_load_address (boot_bank_resolve (some cell))
    starts-confirm k cell =
        let slot = boot_bank_confirm_slot cell in
        ap (λ t. (bl_dual_image_boot_addr flash (starts k t)).0) (confirm-Works cell)
        ∙ ap (λ t. (bl_dual_image_boot_addr flash t).0)
            (starts_lem k slot ∙ boots-confirm_slot k cell)
        ∙ ap (λ (r : ℕ × ControlBlock). r.0) (boot_addr-Works slot)
        ∙ ap boot_bank_load_address (confirmed_bank cell)
