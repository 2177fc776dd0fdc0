-- ===== src/Boot/Jump.antt =====
-- The jump of the boot loader, firmware/src/bl_dual_image.c, and the calls of the firmware on the
-- control block, firmware/src/boot_bank_target.c. The flash is a parameter: what a read of the block
-- gives, what an erase and a write do to it, and the bytes of the banks. The digest is left out.
pub mod Safe
pub mod Cycles
use xiaomi_feeder_iv.Common.{
  ◌==◌, if◌then◌else◌, u32_max, ℕ, ◌-◌, Bool, true, false, not, ◌||◌, Option, none, some,
}
use xiaomi_feeder_iv.Boot.{
  BootBank, bank_a, bank_b, boot_ctrl_magic, boot_flag_a, boot_flag_b, boot_rolled_back_mark,
  cm4_base, ControlBlock, boot_bank_resolve, boot_bank_load_address, boot_bank_is_unverified,
  boot_bank_effective_boot_attempts, boot_bank_record_boot_attempt, boot_bank_arm_unverified,
  boot_bank_confirm_slot, Header, boot_bank_scan_vector_table,
}

abbrev pub rom_base : ℕ
rom_base = 0x08000000

-- `hal_flash_read`, `hal_flash_erase` and `hal_flash_write` at the place of the control block, with
-- what that place holds, and `hal_flash_read` of eight bytes at an offset.
pub record Flash : Type 0 where
  pub read_block : ControlBlock → Option ControlBlock
  pub erase : ControlBlock → Bool × ControlBlock
  pub write : ControlBlock → ControlBlock → Bool × ControlBlock
  pub read_header : ℕ → Option Header

-- `memset(&ctrl, 0xFF, sizeof(ctrl))`.
abbrev pub all_ones : ControlBlock
all_ones = record {
  magic = u32_max;
  active_flag = u32_max;
  unverified = u32_max;
  boot_attempts = 255;
  rolled_back = 255;
}

abbrev pub or_all_ones : Option ControlBlock → ControlBlock
or_all_ones none = all_ones
or_all_ones (some ctrl) = ctrl

abbrev pub flag_of : BootBank → ℕ
flag_of bank_a = boot_flag_a
flag_of bank_b = boot_flag_b

module _ (flash : Flash) where
  unfoldable pub bl_dual_image_read_ctrl : ControlBlock → Option ControlBlock
  bl_dual_image_read_ctrl cell = flash.read_block cell

  -- Whether it succeeded, and what the place holds then.
  unfoldable pub bl_dual_image_write_ctrl : ControlBlock → ControlBlock → Bool × ControlBlock
  bl_dual_image_write_ctrl ctrl cell =
      let erased = flash.erase cell in
      if not erased.0 then (false, erased.1) else flash.write ctrl erased.1

  unfoldable pub bl_dual_image_bank_valid : BootBank → Bool
  bl_dual_image_bank_valid bank =
      boot_bank_scan_vector_table (some flash.read_header) (boot_bank_load_address bank - rom_base)
        (boot_bank_load_address bank)

  unfoldable pub bl_dual_image_persist_bank : BootBank → ControlBlock → ControlBlock
  bl_dual_image_persist_bank bank cell =
      (bl_dual_image_write_ctrl
        (record (or_all_ones (bl_dual_image_read_ctrl cell)) {
          magic = boot_ctrl_magic;
          active_flag = flag_of bank;
        })
        cell).1

  unfoldable pub bl_dual_image_pick_bank : BootBank → BootBank → ControlBlock → ℕ × ControlBlock
  bl_dual_image_pick_bank preferred fallback cell =
      if bl_dual_image_bank_valid preferred
      then (boot_bank_load_address preferred, cell)
      else if bl_dual_image_bank_valid fallback
      then (boot_bank_load_address fallback, bl_dual_image_persist_bank fallback cell)
      else (cm4_base, cell)

  abbrev pub fallback_of : BootBank → BootBank
  fallback_of bank_a = bank_b
  fallback_of bank_b = bank_a

  -- Counting the attempt of an unverified block, with the write of the block.
  unfoldable pub counted_boot : ControlBlock → ControlBlock → ControlBlock × ControlBlock
  counted_boot ctrl cell =
      if boot_bank_is_unverified ctrl
      then (let ctrl' = (boot_bank_record_boot_attempt ctrl).1 in
          (ctrl', (bl_dual_image_write_ctrl ctrl' cell).1))
      else (ctrl, cell)

  unfoldable pub jump_from : Option ControlBlock → ControlBlock → ℕ × ControlBlock
  jump_from none cell = bl_dual_image_pick_bank bank_a bank_b cell
  jump_from (some ctrl) cell =
      let (ctrl', cell') = counted_boot ctrl cell in
      let preferred = boot_bank_resolve (some ctrl') in
      bl_dual_image_pick_bank preferred (fallback_of preferred) cell'

  -- The address to jump to, and the block that the flash holds then.
  unfoldable pub bl_dual_image_boot_addr : ControlBlock → ℕ × ControlBlock
  bl_dual_image_boot_addr cell = jump_from (bl_dual_image_read_ctrl cell) cell

  -- The running firmware.
  unfoldable pub boot_bank_write_ctrl : ControlBlock → ControlBlock → Bool × ControlBlock
  boot_bank_write_ctrl ctrl cell =
      let erased = flash.erase cell in
      if not erased.0 then (false, erased.1) else flash.write ctrl erased.1

  unfoldable pub boot_bank_query_active : ControlBlock → BootBank
  boot_bank_query_active cell = boot_bank_resolve (flash.read_block cell)

  unfoldable pub boot_bank_query_unverified : ControlBlock → Bool
  boot_bank_query_unverified cell = elim (flash.read_block cell) [
    | none ↦ false
    | some ctrl ↦ boot_bank_is_unverified ctrl
  ]

  unfoldable pub boot_bank_query_boot_attempts : ControlBlock → ℕ
  boot_bank_query_boot_attempts cell = elim (flash.read_block cell) [
    | none ↦ 0
    | some ctrl ↦ boot_bank_effective_boot_attempts ctrl.boot_attempts
  ]

  abbrev pub with_magic : ControlBlock → ControlBlock
  with_magic ctrl =
      if not (ctrl.magic == boot_ctrl_magic)
      then record ctrl { magic = boot_ctrl_magic; active_flag = boot_flag_a }
      else ctrl

  abbrev pub switched : ControlBlock → ControlBlock
  switched ctrl = record ctrl {
    active_flag = if ctrl.active_flag == boot_flag_b then boot_flag_a else boot_flag_b;
  }

  -- What a change of the block that was read answers, where 0 is `true`, and leaves in the flash.
  unfoldable pub update_block :
      (ControlBlock → ControlBlock) → Option ControlBlock → ControlBlock → Bool × ControlBlock
  update_block change none cell = (false, cell)
  update_block change (some ctrl) cell = boot_bank_write_ctrl (change ctrl) cell

  unfoldable pub boot_bank_switch_with_hash : ControlBlock → Bool × ControlBlock
  boot_bank_switch_with_hash cell =
      update_block (λ c. boot_bank_arm_unverified (switched (with_magic c))) (flash.read_block cell)
        cell

  unfoldable pub boot_bank_switch_active : ControlBlock → Bool × ControlBlock
  boot_bank_switch_active cell = boot_bank_switch_with_hash cell

  unfoldable pub boot_bank_take_rollback_mark : ControlBlock → Bool × ControlBlock
  boot_bank_take_rollback_mark cell = elim (flash.read_block cell) [
    | none ↦ (false, cell)
    | some ctrl ↦
        if not (ctrl.magic == boot_ctrl_magic) || not (ctrl.rolled_back == boot_rolled_back_mark)
        then (false, cell)
        else (true, (boot_bank_write_ctrl (record ctrl { rolled_back = 0 }) cell).1)
  ]

  unfoldable pub boot_bank_confirm_boot : ControlBlock → Bool × ControlBlock
  boot_bank_confirm_boot cell = update_block boot_bank_confirm_slot (flash.read_block cell) cell
