-- ===== src/Boot/Jump/Safe.antt =====
-- The bank that the boot loader jumps to has a valid image, whatever the flash does.
use xiaomi_feeder_iv.Common.{Bool-cases, ℕ, ◌≡◌, refl, inl, inr, true, false, Option, none, some}
use xiaomi_feeder_iv.Boot.{BootBank, bank_a, bank_b, ControlBlock, boot_bank_load_address}
use xiaomi_feeder_iv.Boot.Jump.{
  Flash, bl_dual_image_read_ctrl, bl_dual_image_bank_valid, bl_dual_image_pick_bank, fallback_of,
  jump_from, bl_dual_image_boot_addr,
}

module _ (flash : Flash) where
  -- An address to jump to is that of a bank with a valid image, or that of bank A when neither bank
  -- has one.
  pub data SafeJump (address : ℕ) : Type 0 where
    to_valid :
        (bank : BootBank)
        → bl_dual_image_bank_valid flash bank ≡ true
        → address ≡ boot_bank_load_address bank
        → SafeJump address
    none_valid :
        ((bank : BootBank) → bl_dual_image_bank_valid flash bank ≡ false)
        → address ≡ boot_bank_load_address bank_a
        → SafeJump address

  both_invalid :
      (preferred : BootBank)
      → bl_dual_image_bank_valid flash preferred ≡ false
      → bl_dual_image_bank_valid flash (fallback_of flash preferred) ≡ false
      → (bank : BootBank) → bl_dual_image_bank_valid flash bank ≡ false
  both_invalid bank_a p q bank_a = p
  both_invalid bank_a p q bank_b = q
  both_invalid bank_b p q bank_a = q
  both_invalid bank_b p q bank_b = p

  pick_bank-SafeJump :
      (preferred : BootBank) (cell : ControlBlock)
      → SafeJump (bl_dual_image_pick_bank flash preferred (fallback_of flash preferred) cell).0
  unfolding bl_dual_image_pick_bank boot_bank_load_address
  pick_bank-SafeJump preferred cell =
      let fallback = fallback_of flash preferred in
      elim (Bool-cases (bl_dual_image_bank_valid flash preferred)) [
        | inl p ↦ rw p (to_valid preferred p refl)
        | inr p ↦ elim (Bool-cases (bl_dual_image_bank_valid flash fallback)) [
          | inl q ↦ rw (p, q) (to_valid fallback q refl)
          | inr q ↦ rw (p, q) (none_valid (both_invalid preferred p q) refl)
        ]
      ]

  jump_from-SafeJump :
      (read : Option ControlBlock) (cell : ControlBlock) → SafeJump (jump_from flash read cell).0
  unfolding jump_from
  jump_from-SafeJump none cell = pick_bank-SafeJump bank_a cell
  jump_from-SafeJump (some ctrl) cell = pick_bank-SafeJump _ _

  -- Whatever the flash answers and holds, the boot loader jumps to a bank whose image is valid, and to
  -- bank A if none is.
  pub boot_addr-SafeJump : (cell : ControlBlock) → SafeJump (bl_dual_image_boot_addr flash cell).0
  unfolding bl_dual_image_boot_addr
  boot_addr-SafeJump cell = jump_from-SafeJump (bl_dual_image_read_ctrl flash cell) cell
