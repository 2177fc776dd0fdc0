-- ===== src/Boot.antt =====
-- Which of the two banks boots, firmware/src/boot_bank.c, with the addresses of
-- firmware/inc/memory_map.h and the marks of firmware/inc/boot_bank.h. A pointer that the code
-- tests for NULL is an `Option`.
pub mod Rollback
pub mod Scan
pub mod Jump
pub mod Health
use xiaomi_feeder_iv.Common.{
  ltb, leb, ◌==◌, if◌then◌else◌, u32, ℕ, zero, suc, ◌+◌, ◌*◌, ◌/◌, ◌%◌, Bool, true, false, not,
  ◌&&◌, ◌||◌, Option, none, some,
}

pub data BootBank : Type 0 where
  bank_a bank_b : BootBank

pub data BootAttemptResult : Type 0 where
  attempt_continue attempt_toggled : BootAttemptResult

abbrev pub boot_ctrl_magic : ℕ
boot_ctrl_magic = 0x4455414C

abbrev pub boot_flag_a : ℕ
boot_flag_a = 0xABCDDCBA

abbrev pub boot_flag_b : ℕ
boot_flag_b = 0x54322345

abbrev pub boot_max_attempts : ℕ
boot_max_attempts = 3

abbrev pub boot_rolled_back_mark : ℕ
boot_rolled_back_mark = 0xA5

abbrev pub cm4_base : ℕ
cm4_base = 0x08012000

abbrev pub cm4_length : ℕ
cm4_length = 0xEE000

abbrev pub bank_b_base : ℕ
bank_b_base = 0x08100000

abbrev pub tcm_base : ℕ
tcm_base = 0x04008000

abbrev pub tcm_length : ℕ
tcm_length = 0x10000

abbrev pub vsysram_base : ℕ
vsysram_base = 0x14200000

abbrev pub vsysram_length : ℕ
vsysram_length = 0x60000

abbrev pub boot_vector_scan_limit : ℕ
boot_vector_scan_limit = 0x10000

abbrev pub boot_vector_scan_step : ℕ
boot_vector_scan_step = 4

-- `boot_control_block_t`, less the digest and the reserved bytes, which this file never touches.
pub record ControlBlock : Type 0 where
  pub magic : ℕ
  pub active_flag : ℕ
  pub unverified : ℕ
  pub boot_attempts : ℕ
  pub rolled_back : ℕ

unfoldable pub boot_bank_resolve : Option ControlBlock → BootBank
boot_bank_resolve none = bank_a
boot_bank_resolve (some ctrl) =
    if not (ctrl.magic == boot_ctrl_magic)
    then bank_a
    else (if ctrl.active_flag == boot_flag_b then bank_b else bank_a)

unfoldable pub boot_bank_load_address : BootBank → ℕ
boot_bank_load_address bank_b = bank_b_base
boot_bank_load_address bank_a = cm4_base

unfoldable pub boot_bank_rom_length : BootBank → ℕ
boot_bank_rom_length bank = cm4_length

unfoldable pub boot_bank_is_unverified : ControlBlock → Bool
boot_bank_is_unverified ctrl = ctrl.unverified == 1

unfoldable pub boot_bank_effective_boot_attempts : ℕ → ℕ
boot_bank_effective_boot_attempts raw = if raw == 0xFF then 0 else raw

unfoldable pub counted_attempt : ControlBlock → ℕ
unfolding boot_bank_effective_boot_attempts
counted_attempt ctrl =
    let attempts = boot_bank_effective_boot_attempts ctrl.boot_attempts in
    if ltb attempts 255 then attempts + 1 else attempts

unfoldable pub toggle_bank : ControlBlock → ControlBlock
toggle_bank ctrl = record ctrl {
  boot_attempts = 0;
  active_flag = if ctrl.active_flag == boot_flag_b then boot_flag_a else boot_flag_b;
  rolled_back = boot_rolled_back_mark;
}

unfoldable pub boot_bank_record_boot_attempt : ControlBlock → BootAttemptResult × ControlBlock
boot_bank_record_boot_attempt ctrl =
    if not (boot_bank_is_unverified ctrl)
    then (attempt_continue, ctrl)
    else (if ltb (counted_attempt ctrl) boot_max_attempts
        then (attempt_continue, record ctrl { boot_attempts = counted_attempt ctrl })
        else (attempt_toggled, toggle_bank ctrl))

unfoldable pub boot_bank_arm_unverified : ControlBlock → ControlBlock
boot_bank_arm_unverified ctrl = record ctrl { unverified = 1; boot_attempts = 0 }

unfoldable pub boot_bank_confirm_slot : ControlBlock → ControlBlock
boot_bank_confirm_slot ctrl = record ctrl { unverified = 0; boot_attempts = 0 }

-- The eight bytes `hdr`, as the two little-endian words that the code builds.
pub record Header : Type 0 where
  pub b0 : ℕ
  pub b1 : ℕ
  pub b2 : ℕ
  pub b3 : ℕ
  pub b4 : ℕ
  pub b5 : ℕ
  pub b6 : ℕ
  pub b7 : ℕ

unfoldable pub word : ℕ → ℕ → ℕ → ℕ → ℕ
word b0 b1 b2 b3 = b0 + b1 * 0x100 + b2 * 0x10000 + b3 * 0x1000000

unfoldable pub stack_in_ram : ℕ → Bool
stack_in_ram sp =
    (leb vsysram_base sp && leb sp (vsysram_base + vsysram_length))
    || (leb tcm_base sp && leb sp (tcm_base + tcm_length))

unfoldable pub boot_bank_vector_table_valid : Header → ℕ → Bool
unfolding word stack_in_ram
boot_bank_vector_table_valid hdr rom_base =
    let sp = word hdr.b0 hdr.b1 hdr.b2 hdr.b3 in
    let reset = word hdr.b4 hdr.b5 hdr.b6 hdr.b7 in
    if not (stack_in_ram sp)
    then false
    else (if reset % 2 == 0
        then false
        else (if ltb reset rom_base || leb (u32 (rom_base + cm4_length)) reset
            then false
            else true))

-- The loop, `n` steps of four bytes from the offset `off`. `read` is the caller's flash access,
-- which gives no header when it reports an error.
unfoldable pub scan_from : (ℕ → Option Header) → ℕ → ℕ → ℕ → ℕ → Bool
scan_from read bank_rom_offset rom_base zero off = false
scan_from read bank_rom_offset rom_base (suc n) off =
    let rest = scan_from read bank_rom_offset rom_base n (off + boot_vector_scan_step) in
    elim (read (u32 (bank_rom_offset + off))) [
      | none ↦ false
      | some hdr ↦ if boot_bank_vector_table_valid hdr rom_base then true else rest
    ]

unfoldable pub boot_bank_scan_vector_table : Option (ℕ → Option Header) → ℕ → ℕ → Bool
unfolding scan_from
boot_bank_scan_vector_table none bank_rom_offset rom_base = false
boot_bank_scan_vector_table (some read) bank_rom_offset rom_base =
    scan_from read bank_rom_offset rom_base (boot_vector_scan_limit / boot_vector_scan_step) 0

unfoldable pub all_bytes : ℕ → Header → Bool
all_bytes b hdr =
    (hdr.b0 == b)
    && (hdr.b1 == b)
    && (hdr.b2 == b)
    && (hdr.b3 == b)
    && (hdr.b4 == b)
    && (hdr.b5 == b)
    && (hdr.b6 == b)
    && (hdr.b7 == b)

unfoldable pub boot_bank_image_header_valid : Header → ℕ → Bool
unfolding all_bytes word stack_in_ram
boot_bank_image_header_valid hdr rom_base =
    let sp = word hdr.b0 hdr.b1 hdr.b2 hdr.b3 in
    let reset = word hdr.b4 hdr.b5 hdr.b6 hdr.b7 in
    let first_insn = hdr.b0 + hdr.b1 * 0x100 in
    if all_bytes 0xFF hdr || all_bytes 0 hdr
    then false
    else (if stack_in_ram sp
          && not (reset % 2 == 0)
          && leb rom_base reset
          && ltb reset (u32 (rom_base + cm4_length))
        then true
        else (if (first_insn == 0xFFFF) || (first_insn == 0) then false else true))
