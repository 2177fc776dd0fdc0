-- ===== src/Boot/Health.antt =====
-- The confirmation of a new image, firmware/src/ota_slot_health.c. The clock's ticks are arguments,
-- 60 s in ticks too; the configuration port is what its read of the boot count leaves in the buffer,
-- `none` for an error, and the text that is written is part of the result.
pub mod Confirm
use xiaomi_feeder_iv.Common.{
  leb, if◌then◌else◌, u32, ℕ, ◌+◌, Bool, true, false, not, Option, none, some, List, [], ◌∷◌,
}
use xiaomi_feeder_iv.Zone.Text.{strtoul}
use xiaomi_feeder_iv.Decimal.{decimal}
use xiaomi_feeder_iv.Boot.{ControlBlock}
use xiaomi_feeder_iv.Boot.Jump.{Flash, boot_bank_query_unverified, boot_bank_confirm_boot}

pub record SlotHealth : Type 0 where
  pub unverified : Bool
  pub timer_running : Bool
  pub deadline : ℕ

abbrev pub parsed_count : Option (ℕ × List ℕ) → ℕ
parsed_count none = 0
parsed_count (some (n, rest)) = n

abbrev pub stored_count : Option (List ℕ) → ℕ
stored_count none = 0
stored_count (some buf) = parsed_count (strtoul buf)

-- The text written; `count + 1u` wraps.
unfoldable pub ota_slot_health_increment_boot_count : Option (List ℕ) → List ℕ
ota_slot_health_increment_boot_count read = decimal (u32 (stored_count read + 1))

unfoldable pub ota_slot_health_clear_boot_count : List ℕ
ota_slot_health_clear_boot_count = 48 ∷ []

-- What a poll answers, the new state, the block in the flash and the text written.
pub record Polled : Type 0 where
  pub answer : ℕ
  pub health : SlotHealth
  pub cell : ControlBlock
  pub written : Option (List ℕ)

module _ (flash : Flash) where
  unfoldable pub ota_slot_health_on_boot :
      ℕ → ℕ → Option (List ℕ) → ControlBlock → SlotHealth × Option (List ℕ)
  ota_slot_health_on_boot confirm_ticks now read cell =
      if not (boot_bank_query_unverified flash cell)
      then (record { unverified = false; timer_running = false; deadline = 0 }, none)
      else (
        record { unverified = true; timer_running = true; deadline = u32 (now + confirm_ticks) },
        some (ota_slot_health_increment_boot_count read),
      )

  unfoldable pub after_confirm : SlotHealth → Bool × ControlBlock → Polled
  after_confirm h (false, cell) = record { answer = 0; health = h; cell = cell; written = none }
  after_confirm h (true, cell) = record {
    answer = 0;
    health = record h { unverified = false };
    cell = cell;
    written = some ota_slot_health_clear_boot_count;
  }

  unfoldable pub ota_slot_health_poll_ms : ℕ → SlotHealth → ControlBlock → Polled
  ota_slot_health_poll_ms now h cell =
      if not h.timer_running
      then record { answer = 0; health = h; cell = cell; written = none }
      else if leb h.deadline now
      then after_confirm (record h { timer_running = false }) (boot_bank_confirm_boot flash cell)
      else record { answer = 1000; health = h; cell = cell; written = none }
