-- ===== src/Schedule/Store.antt =====
-- The stored form of the schedule, firmware/inc/schedule_nvdm.h, and how firmware/src/schedule.c
-- writes and reads it. The configuration port is an argument: a field that is `none` is a null
-- function pointer. A blob is the packed struct that its bytes spell; the reserved bytes are
-- written as 0 and never read.
pub mod RoundTrip
pub mod Safe
use Prim.Native.Nat.{bit_and}
use Prim.Native.String.{String}
use text.Mathlib.Text.{◌==◌ as str_eq}
use xiaomi_feeder_iv.Common.{
  leb, ◌==◌, if◌then◌else◌, length, take, replicate, u8, ℕ, ◌-◌, Bool, true, false, not, ◌&&◌, ◌||◌,
  Option, none, some, List, [], ◌∷◌, ◌++◌, map, zero,
}
use xiaomi_feeder_iv.Schedule.{
  schedule_max_slots, schedule_g_min, schedule_g_max, Entry, Schedule, schedule_sort_slots,
  fresh_runtime, schedule_test_reset,
}

abbrev pub nvdm_magic : ℕ
nvdm_magic = 0x49463153

abbrev pub nvdm_version : ℕ
nvdm_version = 1

abbrev pub flag_enabled : ℕ
flag_enabled = 1

-- `sizeof(schedule_nvdm_config_t)`: 8 bytes and 32 slots of 5.
abbrev pub nvdm_size : ℕ
nvdm_size = 168

pub record NvdmSlot : Type 0 where
  pub hour : ℕ
  pub min : ℕ
  pub days : ℕ
  pub g : ℕ
  pub flags : ℕ

pub record NvdmConfig : Type 0 where
  pub magic : ℕ
  pub version : ℕ
  pub count : ℕ
  pub slots : List NvdmSlot

-- What a read of the blob gives: an error, or its length and its content.
pub data BlobRead : Type 0 where
  read_failed : BlobRead
  read_ok : ℕ → NvdmConfig → BlobRead

pub record ConfigPort : Type 0 where
  pub write_blob : Option (NvdmConfig → Bool)
  pub read_blob : Option BlobRead
  pub write : Option (String → Bool)
  pub read : Option (Option String)

unfoldable pub schedule_nvdm_slot_valid : NvdmSlot → Bool
schedule_nvdm_slot_valid src =
    leb src.hour 23
    && leb src.min 59
    && leb src.days 127
    && leb schedule_g_min src.g
    && leb src.g schedule_g_max
    && bit_and src.flags 254 == 0

pub all_slots_valid : List NvdmSlot → Bool
unfolding schedule_nvdm_slot_valid
all_slots_valid [] = true
all_slots_valid (x ∷ xs) = schedule_nvdm_slot_valid x && all_slots_valid xs

-- The inner loop of the check for two slots with one key.
pub key_in : NvdmSlot → List NvdmSlot → Bool
key_in x [] = false
key_in x (y ∷ ys) = (x.hour == y.hour) && (x.min == y.min) || key_in x ys

pub keys_differ : List NvdmSlot → Bool
unfolding key_in
keys_differ [] = true
keys_differ (x ∷ xs) = not (key_in x xs) && keys_differ xs

unfoldable pub schedule_nvdm_config_valid : NvdmConfig → Bool
unfolding all_slots_valid keys_differ
schedule_nvdm_config_valid stored =
    stored.magic == nvdm_magic
    && stored.version == nvdm_version
    && leb stored.count schedule_max_slots
    && all_slots_valid (take stored.count stored.slots)
    && keys_differ (take stored.count stored.slots)

abbrev pub of_nvdm : NvdmSlot → Entry
of_nvdm src = record {
  cfg = record {
    hour = src.hour;
    min = src.min;
    days = src.days;
    g = src.g;
    enabled = not (bit_and src.flags flag_enabled == 0);
  };
  rt = fresh_runtime;
}

-- `none` is the answer false, which leaves the slots as they were.
unfoldable pub schedule_load_slots_binary : Schedule → ℕ → NvdmConfig → Option Schedule
unfolding schedule_sort_slots
schedule_load_slots_binary s blob_len stored =
    if not (blob_len == nvdm_size)
    then none
    else if not (schedule_nvdm_config_valid stored)
    then none
    else some
        (schedule_sort_slots (record s { slots = map of_nvdm (take stored.count stored.slots) }))

abbrev pub schedule_reset_slots_ram : Schedule → Schedule
schedule_reset_slots_ram s = record s { slots = [] }

abbrev pub to_nvdm : Entry → NvdmSlot
to_nvdm e = record {
  hour = e.cfg.hour;
  min = e.cfg.min;
  days = e.cfg.days;
  g = e.cfg.g;
  flags = if e.cfg.enabled then flag_enabled else 0;
}

abbrev pub zero_slot : NvdmSlot
zero_slot = record { hour = 0; min = 0; days = 0; g = 0; flags = 0 }

-- The struct that `schedule_save_slots_blob` fills: the places past the slots stay zero.
unfoldable pub stored_config : Schedule → NvdmConfig
stored_config s = record {
  magic = nvdm_magic;
  version = nvdm_version;
  count = u8 (length s.slots);
  slots = map to_nvdm s.slots ++ replicate (schedule_max_slots - length s.slots) zero_slot;
}

unfoldable pub schedule_save_slots_blob : Option ConfigPort → Schedule → Bool
unfolding stored_config
schedule_save_slots_blob none s = false
schedule_save_slots_blob (some port) s = elim (port.write_blob) [
  | none ↦ false
  | some write ↦ write (stored_config s)
]

unfoldable pub schedule_save_global_enabled : Option ConfigPort → Schedule → Bool
schedule_save_global_enabled none s = false
schedule_save_global_enabled (some port) s = elim (port.write) [
  | none ↦ false
  | some write ↦ write (if s.global_enabled then "1" else "0")
]

abbrev pub load_or_reset : Schedule → Option Schedule → Schedule
load_or_reset s none = schedule_reset_slots_ram s
load_or_reset s (some s') = s'

abbrev pub load_read : Schedule → BlobRead → Schedule
load_read s read_failed = s
load_read s (read_ok blob_len stored) =
    if blob_len == 0 then s else load_or_reset s (schedule_load_slots_binary s blob_len stored)

abbrev pub load_answer : Schedule → Option BlobRead → Schedule
load_answer s none = schedule_reset_slots_ram s
load_answer s (some answer) = load_read (schedule_reset_slots_ram s) answer

-- A blob that is refused is also overwritten by an empty one, whose answer is ignored.
unfoldable pub schedule_load_slots_blob : Option ConfigPort → Schedule → Schedule
unfolding schedule_load_slots_binary
schedule_load_slots_blob none s = schedule_reset_slots_ram s
schedule_load_slots_blob (some port) s = load_answer s port.read_blob

abbrev global_of : Option (Option String) → Bool
global_of none = true
global_of (some none) = true
global_of (some (some value)) = not (str_eq value "0")

unfoldable pub schedule_load_global_enabled : Option ConfigPort → Schedule → Schedule
schedule_load_global_enabled none s = record s { global_enabled = true }
schedule_load_global_enabled (some port) s = record s { global_enabled = global_of port.read }

unfoldable pub schedule_init : Option ConfigPort → Schedule → Schedule
unfolding schedule_load_slots_blob schedule_load_global_enabled
schedule_init port s =
    schedule_load_slots_blob port (schedule_load_global_enabled port (schedule_test_reset s))
