-- ===== src/Schedule.antt =====
-- The feeding schedule, firmware/src/schedule.c with firmware/inc/schedule.h.
-- The statics are the fields of `Schedule`. `slots` is the used part of `s_slots`: places from
-- `s_slot_count` on are never read, and each is written whole before it counts.
-- Calls of `s_changed_fn` are counted in `changed`; the fire callback is an argument, and threads
-- a state of its own. The configuration store's answers are arguments too.
pub mod Sort
pub mod Store
pub mod Edit
pub mod Command
pub mod Poll
pub mod Complete
pub mod Next
use Prim.Native.Nat.{bit_and}
use mathlib.Core.List.{reverse}
use xiaomi_feeder_iv.Common.{
  leb, ◌==◌, if◌then◌else◌, u8, ℕ, ◌+◌, ◌*◌, ◌^◌, Bool, true, false, not, ◌&&◌, Option, none, some,
  List, [], ◌∷◌, map,
}
use xiaomi_feeder_iv.Common.Int.{ℤ, negsuc}

abbrev pub schedule_max_slots : ℕ
schedule_max_slots = 32

abbrev pub schedule_g_min : ℕ
schedule_g_min = 5

abbrev pub schedule_g_max : ℕ
schedule_g_max = 150

pub data SlotState : Type 0 where
  pending to_be_skipped skipped skipped_full dispensing dispensed failed : SlotState

-- `schedule_slot_config_t`; the numbers are uint8_t.
pub record SlotConfig : Type 0 where
  pub hour : ℕ
  pub min : ℕ
  pub days : ℕ
  pub g : ℕ
  pub enabled : Bool

-- `schedule_slot_runtime_t`; `g_actual` is an int16_t.
pub record SlotRuntime : Type 0 where
  pub state : SlotState
  pub skip_today : Bool
  pub g_actual : ℤ
  pub fired_today : Bool

pub record Entry : Type 0 where
  pub cfg : SlotConfig
  pub rt : SlotRuntime

-- `time_local_t`, as far as the schedule reads it.
pub record LocalTime : Type 0 where
  pub day : ℕ
  pub hour : ℕ
  pub min : ℕ
  pub wday_mon0 : ℕ

pub record Schedule : Type 0 where
  pub slots : List Entry
  pub global_enabled : Bool
  pub today_enabled : Bool
  pub active_valid : Bool
  pub active_hour : ℕ
  pub active_min : ℕ
  pub last_yday : ℕ
  pub last_hour : ℕ
  pub last_min : ℕ
  pub poll_clock_valid : Bool
  pub changed : ℕ

-- The product and the sum fit a uint16_t, as both arguments are uint8_t.
abbrev pub schedule_minutes : ℕ → ℕ → ℕ
schedule_minutes hour min = hour * 60 + min

abbrev pub entry_minutes : Entry → ℕ
entry_minutes e = schedule_minutes e.cfg.hour e.cfg.min

abbrev pub same_key : ℕ → ℕ → Entry → Bool
same_key hour min e = (e.cfg.hour == hour) && (e.cfg.min == min)

-- The loop of `schedule_find_index` at place i; `none` is the answer -1.
pub find_from : ℕ → ℕ → ℕ → List Entry → Option ℕ
find_from hour min i [] = none
find_from hour min i (e ∷ es) =
    let rest = find_from hour min (i + 1) es in if same_key hour min e then some i else rest

unfoldable pub schedule_find_index : Schedule → ℕ → ℕ → Option ℕ
schedule_find_index s hour min = find_from hour min 0 s.slots

abbrev pub schedule_notify_changed : Schedule → Schedule
schedule_notify_changed s = record s { changed = s.changed + 1 }

-- The inner loop of `schedule_sort_slots`: the sorted part is walked from its end, so it is kept
-- with its last entry first, and `key` is put behind the first entry that is not later.
pub shift_back : Entry → List Entry → List Entry
shift_back key [] = key ∷ []
shift_back key (prev ∷ done) =
    let rest = prev ∷ shift_back key done in
    if leb (entry_minutes prev) (entry_minutes key) then key ∷ prev ∷ done else rest

-- The outer loop: `done` is what stands before place i, last first.
pub sort_from : List Entry → List Entry → List Entry
sort_from done [] = reverse done
sort_from done (key ∷ todo) = sort_from (shift_back key done) todo

unfoldable pub schedule_sort_slots : Schedule → Schedule
schedule_sort_slots s = record s { slots = sort_from [] s.slots }

abbrev pub fresh_runtime : SlotRuntime
fresh_runtime = record {
  state = pending;
  skip_today = false;
  g_actual = negsuc 0;
  fired_today = false;
}

abbrev pub schedule_init_slot_runtime : Entry → Entry
schedule_init_slot_runtime e = record e { rt = fresh_runtime }

abbrev pub schedule_reset_runtime : Schedule → Schedule
schedule_reset_runtime s = record s {
  slots = map schedule_init_slot_runtime s.slots;
  today_enabled = true;
  active_valid = false;
}

-- `days & (1 << wday)`. The caller passes a weekday below 7.
unfoldable pub schedule_slot_applies_today : SlotConfig → ℕ → Bool
schedule_slot_applies_today cfg wday_mon0 =
    not (cfg.days == 0) && not (bit_and cfg.days (u8 (2 ^ wday_mon0)) == 0)

-- The states that a poll leaves alone.
abbrev pub is_settled : SlotState → Bool
is_settled dispensing = true
is_settled dispensed = true
is_settled failed = true
is_settled skipped_full = true
is_settled _ = false

abbrev pub is_skip : SlotState → Bool
is_skip skipped = true
is_skip to_be_skipped = true
is_skip _ = false

abbrev pub set_state : Entry → SlotState → Entry
set_state e st = record e { rt = record (e.rt) { state = st } }

unfoldable pub schedule_refresh_entry_state : Bool → ℕ → Bool → Entry → Entry
schedule_refresh_entry_state today_enabled wday_mon0 future_today e =
    if is_settled e.rt.state
    then e
    else if e.rt.skip_today
    then set_state e (if future_today then to_be_skipped else skipped)
    else if not today_enabled && future_today && schedule_slot_applies_today e.cfg wday_mon0
    then set_state e skipped
    else if is_skip e.rt.state
    then e
    else set_state e pending

-- The remaining statics keep their values; the callbacks, which it clears, are arguments here.
abbrev pub schedule_test_reset : Schedule → Schedule
schedule_test_reset s = record s {
  slots = [];
  global_enabled = true;
  today_enabled = true;
  active_valid = false;
  poll_clock_valid = false;
}
