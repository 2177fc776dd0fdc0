-- ===== src/Examples/Feeding.antt =====
-- The theorems on the schedule and the calendar at a schedule of two slots.
use xiaomi_feeder_iv.Schedule.Command.Slots.{slot_commands-Answer}
use xiaomi_feeder_iv.Schedule.Command.Answer.{Answer, Saves, FailsToSave}
use xiaomi_feeder_iv.Schedule.Command.{
  cmd_not_found, cmd_nvdm_fail, schedule_cmd_delete, schedule_cmd_toggle, schedule_cmd_skip,
}
use mathlib.Core.Option
use xiaomi_feeder_iv.Common.{
  ◌==◌, if◌then◌else◌, ℕ, ◌+◌, ◌%◌, min, ◌≡◌, refl, ◌⊎◌, true, false, ◌&&◌, Option, none, some,
  List, [], ◌∷◌, ◌++◌, map, arith,
}
use xiaomi_feeder_iv.Common.Int.{pos}
use xiaomi_feeder_iv.Schedule.{
  SlotConfig, Entry, LocalTime, Schedule, schedule_minutes, fresh_runtime,
  schedule_init_slot_runtime,
}
use xiaomi_feeder_iv.Schedule.Sort.{lookup}
use xiaomi_feeder_iv.Schedule.Store.{
  nvdm_size, read_failed, ConfigPort, schedule_load_slots_binary, stored_config, schedule_init,
}
use xiaomi_feeder_iv.Schedule.Store.RoundTrip.{load-stored_config}
use xiaomi_feeder_iv.Schedule.Store.Safe.{schedule_init-IsWellFormed}
use xiaomi_feeder_iv.Schedule.Edit.{
  schedule_set_slot, schedule_delete_slot, flip_enabled, schedule_toggle_slot, schedule_skip_slot,
}
use xiaomi_feeder_iv.Schedule.Edit.Valid.{IsWellFormed}
use xiaomi_feeder_iv.Schedule.Edit.Keys.{lookup-set_slot, accepts, config_minutes, kept_runtime}
use xiaomi_feeder_iv.Schedule.Edit.Others.{with_skip, commands-IsWellFormed}
use xiaomi_feeder_iv.Schedule.Poll.{FireResult, fire_ok, dispense_ok, DispenseResult, schedule_poll}
use xiaomi_feeder_iv.Schedule.Poll.Due.{schedule_poll-calls, due_calls, looks_for_due, logged}
use xiaomi_feeder_iv.Schedule.Poll.Day.{polls-new_day, polls}
use xiaomi_feeder_iv.Schedule.Complete.{
  schedule_on_dispense_complete, after_result, names_active, on_dispense_complete-lookup,
}
use xiaomi_feeder_iv.Calendar.{
  days_from_civil, epoch_calendar_from_ymdhms, Civil, epoch_calendar_from_epoch,
  epoch_calendar_is_leap_year, epoch_calendar_days_in_month,
}
use xiaomi_feeder_iv.Calendar.RoundTrip.{IsCivil, from_epoch-from_ymdhms}
use xiaomi_feeder_iv.Calendar.Inverse.{Answers, from_epoch-Answers}

abbrev morning : SlotConfig
morning = record { hour = 7; min = 30; days = 127; g = 20; enabled = true }

abbrev evening : SlotConfig
evening = record { hour = 18; min = 0; days = 127; g = 25; enabled = true }

abbrev noon : SlotConfig
noon = record { hour = 12; min = 15; days = 31; g = 10; enabled = true }

abbrev two_slots : List Entry
two_slots =
    record { cfg = morning; rt = fresh_runtime } ∷ record { cfg = evening; rt = fresh_runtime } ∷ []

abbrev home : Schedule
home = record {
  slots = two_slots;
  global_enabled = true;
  today_enabled = true;
  active_valid = true;
  active_hour = 7;
  active_min = 30;
  last_yday = 3;
  last_hour = 7;
  last_min = 29;
  poll_clock_valid = true;
  changed = 0;
}

two_slots-IsWellFormed : IsWellFormed two_slots
two_slots-IsWellFormed = record {
  ranges = (
    record {
      hour_in = omega arith;
      min_in = omega arith;
      days_in = omega arith;
      g_in = (omega arith, omega arith);
    },
    (
      record {
        hour_in = omega arith;
        min_in = omega arith;
        days_in = omega arith;
        g_in = (omega arith, omega arith);
      },
      tt,
    ),
  );
  order = ((omega arith, tt), (tt, tt));
  bounded = omega arith;
}

abbrev half_past_seven : LocalTime
half_past_seven = record { day = 3; hour = 7; min = 30; wday_mon0 = 2 }

abbrev next_day : LocalTime
next_day = record { day = 4; hour = 0; min = 0; wday_mon0 = 3 }

-- A dispenser that takes every request and counts them.
feeds : ℕ → ℕ → ℕ → ℕ → FireResult × ℕ
feeds hour min g calls = (fire_ok, calls + 1)

-- A configuration port that keeps nothing and always answers.
abbrev keeps : Option ConfigPort
keeps = some (record {
  write_blob = some (λ blob. true);
  read_blob = some read_failed;
  write = some (λ text. true);
  read = none;
})

lookup-set_slot_example : lookup 735 (schedule_set_slot keeps noon home).0.slots ≡ (
    if accepts noon two_slots && config_minutes noon == 735
    then some (record { cfg = noon; rt = kept_runtime (lookup 735 two_slots) })
    else lookup 735 two_slots)
lookup-set_slot_example = lookup-set_slot keeps home two_slots-IsWellFormed noon 735

schedule_poll-calls_example :
    (schedule_poll (some (logged feeds)) (some half_past_seven) home ([], 0)).1.0
    ≡ [] ++ (if looks_for_due home half_past_seven then due_calls half_past_seven two_slots else [])
schedule_poll-calls_example = schedule_poll-calls feeds half_past_seven home [] 0

commands-IsWellFormed_example :
    IsWellFormed (schedule_set_slot keeps noon home).0.slots
    × IsWellFormed (schedule_delete_slot keeps 7 30 home).0.slots
    × IsWellFormed (schedule_toggle_slot keeps 7 30 home).0.slots
    × IsWellFormed (schedule_skip_slot 7 30 true home).0.slots
commands-IsWellFormed_example =
    commands-IsWellFormed keeps home noon 7 30 true two_slots-IsWellFormed

load-stored_config_example :
    schedule_load_slots_binary home nvdm_size (stored_config home)
    ≡ some (record home { slots = map schedule_init_slot_runtime two_slots })
load-stored_config_example = load-stored_config home two_slots-IsWellFormed home

schedule_init-IsWellFormed_example : IsWellFormed (schedule_init keeps home).slots
schedule_init-IsWellFormed_example = schedule_init-IsWellFormed keeps home

abbrev fed : DispenseResult
fed = record { hour = 7; min = 30; grams = pos 21; outcome = dispense_ok }

abbrev stale : DispenseResult
stale = record { hour = 8; min = 30; grams = pos 21; outcome = dispense_ok }

on_dispense_complete-lookup_example :
    let done = schedule_on_dispense_complete fed home in
    ((names_active fed home ≡ true)
      × (lookup 450 done.slots ≡ (
          if schedule_minutes 7 30 == 450
          then Option.map (after_result dispense_ok (pos 21)) (lookup 450 two_slots)
          else lookup 450 two_slots))
      × (done.active_valid ≡ false))
    ⊎ ((names_active fed home ≡ false) × (done ≡ home))
on_dispense_complete-lookup_example =
    on_dispense_complete-lookup fed home 450 two_slots-IsWellFormed (omega arith) (omega arith)
      (omega arith, omega arith)

slot_commands-Answer_example :
    Answer
      (λ _. none)
      (Saves keeps)
      (FailsToSave keeps)
      cmd_not_found
      7
      30
      home
      (schedule_cmd_delete keeps 7 30 home)
    × Answer
        (Option.map flip_enabled)
        (Saves keeps)
        (FailsToSave keeps)
        cmd_nvdm_fail
        7
        30
        home
        (schedule_cmd_toggle keeps 7 30 home)
    × Answer
        (Option.map (with_skip true))
        (λ _. Unit)
        (λ _. ⊥)
        cmd_not_found
        7
        30
        home
        (schedule_cmd_skip 7 30 true home)
slot_commands-Answer_example = slot_commands-Answer keeps 7 30 home two_slots-IsWellFormed true

polls-new_day_example : (polls (some feeds) next_day 5 home 0).1 ≡ 0
polls-new_day_example =
    polls-new_day (some feeds) next_day 5 home 0 refl (λ e. absurd (omega (arith, e)))

abbrev leap_day : Civil
leap_day = record { year = 2024; month = 2; day = 29; hour = 23; min = 59; sec = 58; wday_sun0 = 0 }

leap_day-IsCivil : IsCivil leap_day
leap_day-IsCivil = record {
  year_in = (omega arith, omega arith);
  month_in = (omega arith, omega arith);
  day_in =
      (omega arith, unfold epoch_calendar_days_in_month epoch_calendar_is_leap_year in omega arith);
  hour_in = omega arith;
  min_in = omega arith;
  sec_in = omega arith;
}

from_epoch-from_ymdhms_example :
    epoch_calendar_from_epoch (epoch_calendar_from_ymdhms 2024 2 29 23 59 58 (pos 0))
    ≡ some (record leap_day { wday_sun0 = (days_from_civil 2024 2 29 + 4) % 7 })
from_epoch-from_ymdhms_example = from_epoch-from_ymdhms leap_day leap_day-IsCivil

from_epoch-Answers_example : Answers 1709251198 (epoch_calendar_from_epoch (pos 1709251198))
from_epoch-Answers_example = from_epoch-Answers 1709251198 (omega arith)
