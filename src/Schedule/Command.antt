-- ===== src/Schedule/Command.antt =====
-- The commands of the console, the broker and the web pages on the schedule,
-- firmware/src/schedule_cmd.c, with the code that each answers. The texts of the broker's commands
-- are not read here.
pub mod Answer
pub mod Slots
use xiaomi_feeder_iv.Common.{
  ltb, if◌then◌else◌, eqb, ℕ, min, Bool, true, false, not, ◌||◌, Option, List, [], ◌∷◌,
}
use xiaomi_feeder_iv.Schedule.{
  schedule_g_min, schedule_g_max, SlotConfig, Entry, Schedule, same_key,
}
use xiaomi_feeder_iv.Schedule.Store.{ConfigPort}
use xiaomi_feeder_iv.Schedule.Edit.{
  schedule_set_slot, schedule_delete_slot, schedule_toggle_slot, schedule_skip_slot,
  schedule_set_global_enabled, schedule_set_today_enabled,
}

-- `schedule_cmd_result_t`.
pub data CmdResult : Type 0 where
  cmd_ok cmd_invalid cmd_not_found cmd_nvdm_fail cmd_unchanged : CmdResult

-- The loop over `schedule_get_slot`, which answers for each place below the count.
pub slot_in : ℕ → ℕ → List Entry → Bool
slot_in hour min [] = false
slot_in hour min (e ∷ es) =
    let rest = slot_in hour min es in if same_key hour min e then true else rest

unfoldable pub schedule_cmd_slot_exists : ℕ → ℕ → Schedule → Bool
schedule_cmd_slot_exists hour min s = slot_in hour min s.slots

unfoldable pub schedule_cmd_set : Option ConfigPort → SlotConfig → Schedule → Schedule × CmdResult
schedule_cmd_set port cfg s =
    if ltb 23 cfg.hour
      || ltb 59 cfg.min
      || ltb 127 cfg.days
      || ltb cfg.g schedule_g_min
      || ltb schedule_g_max cfg.g
    then (s, cmd_invalid)
    else (let done = schedule_set_slot port cfg s in
        (done.0, if done.1 then cmd_ok else cmd_nvdm_fail))

-- What delete and toggle answer after the call that may fail.
unfoldable pub exists_or_not : ℕ → ℕ → Schedule × Bool → Schedule × CmdResult
exists_or_not hour min (s, true) = (s, cmd_ok)
exists_or_not hour min (s, false) =
    (s, if schedule_cmd_slot_exists hour min s then cmd_nvdm_fail else cmd_not_found)

abbrev pub not_a_time : ℕ → ℕ → Bool
not_a_time hour min = ltb 23 hour || ltb 59 min

unfoldable pub schedule_cmd_delete : Option ConfigPort → ℕ → ℕ → Schedule → Schedule × CmdResult
schedule_cmd_delete port hour min s =
    if not_a_time hour min
    then (s, cmd_invalid)
    else exists_or_not hour min (schedule_delete_slot port hour min s)

unfoldable pub schedule_cmd_toggle : Option ConfigPort → ℕ → ℕ → Schedule → Schedule × CmdResult
schedule_cmd_toggle port hour min s =
    if not_a_time hour min
    then (s, cmd_invalid)
    else exists_or_not hour min (schedule_toggle_slot port hour min s)

unfoldable pub schedule_cmd_skip : ℕ → ℕ → Bool → Schedule → Schedule × CmdResult
schedule_cmd_skip hour min skip s =
    if not_a_time hour min
    then (s, cmd_invalid)
    else (let done = schedule_skip_slot hour min skip s in
        (done.0, if done.1 then cmd_ok else cmd_not_found))

unfoldable pub schedule_cmd_enable : Option ConfigPort → Bool → Schedule → Schedule × CmdResult
schedule_cmd_enable port enabled s =
    if eqb s.global_enabled enabled
    then (s, cmd_unchanged)
    else (let done = schedule_set_global_enabled port enabled s in
        (done.0, if done.1 then cmd_ok else cmd_nvdm_fail))

unfoldable pub schedule_cmd_today : Bool → Schedule → Schedule × CmdResult
schedule_cmd_today enabled s =
    if eqb s.today_enabled enabled
    then (s, cmd_unchanged)
    else (let done = schedule_set_today_enabled enabled s in
        (done.0, if done.1 then cmd_ok else cmd_nvdm_fail))
