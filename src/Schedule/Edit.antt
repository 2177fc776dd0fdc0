-- ===== src/Schedule/Edit.antt =====
-- The commands that change the schedule: firmware/src/schedule.c, `schedule_set_slot` to
-- `schedule_set_today_enabled`. Each returns the new state and the C function's answer.
pub mod Shape
pub mod Valid
pub mod Keys
pub mod Others
use xiaomi_feeder_iv.Common.{
  leb, if◌then◌else◌, eqb, length, ℕ, zero, suc, min, Bool, true, false, not, ◌&&◌, Option, none,
  some, List, [], ◌∷◌, ◌++◌,
}
use xiaomi_feeder_iv.Schedule.{
  schedule_max_slots, schedule_g_min, schedule_g_max, SlotConfig, Entry, Schedule,
  schedule_find_index, schedule_notify_changed, schedule_sort_slots, fresh_runtime,
}
use xiaomi_feeder_iv.Schedule.Store.{
  ConfigPort, schedule_save_slots_blob, schedule_save_global_enabled,
}

-- `s_slots[i] = f(s_slots[i])`.
unfoldable pub modify : ℕ → (Entry → Entry) → List Entry → List Entry
modify i f [] = []
modify zero f (e ∷ es) = f e ∷ es
modify (suc i) f (e ∷ es) = e ∷ modify i f es

-- The loop of `schedule_delete_slot`: every later entry moves one place down.
pub remove : ℕ → List Entry → List Entry
remove i [] = []
remove zero (e ∷ es) = es
remove (suc i) (e ∷ es) = e ∷ remove i es

-- The end of every command on the slots: save, and report the change if that succeeded.
abbrev pub save_and_notify : Option ConfigPort → Schedule → Schedule × Bool
save_and_notify port s =
    if schedule_save_slots_blob port s then (schedule_notify_changed s, true) else (s, false)

unfoldable pub config_in_range : SlotConfig → Bool
config_in_range cfg =
    leb cfg.hour 23
    && leb cfg.min 59
    && leb cfg.days 127
    && leb schedule_g_min cfg.g
    && leb cfg.g schedule_g_max

unfoldable pub schedule_set_slot : Option ConfigPort → SlotConfig → Schedule → Schedule × Bool
unfolding schedule_find_index schedule_sort_slots
schedule_set_slot port cfg s =
    if not (config_in_range cfg)
    then (s, false)
    else elim (schedule_find_index s cfg.hour cfg.min) [
      | some index ↦ save_and_notify port (
          schedule_sort_slots
            (record s { slots = modify index (λ e. record e { cfg = cfg }) s.slots }))
      | none ↦
          if leb schedule_max_slots (length s.slots)
          then (s, false)
          else save_and_notify port (
              schedule_sort_slots
                (record s { slots = s.slots ++ record { cfg = cfg; rt = fresh_runtime } ∷ [] }))
    ]

unfoldable pub schedule_delete_slot : Option ConfigPort → ℕ → ℕ → Schedule → Schedule × Bool
unfolding schedule_find_index
schedule_delete_slot port hour min s = elim (schedule_find_index s hour min) [
  | none ↦ (s, false)
  | some index ↦ save_and_notify port (record s { slots = remove index s.slots })
]

abbrev pub flip_enabled : Entry → Entry
flip_enabled e = record e { cfg = record (e.cfg) { enabled = not e.cfg.enabled } }

unfoldable pub schedule_toggle_slot : Option ConfigPort → ℕ → ℕ → Schedule → Schedule × Bool
unfolding schedule_find_index
schedule_toggle_slot port hour min s = elim (schedule_find_index s hour min) [
  | none ↦ (s, false)
  | some index ↦ save_and_notify port (record s { slots = modify index flip_enabled s.slots })
]

unfoldable pub schedule_skip_slot : ℕ → ℕ → Bool → Schedule → Schedule × Bool
unfolding schedule_find_index
schedule_skip_slot hour min skip s = elim (schedule_find_index s hour min) [
  | none ↦ (s, false)
  | some index ↦ (
    schedule_notify_changed (record s {
      slots = modify index (λ e. record e { rt = record (e.rt) { skip_today = skip } }) s.slots;
    }),
    true,
  )
]

unfoldable pub schedule_set_global_enabled : Option ConfigPort → Bool → Schedule → Schedule × Bool
schedule_set_global_enabled port enabled s =
    let s' = record s { global_enabled = enabled } in
    if eqb s.global_enabled enabled
    then (s, true)
    else if schedule_save_global_enabled port s'
    then (schedule_notify_changed s', true)
    else (s', false)

unfoldable pub schedule_set_today_enabled : Bool → Schedule → Schedule × Bool
schedule_set_today_enabled enabled s =
    if eqb s.today_enabled enabled
    then (s, true)
    else (schedule_notify_changed (record s { today_enabled = enabled }), true)
