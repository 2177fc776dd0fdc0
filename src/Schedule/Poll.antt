-- ===== src/Schedule/Poll.antt =====
-- The clock side of firmware/src/schedule.c: `schedule_poll` with what it calls, and
-- `schedule_on_dispense_complete`. The fire callback `fire` acts on a state of its own, `W`; `none`
-- is a callback that was never set. A poll without a valid local time is `now = none`.
pub mod Due
pub mod Day
use xiaomi_feeder_iv.Common.{
  ltb, ◌==◌, if◌then◌else◌, ℕ, ◌+◌, ◌-◌, ◌%◌, Bool, true, not, ◌&&◌, ◌||◌, Option, none, some, List,
  [], ◌∷◌, map,
}
use xiaomi_feeder_iv.Common.Int.{ℤ, pos, negsuc, pos_part, neg_part}
use xiaomi_feeder_iv.Schedule.{
  SlotState, skipped, skipped_full, dispensing, dispensed, failed, Entry, LocalTime, Schedule,
  schedule_minutes, entry_minutes, schedule_notify_changed, schedule_reset_runtime,
  schedule_slot_applies_today, is_settled, set_state, schedule_refresh_entry_state,
}

pub data FireResult : Type 0 where
  fire_ok fire_busy fire_rejected fire_skipped_full : FireResult

pub data DispenseOutcome : Type 0 where
  dispense_ok dispense_underfill dispense_failed : DispenseOutcome

-- `schedule_dispense_result_t`.
pub record DispenseResult : Type 0 where
  pub hour : ℕ
  pub min : ℕ
  pub grams : ℤ
  pub outcome : DispenseOutcome

unfoldable pub mark_missed : Bool → ℕ → ℕ → Entry → Entry
mark_missed global_enabled now_min wday_mon0 e =
    if not e.cfg.enabled || not global_enabled || not (schedule_slot_applies_today e.cfg wday_mon0)
    then e
    else if e.rt.fired_today || e.rt.skip_today
    then e
    else if ltb (entry_minutes e) now_min && not (is_settled e.rt.state)
    then set_state e skipped
    else e

unfoldable pub schedule_mark_missed_before : ℕ → ℕ → Schedule → Schedule
unfolding mark_missed
schedule_mark_missed_before now_min wday_mon0 s = record s {
  slots = map (mark_missed s.global_enabled now_min wday_mon0) s.slots;
}

-- The three tests that an entry passes before the callback is called for it.
unfoldable pub is_due : LocalTime → Entry → Bool
is_due now e =
    not (not e.cfg.enabled || e.rt.skip_today || e.rt.fired_today)
    && schedule_slot_applies_today e.cfg now.wday_mon0
    && not (not (e.cfg.hour == now.hour) || not (e.cfg.min == now.min))

-- What the loop of `schedule_try_fire_current` changes beside the entries.
pub record Fired (W : Type 0) : Type 0 where
  pub world : W
  pub active_valid : Bool
  pub active_hour : ℕ
  pub active_min : ℕ
  pub changed : ℕ

module _ {W : Type 0} where
  -- The callback's answer at one entry.
  unfoldable pub apply_fire : FireResult × W → Entry → Fired W → Entry × Fired W
  apply_fire (fire_ok, w) e a = (
    record e { rt = record (e.rt) { fired_today = true; state = dispensing } },
    record {
      world = w;
      active_valid = true;
      active_hour = e.cfg.hour;
      active_min = e.cfg.min;
      changed = a.changed + 1;
    },
  )
  apply_fire (fire_skipped_full, w) e a = (
    record e { rt = record (e.rt) { fired_today = true; state = skipped_full } },
    record a { world = w; changed = a.changed + 1 },
  )
  apply_fire (fire_busy, w) e a = (e, record a { world = w })
  apply_fire (fire_rejected, w) e a = (e, record a { world = w })

  unfoldable pub fire_entry :
      (ℕ → ℕ → ℕ → W → FireResult × W) → LocalTime → Entry → Fired W → Entry × Fired W
  unfolding apply_fire is_due
  fire_entry fire now e a =
      if is_due now e then apply_fire (fire e.cfg.hour e.cfg.min e.cfg.g a.world) e a else (e, a)

  pub fire_entries :
      (ℕ → ℕ → ℕ → W → FireResult × W) → LocalTime → List Entry → Fired W → List Entry × Fired W
  fire_entries fire now [] a = ([], a)
  fire_entries fire now (e ∷ es) a =
      let (e', a') = fire_entry fire now e a in
      let (es', a'') = fire_entries fire now es a' in (e' ∷ es', a'')

  abbrev pub settle_fired : Schedule → List Entry × Fired W → Schedule × W
  settle_fired s (es, a) = (
    record s {
      slots = es;
      active_valid = a.active_valid;
      active_hour = a.active_hour;
      active_min = a.active_min;
      changed = a.changed;
    },
    a.world,
  )

  unfoldable pub schedule_try_fire_current :
      Option (ℕ → ℕ → ℕ → W → FireResult × W) → LocalTime → Schedule → W → Schedule × W
  schedule_try_fire_current none now s w = (s, w)
  schedule_try_fire_current (some fire) now s w =
      if not s.global_enabled || not s.today_enabled
      then (s, w)
      else settle_fired s (
          fire_entries fire now s.slots (record {
            world = w;
            active_valid = s.active_valid;
            active_hour = s.active_hour;
            active_min = s.active_min;
            changed = s.changed;
          }))

abbrev pub stamp : LocalTime → Schedule → Schedule
stamp now s = record s { last_yday = now.day; last_hour = now.hour; last_min = now.min }

abbrev pub now_minutes : LocalTime → ℕ
now_minutes now = schedule_minutes now.hour now.min

-- The loop at the end of `schedule_poll`.
unfoldable pub refresh_all : LocalTime → Schedule → Schedule
refresh_all now s = record s {
  slots =
      map
        (λ e.
          schedule_refresh_entry_state s.today_enabled now.wday_mon0
            (ltb (now_minutes now) (entry_minutes e)) e)
        s.slots;
}

module _ {W : Type 0} where
  -- The three branches of `schedule_poll`: the first poll, a new day, and the same day.
  unfoldable pub poll_clock :
      Option (ℕ → ℕ → ℕ → W → FireResult × W) → LocalTime → Schedule → W → Schedule × W
  poll_clock fire now s w =
      if not s.poll_clock_valid
      then schedule_try_fire_current fire now
          (record (stamp now (schedule_mark_missed_before (now_minutes now) now.wday_mon0 s)) {
            poll_clock_valid = true;
          })
          w
      else if not (s.last_yday == now.day)
      then (schedule_notify_changed (stamp now (schedule_reset_runtime s)), w)
      else if not (s.last_hour == now.hour) || not (s.last_min == now.min)
      then (let (s', w') =
            schedule_try_fire_current fire now
              (record (schedule_mark_missed_before (now_minutes now) now.wday_mon0 s) {
                last_hour = now.hour;
                last_min = now.min;
              })
              w in
          (schedule_notify_changed s', w'))
      else (s, w)

  unfoldable pub schedule_poll :
      Option (ℕ → ℕ → ℕ → W → FireResult × W) → Option LocalTime → Schedule → W → Schedule × W
  unfolding poll_clock refresh_all
  schedule_poll fire none s w = (s, w)
  schedule_poll fire (some now) s w =
      let (s', w') = poll_clock fire now s w in (refresh_all now s', w')

-- `(int16_t)grams`: the low 16 bits, read as a signed number.
unfoldable pub to_int16 : ℤ → ℤ
to_int16 z =
    let low = (pos_part z + 65536 - neg_part z % 65536) % 65536 in
    if ltb low 32768 then pos low else negsuc (65535 - low)

abbrev pub completed_state : DispenseOutcome → SlotState
completed_state dispense_ok = dispensed
completed_state dispense_underfill = dispensed
completed_state dispense_failed = failed

unfoldable pub schedule_active_slot : Schedule → Option (ℕ × ℕ)
schedule_active_slot s = if not s.active_valid then none else some (s.active_hour, s.active_min)
