-- ===== src/Schedule/Poll/Day.antt =====
-- What a poll leaves alone, and what happens at the turn of the day.
use mathlib.Core.Path.{ap₂}
use xiaomi_feeder_iv.Common.{
  ℕ, zero, suc, ◌≡◌, refl, ◌∙◌, ◌≢◌, Bool, true, Option, none, some, List, [], ◌∷◌, map, arith,
}
use xiaomi_feeder_iv.Schedule.{
  SlotConfig, Entry, LocalTime, Schedule, schedule_refresh_entry_state, schedule_init_slot_runtime,
}
use xiaomi_feeder_iv.Schedule.Poll.{
  FireResult, mark_missed, schedule_mark_missed_before, Fired, fire_entry, fire_entries,
  schedule_try_fire_current, poll_clock, schedule_poll, stamp, now_minutes,
}

abbrev pub config_of : Entry → SlotConfig
config_of e = e.cfg

map-config :
    (f : Entry → Entry) (es : List Entry)
    → ((e : Entry) → config_of (f e) ≡ config_of e)
    → map config_of (map f es) ≡ map config_of es
map-config f [] h = refl
map-config f (e ∷ es) h = ap₂ (λ x xs. x ∷ xs) (h e) (map-config f es h)

mark_missed-config :
    (g : Bool) (m w : ℕ) (e : Entry) → config_of (mark_missed g m w e) ≡ config_of e
unfolding mark_missed
mark_missed-config g m w e = ground arith

refresh-config :
    (t : Bool) (w : ℕ) (f : Bool) (e : Entry)
    → config_of (schedule_refresh_entry_state t w f e) ≡ config_of e
unfolding schedule_refresh_entry_state
refresh-config t w f e = ground arith

module _ {W : Type 0} (fire : ℕ → ℕ → ℕ → W → FireResult × W) (now : LocalTime) where
  fire_entry-config :
      (e : Entry) (a : Fired W) → config_of (fire_entry fire now e a).0 ≡ config_of e
  unfolding fire_entry
  fire_entry-config e a = ground arith

  fire_entries-config :
      (es : List Entry) (a : Fired W)
      → map config_of (fire_entries fire now es a).0 ≡ map config_of es
  unfolding fire_entries
  fire_entries-config [] a = refl
  fire_entries-config (e ∷ es) a =
      rw (fire_entry-config e a, fire_entries-config es (fire_entry fire now e a).1)

mark_missed_before-config :
    (now : LocalTime) (s : Schedule)
    → map config_of (map (mark_missed s.global_enabled (now_minutes now) now.wday_mon0) s.slots)
      ≡ map config_of s.slots
mark_missed_before-config now s =
    map-config _ s.slots (mark_missed-config s.global_enabled (now_minutes now) now.wday_mon0)

module _ {W : Type 0} (now : LocalTime) where
  try_fire-config :
      (fire : Option (ℕ → ℕ → ℕ → W → FireResult × W)) (s : Schedule) (w : W)
      → map config_of (schedule_try_fire_current fire now s w).0.slots ≡ map config_of s.slots
  unfolding schedule_try_fire_current
  try_fire-config none s w = refl
  try_fire-config (some f) s w = ground (
    arith,
    fire_entries-config f now s.slots (record {
      world = w;
      active_valid = s.active_valid;
      active_hour = s.active_hour;
      active_min = s.active_min;
      changed = s.changed;
    }),
  )

  poll_clock-config :
      (fire : Option (ℕ → ℕ → ℕ → W → FireResult × W)) (s : Schedule) (w : W)
      → map config_of (poll_clock fire now s w).0.slots ≡ map config_of s.slots
  unfolding poll_clock schedule_mark_missed_before
  poll_clock-config fire s w =
      let missed = schedule_mark_missed_before (now_minutes now) now.wday_mon0 s in
      ground (
        arith,
        mark_missed_before-config now s,
        map-config schedule_init_slot_runtime s.slots (λ e. refl),
        try_fire-config fire (record (stamp now missed) { poll_clock_valid = true }) w,
        try_fire-config fire (record missed { last_hour = now.hour; last_min = now.min }) w,
      )

-- A poll changes no slot's configuration, and neither adds nor removes nor moves a slot.
schedule_poll-config :
    {W : Type 0} (fire : Option (ℕ → ℕ → ℕ → W → FireResult × W)) (now : Option LocalTime)
    (s : Schedule) (w : W)
    → map config_of (schedule_poll fire now s w).0.slots ≡ map config_of s.slots
unfolding schedule_poll
schedule_poll-config fire none s w = refl
schedule_poll-config fire (some now) s w =
    map-config _ (poll_clock fire now s w).0.slots (λ e. refresh-config _ now.wday_mon0 _ e)
    ∙ poll_clock-config now fire s w

-- Polls in a minute that was polled before call nothing.
module _ {W : Type 0} (fire : Option (ℕ → ℕ → ℕ → W → FireResult × W)) (now : LocalTime) where
  pub record Seen (s : Schedule) : Type 0 where
    pub valid : s.poll_clock_valid ≡ true
    pub day_is : s.last_yday ≡ now.day
    pub hour_is : s.last_hour ≡ now.hour
    pub min_is : s.last_min ≡ now.min

  pub polls : ℕ → Schedule → W → Schedule × W
  polls zero s w = (s, w)
  polls (suc n) s w = let (s', w') = schedule_poll fire (some now) s w in polls n s' w'

  Seen-poll :
      (s : Schedule) (w : W)
      → Seen s
      → Seen (schedule_poll fire (some now) s w).0 × ((schedule_poll fire (some now) s w).1 ≡ w)
  unfolding schedule_poll poll_clock
  Seen-poll s w h = (ground arith, ground arith)

  Seen-polls : (n : ℕ) (s : Schedule) (w : W) → Seen s → (polls n s w).1 ≡ w
  unfolding polls
  Seen-polls zero s w h = refl
  Seen-polls (suc n) s w h = let (h', e) = Seen-poll s w h in Seen-polls n _ _ h' ∙ e

  new_day-poll :
      (s : Schedule) (w : W)
      → s.poll_clock_valid ≡ true
      → s.last_yday ≢ now.day
      → Seen (schedule_poll fire (some now) s w).0 × ((schedule_poll fire (some now) s w).1 ≡ w)
  unfolding schedule_poll poll_clock
  new_day-poll s w v d = (ground arith, ground arith)

  -- However often the first minute of a new day is polled, the callback is never called, so a slot
  -- at that minute is not fed.
  pub polls-new_day :
      (n : ℕ) (s : Schedule) (w : W)
      → s.poll_clock_valid ≡ true
      → s.last_yday ≢ now.day
      → (polls n s w).1 ≡ w
  unfolding polls
  polls-new_day zero s w v d = refl
  polls-new_day (suc n) s w v d = let (h, e) = new_day-poll s w v d in Seen-polls n _ _ h ∙ e
