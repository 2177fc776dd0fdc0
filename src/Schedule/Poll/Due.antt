-- ===== src/Schedule/Poll/Due.antt =====
-- Which slots a poll fires, and how often: the callback is called for the due slots alone.
use mathlib.Core.List.{append-nil, append_assoc}
use xiaomi_feeder_iv.Common.{
  ◌==◌, if◌then◌else◌, length, All, ℕ, ◌≤◌, ◌<◌, min, ◌≡◌, refl, Bool, not, ◌&&◌, ◌||◌, some, List,
  [], ◌∷◌, ◌++◌, map, arith, Bool-cases, sym, ◌∙◌, inl, inr, true,
}
use xiaomi_feeder_iv.Schedule.{
  Entry, LocalTime, Schedule, entry_minutes, schedule_slot_applies_today,
}
use xiaomi_feeder_iv.Schedule.Sort.{Ascending, All-imp}
use xiaomi_feeder_iv.Schedule.Poll.{
  FireResult, mark_missed, schedule_mark_missed_before, is_due, Fired, fire_entry, fire_entries,
  schedule_try_fire_current, now_minutes, schedule_poll, stamp, poll_clock,
}

-- One call of the callback: the hour, the minute and the grams.
abbrev pub Call : Type 0
Call = ℕ × ℕ × ℕ

abbrev pub call_of : Entry → Call
call_of e = (e.cfg.hour, e.cfg.min, e.cfg.g)

-- A slot is due at its minute of each of its days, if it is enabled and neither skipped nor fed today.
unfoldable pub due_at : LocalTime → Entry → Bool
due_at now e =
    (e.cfg.hour == now.hour)
    && (e.cfg.min == now.min)
    && schedule_slot_applies_today e.cfg now.wday_mon0
    && e.cfg.enabled
    && not e.rt.skip_today
    && not e.rt.fired_today

-- The calls for the due slots of a list, in its order.
unfoldable pub due_calls : LocalTime → List Entry → List Call
due_calls now [] = []
due_calls now (e ∷ es) =
    let rest = due_calls now es in if due_at now e then call_of e ∷ rest else rest

-- The minutes at which a poll looks for due slots: the first one, and each later minute of a day
-- that an earlier poll has seen.
unfoldable pub looks_for_due : Schedule → LocalTime → Bool
looks_for_due s now =
    s.global_enabled
    && s.today_enabled
    && (not s.poll_clock_valid
        || s.last_yday == now.day && (not (s.last_hour == now.hour) || not (s.last_min == now.min)))

is_due-at : (now : LocalTime) (e : Entry) → is_due now e ≡ due_at now e
unfolding is_due due_at
is_due-at now e = ground arith

is_due-mark_missed :
    (global : Bool) (m w : ℕ) (now : LocalTime) (e : Entry)
    → due_at now (mark_missed global m w e) ≡ due_at now e
unfolding due_at mark_missed
is_due-mark_missed global m w now e = ground arith

call_of-mark_missed :
    (global : Bool) (m w : ℕ) (e : Entry) → call_of (mark_missed global m w e) ≡ call_of e
unfolding mark_missed
call_of-mark_missed global m w e = ground arith

due_calls-mark_missed :
    (global : Bool) (m w : ℕ) (now : LocalTime) (es : List Entry)
    → due_calls now (map (mark_missed global m w) es) ≡ due_calls now es
unfolding due_calls
due_calls-mark_missed global m w now [] = refl
due_calls-mark_missed global m w now (e ∷ es) = rw (
  is_due-mark_missed global m w now e,
  call_of-mark_missed global m w e,
  due_calls-mark_missed global m w now es,
)

module _ {W : Type 0} (fire : ℕ → ℕ → ℕ → W → FireResult × W) where
  -- The callback, with its calls written down in order.
  abbrev pub logged : ℕ → ℕ → ℕ → List Call × W → FireResult × (List Call × W)
  logged hour min g (calls, w) =
      let (r, w') = fire hour min g w in (r, (calls ++ (hour, min, g) ∷ [], w'))

  fire_entry-calls :
      (now : LocalTime) (e : Entry) (a : Fired (List Call × W))
      → (fire_entry logged now e a).1.world.0
        ≡ (if due_at now e then a.world.0 ++ call_of e ∷ [] else a.world.0)
  unfolding fire_entry
  fire_entry-calls now e a = rw (is_due-at now e) (ground arith)

  fire_entries-calls :
      (now : LocalTime) (es : List Entry) (a : Fired (List Call × W))
      → (fire_entries logged now es a).1.world.0 ≡ a.world.0 ++ due_calls now es
  unfolding fire_entries due_calls
  fire_entries-calls now [] a = sym (append-nil _)
  fire_entries-calls now (e ∷ es) a =
      fire_entries-calls now es (fire_entry logged now e a).1 ∙ elim (Bool-cases (due_at now e)) [
        | inl d ↦
            rw (fire_entry-calls now e a, d)
              (append_assoc a.world.0 (call_of e ∷ []) (due_calls now es))
        | inr d ↦ rw (fire_entry-calls now e a, d)
      ]

  try_fire-calls :
      (now : LocalTime) (s : Schedule) (calls : List Call) (w : W)
      → (schedule_try_fire_current (some logged) now s (calls, w)).1.0
        ≡ calls ++ (if s.global_enabled && s.today_enabled then due_calls now s.slots else [])
  unfolding schedule_try_fire_current
  try_fire-calls now s calls w = ground (
    arith,
    append-nil calls,
    fire_entries-calls now s.slots (record {
      world = (calls, w);
      active_valid = s.active_valid;
      active_hour = s.active_hour;
      active_min = s.active_min;
      changed = s.changed;
    }),
  )

  -- With a valid clock, a poll calls the callback for each slot that is due at its minute, enabled and
  -- neither skipped nor fed today, once and in the order of the slots, at the minutes that
  -- `looks_for_due` names, and does not call it at any other poll.
  pub schedule_poll-calls :
      (now : LocalTime) (s : Schedule) (calls : List Call) (w : W)
      → (schedule_poll (some logged) (some now) s (calls, w)).1.0
        ≡ calls ++ (if looks_for_due s now then due_calls now s.slots else [])
  unfolding schedule_poll poll_clock looks_for_due schedule_mark_missed_before
  schedule_poll-calls now s calls w =
      let missed = schedule_mark_missed_before (now_minutes now) now.wday_mon0 s in
      ground (
        arith,
        append-nil calls,
        due_calls-mark_missed s.global_enabled (now_minutes now) now.wday_mon0 now s.slots,
        try_fire-calls now (record (stamp now missed) { poll_clock_valid = true }) calls w,
        try_fire-calls now (record missed { last_hour = now.hour; last_min = now.min }) calls w,
      )

-- At most one slot is due at a time.
due_calls-none :
    (now : LocalTime) (es : List Entry)
    → All (λ x. now_minutes now < entry_minutes x) es
    → due_calls now es ≡ []
unfolding due_calls due_at
due_calls-none now [] h = refl
due_calls-none now (e ∷ es) h = ground (arith, h.0, due_calls-none now es h.1)

due_at-minutes :
    (now : LocalTime) (e : Entry) → due_at now e ≡ true → entry_minutes e ≡ now_minutes now
unfolding due_at
due_at-minutes now e d = ground arith

-- Of slots with distinct times in order, at most one is due at a time.
due_calls-le-one :
    (now : LocalTime) (es : List Entry) → Ascending es → length (due_calls now es) ≤ 1
unfolding due_calls
due_calls-le-one now [] h = omega arith
due_calls-le-one now (e ∷ es) h = elim (Bool-cases (due_at now e)) [
  | inl d ↦
      rw
        (
          d,
          due_calls-none now es
              (All-imp (λ x lt. omega (arith, lt, due_at-minutes now e d)) es h.0),
        )
        (omega arith)
  | inr d ↦ rw d (due_calls-le-one now es h.1)
]
