-- ===== src/Schedule/Next.antt =====
-- The next feed of the day: `schedule_compute_next` of firmware/src/schedule.c.
use xiaomi_feeder_iv.Common.{
  ltb, ◌==◌, if◌then◌else◌, get_elem?, ℕ, ◌-◌, ◌≤◌, ◌≡◌, Bool, true, not, ◌&&◌, ◌||◌, Option, none,
  some, List, [], ◌∷◌, All, ◌⊎◌, false,
}
use xiaomi_feeder_iv.Schedule.{
  Entry, LocalTime, Schedule, schedule_minutes, entry_minutes, schedule_slot_applies_today,
}

-- `schedule_next_t`; an offer is never in the past, so `in_min` is a natural number.
pub record NextFeed : Type 0 where
  pub hour : ℕ
  pub min : ℕ
  pub g : ℕ
  pub in_min : ℕ

unfoldable pub is_candidate : Schedule → LocalTime → Entry → Bool
is_candidate s now e =
    not (
      not e.cfg.enabled
      || not s.global_enabled
      || e.cfg.days == 0
      || not (schedule_slot_applies_today e.cfg now.wday_mon0)
      || e.rt.skip_today
      || not s.today_enabled)
    && not (ltb (entry_minutes e) (schedule_minutes now.hour now.min))

abbrev pub offer : LocalTime → Entry → NextFeed
offer now e = record {
  hour = e.cfg.hour;
  min = e.cfg.min;
  g = e.cfg.g;
  in_min = entry_minutes e - schedule_minutes now.hour now.min;
}

-- `!found || delta < best.in_min`
abbrev pub better : NextFeed → Option NextFeed → Bool
better n none = true
better n (some best) = ltb n.in_min best.in_min

pub next_from : Schedule → LocalTime → Option NextFeed → List Entry → Option NextFeed
next_from s now best [] = best
next_from s now best (e ∷ es) =
    next_from s now
      (if is_candidate s now e && better (offer now e) best then some (offer now e) else best) es

unfoldable pub schedule_compute_next : Option LocalTime → Schedule → Option NextFeed
unfolding next_from
schedule_compute_next none s = none
schedule_compute_next (some now) s = next_from s now none s.slots

-- What the answer says of the slots: the offer of a candidate, and no candidate comes sooner.
record IsNext (s : Schedule) (now : LocalTime) (es : List Entry) (n : NextFeed) : Type 0 where
  from : Entry
  place : ℕ
  stands : get_elem? es place ≡ some from
  chosen : is_candidate s now from ≡ true
  is_offer : n ≡ offer now from

abbrev NotSooner : Schedule → LocalTime → NextFeed → Entry → Type 0
NotSooner s now n e = is_candidate s now e ≡ true → n.in_min ≤ (offer now e).in_min

abbrev NotAfter : NextFeed → Option NextFeed → Type 0
NotAfter n none = Unit
NotAfter n (some best) = n.in_min ≤ best.in_min

module _ (s : Schedule) (now : LocalTime) where
  abbrev Answer : Option NextFeed → List Entry → Option NextFeed → Type 0
  Answer best es none = (best ≡ none) × All (λ e. is_candidate s now e ≡ false) es
  Answer best es (some n) =
      ((best ≡ some n) ⊎ IsNext s now es n) × All (NotSooner s now n) es × NotAfter n best

-- A feed that is still to come today.
pub record Upcoming (s : Schedule) (now : LocalTime) (e : Entry) : Type 0 where
  pub enabled : e.cfg.enabled ≡ true
  pub global_on : s.global_enabled ≡ true
  pub today_on : s.today_enabled ≡ true
  pub weekday : schedule_slot_applies_today e.cfg now.wday_mon0 ≡ true
  pub not_skipped : e.rt.skip_today ≡ false
  pub to_come : schedule_minutes now.hour now.min ≤ entry_minutes e

module _ (s : Schedule) (now : LocalTime) where
  -- `n` is the offer of an upcoming slot, and none comes sooner; or nothing is upcoming.
  abbrev pub NextAnswer : Option NextFeed → Type 0
  NextAnswer none = All (λ e. ¬ (Upcoming s now e)) s.slots
  NextAnswer (some n) =
      ((e : Entry) × (i : ℕ) × (get_elem? s.slots i ≡ some e)
        × Upcoming s now e
        × (n ≡ offer now e))
      × All (λ e. Upcoming s now e → n.in_min ≤ (offer now e).in_min) s.slots
