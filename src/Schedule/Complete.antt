-- ===== src/Schedule/Complete.antt =====
-- The end of a scheduled feed: `schedule_on_dispense_complete` of firmware/src/schedule.c.
use xiaomi_feeder_iv.Common.Int.{ℤ, pos, negsuc, sub_ℕ, ◌≤ℤ◌}
use mathlib.Core.Option
use xiaomi_feeder_iv.Common.{
  ◌==◌, if◌then◌else◌, Bool-cases, Option-cases, ℕ, ◌≤◌, ◌≡◌, refl, ap, ◌∙◌, ◌≢◌, ◌⊎◌, inl, inr,
  Bool, true, false, not, ◌&&◌, ◌||◌, Option, none, some, arith,
}
use xiaomi_feeder_iv.Schedule.Sort.{lookup}
use xiaomi_feeder_iv.Schedule.Edit.Valid.{IsWellFormed}
use xiaomi_feeder_iv.Schedule.Edit.Others.{lookup_missing, lookup-modify_found, absent-map}
use xiaomi_feeder_iv.Schedule.{
  dispensed, failed, Entry, Schedule, schedule_minutes, find_from, schedule_find_index,
  schedule_notify_changed,
}
use xiaomi_feeder_iv.Schedule.Edit.{modify}
use xiaomi_feeder_iv.Schedule.Poll.{
  DispenseOutcome, dispense_ok, dispense_underfill, dispense_failed, DispenseResult, to_int16,
  completed_state,
}

abbrev pub with_result : DispenseResult → Entry → Entry
with_result r e = record e {
  rt = record (e.rt) { g_actual = to_int16 r.grams; state = completed_state r.outcome };
}

unfoldable pub schedule_on_dispense_complete : DispenseResult → Schedule → Schedule
unfolding schedule_find_index
schedule_on_dispense_complete r s =
    if not s.active_valid
    then s
    else if not (r.hour == s.active_hour) || not (r.min == s.active_min)
    then s
    else elim (schedule_find_index s s.active_hour s.active_min) [
      | none ↦ schedule_notify_changed (record s { active_valid = false })
      | some index ↦
          schedule_notify_changed
            (record s { active_valid = false; slots = modify index (with_result r) s.slots })
    ]

module _ (r : DispenseResult) (s : Schedule) where
  complete-none :
      s.active_valid ≡ true
      → r.hour ≡ s.active_hour
      → r.min ≡ s.active_min
      → find_from s.active_hour s.active_min 0 s.slots ≡ none
      → schedule_on_dispense_complete r s
        ≡ schedule_notify_changed (record s { active_valid = false })
  unfolding schedule_on_dispense_complete
  complete-none a h m e = ground arith

  complete-some :
      (n : ℕ)
      → s.active_valid ≡ true
      → r.hour ≡ s.active_hour
      → r.min ≡ s.active_min
      → find_from s.active_hour s.active_min 0 s.slots ≡ some n
      → schedule_on_dispense_complete r s
        ≡ schedule_notify_changed
            (record s { active_valid = false; slots = modify n (with_result r) s.slots })
  unfolding schedule_on_dispense_complete
  complete-some n a h m e = ground arith

-- A result for the slot that is being fed, which exists: only that slot changes, to the outcome's
-- state and the grams as an int16_t, and no slot is being fed any more.
lookup-on_dispense_complete :
    (r : DispenseResult) (s : Schedule) (k : ℕ)
    → IsWellFormed s.slots
    → s.active_valid ≡ true
    → r.hour ≡ s.active_hour
    → r.min ≡ s.active_min
    → s.active_hour ≤ 23
    → s.active_min ≤ 59
    → (lookup k (schedule_on_dispense_complete r s).slots ≡ (
        if schedule_minutes s.active_hour s.active_min == k
        then Option.map (with_result r) (lookup k s.slots)
        else lookup k s.slots))
      × ((schedule_on_dispense_complete r s).active_valid ≡ false)
lookup-on_dispense_complete r s k v a h m hh hm =
    elim (Option-cases (find_from s.active_hour s.active_min 0 s.slots)) [
      | inl e ↦ rw (complete-none r s a h m e) (
        absent-map (λ j. lookup j s.slots) (with_result r) _ k
            (lookup_missing s.active_hour s.active_min s.slots v hh hm e),
        refl,
      )
      | inr (n, e) ↦ rw (complete-some r s n a h m e) (
        lookup-modify_found s.active_hour s.active_min s.slots v (with_result r) k n (λ x. refl) e,
        refl,
      )
    ]

-- Any other result changes nothing.
on_dispense_complete-other :
    (r : DispenseResult) (s : Schedule)
    → (s.active_valid ≡ false) ⊎ ((r.hour ≢ s.active_hour) ⊎ (r.min ≢ s.active_min))
    → schedule_on_dispense_complete r s ≡ s
unfolding schedule_on_dispense_complete
on_dispense_complete-other r s h = ground arith

-- What a result makes of the slot: fed unless the feed failed, an underfill included, with the grams.
unfoldable pub after_result : DispenseOutcome → ℤ → Entry → Entry
after_result dispense_ok grams e = record e {
  rt = record (e.rt) { state = dispensed; g_actual = grams };
}
after_result dispense_underfill grams e = record e {
  rt = record (e.rt) { state = dispensed; g_actual = grams };
}
after_result dispense_failed grams e = record e {
  rt = record (e.rt) { state = failed; g_actual = grams };
}

-- An int16_t.
abbrev pub FitsInt16 : ℤ → Type 0
FitsInt16 z = (sub_ℕ 0 32768 ≤ℤ z) × (z ≤ℤ pos 32767)

to_int16-Fits : (z : ℤ) → FitsInt16 z → to_int16 z ≡ z
unfolding to_int16
to_int16-Fits (pos n) (lo, hi) = ground (arith, lo, hi)
to_int16-Fits (negsuc n) (lo, hi) = ground (arith, lo, hi)

completed-after :
    (o : DispenseOutcome) (grams : ℤ) (e : Entry)
    → record e { rt = record (e.rt) { g_actual = grams; state = completed_state o } }
      ≡ after_result o grams e
unfolding after_result
completed-after dispense_ok grams e = refl
completed-after dispense_underfill grams e = refl
completed-after dispense_failed grams e = refl

with_result-after :
    (r : DispenseResult) (o : Option Entry)
    → FitsInt16 r.grams
    → Option.map (with_result r) o ≡ Option.map (after_result r.outcome r.grams) o
with_result-after r none f = refl
with_result-after r (some e) f =
    ap some (rw (to_int16-Fits r.grams f) (completed-after r.outcome r.grams e))

abbrev pub names_active : DispenseResult → Schedule → Bool
names_active r s = s.active_valid && (r.hour == s.active_hour) && (r.min == s.active_min)

-- With the active slot's time in range, and grams that fit an int16_t: a result that names the active
-- slot changes that slot alone, to failed if the feed failed and to dispensed otherwise, also after an
-- underfill, with the grams, and ends the feed; any other result, also one that comes when no slot is
-- active, changes nothing.
pub on_dispense_complete-lookup :
    (r : DispenseResult) (s : Schedule) (k : ℕ)
    → IsWellFormed s.slots
    → s.active_hour ≤ 23
    → s.active_min ≤ 59
    → FitsInt16 r.grams
    → let done = schedule_on_dispense_complete r s in
      ((names_active r s ≡ true)
        × (lookup k done.slots ≡ (
            if schedule_minutes s.active_hour s.active_min == k
            then Option.map (after_result r.outcome r.grams) (lookup k s.slots)
            else lookup k s.slots))
        × (done.active_valid ≡ false))
      ⊎ ((names_active r s ≡ false) × (done ≡ s))
on_dispense_complete-lookup r s k v hh hm f = elim (Bool-cases (names_active r s)) [
  | inl e ↦
      let d =
        lookup-on_dispense_complete r s k v (ground (arith, e)) (ground (arith, e))
          (ground (arith, e)) hh hm in
      let key = schedule_minutes s.active_hour s.active_min == k in
      inl (
        e,
        d.0
            ∙ ap (λ o. if key then o else lookup k s.slots)
                (with_result-after r (lookup k s.slots) f),
        d.1,
      )
  | inr e ↦ inr (e, on_dispense_complete-other r s (unnamed e))
]
  where
    unnamed :
        names_active r s ≡ false
        → (s.active_valid ≡ false) ⊎ ((r.hour ≢ s.active_hour) ⊎ (r.min ≢ s.active_min))
    unnamed e = elim (Bool-cases s.active_valid) [
      | inr f ↦ inl f
      | inl t ↦ elim (Bool-cases (r.hour == s.active_hour)) [
        | inr f ↦ inr (inl (λ same. absurd (ground (arith, f, same))))
        | inl u ↦ inr (inr (λ same. absurd (ground (arith, e, t, u, same))))
      ]
    ]
