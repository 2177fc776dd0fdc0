-- ===== src/Schedule/Edit/Valid.antt =====
-- The invariant of the schedule's slots, which every command keeps.
use mathlib.Core.List.{reverse, reverse-cons}
use xiaomi_feeder_iv.Common.{
  length, length-append, All, ℕ, suc, ◌+◌, ◌≤◌, min, ◌≡◌, refl, ◌≢◌, true, false, Option, List, [],
  ◌∷◌, ◌++◌, arith,
}
use xiaomi_feeder_iv.Schedule.{
  schedule_max_slots, schedule_g_min, schedule_g_max, SlotConfig, Entry, Schedule, schedule_minutes,
  entry_minutes, same_key, shift_back, sort_from,
}
use xiaomi_feeder_iv.Schedule.Sort.{Ascending, Distinct, All-append, All-sort_from, sort-Ascending}
use xiaomi_feeder_iv.Schedule.Store.{ConfigPort}
use xiaomi_feeder_iv.Schedule.Edit.{modify, remove, save_and_notify, config_in_range}
use xiaomi_feeder_iv.Schedule.Edit.Shape.{
  At, All-modify, length-modify, All-remove, length-remove, modify-Ascending, remove-Ascending,
}

-- The ranges that `schedule_set_slot` accepts.
pub record InRange (cfg : SlotConfig) : Type 0 where
  pub hour_in : cfg.hour ≤ 23
  pub min_in : cfg.min ≤ 59
  pub days_in : cfg.days ≤ 127
  pub g_in : (schedule_g_min ≤ cfg.g) × (cfg.g ≤ schedule_g_max)

abbrev pub EntryOk : Entry → Type 0
EntryOk e = InRange e.cfg

-- At most 32 slots, each in range, in order of their times, no two at one time.
pub record IsWellFormed (es : List Entry) : Type 0 where
  pub ranges : All EntryOk es
  pub order : Ascending es
  pub bounded : length es ≤ schedule_max_slots

pub config_in_range-InRange : (cfg : SlotConfig) → config_in_range cfg ≡ true → InRange cfg
unfolding config_in_range
config_in_range-InRange cfg h = ground arith

pub InRange-config_in_range : (cfg : SlotConfig) → InRange cfg → config_in_range cfg ≡ true
unfolding config_in_range
InRange-config_in_range cfg h = ground arith

-- Sorting slots that are in order already, or one more at a new time, gives slots in order.
length-shift_back :
    (key : Entry) (done : List Entry) → length (shift_back key done) ≡ suc (length done)
unfolding shift_back
length-shift_back key [] = refl
length-shift_back key (prev ∷ done) = ground (arith, length-shift_back key done)

length-reverse_native : (xs : List Entry) → length (reverse xs) ≡ length xs
length-reverse_native [] = refl
length-reverse_native (x ∷ xs) =
    rw (reverse-cons x xs)
      (omega (arith, length-append (reverse xs) (x ∷ []), length-reverse_native xs))

length-sort_from :
    (done todo : List Entry) → length (sort_from done todo) ≡ length done + length todo
unfolding sort_from
length-sort_from done [] = omega (arith, length-reverse_native done)
length-sort_from done (key ∷ todo) =
    omega (arith, length-sort_from (shift_back key done) todo, length-shift_back key done)

pub sort-IsWellFormed :
    (es : List Entry)
    → All EntryOk es
    → Distinct es
    → length es ≤ schedule_max_slots
    → IsWellFormed (sort_from [] es)
sort-IsWellFormed es r d b = record {
  ranges = All-sort_from _ [] es tt r;
  order = sort-Ascending es d;
  bounded = omega (arith, length-sort_from [] es);
}

pub same_key-minutes :
    (hour min : ℕ) (e : Entry)
    → EntryOk e
    → hour ≤ 23
    → min ≤ 59
    → same_key hour min e ≡ false
    → entry_minutes e ≢ schedule_minutes hour min
same_key-minutes hour min e v hh hm k = ground (arith, k)

pub absent-minutes :
    (hour min : ℕ) (es : List Entry)
    → All EntryOk es
    → hour ≤ 23
    → min ≤ 59
    → All (λ x. same_key hour min x ≡ false) es
    → All (λ x. entry_minutes x ≢ schedule_minutes hour min) es
absent-minutes hour min [] r hh hm a = tt
absent-minutes hour min (e ∷ es) r hh hm a =
    (same_key-minutes hour min e r.0 hh hm a.0, absent-minutes hour min es r.1 hh hm a.1)

pub snoc-Distinct :
    (es : List Entry) (e : Entry)
    → Distinct es
    → All (λ x. entry_minutes x ≢ entry_minutes e) es
    → Distinct (es ++ e ∷ [])
snoc-Distinct [] e d n = (tt, tt)
snoc-Distinct (x ∷ xs) e d n = (All-append _ xs (e ∷ []) d.0 (n.0, tt), snoc-Distinct xs e d.1 n.1)

pub modify-IsWellFormed :
    (f : Entry → Entry) (es : List Entry) (n : ℕ) (e : Entry)
    → At es n e
    → entry_minutes (f e) ≡ entry_minutes e
    → (EntryOk e → EntryOk (f e))
    → IsWellFormed es
    → IsWellFormed (modify n f es)
modify-IsWellFormed f es n e a m k v = record {
  ranges = All-modify EntryOk f es n e a k v.ranges;
  order = modify-Ascending f es n e a m v.order;
  bounded = omega (arith, length-modify f es n, v.bounded);
}

pub remove-IsWellFormed : (es : List Entry) (n : ℕ) → IsWellFormed es → IsWellFormed (remove n es)
remove-IsWellFormed es n v = record {
  ranges = All-remove EntryOk es n v.ranges;
  order = remove-Ascending es n v.order;
  bounded = omega (arith, length-remove es n, v.bounded);
}

pub save_and_notify-slots :
    (port : Option ConfigPort) (s : Schedule) → (save_and_notify port s).0.slots ≡ s.slots
save_and_notify-slots port s = ground arith
