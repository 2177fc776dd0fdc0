-- ===== src/Zone.antt =====
-- Time zone rules, firmware/src/tz_rule.c: a POSIX rule such as `CET-1CEST,M3.5.0,M10.5.0/3` is
-- parsed, kept in a cache and stored, and gives the offset from UTC at an instant.
-- A C string is the list of its bytes before the terminating zero; a `const char *` that moves
-- through it is the rest of the list.
pub mod Text
pub mod Parse
pub mod Store
pub mod Bounds
pub mod Year
pub mod Offset
use mathlib.Core.Option
use xiaomi_feeder_iv.Common.{
  ltb, leb, ◌==◌, if◌then◌else◌, ℕ, zero, suc, ◌+◌, ◌-◌, Bool, false, not, ◌&&◌, ◌||◌, Option, none,
  some, map,
}
use xiaomi_feeder_iv.Common.Int.{ℤ, pos, ltb_ℤ, leb_ℤ}
use xiaomi_feeder_iv.Calendar.{epoch_year, epoch_calendar_nth_weekday, epoch_calendar_from_ymdhms}

-- `tz_rule_t`; the offsets are minutes east of Greenwich.
pub record TzRule : Type 0 where
  pub std_offset_min : ℤ
  pub dst_offset_min : ℤ
  pub start_m : ℕ
  pub start_w : ℕ
  pub start_d : ℕ
  pub start_h : ℕ
  pub end_m : ℕ
  pub end_w : ℕ
  pub end_d : ℕ
  pub end_h : ℕ

abbrev pub tz_rule_default : TzRule
tz_rule_default = record {
  std_offset_min = pos 0;
  dst_offset_min = pos 0;
  start_m = 0;
  start_w = 0;
  start_d = 0;
  start_h = 0;
  end_m = 0;
  end_w = 0;
  end_d = 0;
  end_h = 0;
}

unfoldable pub tz_rule_dst_enabled : TzRule → Bool
tz_rule_dst_enabled rule =
    ltb_ℤ rule.dst_offset_min rule.std_offset_min || ltb_ℤ rule.std_offset_min rule.dst_offset_min

-- `none` where `epoch_calendar_nth_weekday` finds no day. A rule without transitions has week 0,
-- where this stands for another instant than the code's; its start and its end are then the same.
unfoldable pub tz_transition_utc : TzRule → ℕ → ℕ → ℕ → ℕ → ℕ → Option ℤ
tz_transition_utc rule year month week dow hour =
    Option.map (λ day. epoch_calendar_from_ymdhms year month day hour 0 0 rule.std_offset_min)
      (epoch_calendar_nth_weekday year month week dow)

-- The first of `year`, `year + 1`, ... whose next year has not begun, in the loop's terms: the
-- loop stops at the first year that begins after the instant, or after `n` years.
pub stop_year : ℕ → ℕ → ℤ → ℕ
stop_year zero year utc_epoch = year
stop_year (suc n) year utc_epoch =
    let rest = stop_year n (year + 1) utc_epoch in
    if ltb_ℤ utc_epoch (epoch_calendar_from_ymdhms year 1 1 0 0 0 (pos 0)) then year else rest

-- The loop runs over the years 1970 to 2099.
unfoldable pub window_year : ℤ → ℕ
unfolding stop_year
window_year utc_epoch =
    let year = stop_year 130 epoch_year utc_epoch - 1 in
    if ltb year epoch_year then epoch_year else year

-- Whether the start of the rule comes before its end in a year, by month, week and day.
unfoldable pub starts_first : TzRule → Bool
starts_first rule =
    ltb rule.start_m rule.end_m
    || (rule.start_m == rule.end_m
        && (ltb rule.start_w rule.end_w
            || (rule.start_w == rule.end_w && leb rule.start_d rule.end_d)))

unfoldable pub in_window : Bool → ℤ → Option ℤ → Option ℤ → Option Bool
in_window first utc_epoch none e = none
in_window first utc_epoch (some s) none = none
in_window first utc_epoch (some s) (some e) =
    if first
    then some (leb_ℤ s utc_epoch && ltb_ℤ utc_epoch e)
    else some (leb_ℤ s utc_epoch || ltb_ℤ utc_epoch e)

unfoldable pub utc_in_dst_window : TzRule → ℤ → Option Bool
unfolding window_year starts_first in_window
utc_in_dst_window rule utc_epoch =
    if not (tz_rule_dst_enabled rule)
    then some false
    else (let year = window_year utc_epoch in
        in_window (starts_first rule) utc_epoch
          (tz_transition_utc rule year rule.start_m rule.start_w rule.start_d rule.start_h)
          (tz_transition_utc rule year rule.end_m rule.end_w rule.end_d rule.end_h))

unfoldable pub tz_rule_effective_offset_min : Option TzRule → ℤ → Option ℤ
tz_rule_effective_offset_min none utc_epoch = some (pos 0)
tz_rule_effective_offset_min (some rule) utc_epoch =
    Option.map (λ inside. if inside then rule.dst_offset_min else rule.std_offset_min)
      (utc_in_dst_window rule utc_epoch)
