-- ===== src/Examples/Zones.antt =====
-- The theorems on dates, time zones and the clock at concrete texts and instants.
use xiaomi_feeder_iv.Common.{
  All, ℕ, ◌≡◌, refl, ap, ◌⊎◌, Bool, true, some, List, [], ◌∷◌, arith, false,
}
use xiaomi_feeder_iv.Zone.Text.{
  strtol, strtoul, is_snowflake_posix, has_julian_rule, is_abbrev_only, parse_name,
  parse_posix_offset_seconds, seconds_west_to_east_min, parse_m_transition,
}
use xiaomi_feeder_iv.Common.Int.{◌-ℤ◌, ◌+ℤ◌, pos}
use xiaomi_feeder_iv.Common.Port.{PortErr, port_ok}
use xiaomi_feeder_iv.Calendar.{epoch_calendar_nth_weekday}
use xiaomi_feeder_iv.Calendar.Weekday.{OnDay, nth_weekday-OnDay}
use xiaomi_feeder_iv.Zone.{TzRule, tz_rule_default, tz_rule_effective_offset_min}
use xiaomi_feeder_iv.Zone.Parse.{parse_zone, after_std, tz_rule_parse_posix}
use xiaomi_feeder_iv.Zone.Bounds.{IsRule, parse_posix-IsRule}
use xiaomi_feeder_iv.Zone.Offset.{accepted-offset}
use xiaomi_feeder_iv.TimeSync.{syncing, TimeSync, not_done, done, time_sync_poll}
use xiaomi_feeder_iv.TimeSync.Valid.{
  SyncEvent, poll, ask, all_happen, IsTicking, WasSet, all_happen-WasSet,
}
use xiaomi_feeder_iv.Zone.Store.{tz_rule_save_posix, Saved, save_posix-Saved}

-- CET-1CEST,M3.5.0,M10.5.0/3
abbrev cet : List ℕ
cet =
    67 ∷ 69 ∷ 84 ∷ 45 ∷ 49 ∷ 67 ∷ 69 ∷ 83 ∷ 84 ∷ 44 ∷ 77 ∷ 51 ∷ 46 ∷ 53 ∷ 46 ∷ 48 ∷ 44 ∷ 77 ∷ 49
    ∷ 48 ∷ 46 ∷ 53 ∷ 46 ∷ 48 ∷ 47 ∷ 51 ∷ []

cet_parses : tz_rule_parse_posix cet tz_rule_default ≡ (
  true,
  record {
    std_offset_min = pos 60;
    dst_offset_min = pos 120;
    start_m = 3;
    start_w = 5;
    start_d = 0;
    start_h = 2;
    end_m = 10;
    end_w = 5;
    end_d = 0;
    end_h = 3;
  },
)
unfolding tz_rule_parse_posix is_snowflake_posix is_abbrev_only has_julian_rule after_std parse_zone
    parse_name parse_posix_offset_seconds strtol seconds_west_to_east_min ◌-ℤ◌ ◌+ℤ◌
    parse_m_transition strtoul
cet_parses = refl

parse_posix-IsRule_example : IsRule (tz_rule_parse_posix cet tz_rule_default).1
parse_posix-IsRule_example =
    parse_posix-IsRule cet tz_rule_default (ap (λ (r : Bool × TzRule). r.0) cet_parses)

accepted-offset_example :
    let r = (tz_rule_parse_posix cet tz_rule_default).1 in
    (tz_rule_effective_offset_min (some r) (pos 1_750_000_000) ≡ some r.std_offset_min)
    ⊎ (tz_rule_effective_offset_min (some r) (pos 1_750_000_000) ≡ some r.dst_offset_min)
accepted-offset_example =
    accepted-offset cet tz_rule_default (pos 1_750_000_000)
      (ap (λ (r : Bool × TzRule). r.0) cet_parses)

-- A flash that takes every write.
takes_all : List ℕ → PortErr
takes_all text = port_ok

save_posix-Saved_example :
    Saved takes_all cet tz_rule_default
      (tz_rule_save_posix (some takes_all) cet tz_rule_default tz_rule_default)
save_posix-Saved_example = save_posix-Saved takes_all cet tz_rule_default tz_rule_default

nth_weekday-OnDay_example : OnDay 2024 3 5 1 (epoch_calendar_nth_weekday 2024 3 5 1)
nth_weekday-OnDay_example = nth_weekday-OnDay 2024 3 5 1 (omega arith, omega arith) (omega arith)

-- The first synchronisation after the start, under way.
abbrev first_sync : TimeSync
first_sync = record { state = syncing; wifi_ready = true; last_success_ms = 0; next_retry_ms = 0 }

-- Later a synchronisation is asked for, and fails.
abbrev failed_later : List SyncEvent
failed_later = ask true ∷ poll true not_done 9000 ∷ poll true (done false) 9010 ∷ []

failed_later-IsTicking : All IsTicking failed_later
unfolding IsTicking
failed_later-IsTicking = (tt, (ground arith, (ground arith, tt)))

all_happen-WasSet_example :
    WasSet (all_happen failed_later (time_sync_poll false (done true) 4000 first_sync))
all_happen-WasSet_example =
    all_happen-WasSet failed_later first_sync false 4000 refl refl (ground arith)
      failed_later-IsTicking
