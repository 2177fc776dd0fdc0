-- ===== src/Zone/Parse.antt =====
-- `tz_rule_parse_posix`, firmware/src/tz_rule.c.
use xiaomi_feeder_iv.Common.{
  leb, ◌==◌, if◌then◌else◌, length, ℕ, Bool, true, false, not, ◌||◌, Option, none, some, List,
}
use xiaomi_feeder_iv.Common.Int.{ℤ, pos, ◌+ℤ◌}
use xiaomi_feeder_iv.Zone.{TzRule, tz_rule_default}
use xiaomi_feeder_iv.Zone.Text.{
  ◌>>=◌, isdigit, head, tail, skip_space, is_snowflake_posix, has_julian_rule, is_abbrev_only,
  parse_name, within, parse_posix_offset_seconds, offset_min, offset_max, seconds_west_to_east_min,
  Transition, parse_m_transition,
}

abbrev pub posix_max : ℕ
posix_max = 80

abbrev pub with_start : Transition → TzRule → TzRule
with_start t r = record r { start_m = t.m; start_w = t.w; start_d = t.d; start_h = t.h }

abbrev pub with_end : Transition → TzRule → TzRule
with_end t r = record r { end_m = t.m; end_w = t.w; end_d = t.d; end_h = t.h }

-- Each step answers whether the parse succeeds, and what it leaves in `*out`.
unfoldable pub after_end : TzRule → Option (Transition × List ℕ) → Bool × TzRule
after_end out none = (false, out)
after_end out (some (t, c)) = (head (skip_space c) == 0, with_end t out)

unfoldable pub after_start : TzRule → Option (Transition × List ℕ) → Bool × TzRule
unfolding after_end
after_start out none = (false, out)
after_start out (some (t, c)) =
    if not (head c == 44)
    then (false, with_start t out)
    else after_end (with_start t out) (parse_m_transition (tail c))

-- The part from the comma before the first transition on.
unfoldable pub parse_transitions : List ℕ → TzRule → Bool × TzRule
unfolding after_start
parse_transitions c out =
    if not (head c == 44) then (false, out) else after_start out (parse_m_transition (tail c))

-- What follows both offsets: the end of the text, or the transitions.
unfoldable pub finish_offsets : List ℕ → TzRule → Bool × TzRule
unfolding parse_transitions
finish_offsets c out = if head c == 0 then (true, out) else parse_transitions c out

-- The summer offset, given or an hour more, once the standard one is stored.
unfoldable pub set_dst : Option ℤ → List ℕ → TzRule → Bool × TzRule
unfolding finish_offsets
set_dst (some seconds_west) c out = elim (seconds_west_to_east_min seconds_west) [
  | none ↦ (false, out)
  | some m ↦ finish_offsets c (record out { dst_offset_min = m })
]
set_dst none c out =
    let m = out.std_offset_min +ℤ pos 60 in
    if within offset_min offset_max m
    then finish_offsets c (record out { dst_offset_min = m })
    else (false, record out { dst_offset_min = m })

unfoldable pub set_std : Option ℤ → Option ℤ → List ℕ → TzRule → Bool × TzRule
unfolding set_dst
set_std none dst c out = (false, out)
set_std (some seconds_west) dst c out = elim (seconds_west_to_east_min seconds_west) [
  | none ↦ (false, out)
  | some m ↦ set_dst dst c (record out { std_offset_min = m })
]

abbrev pub starts_offset : List ℕ → Bool
starts_offset c = isdigit (head c) || head c == 43 || head c == 45

-- An offset, if one starts here: `none` when it is malformed, and `some (none, c)` when there is
-- none.
unfoldable pub optional_offset : List ℕ → Option (Option ℤ × List ℕ)
optional_offset c =
    if starts_offset c
    then (do (seconds_west, rest) ← parse_posix_offset_seconds c; some (some seconds_west, rest))
    else some (none, c)

-- A name and an optional offset.
unfoldable pub parse_zone : List ℕ → Option (Option ℤ × List ℕ)
unfolding optional_offset
parse_zone c = do rest ← parse_name c; optional_offset rest

unfoldable pub with_dst : Option ℤ → Option (Option ℤ × List ℕ) → TzRule → Bool × TzRule
unfolding set_std
with_dst std none out = (false, out)
with_dst std (some (dst, c)) out = set_std std dst c out

-- A rule with one offset.
unfoldable pub only_std : Option ℤ → TzRule → Bool × TzRule
only_std none out = (false, out)
only_std (some seconds_west) out = elim (seconds_west_to_east_min seconds_west) [
  | none ↦ (false, out)
  | some m ↦ (true, record out { std_offset_min = m; dst_offset_min = m })
]

unfoldable pub comma_after_std : Option ℤ → List ℕ → TzRule → Bool × TzRule
unfolding parse_transitions
comma_after_std none c out = (false, out)
comma_after_std (some seconds_west) c out =
    parse_transitions c (record out { dst_offset_min = out.std_offset_min })

unfoldable pub after_std : Option (Option ℤ × List ℕ) → TzRule → Bool × TzRule
unfolding only_std comma_after_std with_dst
after_std none out = (false, out)
after_std (some (std, c)) out =
    if head c == 0
    then only_std std out
    else if head c == 44
    then comma_after_std std c out
    else with_dst std (parse_zone c) out

unfoldable pub refused : List ℕ → Bool
refused posix =
    head posix == 0
    || leb posix_max (length posix)
    || is_snowflake_posix posix
    || is_abbrev_only posix
    || has_julian_rule posix

-- `out` is what `*out` holds before.
unfoldable pub tz_rule_parse_posix : List ℕ → TzRule → Bool × TzRule
unfolding refused
tz_rule_parse_posix posix out =
    if refused (skip_space posix)
    then (false, out)
    else after_std (parse_zone (skip_space posix)) tz_rule_default
