-- ===== src/Zone/Offset.antt =====
-- The offset that an accepted rule gives.
use mathlib.Core.Option
use xiaomi_feeder_iv.Common.{
  if_both, ℕ, ◌≡◌, refl, Bool, true, false, not, Option, some, Bool-cases, ap, ◌⊎◌, inl, inr, List,
}
use xiaomi_feeder_iv.Common.Int.{ℤ}
use xiaomi_feeder_iv.Calendar.{epoch_calendar_nth_weekday, epoch_calendar_from_ymdhms}
use xiaomi_feeder_iv.Calendar.Weekday.{nth_weekday-OnDay}
use xiaomi_feeder_iv.Zone.{
  TzRule, tz_rule_dst_enabled, tz_transition_utc, window_year, starts_first, in_window,
  utc_in_dst_window, tz_rule_effective_offset_min,
}
use xiaomi_feeder_iv.Zone.Parse.{tz_rule_parse_posix}
use xiaomi_feeder_iv.Zone.Bounds.{
  IsTransition, both, Transitions, neither, IsRule, parse_posix-IsRule,
}

transition-some :
    (r : TzRule) (y m w d h : ℕ)
    → IsTransition m w d h
    → (t : ℤ) × (tz_transition_utc r y m w d h ≡ some t)
unfolding tz_transition_utc
transition-some r y m w d h (a, b, c, e, f, g) =
    let o = nth_weekday-OnDay y m w d (c, e) f in
    let at = λ (day : ℕ). epoch_calendar_from_ymdhms y m day h 0 0 r.std_offset_min in
    (at o.day, ap (Option.map at) o.returns)

in_window-some :
    (first : Bool) (u s e : ℤ) → (b : Bool) × (in_window first u (some s) (some e) ≡ some b)
unfolding in_window
in_window-some true u s e = (_, refl)
in_window-some false u s e = (_, refl)

-- The answer of the window test, whenever both transitions have an instant.
window-some :
    (r : TzRule) (u s e : ℤ)
    → tz_transition_utc r (window_year u) r.start_m r.start_w r.start_d r.start_h ≡ some s
    → tz_transition_utc r (window_year u) r.end_m r.end_w r.end_d r.end_h ≡ some e
    → (b : Bool) × (utc_in_dst_window r u ≡ some b)
unfolding utc_in_dst_window
window-some r u s e p q =
    if_both (λ (o : Option Bool). (b : Bool) × (o ≡ some b)) (not (tz_rule_dst_enabled r)) _ _
      (λ _. (false, refl)) (λ _. rw (p, q) (in_window-some (starts_first r) u s e))

-- Week 0 counts back from the first of the month: some instant, the same for the start and the end.
neither-some :
    (r : TzRule) (y m w d h : ℕ)
    → (m ≡ 0) × (w ≡ 0) × (d ≡ 0) × (h ≡ 0)
    → (t : ℤ) × (tz_transition_utc r y m w d h ≡ some t)
unfolding tz_transition_utc epoch_calendar_nth_weekday
neither-some r y m w d h (a, b, c, e) = rw (a, b, c, e) (_, refl)

both_some :
    (r : TzRule) (y : ℕ)
    → Transitions r
    → ((s : ℤ) × (tz_transition_utc r y r.start_m r.start_w r.start_d r.start_h ≡ some s))
      × ((e : ℤ) × (tz_transition_utc r y r.end_m r.end_w r.end_d r.end_h ≡ some e))
both_some r y (both a b) = (transition-some r y _ _ _ _ a, transition-some r y _ _ _ _ b)
both_some r y (neither a b) = (neither-some r y _ _ _ _ a, neither-some r y _ _ _ _ b)

rule-some : (r : TzRule) (u : ℤ) → IsRule r → (b : Bool) × (utc_in_dst_window r u ≡ some b)
rule-some r u v =
    let (start, end) = both_some r (window_year u) v.transitions in
    window-some r u start.0 end.0 start.1 end.1

-- A text that the parser accepts gives an offset at every instant, its standard or its summer one:
-- the searches for the days of the transitions end.
pub accepted-offset :
    (posix : List ℕ) (out : TzRule) (utc_epoch : ℤ)
    → (tz_rule_parse_posix posix out).0 ≡ true
    → let r = (tz_rule_parse_posix posix out).1 in
      (tz_rule_effective_offset_min (some r) utc_epoch ≡ some r.std_offset_min)
      ⊎ (tz_rule_effective_offset_min (some r) utc_epoch ≡ some r.dst_offset_min)
unfolding tz_rule_effective_offset_min
accepted-offset posix out utc_epoch ok =
    let r = (tz_rule_parse_posix posix out).1 in
    let (b, e) = rule-some r utc_epoch (parse_posix-IsRule posix out ok) in
    elim (Bool-cases b) [ inl t ↦ inr (rw (e, t) refl) | inr f ↦ inl (rw (e, f) refl) ]
