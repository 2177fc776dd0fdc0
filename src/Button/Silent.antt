-- ===== src/Button/Silent.antt =====
-- A queue of gestures without a press of the two buttons of the child-lock combination, and the purge.
use mathlib.Core.Path.{subst}
use xiaomi_feeder_iv.Common.{
  ◌==◌, if_both, length, All, ℕ, suc, ◌+◌, ◌≤◌, ◌<◌, ◌≡◌, refl, sym, ◌⊎◌, inl, inr, false, List, [],
  ◌∷◌, ◌++◌, arith,
}
use xiaomi_feeder_iv.Ring.{update, items, Ring, push, count, contents, IsRing}
use xiaomi_feeder_iv.Ring.Queue.{count-lt, length-contents, push-IsRing, contents-push}
use xiaomi_feeder_iv.Button.{ButtonId, power, reset, dispense}
use xiaomi_feeder_iv.Button.Gesture.{
  GestureKind, short, long, child_lock_toggle, GestureEvent, gesture_depth, Gestures,
  button_gesture_is_combo_partner, is_child_lock, button_gesture_is_combo_partner_gesture,
  kept_events, write_events, button_gesture_purge_combo_partner_events,
}

-- Not a short or a long press of one of the two buttons.
abbrev pub IsOther : GestureEvent → Type 0
IsOther ev = (ev.kind ≡ child_lock_toggle) ⊎ (ev.id ≡ power)

-- The events that wait, none of them such a press.
pub record IsSilent (r : Ring GestureEvent) : Type 0 where
  pub ring : IsRing gesture_depth r
  pub others : All IsOther (contents gesture_depth r)

All-append : (xs ys : List GestureEvent) → All IsOther xs → All IsOther ys → All IsOther (xs ++ ys)
All-append [] ys hx hy = hy
All-append (x ∷ xs) ys hx hy = (hx.0, All-append xs ys hx.1 hy)

pub push-IsSilent :
    (r : Ring GestureEvent) (x : GestureEvent)
    → IsOther x
    → IsSilent r
    → IsSilent (push gesture_depth r x)
push-IsSilent r x o v = record {
  ring = push-IsRing gesture_depth r v.ring x;
  others = subst (All IsOther) (sym (contents-push gesture_depth r v.ring x)) (
      if_both (All IsOther) (count gesture_depth r + 1 == gesture_depth) _ _ (λ _. v.others)
        (λ _. All-append _ _ v.others (o, tt)));
}

kept-IsOther :
    (id : ButtonId) (kind : GestureKind) (at_ms : ℕ)
    → let ev : GestureEvent = record { id = id; kind = kind; at_ms = at_ms } in
      button_gesture_is_combo_partner_gesture ev ≡ false → IsOther ev
unfolding button_gesture_is_combo_partner_gesture is_child_lock button_gesture_is_combo_partner
kept-IsOther power kind at_ms e = inr refl
kept-IsOther id child_lock_toggle at_ms e = inl refl
kept-IsOther reset short at_ms e = absurd (cc e)
kept-IsOther reset long at_ms e = absurd (cc e)
kept-IsOther dispense short at_ms e = absurd (cc e)
kept-IsOther dispense long at_ms e = absurd (cc e)

kept_events-IsOther : (evs : List GestureEvent) → All IsOther (kept_events evs)
unfolding kept_events
kept_events-IsOther [] = tt
kept_events-IsOther (ev ∷ evs) =
    if_both (All IsOther) (button_gesture_is_combo_partner_gesture ev) _ _
      (λ _. kept_events-IsOther evs)
      (λ f. (kept-IsOther ev.id ev.kind ev.at_ms f, kept_events-IsOther evs))

kept_events-le : (evs : List GestureEvent) → length (kept_events evs) ≤ length evs
unfolding kept_events
kept_events-le [] = omega arith
kept_events-le (ev ∷ evs) =
    let rest = kept_events evs in
    let h = kept_events-le evs in
    if_both (λ l. length l ≤ suc (length evs)) (button_gesture_is_combo_partner_gesture ev) rest
      (ev ∷ rest) (λ _. omega (arith, h)) (λ _. omega (arith, h))

contents-written :
    (evs : List GestureEvent) (f : ℕ → GestureEvent)
    → length evs < gesture_depth
    → contents gesture_depth (record { slots = write_events evs 0 f; head = 0; tail = length evs })
      ≡ evs
unfolding contents count items write_events update
contents-written [] f h = refl
contents-written (a ∷ []) f h = refl
contents-written (a ∷ b ∷ []) f h = refl
contents-written (a ∷ b ∷ c ∷ []) f h = refl
contents-written (a ∷ b ∷ c ∷ d ∷ evs) f h = absurd (omega (arith, h))

pub purge-IsSilent :
    (s : Gestures)
    → IsRing gesture_depth s.events
    → IsSilent (button_gesture_purge_combo_partner_events s).events
unfolding button_gesture_purge_combo_partner_events
purge-IsSilent s v =
    let kept = kept_events (contents gesture_depth s.events) in
    let short_enough : length kept < gesture_depth = omega (
      arith,
      kept_events-le (contents gesture_depth s.events),
      length-contents gesture_depth s.events v,
      count-lt gesture_depth s.events v,
    ) in
    record {
      ring = record { head_in = omega arith; tail_in = short_enough };
      others =
          subst (All IsOther) (sym (contents-written kept s.events.slots short_enough))
            (kept_events-IsOther (contents gesture_depth s.events));
    }
