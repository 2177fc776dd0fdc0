-- ===== src/Button/Press.antt =====
-- The two buttons of the child-lock combination stay silent while one of them is held after both were.
use xiaomi_feeder_iv.Common.{
  leb, if◌then◌else◌, if_both, u32, ℕ, ◌+◌, ◌≡◌, refl, sym, ap, ◌∙◌, inr, Bool, true, false, not,
  ◌&&◌, ◌||◌, List, [], ◌∷◌, arith,
}
use xiaomi_feeder_iv.Ring.{push}
use xiaomi_feeder_iv.Ring.Queue.{push-IsRing}
use xiaomi_feeder_iv.Button.{
  ButtonId, power, reset, dispense, ButtonEdge, edge_down, edge_up, ButtonTransition,
}
use xiaomi_feeder_iv.Button.Gesture.{
  gesture_held, gesture_long_fired, ChannelGesture, GestureKind, short, long, child_lock_toggle,
  GestureEvent, child_lock_ms, gesture_depth, Gestures, channel_of, with_channel,
  button_gesture_is_combo_partner, button_gesture_purge_combo_partner_events,
  button_gesture_end_combo_session_if_released, button_gesture_long_ms, button_gesture_enqueue,
  button_gesture_update_combo, is_held, to_idle, on_release, button_gesture_on_transition,
  step_combo, step_channel, button_gesture_step,
}
use xiaomi_feeder_iv.Button.Silent.{IsSilent, push-IsSilent, purge-IsSilent}

-- What happens to the buttons: a press or a release, or a tick of the loop.
pub data ButtonAct : Type 0 where
  turned : ButtonTransition → ButtonAct
  ticked : ℕ → ButtonAct

unfoldable pub acted : ButtonAct → Gestures → Gestures
acted (turned tr) s = button_gesture_on_transition tr s
acted (ticked now_ms) s = button_gesture_step now_ms s

unfoldable pub all_acted : List ButtonAct → Gestures → Gestures
all_acted [] s = s
all_acted (a ∷ acts) s = all_acted acts (acted a s)

abbrev one_held : Gestures → Bool
one_held s = s.reset_channel.down || s.dispense_channel.down

-- One of the two is held before each act; the last one may let go of it.
unfoldable pub StaysHeld : List ButtonAct → Gestures → Type 0
StaysHeld [] s = Unit
StaysHeld (a ∷ acts) s =
    (s.reset_channel.down || s.dispense_channel.down ≡ true) × StaysHeld acts (acted a s)

-- In a session of which the queue is silent.
record InSession (s : Gestures) : Type 0 where
  session : s.combo_session ≡ true
  silent : IsSilent s.events

-- After an act of a session: silent, and in the session as long as one of the two is held.
record Silently (s : Gestures) : Type 0 where
  kept : one_held s ≡ true → s.combo_session ≡ true
  silent : IsSilent s.events

update_combo-Silently :
    (s : Gestures)
    → s.combo_session ≡ true
    → IsSilent s.events
    → Silently (button_gesture_update_combo s)
unfolding button_gesture_update_combo button_gesture_end_combo_session_if_released
update_combo-Silently s h v =
    let both = s.reset_channel.down && s.dispense_channel.down in
    if_both Silently both _ _
      (λ _.
        if_both Silently (not s.combo_active) _ s (λ _. record { kept = λ _. refl; silent = v })
          (λ _. record { kept = λ _. h; silent = v }))
      (λ _.
        if_both Silently (not s.reset_channel.down && not s.dispense_channel.down) _ _
          (λ f. record { kept = λ held. absurd (ground (arith, f, held)); silent = v })
          (λ _. record { kept = λ _. h; silent = v }))

with_channel-InSession :
    (id : ButtonId) (ch : ChannelGesture) (s : Gestures)
    → InSession s
    → InSession (with_channel id ch s)
unfolding with_channel
with_channel-InSession power ch s v = record { session = v.session; silent = v.silent }
with_channel-InSession reset ch s v = record { session = v.session; silent = v.silent }
with_channel-InSession dispense ch s v = record { session = v.session; silent = v.silent }

to_idle-Silently : (id : ButtonId) (s : Gestures) → Silently s → Silently (to_idle id s)
unfolding with_channel channel_of
to_idle-Silently power s v = record { kept = v.kept; silent = v.silent }
to_idle-Silently reset s v = record { kept = v.kept; silent = v.silent }
to_idle-Silently dispense s v = record { kept = v.kept; silent = v.silent }

not_partner : (id : ButtonId) → button_gesture_is_combo_partner id ≡ false → id ≡ power
unfolding button_gesture_is_combo_partner
not_partner power e = refl
not_partner reset e = absurd (cc e)
not_partner dispense e = absurd (cc e)

enqueue-Silently :
    (id : ButtonId) (kind : GestureKind) (at_ms : ℕ) (s : Gestures)
    → id ≡ power
    → Silently s
    → Silently (button_gesture_enqueue id kind at_ms s)
unfolding button_gesture_enqueue
enqueue-Silently id kind at_ms s e v = record {
  kept = v.kept;
  silent = push-IsSilent s.events _ (inr e) v.silent;
}

release-Silently : (tr : ButtonTransition) (s : Gestures) → InSession s → Silently (on_release tr s)
unfolding on_release
release-Silently tr s v =
    let up = with_channel tr.id (record (channel_of tr.id s) { down = false }) s in
    let t = button_gesture_update_combo up in
    let w = with_channel-InSession tr.id (record (channel_of tr.id s) { down = false }) s v in
    let after : Silently t = update_combo-Silently up w.session w.silent in
    if_both Silently (s.combo_session && button_gesture_is_combo_partner tr.id) _ _
      (λ _. to_idle-Silently tr.id t after)
      (λ f.
        if_both Silently (is_held (channel_of tr.id t).state && not (channel_of tr.id t).long_fired)
          _ _
          (λ _.
            to_idle-Silently tr.id _
              (enqueue-Silently tr.id short tr.at_ms t (not_partner tr.id (outside f)) after))
          (λ _. to_idle-Silently tr.id t after))
  where
    outside :
        s.combo_session && button_gesture_is_combo_partner tr.id ≡ false
        → button_gesture_is_combo_partner tr.id ≡ false
    outside f = ap (λ b. b && button_gesture_is_combo_partner tr.id) (sym v.session) ∙ f

turned-Silently :
    (e : ButtonEdge) (tr : ButtonTransition) (s : Gestures)
    → InSession s
    → Silently (button_gesture_on_transition (record tr { edge = e }) s)
unfolding button_gesture_on_transition
turned-Silently edge_down tr s v =
    let w =
      with_channel-InSession tr.id
        (record { state = gesture_held; down_ms = tr.at_ms; long_fired = false; down = true }) s
        v in
    update_combo-Silently
      (with_channel tr.id
        (record { state = gesture_held; down_ms = tr.at_ms; long_fired = false; down = true }) s)
      w.session w.silent
turned-Silently edge_up tr s v = release-Silently tr s v

step_combo-InSession : (now_ms : ℕ) (s : Gestures) → InSession s → InSession (step_combo now_ms s)
unfolding step_combo button_gesture_enqueue
step_combo-InSession now_ms s v =
    let locks : GestureEvent = record { id = reset; kind = child_lock_toggle; at_ms = now_ms } in
    let fired = record s { events = push gesture_depth s.events locks; combo_fired = true } in
    if_both InSession
      (s.combo_active
        && not s.combo_fired
        && s.reset_channel.down
        && s.dispense_channel.down
        && leb (u32 (s.combo_start_ms + child_lock_ms)) now_ms)
      (button_gesture_purge_combo_partner_events fired) s
      (λ _. record {
        session = unfold button_gesture_purge_combo_partner_events in v.session;
        silent = purge-IsSilent fired (push-IsRing gesture_depth s.events v.silent.ring locks);
      })
      (λ _. v)

step_channel-InSession :
    (now_ms : ℕ) (id : ButtonId) (s : Gestures) → InSession s → InSession (step_channel now_ms id s)
unfolding step_channel button_gesture_enqueue
step_channel-InSession now_ms id s v =
    let a = not (is_held (channel_of id s).state) in
    let b = (channel_of id s).long_fired in
    let c = s.combo_session && button_gesture_is_combo_partner id in
    let ch = channel_of id s in
    let presses : GestureEvent = record { id = id; kind = long; at_ms = now_ms } in
    let pushed = record s { events = push gesture_depth s.events presses } in
    let fired = record ch { long_fired = true; state = gesture_long_fired } in
    let is_long = leb (u32 (ch.down_ms + button_gesture_long_ms id)) now_ms in
    if_both InSession (a || b || c) s (if is_long then with_channel id fired pushed else s) (λ _. v)
      (λ f.
        if_both InSession is_long (with_channel id fired pushed) s
          (λ _. with_channel-InSession id fired pushed (record {
            session = v.session;
            silent =
                push-IsSilent s.events presses (inr (not_partner id (outside a b c f refl)))
                  v.silent;
          }))
          (λ _. v))
  where
    outside :
        (a b c : Bool)
        → (a || b || c) ≡ false
        → c ≡ (s.combo_session && button_gesture_is_combo_partner id)
        → button_gesture_is_combo_partner id ≡ false
    outside false false c f e =
        ap (λ x. x && button_gesture_is_combo_partner id) (sym v.session) ∙ sym e ∙ f
    outside true b c f e = absurd (cc f)
    outside false true c f e = absurd (cc f)

acted-Silently : (a : ButtonAct) (s : Gestures) → InSession s → Silently (acted a s)
unfolding acted button_gesture_step
acted-Silently (turned tr) s v = turned-Silently tr.edge tr s v
acted-Silently (ticked now_ms) s v =
    let w = step_channel-InSession now_ms dispense _ (
      step_channel-InSession now_ms reset _
        (step_channel-InSession now_ms power _ (step_combo-InSession now_ms s v))) in
    record { kept = λ _. w.session; silent = w.silent }

all_acted-Silently :
    (acts : List ButtonAct) (s : Gestures)
    → Silently s
    → StaysHeld acts s
    → IsSilent (all_acted acts s).events
unfolding all_acted StaysHeld
all_acted-Silently [] s v h = v.silent
all_acted-Silently (a ∷ acts) s v (held, h) =
    all_acted-Silently acts (acted a s)
      (acted-Silently a s (record { session = v.kept held; silent = v.silent })) h

-- Once a combination session runs, and as long as one of its two buttons is held before each act: over
-- any presses and releases of any button and any ticks, the last release included, no short or long
-- press of the two enters the queue, in which only presses of the power button and child-lock toggles
-- wait.
pub all_acted-IsSilent :
    (acts : List ButtonAct) (s : Gestures)
    → s.combo_session ≡ true
    → IsSilent s.events
    → StaysHeld acts s
    → IsSilent (all_acted acts s).events
all_acted-IsSilent acts s e v h = all_acted-Silently acts s (record { kept = λ _. e; silent = v }) h
