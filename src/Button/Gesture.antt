-- ===== src/Button/Gesture.antt =====
-- The classification of presses into gestures, firmware/src/button_gesture.c.
use xiaomi_feeder_iv.Common.{
  ltb, leb, if◌then◌else◌, length, u32, ℕ, ◌+◌, Bool, true, false, not, ◌&&◌, ◌||◌, Option, none,
  some, List, [], ◌∷◌,
}
use xiaomi_feeder_iv.Ring.{update, Ring, push, pop, contents}
use xiaomi_feeder_iv.Button.{ButtonId, power, reset, dispense, edge_down, edge_up, ButtonTransition}

pub data GestureState : Type 0 where
  gesture_idle gesture_held gesture_long_fired : GestureState

pub record ChannelGesture : Type 0 where
  pub state : GestureState
  pub down_ms : ℕ
  pub long_fired : Bool
  pub down : Bool

pub data GestureKind : Type 0 where
  short long child_lock_toggle : GestureKind

pub record GestureEvent : Type 0 where
  pub id : ButtonId
  pub kind : GestureKind
  pub at_ms : ℕ

abbrev pub power_long_ms : ℕ
power_long_ms = 3000

abbrev pub reset_long_ms : ℕ
reset_long_ms = 7000

abbrev pub dispense_long_ms : ℕ
dispense_long_ms = 2000

abbrev pub child_lock_ms : ℕ
child_lock_ms = 3000

abbrev pub gesture_depth : ℕ
gesture_depth = 4

-- `s_channels[3]` and `s_down[3]` by button, and the rest of the file's state.
pub record Gestures : Type 0 where
  pub power_channel : ChannelGesture
  pub reset_channel : ChannelGesture
  pub dispense_channel : ChannelGesture
  pub events : Ring GestureEvent
  pub combo_start_ms : ℕ
  pub combo_active : Bool
  pub combo_fired : Bool
  pub combo_session : Bool

unfoldable pub channel_of : ButtonId → Gestures → ChannelGesture
channel_of power s = s.power_channel
channel_of reset s = s.reset_channel
channel_of dispense s = s.dispense_channel

unfoldable pub with_channel : ButtonId → ChannelGesture → Gestures → Gestures
with_channel power ch s = record s { power_channel = ch }
with_channel reset ch s = record s { reset_channel = ch }
with_channel dispense ch s = record s { dispense_channel = ch }

unfoldable pub button_gesture_is_combo_partner : ButtonId → Bool
button_gesture_is_combo_partner power = false
button_gesture_is_combo_partner reset = true
button_gesture_is_combo_partner dispense = true

unfoldable pub is_child_lock : GestureKind → Bool
is_child_lock short = false
is_child_lock long = false
is_child_lock child_lock_toggle = true

unfoldable pub button_gesture_is_combo_partner_gesture : GestureEvent → Bool
unfolding button_gesture_is_combo_partner
button_gesture_is_combo_partner_gesture ev =
    if is_child_lock ev.kind then false else button_gesture_is_combo_partner ev.id

-- The events that the purge keeps, the oldest first.
unfoldable pub kept_events : List GestureEvent → List GestureEvent
kept_events [] = []
kept_events (ev ∷ evs) =
    let rest = kept_events evs in
    if button_gesture_is_combo_partner_gesture ev then rest else ev ∷ rest

-- Writes a list to the places i, i + 1, ...
unfoldable pub write_events : List GestureEvent → ℕ → (ℕ → GestureEvent) → ℕ → GestureEvent
write_events [] i f = f
write_events (ev ∷ evs) i f = write_events evs (i + 1) (update f i ev)

unfoldable pub button_gesture_purge_combo_partner_events : Gestures → Gestures
button_gesture_purge_combo_partner_events s =
    let kept = kept_events (contents gesture_depth s.events) in
    record s {
      events = record { slots = write_events kept 0 s.events.slots; head = 0; tail = length kept };
    }

unfoldable pub button_gesture_end_combo_session_if_released : Gestures → Gestures
button_gesture_end_combo_session_if_released s =
    if not s.reset_channel.down && not s.dispense_channel.down
    then record s { combo_session = false }
    else s

unfoldable pub button_gesture_long_ms : ButtonId → ℕ
button_gesture_long_ms power = power_long_ms
button_gesture_long_ms reset = reset_long_ms
button_gesture_long_ms dispense = dispense_long_ms

unfoldable pub button_gesture_enqueue : ButtonId → GestureKind → ℕ → Gestures → Gestures
button_gesture_enqueue id kind at_ms s = record s {
  events = push gesture_depth s.events (record { id = id; kind = kind; at_ms = at_ms });
}

unfoldable pub button_gesture_combo_anchor_ms : Gestures → ℕ
button_gesture_combo_anchor_ms s =
    let reset_ms = s.reset_channel.down_ms in
    let dispense_ms = s.dispense_channel.down_ms in
    if ltb reset_ms dispense_ms then reset_ms else dispense_ms

unfoldable pub button_gesture_update_combo : Gestures → Gestures
unfolding button_gesture_combo_anchor_ms button_gesture_end_combo_session_if_released
button_gesture_update_combo s =
    if s.reset_channel.down && s.dispense_channel.down
    then (if not s.combo_active
        then record s {
          combo_active = true;
          combo_start_ms = button_gesture_combo_anchor_ms s;
          combo_fired = false;
          combo_session = true;
        }
        else s)
    else button_gesture_end_combo_session_if_released
        (record s { combo_active = false; combo_fired = false })

abbrev pub idle_channel : ChannelGesture
idle_channel = record { state = gesture_idle; down_ms = 0; long_fired = false; down = false }

unfoldable pub button_gesture_reset : Gestures → Gestures
button_gesture_reset s = record {
  power_channel = idle_channel;
  reset_channel = idle_channel;
  dispense_channel = idle_channel;
  events = record s.events { head = 0; tail = 0 };
  combo_start_ms = 0;
  combo_active = false;
  combo_fired = false;
  combo_session = false;
}

unfoldable pub is_held : GestureState → Bool
is_held gesture_idle = false
is_held gesture_held = true
is_held gesture_long_fired = false

abbrev pub to_idle : ButtonId → Gestures → Gestures
to_idle id s =
    with_channel id (record (channel_of id s) { state = gesture_idle; long_fired = false }) s

-- A button goes up.
unfoldable pub on_release : ButtonTransition → Gestures → Gestures
unfolding button_gesture_update_combo button_gesture_enqueue
on_release tr s =
    let up = with_channel tr.id (record (channel_of tr.id s) { down = false }) s in
    let t = button_gesture_update_combo up in
    if s.combo_session && button_gesture_is_combo_partner tr.id
    then to_idle tr.id t
    else (if is_held (channel_of tr.id t).state && not (channel_of tr.id t).long_fired
        then to_idle tr.id (button_gesture_enqueue tr.id short tr.at_ms t)
        else to_idle tr.id t)

unfoldable pub button_gesture_on_transition : ButtonTransition → Gestures → Gestures
unfolding on_release button_gesture_update_combo
button_gesture_on_transition tr s = elim tr.edge [
  | edge_down ↦ button_gesture_update_combo (
      with_channel tr.id
        (record { state = gesture_held; down_ms = tr.at_ms; long_fired = false; down = true }) s)
  | edge_up ↦ on_release tr s
]

unfoldable pub step_combo : ℕ → Gestures → Gestures
unfolding button_gesture_enqueue button_gesture_purge_combo_partner_events
step_combo now_ms s =
    if s.combo_active
      && not s.combo_fired
      && s.reset_channel.down
      && s.dispense_channel.down
      && leb (u32 (s.combo_start_ms + child_lock_ms)) now_ms
    then button_gesture_purge_combo_partner_events
        (record (button_gesture_enqueue reset child_lock_toggle now_ms s) { combo_fired = true })
    else s

-- The body of the loop over the channels.
unfoldable pub step_channel : ℕ → ButtonId → Gestures → Gestures
unfolding button_gesture_enqueue
step_channel now_ms id s =
    let ch = channel_of id s in
    if not (is_held ch.state)
      || ch.long_fired
      || (s.combo_session && button_gesture_is_combo_partner id)
    then s
    else (if leb (u32 (ch.down_ms + button_gesture_long_ms id)) now_ms
        then with_channel id (record ch { long_fired = true; state = gesture_long_fired })
            (button_gesture_enqueue id long now_ms s)
        else s)

unfoldable pub button_gesture_step : ℕ → Gestures → Gestures
unfolding step_combo step_channel
button_gesture_step now_ms s =
    step_channel now_ms dispense
      (step_channel now_ms reset (step_channel now_ms power (step_combo now_ms s)))

abbrev pub popped_event :
    Gestures → Option (GestureEvent × Ring GestureEvent) → Option (GestureEvent × Gestures)
popped_event s none = none
popped_event s (some (ev, rest)) = some (ev, record s { events = rest })

unfoldable pub button_gesture_pop : Gestures → Option (GestureEvent × Gestures)
button_gesture_pop s = popped_event s (pop gesture_depth s.events)
