-- ===== src/Outbox.antt =====
-- The publish outbox, firmware/src/mqtt_outbox.c: a ring of `mqtt_outbox_depth` messages.
-- A string is its bytes without the final zero, a NULL pointer is `none`. The MQTT port is a
-- parameter of a drain: whether it is connected, and whether `publish` answers PORT_OK.
pub mod Order
use xiaomi_feeder_iv.Common.{
  ltb, leb, ◌==◌, if◌then◌else◌, length, take, sub32, ℕ, zero, ◌+◌, ◌-◌, ◌%◌, Bool, true, false,
  not, ◌&&◌, Option, none, some, List, [], ◌∷◌, ◌||◌,
}
use xiaomi_feeder_iv.Ring.{update}

abbrev pub mqtt_outbox_depth : ℕ
mqtt_outbox_depth = 24

abbrev pub mqtt_outbox_max_topic : ℕ
mqtt_outbox_max_topic = 128

abbrev pub mqtt_outbox_max_payload : ℕ
mqtt_outbox_max_payload = 1024

abbrev pub mqtt_outbox_min_drain_ms : ℕ
mqtt_outbox_min_drain_ms = 100

pub record Message : Type 0 where
  pub topic : List ℕ
  pub payload : List ℕ
  pub qos : ℕ
  pub retain : Bool

pub record Outbox : Type 0 where
  pub slots : ℕ → Message
  pub head : ℕ
  pub count : ℕ
  pub last_drain_ticks : ℕ
  pub drained_once : Bool
  pub accepting : Bool

pub empty_message : Message
empty_message = record { topic = []; payload = []; qos = 0; retain = false }

unfoldable pub mqtt_outbox_reset : Outbox → Outbox
mqtt_outbox_reset s = record s {
  slots = λ i. empty_message;
  head = 0;
  count = 0;
  last_drain_ticks = 0;
  drained_once = false;
}

unfoldable pub mqtt_outbox_set_accepting : Bool → Outbox → Outbox
mqtt_outbox_set_accepting accepting s = record s { accepting = accepting }

unfoldable pub append_message : Message → Outbox → Outbox
append_message m s = record s {
  slots = update s.slots ((s.head + s.count) % mqtt_outbox_depth) m;
  count = s.count + 1;
}

-- The early returns after the ones on NULL, in the code's order.
unfoldable pub refuses : List ℕ → ℕ → Outbox → Bool
refuses topic len s =
    leb mqtt_outbox_max_payload len
    || leb mqtt_outbox_max_topic (length topic)
    || not s.accepting
    || leb mqtt_outbox_depth s.count

unfoldable pub enqueue_guarded : List ℕ → List ℕ → ℕ → ℕ → Bool → Outbox → Bool × Outbox
enqueue_guarded topic payload len qos retain s = if refuses topic len s then (false, s) else (
  true,
  append_message (record { topic = topic; payload = take len payload; qos = qos; retain = retain })
      s,
)

unfoldable pub mqtt_outbox_enqueue :
    Option (List ℕ) → Option (List ℕ) → ℕ → ℕ → Bool → Outbox → Bool × Outbox
mqtt_outbox_enqueue none payload len qos retain s = (false, s)
mqtt_outbox_enqueue (some []) payload len qos retain s = (false, s)
mqtt_outbox_enqueue (some (c ∷ cs)) none len qos retain s =
    if not (len == 0) then (false, s) else enqueue_guarded (c ∷ cs) [] len qos retain s
mqtt_outbox_enqueue (some (c ∷ cs)) (some payload) len qos retain s =
    enqueue_guarded (c ∷ cs) payload len qos retain s

pub record MqttPort : Type 0 where
  pub is_connected : Bool
  pub publish : Message → Bool

unfoldable pub too_soon : ℕ → Outbox → Bool
too_soon now s = s.drained_once && ltb (sub32 now s.last_drain_ticks) mqtt_outbox_min_drain_ms

unfoldable pub drop_head : ℕ → Outbox → Outbox
drop_head now s = record s {
  last_drain_ticks = now;
  drained_once = true;
  head = (s.head + 1) % mqtt_outbox_depth;
  count = s.count - 1;
}

-- The early returns of a drain: `publish` is called when none of the tests before it holds.
unfoldable pub keeps_head : MqttPort → ℕ → Outbox → Bool
keeps_head port now s =
    (s.count == 0) || too_soon now s || not port.is_connected || not (port.publish (s.slots s.head))

-- The message that went out, if one did, and the new state.
unfoldable pub mqtt_outbox_drain_one : Option MqttPort → ℕ → Outbox → Option Message × Outbox
mqtt_outbox_drain_one none now s = (none, s)
mqtt_outbox_drain_one (some port) now s =
    if keeps_head port now s then (none, s) else (some (s.slots s.head), drop_head now s)
