-- ===== src/Outbox/Order.antt =====
-- Messages leave the outbox in the order in which they came in.
use xiaomi_feeder_iv.Common.{
  if◌then◌else◌, ℕ, ◌≤◌, ◌<◌, ◌≡◌, ap, Bool, Option, List, [], ◌∷◌, ◌++◌, take, refl, false, none,
  some,
}
use xiaomi_feeder_iv.Ring.{items}
use xiaomi_feeder_iv.Outbox.{
  mqtt_outbox_depth, Message, Outbox, MqttPort, mqtt_outbox_drain_one, mqtt_outbox_set_accepting,
  mqtt_outbox_enqueue,
}

-- The messages that wait, the oldest first.
unfoldable pub waiting : Outbox → List Message
waiting s = items s.slots mqtt_outbox_depth s.head s.count

pub record IsOutbox (s : Outbox) : Type 0 where
  pub head_in : s.head < mqtt_outbox_depth
  pub count_in : s.count ≤ mqtt_outbox_depth

-- What an enqueue gives: the message at the end of the queue, or nothing changed.
pub Enqueued : Message → Outbox → Bool × Outbox → Type 0
Enqueued m s r = IsOutbox r.1 × (waiting r.1 ≡ waiting s ++ (if r.0 then m ∷ [] else []))

as_list : Option Message → List Message
as_list none = []
as_list (some m) = m ∷ []

-- What a drain gives: the oldest message out, or nothing changed.
pub Removed : Outbox → Option Message × Outbox → Type 0
Removed s r = IsOutbox r.1 × (waiting s ≡ as_list r.0 ++ waiting r.1)

append_nil : (xs : List Message) → xs ≡ xs ++ []
append_nil [] = refl
append_nil (x ∷ xs) = ap (λ ys. x ∷ ys) (append_nil xs)

module _ (s : Outbox) (v : IsOutbox s) where
  refused : (m : Message) → Enqueued m s (false, s)
  unfolding Enqueued
  refused m = (v, append_nil (waiting s))

pub data Operation : Type 0 where
  enqueue : Option (List ℕ) → Option (List ℕ) → ℕ → ℕ → Bool → Operation
  drain : Option MqttPort → ℕ → Operation
  accept : Bool → Operation

pub bytes_of : Option (List ℕ) → List ℕ
bytes_of none = []
bytes_of (some bytes) = bytes

pub outbox_after : Operation → Outbox → Outbox
outbox_after (enqueue topic payload len qos retain) s =
    (mqtt_outbox_enqueue topic payload len qos retain s).1
outbox_after (drain port now) s = (mqtt_outbox_drain_one port now s).1
outbox_after (accept b) s = mqtt_outbox_set_accepting b s

pub offered : Option (List ℕ) → Option (List ℕ) → ℕ → ℕ → Bool → Message
offered topic payload len qos retain = record {
  topic = bytes_of topic;
  payload = take len (bytes_of payload);
  qos = qos;
  retain = retain;
}

-- What an operation puts into the queue, and what it publishes.
pub entered : Operation → Outbox → List Message
entered (enqueue topic payload len qos retain) s =
    if (mqtt_outbox_enqueue topic payload len qos retain s).0
    then offered topic payload len qos retain ∷ []
    else []
entered (drain port now) s = []
entered (accept b) s = []

pub published : Operation → Outbox → List Message
published (drain port now) s = as_list (mqtt_outbox_drain_one port now s).0
published (enqueue topic payload len qos retain) s = []
published (accept b) s = []

pub all_entered : List Operation → Outbox → List Message
all_entered [] s = []
all_entered (op ∷ ops) s = entered op s ++ all_entered ops (outbox_after op s)

pub all_published : List Operation → Outbox → List Message
all_published [] s = []
all_published (op ∷ ops) s = published op s ++ all_published ops (outbox_after op s)

pub outbox_at_end : List Operation → Outbox → Outbox
outbox_at_end [] s = s
outbox_at_end (op ∷ ops) s = outbox_at_end ops (outbox_after op s)

Conserves : Operation → Outbox → Type 0
Conserves op s =
    IsOutbox (outbox_after op s)
    × (waiting s ++ entered op s ≡ published op s ++ waiting (outbox_after op s))
