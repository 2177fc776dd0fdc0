-- ===== src/Ring.antt =====
-- The ring buffer with a head and a tail index that the debouncers use for their events
-- (firmware/src/button_input.c, button_gesture.c, hopper_input.c, hopper_level.c,
-- power_source_input.c): one of the `depth` places stays free, and an event that meets a full
-- buffer is dropped. The buffer of firmware/src/mqtt_outbox.c shares `items`.
pub mod Queue
pub mod Refine
use xiaomi_feeder_iv.Common.{
  ℕ, zero, suc, ◌+◌, ◌-◌, ◌%◌, ◌<◌, Option, none, some, List, [], ◌∷◌, ◌==◌, if◌then◌else◌, false,
}

module _ {ℓ} {A : Type ℓ} where
  -- A C array: reads and writes by index. Every index that the code uses is below `depth`.
  unfoldable pub update : (ℕ → A) → ℕ → A → ℕ → A
  update f i v j = if i == j then v else f j

  -- What the places i, i + 1, ... hold, n of them, round the end of the array.
  unfoldable pub items : (ℕ → A) → ℕ → ℕ → ℕ → List A
  items f depth i zero = []
  items f depth i (suc n) = f i ∷ items f depth ((i + 1) % depth) n

pub record Ring {ℓ} (A : Type ℓ) : Type ℓ where
  pub slots : ℕ → A
  pub head : ℕ
  pub tail : ℕ

module _ {ℓ} {A : Type ℓ} where
  -- `next = (tail + 1) % depth; if (next == head) return; slots[tail] = x; tail = next;`
  unfoldable pub push : ℕ → Ring A → A → Ring A
  push depth r x =
      let next = (r.tail + 1) % depth in
      if next == r.head then r else record r { slots = update r.slots r.tail x; tail = next }

  -- `if (head == tail) return false; *out = slots[head]; head = (head + 1) % depth;`
  unfoldable pub pop : ℕ → Ring A → Option (A × Ring A)
  pop depth r =
      if r.head == r.tail
      then none
      else some (r.slots r.head, record r { head = (r.head + 1) % depth })

  -- The number of events that wait, and the events, the oldest first.
  unfoldable pub count : ℕ → Ring A → ℕ
  count depth r = (r.tail + depth - r.head) % depth

  unfoldable pub contents : ℕ → Ring A → List A
  unfolding count
  contents depth r = items r.slots depth r.head (count depth r)

  pub record IsRing (depth : ℕ) (r : Ring A) : Type 0 where
    pub head_in : r.head < depth
    pub tail_in : r.tail < depth
