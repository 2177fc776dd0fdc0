-- ===== src/App.antt =====
-- The events of the application task, firmware/inc/app_event.h, and their queue,
-- firmware/src/app_event_port.c. The queue itself is the kernel's: a record of its calls is a
-- parameter, with the laws that the kernel documents, first in, first out. A post, a receive and a
-- release each happen at once: the software timers and the interrupt, which post the counted
-- events, run at a higher priority than the application task.
pub mod Batch
pub mod Order
pub mod Counted
pub mod Received
pub mod Flight
pub mod Turn
pub mod Memory
pub mod Taken
use xiaomi_feeder_iv.Common.{
  ltb, if◌then◌else◌, length, u8, ℕ, ◌+◌, ◌-◌, ◌≡◌, Bool, true, false, ◌&&◌, ◌||◌, Option, none,
  some, List, [], ◌∷◌, ◌++◌,
}
use xiaomi_feeder_iv.Dispense.{Request}

pub data SessionPhase : Type 0 where
  session_off session_connecting session_connected session_error : SessionPhase

-- The two heap blocks of a message, by their addresses, and the length.
pub record MqttMessage : Type 0 where
  pub topic : ℕ
  pub payload : ℕ
  pub len : ℕ

pub data GestureKind : Type 0 where
  gesture_short gesture_long gesture_child_lock_toggle : GestureKind

-- `app_event_t`: the type with the member of the union that belongs to it.
pub data AppEvent : Type 0 where
  app_boot wifi_connecting wifi_failed wifi_ap_mode : AppEvent
  wifi_ready : List ℕ → AppEvent
  mqtt_session : SessionPhase → AppEvent
  mqtt_connected : AppEvent
  mqtt_message : MqttMessage → AppEvent
  display_tick : ℕ → AppEvent
  timer_tick : AppEvent
  button_irq : ℕ → AppEvent
  button_gesture : ℕ → GestureKind → ℕ → AppEvent
  dispense_request : Request → AppEvent
  burst_done motor_fault park_done timed_run_done : AppEvent

abbrev pub is_display_tick : AppEvent → Bool
is_display_tick (display_tick now) = true
is_display_tick _ = false

abbrev pub is_timer_tick : AppEvent → Bool
is_timer_tick timer_tick = true
is_timer_tick _ = false

abbrev pub is_button_irq : AppEvent → Bool
is_button_irq (button_irq now) = true
is_button_irq _ = false

-- xQueueSend without waiting (`none` when the queue is full), xQueueReceive (`none` when it is
-- empty), and what a queue holds, oldest first.
pub record KernelQueue (Q : Type 0) : Type 0 where
  pub send : AppEvent → Q → Option Q
  pub receive : Q → Option (AppEvent × Q)
  pub waiting : Q → List AppEvent
  pub waiting-send :
      (e : AppEvent) (q q' : Q) → send e q ≡ some q' → waiting q' ≡ waiting q ++ e ∷ []
  pub receive-none : (q : Q) → receive q ≡ none → waiting q ≡ []
  pub receive-some :
      (q q' : Q) (e : AppEvent) → receive q ≡ some (e, q') → waiting q ≡ e ∷ waiting q'

-- The queue is `none` before `app_event_port_init`; `freed` is what vPortFree was called with.
pub record EventPort (Q : Type 0) : Type 0 where
  pub queue : Option Q
  pub display_ticks_queued : ℕ
  pub timer_ticks_queued : ℕ
  pub button_irq_queued : ℕ
  pub freed : List ℕ

abbrev pub add_if : Bool → ℕ → ℕ
add_if b n = if b then u8 (n + 1) else n

abbrev pub drop_if : Bool → ℕ → ℕ
drop_if b n = if b && ltb 0 n then n - 1 else n

-- What a release frees.
abbrev pub pointers : AppEvent → List ℕ
pointers (mqtt_message m) = m.topic ∷ m.payload ∷ []
pointers _ = []

module _ {Q : Type 0} where
  unfoldable pub app_event_port_init : Option Q → EventPort Q → EventPort Q
  app_event_port_init created p = elim p.queue [ none ↦ record p { queue = created } | some q ↦ p ]

  -- The three early returns of true.
  unfoldable pub coalesces : AppEvent → EventPort Q → Bool
  coalesces ev p =
      (is_display_tick ev && ltb 0 p.display_ticks_queued)
      || (is_timer_tick ev && ltb 0 p.timer_ticks_queued)
      || (is_button_irq ev && ltb 0 p.button_irq_queued)

  unfoldable pub count_queued : AppEvent → Q → EventPort Q → EventPort Q
  count_queued ev q p = record p {
    queue = some q;
    display_ticks_queued = add_if (is_display_tick ev) p.display_ticks_queued;
    timer_ticks_queued = add_if (is_timer_tick ev) p.timer_ticks_queued;
    button_irq_queued = add_if (is_button_irq ev) p.button_irq_queued;
  }

  unfoldable pub app_event_release : AppEvent → EventPort Q → EventPort Q
  app_event_release ev p = record p {
    display_ticks_queued = drop_if (is_display_tick ev) p.display_ticks_queued;
    timer_ticks_queued = drop_if (is_timer_tick ev) p.timer_ticks_queued;
    button_irq_queued = drop_if (is_button_irq ev) p.button_irq_queued;
    freed = p.freed ++ pointers ev;
  }

module _ {Q : Type 0} (kernel : KernelQueue Q) where
  unfoldable pub post_sent : AppEvent → EventPort Q → Option Q → EventPort Q × Bool
  post_sent ev p none = (p, false)
  post_sent ev p (some q) = (count_queued ev q p, true)

  unfoldable pub post_into : AppEvent → EventPort Q → Option Q → EventPort Q × Bool
  post_into ev p none = (p, false)
  post_into ev p (some q) = if coalesces ev p then (p, true) else post_sent ev p (kernel.send ev q)

  unfoldable pub app_event_post : AppEvent → EventPort Q → EventPort Q × Bool
  app_event_post ev p = post_into ev p p.queue

  -- The interrupt looks at and counts its own event only.
  unfoldable pub isr_sent : AppEvent → EventPort Q → Option Q → EventPort Q × Bool
  isr_sent ev p none = (p, false)
  isr_sent ev p (some q) = (
    record p { queue = some q; button_irq_queued = add_if (is_button_irq ev) p.button_irq_queued },
    true,
  )

  unfoldable pub isr_into : AppEvent → EventPort Q → Option Q → EventPort Q × Bool
  isr_into ev p none = (p, false)
  isr_into ev p (some q) =
      if is_button_irq ev && ltb 0 p.button_irq_queued
      then (p, true)
      else isr_sent ev p (kernel.send ev q)

  unfoldable pub app_event_post_from_isr : AppEvent → EventPort Q → EventPort Q × Bool
  app_event_post_from_isr ev p = isr_into ev p p.queue

  abbrev pub received : EventPort Q → Option (AppEvent × Q) → Option (AppEvent × EventPort Q)
  received p none = none
  received p (some (ev, q)) = some (ev, record p { queue = some q })

  unfoldable pub receive_from : EventPort Q → Option Q → Option (AppEvent × EventPort Q)
  receive_from p none = none
  receive_from p (some q) = received p (kernel.receive q)

  unfoldable pub app_event_receive : EventPort Q → Option (AppEvent × EventPort Q)
  app_event_receive p = receive_from p p.queue

-- What the queue holds.
abbrev pub queued : {Q : Type 0} → KernelQueue Q → EventPort Q → List AppEvent
queued kernel p = elim p.queue [ none ↦ [] | some q ↦ kernel.waiting q ]
