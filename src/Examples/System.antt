-- ===== src/Examples/System.antt =====
-- The theorems on the event loop, the start of an image, the settings and the bowl at small concrete
-- states, with a queue of 32 places and a store of four texts.
use xiaomi_feeder_iv.Feed.Registers.{Keeps, set_overfill_threshold_g, apply, Applied, apply-Applied}
use xiaomi_feeder_iv.Feed.{
  FeedKey, key_child_lock, key_feed_mode, key_overfill_enabled, key_overfill_threshold_g, FeedPort,
}
use xiaomi_feeder_iv.Boot.Health.Confirm.{is_reached, polls, polls-starts}
use xiaomi_feeder_iv.Boot.Health.{ota_slot_health_on_boot}
use xiaomi_feeder_iv.Boot.Rollback.{other_bank, bank_after}
use xiaomi_feeder_iv.Boot.Jump.Cycles.{Works, starts, starts-switch}
use xiaomi_feeder_iv.Boot.Jump.Safe.{SafeJump, boot_addr-SafeJump}
use xiaomi_feeder_iv.Boot.Jump.{
  Flash, all_ones, bl_dual_image_bank_valid, bl_dual_image_boot_addr, boot_bank_switch_active,
}
use xiaomi_feeder_iv.Boot.{
  BootBank, bank_a, bank_b, boot_ctrl_magic, boot_flag_b, ControlBlock, boot_bank_resolve,
  boot_bank_load_address, boot_bank_is_unverified, Header, word, stack_in_ram,
  boot_bank_vector_table_valid, scan_from, boot_bank_scan_vector_table,
}
use xiaomi_feeder_iv.Common.Port.{PortErr, port_ok, not_found}
use xiaomi_feeder_iv.Common.{
  ltb, ◌==◌, if◌then◌else◌, if_true, if_false, if_both, length, All, u32_max, ℕ, ◌+◌, ◌≡◌, refl,
  sym, ap, ◌∙◌, ◌≢◌, Bool, true, false, ◌&&◌, Option, none, some, List, [], ◌∷◌, ◌++◌, arith,
}
use xiaomi_feeder_iv.App.{
  AppEvent, app_boot, mqtt_message, display_tick, timer_tick, button_irq, burst_done, KernelQueue,
  EventPort,
}
use xiaomi_feeder_iv.App.Batch.{Post, from_task, from_isr, app_dispatch_event_batch, app_task_turn}
use xiaomi_feeder_iv.App.Order.{
  dispatched, only_released, handle_all, release_all, dispatch_event_batch-ordered,
}
use xiaomi_feeder_iv.App.Counted.{count_of, IsCounted}
use xiaomi_feeder_iv.App.Turn.{turn, posts, happen, happen-IsCounted}
use xiaomi_feeder_iv.App.Flight.{IsSafe}
use xiaomi_feeder_iv.App.Taken.{Turned, task_turn-Turned}

abbrev received_of : List AppEvent → Option (AppEvent × List AppEvent)
received_of [] = none
received_of (e ∷ q) = some (e, q)

kernel-sent :
    (e : AppEvent) (q q' : List AppEvent)
    → (if ltb (length q) 32 then some (q ++ e ∷ []) else none) ≡ some q'
    → q' ≡ q ++ e ∷ []
kernel-sent e q q' =
    if_both (λ (o : Option (List AppEvent)). o ≡ some q' → q' ≡ q ++ e ∷ []) (ltb (length q) 32)
      (some (q ++ e ∷ [])) none (λ _ h. cc h) (λ _ h. absurd (cc h))

kernel-empty : (q : List AppEvent) → received_of q ≡ none → q ≡ []
kernel-empty [] h = refl
kernel-empty (e ∷ q) h = absurd (cc h)

kernel-oldest : (q q' : List AppEvent) (e : AppEvent) → received_of q ≡ some (e, q') → q ≡ e ∷ q'
kernel-oldest [] q' e h = absurd (cc h)
kernel-oldest (x ∷ q) q' e h = cc h

abbrev kernel_queue : KernelQueue (List AppEvent)
kernel_queue = record {
  send = λ e q. if ltb (length q) 32 then some (q ++ e ∷ []) else none;
  receive = received_of;
  waiting = λ q. q;
  waiting-send = kernel-sent;
  receive-none = kernel-empty;
  receive-some = kernel-oldest;
}

-- A dispatch counts, and a burst that is done posts a tick as the timer would, and an interrupt.
abbrev count_events : AppEvent → ℕ → ℕ × List Post
count_events burst_done n = (n + 1, from_task (display_tick 7) ∷ from_isr (button_irq 7) ∷ [])
count_events _ n = (n + 1, [])

abbrev message : AppEvent
message = mqtt_message (record { topic = 100; payload = 200; len = 5 })

abbrev some_events : List AppEvent
some_events = display_tick 5 ∷ burst_done ∷ message ∷ []

abbrev event_port : EventPort (List AppEvent)
event_port = record {
  queue = some some_events;
  display_ticks_queued = 1;
  timer_ticks_queued = 0;
  button_irq_queued = 0;
  freed = [];
}

dispatch_event_batch-ordered_example :
    app_dispatch_event_batch kernel_queue count_events some_events (0, event_port)
    ≡ release_all kernel_queue count_events
        (only_released some_events)
        (handle_all kernel_queue count_events (dispatched some_events) (0, event_port))
dispatch_event_batch-ordered_example =
    dispatch_event_batch-ordered kernel_queue count_events some_events (0, event_port)

count_events-IsSafe : (ev : AppEvent) (n : ℕ) → All IsSafe (count_events ev n).1
count_events-IsSafe burst_done n = (tt, ((refl, refl), tt))
count_events-IsSafe app_boot n = tt
count_events-IsSafe _ n = tt

event_port-IsCounted : IsCounted kernel_queue [] event_port
unfolding count_of
event_port-IsCounted = record {
  display = (refl, omega arith);
  timer = (refl, omega arith);
  irq = (refl, omega arith);
}

happen-IsCounted_example :
    IsCounted kernel_queue []
      (happen kernel_queue count_events
        (turn 50 ∷ posts (from_task timer_tick ∷ []) ∷ turn 100 ∷ [])
        (0, event_port)).1
happen-IsCounted_example =
    happen-IsCounted kernel_queue count_events
      (turn 50 ∷ posts (from_task timer_tick ∷ []) ∷ turn 100 ∷ []) 0 event_port count_events-IsSafe
      (tt, ((tt, tt), (tt, tt))) event_port-IsCounted

task_turn-Turned_example :
    Turned kernel_queue count_events event_port
      (app_task_turn kernel_queue count_events 50 (0, event_port)).1
task_turn-Turned_example = task_turn-Turned kernel_queue count_events 50 0 event_port

-- A flash that works, with a vector table at the start of each bank.
abbrev table_at : ℕ → Header
table_at high = record {
  b0 = 0;
  b1 = 0x80;
  b2 = 0x01;
  b3 = 0x04;
  b4 = 0x01;
  b5 = 0x21;
  b6 = high;
  b7 = 0x08;
}

abbrev is_erased : ControlBlock → Bool
is_erased cell =
    (cell.magic == u32_max) && (cell.active_flag == u32_max) && (cell.unverified == u32_max)

-- It refuses to program a place that is not erased.
abbrev working_flash : Flash
working_flash = record {
  read_block = λ cell. some cell;
  erase = λ cell. (true, all_ones);
  write = λ ctrl cell. if is_erased cell then (true, ctrl) else (false, cell);
  read_header = λ offset. some (table_at (if ltb offset 0x100000 then 0x01 else 0x10));
}

both-valid : (bank : BootBank) → bl_dual_image_bank_valid working_flash bank ≡ true
unfolding bl_dual_image_bank_valid boot_bank_scan_vector_table scan_from
    boot_bank_vector_table_valid word stack_in_ram boot_bank_load_address
both-valid bank_a = refl
both-valid bank_b = refl

working_flash-Works : Works working_flash
working_flash-Works = record {
  reads = λ cell. refl;
  erases = λ cell. refl;
  writes = λ ctrl. refl;
  images = both-valid;
}

abbrev new_image : ControlBlock
new_image = record {
  magic = boot_ctrl_magic;
  active_flag = boot_flag_b;
  unverified = 1;
  boot_attempts = 1;
  rolled_back = 0;
}

boot_addr-SafeJump_example :
    SafeJump working_flash (bl_dual_image_boot_addr working_flash new_image).0
boot_addr-SafeJump_example = boot_addr-SafeJump working_flash new_image

starts-switch_example :
    (bl_dual_image_boot_addr working_flash
      (starts working_flash 2 (boot_bank_switch_active working_flash new_image).1)).0
    ≡ boot_bank_load_address (bank_after 3 (other_bank (boot_bank_resolve (some new_image))))
starts-switch_example = starts-switch working_flash working_flash-Works 2 new_image

polls-starts_example :
    let h = (ota_slot_health_on_boot working_flash 60000 500 none new_image).0 in
    let after = (polls working_flash (1000 ∷ 60499 ∷ 60500 ∷ 61000 ∷ []) h new_image).1 in
    (after ≡ record new_image { unverified = 0; boot_attempts = 0 })
    × ((bl_dual_image_boot_addr working_flash (starts working_flash 9 after)).0
        ≡ boot_bank_load_address (boot_bank_resolve (some new_image)))
polls-starts_example =
    polls-starts working_flash working_flash-Works 9 60000 500 none
      (1000 ∷ 60499 ∷ 60500 ∷ 61000 ∷ []) new_image (unfold boot_bank_is_unverified in refl)
      (omega arith) (unfold is_reached in refl)

-- A store with a text, or none, for each of the four keys.
abbrev Store : Type 0
Store = FeedKey → Option (List ℕ)

abbrev same_feed_key : FeedKey → FeedKey → Bool
same_feed_key key_child_lock key_child_lock = true
same_feed_key key_feed_mode key_feed_mode = true
same_feed_key key_overfill_enabled key_overfill_enabled = true
same_feed_key key_overfill_threshold_g key_overfill_threshold_g = true
same_feed_key _ _ = false

abbrev stored : Option (List ℕ) → PortErr × List ℕ
stored none = (not_found, [])
stored (some text) = (port_ok, text)

abbrev feed_port : FeedPort Store
feed_port = record {
  read = λ key size s. stored (s key);
  write = λ key text s. (port_ok, λ other. if same_feed_key other key then some text else s other);
}

same_self : (key : FeedKey) → same_feed_key key key ≡ true
same_self key_child_lock = refl
same_self key_feed_mode = refl
same_self key_overfill_enabled = refl
same_self key_overfill_threshold_g = refl

same_other : (other key : FeedKey) → other ≢ key → same_feed_key other key ≡ false
same_other key_child_lock key_child_lock n = absurd (n refl)
same_other key_feed_mode key_feed_mode n = absurd (n refl)
same_other key_overfill_enabled key_overfill_enabled n = absurd (n refl)
same_other key_overfill_threshold_g key_overfill_threshold_g n = absurd (n refl)
same_other _ _ n = refl

feed_port-Keeps : Keeps feed_port
feed_port-Keeps = record {
  same = λ key text size s s' e h.
      ap (λ (r : PortErr × Store). stored (r.1 key)) (sym e)
      ∙ ap stored (if_true (some text) (s key) (same_self key));
  others = λ key other text size s s' e n.
      ap (λ (r : PortErr × Store). stored (r.1 other)) (sym e)
      ∙ ap stored (if_false (some text) (s other) (same_other other key n));
}

apply-Applied_example :
    Applied feed_port
      (set_overfill_threshold_g 75)
      (λ key. none)
      (apply feed_port (set_overfill_threshold_g 75) (λ key. none))
apply-Applied_example =
    apply-Applied feed_port feed_port-Keeps (set_overfill_threshold_g 75) (λ key. none)
