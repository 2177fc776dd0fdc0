-- ===== src/Power.antt =====
-- The debounced mains sense, firmware/src/power_source_input.c.
-- `read_present` of the port is a parameter of each operation that would call it.
pub mod Noise
use xiaomi_feeder_iv.Common.{
  ltb, leb, ◌==◌, if◌then◌else◌, u32, ℕ, ◌+◌, Bool, true, false, not, ◌&&◌, ◌||◌, Option, none,
  some,
}
use xiaomi_feeder_iv.Ring.{Ring, push, pop}

pub data PowerEdge : Type 0 where
  edge_mains edge_battery : PowerEdge

pub record PowerTransition : Type 0 where
  pub edge : PowerEdge
  pub at_ms : ℕ

abbrev pub power_debounce_ms : ℕ
power_debounce_ms = 50

abbrev pub power_depth : ℕ
power_depth = 4

pub record PowerInput : Type 0 where
  pub irq_sample_after_ms : ℕ
  pub last_mains : Bool
  pub confirmed_mains : Bool
  pub valid : Bool
  pub transitions : Ring PowerTransition

-- No port, an error, or whether mains is present.
pub data MainsRead : Type 0 where
  no_port read_failed : MainsRead
  mains : Bool → MainsRead

unfoldable pub power_source_input_enqueue_transition : PowerEdge → ℕ → PowerInput → PowerInput
power_source_input_enqueue_transition edge at_ms s = record s {
  transitions = push power_depth s.transitions (record { edge = edge; at_ms = at_ms });
}

unfoldable pub power_source_input_confirm : Bool → ℕ → PowerInput → PowerInput
unfolding power_source_input_enqueue_transition
power_source_input_confirm mains_present at_ms s =
    power_source_input_enqueue_transition (if mains_present then edge_mains else edge_battery) at_ms
      (record s { confirmed_mains = mains_present })

unfoldable pub power_source_input_may_sample : ℕ → Bool → PowerInput → Bool
power_source_input_may_sample now_ms bypass_irq_gate s =
    if bypass_irq_gate || (s.irq_sample_after_ms == 0)
    then true
    else leb s.irq_sample_after_ms now_ms

unfoldable pub same : Bool → Bool → Bool
same true b = b
same false b = not b

unfoldable pub power_source_input_apply_reading : Bool → ℕ → PowerInput → PowerInput
power_source_input_apply_reading mains_present now_ms s =
    record (if same mains_present s.last_mains && not (same mains_present s.confirmed_mains)
      then power_source_input_confirm mains_present now_ms s
      else s) { last_mains = mains_present }

unfoldable pub reading_taken : MainsRead → ℕ → PowerInput → PowerInput
reading_taken no_port now_ms s = s
reading_taken read_failed now_ms s = s
reading_taken (mains present) now_ms s =
    power_source_input_apply_reading present now_ms (record s { valid = true })

unfoldable pub power_source_input_read : MainsRead → Bool → ℕ → PowerInput → PowerInput
power_source_input_read answer bypass_irq_gate now_ms s =
    if not (power_source_input_may_sample now_ms bypass_irq_gate s)
    then s
    else reading_taken answer now_ms s

unfoldable pub power_source_input_boot_seed : MainsRead → PowerInput → PowerInput
power_source_input_boot_seed no_port s = s
power_source_input_boot_seed read_failed s = record s { valid = false }
power_source_input_boot_seed (mains present) s = record s {
  valid = true;
  last_mains = present;
  confirmed_mains = present;
}

unfoldable pub power_source_input_reset : PowerInput → PowerInput
power_source_input_reset s = record {
  irq_sample_after_ms = 0;
  last_mains = false;
  confirmed_mains = false;
  valid = false;
  transitions = record s.transitions { head = 0; tail = 0 };
}

unfoldable pub power_source_input_init : MainsRead → PowerInput → PowerInput
unfolding power_source_input_boot_seed power_source_input_reset
power_source_input_init answer s = power_source_input_boot_seed answer (power_source_input_reset s)

unfoldable pub power_source_input_notify_irq : ℕ → PowerInput → PowerInput
power_source_input_notify_irq now_ms s =
    let ready_at = u32 (now_ms + power_debounce_ms) in
    if ltb s.irq_sample_after_ms ready_at then record s { irq_sample_after_ms = ready_at } else s

unfoldable pub power_source_input_poll : MainsRead → ℕ → PowerInput → PowerInput
unfolding power_source_input_read
power_source_input_poll answer now_ms s = power_source_input_read answer false now_ms s

abbrev pub popped_edge :
    PowerInput
    → Option (PowerTransition × Ring PowerTransition)
    → Option (PowerTransition × PowerInput)
popped_edge s none = none
popped_edge s (some (tr, rest)) = some (tr, record s { transitions = rest })

unfoldable pub power_source_input_pop_transition :
    PowerInput → Option (PowerTransition × PowerInput)
power_source_input_pop_transition s = popped_edge s (pop power_depth s.transitions)
