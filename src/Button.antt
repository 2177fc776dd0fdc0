-- ===== src/Button.antt =====
-- The button debouncer, firmware/src/button_input.c: three channels, two of them behind an
-- interrupt. `read_sample` of the port is a parameter of each poll. Button.Gesture is the
-- classification of the transitions.
pub mod Gesture
pub mod Silent
pub mod Press
use xiaomi_feeder_iv.Common.{
  ltb, leb, ◌==◌, if◌then◌else◌, u32, ℕ, ◌+◌, Bool, true, false, not, ◌&&◌, ◌||◌, Option, none,
  some, List, [], ◌∷◌, map,
}
use xiaomi_feeder_iv.Ring.{Ring, push, pop}

pub data ButtonId : Type 0 where
  power reset dispense : ButtonId

pub data ButtonEdge : Type 0 where
  edge_down edge_up : ButtonEdge

pub record ButtonTransition : Type 0 where
  pub id : ButtonId
  pub edge : ButtonEdge
  pub at_ms : ℕ

abbrev pub button_debounce_ms : ℕ
button_debounce_ms = 50

abbrev pub button_input_depth : ℕ
button_input_depth = 8

-- `button_channel_t`; the reader of the sample is the channel's id.
pub record Channel : Type 0 where
  pub id : ButtonId
  pub irq_backed : Bool
  pub last : Bool
  pub confirmed : Bool

pub record ButtonInput : Type 0 where
  pub irq_sample_after_ms : ℕ
  pub channels : List Channel
  pub transitions : Ring ButtonTransition

pub record ButtonSample : Type 0 where
  pub power_pressed : Bool
  pub reset_pressed : Bool
  pub dispense_pressed : Bool

-- No port, an error, or a sample.
pub data SampleRead : Type 0 where
  no_port read_failed : SampleRead
  sampled : ButtonSample → SampleRead

unfoldable pub is_pressed : ButtonId → ButtonSample → Bool
is_pressed power sample = sample.power_pressed
is_pressed reset sample = sample.reset_pressed
is_pressed dispense sample = sample.dispense_pressed

unfoldable pub equal : Bool → Bool → Bool
equal true b = b
equal false b = not b

unfoldable pub button_channel_may_sample : ℕ → Channel → ℕ → Bool
button_channel_may_sample irq_sample_after_ms ch now_ms =
    if not ch.irq_backed || (irq_sample_after_ms == 0) then true else leb irq_sample_after_ms now_ms

-- The channel after a sample, and the transitions.
unfoldable pub button_input_update_channel :
    ℕ → Channel → Bool → ℕ → Ring ButtonTransition → Channel × Ring ButtonTransition
unfolding button_channel_may_sample
button_input_update_channel irq_sample_after_ms ch pressed now_ms queue =
    if not (button_channel_may_sample irq_sample_after_ms ch now_ms)
    then (ch, queue)
    else (if equal pressed ch.last && not (equal pressed ch.confirmed)
        then (
          record ch { confirmed = pressed; last = pressed },
          push button_input_depth queue (record {
            id = ch.id;
            edge = if pressed then edge_down else edge_up;
            at_ms = now_ms;
          }),
        )
        else (record ch { last = pressed }, queue))

-- The loop over the channels.
pub update_channels :
    ℕ
    → ButtonSample
    → ℕ
    → List Channel
    → Ring ButtonTransition
    → List Channel × Ring ButtonTransition
unfolding button_input_update_channel
update_channels irq sample now_ms [] queue = ([], queue)
update_channels irq sample now_ms (ch ∷ chs) queue =
    let (ch', queue') = button_input_update_channel irq ch (is_pressed ch.id sample) now_ms queue in
    let (chs', queue'') = update_channels irq sample now_ms chs queue' in (ch' ∷ chs', queue'')

unfoldable pub button_input_apply_sample : ButtonSample → ℕ → ButtonInput → ButtonInput
unfolding update_channels
button_input_apply_sample sample now_ms s =
    let (chs, queue) =
      update_channels s.irq_sample_after_ms sample now_ms s.channels s.transitions in
    record s { channels = chs; transitions = queue }

unfoldable pub button_input_poll : SampleRead → ℕ → ButtonInput → ButtonInput
button_input_poll no_port now_ms s = s
button_input_poll read_failed now_ms s = s
button_input_poll (sampled sample) now_ms s = button_input_apply_sample sample now_ms s

abbrev pub released : Channel → Channel
released ch = record ch { last = false; confirmed = false }

unfoldable pub button_input_reset : ButtonInput → ButtonInput
button_input_reset s = record {
  irq_sample_after_ms = 0;
  channels = map released s.channels;
  transitions = record s.transitions { head = 0; tail = 0 };
}

unfoldable pub button_input_notify_irq : ℕ → ButtonInput → ButtonInput
button_input_notify_irq now_ms s =
    let ready_at = u32 (now_ms + button_debounce_ms) in
    if ltb s.irq_sample_after_ms ready_at then record s { irq_sample_after_ms = ready_at } else s

abbrev pub popped_button :
    ButtonInput
    → Option (ButtonTransition × Ring ButtonTransition)
    → Option (ButtonTransition × ButtonInput)
popped_button s none = none
popped_button s (some (tr, rest)) = some (tr, record s { transitions = rest })

unfoldable pub button_input_pop_transition : ButtonInput → Option (ButtonTransition × ButtonInput)
button_input_pop_transition s = popped_button s (pop button_input_depth s.transitions)
