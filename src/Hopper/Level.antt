-- ===== src/Hopper/Level.antt =====
-- The published hopper level, firmware/src/hopper_level.c, on top of the debounced one.
use xiaomi_feeder_iv.Common.{
  if◌then◌else◌, ℕ, zero, suc, Bool, true, false, ◌&&◌, Option, none, some,
}
use xiaomi_feeder_iv.Ring.{Ring, push, pop}
use xiaomi_feeder_iv.Hopper.{
  level_normal, LevelTransition, hopper_input_depth, HopperInput, same_level,
  hopper_input_almost_empty, hopper_input_pop_transition,
}
use xiaomi_feeder_iv.Common.Int.{ℤ, pos, ltb_ℤ, leb_ℤ}

-- `dispense_outcome_t` of firmware/inc/dispense.h.
pub data Outcome : Type 0 where
  success stuck underfill empty_hopper aborted : Outcome

pub data PublishedLevel : Type 0 where
  state_normal state_low state_empty : PublishedLevel

pub record StateTransition : Type 0 where
  pub level : PublishedLevel
  pub at_ms : ℕ

abbrev pub hopper_level_depth : ℕ
hopper_level_depth = 4

pub record LevelState : Type 0 where
  pub published : PublishedLevel
  pub empty_latched : Bool
  pub transitions : Ring StateTransition

unfoldable pub hopper_level_compute : HopperInput → LevelState → PublishedLevel
hopper_level_compute input s =
    if s.empty_latched
    then state_empty
    else (if hopper_input_almost_empty input then state_low else state_normal)

unfoldable pub same_published : PublishedLevel → PublishedLevel → Bool
same_published state_normal state_normal = true
same_published state_low state_low = true
same_published state_empty state_empty = true
same_published a b = false

unfoldable pub hopper_level_enqueue_transition : PublishedLevel → ℕ → LevelState → LevelState
hopper_level_enqueue_transition level at_ms s = record s {
  transitions = push hopper_level_depth s.transitions (record { level = level; at_ms = at_ms });
}

unfoldable pub hopper_level_set_published : PublishedLevel → ℕ → LevelState → LevelState
hopper_level_set_published level at_ms s =
    if same_published level s.published
    then s
    else hopper_level_enqueue_transition level at_ms (record s { published = level })

unfoldable pub hopper_level_sync_published : ℕ → HopperInput → LevelState → LevelState
hopper_level_sync_published at_ms input s =
    hopper_level_set_published (hopper_level_compute input s) at_ms s

unfoldable pub is_success : Outcome → Bool
is_success success = true
is_success stuck = false
is_success underfill = false
is_success empty_hopper = false
is_success aborted = false

unfoldable pub hopper_level_should_latch_empty : Outcome → ℤ → Bool → HopperInput → Bool
hopper_level_should_latch_empty underfill raw_delta measured input = true
hopper_level_should_latch_empty outcome raw_delta measured input =
    is_success outcome && measured && leb_ℤ raw_delta (pos 0) && hopper_input_almost_empty input

unfoldable pub latch_after : Outcome → ℤ → Bool → HopperInput → Bool → Bool
latch_after outcome raw_delta measured input latched =
    let kept =
      if is_success outcome && measured && ltb_ℤ (pos 0) raw_delta then false else latched in
    if hopper_level_should_latch_empty outcome raw_delta measured input then true else kept

-- The outcome that is reported, and the new state.
unfoldable pub hopper_level_on_dispense_finished :
    Outcome → ℤ → Bool → ℕ → HopperInput → LevelState → Outcome × LevelState
hopper_level_on_dispense_finished outcome raw_delta measured now_ms input s =
    let t =
      hopper_level_sync_published now_ms input (record s {
        empty_latched = latch_after outcome raw_delta measured input s.empty_latched;
      }) in
    if is_success outcome && same_published t.published state_empty
    then (empty_hopper, t)
    else (outcome, t)

pub hopper_level_reset : LevelState → LevelState
hopper_level_reset s = record {
  published = state_normal;
  empty_latched = false;
  transitions = record s.transitions { head = 0; tail = 0 };
}

unfoldable pub on_input_transition : LevelTransition → HopperInput → LevelState → LevelState
on_input_transition tr input s = hopper_level_sync_published tr.at_ms input (
    if same_level tr.level level_normal && s.empty_latched
    then record s { empty_latched = false }
    else s)

-- `while (hopper_input_pop_transition(&tr))`, with fuel for the turns; `none` when it runs out.
unfoldable pub poll_loop : ℕ → HopperInput → LevelState → Option (HopperInput × LevelState)
poll_loop zero input s = none
poll_loop (suc fuel) input s = elim (hopper_input_pop_transition input) [
  | none ↦ some (input, s)
  | some (tr, rest) ↦ poll_loop fuel rest (on_input_transition tr rest s)
]

-- The buffer holds at most three transitions, so that four turns end the loop.
unfoldable pub hopper_level_poll : HopperInput → LevelState → Option (HopperInput × LevelState)
hopper_level_poll input s = poll_loop hopper_input_depth input s

abbrev pub popped_state :
    LevelState
    → Option (StateTransition × Ring StateTransition)
    → Option (StateTransition × LevelState)
popped_state s none = none
popped_state s (some (tr, rest)) = some (tr, record s { transitions = rest })

unfoldable pub hopper_level_pop_transition : LevelState → Option (StateTransition × LevelState)
hopper_level_pop_transition s = popped_state s (pop hopper_level_depth s.transitions)
