-- ===== src/Hopper/Drain.antt =====
-- The loop over the waiting transitions of the sensor.
use xiaomi_feeder_iv.Common.{
  Option-cases, length, ℕ, zero, suc, ◌<◌, ◌≡◌, refl, ap, ◌⊎◌, inl, inr, Option, some, [], arith,
}
use xiaomi_feeder_iv.Ring.{pop, contents, IsRing}
use xiaomi_feeder_iv.Ring.Queue.{count-lt, length-contents, pop-IsRing, waits_none, waits_some}
use xiaomi_feeder_iv.Hopper.{
  LevelTransition, hopper_input_depth, HopperInput, hopper_input_almost_empty,
  hopper_input_pop_transition,
}
use xiaomi_feeder_iv.Hopper.Level.{
  LevelState, hopper_level_compute, on_input_transition, poll_loop, hopper_level_poll,
}
use xiaomi_feeder_iv.Hopper.Latch.{sync-IsSynced}

-- What the loop over the waiting transitions gives.
pub record Drained (input : HopperInput) (s : LevelState) (r : Option (HopperInput × LevelState))
    : Type 0 where
  pub rest : HopperInput
  pub state : LevelState
  pub returns : r ≡ some (rest, state)
  pub emptied : contents hopper_input_depth rest.transitions ≡ []
  pub same_input : rest ≡ record input { transitions = rest.transitions }
  pub shown :
      ((contents hopper_input_depth input.transitions ≡ []) × (state ≡ s))
      ⊎ (state.published ≡ hopper_level_compute rest state)

step_shown :
    (ev : LevelTransition) (rest input : HopperInput) (state s : LevelState)
    → rest.level ≡ input.level
    → state ≡ on_input_transition ev input s
    → state.published ≡ hopper_level_compute rest state
unfolding hopper_level_compute hopper_input_almost_empty on_input_transition
step_shown ev rest input state s l q = rw (l, q) (sync-IsSynced ev.at_ms input _).shown

poll_loop-Drained :
    (fuel : ℕ) (input : HopperInput) (s : LevelState)
    → IsRing hopper_input_depth input.transitions
    → length (contents hopper_input_depth input.transitions) < fuel
    → Drained input s (poll_loop fuel input s)
unfolding poll_loop hopper_input_pop_transition
poll_loop-Drained zero input s v h = absurd (omega (arith, h))
poll_loop-Drained (suc fuel) input s v h =
    elim (Option-cases (pop hopper_input_depth input.transitions)) [
      | inl e ↦
          let empty = waits_none hopper_input_depth input.transitions v e in
          rw (e, poll_loop)
            (record {
              rest = input;
              state = s;
              returns = refl;
              emptied = empty;
              same_input = refl;
              shown = inl (empty, refl);
            })
      | inr ((ev, ring), e) ↦
          let more = waits_some hopper_input_depth input.transitions v e in
          let next : Drained (record input { transitions = ring })
              (on_input_transition ev (record input { transitions = ring }) s) _ =
            poll_loop-Drained fuel (record input { transitions = ring })
              (on_input_transition ev (record input { transitions = ring }) s)
              (pop-IsRing hopper_input_depth input.transitions v e)
              (omega (arith, h, ap length more)) in
          rw (e, poll_loop)
            (record {
              rest = next.rest;
              state = next.state;
              returns = next.returns;
              emptied = next.emptied;
              same_input = next.same_input;
              shown = inr (elim next.shown [
                | inl (none_left, q) ↦
                    step_shown ev next.rest (record input { transitions = ring }) next.state s
                      (ap (λ i. i.level) next.same_input) q
                | inr q ↦ q
              ]);
            })
    ]

-- The loop of `hopper_level_poll` ends with no transition left, whatever the buffer held; it only
-- empties the buffer of the debouncer, and if a transition was waiting, the published level is the
-- one that the latch and the debounced level give.
pub hopper_level_poll-Drained :
    (input : HopperInput) (s : LevelState)
    → IsRing hopper_input_depth input.transitions
    → Drained input s (hopper_level_poll input s)
unfolding hopper_level_poll
hopper_level_poll-Drained input s v = poll_loop-Drained hopper_input_depth input s v (
    omega (
      arith,
      length-contents hopper_input_depth input.transitions v,
      count-lt hopper_input_depth input.transitions v,
    ))
