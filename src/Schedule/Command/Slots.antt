-- ===== src/Schedule/Command/Slots.antt =====
-- The three commands on a slot.
use xiaomi_feeder_iv.Schedule.Command.Answer.{
  slot_in-some, slot_in-lookup, slot_in-modify, ==_same, Answer, refused, missing, changed, Saves,
  FailsToSave, present, saved_bit, answer_found, answer_missing,
}
use xiaomi_feeder_iv.Schedule.Command.{
  cmd_ok, cmd_not_found, cmd_nvdm_fail, slot_in, exists_or_not, not_a_time, schedule_cmd_delete,
  schedule_cmd_toggle, schedule_cmd_skip,
}
use xiaomi_feeder_iv.Schedule.Edit.Valid.{IsWellFormed}
use xiaomi_feeder_iv.Schedule.Edit.Others.{
  with_skip, toggle_slot-some, lookup_missing, lookup-delete_slot, delete_slot-IsWellFormed,
  lookup-toggle_skip,
}
use xiaomi_feeder_iv.Schedule.Edit.{
  modify, remove, save_and_notify, schedule_delete_slot, flip_enabled, schedule_toggle_slot,
  schedule_skip_slot,
}
use xiaomi_feeder_iv.Schedule.Store.{ConfigPort, schedule_save_slots_blob}
use xiaomi_feeder_iv.Schedule.{Schedule, schedule_minutes, find_from}
use mathlib.Core.Option
use xiaomi_feeder_iv.Common.{
  if◌then◌else◌, Bool-cases, Option-cases, if_true, ℕ, ◌≤◌, ◌≡◌, ap, ◌∙◌, inl, inr, Bool, true,
  false, Option, none, some, arith,
}

module _ (port : Option ConfigPort) (hour min : ℕ) (s : Schedule) (v : IsWellFormed s.slots) where
  -- The calls of the schedule, as pairs.
  delete-none :
      find_from hour min 0 s.slots ≡ none → schedule_delete_slot port hour min s ≡ (s, false)
  unfolding schedule_delete_slot
  delete-none e = rw (e, schedule_delete_slot)

  delete-some :
      (n : ℕ)
      → find_from hour min 0 s.slots ≡ some n
      → schedule_delete_slot port hour min s
        ≡ save_and_notify port (record s { slots = remove n s.slots })
  unfolding schedule_delete_slot
  delete-some n e = rw (e, schedule_delete_slot)

  toggle-none :
      find_from hour min 0 s.slots ≡ none → schedule_toggle_slot port hour min s ≡ (s, false)
  unfolding schedule_toggle_slot
  toggle-none e = rw (e, schedule_toggle_slot)

  toggle-some :
      (n : ℕ)
      → find_from hour min 0 s.slots ≡ some n
      → schedule_toggle_slot port hour min s
        ≡ save_and_notify port (record s { slots = modify n flip_enabled s.slots })
  unfolding schedule_toggle_slot
  toggle-some n e = rw (e, schedule_toggle_slot)

  bit_of :
      (r : Schedule × Bool) (t : Schedule)
      → r ≡ save_and_notify port t
      → r.1 ≡ schedule_save_slots_blob port r.0
  bit_of r t e = rw e (saved_bit port hour min s v t)

  delete-Answer :
      hour ≤ 23
      → min ≤ 59
      → Answer
          (λ _. none)
          (Saves port)
          (FailsToSave port)
          cmd_not_found
          hour
          min
          s
          (exists_or_not hour min (schedule_delete_slot port hour min s))
  delete-Answer hh hm = elim (Option-cases (find_from hour min 0 s.slots)) [
    | inl e ↦ answer_missing port hour min s v (λ _. none) false _ (delete-none e) hh hm e
    | inr (n, e) ↦
        let r = schedule_delete_slot port hour min s in
        let c = lookup-delete_slot hour min s v port in
        answer_found port hour min s v (λ _. none) false r n e (λ k. c k hh hm)
          (bit_of r _ (delete-some n e))
          (slot_in-lookup hour min r.0.slots (delete_slot-IsWellFormed hour min s v port) (
            c (schedule_minutes hour min) hh hm
            ∙ if_true none _ (==_same (schedule_minutes hour min))))
  ]

  toggle-Answer :
      hour ≤ 23
      → min ≤ 59
      → Answer
          (Option.map flip_enabled)
          (Saves port)
          (FailsToSave port)
          cmd_nvdm_fail
          hour
          min
          s
          (exists_or_not hour min (schedule_toggle_slot port hour min s))
  toggle-Answer hh hm = elim (Option-cases (find_from hour min 0 s.slots)) [
    | inl e ↦
        answer_missing port hour min s v (Option.map flip_enabled) true _ (toggle-none e) hh hm e
    | inr (n, e) ↦
        let r = schedule_toggle_slot port hour min s in
        answer_found port hour min s v (Option.map flip_enabled) true r n e
          (λ k. (lookup-toggle_skip hour min s v port true k hh hm).0)
          (bit_of r _ (toggle-some n e))
          (ap (slot_in hour min) (toggle_slot-some hour min s port n e)
            ∙ slot_in-modify hour min n s.slots
            ∙ slot_in-some hour min 0 s.slots n e)
  ]

  skip-none :
      (skip : Bool)
      → find_from hour min 0 s.slots ≡ none
      → schedule_skip_slot hour min skip s ≡ (s, false)
  unfolding schedule_skip_slot
  skip-none skip e = rw (e, schedule_skip_slot)

  skip-some :
      (skip : Bool) (n : ℕ)
      → find_from hour min 0 s.slots ≡ some n
      → (schedule_skip_slot hour min skip s).1 ≡ true
  unfolding schedule_skip_slot
  skip-some skip n e = rw (e, schedule_skip_slot)

  skip-Answer :
      (skip : Bool)
      → hour ≤ 23
      → min ≤ 59
      → let r = schedule_skip_slot hour min skip s in
        Answer
          (Option.map (with_skip skip))
          (λ _. Unit)
          (λ _. ⊥)
          cmd_not_found
          hour
          min
          s
          (r.0, if r.1 then cmd_ok else cmd_not_found)
  skip-Answer skip hh hm = elim (Option-cases (find_from hour min 0 s.slots)) [
    | inl e ↦ rw (skip-none skip e) (missing (lookup_missing hour min s.slots v hh hm e))
    | inr (n, e) ↦ rw (skip-some skip n e) (
        changed _ (present port hour min s v n e)
          (λ k. (lookup-toggle_skip hour min s v port skip k hh hm).1) tt)
  ]

  -- On well-formed slots, each command on a slot answers `invalid` for what is no time of day and
  -- `not_found` where no slot is, and changes nothing then; else it changes the slot at that time and
  -- no other, and answers `ok` if the port took the new slots. If it did not, toggle answers
  -- `nvdm_fail`, but delete, whose slot is gone from memory, answers `not_found`. Skip saves nothing.
  pub slot_commands-Answer :
      (skip : Bool)
      → Answer
          (λ _. none)
          (Saves port)
          (FailsToSave port)
          cmd_not_found
          hour
          min
          s
          (schedule_cmd_delete port hour min s)
        × Answer
            (Option.map flip_enabled)
            (Saves port)
            (FailsToSave port)
            cmd_nvdm_fail
            hour
            min
            s
            (schedule_cmd_toggle port hour min s)
        × Answer
            (Option.map (with_skip skip))
            (λ _. Unit)
            (λ _. ⊥)
            cmd_not_found
            hour
            min
            s
            (schedule_cmd_skip hour min skip s)
  unfolding schedule_cmd_delete schedule_cmd_toggle schedule_cmd_skip
  slot_commands-Answer skip = elim (Bool-cases (not_a_time hour min)) [
    | inl e ↦ (rw e (refused e), rw e (refused e), rw e (refused e))
    | inr e ↦
        let hh : hour ≤ 23 = ground (arith, e) in
        let hm : min ≤ 59 = ground (arith, e) in
        (rw e (delete-Answer hh hm), rw e (toggle-Answer hh hm), rw e (skip-Answer skip hh hm))
  ]
