-- ===== src/Schedule/Command/Answer.antt =====
-- What each command on a slot answers, and what it has changed then.
use xiaomi_feeder_iv.Schedule.Store.{ConfigPort, stored_config, schedule_save_slots_blob}
use mathlib.Core.Path.{subst}
use xiaomi_feeder_iv.Common.{
  ◌==◌, if◌then◌else◌, ==_iff, Bool-cases, Option-cases, ℕ, zero, suc, ◌+◌, ◌≤◌, min, ◌≡◌, refl,
  sym, ◌∙◌, ◌≢◌, inl, inr, Bool, true, false, Option, none, some, List, [], ◌∷◌, arith,
}
use xiaomi_feeder_iv.Schedule.{
  Entry, Schedule, schedule_minutes, find_from, schedule_notify_changed,
}
use xiaomi_feeder_iv.Schedule.Sort.{lookup}
use xiaomi_feeder_iv.Schedule.Edit.{modify, save_and_notify, flip_enabled}
use xiaomi_feeder_iv.Schedule.Edit.Shape.{lookup_entry, Found, find-Found}
use xiaomi_feeder_iv.Schedule.Edit.Valid.{IsWellFormed}
use xiaomi_feeder_iv.Schedule.Edit.Others.{Found-minutes, lookup_missing}
use xiaomi_feeder_iv.Schedule.Command.{
  CmdResult, cmd_ok, cmd_invalid, cmd_not_found, cmd_nvdm_fail, slot_in, schedule_cmd_slot_exists,
  exists_or_not, not_a_time,
}

-- `slot_in` is the search of `schedule_find_index`.
slot_in-none :
    (hour min i : ℕ) (es : List Entry)
    → find_from hour min i es ≡ none
    → slot_in hour min es ≡ false
unfolding slot_in find_from
slot_in-none hour min i [] e = refl
slot_in-none hour min i (x ∷ xs) e = ground (arith, slot_in-none hour min (i + 1) xs)

pub slot_in-some :
    (hour min i : ℕ) (es : List Entry) (n : ℕ)
    → find_from hour min i es ≡ some n
    → slot_in hour min es ≡ true
unfolding slot_in find_from
slot_in-some hour min i [] n e = cc
slot_in-some hour min i (x ∷ xs) n e = ground (arith, slot_in-some hour min (i + 1) xs n)

pub slot_in-lookup :
    (hour min : ℕ) (es : List Entry)
    → IsWellFormed es
    → lookup (schedule_minutes hour min) es ≡ none
    → slot_in hour min es ≡ false
slot_in-lookup hour min es v e = elim (Option-cases (find_from hour min 0 es)) [
  | inl f ↦ slot_in-none hour min 0 es f
  | inr (n, f) ↦
      let found : Found hour min es n = find-Found hour min es n f in
      let here = lookup_entry es n found.entry found.at v.order in
      absurd (cc (sym here, subst (λ t. lookup t es ≡ none) (sym (Found-minutes {n = n} found)) e))
]

pub slot_in-modify :
    (hour min n : ℕ) (es : List Entry)
    → slot_in hour min (modify n flip_enabled es) ≡ slot_in hour min es
unfolding slot_in modify
slot_in-modify hour min n [] = refl
slot_in-modify hour min zero (x ∷ xs) = refl
slot_in-modify hour min (suc n) (x ∷ xs) = rw (slot_in-modify hour min n xs) refl

pub ==_same : (n : ℕ) → (n == n) ≡ true
==_same n = (==_iff n n).1 refl

-- The answer of a command at a time: `change` is what it does to the entry there, `Saved` and
-- `Unsaved` say of the new schedule whether the port took it, `failed` is the code when it did not.
module _ (change : Option Entry → Option Entry) (Saved Unsaved : Schedule → Type 0)
    (failed : CmdResult) (hour min : ℕ) (s : Schedule) where
  abbrev IsPresent : Type 0
  IsPresent = lookup (schedule_minutes hour min) s.slots ≢ none

  abbrev Changed : Schedule → Type 0
  Changed s' =
      (k : ℕ)
      → lookup k s'.slots
        ≡ (if schedule_minutes hour min == k then change (lookup k s.slots) else lookup k s.slots)

  pub data Answer : Schedule × CmdResult → Type 0 where
    refused : not_a_time hour min ≡ true → Answer (s, cmd_invalid)
    missing : lookup (schedule_minutes hour min) s.slots ≡ none → Answer (s, cmd_not_found)
    changed : (s' : Schedule) → IsPresent → Changed s' → Saved s' → Answer (s', cmd_ok)
    unsaved : (s' : Schedule) → IsPresent → Changed s' → Unsaved s' → Answer (s', failed)

-- Whether the port takes the slots.
abbrev pub Saves : Option ConfigPort → Schedule → Type 0
Saves port s = schedule_save_slots_blob port s ≡ true

abbrev pub FailsToSave : Option ConfigPort → Schedule → Type 0
FailsToSave port s = schedule_save_slots_blob port s ≡ false

notified-saves :
    (port : Option ConfigPort) (t : Schedule)
    → schedule_save_slots_blob port (schedule_notify_changed t) ≡ schedule_save_slots_blob port t
unfolding schedule_save_slots_blob stored_config
notified-saves none t = refl
notified-saves (some port) t = refl

module _ (port : Option ConfigPort) (hour min : ℕ) (s : Schedule) (v : IsWellFormed s.slots) where
  pub present :
      (n : ℕ)
      → find_from hour min 0 s.slots ≡ some n
      → IsPresent (λ o. o) (Saves port) (FailsToSave port) cmd_ok hour min s
  present n e absent =
      cc (slot_in-some hour min 0 s.slots n e, slot_in-lookup hour min s.slots v absent)

  pub saved_bit :
      (t : Schedule)
      → (save_and_notify port t).1 ≡ schedule_save_slots_blob port (save_and_notify port t).0
  saved_bit t = elim (Bool-cases (schedule_save_slots_blob port t)) [
    | inl e ↦ rw e (sym (notified-saves port t ∙ e))
    | inr e ↦ rw e (sym e)
  ]

  -- After the call: what `exists_or_not` answers.
  module _ (change : Option Entry → Option Entry) (is_there : Bool) where
    abbrev failure : CmdResult
    failure = if is_there then cmd_nvdm_fail else cmd_not_found

    pub answer_found :
        (r : Schedule × Bool) (n : ℕ)
        → find_from hour min 0 s.slots ≡ some n
        → Changed change (Saves port) (FailsToSave port) failure hour min s r.0
        → r.1 ≡ schedule_save_slots_blob port r.0
        → slot_in hour min r.0.slots ≡ is_there
        → Answer change
            (Saves port)
            (FailsToSave port)
            failure
            hour
            min
            s
            (exists_or_not hour min r)
    unfolding exists_or_not schedule_cmd_slot_exists
    answer_found (s', true) n e c b x = changed s' (present n e) c (sym b)
    answer_found (s', false) n e c b x = rw x (unsaved s' (present n e) c (sym b))

    pub answer_missing :
        (r : Schedule × Bool)
        → r ≡ (s, false)
        → hour ≤ 23
        → min ≤ 59
        → find_from hour min 0 s.slots ≡ none
        → Answer change
            (Saves port)
            (FailsToSave port)
            failure
            hour
            min
            s
            (exists_or_not hour min r)
    unfolding exists_or_not schedule_cmd_slot_exists
    answer_missing r same hh hm e =
        rw (same, slot_in-none hour min 0 s.slots e)
          (missing (lookup_missing hour min s.slots v hh hm e))
