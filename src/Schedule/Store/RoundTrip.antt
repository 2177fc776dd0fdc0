-- ===== src/Schedule/Store/RoundTrip.antt =====
-- What is saved is what a restart loads.
use mathlib.Core.List.{reverse, reverse-cons, append-nil, append_assoc}
use Prim.Native.Nat.{bit_and}
use mathlib.Core.Path.{ap₂}
use xiaomi_feeder_iv.Common.{
  le→leb, All, ◌<◌, ◌≡◌, refl, sym, ap, ◌∙◌, true, false, List, [], ◌∷◌, ◌++◌, map, arith, ◌==◌,
  if◌then◌else◌, length, take, take-append, length-map, ℕ, Bool, not, some, replicate, u8, ◌-◌,
}
use xiaomi_feeder_iv.Schedule.{
  Entry, entry_minutes, shift_back, sort_from, schedule_init_slot_runtime, Schedule,
  schedule_max_slots,
}
use xiaomi_feeder_iv.Schedule.Sort.{Ascending}
use xiaomi_feeder_iv.Schedule.Store.{
  schedule_nvdm_slot_valid, all_slots_valid, key_in, keys_differ, of_nvdm, to_nvdm, flag_enabled,
  nvdm_size, NvdmSlot, schedule_load_slots_binary, stored_config, schedule_nvdm_config_valid,
  zero_slot,
}
use xiaomi_feeder_iv.Schedule.Edit.Valid.{EntryOk, IsWellFormed}

-- Sorting leaves slots that are in order as they are.
shift_back-last :
    (key : Entry) (done : List Entry)
    → All (λ d. entry_minutes d < entry_minutes key) done
    → shift_back key done ≡ key ∷ done
unfolding shift_back
shift_back-last key [] h = refl
shift_back-last key (prev ∷ done) h =
    rw (le→leb (entry_minutes prev) (entry_minutes key) (omega (arith, h.0)))

sort_from-sorted :
    (done todo : List Entry)
    → Ascending todo
    → All (λ t. All (λ d. entry_minutes d < entry_minutes t) done) todo
    → sort_from done todo ≡ reverse done ++ todo
unfolding sort_from
sort_from-sorted done [] a h = sym (append-nil _)
sort_from-sorted done (key ∷ todo) a h = rw (shift_back-last key done h.0) (
    sort_from-sorted (key ∷ done) todo a.1 (push_all todo a.0 h.1)
    ∙ (ap (λ l. l ++ todo) (reverse-cons key done) ∙ append_assoc (reverse done) (key ∷ []) todo))
  where
    push_all :
        (ts : List Entry)
        → All (λ x. entry_minutes key < entry_minutes x) ts
        → All (λ t. All (λ d. entry_minutes d < entry_minutes t) done) ts
        → All (λ t. All (λ d. entry_minutes d < entry_minutes t) (key ∷ done)) ts
    push_all [] p q = tt
    push_all (t ∷ ts) p q = ((p.0, q.0), push_all ts p.1 q.1)

none_before : (ts : List Entry) → All (λ t. All (λ d. entry_minutes d < entry_minutes t) []) ts
none_before [] = tt
none_before (t ∷ ts) = (tt, none_before ts)

sort-sorted : (es : List Entry) → Ascending es → sort_from [] es ≡ es
sort-sorted es a = sort_from-sorted [] es a (none_before es)

no_other_flag : (b : Bool) → bit_and (if b then flag_enabled else 0) 254 ≡ 0
no_other_flag true = refl
no_other_flag false = refl

flag_kept : (b : Bool) → not (bit_and (if b then flag_enabled else 0) flag_enabled == 0) ≡ b
flag_kept true = refl
flag_kept false = refl

slot_valid : (e : Entry) → EntryOk e → schedule_nvdm_slot_valid (to_nvdm e) ≡ true
unfolding schedule_nvdm_slot_valid
slot_valid e v = ground (arith, v, no_other_flag e.cfg.enabled)

valid_slots : (es : List Entry) → All EntryOk es → all_slots_valid (map to_nvdm es) ≡ true
unfolding all_slots_valid
valid_slots [] h = refl
valid_slots (e ∷ es) h = rw (slot_valid e h.0, valid_slots es h.1)

key_absent :
    (e : Entry) (es : List Entry)
    → All (λ x. entry_minutes e < entry_minutes x) es
    → key_in (to_nvdm e) (map to_nvdm es) ≡ false
unfolding key_in
key_absent e [] h = refl
key_absent e (x ∷ xs) h = ground (arith, h.0, key_absent e xs h.1)

keys_ok : (es : List Entry) → Ascending es → keys_differ (map to_nvdm es) ≡ true
unfolding keys_differ
keys_ok [] h = refl
keys_ok (e ∷ es) h = rw (key_absent e es h.0, keys_ok es h.1)

of_to_nvdm : (e : Entry) → of_nvdm (to_nvdm e) ≡ schedule_init_slot_runtime e
of_to_nvdm e = rw (flag_kept e.cfg.enabled)

map-of_to : (es : List Entry) → map of_nvdm (map to_nvdm es) ≡ map schedule_init_slot_runtime es
map-of_to [] = refl
map-of_to (e ∷ es) = ap₂ (λ x xs. x ∷ xs) (of_to_nvdm e) (map-of_to es)

-- A reset of the runtime state does not touch the times.
init-minutes {κ} :
    (P : ℕ → Type κ) (es : List Entry)
    → All (λ x. P (entry_minutes x)) es
    → All (λ x. P (entry_minutes x)) (map schedule_init_slot_runtime es)
init-minutes P [] h = tt
init-minutes P (e ∷ es) h = (h.0, init-minutes P es h.1)

init-Ascending : (es : List Entry) → Ascending es → Ascending (map schedule_init_slot_runtime es)
init-Ascending [] h = tt
init-Ascending (e ∷ es) h = (init-minutes (λ m. entry_minutes e < m) es h.0, init-Ascending es h.1)

take_saved :
    (es : List Entry) (n : ℕ) (rest : List NvdmSlot)
    → n ≡ length es
    → take n (map to_nvdm es ++ rest) ≡ map to_nvdm es
take_saved es n rest e = rw (e, ← length-map to_nvdm es) (take-append (map to_nvdm es) rest)

module _ (s : Schedule) (v : IsWellFormed s.slots) where
  taken :
      take
        (u8 (length s.slots))
        (map to_nvdm s.slots ++ replicate (schedule_max_slots - length s.slots) zero_slot)
      ≡ map to_nvdm s.slots
  taken = take_saved s.slots _ _ (omega (arith, v.bounded))

  stored_valid : schedule_nvdm_config_valid (stored_config s) ≡ true
  unfolding schedule_nvdm_config_valid stored_config
  stored_valid = rw (
    taken,
    valid_slots s.slots v.ranges,
    keys_ok s.slots v.order,
    le→leb (u8 (length s.slots)) schedule_max_slots (omega (arith, v.bounded)),
  )

  -- Loading what `s` saves, into any state, gives the slots of `s` with fresh runtime state.
  pub load-stored_config :
      (t : Schedule)
      → schedule_load_slots_binary t nvdm_size (stored_config s)
        ≡ some (record t { slots = map schedule_init_slot_runtime s.slots })
  unfolding schedule_load_slots_binary
  load-stored_config t = rw (stored_valid) (
      unfold stored_config in
      rw (taken, map-of_to s.slots, sort-sorted _ (init-Ascending s.slots v.order)))
