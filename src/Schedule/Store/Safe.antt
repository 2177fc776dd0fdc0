-- ===== src/Schedule/Store/Safe.antt =====
-- Whatever the flash holds, the slots that a start-up loads are well-formed.
use xiaomi_feeder_iv.Common.{
  Bool-cases, length, take, All, ℕ, zero, suc, ◌≤◌, ◌≡◌, ◌≢◌, inl, inr, true, false, Option, none,
  some, List, [], ◌∷◌, map, arith, ◌==◌, length-map,
}
use xiaomi_feeder_iv.Schedule.{
  schedule_max_slots, Schedule, entry_minutes, sort_from, schedule_test_reset,
}
use xiaomi_feeder_iv.Schedule.Sort.{Distinct}
use xiaomi_feeder_iv.Schedule.Store.{
  NvdmSlot, NvdmConfig, ConfigPort, schedule_nvdm_slot_valid, all_slots_valid, key_in, keys_differ,
  schedule_nvdm_config_valid, of_nvdm, schedule_load_slots_binary, load_or_reset, schedule_init,
  nvdm_size, BlobRead, read_failed, read_ok, schedule_reset_slots_ram, load_read, load_answer,
  schedule_load_global_enabled,
}
use xiaomi_feeder_iv.Schedule.Edit.Valid.{EntryOk, IsWellFormed, sort-IsWellFormed}

slot-EntryOk : (x : NvdmSlot) → schedule_nvdm_slot_valid x ≡ true → EntryOk (of_nvdm x)
unfolding schedule_nvdm_slot_valid
slot-EntryOk x h = ground arith

slots-EntryOk : (xs : List NvdmSlot) → all_slots_valid xs ≡ true → All EntryOk (map of_nvdm xs)
unfolding all_slots_valid
slots-EntryOk [] h = tt
slots-EntryOk (x ∷ xs) h = (slot-EntryOk x (ground arith), slots-EntryOk xs (ground arith))

key_differs :
    (x : NvdmSlot) (ys : List NvdmSlot)
    → EntryOk (of_nvdm x)
    → All EntryOk (map of_nvdm ys)
    → key_in x ys ≡ false
    → All (λ y. entry_minutes (of_nvdm x) ≢ entry_minutes y) (map of_nvdm ys)
unfolding key_in
key_differs x [] o os h = tt
key_differs x (y ∷ ys) o os h =
    ((λ e. absurd (ground (arith, o, os.0, h))), key_differs x ys o os.1 (ground arith))

slots-Distinct :
    (xs : List NvdmSlot)
    → All EntryOk (map of_nvdm xs)
    → keys_differ xs ≡ true
    → Distinct (map of_nvdm xs)
unfolding keys_differ
slots-Distinct [] o h = tt
slots-Distinct (x ∷ xs) o h =
    (key_differs x xs o.0 o.1 (ground arith), slots-Distinct xs o.1 (ground arith))

length-take_le {ℓ} : {A : Type ℓ} (n : ℕ) (xs : List A) → length (take n xs) ≤ n
length-take_le zero xs = omega arith
length-take_le (suc n) [] = omega arith
length-take_le (suc n) (x ∷ xs) = omega (arith, length-take_le n xs)

-- What a valid configuration says of its slots.
record Sound (c : NvdmConfig) : Type 0 where
  count_in : c.count ≤ schedule_max_slots
  slots_ok : all_slots_valid (take c.count c.slots) ≡ true
  keys_ok : keys_differ (take c.count c.slots) ≡ true

valid-Sound : (c : NvdmConfig) → schedule_nvdm_config_valid c ≡ true → Sound c
unfolding schedule_nvdm_config_valid
valid-Sound c h = record {
  count_in = ground arith;
  slots_ok = ground arith;
  keys_ok = ground arith;
}

empty-IsWellFormed : IsWellFormed []
empty-IsWellFormed = record { ranges = tt; order = tt; bounded = omega arith }

sorted-IsWellFormed :
    (c : NvdmConfig) → Sound c → IsWellFormed (sort_from [] (map of_nvdm (take c.count c.slots)))
sorted-IsWellFormed c h =
    let o = slots-EntryOk _ h.slots_ok in
    sort-IsWellFormed _ o (slots-Distinct _ o h.keys_ok) (
      omega (
        arith,
        length-map of_nvdm (take c.count c.slots),
        length-take_le c.count c.slots,
        h.count_in,
      ))

loaded-IsWellFormed :
    (s : Schedule) (n : ℕ) (c : NvdmConfig)
    → IsWellFormed (load_or_reset s (schedule_load_slots_binary s n c)).slots
unfolding schedule_load_slots_binary
loaded-IsWellFormed s n c = elim (Bool-cases (n == nvdm_size)) [
  | inr m ↦ rw m empty-IsWellFormed
  | inl m ↦ elim (Bool-cases (schedule_nvdm_config_valid c)) [
    | inr h ↦ rw (m, h) empty-IsWellFormed
    | inl h ↦ rw (m, h) (sorted-IsWellFormed c (valid-Sound c h))
  ]
]

read-IsWellFormed :
    (s : Schedule) (answer : BlobRead)
    → IsWellFormed (load_read (schedule_reset_slots_ram s) answer).slots
read-IsWellFormed s read_failed = empty-IsWellFormed
read-IsWellFormed s (read_ok n c) = elim (Bool-cases (n == 0)) [
  | inl z ↦ rw z empty-IsWellFormed
  | inr z ↦ rw z (loaded-IsWellFormed (schedule_reset_slots_ram s) n c)
]

blob-IsWellFormed :
    (read : Option BlobRead) (s : Schedule) → IsWellFormed (load_answer s read).slots
blob-IsWellFormed none s = empty-IsWellFormed
blob-IsWellFormed (some answer) s = read-IsWellFormed s answer

-- A start-up gives well-formed slots for every configuration port and everything that it may hold.
pub schedule_init-IsWellFormed :
    (port : Option ConfigPort) (s : Schedule) → IsWellFormed (schedule_init port s).slots
unfolding schedule_init
schedule_init-IsWellFormed none s = empty-IsWellFormed
schedule_init-IsWellFormed (some port) s =
    blob-IsWellFormed port.read_blob
      (schedule_load_global_enabled (some port) (schedule_test_reset s))
