-- ===== src/Schedule/Edit/Others.antt =====
-- The commands on a slot that exists: delete, toggle and skip. Their arguments are times of day.
use mathlib.Core.Path.{subst}
use mathlib.Core.Option
use xiaomi_feeder_iv.Common.{
  ◌==◌, if◌then◌else◌, ==_iff, Bool-cases, Option-cases, ℕ, ◌≤◌, min, ◌≡◌, refl, sym, ◌∙◌, inl, inr,
  Bool, Option, none, some, List, arith,
}
use xiaomi_feeder_iv.Schedule.{
  Entry, Schedule, schedule_minutes, entry_minutes, find_from, SlotConfig,
}
use xiaomi_feeder_iv.Schedule.Sort.{lookup}
use xiaomi_feeder_iv.Schedule.Store.{ConfigPort}
use xiaomi_feeder_iv.Schedule.Edit.{
  modify, remove, schedule_delete_slot, flip_enabled, schedule_toggle_slot, schedule_skip_slot,
  schedule_set_slot,
}
use xiaomi_feeder_iv.Schedule.Edit.Shape.{
  lookup-modify, lookup-remove, lookup_entry, Found, find-Found, find_from-none,
}
use xiaomi_feeder_iv.Schedule.Edit.Keys.{lookup-none, set_slot-IsWellFormed}
use xiaomi_feeder_iv.Schedule.Edit.Valid.{
  IsWellFormed, absent-minutes, modify-IsWellFormed, remove-IsWellFormed, save_and_notify-slots,
}

abbrev pub with_skip : Bool → Entry → Entry
with_skip skip e = record e { rt = record (e.rt) { skip_today = skip } }

-- The commands either find no slot and change none, or change the one that they find.
module _ (hour min : ℕ) (s : Schedule) where
  delete_slot-none :
      (port : Option ConfigPort)
      → find_from hour min 0 s.slots ≡ none
      → (schedule_delete_slot port hour min s).0.slots ≡ s.slots
  unfolding schedule_delete_slot
  delete_slot-none port e = rw (e, schedule_delete_slot)

  delete_slot-some :
      (port : Option ConfigPort) (n : ℕ)
      → find_from hour min 0 s.slots ≡ some n
      → (schedule_delete_slot port hour min s).0.slots ≡ remove n s.slots
  unfolding schedule_delete_slot
  delete_slot-some port n e = rw (e, schedule_delete_slot) (save_and_notify-slots port _)

  toggle_slot-none :
      (port : Option ConfigPort)
      → find_from hour min 0 s.slots ≡ none
      → (schedule_toggle_slot port hour min s).0.slots ≡ s.slots
  unfolding schedule_toggle_slot
  toggle_slot-none port e = rw (e, schedule_toggle_slot)

  pub toggle_slot-some :
      (port : Option ConfigPort) (n : ℕ)
      → find_from hour min 0 s.slots ≡ some n
      → (schedule_toggle_slot port hour min s).0.slots ≡ modify n flip_enabled s.slots
  unfolding schedule_toggle_slot
  toggle_slot-some port n e = rw (e, schedule_toggle_slot) (save_and_notify-slots port _)

  skip_slot-none :
      (skip : Bool)
      → find_from hour min 0 s.slots ≡ none
      → (schedule_skip_slot hour min skip s).0.slots ≡ s.slots
  unfolding schedule_skip_slot
  skip_slot-none skip e = rw (e, schedule_skip_slot)

  skip_slot-some :
      (skip : Bool) (n : ℕ)
      → find_from hour min 0 s.slots ≡ some n
      → (schedule_skip_slot hour min skip s).0.slots ≡ modify n (with_skip skip) s.slots
  unfolding schedule_skip_slot
  skip_slot-some skip n e = rw (e, schedule_skip_slot)

pub Found-minutes :
    {hour min : ℕ} {es : List Entry} {n : ℕ} (f : Found hour min es n)
    → entry_minutes f.entry ≡ schedule_minutes hour min
Found-minutes f = ground (arith, f.hour_is, f.min_is)

module _ (hour min : ℕ) (es : List Entry) (v : IsWellFormed es) where
  pub lookup_missing :
      hour ≤ 23
      → min ≤ 59
      → find_from hour min 0 es ≡ none
      → lookup (schedule_minutes hour min) es ≡ none
  lookup_missing hh hm e =
      lookup-none _ es (absent-minutes hour min es v.ranges hh hm (find_from-none hour min 0 es e))

  lookup-remove_found :
      (k n : ℕ)
      → find_from hour min 0 es ≡ some n
      → lookup k (remove n es) ≡ (if schedule_minutes hour min == k then none else lookup k es)
  lookup-remove_found k n e =
      let f : Found hour min es n = find-Found hour min es n e in
      subst (λ t. lookup k (remove n es) ≡ (if t == k then none else lookup k es)) (Found-minutes f)
        (lookup-remove k es n f.entry f.at v.order)

  pub lookup-modify_found :
      (f : Entry → Entry) (k n : ℕ)
      → ((e : Entry) → entry_minutes (f e) ≡ entry_minutes e)
      → find_from hour min 0 es ≡ some n
      → lookup k (modify n f es)
        ≡ (if schedule_minutes hour min == k then Option.map f (lookup k es) else lookup k es)
  lookup-modify_found f k n same q =
      let found : Found hour min es n = find-Found hour min es n q in
      let e = found.entry in
      let at_e = lookup_entry es n e found.at v.order in
      rw (lookup-modify f k es n e found.at (same e) v.order) (
        subst
          (λ t.
            (if entry_minutes e == k then some (f e) else lookup k es)
            ≡ (if t == k then Option.map f (lookup k es) else lookup k es))
          (Found-minutes found)
          (elim (Bool-cases (entry_minutes e == k)) [
            | inl t ↦ rw (t, subst (λ j. lookup j es ≡ some e) ((==_iff _ _).0 t) at_e) refl
            | inr b ↦ rw b refl
          ]))

absent-if {ℓ} :
    {A : Type ℓ} (f : ℕ → Option A) (g : Option A) (m k : ℕ)
    → f m ≡ none
    → g ≡ none
    → f k ≡ (if m == k then g else f k)
absent-if f g m k e q = elim (Bool-cases (m == k)) [
  | inl t ↦ rw t (subst (λ j. f j ≡ g) ((==_iff _ _).0 t) (e ∙ sym q))
  | inr b ↦ rw b refl
]

pub absent-map :
    (f : ℕ → Option Entry) (g : Entry → Entry) (m k : ℕ)
    → f m ≡ none
    → f k ≡ (if m == k then Option.map g (f k) else f k)
absent-map f g m k e = elim (Bool-cases (m == k)) [
  | inl t ↦ rw (t, subst (λ j. f j ≡ none) ((==_iff _ _).0 t) e) refl
  | inr b ↦ rw b refl
]

module _ (hour min : ℕ) (s : Schedule) (v : IsWellFormed s.slots) where
  -- Deleting removes the entry at the given time and no other.
  pub lookup-delete_slot :
      (port : Option ConfigPort) (k : ℕ)
      → hour ≤ 23
      → min ≤ 59
      → lookup k (schedule_delete_slot port hour min s).0.slots
        ≡ (if schedule_minutes hour min == k then none else lookup k s.slots)
  lookup-delete_slot port k hh hm = elim (Option-cases (find_from hour min 0 s.slots)) [
    | inl e ↦ rw (delete_slot-none hour min s port e) (
        absent-if (λ j. lookup j s.slots) none (schedule_minutes hour min) k
          (lookup_missing hour min s.slots v hh hm e) refl)
    | inr (n, e) ↦
        rw (delete_slot-some hour min s port n e) (lookup-remove_found hour min s.slots v k n e)
  ]

  pub delete_slot-IsWellFormed :
      (port : Option ConfigPort) → IsWellFormed (schedule_delete_slot port hour min s).0.slots
  delete_slot-IsWellFormed port = elim (Option-cases (find_from hour min 0 s.slots)) [
    | inl e ↦ rw (delete_slot-none hour min s port e) v
    | inr (n, e) ↦ rw (delete_slot-some hour min s port n e) (remove-IsWellFormed s.slots n v)
  ]

  pub toggle_slot-IsWellFormed :
      (port : Option ConfigPort) → IsWellFormed (schedule_toggle_slot port hour min s).0.slots
  toggle_slot-IsWellFormed port = elim (Option-cases (find_from hour min 0 s.slots)) [
    | inl e ↦ rw (toggle_slot-none hour min s port e) v
    | inr (n, e) ↦
        let f : Found hour min s.slots n = find-Found hour min s.slots n e in
        rw (toggle_slot-some hour min s port n e)
          (modify-IsWellFormed flip_enabled s.slots n f.entry f.at refl (λ o. ground (arith, o)) v)
  ]

  pub skip_slot-IsWellFormed :
      (skip : Bool) → IsWellFormed (schedule_skip_slot hour min skip s).0.slots
  skip_slot-IsWellFormed skip = elim (Option-cases (find_from hour min 0 s.slots)) [
    | inl e ↦ rw (skip_slot-none hour min s skip e) v
    | inr (n, e) ↦
        let f : Found hour min s.slots n = find-Found hour min s.slots n e in
        rw (skip_slot-some hour min s skip n e)
          (modify-IsWellFormed (with_skip skip) s.slots n f.entry f.at refl (λ o. o) v)
  ]

  -- Toggling flips `enabled` of the entry at the given time, and skipping sets its flag; every
  -- other entry stays.
  pub lookup-toggle_skip :
      (port : Option ConfigPort) (skip : Bool) (k : ℕ)
      → hour ≤ 23
      → min ≤ 59
      → (lookup k (schedule_toggle_slot port hour min s).0.slots ≡ (
          if schedule_minutes hour min == k
          then Option.map flip_enabled (lookup k s.slots)
          else lookup k s.slots))
        × (lookup k (schedule_skip_slot hour min skip s).0.slots ≡ (
            if schedule_minutes hour min == k
            then Option.map (with_skip skip) (lookup k s.slots)
            else lookup k s.slots))
  lookup-toggle_skip port skip k hh hm = elim (Option-cases (find_from hour min 0 s.slots)) [
    | inl e ↦
        let gone = lookup_missing hour min s.slots v hh hm e in
        (
          rw (toggle_slot-none hour min s port e)
              (absent-map (λ j. lookup j s.slots) flip_enabled _ k gone),
          rw (skip_slot-none hour min s skip e)
              (absent-map (λ j. lookup j s.slots) (with_skip skip) _ k gone),
        )
    | inr (n, e) ↦ (
      rw (toggle_slot-some hour min s port n e)
          (lookup-modify_found hour min s.slots v flip_enabled k n (λ x. refl) e),
      rw (skip_slot-some hour min s skip n e)
          (lookup-modify_found hour min s.slots v (with_skip skip) k n (λ x. refl) e),
    )
  ]

-- The four commands on slots keep the slots well-formed, whatever their arguments and whether or
-- not the save succeeds.
pub commands-IsWellFormed :
    (port : Option ConfigPort) (s : Schedule) (cfg : SlotConfig) (hour min : ℕ) (skip : Bool)
    → IsWellFormed s.slots
    → IsWellFormed (schedule_set_slot port cfg s).0.slots
      × IsWellFormed (schedule_delete_slot port hour min s).0.slots
      × IsWellFormed (schedule_toggle_slot port hour min s).0.slots
      × IsWellFormed (schedule_skip_slot hour min skip s).0.slots
commands-IsWellFormed port s cfg hour min skip v = (
  set_slot-IsWellFormed port s v cfg,
  delete_slot-IsWellFormed hour min s v port,
  toggle_slot-IsWellFormed hour min s v port,
  skip_slot-IsWellFormed hour min s v skip,
)
