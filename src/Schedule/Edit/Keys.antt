-- ===== src/Schedule/Edit/Keys.antt =====
-- The commands, seen as changes of a finite map from a time of day to an entry.
use mathlib.Core.Path.{subst}
use xiaomi_feeder_iv.Common.{
  ltb, Bool-cases, Option-cases, length, All, ℕ, ◌<◌, ◌≡◌, sym, ◌≢◌, inl, inr, Bool, true, false,
  ◌&&◌, ◌||◌, Option, none, some, List, [], ◌∷◌, ◌++◌, leb, arith, ◌==◌, if◌then◌else◌,
  length-append, lt→ltb, ==_iff, refl,
}
use xiaomi_feeder_iv.Schedule.{
  schedule_max_slots, SlotConfig, SlotRuntime, Entry, Schedule, schedule_minutes, entry_minutes,
  find_from, sort_from, fresh_runtime,
}
use xiaomi_feeder_iv.Schedule.Sort.{
  lookup, All-imp, lookup_absent, All-append, Ascending-Distinct, lookup-append, lookup-sort,
  or_else-none,
}
use xiaomi_feeder_iv.Schedule.Store.{ConfigPort}
use xiaomi_feeder_iv.Schedule.Edit.{modify, config_in_range, schedule_set_slot}
use xiaomi_feeder_iv.Schedule.Edit.Shape.{
  At, find_from-none, Found, find-Found, lookup-modify, lookup_entry,
}
use xiaomi_feeder_iv.Schedule.Edit.Valid.{
  InRange, IsWellFormed, config_in_range-InRange, absent-minutes, InRange-config_in_range,
  save_and_notify-slots, EntryOk, sort-IsWellFormed, snoc-Distinct, modify-IsWellFormed,
}

abbrev pub has : Option Entry → Bool
has none = false
has (some e) = true

abbrev pub config_minutes : SlotConfig → ℕ
config_minutes cfg = schedule_minutes cfg.hour cfg.min

-- The commands that `schedule_set_slot` carries out: in range, and with a slot to use.
abbrev pub accepts : SlotConfig → List Entry → Bool
accepts cfg es =
    config_in_range cfg
    && (has (lookup (config_minutes cfg) es) || ltb (length es) schedule_max_slots)

-- A replaced slot keeps its runtime state, a new one starts fresh.
abbrev pub kept_runtime : Option Entry → SlotRuntime
kept_runtime none = fresh_runtime
kept_runtime (some e) = e.rt

abbrev replace_cfg : SlotConfig → Entry → Entry
replace_cfg cfg e = record e { cfg = cfg }

abbrev new_entry : SlotConfig → Entry
new_entry cfg = record { cfg = cfg; rt = fresh_runtime }

-- The three ways that `schedule_set_slot` can leave the slots `out`.
data SetView (cfg : SlotConfig) (es out : List Entry) : Type 0 where
  refused : accepts cfg es ≡ false → out ≡ es → SetView cfg es out
  replaced :
      (n : ℕ) (e : Entry)
      → At es n e
      → entry_minutes e ≡ config_minutes cfg
      → InRange cfg
      → out ≡ sort_from [] (modify n (replace_cfg cfg) es)
      → SetView cfg es out
  appended :
      InRange cfg
      → All (λ x. entry_minutes x ≢ config_minutes cfg) es
      → length es < schedule_max_slots
      → out ≡ sort_from [] (es ++ new_entry cfg ∷ [])
      → SetView cfg es out

pub lookup-none : (k : ℕ) (es : List Entry) → All (λ x. entry_minutes x ≢ k) es → lookup k es ≡ none
lookup-none k es h = lookup_absent k es (All-imp (λ x n. λ e. n (sym e)) es h)

module _ (port : Option ConfigPort) (s : Schedule) (v : IsWellFormed s.slots) where
  set_slot_none :
      (cfg : SlotConfig)
      → InRange cfg
      → find_from cfg.hour cfg.min 0 s.slots ≡ none
      → SetView cfg s.slots (schedule_set_slot port cfg s).0.slots
  set_slot_none cfg r e =
      let a : All (λ x. entry_minutes x ≢ config_minutes cfg) s.slots =
        absent-minutes cfg.hour cfg.min s.slots v.ranges r.hour_in r.min_in
          (find_from-none _ _ 0 s.slots e) in
      elim (Bool-cases (leb schedule_max_slots (length s.slots))) [
        | inl full ↦ refused (rw (lookup-none _ s.slots a) (ground arith)) (
            unfold schedule_set_slot in
            rw (InRange-config_in_range cfg r, e, schedule_set_slot, full))
        | inr room ↦ appended r a (ground arith) (
            unfold schedule_set_slot in
            rw (InRange-config_in_range cfg r, e, schedule_set_slot, room)
              (save_and_notify-slots port _))
      ]

  set_slot_some :
      (cfg : SlotConfig) (n : ℕ)
      → InRange cfg
      → find_from cfg.hour cfg.min 0 s.slots ≡ some n
      → SetView cfg s.slots (schedule_set_slot port cfg s).0.slots
  set_slot_some cfg n r e =
      let found : Found cfg.hour cfg.min s.slots n = find-Found cfg.hour cfg.min s.slots n e in
      replaced n found.entry found.at (ground arith) r (
        unfold schedule_set_slot in
        rw (InRange-config_in_range cfg r, e, schedule_set_slot) (save_and_notify-slots port _))

  set_slot-SetView : (cfg : SlotConfig) → SetView cfg s.slots (schedule_set_slot port cfg s).0.slots
  set_slot-SetView cfg = elim (Bool-cases (config_in_range cfg)) [
    | inl ok ↦ elim (Option-cases (find_from cfg.hour cfg.min 0 s.slots)) [
      | inl e ↦ set_slot_none cfg (config_in_range-InRange cfg ok) e
      | inr (j, e) ↦ set_slot_some cfg j (config_in_range-InRange cfg ok) e
    ]
    | inr bad ↦ refused (rw bad) (unfold schedule_set_slot in rw (bad, schedule_set_slot))
  ]

-- The slots after `SetView`.
module _ (cfg : SlotConfig) (es : List Entry) (v : IsWellFormed es) where
  SetView-IsWellFormed : {out : List Entry} → SetView cfg es out → IsWellFormed out
  SetView-IsWellFormed (refused a q) = rw q v
  SetView-IsWellFormed (replaced n e a m r q) =
      let w : IsWellFormed (modify n (replace_cfg cfg) es) =
        modify-IsWellFormed (replace_cfg cfg) es n e a (sym m) (λ o. r) v in
      rw q (sort-IsWellFormed _ w.ranges (Ascending-Distinct _ w.order) w.bounded)
  SetView-IsWellFormed (appended r a b q) = rw q (
      sort-IsWellFormed _ (All-append EntryOk es _ v.ranges (r, tt))
        (snoc-Distinct es (new_entry cfg) (Ascending-Distinct es v.order) a)
        (omega (arith, length-append es (new_entry cfg ∷ []), b)))

  SetView-lookup :
      {out : List Entry} (k : ℕ)
      → SetView cfg es out
      → lookup k out ≡ (
          if accepts cfg es && config_minutes cfg == k
          then some (record { cfg = cfg; rt = kept_runtime (lookup k es) })
          else lookup k es)
  SetView-lookup k (refused a q) = rw (q, a)
  SetView-lookup k (replaced n e a m r q) =
      let w : IsWellFormed (modify n (replace_cfg cfg) es) =
        modify-IsWellFormed (replace_cfg cfg) es n e a (sym m) (λ o. r) v in
      let at_cfg : lookup (config_minutes cfg) es ≡ some e =
        subst (λ t. lookup t es ≡ some e) m (lookup_entry es n e a v.order) in
      rw
        (
          q,
          lookup-sort k _ (Ascending-Distinct _ w.order),
          lookup-modify (replace_cfg cfg) k es n e a (sym m) v.order,
          InRange-config_in_range cfg r,
          at_cfg,
          m,
        )
        (elim (Bool-cases (config_minutes cfg == k)) [
          | inl t ↦ rw (t, subst (λ j. lookup j es ≡ some e) ((==_iff _ _).0 t) at_cfg) refl
          | inr f ↦ rw f refl
        ])
  SetView-lookup k (appended r a b q) =
      rw
        (
          q,
          lookup-sort k _ (snoc-Distinct es (new_entry cfg) (Ascending-Distinct es v.order) a),
          lookup-append k es (new_entry cfg ∷ []),
          InRange-config_in_range cfg r,
          lookup-none _ es a,
          lt→ltb _ _ b,
        )
        (elim (Bool-cases (config_minutes cfg == k)) [
          | inl t ↦
              rw (t, subst (λ j. lookup j es ≡ none) ((==_iff _ _).0 t) (lookup-none _ es a))
                (unfold lookup in rw t refl)
          | inr f ↦ rw f (unfold lookup in rw f (or_else-none (lookup k es)))
        ])

module _ (port : Option ConfigPort) (s : Schedule) (v : IsWellFormed s.slots) where
  -- Setting a slot changes the entry at its time and no other, and only if the command is accepted.
  pub lookup-set_slot :
      (cfg : SlotConfig) (k : ℕ)
      → lookup k (schedule_set_slot port cfg s).0.slots ≡ (
          if accepts cfg s.slots && config_minutes cfg == k
          then some (record { cfg = cfg; rt = kept_runtime (lookup k s.slots) })
          else lookup k s.slots)
  lookup-set_slot cfg k = SetView-lookup cfg s.slots v k (set_slot-SetView port s v cfg)

  pub set_slot-IsWellFormed :
      (cfg : SlotConfig) → IsWellFormed (schedule_set_slot port cfg s).0.slots
  set_slot-IsWellFormed cfg = SetView-IsWellFormed cfg s.slots v (set_slot-SetView port s v cfg)
