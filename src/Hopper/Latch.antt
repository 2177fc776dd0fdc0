-- ===== src/Hopper/Latch.antt =====
-- The latch, the published level and the outcome after a dispense.
use xiaomi_feeder_iv.Common.{
  if◌then◌else◌, Bool-cases, ℕ, ◌≡◌, refl, ap, ◌∙◌, inl, inr, Bool, true, false, ◌&&◌, arith,
}
use xiaomi_feeder_iv.Common.Int.{ℤ, pos, leb_ℤ}
use xiaomi_feeder_iv.Hopper.{
  HopperLevel, level_normal, level_low, HopperInput, same_level, hopper_input_almost_empty,
}
use xiaomi_feeder_iv.Hopper.Level.{
  Outcome, success, stuck, underfill, empty_hopper, aborted, PublishedLevel, state_normal,
  state_low, state_empty, LevelState, hopper_level_compute, same_published,
  hopper_level_enqueue_transition, hopper_level_set_published, hopper_level_sync_published,
  is_success, hopper_level_should_latch_empty, latch_after, hopper_level_on_dispense_finished,
}

same_published_eq : (a b : PublishedLevel) → same_published a b ≡ true → b ≡ a
unfolding same_published
same_published_eq state_normal state_normal e = refl
same_published_eq state_low state_low e = refl
same_published_eq state_empty state_empty e = refl
same_published_eq state_normal state_low e = absurd (cc e)
same_published_eq state_normal state_empty e = absurd (cc e)
same_published_eq state_low state_normal e = absurd (cc e)
same_published_eq state_low state_empty e = absurd (cc e)
same_published_eq state_empty state_normal e = absurd (cc e)
same_published_eq state_empty state_low e = absurd (cc e)

-- What every synchronisation leaves.
pub record IsSynced (input : HopperInput) (latched : Bool) (t : LevelState) : Type 0 where
  pub latch : t.empty_latched ≡ latched
  pub shown : t.published ≡ hopper_level_compute input t

pub sync-IsSynced :
    (at_ms : ℕ) (input : HopperInput) (s : LevelState)
    → IsSynced input s.empty_latched (hopper_level_sync_published at_ms input s)
unfolding hopper_level_sync_published hopper_level_set_published hopper_level_enqueue_transition
sync-IsSynced at_ms input s =
    elim (Bool-cases (same_published (hopper_level_compute input s) s.published)) [
      | inl t ↦ rw t (record { latch = refl; shown = same_published_eq _ _ t })
      | inr f ↦ rw f (record { latch = refl; shown = unfold hopper_level_compute in refl })
    ]

empty_iff_latched :
    (input : HopperInput) (t : LevelState)
    → same_published (hopper_level_compute input t) state_empty ≡ t.empty_latched
unfolding hopper_level_compute same_published
empty_iff_latched input t = elim (Bool-cases t.empty_latched) [
  | inl e ↦ rw e refl
  | inr e ↦ elim (Bool-cases (hopper_input_almost_empty input)) [
    | inl q ↦ rw (e, q) refl
    | inr q ↦ rw (e, q) refl
  ]
]

module _ {ℓ} {A B : Type ℓ} where
  branch_1 : (c : Bool) (a b : A) (t : B) → (if◌then◌else◌ {A = A × B} c (a, t) (b, t)).1 ≡ t
  branch_1 true a b t = refl
  branch_1 false a b t = refl

  branch_0 :
      (c : Bool) (a b : A) (t : B)
      → (if◌then◌else◌ {A = A × B} c (a, t) (b, t)).0 ≡ (if c then a else b)
  branch_0 true a b t = refl
  branch_0 false a b t = refl

on_dispense_finished-IsSynced :
    (outcome : Outcome) (raw_delta : ℤ) (measured : Bool) (now_ms : ℕ) (input : HopperInput)
    (s : LevelState)
    → let latched = latch_after outcome raw_delta measured input s.empty_latched in
      let r = hopper_level_on_dispense_finished outcome raw_delta measured now_ms input s in
      IsSynced input latched r.1
      × (r.0 ≡ (if is_success outcome && latched then empty_hopper else outcome))
unfolding hopper_level_on_dispense_finished
on_dispense_finished-IsSynced outcome raw_delta measured now_ms input s =
    let latched = latch_after outcome raw_delta measured input s.empty_latched in
    let t = hopper_level_sync_published now_ms input (record s { empty_latched = latched }) in
    let v : IsSynced input latched t =
      sync-IsSynced now_ms input (record s { empty_latched = latched }) in
    let shows =
      ap (λ l. same_published l state_empty) v.shown ∙ empty_iff_latched input t ∙ v.latch in
    let c = is_success outcome && same_published t.published state_empty in
    (
      rw (branch_1 c empty_hopper outcome t) v,
      branch_0 c empty_hopper outcome t
          ∙ ap (λ b. if is_success outcome && b then empty_hopper else outcome) shows,
    )

-- The latch after a dispense: an underfill sets it; a success that was measured clears it if food was
-- weighed, and else sets it while the sensor says low; anything else leaves it.
unfoldable pub latched_then : Outcome → ℤ → Bool → HopperLevel → Bool → Bool
latched_then underfill raw_delta measured level was = true
latched_then success raw_delta true level_low was = leb_ℤ raw_delta (pos 0)
latched_then success raw_delta true level_normal was = leb_ℤ raw_delta (pos 0) && was
latched_then outcome raw_delta measured level was = was

unfoldable pub shown_then : Bool → HopperLevel → PublishedLevel
shown_then true level = state_empty
shown_then false level_low = state_low
shown_then false level_normal = state_normal

unfoldable pub reported_then : Outcome → Bool → Outcome
reported_then success true = empty_hopper
reported_then outcome latched = outcome

latch_after_lem :
    (outcome : Outcome) (raw_delta : ℤ) (measured : Bool) (input : HopperInput) (was : Bool)
    (level : HopperLevel)
    → input.level ≡ level
    → latch_after outcome raw_delta measured input was
      ≡ latched_then outcome raw_delta measured level was
unfolding latch_after hopper_level_should_latch_empty hopper_input_almost_empty latched_then
    is_success same_level
latch_after_lem underfill d m input was level e = refl
latch_after_lem stuck d m input was level e = refl
latch_after_lem empty_hopper d m input was level e = refl
latch_after_lem aborted d m input was level e = refl
latch_after_lem success d false input was level e = refl
latch_after_lem success d true input was level_low e = rw e (ground arith)
latch_after_lem success d true input was level_normal e = rw e (ground arith)

compute-shown :
    (input : HopperInput) (t : LevelState) (latched : Bool) (level : HopperLevel)
    → t.empty_latched ≡ latched
    → input.level ≡ level
    → hopper_level_compute input t ≡ shown_then latched level
unfolding hopper_level_compute hopper_input_almost_empty shown_then same_level
compute-shown input t true level l e = rw l refl
compute-shown input t false level_low l e = rw (l, e) refl
compute-shown input t false level_normal l e = rw (l, e) refl

reported-then :
    (outcome : Outcome) (latched : Bool)
    → (if is_success outcome && latched then empty_hopper else outcome)
      ≡ reported_then outcome latched
unfolding reported_then is_success
reported-then success true = refl
reported-then success false = refl
reported-then stuck latched = refl
reported-then underfill latched = refl
reported-then empty_hopper latched = refl
reported-then aborted latched = refl

-- When a dispense ends, the latch is set after an underfill, and after a measured success without food
-- while the sensor says low; it is cleared after a measured success with food, and stays otherwise. The
-- published level is empty with the latch set and else the sensor's, and the outcome is turned into
-- `empty_hopper` exactly for a success with the latch set.
pub on_dispense_finished-latched :
    (outcome : Outcome) (raw_delta : ℤ) (measured : Bool) (now_ms : ℕ) (input : HopperInput)
    (s : LevelState)
    → let latched = latched_then outcome raw_delta measured input.level s.empty_latched in
      let r = hopper_level_on_dispense_finished outcome raw_delta measured now_ms input s in
      (r.1.empty_latched ≡ latched)
      × (r.1.published ≡ shown_then latched input.level)
      × (r.0 ≡ reported_then outcome latched)
on_dispense_finished-latched outcome raw_delta measured now_ms input s =
    let latched = latched_then outcome raw_delta measured input.level s.empty_latched in
    let r = hopper_level_on_dispense_finished outcome raw_delta measured now_ms input s in
    let new : latch_after outcome raw_delta measured input s.empty_latched ≡ latched =
      latch_after_lem outcome raw_delta measured input s.empty_latched input.level refl in
    let (v, o) = on_dispense_finished-IsSynced outcome raw_delta measured now_ms input s in
    let set : r.1.empty_latched ≡ latched = v.latch ∙ new in
    (
      set,
      v.shown ∙ compute-shown input r.1 latched input.level set refl,
      o
          ∙ ap (λ b. if is_success outcome && b then empty_hopper else outcome) new
          ∙ reported-then outcome latched,
    )
