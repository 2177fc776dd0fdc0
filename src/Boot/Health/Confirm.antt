-- ===== src/Boot/Health/Confirm.antt =====
-- A new image that runs for a minute stays.
use xiaomi_feeder_iv.Common.{
  leb, if◌then◌else◌, Bool-cases, if_true, if_false, u32_mod, u32, ℕ, ◌+◌, ◌<◌, ◌≡◌, refl, sym, ap,
  ◌∙◌, inl, inr, Bool, true, false, not, Option, none, some, List, [], ◌∷◌, arith,
}
use xiaomi_feeder_iv.Boot.{
  ControlBlock, boot_bank_resolve, boot_bank_load_address, boot_bank_is_unverified,
  boot_bank_confirm_slot,
}
use xiaomi_feeder_iv.Boot.Jump.{
  Flash, bl_dual_image_boot_addr, boot_bank_query_unverified, boot_bank_confirm_boot,
}
use xiaomi_feeder_iv.Boot.Jump.Cycles.{Works, starts, confirm-Works, starts-confirm}
use xiaomi_feeder_iv.Boot.Health.{
  SlotHealth, ota_slot_health_increment_boot_count, Polled, ota_slot_health_on_boot, after_confirm,
  ota_slot_health_poll_ms,
}

-- Some tick has reached the deadline.
unfoldable pub is_reached : ℕ → List ℕ → Bool
is_reached d [] = false
is_reached d (t ∷ ts) = let rest = is_reached d ts in if leb d t then true else rest

module _ (flash : Flash) where
  -- The state and the block after polls at the ticks of a list.
  unfoldable pub polls : List ℕ → SlotHealth → ControlBlock → SlotHealth × ControlBlock
  polls [] h cell = (h, cell)
  polls (t ∷ ts) h cell = let p = ota_slot_health_poll_ms flash t h cell in polls ts p.health p.cell

  abbrev idle : SlotHealth → ControlBlock → ℕ → Polled
  idle h cell answer = record { answer = answer; health = h; cell = cell; written = none }

  module _ (t : ℕ) (h : SlotHealth) (cell : ControlBlock) where
    poll-stopped : h.timer_running ≡ false → ota_slot_health_poll_ms flash t h cell ≡ idle h cell 0
    unfolding ota_slot_health_poll_ms
    poll-stopped e = if_true (idle h cell 0) _ (ap not e)

    poll-early :
        h.timer_running ≡ true
        → leb h.deadline t ≡ false
        → ota_slot_health_poll_ms flash t h cell ≡ idle h cell 1000
    unfolding ota_slot_health_poll_ms
    poll-early e r = if_false (idle h cell 0) _ (ap not e) ∙ if_false _ (idle h cell 1000) r

    poll-due :
        h.timer_running ≡ true
        → leb h.deadline t ≡ true
        → ota_slot_health_poll_ms flash t h cell
          ≡ after_confirm flash
              (record h { timer_running = false })
              (boot_bank_confirm_boot flash cell)
    unfolding ota_slot_health_poll_ms
    poll-due e r =
        if_false (idle h cell 0) _ (ap not e)
        ∙ if_true
            (after_confirm flash (record h { timer_running = false })
              (boot_bank_confirm_boot flash cell))
            (idle h cell 1000) r

  polls-stopped :
      (ts : List ℕ) (h : SlotHealth) (cell : ControlBlock)
      → h.timer_running ≡ false
      → (polls ts h cell).1 ≡ cell
  unfolding polls
  polls-stopped [] h cell e = refl
  polls-stopped (t ∷ ts) h cell e =
      ap (λ p. (polls ts p.health p.cell).1) (poll-stopped t h cell e) ∙ polls-stopped ts h cell e

  polls-after :
      (ts : List ℕ) (h : SlotHealth) (r : Bool × ControlBlock)
      → h.timer_running ≡ false
      → let p = after_confirm flash h r in (polls ts p.health p.cell).1 ≡ r.1
  unfolding after_confirm
  polls-after ts h (false, cell) e = polls-stopped ts h cell e
  polls-after ts h (true, cell) e = polls-stopped ts _ cell e

  polls-running :
      (ts : List ℕ) (h : SlotHealth) (cell : ControlBlock)
      → h.timer_running ≡ true
      → is_reached h.deadline ts ≡ true
      → (polls ts h cell).1 ≡ (boot_bank_confirm_boot flash cell).1
  unfolding polls is_reached
  polls-running [] h cell e d = absurd (cc d)
  polls-running (t ∷ ts) h cell e d = elim (Bool-cases (leb h.deadline t)) [
    | inl r ↦
        ap (λ p. (polls ts p.health p.cell).1) (poll-due t h cell e r)
        ∙ polls-after ts (record h { timer_running = false }) (boot_bank_confirm_boot flash cell)
            refl
    | inr r ↦
        ap (λ p. (polls ts p.health p.cell).1) (poll-early t h cell e r)
        ∙ polls-running ts h cell e (sym (if_false true (is_reached h.deadline ts) r) ∙ d)
  ]

  query-unverified :
      Works flash
      → (cell : ControlBlock) → boot_bank_query_unverified flash cell ≡ boot_bank_is_unverified cell
  unfolding boot_bank_query_unverified
  query-unverified w cell =
      ap
        (λ (o : Option ControlBlock). elim o [
          | none ↦ false
          | some ctrl ↦ boot_bank_is_unverified ctrl
        ])
        (w.reads cell)

  abbrev waiting_for : ℕ → SlotHealth
  waiting_for d = record { unverified = true; timer_running = true; deadline = d }

  on_boot-waits :
      (w : Works flash) (confirm_ticks now : ℕ) (read : Option (List ℕ)) (cell : ControlBlock)
      → boot_bank_is_unverified cell ≡ true
      → now + confirm_ticks < u32_mod
      → (ota_slot_health_on_boot flash confirm_ticks now read cell).0
        ≡ waiting_for (now + confirm_ticks)
  unfolding ota_slot_health_on_boot
  on_boot-waits w confirm_ticks now read cell u small =
      ap (λ (r : SlotHealth × Option (List ℕ)). r.0)
        (if_false _
          (
            waiting_for (u32 (now + confirm_ticks)),
            some (ota_slot_health_increment_boot_count read),
          )
          (ap not (query-unverified w cell ∙ u)))
      ∙ ap waiting_for (omega (arith, small))

  polls-confirm :
      (w : Works flash) (confirm_ticks now : ℕ) (read : Option (List ℕ)) (ts : List ℕ)
      (cell : ControlBlock)
      → boot_bank_is_unverified cell ≡ true
      → now + confirm_ticks < u32_mod
      → is_reached (now + confirm_ticks) ts ≡ true
      → (polls ts (ota_slot_health_on_boot flash confirm_ticks now read cell).0 cell).1
        ≡ (boot_bank_confirm_boot flash cell).1
  polls-confirm w confirm_ticks now read ts cell u small r =
      let d = now + confirm_ticks in
      ap (λ h. (polls ts h cell).1) (on_boot-waits w confirm_ticks now read cell u small)
      ∙ polls-running ts (waiting_for d) cell refl r

  -- On a flash that erases to all ones and programs erased places, with a valid image in each bank:
  -- when an unverified image has booted, its
  -- deadline is a tick below 2^32, and a poll comes at its deadline or later, the flash holds the block
  -- as confirmed, without attempts, and every later start jumps to the same bank.
  pub polls-starts :
      (w : Works flash) (k confirm_ticks now : ℕ) (read : Option (List ℕ)) (ts : List ℕ)
      (cell : ControlBlock)
      → boot_bank_is_unverified cell ≡ true
      → now + confirm_ticks < u32_mod
      → is_reached (now + confirm_ticks) ts ≡ true
      → let h = (ota_slot_health_on_boot flash confirm_ticks now read cell).0 in
        let after = (polls ts h cell).1 in
        (after ≡ record cell { unverified = 0; boot_attempts = 0 })
        × ((bl_dual_image_boot_addr flash (starts flash k after)).0
            ≡ boot_bank_load_address (boot_bank_resolve (some cell)))
  polls-starts w k confirm_ticks now read ts cell u small r =
      let confirmed = polls-confirm w confirm_ticks now read ts cell u small r in
      (
        confirmed ∙ confirm-Works flash w cell ∙ unfold boot_bank_confirm_slot in refl,
        ap (λ c. (bl_dual_image_boot_addr flash (starts flash k c)).0) confirmed
            ∙ starts-confirm flash w k cell,
      )
