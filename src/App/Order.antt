-- ===== src/App/Order.antt =====
-- The order in which a batch is handled.
use xiaomi_feeder_iv.Common.{
  if◌then◌else◌, Bool-cases, take, ◌≡◌, refl, sym, ap, ◌∙◌, inl, inr, true, false, List, [], ◌∷◌,
  ◌++◌,
}
use xiaomi_feeder_iv.App.{AppEvent, is_display_tick, KernelQueue, EventPort}
use xiaomi_feeder_iv.App.Batch.{
  Post, dispatch_event, release_event, undeferred_pass, display_pass, app_dispatch_event_batch,
}

unfoldable pub undeferred : List AppEvent → List AppEvent
undeferred [] = []
undeferred (ev ∷ es) = if is_display_tick ev then undeferred es else ev ∷ undeferred es

unfoldable pub ticks : List AppEvent → List AppEvent
ticks [] = []
ticks (ev ∷ es) = if is_display_tick ev then ev ∷ ticks es else ticks es

abbrev pub but_first : List AppEvent → List AppEvent
but_first [] = []
but_first (ev ∷ es) = es

-- What is dispatched of a batch, in this order, and what is only released.
abbrev pub dispatched : List AppEvent → List AppEvent
dispatched batch = undeferred batch ++ take 1 (ticks batch)

abbrev pub only_released : List AppEvent → List AppEvent
only_released batch = but_first (ticks batch)

module _ {Q W : Type 0} (kernel : KernelQueue Q) (handle : AppEvent → W → W × List Post) where
  unfoldable pub handle_all : List AppEvent → W × EventPort Q → W × EventPort Q
  handle_all [] s = s
  handle_all (ev ∷ es) s =
      handle_all es (release_event kernel handle ev (dispatch_event kernel handle ev s))

  unfoldable pub release_all : List AppEvent → W × EventPort Q → W × EventPort Q
  release_all [] s = s
  release_all (ev ∷ es) s = release_all es (release_event kernel handle ev s)

  handle_all-append :
      (xs ys : List AppEvent) (s : W × EventPort Q)
      → handle_all (xs ++ ys) s ≡ handle_all ys (handle_all xs s)
  unfolding handle_all
  handle_all-append [] ys s = refl
  handle_all-append (x ∷ xs) ys s = handle_all-append xs ys _

  undeferred_pass_lem :
      (batch : List AppEvent) (s : W × EventPort Q)
      → undeferred_pass kernel handle batch s ≡ handle_all (undeferred batch) s
  unfolding undeferred_pass handle_all undeferred
  undeferred_pass_lem [] s = refl
  undeferred_pass_lem (ev ∷ batch) s = elim (Bool-cases (is_display_tick ev)) [
    | inl e ↦ rw e (undeferred_pass_lem batch s)
    | inr e ↦ rw e (undeferred_pass_lem batch _)
  ]

  display_pass_again :
      (batch : List AppEvent) (s : W × EventPort Q)
      → display_pass kernel handle batch true s ≡ release_all (ticks batch) s
  unfolding display_pass release_all ticks
  display_pass_again [] s = refl
  display_pass_again (ev ∷ batch) s = elim (Bool-cases (is_display_tick ev)) [
    | inl e ↦ rw e (display_pass_again batch _)
    | inr e ↦ rw e (display_pass_again batch s)
  ]

  display_pass_lem :
      (batch : List AppEvent) (s : W × EventPort Q)
      → display_pass kernel handle batch false s
        ≡ release_all (but_first (ticks batch)) (handle_all (take 1 (ticks batch)) s)
  unfolding display_pass release_all handle_all ticks
  display_pass_lem [] s = refl
  display_pass_lem (ev ∷ batch) s = elim (Bool-cases (is_display_tick ev)) [
    | inl e ↦ rw e (display_pass_again batch _)
    | inr e ↦ rw e (display_pass_lem batch s)
  ]

  -- A batch is handled as follows: its events other than display ticks are dispatched and released
  -- in their order, then its first display tick, and the other display ticks are only released.
  pub dispatch_event_batch-ordered :
      (batch : List AppEvent) (s : W × EventPort Q)
      → app_dispatch_event_batch kernel handle batch s
        ≡ release_all (only_released batch) (handle_all (dispatched batch) s)
  unfolding app_dispatch_event_batch
  dispatch_event_batch-ordered batch s =
      ap (display_pass kernel handle batch false) (undeferred_pass_lem batch s)
      ∙ display_pass_lem batch (handle_all (undeferred batch) s)
      ∙ ap (release_all (only_released batch))
          (sym (handle_all-append (undeferred batch) (take 1 (ticks batch)) s))
