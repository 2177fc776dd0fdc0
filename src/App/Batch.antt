-- ===== src/App/Batch.antt =====
-- The batches of the application task, firmware/src/app.c and app_task.c. What `app_dispatch` does
-- with an event is a parameter: it changes the rest of the program's state, and posts events. The
-- posts of other tasks and of the interrupt during a dispatch are among them, in their order.
use xiaomi_feeder_iv.Common.{
  if◌then◌else◌, ℕ, zero, suc, Bool, true, false, ◌||◌, Option, none, some, List, [], ◌∷◌,
}
use xiaomi_feeder_iv.App.{
  AppEvent, display_tick, is_display_tick, KernelQueue, EventPort, app_event_release,
  app_event_post, app_event_post_from_isr, app_event_receive,
}

abbrev pub app_event_drain_max : ℕ
app_event_drain_max = 16

pub data Post : Type 0 where
  from_task from_isr : AppEvent → Post

module _ {Q W : Type 0} (kernel : KernelQueue Q) (handle : AppEvent → W → W × List Post) where
  unfoldable pub post : Post → EventPort Q → EventPort Q
  post (from_task ev) p = (app_event_post kernel ev p).0
  post (from_isr ev) p = (app_event_post_from_isr kernel ev p).0

  unfoldable pub post_all : List Post → EventPort Q → EventPort Q
  post_all [] p = p
  post_all (e ∷ es) p = post_all es (post e p)

  unfoldable pub dispatch_event : AppEvent → W × EventPort Q → W × EventPort Q
  dispatch_event ev (w, p) = ((handle ev w).0, post_all (handle ev w).1 p)

  abbrev pub release_event : AppEvent → W × EventPort Q → W × EventPort Q
  release_event ev (w, p) = (w, app_event_release ev p)

  -- The first loop: every event but the display ticks.
  unfoldable pub undeferred_pass : List AppEvent → W × EventPort Q → W × EventPort Q
  undeferred_pass [] s = s
  undeferred_pass (ev ∷ batch) s =
      undeferred_pass batch
        (if is_display_tick ev then s else release_event ev (dispatch_event ev s))

  -- The second loop, with `display_dispatched`.
  unfoldable pub display_pass : List AppEvent → Bool → W × EventPort Q → W × EventPort Q
  display_pass [] dispatched s = s
  display_pass (ev ∷ batch) dispatched s = display_pass batch (dispatched || is_display_tick ev) (
      if is_display_tick ev
      then release_event ev (if dispatched then s else dispatch_event ev s)
      else s)

  unfoldable pub app_dispatch_event_batch : List AppEvent → W × EventPort Q → W × EventPort Q
  app_dispatch_event_batch batch s = display_pass batch false (undeferred_pass batch s)

  -- The events taken from the queue, `n` at most.
  unfoldable pub take_queued : ℕ → EventPort Q → List AppEvent × EventPort Q
  take_queued zero p = ([], p)
  take_queued (suc n) p = elim (app_event_receive kernel p) [
    | none ↦ ([], p)
    | some (ev, p') ↦ let rest = take_queued n p' in (ev ∷ rest.0, rest.1)
  ]

  unfoldable pub app_collect_queued_events :
      ℕ → Option AppEvent → EventPort Q → List AppEvent × EventPort Q
  app_collect_queued_events zero first p = ([], p)
  app_collect_queued_events (suc n) none p = take_queued (suc n) p
  app_collect_queued_events (suc n) (some ev) p = (ev ∷ (take_queued n p).0, (take_queued n p).1)

  unfoldable pub app_process_received_event : AppEvent → W × EventPort Q → W × EventPort Q
  app_process_received_event ev (w, p) =
      let (batch, p') = app_collect_queued_events app_event_drain_max (some ev) p in
      app_dispatch_event_batch batch (w, p')

  unfoldable pub app_step : W × EventPort Q → (W × EventPort Q) × Bool
  app_step (w, p) =
      let (batch, p') = app_collect_queued_events app_event_drain_max none p in
      elim batch [
        | [] ↦ ((w, p'), false)
        | ev ∷ rest ↦ (app_dispatch_event_batch (ev ∷ rest) (w, p'), true)
      ]

  unfoldable pub app_drain_queued_events : W × EventPort Q → W × EventPort Q
  app_drain_queued_events (w, p) =
      let (batch, p') = app_collect_queued_events app_event_drain_max none p in
      elim batch [ [] ↦ (w, p') | ev ∷ rest ↦ app_dispatch_event_batch (ev ∷ rest) (w, p') ]

  -- One turn of `app_task_fn`: when the wait for an event times out, at the tick `now_ms`, the
  -- display tick is dispatched without the queue.
  unfoldable pub turn_on : ℕ → W × EventPort Q → Option (AppEvent × EventPort Q) → W × EventPort Q
  turn_on now_ms (w, p) none = dispatch_event (display_tick now_ms) (w, p)
  turn_on now_ms (w, p) (some (ev, p')) = app_process_received_event ev (w, p')

  unfoldable pub app_task_turn : ℕ → W × EventPort Q → W × EventPort Q
  app_task_turn now_ms (w, p) = turn_on now_ms (w, p) (app_event_receive kernel p)
