-- ===== src/App/Turn.antt =====
-- What turns of the application task do to the counters.
use xiaomi_feeder_iv.Common.{All, ℕ, ◌≡◌, refl, Option, none, some, List, [], ◌∷◌, ◌++◌}
use xiaomi_feeder_iv.App.{AppEvent, display_tick, KernelQueue, EventPort, app_event_receive}
use xiaomi_feeder_iv.App.Batch.{
  Post, post_all, dispatch_event, take_queued, app_collect_queued_events,
  app_process_received_event, turn_on, app_task_turn,
}
use xiaomi_feeder_iv.App.Counted.{IsCounted}
use xiaomi_feeder_iv.App.Received.{receive-Received, receive-IsCounted}
use xiaomi_feeder_iv.App.Flight.{
  IsSafe, count_of-last, recount, post_all-IsCounted, batch-IsCounted, take_queued-IsCounted,
}

module _ {Q W : Type 0} (kernel : KernelQueue Q) (handle : AppEvent → W → W × List Post) where
  -- What happens at the queue: a turn of the task, at a tick of the clock, or posts of others while
  -- it waits.
  pub data Happening : Type 0 where
    turn : ℕ → Happening
    posts : List Post → Happening

  pub happen : List Happening → W × EventPort Q → W × EventPort Q
  happen [] s = s
  happen (turn now ∷ hs) s = happen hs (app_task_turn kernel handle now s)
  happen (posts es ∷ hs) (w, p) = happen hs (w, post_all kernel handle es p)

  abbrev pub IsSafeHappening : Happening → Type 0
  IsSafeHappening (turn now) = Unit
  IsSafeHappening (posts es) = All IsSafe es

  process-IsCounted :
      (ev : AppEvent) (w : W) (p : EventPort Q)
      → ((ev : AppEvent) (w : W) → All IsSafe (handle ev w).1)
      → IsCounted kernel (ev ∷ []) p
      → IsCounted kernel [] (app_process_received_event kernel handle ev (w, p)).1
  unfolding app_process_received_event app_collect_queued_events
  process-IsCounted ev w p safe c =
      let taken : List AppEvent × EventPort Q = take_queued kernel handle 15 p in
      batch-IsCounted kernel handle (ev ∷ taken.0) (w, taken.1) safe
        (recount kernel handle (taken.0 ++ ev ∷ []) (ev ∷ taken.0) taken.1
          (λ is. count_of-last is ev taken.0)
          (take_queued-IsCounted kernel handle 15 (ev ∷ []) p c))

  turn_on-IsCounted :
      (now : ℕ) (w : W) (p : EventPort Q) (o : Option (AppEvent × EventPort Q))
      → app_event_receive kernel p ≡ o
      → ((ev : AppEvent) (w : W) → All IsSafe (handle ev w).1)
      → IsCounted kernel [] p
      → IsCounted kernel [] (turn_on kernel handle now (w, p) o).1
  unfolding turn_on dispatch_event
  turn_on-IsCounted now w p none e safe c =
      post_all-IsCounted kernel handle [] (handle (display_tick now) w).1 p (safe _ w) c
  turn_on-IsCounted now w p (some (ev, p')) e safe c =
      process-IsCounted ev w p' safe
        (receive-IsCounted kernel [] ev p p' (receive-Received kernel p ev p' e) c)

  turn-IsCounted :
      (now : ℕ) (w : W) (p : EventPort Q)
      → ((ev : AppEvent) (w : W) → All IsSafe (handle ev w).1)
      → IsCounted kernel [] p
      → IsCounted kernel [] (app_task_turn kernel handle now (w, p)).1
  unfolding app_task_turn
  turn-IsCounted now w p safe c = turn_on-IsCounted now w p (app_event_receive kernel p) refl safe c

  -- Over any turns of the task and posts of others, from counters that are right, the three counters
  -- say how many of their events wait in the queue, and at most one of each does. The interrupt
  -- posts no tick.
  pub happen-IsCounted :
      (hs : List Happening) (w : W) (p : EventPort Q)
      → ((ev : AppEvent) (w : W) → All IsSafe (handle ev w).1)
      → All IsSafeHappening hs
      → IsCounted kernel [] p
      → IsCounted kernel [] (happen hs (w, p)).1
  unfolding happen
  happen-IsCounted [] w p safe a c = c
  happen-IsCounted (turn now ∷ hs) w p safe a c =
      happen-IsCounted hs _ _ safe a.1 (turn-IsCounted now w p safe c)
  happen-IsCounted (posts es ∷ hs) w p safe a c =
      happen-IsCounted hs w _ safe a.1 (post_all-IsCounted kernel handle [] es p a.0 c)
