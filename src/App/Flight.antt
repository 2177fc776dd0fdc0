-- ===== src/App/Flight.antt =====
-- The counters while a batch is collected and handled.
use xiaomi_feeder_iv.Common.{
  take, All, ◌+◌, ◌≡◌, refl, Bool, List, [], ◌∷◌, ◌++◌, arith, Option-cases, ℕ, zero, suc, inl, inr,
  ap, Option, none, some,
}
use xiaomi_feeder_iv.App.{
  AppEvent, is_display_tick, is_timer_tick, is_button_irq, KernelQueue, EventPort,
  app_event_receive,
}
use xiaomi_feeder_iv.App.Batch.{
  Post, from_task, from_isr, post, post_all, dispatch_event, app_dispatch_event_batch, take_queued,
}
use xiaomi_feeder_iv.App.Received.{receive-Received, receive-IsCounted}
use xiaomi_feeder_iv.App.Order.{
  undeferred, ticks, but_first, dispatched, only_released, handle_all, release_all,
  dispatch_event_batch-ordered,
}
use xiaomi_feeder_iv.App.Counted.{
  count_of, count_of-append, IsCounted, IsFromIsr, post-IsCounted, post_from_isr-IsCounted,
  release-IsCounted,
}

abbrev pub IsSafe : Post → Type 0
IsSafe (from_task ev) = Unit
IsSafe (from_isr ev) = IsFromIsr ev

count_of-batch :
    (is : AppEvent → Bool) (batch : List AppEvent)
    → count_of is (dispatched batch ++ only_released batch) ≡ count_of is batch
unfolding count_of undeferred ticks
count_of-batch is batch =
    let u : List AppEvent = undeferred batch in
    let r : List AppEvent = only_released batch in
    let f : List AppEvent = take 1 (ticks batch) in
    omega (
      arith,
      count_of-append is (u ++ f) r,
      count_of-append is u f,
      count_of-passes batch,
      count_of-ticks (ticks batch),
    )
  where
    count_of-ticks :
        (ts : List AppEvent) → count_of is ts ≡ count_of is (take 1 ts) + count_of is (but_first ts)
    count_of-ticks [] = refl
    count_of-ticks (t ∷ ts) = omega arith

    count_of-passes :
        (es : List AppEvent) → count_of is es ≡ count_of is (undeferred es) + count_of is (ticks es)
    count_of-passes [] = refl
    count_of-passes (e ∷ es) = ground (arith, count_of-passes es)

count_of-moved :
    (is : AppEvent → Bool) (ev : AppEvent) (xs ys : List AppEvent)
    → count_of is (ev ∷ xs ++ ys) ≡ count_of is (xs ++ ev ∷ ys)
unfolding count_of
count_of-moved is ev xs ys =
    omega (arith, count_of-append is xs ys, count_of-append is xs (ev ∷ ys))

pub count_of-last :
    (is : AppEvent → Bool) (ev : AppEvent) (xs : List AppEvent)
    → count_of is (ev ∷ xs) ≡ count_of is (xs ++ ev ∷ [])
unfolding count_of
count_of-last is ev xs = omega (arith, count_of-append is xs (ev ∷ []))

module _ {Q W : Type 0} (kernel : KernelQueue Q) (handle : AppEvent → W → W × List Post) where
  pub recount :
      (flight flight' : List AppEvent) (p : EventPort Q)
      → ((is : AppEvent → Bool) → count_of is flight' ≡ count_of is flight)
      → IsCounted kernel flight p
      → IsCounted kernel flight' p
  recount flight flight' p same c = record {
    display = rw (same is_display_tick) c.display;
    timer = rw (same is_timer_tick) c.timer;
    irq = rw (same is_button_irq) c.irq;
  }

  pub post_all-IsCounted :
      (flight : List AppEvent) (es : List Post) (p : EventPort Q)
      → All IsSafe es
      → IsCounted kernel flight p
      → IsCounted kernel flight (post_all kernel handle es p)
  unfolding post_all post
  post_all-IsCounted flight [] p safe c = c
  post_all-IsCounted flight (from_task ev ∷ es) p safe c =
      post_all-IsCounted flight es _ safe.1 (post-IsCounted kernel flight ev p c)
  post_all-IsCounted flight (from_isr ev ∷ es) p safe c =
      post_all-IsCounted flight es _ safe.1 (post_from_isr-IsCounted kernel flight ev p safe.0 c)

  handle_all-IsCounted :
      (rest es : List AppEvent) (w : W) (p : EventPort Q)
      → ((ev : AppEvent) (w : W) → All IsSafe (handle ev w).1)
      → IsCounted kernel (es ++ rest) p
      → IsCounted kernel rest (handle_all kernel handle es (w, p)).1
  unfolding handle_all dispatch_event
  handle_all-IsCounted rest [] w p safe c = c
  handle_all-IsCounted rest (ev ∷ es) w p safe c = handle_all-IsCounted rest es _ _ safe (
      release-IsCounted kernel ev (es ++ rest) _
        (post_all-IsCounted (ev ∷ es ++ rest) (handle ev w).1 p (safe ev w) c))

  release_all-IsCounted :
      (es : List AppEvent) (s : W × EventPort Q)
      → IsCounted kernel es s.1
      → IsCounted kernel [] (release_all kernel handle es s).1
  unfolding release_all
  release_all-IsCounted [] s c = c
  release_all-IsCounted (ev ∷ es) s c =
      release_all-IsCounted es _ (release-IsCounted kernel ev es _ c)

  pub batch-IsCounted :
      (batch : List AppEvent) (s : W × EventPort Q)
      → ((ev : AppEvent) (w : W) → All IsSafe (handle ev w).1)
      → IsCounted kernel batch s.1
      → IsCounted kernel [] (app_dispatch_event_batch kernel handle batch s).1
  batch-IsCounted batch s safe c = rw (dispatch_event_batch-ordered kernel handle batch s) (
      release_all-IsCounted (only_released batch) _ (
        handle_all-IsCounted (only_released batch) (dispatched batch) s.0 s.1 safe
          (recount _ _ s.1 (λ is. count_of-batch is batch) c)))

  pub take_queued-none :
      (n : ℕ) (p : EventPort Q)
      → app_event_receive kernel p ≡ none
      → take_queued kernel handle (suc n) p ≡ ([], p)
  unfolding take_queued
  take_queued-none n p e =
      ap
        (λ (o : Option (AppEvent × EventPort Q)). elim o [
          | none ↦ ([], p)
          | some (ev, p') ↦ let rest = take_queued kernel handle n p' in (ev ∷ rest.0, rest.1)
        ])
        e

  pub take_queued-some :
      (n : ℕ) (p p' : EventPort Q) (ev : AppEvent)
      → app_event_receive kernel p ≡ some (ev, p')
      → take_queued kernel handle (suc n) p
        ≡ (ev ∷ (take_queued kernel handle n p').0, (take_queued kernel handle n p').1)
  unfolding take_queued
  take_queued-some n p p' ev e =
      ap
        (λ (o : Option (AppEvent × EventPort Q)). elim o [
          | none ↦ ([], p)
          | some (ev, p') ↦ let rest = take_queued kernel handle n p' in (ev ∷ rest.0, rest.1)
        ])
        e

  pub take_queued-IsCounted :
      (n : ℕ) (flight : List AppEvent) (p : EventPort Q)
      → IsCounted kernel flight p
      → IsCounted kernel
          ((take_queued kernel handle n p).0 ++ flight)
          (take_queued kernel handle n p).1
  take_queued-IsCounted zero flight p c = unfold take_queued in c
  take_queued-IsCounted (suc n) flight p c = elim (Option-cases (app_event_receive kernel p)) [
    | inl e ↦ rw (take_queued-none n p e) c
    | inr ((ev, p'), e) ↦ rw (take_queued-some n p p' ev e) (
        recount _ _ _ (λ is. count_of-moved is ev (take_queued kernel handle n p').0 flight)
          (take_queued-IsCounted n (ev ∷ flight) p'
            (receive-IsCounted kernel flight ev p p' (receive-Received kernel p ev p' e) c)))
  ]
