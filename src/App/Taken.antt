-- ===== src/App/Taken.antt =====
-- What a turn of the application task takes from the queue, and in which order.
use mathlib.Core.Path.{subst}
use xiaomi_feeder_iv.Common.{
  Option-cases, take, ℕ, zero, suc, ◌≡◌, refl, sym, ap, ◌∙◌, inl, inr, Option, none, some, List, [],
  ◌∷◌, ◌++◌,
}
use xiaomi_feeder_iv.App.{
  AppEvent, display_tick, KernelQueue, EventPort, pointers, received, receive_from,
  app_event_receive, queued,
}
use xiaomi_feeder_iv.App.Counted.{queued-some}
use xiaomi_feeder_iv.App.Batch.{
  Post, dispatch_event, app_dispatch_event_batch, take_queued, app_collect_queued_events,
  app_process_received_event, turn_on, app_task_turn, post_all,
}
use xiaomi_feeder_iv.App.Order.{
  undeferred, ticks, but_first, dispatched, only_released, dispatch_event_batch-ordered,
}
use xiaomi_feeder_iv.App.Received.{receive-Received}
use xiaomi_feeder_iv.App.Flight.{take_queued-none, take_queued-some}
use xiaomi_feeder_iv.App.Memory.{
  all_pointers, Extends, all_pointers-append, pointers-undeferred, pointers-ticks, append_nil,
  post_all-OnlyPosted, Frees, Frees-more, handle_all-Frees, release_all-Frees,
}

pub drop : ℕ → List AppEvent → List AppEvent
drop zero es = es
drop (suc n) [] = []
drop (suc n) (e ∷ es) = drop n es

nil_parts : (xs ys : List ℕ) → xs ++ ys ≡ [] → (xs ≡ []) × (ys ≡ [])
nil_parts [] ys h = (refl, h)
nil_parts (x ∷ xs) ys h = absurd (cc h)

first-none : (ts : List AppEvent) → all_pointers ts ≡ [] → all_pointers (take 1 ts) ≡ []
unfolding all_pointers
first-none [] h = refl
first-none (t ∷ ts) h = append_nil (pointers t) ∙ (nil_parts (pointers t) (all_pointers ts) h).0

rest-none : (ts : List AppEvent) → all_pointers ts ≡ [] → all_pointers (but_first ts) ≡ []
unfolding all_pointers
rest-none [] h = refl
rest-none (t ∷ ts) h = (nil_parts (pointers t) (all_pointers ts) h).1

-- A batch is the same events in the order in which they are handled, so that the same memory is
-- freed.
pointers-batch :
    (batch : List AppEvent)
    → all_pointers (dispatched batch ++ only_released batch) ≡ all_pointers batch
pointers-batch batch =
    let u : List AppEvent = undeferred batch in
    let t : List AppEvent = ticks batch in
    all_pointers-append (dispatched batch) (only_released batch)
    ∙ ap (λ l. l ++ all_pointers (only_released batch)) (all_pointers-append u (take 1 t))
    ∙ ap (λ l. (all_pointers u ++ l) ++ all_pointers (only_released batch))
        (first-none t (pointers-ticks batch))
    ∙ ap (λ l. (all_pointers u ++ []) ++ l) (rest-none t (pointers-ticks batch))
    ∙ append_nil _
    ∙ append_nil _
    ∙ pointers-undeferred batch

module _ {Q W : Type 0} (kernel : KernelQueue Q) (handle : AppEvent → W → W × List Post) where
  batch-Frees :
      (batch : List AppEvent) (w : W) (p : EventPort Q)
      → Frees kernel handle batch p (app_dispatch_event_batch kernel handle batch (w, p)).1
  batch-Frees batch w p =
      let f =
        Frees-more kernel handle (dispatched batch) (only_released batch) p _ _
          (handle_all-Frees kernel handle (dispatched batch) w p)
          (release_all-Frees kernel handle (only_released batch) _) in
      rw (dispatch_event_batch-ordered kernel handle batch (w, p)) (record {
        memory = f.memory ∙ ap (λ l. p.freed ++ l) (pointers-batch batch);
        more = f.more;
      })

  -- The oldest `n` events are taken, in their order, and nothing else happens.
  record Taken (n : ℕ) (p : EventPort Q) (t : List AppEvent × EventPort Q) : Type 0 where
    batch : t.0 ≡ take n (queued kernel p)
    rest : queued kernel t.1 ≡ drop n (queued kernel p)
    freed : t.1.freed ≡ p.freed

  receive_from-empty :
      (p : EventPort Q) (o : Option Q)
      → p.queue ≡ o
      → receive_from kernel p o ≡ none
      → queued kernel p ≡ []
  unfolding receive_from
  receive_from-empty p none e h =
      ap (λ (o : Option Q). elim o [ none ↦ [] | some r ↦ kernel.waiting r ]) e
  receive_from-empty p (some q) e h = elim (Option-cases (kernel.receive q)) [
    | inl f ↦ queued-some kernel p q e ∙ kernel.receive-none q f
    | inr ((ev, q'), f) ↦ absurd (cc (ap (received kernel p) (sym f) ∙ h))
  ]

  receive-empty : (p : EventPort Q) → app_event_receive kernel p ≡ none → queued kernel p ≡ []
  unfolding app_event_receive
  receive-empty p h = receive_from-empty p p.queue refl h

  take_queued-Taken : (n : ℕ) (p : EventPort Q) → Taken n p (take_queued kernel handle n p)
  unfolding drop
  take_queued-Taken zero p =
      unfold take_queued in record { batch = refl; rest = refl; freed = refl }
  take_queued-Taken (suc n) p = elim (Option-cases (app_event_receive kernel p)) [
    | inl e ↦ rw (take_queued-none kernel handle n p e) (record {
      batch = ap (take (suc n)) (sym (receive-empty p e));
      rest = receive-empty p e ∙ ap (drop (suc n)) (sym (receive-empty p e));
      freed = refl;
    })
    | inr ((ev, p'), e) ↦
        let r = receive-Received kernel p ev p' e in
        let t = take_queued-Taken n p' in
        rw (take_queued-some kernel handle n p p' ev e) (record {
          batch = ap (λ l. ev ∷ l) t.batch ∙ ap (take (suc n)) (sym r.oldest);
          rest = t.rest ∙ ap (drop (suc n)) (sym r.oldest);
          freed = t.freed ∙ ap (λ x. x.freed) r.rest;
        })
  ]

  -- A turn of the task takes the 16 oldest events of the queue, frees the memory of each of them
  -- once, in their order, and nothing else, and keeps the other events in order, ahead of those that
  -- are posted meanwhile.
  pub record Turned (p p' : EventPort Q) : Type 0 where
    pub memory : p'.freed ≡ p.freed ++ all_pointers (take 16 (queued kernel p))
    pub order : Extends (drop 16 (queued kernel p)) (queued kernel p')

  turn_on-Turned :
      (now : ℕ) (w : W) (p : EventPort Q) (o : Option (AppEvent × EventPort Q))
      → app_event_receive kernel p ≡ o
      → Turned p (turn_on kernel handle now (w, p) o).1
  unfolding turn_on dispatch_event app_process_received_event app_collect_queued_events drop
      all_pointers
  turn_on-Turned now w p none e =
      let posted = post_all-OnlyPosted kernel handle (handle (display_tick now) w).1 p in
      let none_left : queued kernel p ≡ [] = receive-empty p e in
      record {
        memory =
            posted.freed
            ∙ sym (append_nil p.freed)
            ∙ ap (λ (l : List AppEvent). p.freed ++ all_pointers (take 16 l)) (sym none_left);
        order =
            subst
              (λ (l : List AppEvent).
                Extends l
                  (queued kernel (post_all kernel handle (handle (display_tick now) w).1 p)))
              (none_left ∙ ap (drop 16) (sym none_left)) posted.more;
      }
  turn_on-Turned now w p (some (ev, p')) e =
      let r = receive-Received kernel p ev p' e in
      let t = take_queued-Taken 15 p' in
      let f =
        batch-Frees (ev ∷ (take_queued kernel handle 15 p').0) w
          (take_queued kernel handle 15 p').1 in
      record {
        memory =
            f.memory
            ∙ ap (λ l. l ++ all_pointers (ev ∷ (take_queued kernel handle 15 p').0))
                (t.freed ∙ ap (λ x. x.freed) r.rest)
            ∙ ap (λ l. p.freed ++ all_pointers l)
                (ap (λ l. ev ∷ l) t.batch ∙ ap (take 16) (sym r.oldest));
        order =
            subst
              (λ (l : List AppEvent). Extends l (
                queued kernel
                  (app_dispatch_event_batch kernel handle (ev ∷ (take_queued kernel handle 15 p').0)
                    (w, (take_queued kernel handle 15 p').1)).1))
              (t.rest ∙ ap (drop 16) (sym r.oldest)) f.more;
      }

  pub task_turn-Turned :
      (now : ℕ) (w : W) (p : EventPort Q) → Turned p (app_task_turn kernel handle now (w, p)).1
  unfolding app_task_turn
  task_turn-Turned now w p = turn_on-Turned now w p (app_event_receive kernel p) refl
