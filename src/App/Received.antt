-- ===== src/App/Received.antt =====
-- What a receive from the queue takes, firmware/src/app_event_port.c.
use mathlib.Core.Path.{subst}
use xiaomi_feeder_iv.Common.{ℕ, ◌≡◌, refl, ap, ◌∙◌, Option, none, some, List, ◌∷◌}
use xiaomi_feeder_iv.App.{
  AppEvent, is_display_tick, is_timer_tick, is_button_irq, KernelQueue, EventPort, received,
  receive_from, app_event_receive, queued,
}
use xiaomi_feeder_iv.App.Counted.{IsCounted, count_received, queued-some}

module _ {Q : Type 0} (kernel : KernelQueue Q) where
  -- What a receive takes from the queue: the oldest event, and nothing else of the port.
  pub record Received (p : EventPort Q) (ev : AppEvent) (p' : EventPort Q) : Type 0 where
    pub oldest : queued kernel p ≡ ev ∷ queued kernel p'
    pub rest : p' ≡ record p { queue = p'.queue }

  received-Received :
      (p : EventPort Q) (q : Q) (o : Option (AppEvent × Q)) (ev : AppEvent) (p' : EventPort Q)
      → p.queue ≡ some q
      → kernel.receive q ≡ o
      → received kernel p o ≡ some (ev, p')
      → Received p ev p'
  received-Received p q none ev p' e r h = absurd (cc h)
  received-Received p q (some (ev1, q1)) ev p' e r h =
      let same : record p { queue = some q1 } ≡ p' = cc h in
      let ev_same : ev1 ≡ ev = cc h in
      subst (λ x. Received p ev x) same
        (record {
          oldest =
              queued-some kernel p q e
              ∙ kernel.receive-some q q1 ev1 r
              ∙ ap (λ x. x ∷ kernel.waiting q1) ev_same;
          rest = refl;
        })

  receive_from-Received :
      (p : EventPort Q) (o : Option Q) (ev : AppEvent) (p' : EventPort Q)
      → p.queue ≡ o
      → receive_from kernel p o ≡ some (ev, p')
      → Received p ev p'
  unfolding receive_from
  receive_from-Received p none ev p' e h = absurd (cc h)
  receive_from-Received p (some q) ev p' e h =
      received-Received p q (kernel.receive q) ev p' e refl h

  pub receive-Received :
      (p : EventPort Q) (ev : AppEvent) (p' : EventPort Q)
      → app_event_receive kernel p ≡ some (ev, p')
      → Received p ev p'
  unfolding app_event_receive
  receive-Received p ev p' h = receive_from-Received p p.queue ev p' refl h

  pub receive-IsCounted :
      (flight : List AppEvent) (ev : AppEvent) (p p' : EventPort Q)
      → Received p ev p'
      → IsCounted kernel flight p
      → IsCounted kernel (ev ∷ flight) p'
  receive-IsCounted flight ev p p' r c =
      let same : (f : EventPort Q → ℕ) → f p' ≡ f (record p { queue = p'.queue }) =
        λ f. ap f r.rest in
      record {
        display =
            count_received kernel is_display_tick _ _ ev _ _ flight r.oldest
              (same (λ x. x.display_ticks_queued)) c.display;
        timer =
            count_received kernel is_timer_tick _ _ ev _ _ flight r.oldest
              (same (λ x. x.timer_ticks_queued)) c.timer;
        irq =
            count_received kernel is_button_irq _ _ ev _ _ flight r.oldest
              (same (λ x. x.button_irq_queued)) c.irq;
      }
