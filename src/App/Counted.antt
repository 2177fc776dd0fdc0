-- ===== src/App/Counted.antt =====
-- The three counters of waiting events, firmware/src/app_event_port.c.
use xiaomi_feeder_iv.Common.{
  ltb, if◌then◌else◌, ℕ, ◌+◌, ◌≤◌, ◌≡◌, refl, ap, ◌∙◌, Bool, false, ◌&&◌, List, [], ◌∷◌, ◌++◌,
  arith, Option-cases, sym, inl, inr, true, ◌||◌, Option, none, some, if_both,
}
use xiaomi_feeder_iv.App.{
  AppEvent, is_display_tick, is_timer_tick, is_button_irq, KernelQueue, EventPort, add_if, drop_if,
  app_event_release, queued, coalesces, count_queued, app_event_post, app_event_post_from_isr,
  post_sent, post_into, isr_into, isr_sent,
}

unfoldable pub count_of : (AppEvent → Bool) → List AppEvent → ℕ
count_of is [] = 0
count_of is (e ∷ es) = (if is e then 1 else 0) + count_of is es

pub count_of-append :
    (is : AppEvent → Bool) (xs ys : List AppEvent)
    → count_of is (xs ++ ys) ≡ count_of is xs + count_of is ys
unfolding count_of
count_of-append is [] ys = omega arith
count_of-append is (x ∷ xs) ys = omega (arith, count_of-append is xs ys)

-- What the interrupt posts: an event that is no tick, which it counts as a task would.
abbrev pub IsFromIsr : AppEvent → Type 0
IsFromIsr ev = (is_display_tick ev ≡ false) × (is_timer_tick ev ≡ false)

-- Each counter is the number of its events in the queue and under way, which is 1 at most.
abbrev Counts : (AppEvent → Bool) → ℕ → List AppEvent → List AppEvent → Type 0
Counts is n waiting flight = (n ≡ count_of is waiting + count_of is flight) × (n ≤ 1)

module _ {Q : Type 0} (kernel : KernelQueue Q) where
  pub record IsCounted (flight : List AppEvent) (p : EventPort Q) : Type 0 where
    pub display : Counts is_display_tick p.display_ticks_queued (queued kernel p) flight
    pub timer : Counts is_timer_tick p.timer_ticks_queued (queued kernel p) flight
    pub irq : Counts is_button_irq p.button_irq_queued (queued kernel p) flight

  count_sent :
      (is : AppEvent → Bool) (n : ℕ) (ev : AppEvent) (ws ws' flight : List AppEvent)
      → ws' ≡ ws ++ ev ∷ []
      → (is ev && ltb 0 n) ≡ false
      → Counts is n ws flight
      → Counts is (add_if (is ev) n) ws' flight
  unfolding count_of
  count_sent is n ev ws ws' flight e f c =
      let a : count_of is ws' ≡ count_of is ws + count_of is (ev ∷ []) =
        ap (count_of is) e ∙ count_of-append is ws (ev ∷ []) in
      ground (arith, a, c)

  pub count_received :
      (is : AppEvent → Bool) (n n' : ℕ) (ev : AppEvent) (ws ws' flight : List AppEvent)
      → ws ≡ ev ∷ ws'
      → n' ≡ n
      → Counts is n ws flight
      → Counts is n' ws' (ev ∷ flight)
  unfolding count_of
  count_received is n n' ev ws ws' flight e same c =
      let a : count_of is ws ≡ count_of is (ev ∷ ws') = ap (count_of is) e in
      (omega (arith, a, c.0, same), omega (arith, c.1, same))

  count_released :
      (is : AppEvent → Bool) (n : ℕ) (ev : AppEvent) (ws flight : List AppEvent)
      → Counts is n ws (ev ∷ flight)
      → Counts is (drop_if (is ev) n) ws flight
  unfolding count_of
  count_released is n ev ws flight c = ground (arith, c)

  pub release-IsCounted :
      (ev : AppEvent) (flight : List AppEvent) (p : EventPort Q)
      → IsCounted (ev ∷ flight) p
      → IsCounted flight (app_event_release ev p)
  unfolding app_event_release
  release-IsCounted ev flight p c = record {
    display = count_released is_display_tick _ ev _ flight c.display;
    timer = count_released is_timer_tick _ ev _ flight c.timer;
    irq = count_released is_button_irq _ ev _ flight c.irq;
  }

  pub queued-some :
      (p : EventPort Q) (q : Q) → p.queue ≡ some q → queued kernel p ≡ kernel.waiting q
  queued-some p q e = ap (λ (o : Option Q). elim o [ none ↦ [] | some r ↦ kernel.waiting r ]) e

  count_queued-IsCounted :
      (flight : List AppEvent) (ev : AppEvent) (p : EventPort Q) (q q' : Q)
      → p.queue ≡ some q
      → kernel.send ev q ≡ some q'
      → coalesces ev p ≡ false
      → IsCounted flight p
      → IsCounted flight (count_queued ev q' p)
  unfolding coalesces count_queued
  count_queued-IsCounted flight ev p q q' e sent f c =
      let ws : kernel.waiting q' ≡ queued kernel p ++ ev ∷ [] =
        kernel.waiting-send ev q q' sent
        ∙ ap (λ (l : List AppEvent). l ++ ev ∷ []) (sym (queued-some p q e)) in
      let d = is_display_tick ev && ltb 0 p.display_ticks_queued in
      let t = is_timer_tick ev && ltb 0 p.timer_ticks_queued in
      let i = is_button_irq ev && ltb 0 p.button_irq_queued in
      let n = neither d t i f in
      record {
        display = count_sent is_display_tick _ ev _ _ flight ws n.0 c.display;
        timer = count_sent is_timer_tick _ ev _ _ flight ws n.1 c.timer;
        irq = count_sent is_button_irq _ ev _ _ flight ws n.2 c.irq;
      }
    where
      neither : (a b c : Bool) → (a || b || c) ≡ false → (a ≡ false) × (b ≡ false) × (c ≡ false)
      neither false false c h = (refl, refl, h)
      neither true b c h = absurd (cc h)
      neither false true c h = absurd (cc h)

  post_sent-IsCounted :
      (flight : List AppEvent) (ev : AppEvent) (p : EventPort Q) (q : Q) (o : Option Q)
      → p.queue ≡ some q
      → kernel.send ev q ≡ o
      → coalesces ev p ≡ false
      → IsCounted flight p
      → IsCounted flight (post_sent kernel ev p o).0
  unfolding post_sent
  post_sent-IsCounted flight ev p q none e s f c = c
  post_sent-IsCounted flight ev p q (some q') e s f c =
      count_queued-IsCounted flight ev p q q' e s f c

  post_into-IsCounted :
      (flight : List AppEvent) (ev : AppEvent) (p : EventPort Q) (o : Option Q)
      → p.queue ≡ o
      → IsCounted flight p
      → IsCounted flight (post_into kernel ev p o).0
  unfolding post_into
  post_into-IsCounted flight ev p none e c = c
  post_into-IsCounted flight ev p (some q) e c =
      if_both (λ (r : EventPort Q × Bool). IsCounted flight r.0) (coalesces ev p) (p, true)
        (post_sent kernel ev p (kernel.send ev q)) (λ _. c)
        (λ f. post_sent-IsCounted flight ev p q (kernel.send ev q) e refl f c)

  isr_into_lem :
      (ev : AppEvent) (p : EventPort Q) (o : Option Q)
      → IsFromIsr ev
      → isr_into kernel ev p o ≡ post_into kernel ev p o
  unfolding isr_into post_into isr_sent post_sent coalesces count_queued
  isr_into_lem ev p none h = refl
  isr_into_lem ev p (some q) h = elim (Option-cases (kernel.send ev q)) [
    | inl e ↦ rw (e, h.0, h.1) refl
    | inr (q', e) ↦ rw (e, h.0, h.1) refl
  ]

  pub post-IsCounted :
      (flight : List AppEvent) (ev : AppEvent) (p : EventPort Q)
      → IsCounted flight p
      → IsCounted flight (app_event_post kernel ev p).0
  unfolding app_event_post
  post-IsCounted flight ev p c = post_into-IsCounted flight ev p p.queue refl c

  pub post_from_isr-IsCounted :
      (flight : List AppEvent) (ev : AppEvent) (p : EventPort Q)
      → IsFromIsr ev
      → IsCounted flight p
      → IsCounted flight (app_event_post_from_isr kernel ev p).0
  unfolding app_event_post_from_isr
  post_from_isr-IsCounted flight ev p h c =
      rw (isr_into_lem ev p p.queue h) (post_into-IsCounted flight ev p p.queue refl c)
