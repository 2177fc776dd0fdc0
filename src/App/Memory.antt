-- ===== src/App/Memory.antt =====
-- What a turn of the application task takes from the queue, and what it frees.
use mathlib.Core.List.{append_assoc}
use xiaomi_feeder_iv.App.{
  AppEvent, mqtt_message, display_tick, is_display_tick, is_button_irq, KernelQueue, EventPort,
  pointers, coalesces, count_queued, app_event_release, post_sent, post_into, app_event_post,
  isr_sent, isr_into, app_event_post_from_isr, queued,
}
use xiaomi_feeder_iv.App.Batch.{Post, from_task, from_isr, post, post_all, dispatch_event}
use xiaomi_feeder_iv.App.Order.{undeferred, ticks, handle_all, release_all}
use xiaomi_feeder_iv.App.Counted.{queued-some}
use xiaomi_feeder_iv.Common.{
  ltb, Bool-cases, if_both, ℕ, ◌≡◌, refl, sym, ap, ◌∙◌, inl, inr, Bool, true, ◌&&◌, Option, none,
  some, List, [], ◌∷◌, ◌++◌, arith,
}

-- The memory of the events, in their order.
unfoldable pub all_pointers : List AppEvent → List ℕ
all_pointers [] = []
all_pointers (e ∷ es) = pointers e ++ all_pointers es

abbrev pub Extends : List AppEvent → List AppEvent → Type 0
Extends ws ws' = (new : List AppEvent) × (ws' ≡ ws ++ new)

Extends-trans : (u v w : List AppEvent) → Extends u v → Extends v w → Extends u w
Extends-trans u v w (m, e) (n, f) = (m ++ n, f ∙ ap (λ l. l ++ n) e ∙ append_assoc u m n)

pub all_pointers-append :
    (xs ys : List AppEvent) → all_pointers (xs ++ ys) ≡ all_pointers xs ++ all_pointers ys
unfolding all_pointers
all_pointers-append [] ys = refl
all_pointers-append (x ∷ xs) ys =
    ap (λ l. pointers x ++ l) (all_pointers-append xs ys)
    ∙ sym (append_assoc (pointers x) (all_pointers xs) (all_pointers ys))

no_pointers : (e : AppEvent) → is_display_tick e ≡ true → pointers e ≡ []
no_pointers (display_tick now) h = refl
no_pointers (mqtt_message m) h = absurd (cc h)
no_pointers _ h = ground arith

pub pointers-undeferred : (es : List AppEvent) → all_pointers (undeferred es) ≡ all_pointers es
unfolding all_pointers undeferred
pointers-undeferred [] = refl
pointers-undeferred (e ∷ es) = elim (Bool-cases (is_display_tick e)) [
  | inl t ↦ rw (t, no_pointers e t) (pointers-undeferred es)
  | inr f ↦ rw f (ap (λ l. pointers e ++ l) (pointers-undeferred es))
]

pub pointers-ticks : (es : List AppEvent) → all_pointers (ticks es) ≡ []
unfolding all_pointers ticks
pointers-ticks [] = refl
pointers-ticks (e ∷ es) = elim (Bool-cases (is_display_tick e)) [
  | inl t ↦ rw (t, no_pointers e t) (pointers-ticks es)
  | inr f ↦ rw f (pointers-ticks es)
]

pub append_nil {ℓ} : {A : Type ℓ} (xs : List A) → xs ++ [] ≡ xs
append_nil [] = refl
append_nil (x ∷ xs) = ap (λ ys. x ∷ ys) (append_nil xs)

module _ {Q W : Type 0} (kernel : KernelQueue Q) (handle : AppEvent → W → W × List Post) where
  -- What posts leave alone.
  pub record OnlyPosted (p p' : EventPort Q) : Type 0 where
    pub freed : p'.freed ≡ p.freed
    pub more : Extends (queued kernel p) (queued kernel p')

  nothing_posted : (p : EventPort Q) → OnlyPosted p p
  nothing_posted p = record { freed = refl; more = ([], sym (append_nil (queued kernel p))) }

  OnlyPosted-trans : (p q r : EventPort Q) → OnlyPosted p q → OnlyPosted q r → OnlyPosted p r
  OnlyPosted-trans p q r a b = record {
    freed = b.freed ∙ a.freed;
    more = Extends-trans _ _ _ a.more b.more;
  }

  post_sent-OnlyPosted :
      (ev : AppEvent) (p : EventPort Q) (q : Q) (o : Option Q)
      → p.queue ≡ some q
      → kernel.send ev q ≡ o
      → OnlyPosted p (post_sent kernel ev p o).0 × OnlyPosted p (isr_sent kernel ev p o).0
  unfolding post_sent isr_sent count_queued
  post_sent-OnlyPosted ev p q none e h = (nothing_posted p, nothing_posted p)
  post_sent-OnlyPosted ev p q (some q') e h =
      let more : kernel.waiting q' ≡ queued kernel p ++ ev ∷ [] =
        kernel.waiting-send ev q q' h
        ∙ ap (λ (l : List AppEvent). l ++ ev ∷ []) (sym (queued-some kernel p q e)) in
      (
        record { freed = refl; more = (ev ∷ [], more) },
        record { freed = refl; more = (ev ∷ [], more) },
      )

  post_into-OnlyPosted :
      (ev : AppEvent) (p : EventPort Q) (o : Option Q)
      → p.queue ≡ o
      → OnlyPosted p (post_into kernel ev p o).0 × OnlyPosted p (isr_into kernel ev p o).0
  unfolding post_into isr_into
  post_into-OnlyPosted ev p none e = (nothing_posted p, nothing_posted p)
  post_into-OnlyPosted ev p (some q) e =
      let sent = post_sent-OnlyPosted ev p q (kernel.send ev q) e refl in
      (
        if_both (λ (r : EventPort Q × Bool). OnlyPosted p r.0) (coalesces ev p) (p, true)
            (post_sent kernel ev p (kernel.send ev q)) (λ _. nothing_posted p) (λ _. sent.0),
        if_both (λ (r : EventPort Q × Bool). OnlyPosted p r.0)
            (is_button_irq ev && ltb 0 p.button_irq_queued) (p, true)
            (isr_sent kernel ev p (kernel.send ev q)) (λ _. nothing_posted p) (λ _. sent.1),
      )

  pub post_all-OnlyPosted :
      (es : List Post) (p : EventPort Q) → OnlyPosted p (post_all kernel handle es p)
  unfolding post_all post app_event_post app_event_post_from_isr
  post_all-OnlyPosted [] p = nothing_posted p
  post_all-OnlyPosted (from_task ev ∷ es) p =
      OnlyPosted-trans p _ _ (post_into-OnlyPosted ev p p.queue refl).0 (post_all-OnlyPosted es _)
  post_all-OnlyPosted (from_isr ev ∷ es) p =
      OnlyPosted-trans p _ _ (post_into-OnlyPosted ev p p.queue refl).1 (post_all-OnlyPosted es _)

  -- The memory of the events `es` is freed, once each and in order, and events are only added.
  pub record Frees (es : List AppEvent) (p p' : EventPort Q) : Type 0 where
    pub memory : p'.freed ≡ p.freed ++ all_pointers es
    pub more : Extends (queued kernel p) (queued kernel p')

  pub Frees-more :
      (xs ys : List AppEvent) (p q r : EventPort Q)
      → Frees xs p q
      → Frees ys q r
      → Frees (xs ++ ys) p r
  Frees-more xs ys p q r a b = record {
    memory =
        b.memory
        ∙ ap (λ l. l ++ all_pointers ys) a.memory
        ∙ append_assoc p.freed (all_pointers xs) (all_pointers ys)
        ∙ ap (λ l. p.freed ++ l) (sym (all_pointers-append xs ys));
    more = Extends-trans _ _ _ a.more b.more;
  }

  release-Frees :
      (ev : AppEvent) (p q : EventPort Q)
      → OnlyPosted p q
      → Frees (ev ∷ []) p (app_event_release ev q)
  unfolding app_event_release all_pointers
  release-Frees ev p q o = record {
    memory =
        ap (λ l. l ++ pointers ev) o.freed
        ∙ ap (λ l. p.freed ++ l) (sym (append_nil (pointers ev)));
    more = o.more;
  }

  pub nothing_freed : (p : EventPort Q) → Frees [] p p
  unfolding all_pointers
  nothing_freed p = record { memory = sym (append_nil p.freed); more = (nothing_posted p).more }

  pub handle_all-Frees :
      (es : List AppEvent) (w : W) (p : EventPort Q)
      → Frees es p (handle_all kernel handle es (w, p)).1
  unfolding handle_all dispatch_event
  handle_all-Frees [] w p = nothing_freed p
  handle_all-Frees (ev ∷ es) w p =
      Frees-more (ev ∷ []) es p _ _ (release-Frees ev p _ (post_all-OnlyPosted (handle ev w).1 p))
        (handle_all-Frees es _ _)

  pub release_all-Frees :
      (es : List AppEvent) (s : W × EventPort Q) → Frees es s.1 (release_all kernel handle es s).1
  unfolding release_all
  release_all-Frees [] s = nothing_freed s.1
  release_all-Frees (ev ∷ es) s =
      Frees-more (ev ∷ []) es s.1 _ _ (release-Frees ev s.1 s.1 (nothing_posted s.1))
        (release_all-Frees es _)
