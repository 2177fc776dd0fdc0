-- ===== src/Ring/Refine.antt =====
-- The ring buffer behaves as a bounded queue under any sequence of operations.
use xiaomi_feeder_iv.Common.{
  leb, if◌then◌else◌, length, ℕ, ◌-◌, ◌≡◌, refl, ap, Option, none, some, List, [], ◌∷◌, ◌++◌, ◌==◌,
  ◌+◌, ◌<◌, sym, ◌∙◌, arith,
}
use xiaomi_feeder_iv.Ring.{Ring, push, pop, contents, IsRing, count}
use xiaomi_feeder_iv.Ring.Queue.{
  push-IsRing, count-lt, length-contents, contents-push, waits_none, waits_some, pop-IsRing,
}

pub data QueueOp {ℓ} (A : Type ℓ) : Type ℓ where
  put : A → QueueOp A
  get : QueueOp A

full_test : (d c : ℕ) → c < d → (c + 1 == d) ≡ leb (d - 1) c
full_test d c h = ground arith

module _ {ℓ} {A : Type ℓ} where
  -- The answers of the gets, and the buffer at the end.
  abbrev pub take_out : Ring A → Option (A × Ring A) → Option A × Ring A
  take_out r none = (none, r)
  take_out r (some (x, r')) = (some x, r')

  unfoldable pub ring_run : ℕ → List (QueueOp A) → Ring A → List (Option A) × Ring A
  ring_run depth [] r = ([], r)
  ring_run depth (put x ∷ ops) r = ring_run depth ops (push depth r x)
  ring_run depth (get ∷ ops) r =
      let (answer, r') = take_out r (pop depth r) in
      let (answers, end) = ring_run depth ops r' in (answer ∷ answers, end)

  -- The queue that the callers see: at most `room` events, and one that finds no room is dropped.
  unfoldable pub queue_run : ℕ → List (QueueOp A) → List A → List (Option A) × List A
  queue_run room [] q = ([], q)
  queue_run room (put x ∷ ops) q =
      queue_run room ops (if leb room (length q) then q else q ++ x ∷ [])
  queue_run room (get ∷ ops) [] =
      let (answers, end) = queue_run room ops [] in (none ∷ answers, end)
  queue_run room (get ∷ ops) (x ∷ q) =
      let (answers, end) = queue_run room ops q in (some x ∷ answers, end)

  -- The same answers, and the same events left.
  unfoldable pub Agrees : ℕ → List (Option A) × Ring A → List (Option A) × List A → Type ℓ
  Agrees depth (answers, r) (answers', q) = (answers ≡ answers') × (contents depth r ≡ q)

  cons-Agrees :
      (depth : ℕ) (a : Option A) (x : List (Option A) × Ring A) (y : List (Option A) × List A)
      → Agrees depth x y
      → Agrees depth (a ∷ x.0, x.1) (a ∷ y.0, y.1)
  unfolding Agrees
  cons-Agrees depth a (as1, r) (as2, q) (e, c) = (ap (λ t. a ∷ t) e, c)

  put-contents :
      (depth : ℕ) (r : Ring A) (v : IsRing depth r) (x : A)
      → contents depth (push depth r x) ≡ (
          if leb (depth - 1) (length (contents depth r))
          then contents depth r
          else contents depth r ++ x ∷ [])
  put-contents depth r v x =
      let c = contents depth r in
      contents-push depth r v x
      ∙ ap (λ b. if b then c else c ++ x ∷ [])
          (full_test depth (count depth r) (count-lt depth r v)
            ∙ ap (λ n. leb (depth - 1) n) (sym (length-contents depth r v)))

  get-Agrees :
      (depth : ℕ) (ops : List (QueueOp A)) (r : Ring A) (v : IsRing depth r)
      → ((r' : Ring A)
          → IsRing depth r'
          → Agrees depth (ring_run depth ops r') (queue_run (depth - 1) ops (contents depth r')))
      → (o : Option (A × Ring A)) (q : List A) → pop depth r ≡ o
      → contents depth r ≡ q
      → Agrees depth
          (
            (take_out r o).0 ∷ (ring_run depth ops (take_out r o).1).0,
            (ring_run depth ops (take_out r o).1).1,
          )
          (queue_run (depth - 1) (get ∷ ops) q)
  unfolding queue_run
  get-Agrees depth ops r v ih none [] e c = cons-Agrees depth none _ _ (rw c at (ih r v))
  get-Agrees depth ops r v ih none (y ∷ q) e c = absurd (cc (c, waits_none depth r v e))
  get-Agrees depth ops r v ih (some (x, r')) [] e c = absurd (cc (c, waits_some depth r v e))
  get-Agrees depth ops r v ih (some (x, r')) (y ∷ q) e c =
      let h : x ∷ contents depth r' ≡ y ∷ q = sym (waits_some depth r v e) ∙ c in
      let first : x ≡ y = cc h in
      let others : contents depth r' ≡ q = cc h in
      rw (← first, ← others) (cons-Agrees depth (some x) _ _ (ih r' (pop-IsRing depth r v e)))

  -- For any puts and gets on a well-formed ring of `depth` places, the gets answer what a queue of
  -- depth - 1 places answers that starts with the waiting events and drops an event that meets it
  -- full, and the events that wait in the end are that queue's.
  pub ring_run-Agrees :
      (depth : ℕ) (ops : List (QueueOp A)) (r : Ring A)
      → IsRing depth r
      → Agrees depth (ring_run depth ops r) (queue_run (depth - 1) ops (contents depth r))
  unfolding ring_run queue_run
  ring_run-Agrees depth [] r v = unfold Agrees in (refl, refl)
  ring_run-Agrees depth (put x ∷ ops) r v =
      rw (← put-contents depth r v x)
        (ring_run-Agrees depth ops (push depth r x) (push-IsRing depth r v x))
  ring_run-Agrees depth (get ∷ ops) r v =
      get-Agrees depth ops r v (ring_run-Agrees depth ops) (pop depth r) (contents depth r) refl
        refl
