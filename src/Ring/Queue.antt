-- ===== src/Ring/Queue.antt =====
-- The ring buffer is a bounded first-in first-out queue.
use native.Mathlib.Nat.{mod-add-mod, mod-eq_of_lt, mod-eq-sub-mod, mod-lt, add-mod_right}
use native.Mathlib.Decide.{dec_lt, ℕ_discrete}
use xiaomi_feeder_iv.Common.{
  ◌==◌, ==_iff, true, false, if◌then◌else◌, length, ℕ, zero, suc, ◌+◌, ◌-◌, ◌%◌, ◌<◌, ◌≡◌, refl,
  sym, ap, ◌∙◌, ◌≢◌, ◌⊎◌, inl, inr, ◌↔◌, none, some, [], ◌∷◌, ◌++◌, arith, List,
}
use xiaomi_feeder_iv.Ring.{update, items, Ring, push, pop, count, contents, IsRing}

step_mod : (i n d : ℕ) → ((i + 1) % d + n) % d ≡ (i + suc n) % d
step_mod i n d = mod-add-mod (i + 1) d n ∙ ap (λ k. k % d) (omega arith)

-- Round the end, an index is found by at most one subtraction.
wrap_cases :
    (i n d : ℕ) → i < d → n < d → ((i + n) % d ≡ i + n) × (i + n < d) ⊎ ((i + n) % d + d ≡ i + n)
wrap_cases i n d hi hn = elim (dec_lt (i + n) d) [
  | yes p ↦ inl (mod-eq_of_lt p, p)
  | no p ↦ inr (
      omega (
        arith,
        mod-eq-sub-mod {n = i + n} {m = d} (omega arith),
        mod-eq_of_lt {n = i + n - d} {m = d} (omega arith),
      ))
]

wrap-ne : (i n d : ℕ) → i < d → suc n < d → i ≢ (i + suc n) % d
wrap-ne i n d hi hn e = grind (arith, wrap_cases i (suc n) d hi hn)

module _ {ℓ} {A : Type ℓ} where
  pub length-items : (f : ℕ → A) (d i n : ℕ) → length (items f d i n) ≡ n
  unfolding items
  length-items f d i zero = refl
  length-items f d i (suc n) = ap suc (length-items f d ((i + 1) % d) n)

  pub items-suc :
      (f : ℕ → A) (d i n : ℕ) → i < d → items f d i (suc n) ≡ items f d i n ++ f ((i + n) % d) ∷ []
  unfolding items
  items-suc f d i zero h =
      ap (λ k. f k ∷ []) (sym (mod-eq_of_lt (omega arith)) ∙ ap (λ k. k % d) (omega arith))
  items-suc f d i (suc n) h = rw (items-suc f d ((i + 1) % d) n (omega arith), step_mod i n d)

  -- A write just past the waiting places changes none of them.
  pub items-update :
      (f : ℕ → A) (d i n p : ℕ) (v : A)
      → i < d
      → n < d
      → p ≡ (i + n) % d
      → items (update f p v) d i n ≡ items f d i n
  unfolding items update
  items-update f d i zero p v hi hn e = refl
  items-update f d i (suc n) p v hi hn e =
      let miss = wrap-ne i n d hi hn in
      let rest =
        items-update f d ((i + 1) % d) n p v (omega arith) (omega arith)
          (e ∙ sym (step_mod i n d)) in
      rw rest (ground (arith, miss, e))

-- The number of waiting places from `h` up to `t`, round the end.
gap : (h t d : ℕ) → h < d → t < d → (h + (t + d - h) % d) % d ≡ t
gap h t d hh ht = elim (dec_lt t h) [
  | yes p ↦
      let e : (t + d - h) % d ≡ t + d - h = mod-eq_of_lt (omega arith) in
      omega (arith, e, wrap_cases h ((t + d - h) % d) d hh (omega arith))
  | no p ↦
      let e : (t + d - h) % d ≡ t - h =
        mod-eq-sub-mod {n = t + d - h} {m = d} (omega arith)
        ∙ (ap (λ k. k % d) (omega arith) ∙ mod-eq_of_lt (omega arith)) in
      omega (arith, e, wrap_cases h ((t + d - h) % d) d hh (omega arith))
]

mod-below : (n d : ℕ) → 0 < d → n % d < d
mod-below n d h = mod-lt n h

module _ {ℓ} {A : Type ℓ} (depth : ℕ) (r : Ring A) (v : IsRing depth r) where
  pub count-lt : count depth r < depth
  unfolding count
  count-lt = mod-below _ depth (omega arith)

  pub length-contents : length (contents depth r) ≡ count depth r
  unfolding contents
  length-contents = length-items r.slots depth r.head (count depth r)

  tail-eq : (r.head + count depth r) % depth ≡ r.tail
  unfolding count
  tail-eq = gap r.head r.tail depth v.head_in v.tail_in

test : {a b : ℕ} → a ≡ b → (a == b) ≡ true
test {a} {b} e = (==_iff a b).1 e

test_false : {a b : ℕ} → a ≢ b → (a == b) ≡ false
test_false {a} {b} ne = ground (arith, ne)

update_self {ℓ} : {A : Type ℓ} (f : ℕ → A) (i : ℕ) (v : A) → update f i v i ≡ v
unfolding update
update_self f i v = rw (test {a = i} refl)

-- The count is determined by the tail that it leads to.
count_unique : (h n m d : ℕ) → h < d → n < d → m < d → (h + n) % d ≡ (h + m) % d → n ≡ m
count_unique h n m d hh hn hm e = omega (arith, wrap_cases h n d hh hn, wrap_cases h m d hh hm)

step_full : (h c d : ℕ) → h < d → c < d → ((h + suc c) % d ≡ h) ↔ (c + 1 ≡ d)
step_full h c d hh hc = elim (dec_lt (suc c) d) [
  | yes p ↦ (λ e. absurd (wrap-ne h c d hh p (sym e)), λ e. absurd (omega arith))
  | no p ↦ (
    λ _. omega arith,
    λ _. ap (λ k. (h + k) % d) (omega arith) ∙ (add-mod_right h d ∙ mod-eq_of_lt hh),
  )
]

module _ {ℓ} {A : Type ℓ} (depth : ℕ) (r : Ring A) (v : IsRing depth r) where
  next-eq : (r.tail + 1) % depth ≡ (r.head + suc (count depth r)) % depth
  next-eq =
      ap (λ t. (t + 1) % depth) (sym (tail-eq depth r v))
      ∙ (mod-add-mod (r.head + count depth r) depth 1 ∙ ap (λ k. k % depth) (omega arith))

  full_iff : ((r.tail + 1) % depth ≡ r.head) ↔ (count depth r + 1 ≡ depth)
  full_iff = rw next-eq (step_full r.head (count depth r) depth v.head_in (count-lt depth r v))

  room : (r.tail + 1) % depth ≢ r.head → suc (count depth r) < depth
  room ne = elim (dec_lt (suc (count depth r)) depth) [
    | yes p ↦ p
    | no p ↦ absurd (ne (full_iff.1 (omega (arith, count-lt depth r v))))
  ]

  pub push-IsRing : (x : A) → IsRing depth (push depth r x)
  unfolding push
  push-IsRing x = ground (arith, mod-below (r.tail + 1) depth, v)

  push_full : (x : A) → (r.tail + 1) % depth ≡ r.head → push depth r x ≡ r
  unfolding push
  push_full x e = ground arith

  push_room :
      (x : A)
      → (r.tail + 1) % depth ≢ r.head
      → push depth r x
        ≡ record { slots = update r.slots r.tail x; head = r.head; tail = (r.tail + 1) % depth }
  unfolding push
  push_room x ne = ground (arith, ne)

module _ {ℓ} {A : Type ℓ} (depth : ℕ) (r : Ring A) (v : IsRing depth r) where
  -- With room, the new tail is one place further on.
  count_room :
      (f : ℕ → A)
      → (r.tail + 1) % depth ≢ r.head
      → count depth (record { slots = f; head = r.head; tail = (r.tail + 1) % depth })
        ≡ suc (count depth r)
  count_room f ne =
      count_unique r.head _ _ depth v.head_in
        (count-lt depth _ (record { head_in = v.head_in; tail_in = below })) (room depth r v ne)
        (tail-eq depth _ (record { head_in = v.head_in; tail_in = below }) ∙ next-eq depth r v)
    where
      below : (r.tail + 1) % depth < depth
      below = mod-below (r.tail + 1) depth (omega (arith, v.head_in))

  appended :
      (x : A)
      → (r.tail + 1) % depth ≢ r.head
      → contents depth
          (record { slots = update r.slots r.tail x; head = r.head; tail = (r.tail + 1) % depth })
        ≡ contents depth r ++ x ∷ []
  unfolding contents
  appended x ne = rw (
    count_room (update r.slots r.tail x) ne,
    items-suc (update r.slots r.tail x) depth r.head (count depth r) v.head_in,
    items-update r.slots depth r.head (count depth r) r.tail x v.head_in (count-lt depth r v)
        (sym (tail-eq depth r v)),
    tail-eq depth r v,
    update_self r.slots r.tail x,
  )

  -- An event that finds room is appended; one that meets a full buffer changes nothing.
  pub contents-push :
      (x : A)
      → contents depth (push depth r x)
        ≡ (if count depth r + 1 == depth then contents depth r else contents depth r ++ x ∷ [])
  contents-push x = elim (ℕ_discrete ((r.tail + 1) % depth) r.head) [
    | yes e ↦ rw (push_full depth r v x e, test ((full_iff depth r v).0 e))
    | no ne ↦
        rw (push_room depth r v x ne, test_false (λ e. ne ((full_iff depth r v).1 e)))
          (appended x ne)
  ]

  empty : r.head ≡ r.tail → count depth r ≡ 0
  empty e =
      count_unique r.head _ 0 depth v.head_in (count-lt depth r v) (omega (arith, v.head_in)) (
        tail-eq depth r v
        ∙ (sym e ∙ sym (ap (λ k. k % depth) (omega arith) ∙ mod-eq_of_lt v.head_in)))

  count_pop :
      r.head ≢ r.tail
      → count depth r
        ≡ suc (count depth (record { slots = r.slots; head = (r.head + 1) % depth; tail = r.tail }))
  count_pop ne = elim (dec_lt (suc (count depth r')) depth) [
    | yes p ↦
        count_unique r.head _ _ depth v.head_in (count-lt depth r v) p
          (tail-eq depth r v ∙ sym onward)
    | no p ↦ absurd (
        ne (
          sym ((step_full r.head (count depth r') depth v.head_in c').1 (omega (arith, c')))
          ∙ onward))
  ]
    where
      r' : Ring A
      r' = record { slots = r.slots; head = (r.head + 1) % depth; tail = r.tail }

      v' : IsRing depth r'
      v' = record {
        head_in = mod-below (r.head + 1) depth (omega (arith, v.head_in));
        tail_in = v.tail_in;
      }

      c' : count depth r' < depth
      c' = count-lt depth r' v'

      onward : (r.head + suc (count depth r')) % depth ≡ r.tail
      onward = sym (step_mod r.head (count depth r') depth) ∙ tail-eq depth r' v'

  -- The oldest event comes out, and there is none exactly when none waits.
  pub contents-pop :
      contents depth r ≡ elim (pop depth r) [ none ↦ [] | some (x, r') ↦ x ∷ contents depth r' ]
  unfolding pop
  contents-pop = elim (ℕ_discrete r.head r.tail) [
    | yes e ↦ rw (test e) (unfold contents in rw (empty e) (unfold items in refl))
    | no ne ↦ rw (test_false ne) (unfold contents in rw (count_pop ne) (unfold items in refl))
  ]

  pub pop-IsRing : {x : A} {r' : Ring A} → pop depth r ≡ some (x, r') → IsRing depth r'
  unfolding pop
  pop-IsRing e = ground (arith, mod-below (r.head + 1) depth)

  pub waits_none : pop depth r ≡ none → contents depth r ≡ []
  waits_none e =
      contents-pop
      ∙ ap (λ o. elim o as (λ _. List A) [ none ↦ [] | some (x, r') ↦ x ∷ contents depth r' ]) e

  pub waits_some :
      {x : A} {r' : Ring A} → pop depth r ≡ some (x, r') → contents depth r ≡ x ∷ contents depth r'
  waits_some e =
      contents-pop
      ∙ ap (λ o. elim o as (λ _. List A) [ none ↦ [] | some (x, r') ↦ x ∷ contents depth r' ]) e
