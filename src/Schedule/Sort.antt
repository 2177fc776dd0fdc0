-- ===== src/Schedule/Sort.antt =====
-- `schedule_sort_slots` orders the slots by their time of day and loses none. Seen from outside,
-- the slots are a finite map from a time of day to an entry.
use mathlib.Core.List.{reverse, reverse-cons}
use xiaomi_feeder_iv.Common.{
  leb, ◌==◌, if◌then◌else◌, Bool-cases, All, ℕ, ◌<◌, ◌≢◌, inl, inr, Option, none, some, List, [],
  ◌∷◌, ◌++◌, ◌≡◌, refl, true, false, arith, sym, ◌∙◌,
}
use xiaomi_feeder_iv.Schedule.{Entry, entry_minutes, shift_back, sort_from}

-- The slots in order, each later than the one before; and the same order, last first.
abbrev pub Ascending : List Entry → Type 0
Ascending [] = Unit
Ascending (e ∷ es) = All (λ x. entry_minutes e < entry_minutes x) es × Ascending es

abbrev pub Descending : List Entry → Type 0
Descending [] = Unit
Descending (e ∷ es) = All (λ x. entry_minutes x < entry_minutes e) es × Descending es

-- No two slots have one time of day.
abbrev pub Distinct : List Entry → Type 0
Distinct [] = Unit
Distinct (e ∷ es) = All (λ x. entry_minutes e ≢ entry_minutes x) es × Distinct es

-- The entry at a time of day, in minutes.
unfoldable pub lookup : ℕ → List Entry → Option Entry
lookup k [] = none
lookup k (e ∷ es) = if entry_minutes e == k then some e else lookup k es

abbrev pub or_else : Option Entry → Option Entry → Option Entry
or_else none o = o
or_else (some e) o = some e

pub All-imp {ℓ κ μ} :
    {A : Type ℓ} {P : A → Type κ} {Q : A → Type μ}
    → ((a : A) → P a → Q a)
    → (xs : List A) → All P xs
    → All Q xs
All-imp f [] h = tt
All-imp f (x ∷ xs) h = (f x h.0, All-imp f xs h.1)

pub All-append {ℓ κ} :
    {A : Type ℓ} (P : A → Type κ) (xs ys : List A) → All P xs → All P ys → All P (xs ++ ys)
All-append P [] ys h k = k
All-append P (x ∷ xs) ys h k = (h.0, All-append P xs ys h.1 k)

pub All-shift_back {κ} :
    (P : Entry → Type κ) (key : Entry) (done : List Entry)
    → P key
    → All P done
    → All P (shift_back key done)
unfolding shift_back
All-shift_back P key [] h k = (h, tt)
All-shift_back P key (prev ∷ done) h k =
    elim (Bool-cases (leb (entry_minutes prev) (entry_minutes key))) [
      | inl e ↦ rw e (h, k)
      | inr e ↦ rw e (k.0, All-shift_back P key done h k.1)
    ]

All-reverse {κ} : (P : Entry → Type κ) (xs : List Entry) → All P xs → All P (reverse xs)
All-reverse P [] h = tt
All-reverse P (x ∷ xs) h =
    rw reverse-cons (All-append P (reverse xs) (x ∷ []) (All-reverse P xs h.1) (h.0, tt))

pub All-sort_from {κ} :
    (P : Entry → Type κ) (done todo : List Entry)
    → All P done
    → All P todo
    → All P (sort_from done todo)
unfolding sort_from
All-sort_from P done [] h k = All-reverse P done h
All-sort_from P done (key ∷ todo) h k =
    All-sort_from P (shift_back key done) todo (All-shift_back P key done k.0 h) k.1

shift_back-Descending :
    (key : Entry) (done : List Entry)
    → Descending done
    → All (λ x. entry_minutes x ≢ entry_minutes key) done
    → Descending (shift_back key done)
unfolding shift_back
shift_back-Descending key [] h n = (tt, tt)
shift_back-Descending key (prev ∷ done) h n =
    elim (Bool-cases (leb (entry_minutes prev) (entry_minutes key))) [
      | inl e ↦ rw e ((below e, All-imp (λ x lt. omega (arith, lt, below e)) done h.0), h)
      | inr e ↦
          rw e (All-shift_back _ key done (above e) h.0, shift_back-Descending key done h.1 n.1)
    ]
  where
    below :
        leb (entry_minutes prev) (entry_minutes key) ≡ true → entry_minutes prev < entry_minutes key
    below e = ground (arith, n.0)

    above :
        leb (entry_minutes prev) (entry_minutes key) ≡ false
        → entry_minutes key < entry_minutes prev
    above e = ground arith

Ascending-snoc :
    (xs : List Entry) (x : Entry)
    → Ascending xs
    → All (λ y. entry_minutes y < entry_minutes x) xs
    → Ascending (xs ++ x ∷ [])
Ascending-snoc [] x h k = (tt, tt)
Ascending-snoc (y ∷ ys) x h k =
    (All-append _ ys (x ∷ []) h.0 (k.0, tt), Ascending-snoc ys x h.1 k.1)

reverse-Ascending : (xs : List Entry) → Descending xs → Ascending (reverse xs)
reverse-Ascending [] h = tt
reverse-Ascending (x ∷ xs) h =
    rw reverse-cons
      (Ascending-snoc (reverse xs) x (reverse-Ascending xs h.1) (All-reverse _ xs h.0))

abbrev Apart : List Entry → List Entry → Type 0
Apart done todo = All (λ t. All (λ d. entry_minutes d ≢ entry_minutes t) done) todo

shift_back-Apart :
    (key : Entry) (done ts : List Entry)
    → All (λ x. entry_minutes key ≢ entry_minutes x) ts
    → Apart done ts
    → Apart (shift_back key done) ts
shift_back-Apart key done [] a b = tt
shift_back-Apart key done (t ∷ ts) a b =
    (All-shift_back _ key done a.0 b.0, shift_back-Apart key done ts a.1 b.1)

sort_from-Ascending :
    (done todo : List Entry)
    → Descending done
    → Distinct todo
    → Apart done todo
    → Ascending (sort_from done todo)
unfolding sort_from
sort_from-Ascending done [] h d n = reverse-Ascending done h
sort_from-Ascending done (key ∷ todo) h d n =
    sort_from-Ascending (shift_back key done) todo (shift_back-Descending key done h n.0) d.1
      (shift_back-Apart key done todo d.0 n.1)

all_trivial : (xs : List Entry) → Apart [] xs
all_trivial [] = tt
all_trivial (x ∷ xs) = (tt, all_trivial xs)

pub sort-Ascending : (xs : List Entry) → Distinct xs → Ascending (sort_from [] xs)
sort-Ascending xs d = sort_from-Ascending [] xs tt d (all_trivial xs)

-- The map that the slots stand for.
pub or_else-none : (a : Option Entry) → or_else a none ≡ a
or_else-none none = refl
or_else-none (some a) = refl

pub lookup-append :
    (k : ℕ) (xs ys : List Entry) → lookup k (xs ++ ys) ≡ or_else (lookup k xs) (lookup k ys)
unfolding lookup
lookup-append k [] ys = refl
lookup-append k (x ∷ xs) ys = ground (arith, lookup-append k xs ys)

pub lookup_absent :
    (k : ℕ) (xs : List Entry) → All (λ x. k ≢ entry_minutes x) xs → lookup k xs ≡ none
unfolding lookup
lookup_absent k [] h = refl
lookup_absent k (x ∷ xs) h = ground (arith, h.0, lookup_absent k xs h.1)

lookup-shift_back :
    (k : ℕ) (key : Entry) (done : List Entry)
    → All (λ x. entry_minutes x ≢ entry_minutes key) done
    → lookup k (shift_back key done) ≡ (if entry_minutes key == k then some key else lookup k done)
unfolding lookup shift_back
lookup-shift_back k key [] h = refl
lookup-shift_back k key (prev ∷ done) h = ground (arith, h.0, lookup-shift_back k key done h.1)

lookup-reverse : (k : ℕ) (xs : List Entry) → Descending xs → lookup k (reverse xs) ≡ lookup k xs
unfolding lookup
lookup-reverse k [] h = refl
lookup-reverse k (x ∷ xs) h =
    rw (reverse-cons x xs, lookup-append k (reverse xs) (x ∷ []), lookup-reverse k xs h.1)
      (elim (Bool-cases (entry_minutes x == k)) [
        | inl e ↦ rw (e, lookup_absent k xs (All-imp (λ y lt. ne_of y e lt) xs h.0)) refl
        | inr e ↦ rw e (or_else-none (lookup k xs))
      ])
  where
    ne_of :
        (y : Entry)
        → (entry_minutes x == k) ≡ true
        → entry_minutes y < entry_minutes x
        → k ≢ entry_minutes y
    ne_of y e lt = ground arith

lookup-sort_from :
    (k : ℕ) (done todo : List Entry)
    → Descending done
    → Distinct todo
    → Apart done todo
    → lookup k (sort_from done todo) ≡ or_else (lookup k done) (lookup k todo)
unfolding sort_from
lookup-sort_from k done [] h d n =
    lookup-reverse k done h ∙ sym (unfold lookup in or_else-none (lookup k done))
lookup-sort_from k done (key ∷ todo) h d n =
    rw
      (
        lookup-sort_from k (shift_back key done) todo (shift_back-Descending key done h n.0) d.1
            (shift_back-Apart key done todo d.0 n.1),
        lookup-shift_back k key done n.0,
      )
      (unfold lookup in
        elim (Bool-cases (entry_minutes key == k)) [
          | inl e ↦ rw (e, lookup_absent k done (All-imp (λ x ne. other x e ne) done n.0)) refl
          | inr e ↦ rw e refl
        ])
  where
    other :
        (x : Entry)
        → (entry_minutes key == k) ≡ true
        → entry_minutes x ≢ entry_minutes key
        → k ≢ entry_minutes x
    other x e ne = ground (arith, ne)

-- Sorting does not change the map.
pub lookup-sort : (k : ℕ) (xs : List Entry) → Distinct xs → lookup k (sort_from [] xs) ≡ lookup k xs
lookup-sort k xs d = unfold lookup in lookup-sort_from k [] xs tt d (all_trivial xs)

pub Ascending-Distinct : (xs : List Entry) → Ascending xs → Distinct xs
Ascending-Distinct [] h = tt
Ascending-Distinct (x ∷ xs) h =
    (All-imp (λ y lt. λ e. absurd (omega (arith, lt, e))) xs h.0, Ascending-Distinct xs h.1)
