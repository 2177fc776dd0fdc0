-- ===== src/Schedule/Edit/Shape.antt =====
-- What `modify`, `remove` and `schedule_find_index` do to a list of slots.
use mathlib.Core.Path.{subst}
use xiaomi_feeder_iv.Common.{
  ◌==◌, if◌then◌else◌, Bool-cases, length, get_elem?, All, ℕ, zero, suc, ◌+◌, ◌≤◌, ◌<◌, min, ◌≡◌,
  refl, ap, inl, inr, false, none, some, List, [], ◌∷◌, arith, ◌≢◌, true,
}
use xiaomi_feeder_iv.Schedule.{Entry, entry_minutes, same_key, find_from}
use xiaomi_feeder_iv.Schedule.Sort.{Ascending, lookup, All-imp, lookup_absent}
use xiaomi_feeder_iv.Schedule.Edit.{modify, remove}

-- A place of the list, and the entry that stands there.
abbrev pub At : List Entry → ℕ → Entry → Type 0
At es n e = get_elem? es n ≡ some e

pub All-at {κ} :
    (P : Entry → Type κ) (es : List Entry) (n : ℕ) (e : Entry) → At es n e → All P es → P e
All-at P [] n e a h = cc
All-at P (x ∷ xs) zero e a h = subst P (cc) h.0
All-at P (x ∷ xs) (suc n) e a h = All-at P xs n e a h.1

pub All-modify {κ} :
    (P : Entry → Type κ) (f : Entry → Entry) (es : List Entry) (n : ℕ) (e : Entry)
    → At es n e
    → (P e → P (f e))
    → All P es
    → All P (modify n f es)
unfolding modify
All-modify P f [] n e a k h = tt
All-modify P f (x ∷ xs) zero e a k h = (subst (λ y. P y → P (f y)) (cc) k h.0, h.1)
All-modify P f (x ∷ xs) (suc n) e a k h = (h.0, All-modify P f xs n e a k h.1)

pub length-modify :
    (f : Entry → Entry) (es : List Entry) (n : ℕ) → length (modify n f es) ≡ length es
unfolding modify
length-modify f [] n = refl
length-modify f (x ∷ xs) zero = refl
length-modify f (x ∷ xs) (suc n) = ap suc (length-modify f xs n)

pub All-remove {κ} : (P : Entry → Type κ) (es : List Entry) (n : ℕ) → All P es → All P (remove n es)
unfolding remove
All-remove P [] n h = tt
All-remove P (x ∷ xs) zero h = h.1
All-remove P (x ∷ xs) (suc n) h = (h.0, All-remove P xs n h.1)

pub length-remove : (es : List Entry) (n : ℕ) → length (remove n es) ≤ length es
unfolding remove
length-remove [] n = omega arith
length-remove (x ∷ xs) zero = omega arith
length-remove (x ∷ xs) (suc n) = omega (arith, length-remove xs n)

module _ (f : Entry → Entry) where
  -- A change that keeps the time of day keeps the order.
  pub modify-Ascending :
      (es : List Entry) (n : ℕ) (e : Entry)
      → At es n e
      → entry_minutes (f e) ≡ entry_minutes e
      → Ascending es
      → Ascending (modify n f es)
  unfolding modify
  modify-Ascending [] n e a k h = tt
  modify-Ascending (x ∷ xs) zero e a k h =
      let same : entry_minutes (f x) ≡ entry_minutes x =
        subst (λ y. entry_minutes (f y) ≡ entry_minutes y) (cc) k in
      (All-imp (λ y lt. omega (arith, lt, same)) xs h.0, h.1)
  modify-Ascending (x ∷ xs) (suc n) e a k h = (
    All-modify (λ y. entry_minutes x < entry_minutes y) f xs n e a (λ lt. omega (arith, lt, k)) h.0,
    modify-Ascending xs n e a k h.1,
  )

  pub lookup-modify :
      (k : ℕ) (es : List Entry) (n : ℕ) (e : Entry)
      → At es n e
      → entry_minutes (f e) ≡ entry_minutes e
      → Ascending es
      → lookup k (modify n f es) ≡ (if entry_minutes e == k then some (f e) else lookup k es)
  unfolding lookup modify
  lookup-modify k [] n e a m h = cc
  lookup-modify k (x ∷ xs) zero e a m h = ground arith
  lookup-modify k (x ∷ xs) (suc n) e a m h = ground (
    arith,
    lookup-modify k xs n e a m h.1,
    All-at (λ y. entry_minutes x < entry_minutes y) xs n e a h.0,
  )

pub remove-Ascending : (es : List Entry) (n : ℕ) → Ascending es → Ascending (remove n es)
unfolding remove
remove-Ascending [] n h = tt
remove-Ascending (x ∷ xs) zero h = h.1
remove-Ascending (x ∷ xs) (suc n) h = (All-remove _ xs n h.0, remove-Ascending xs n h.1)

pub lookup-remove :
    (k : ℕ) (es : List Entry) (n : ℕ) (e : Entry)
    → At es n e
    → Ascending es
    → lookup k (remove n es) ≡ (if entry_minutes e == k then none else lookup k es)
unfolding lookup remove
lookup-remove k [] n e a h = cc
lookup-remove k (x ∷ xs) zero e a h = elim (Bool-cases (entry_minutes x == k)) [
  | inl q ↦ ground (arith, lookup_absent k xs (All-imp (λ y lt. later_ne y q lt) xs h.0))
  | inr q ↦ ground arith
]
  where
    later_ne :
        (y : Entry)
        → (entry_minutes x == k) ≡ true
        → entry_minutes x < entry_minutes y
        → k ≢ entry_minutes y
    later_ne y q lt = ground (arith, lt, q)
lookup-remove k (x ∷ xs) (suc n) e a h = ground (
  arith,
  lookup-remove k xs n e a h.1,
  All-at (λ y. entry_minutes x < entry_minutes y) xs n e a h.0,
)

-- An entry that stands in the list is the one that its time of day finds.
pub lookup_entry :
    (es : List Entry) (n : ℕ) (e : Entry)
    → At es n e
    → Ascending es
    → lookup (entry_minutes e) es ≡ some e
unfolding lookup
lookup_entry [] n e a h = cc
lookup_entry (x ∷ xs) zero e a h = ground arith
lookup_entry (x ∷ xs) (suc n) e a h =
    ground (
      arith,
      lookup_entry xs n e a h.1,
      All-at (λ y. entry_minutes x < entry_minutes y) xs n e a h.0,
    )

-- What a search for a key answers.
pub record Found (hour min : ℕ) (es : List Entry) (n : ℕ) : Type 0 where
  pub entry : Entry
  pub at : At es n entry
  pub hour_is : entry.cfg.hour ≡ hour
  pub min_is : entry.cfg.min ≡ min

find_from-some :
    (hour min i : ℕ) (es : List Entry) (j : ℕ)
    → find_from hour min i es ≡ some j
    → (n : ℕ) × (j ≡ i + n) × Found hour min es n
unfolding find_from
find_from-some hour min i [] j h = cc
find_from-some hour min i (x ∷ xs) j h = elim (Bool-cases (same_key hour min x)) [
  | inl e ↦ (
    0,
    ground arith,
    record { entry = x; at = refl; hour_is = ground arith; min_is = ground arith },
  )
  | inr e ↦
      let (n, eq, found) = find_from-some hour min (i + 1) xs j (rw e at h) in
      (
        suc n,
        omega (arith, eq),
        record {
          entry = found.entry;
          at = found.at;
          hour_is = found.hour_is;
          min_is = found.min_is;
        },
      )
]

pub find-Found :
    (hour min : ℕ) (es : List Entry) (n : ℕ)
    → find_from hour min 0 es ≡ some n
    → Found hour min es n
find-Found hour min es n h =
    let (m, q, found) = find_from-some hour min 0 es n h in
    subst (Found hour min es) (omega (arith, q)) found

pub find_from-none :
    (hour min i : ℕ) (es : List Entry)
    → find_from hour min i es ≡ none
    → All (λ x. same_key hour min x ≡ false) es
unfolding find_from
find_from-none hour min i [] h = tt
find_from-none hour min i (x ∷ xs) h = elim (Bool-cases (same_key hour min x)) [
  | inl e ↦ absurd (cc (rw e at h))
  | inr e ↦ (e, find_from-none hour min (i + 1) xs (rw e at h))
]
