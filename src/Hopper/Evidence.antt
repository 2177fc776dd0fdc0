-- ===== src/Hopper/Evidence.antt =====
-- What a reading of the beam does to the streaks and the level, `hopper_input_apply_reading`.
use xiaomi_feeder_iv.Ring.Queue.{push-IsRing}
use xiaomi_feeder_iv.Common.{
  leb, Bool-cases, take, replicate, u8, ℕ, suc, ◌+◌, ◌<◌, ◌≡◌, ap, inl, inr, Bool, true, false,
  List, ◌∷◌, arith, leb→le, refl, zero, [],
}
use xiaomi_feeder_iv.Ring.{IsRing}
use xiaomi_feeder_iv.Hopper.{
  HopperLevel, level_normal, level_low, low_streak_required, normal_streak_required,
  hopper_input_depth, HopperInput, IrSense, sensed, hopper_input_enqueue_transition,
  hopper_input_set_level, retry_soon, clear_while_normal, same_level, blocked_while_low,
  hopper_input_apply_reading,
}

-- The readings of the beam so far, the newest first, and the one that a poll adds if it samples.
unfoldable pub with_reading : Bool → IrSense → List Bool → List Bool
with_reading true (sensed beam_blocked) seen = beam_blocked ∷ seen
with_reading sampled sense seen = seen

-- The streaks count readings that were made, and are below what a change needs.
pub record IsDebounced (seen : List Bool) (s : HopperInput) : Type 0 where
  pub clear_run : take s.clear_streak seen ≡ replicate s.clear_streak false
  pub blocked_run : take s.blocked_streak seen ≡ replicate s.blocked_streak true
  pub clear_below : s.clear_streak < low_streak_required
  pub blocked_below : s.blocked_streak < normal_streak_required
  pub ring : IsRing hopper_input_depth s.transitions

-- What a change of the level rests on.
unfoldable pub Evidence : HopperLevel → HopperLevel → List Bool → Type 0
Evidence level_normal level_low seen =
    take low_streak_required seen ≡ replicate low_streak_required false
Evidence level_low level_normal seen =
    take normal_streak_required seen ≡ replicate normal_streak_required true
Evidence level_normal level_normal seen = Unit
Evidence level_low level_low seen = Unit

-- A state after a reading that began at the level `before`.
pub record Sound (seen : List Bool) (before : HopperLevel) (s : HopperInput) : Type 0 where
  pub debounced : IsDebounced seen s
  pub evidence : Evidence before s.level seen

pub unchanged : (l : HopperLevel) (seen : List Bool) → Evidence l l seen
unfolding Evidence
unchanged level_normal seen = tt
unchanged level_low seen = tt

u8-suc : (n : ℕ) → n < 255 → u8 (n + 1) ≡ suc n
u8-suc n h = ground arith

sure :
    (b : Bool) (seen : List Bool) (n k : ℕ)
    → take n seen ≡ replicate n b
    → k ≡ suc n
    → take k (b ∷ seen) ≡ replicate k b
sure b seen n k e q = rw q (ap (λ xs. b ∷ xs) e)

tail_eq : {x y : Bool} {xs ys : List Bool} → ◌≡◌ {A = List Bool} (x ∷ xs) (y ∷ ys) → xs ≡ ys
tail_eq e = ap rest e
  where
    rest : List Bool → List Bool
    rest [] = []
    rest (x ∷ xs) = xs

shorter :
    (b : Bool) (n : ℕ) (xs : List Bool)
    → take (suc n) xs ≡ replicate (suc n) b
    → take n xs ≡ replicate n b
shorter b zero xs e = refl
shorter b (suc n) [] e = absurd (cc e)
shorter b (suc n) (x ∷ xs) e = cc (e, shorter b n xs (tail_eq e))

longer :
    (b : Bool) (n : ℕ) (xs : List Bool)
    → take n xs ≡ replicate n b
    → take n (b ∷ xs) ≡ replicate n b
longer b zero xs e = refl
longer b (suc n) xs e = ap (λ ys. b ∷ ys) (shorter b n xs e)

clear-Sound :
    (now_ms : ℕ) (s : HopperInput) (seen : List Bool)
    → IsDebounced seen s
    → s.level ≡ level_normal
    → Sound (false ∷ seen) s.level (clear_while_normal now_ms (record s { blocked_streak = 0 }))
unfolding clear_while_normal Evidence hopper_input_set_level hopper_input_enqueue_transition
    retry_soon same_level
clear-Sound now_ms s seen v n =
    elim (Bool-cases (leb low_streak_required (u8 (s.clear_streak + 1)))) [
      | inl t ↦
          rw (t, n)
            (record {
              debounced = record {
                clear_run = refl;
                blocked_run = refl;
                clear_below = omega arith;
                blocked_below = omega arith;
                ring = push-IsRing hopper_input_depth s.transitions v.ring _;
              };
              evidence =
                  sure false seen s.clear_streak low_streak_required v.clear_run
                    (ground (arith, v.clear_below, leb→le _ _ t));
            })
      | inr f ↦
          rw (f, n)
            (record {
              debounced = record {
                clear_run =
                    sure false seen s.clear_streak _ v.clear_run (ground (arith, v.clear_below));
                blocked_run = refl;
                clear_below = ground arith;
                blocked_below = omega arith;
                ring = v.ring;
              };
              evidence = tt;
            })
    ]

blocked-Sound :
    (now_ms : ℕ) (s : HopperInput) (seen : List Bool)
    → IsDebounced seen s
    → s.level ≡ level_low
    → Sound (true ∷ seen) s.level (blocked_while_low now_ms (record s { clear_streak = 0 }))
unfolding blocked_while_low Evidence hopper_input_set_level hopper_input_enqueue_transition
    retry_soon same_level
blocked-Sound now_ms s seen v n =
    elim (Bool-cases (leb normal_streak_required (u8 (s.blocked_streak + 1)))) [
      | inl t ↦
          rw (t, n)
            (record {
              debounced = record {
                clear_run = refl;
                blocked_run = refl;
                clear_below = omega arith;
                blocked_below = omega arith;
                ring = push-IsRing hopper_input_depth s.transitions v.ring _;
              };
              evidence =
                  sure true seen s.blocked_streak normal_streak_required v.blocked_run
                    (ground (arith, v.blocked_below, leb→le _ _ t));
            })
      | inr f ↦
          rw (f, n)
            (record {
              debounced = record {
                clear_run = refl;
                blocked_run =
                    sure true seen s.blocked_streak _ v.blocked_run
                      (ground (arith, v.blocked_below));
                clear_below = omega arith;
                blocked_below = ground arith;
                ring = v.ring;
              };
              evidence = tt;
            })
    ]

is_low : (l : HopperLevel) → same_level l level_low ≡ true → l ≡ level_low
unfolding same_level
is_low level_low e = refl
is_low level_normal e = absurd (cc e)

is_normal : (l : HopperLevel) → same_level l level_low ≡ false → l ≡ level_normal
unfolding same_level
is_normal level_normal e = refl
is_normal level_low e = absurd (cc e)

pub reading-Sound :
    (b : Bool) (now_ms : ℕ) (s : HopperInput) (seen : List Bool)
    → IsDebounced seen s
    → Sound (b ∷ seen) s.level (hopper_input_apply_reading b now_ms s)
unfolding hopper_input_apply_reading
reading-Sound true now_ms s seen v = elim (Bool-cases (same_level s.level level_low)) [
  | inl t ↦ rw t (blocked-Sound now_ms s seen v (is_low s.level t))
  | inr f ↦ rw f (record {
    debounced = record {
      clear_run = refl;
      blocked_run = longer true s.blocked_streak seen v.blocked_run;
      clear_below = omega arith;
      blocked_below = v.blocked_below;
      ring = v.ring;
    };
    evidence = unchanged s.level (true ∷ seen);
  })
]
reading-Sound false now_ms s seen v = elim (Bool-cases (same_level s.level level_low)) [
  | inl t ↦ rw t (record {
    debounced = record {
      clear_run = longer false s.clear_streak seen v.clear_run;
      blocked_run = refl;
      clear_below = v.clear_below;
      blocked_below = omega arith;
      ring = v.ring;
    };
    evidence = unchanged s.level (false ∷ seen);
  })
  | inr f ↦ rw f (clear-Sound now_ms s seen v (is_normal s.level f))
]
