-- ===== src/Zone/Bounds.antt =====
-- What an accepted rule holds.
use xiaomi_feeder_iv.Common.{
  ◌==◌, if_both, ℕ, ◌≤◌, ◌≡◌, refl, sym, Bool, true, not, Option, none, some, List, arith, false,
  if◌then◌else◌, Bool-cases, inl, inr,
}
use xiaomi_feeder_iv.Common.Int.{ℤ, ◌≤ℤ◌, pos, ◌+ℤ◌, ◌-ℤ◌, tdiv}
use xiaomi_feeder_iv.Zone.{TzRule, tz_rule_default}
use xiaomi_feeder_iv.Zone.Text.{
  head, tail, offset_min, offset_max, seconds_west_to_east_min, Transition, parse_m_transition,
  within, skip_space,
}
use xiaomi_feeder_iv.Zone.Parse.{
  with_start, after_end, after_start, parse_transitions, finish_offsets, set_dst, set_std,
  parse_zone, with_dst, only_std, comma_after_std, after_std, refused, tz_rule_parse_posix,
}

abbrev pub IsOffset : ℤ → Type 0
IsOffset m = (offset_min ≤ℤ m) × (m ≤ℤ offset_max)

abbrev pub IsTransition : ℕ → ℕ → ℕ → ℕ → Type 0
IsTransition m w d h = (1 ≤ m) × (m ≤ 12) × (1 ≤ w) × (w ≤ 5) × (d ≤ 6) × (h ≤ 23)

-- A rule has both transitions or neither.
pub data Transitions (r : TzRule) : Type 0 where
  neither :
      (r.start_m ≡ 0) × (r.start_w ≡ 0) × (r.start_d ≡ 0) × (r.start_h ≡ 0)
      → (r.end_m ≡ 0) × (r.end_w ≡ 0) × (r.end_d ≡ 0) × (r.end_h ≡ 0)
      → Transitions r
  both :
      IsTransition r.start_m r.start_w r.start_d r.start_h
      → IsTransition r.end_m r.end_w r.end_d r.end_h
      → Transitions r

pub record IsRule (r : TzRule) : Type 0 where
  pub std_in : IsOffset r.std_offset_min
  pub dst_in : IsOffset r.dst_offset_min
  pub transitions : Transitions r

east-IsOffset : (s m : ℤ) → seconds_west_to_east_min s ≡ some m → IsOffset m
unfolding seconds_west_to_east_min
east-IsOffset s m h = ground arith

parse_m-IsTransition :
    (c rest : List ℕ) (t : Transition)
    → parse_m_transition c ≡ some (t, rest)
    → IsTransition t.m t.w t.d t.h
unfolding parse_m_transition
parse_m-IsTransition c rest t h = ground arith

abbrev Accepted : Bool × TzRule → Type 0
Accepted (ok, r) = ok ≡ true → IsRule r

after_end-Accepted :
    (out : TzRule) (c : List ℕ)
    → IsOffset out.std_offset_min
    → IsOffset out.dst_offset_min
    → IsTransition out.start_m out.start_w out.start_d out.start_h
    → (o : Option (Transition × List ℕ)) → o ≡ parse_m_transition c
    → Accepted (after_end out o)
unfolding after_end
after_end-Accepted out c s d t none e ok = absurd (cc ok)
after_end-Accepted out c s d t (some (u, rest)) e ok = record {
  std_in = s;
  dst_in = d;
  transitions = both t (parse_m-IsTransition c rest u (sym e));
}

after_start-Accepted :
    (out : TzRule) (c : List ℕ)
    → IsOffset out.std_offset_min
    → IsOffset out.dst_offset_min
    → (o : Option (Transition × List ℕ)) → o ≡ parse_m_transition c
    → Accepted (after_start out o)
unfolding after_start
after_start-Accepted out c s d none e = λ ok. absurd (cc ok)
after_start-Accepted out c s d (some (t, rest)) e =
    if_both Accepted (not (head rest == 44)) _ _ (λ _ ok. absurd (cc ok))
      (λ _.
        after_end-Accepted (with_start t out) (tail rest) s d
          (parse_m-IsTransition c rest t (sym e)) _ refl)

parse_transitions-Accepted :
    (out : TzRule) (c : List ℕ)
    → IsOffset out.std_offset_min
    → IsOffset out.dst_offset_min
    → Accepted (parse_transitions c out)
unfolding parse_transitions
parse_transitions-Accepted out c s d =
    if_both Accepted (not (head c == 44)) _ _ (λ _ ok. absurd (cc ok))
      (λ _. after_start-Accepted out (tail c) s d _ refl)

-- No transition is stored yet.
abbrev Bare : TzRule → Type 0
Bare r =
    ((r.start_m ≡ 0) × (r.start_w ≡ 0) × (r.start_d ≡ 0) × (r.start_h ≡ 0))
    × (r.end_m ≡ 0)
    × (r.end_w ≡ 0)
    × (r.end_d ≡ 0)
    × (r.end_h ≡ 0)

finish_offsets-Accepted :
    (out : TzRule) (c : List ℕ)
    → Bare out
    → IsOffset out.std_offset_min
    → IsOffset out.dst_offset_min
    → Accepted (finish_offsets c out)
unfolding finish_offsets
finish_offsets-Accepted out c (b, z0, z1, z2, z3) s d =
    if_both Accepted (head c == 0) (true, out) (parse_transitions c out)
      (λ _ ok. record { std_in = s; dst_in = d; transitions = neither b (z0, z1, z2, z3) })
      (λ _. parse_transitions-Accepted out c s d)

east-Accepted :
    (w : ℤ) (out : TzRule) (k : ℤ → Bool × TzRule)
    → ((m : ℤ) → IsOffset m → Accepted (k m))
    → Accepted (elim (seconds_west_to_east_min w) as (λ _. Bool × TzRule) [
      | none ↦ (false, out)
      | some m ↦ k m
    ])
unfolding seconds_west_to_east_min
east-Accepted w out k step =
    let m = tdiv (pos 0 -ℤ w) 60 in
    elim (Bool-cases (within offset_min offset_max m)) [
      | inl t ↦ rw t (step m (ground arith))
      | inr f ↦ rw f (λ ok. absurd (cc ok))
    ]

set_dst-Accepted :
    (dst : Option ℤ) (out : TzRule) (c : List ℕ)
    → Bare out
    → IsOffset out.std_offset_min
    → Accepted (set_dst dst c out)
unfolding set_dst
set_dst-Accepted none out c b s =
    let m = out.std_offset_min +ℤ pos 60 in
    if_both Accepted (within offset_min offset_max m) _ _
      (λ t. finish_offsets-Accepted (record out { dst_offset_min = m }) c b s (ground arith))
      (λ _ ok. absurd (cc ok))
set_dst-Accepted (some w) out c b s =
    east-Accepted w out _
      (λ m i. finish_offsets-Accepted (record out { dst_offset_min = m }) c b s i)

set_std-Accepted :
    (std dst : Option ℤ) (out : TzRule) (c : List ℕ) → Bare out → Accepted (set_std std dst c out)
unfolding set_std
set_std-Accepted none dst out c b = λ ok. absurd (cc ok)
set_std-Accepted (some w) dst out c b =
    east-Accepted w out _ (λ m i. set_dst-Accepted dst (record out { std_offset_min = m }) c b i)

with_dst-Accepted :
    (std : Option ℤ) (zone : Option (Option ℤ × List ℕ)) (out : TzRule)
    → Bare out
    → Accepted (with_dst std zone out)
unfolding with_dst
with_dst-Accepted std none out b = λ ok. absurd (cc ok)
with_dst-Accepted std (some (dst, c)) out b = set_std-Accepted std dst out c b

only_std-Accepted : (std : Option ℤ) (out : TzRule) → Bare out → Accepted (only_std std out)
unfolding only_std
only_std-Accepted none out b = λ ok. absurd (cc ok)
only_std-Accepted (some w) out (b, z0, z1, z2, z3) =
    east-Accepted w out _
      (λ m i ok. record { std_in = i; dst_in = i; transitions = neither b (z0, z1, z2, z3) })

comma-Accepted : (std : Option ℤ) (c : List ℕ) → Accepted (comma_after_std std c tz_rule_default)
unfolding comma_after_std
comma-Accepted none c = λ ok. absurd (cc ok)
comma-Accepted (some w) c = parse_transitions-Accepted tz_rule_default c (omega arith) (omega arith)

default-Bare : Bare tz_rule_default
default-Bare = ((refl, refl, refl, refl), refl, refl, refl, refl)

after_std-Accepted : (zone : Option (Option ℤ × List ℕ)) → Accepted (after_std zone tz_rule_default)
unfolding after_std
after_std-Accepted none = λ ok. absurd (cc ok)
after_std-Accepted (some (std, c)) =
    let later =
      if head c == 44
      then comma_after_std std c tz_rule_default
      else with_dst std (parse_zone c) tz_rule_default in
    if_both Accepted (head c == 0) (only_std std tz_rule_default) later
      (λ _. only_std-Accepted std tz_rule_default default-Bare)
      (λ _.
        if_both Accepted (head c == 44) (comma_after_std std c tz_rule_default)
          (with_dst std (parse_zone c) tz_rule_default) (λ _. comma-Accepted std c)
          (λ _. with_dst-Accepted std (parse_zone c) tz_rule_default default-Bare))

-- A text that the parser accepts, whatever `*out` held before, gives offsets from -720 to 840
-- minutes, and either two transitions with a month from 1 to 12, a week from 1 to 5, a weekday up
-- to 6 and an hour up to 23, or none, with all of their fields 0.
pub parse_posix-IsRule :
    (posix : List ℕ) (out : TzRule)
    → (tz_rule_parse_posix posix out).0 ≡ true
    → IsRule (tz_rule_parse_posix posix out).1
unfolding tz_rule_parse_posix
parse_posix-IsRule posix out =
    if_both Accepted (refused (skip_space posix)) (false, out) _ (λ _ ok. absurd (cc ok))
      (λ _. after_std-Accepted (parse_zone (skip_space posix)))
