-- ===== src/Decimal.antt =====
-- Decimal texts: what `snprintf` writes for "%u" and "%lu", and that `strtoul` reads it back.
use Prim.Native.Nat.pow
use xiaomi_feeder_iv.Common.{
  ltb, ◌==◌, if◌then◌else◌, if_both, length, u32_mod, ℕ, zero, suc, ◌+◌, ◌-◌, ◌*◌, ◌/◌, ◌%◌, ◌^◌,
  ◌≤◌, ◌<◌, ◌≡◌, refl, sym, ap, ◌∙◌, ◌≢◌, true, false, ◌||◌, some, List, [], ◌∷◌, arith,
}
use xiaomi_feeder_iv.Zone.Text.{isdigit, isspace, head, digits, subject, strtoul}

-- The digits of `n` before `acc`, `f` at most.
unfoldable pub to_digits : ℕ → ℕ → List ℕ → List ℕ
to_digits zero n acc = acc
to_digits (suc f) n acc =
    let more = to_digits f (n / 10) ((48 + n % 10) ∷ acc) in
    if n / 10 == 0 then (48 + n % 10) ∷ acc else more

-- Ten digits are enough for 32 bits.
unfoldable pub decimal : ℕ → List ℕ
decimal n = to_digits 10 n []

digits-digit :
    (a d : ℕ) (acc : List ℕ) → d < 10 → digits a ((48 + d) ∷ acc) ≡ digits (a * 10 + d) acc
unfolding digits
digits-digit a d acc h = ground arith

digits-to_digits :
    (f n : ℕ) (acc : List ℕ) → n < 10 ^ f → f ≢ 0 → digits 0 (to_digits f n acc) ≡ digits n acc
unfolding to_digits
digits-to_digits zero n acc h nz = absurd (nz refl)
digits-to_digits (suc f) n acc h nz =
    if_both (λ t. digits 0 t ≡ digits n acc) (n / 10 == 0) ((48 + n % 10) ∷ acc)
      (to_digits f (n / 10) ((48 + n % 10) ∷ acc))
      (λ e. digits-digit 0 (n % 10) acc (omega arith) ∙ ap (λ x. digits x acc) (ground (arith, e)))
      (λ e.
        let b : n / 10 < 10 ^ f = omega (arith, h, pow.suc 10 f) in
        let f_nz : f ≢ 0 = λ z. absurd (ground (arith, e, h, z)) in
        digits-to_digits f (n / 10) ((48 + n % 10) ∷ acc) b f_nz
        ∙ digits-digit (n / 10) (n % 10) acc (omega arith)
        ∙ ap (λ x. digits x acc) (omega arith))

head_digit :
    (f n : ℕ) (acc : List ℕ) → isdigit (head acc) ≡ true → isdigit (head (to_digits f n acc)) ≡ true
unfolding to_digits
head_digit zero n acc h = h
head_digit (suc f) n acc h =
    if_both (λ t. isdigit (head t) ≡ true) (n / 10 == 0) ((48 + n % 10) ∷ acc)
      (to_digits f (n / 10) ((48 + n % 10) ∷ acc)) (λ e. ground arith)
      (λ e. head_digit f (n / 10) ((48 + n % 10) ∷ acc) (ground arith))

decimal-digit : (n : ℕ) → isdigit (head (decimal n)) ≡ true
unfolding decimal to_digits
decimal-digit n =
    if_both (λ t. isdigit (head t) ≡ true) (n / 10 == 0) ((48 + n % 10) ∷ [])
      (to_digits 9 (n / 10) ((48 + n % 10) ∷ [])) (λ e. ground arith)
      (λ e. head_digit 9 (n / 10) ((48 + n % 10) ∷ []) (ground arith))

digits-first :
    (c : ℕ) (cs : List ℕ) → isdigit c ≡ true → digits 0 (c ∷ cs) ≡ digits (0 * 10 + (c - 48)) cs
unfolding digits
digits-first c cs d = rw d refl

strtoul-digits :
    (t : List ℕ) (n : ℕ)
    → isdigit (head t) ≡ true
    → digits 0 t ≡ (n, [])
    → n < u32_mod
    → strtoul t ≡ some (n, [])
unfolding strtoul subject
strtoul-digits [] n d e h = absurd (cc d)
strtoul-digits (c ∷ cs) n d e h =
    let no_space : isspace c ≡ false = ground (arith, d) in
    let no_sign : (c == 43 || c == 45) ≡ false = ground (arith, d) in
    let no_minus : (c == 45) ≡ false = ground (arith, d) in
    let small : ltb 4_294_967_295 n ≡ false = ground (arith, h) in
    let rest : digits (0 * 10 + (c - 48)) cs ≡ (n, []) = sym (digits-first c cs d) ∙ e in
    rw no_space (rw (no_sign, no_minus) (rw d (rw rest (rw small refl))))

-- A number of 32 bits that was written is read back, with nothing left.
pub strtoul-decimal : (n : ℕ) → n < u32_mod → strtoul (decimal n) ≡ some (n, [])
unfolding digits
strtoul-decimal n h =
    strtoul-digits (decimal n) n (decimal-digit n)
      (unfold decimal in digits-to_digits 10 n [] (omega (arith, h)) (omega arith)) h

length-to_digits :
    (f k n : ℕ) (acc : List ℕ) → n < 10 ^ suc k → length (to_digits f n acc) ≤ suc k + length acc
unfolding to_digits
length-to_digits zero k n acc h = omega arith
length-to_digits (suc f) zero n acc h =
    if_both (λ t. length t ≤ 1 + length acc) (n / 10 == 0) ((48 + n % 10) ∷ acc)
      (to_digits f (n / 10) ((48 + n % 10) ∷ acc)) (λ e. omega arith)
      (λ e. absurd (ground (arith, e, h)))
length-to_digits (suc f) (suc k) n acc h =
    let rest =
      length-to_digits f k (n / 10) ((48 + n % 10) ∷ acc) (omega (arith, h, pow.suc 10 (suc k))) in
    if_both (λ t. length t ≤ suc (suc k) + length acc) (n / 10 == 0) ((48 + n % 10) ∷ acc)
      (to_digits f (n / 10) ((48 + n % 10) ∷ acc)) (λ e. omega arith) (λ e. omega (arith, rest))

-- At most three digits for a byte.
pub length-decimal : (n : ℕ) → n < 1000 → length (decimal n) ≤ 3
unfolding decimal
length-decimal n h = length-to_digits 10 2 n [] h
