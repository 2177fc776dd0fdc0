-- ===== src/Zone/Text.antt =====
-- The pieces of a rule's text, firmware/src/tz_rule.c, and the C library's `strtol` and `strtoul`
-- in base 10 with a `long` of 32 bits, as far as the parser uses them.
use xiaomi_feeder_iv.Common.{
  ltb, leb, ◌==◌, if◌then◌else◌, length, ℕ, ◌+◌, ◌-◌, ◌*◌, ◌%◌, min, Bool, true, false, not, ◌&&◌,
  ◌||◌, Option, none, some, List, [], ◌∷◌,
}
use xiaomi_feeder_iv.Common.Int.{ℤ, pos, negsuc, pos_part, sub_ℕ, ◌-ℤ◌, leb_ℤ, tdiv}

-- A computation that may fail: `none` is a return of false.
infixl 5 ◌>>=◌
abbrev pub ◌>>=◌ : {A B : Type 0} → Option A → (A → Option B) → Option B
none >>= f = none
some a >>= f = f a

infixl 5 ◌>>◌
abbrev pub ◌>>◌ : {B : Type 0} → Option (Unit {0}) → Option B → Option B
none >> b = none
some tt >> b = b

abbrev pub guard : Bool → Option (Unit {0})
guard b = if b then some tt else none

-- The character classes of the C locale.
abbrev pub isdigit : ℕ → Bool
isdigit c = leb 48 c && leb c 57

abbrev pub isupper : ℕ → Bool
isupper c = leb 65 c && leb c 90

abbrev pub isalpha : ℕ → Bool
isalpha c = isupper c || (leb 97 c && leb c 122)

abbrev pub isspace : ℕ → Bool
isspace c = c == 32 || (leb 9 c && leb c 13)

-- The byte at a pointer: 0 at the end of the string.
abbrev pub head : List ℕ → ℕ
head [] = 0
head (c ∷ cs) = c

abbrev pub tail : List ℕ → List ℕ
tail [] = []
tail (c ∷ cs) = cs

abbrev pub drop_while : (ℕ → Bool) → List ℕ → List ℕ
drop_while p [] = []
drop_while p (c ∷ cs) = let rest = drop_while p cs in if p c then rest else c ∷ cs

-- The value of the leading digits after `acc`, and what follows them.
unfoldable pub digits : ℕ → List ℕ → ℕ × List ℕ
digits acc [] = (acc, [])
digits acc (c ∷ cs) =
    let rest = digits (acc * 10 + (c - 48)) cs in if isdigit c then rest else (acc, c ∷ cs)

-- A subject sequence: a sign and digits; `none` where the call sets `end` to its argument.
unfoldable pub subject : List ℕ → Option (Bool × ℕ × List ℕ)
unfolding digits
subject s =
    let t = drop_while isspace s in
    let body = if head t == 43 || head t == 45 then tail t else t in
    if isdigit (head body)
    then (let (n, rest) = digits 0 body in some (head t == 45, n, rest))
    else none

-- Out of range, `strtol` answers the nearest long, and `strtoul` ULONG_MAX; `strtoul` negates a
-- number after a minus sign, modulo 2 ^ 32.
abbrev pub clamp_long : Bool → ℕ → ℤ
clamp_long true n = sub_ℕ 0 (min n 2_147_483_648)
clamp_long false n = pos (min n 2_147_483_647)

abbrev pub clamp_ulong : Bool → ℕ → ℕ
clamp_ulong negative n =
    if ltb 4_294_967_295 n
    then 4_294_967_295
    else (if negative then (4_294_967_296 - n) % 4_294_967_296 else n)

unfoldable pub strtol : List ℕ → Option (ℤ × List ℕ)
unfolding subject
strtol s = do (negative, n, rest) ← subject s; some (clamp_long negative n, rest)

unfoldable pub strtoul : List ℕ → Option (ℕ × List ℕ)
unfolding subject
strtoul s = do (negative, n, rest) ← subject s; some (clamp_ulong negative n, rest)

abbrev pub skip_space : List ℕ → List ℕ
skip_space s = drop_while (λ c. c == 32 || c == 9) s

pub has_letter : List ℕ → Bool
has_letter [] = false
has_letter (c ∷ cs) = let rest = has_letter cs in if isalpha c then true else rest

unfoldable pub is_snowflake_posix : List ℕ → Bool
unfolding has_letter
is_snowflake_posix posix = not (has_letter posix)

-- `previous` is the byte before, 0 at the start.
pub julian_after : ℕ → List ℕ → Bool
julian_after previous [] = false
julian_after previous (c ∷ cs) =
    let rest = julian_after c cs in
    if c == 74 && previous == 44 && isdigit (head cs) then true else rest

unfoldable pub has_julian_rule : List ℕ → Bool
unfolding julian_after
has_julian_rule posix = julian_after 0 posix

pub all_upper : List ℕ → Bool
all_upper [] = true
all_upper (c ∷ cs) = let rest = all_upper cs in if not (isupper c) then false else rest

unfoldable pub is_abbrev_only : List ℕ → Bool
unfolding all_upper
is_abbrev_only posix =
    if ltb (length posix) 2 || ltb 5 (length posix) then false else all_upper posix

unfoldable pub parse_name : List ℕ → Option (List ℕ)
parse_name c = if isalpha (head c) then some (drop_while isalpha c) else none

-- The minutes and seconds after the hours, where the text has them.
unfoldable pub parse_seconds : List ℕ → Option (ℤ × List ℕ)
parse_seconds c = if head c == 58 then strtol (tail c) else some (pos 0, c)

unfoldable pub parse_minutes : List ℕ → Option (ℤ × ℤ × List ℕ)
unfolding parse_seconds
parse_minutes c =
    if head c == 58
    then (do
      (minutes, c) ← strtol (tail c)
      (seconds, c) ← parse_seconds c
      some (minutes, seconds, c))
    else some (pos 0, pos 0, c)

-- The value is in `lo`, ..., `hi`.
abbrev pub within : ℤ → ℤ → ℤ → Bool
within lo hi x = leb_ℤ lo x && leb_ℤ x hi

-- hours * 3600 + minutes * 60 + seconds, for numbers that are not negative.
abbrev pub total_seconds : ℤ → ℤ → ℤ → ℕ
total_seconds h m s = pos_part h * 3600 + pos_part m * 60 + pos_part s

abbrev pub signed : Bool → ℕ → ℤ
signed true n = sub_ℕ 0 n
signed false n = pos n

unfoldable pub parse_posix_offset_seconds : List ℕ → Option (ℤ × List ℕ)
unfolding parse_minutes
parse_posix_offset_seconds c =
    let body = if head c == 43 || head c == 45 then tail c else c in
    do
      guard (isdigit (head body))
      (hours, rest) ← strtol body
      (minutes, seconds, end) ← parse_minutes rest
      guard (
          within (pos 0) (pos 14) hours
          && within (pos 0) (pos 59) minutes
          && within (pos 0) (pos 59) seconds)
      some (signed (head c == 45) (total_seconds hours minutes seconds), end)

abbrev pub offset_min : ℤ
offset_min = negsuc 719

abbrev pub offset_max : ℤ
offset_max = pos 840

unfoldable pub seconds_west_to_east_min : ℤ → Option ℤ
seconds_west_to_east_min seconds_west =
    let east_minutes = tdiv (pos 0 -ℤ seconds_west) 60 in
    if within offset_min offset_max east_minutes then some east_minutes else none

-- Month, week, weekday and hour.
pub record Transition : Type 0 where
  pub m : ℕ
  pub w : ℕ
  pub d : ℕ
  pub h : ℕ

unfoldable pub parse_hour : List ℕ → Option (ℕ × List ℕ)
parse_hour c =
    if head c == 47
    then (do (hour, end) ← strtoul (tail c); guard (not (head end == 58)); some (hour, end))
    else some (2, c)

unfoldable pub parse_m_transition : List ℕ → Option (Transition × List ℕ)
unfolding parse_hour
parse_m_transition c = do
  guard (head c == 77)
  (m, c1) ← strtoul (tail c)
  guard (head c1 == 46)
  (w, c2) ← strtoul (tail c1)
  guard (head c2 == 46)
  (d, c3) ← strtoul (tail c2)
  guard (leb 1 m && leb m 12 && leb 1 w && leb w 5 && leb d 6)
  (h, c4) ← parse_hour c3
  guard (leb h 23)
  some (record { m = m; w = w; d = d; h = h }, c4)
