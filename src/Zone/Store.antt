-- ===== src/Zone/Store.antt =====
-- The cached rule and its storage, firmware/src/tz_rule.c. The configuration port is an argument:
-- what its read answers and leaves in the buffer, and its write and erase, `none` for a null
-- pointer. A buffer is never null here.
use xiaomi_feeder_iv.Common.{
  ltb, leb, ◌==◌, if◌then◌else◌, length, ℕ, ◌≡◌, Bool, true, false, not, Option, none, some, List,
  [], ◌∷◌, if_false, if_both, refl, sym, ap, ◌∙◌,
}
use xiaomi_feeder_iv.Common.Port.{
  PortErr, port_ok, invalid_arg, not_found, io_error, not_supported, port_busy,
}
use xiaomi_feeder_iv.Zone.{TzRule, tz_rule_default}
use xiaomi_feeder_iv.Zone.Text.{skip_space}
use xiaomi_feeder_iv.Zone.Parse.{parse_zone, after_std, posix_max, tz_rule_parse_posix, refused}
use xiaomi_feeder_iv.Zone.Bounds.{IsRule, parse_posix-IsRule}

abbrev pub label_max : ℕ
label_max = 48

abbrev pub utc0 : List ℕ
utc0 = 85 ∷ 84 ∷ 67 ∷ 48 ∷ []

unfoldable pub load_answer : ℕ → PortErr × List ℕ → PortErr × List ℕ
load_answer out_len (not_found, text) = if ltb out_len 5 then (invalid_arg, []) else (port_ok, utc0)
load_answer out_len (port_ok, text) = (port_ok, text)
load_answer out_len (invalid_arg, text) = (invalid_arg, text)
load_answer out_len (io_error, text) = (io_error, text)
load_answer out_len (not_supported, text) = (not_supported, text)
load_answer out_len (port_busy, text) = (port_busy, text)

unfoldable pub tz_rule_load_posix : Option (PortErr × List ℕ) → ℕ → PortErr × List ℕ
unfolding load_answer
tz_rule_load_posix none out_len = (invalid_arg, [])
tz_rule_load_posix (some answer) out_len =
    if out_len == 0 then (invalid_arg, []) else load_answer out_len answer

-- The new cache: what a parse that fails has stored stays in it.
unfoldable pub tz_rule_cache_refresh : Option (List ℕ) → TzRule
tz_rule_cache_refresh none = tz_rule_default
tz_rule_cache_refresh (some []) = tz_rule_default
tz_rule_cache_refresh (some (c ∷ cs)) = (tz_rule_parse_posix (c ∷ cs) tz_rule_default).1

abbrev pub is_ok : PortErr → Bool
is_ok port_ok = true
is_ok _ = false

unfoldable pub init_from : PortErr × List ℕ → TzRule
init_from (err, buf) = if is_ok err then tz_rule_cache_refresh (some buf) else tz_rule_default

unfoldable pub tz_rule_init : Option (PortErr × List ℕ) → TzRule
unfolding init_from
tz_rule_init answer = init_from (tz_rule_load_posix answer posix_max)

-- The error and the new cache; `parsed` is what the local variable holds before the parse. The
-- port and its write may be null.
unfoldable pub tz_rule_save_posix :
    Option (List ℕ → PortErr) → List ℕ → TzRule → TzRule → PortErr × TzRule
unfolding tz_rule_cache_refresh
tz_rule_save_posix none posix parsed cache = (invalid_arg, cache)
tz_rule_save_posix (some write) posix parsed cache =
    if not ((tz_rule_parse_posix posix parsed).0)
    then (invalid_arg, cache)
    else if leb posix_max (length posix)
    then (invalid_arg, cache)
    else if not (is_ok (write posix))
    then (io_error, cache)
    else (port_ok, tz_rule_cache_refresh (some posix))

abbrev pub ok_or_not_found : PortErr → Bool
ok_or_not_found port_ok = true
ok_or_not_found not_found = true
ok_or_not_found _ = false

unfoldable pub tz_rule_clear_posix : Option PortErr → TzRule → PortErr × TzRule
tz_rule_clear_posix none cache = (invalid_arg, cache)
tz_rule_clear_posix (some err) cache =
    if not (ok_or_not_found err) then (err, cache) else (port_ok, tz_rule_cache_refresh none)

unfoldable pub tz_rule_label_load : Option (PortErr × List ℕ) → ℕ → PortErr × List ℕ
tz_rule_label_load none out_len = (invalid_arg, [])
tz_rule_label_load (some (err, text)) out_len =
    if out_len == 0
    then (invalid_arg, [])
    else (if ok_or_not_found err then (port_ok, text) else (err, text))

-- A null label counts as empty; an empty one is erased.
unfoldable pub tz_rule_label_save :
    Option ((List ℕ → PortErr) × PortErr) → Option (List ℕ) → PortErr
tz_rule_label_save none label = invalid_arg
tz_rule_label_save (some (write, erase)) none = if ok_or_not_found erase then port_ok else erase
tz_rule_label_save (some (write, erase)) (some label) =
    if leb label_max (length label)
    then invalid_arg
    else if length label == 0
    then (if ok_or_not_found erase then port_ok else erase)
    else write label

-- What a save does: it stores a rule that the next start loads as the same rule, or fails and
-- leaves the cache alone.
pub data Saved (write : List ℕ → PortErr) (posix : List ℕ) (cache : TzRule)
    : PortErr × TzRule → Type 0 where
  stored :
      {r : TzRule}
      → IsRule r
      → is_ok (write posix) ≡ true
      → tz_rule_init (some (port_ok, posix)) ≡ r
      → Saved write posix cache (port_ok, r)
  kept : {err : PortErr} → is_ok err ≡ false → Saved write posix cache (err, cache)

parse-same :
    (posix : List ℕ) (out out' : TzRule)
    → (tz_rule_parse_posix posix out).0 ≡ true
    → tz_rule_parse_posix posix out ≡ tz_rule_parse_posix posix out'
unfolding tz_rule_parse_posix
parse-same posix out out' =
    let b = refused (skip_space posix) in
    let x = after_std (parse_zone (skip_space posix)) tz_rule_default in
    if_both (λ (r : Bool × TzRule). r.0 ≡ true → r ≡ (if b then (false, out') else x)) b
      (false, out) x (λ _ ok. absurd (cc ok)) (λ f _. sym (if_false (false, out') x f))

refresh-parsed :
    (posix : List ℕ)
    → (tz_rule_parse_posix posix tz_rule_default).0 ≡ true
    → tz_rule_cache_refresh (some posix) ≡ (tz_rule_parse_posix posix tz_rule_default).1
unfolding tz_rule_cache_refresh
refresh-parsed [] ok = absurd (unfold tz_rule_parse_posix refused in cc ok)
refresh-parsed (c ∷ cs) ok = refl

init-refresh :
    (posix : List ℕ) → tz_rule_init (some (port_ok, posix)) ≡ tz_rule_cache_refresh (some posix)
unfolding tz_rule_init tz_rule_load_posix init_from
init-refresh posix = refl

save-stored :
    (write : List ℕ → PortErr) (posix : List ℕ) (parsed cache : TzRule)
    → (tz_rule_parse_posix posix parsed).0 ≡ true
    → is_ok (write posix) ≡ true
    → Saved write posix cache (port_ok, tz_rule_cache_refresh (some posix))
save-stored write posix parsed cache ok w =
    let ok' : (tz_rule_parse_posix posix tz_rule_default).0 ≡ true =
      ap (λ (r : Bool × TzRule). r.0) (sym (parse-same posix parsed tz_rule_default ok)) ∙ ok in
    stored (rw (refresh-parsed posix ok') (parse_posix-IsRule posix tz_rule_default ok')) w
      (init-refresh posix)

-- Saving either fails, with an error and the cache as it was, or writes the text and caches an
-- in-range rule, which is the one that a later start caches when the port reads that text back.
pub save_posix-Saved :
    (write : List ℕ → PortErr) (posix : List ℕ) (parsed cache : TzRule)
    → Saved write posix cache (tz_rule_save_posix (some write) posix parsed cache)
unfolding tz_rule_save_posix
save_posix-Saved write posix parsed cache =
    let P = Saved write posix cache in
    let done : PortErr × TzRule = (port_ok, tz_rule_cache_refresh (some posix)) in
    let w2 : PortErr × TzRule = if not (is_ok (write posix)) then (io_error, cache) else done in
    let w1 : PortErr × TzRule = if leb posix_max (length posix) then (invalid_arg, cache) else w2 in
    if_both P (not ((tz_rule_parse_posix posix parsed).0)) (invalid_arg, cache) w1 (λ _. kept refl)
      (λ p.
        if_both P (leb posix_max (length posix)) (invalid_arg, cache) w2 (λ _. kept refl)
          (λ _.
            if_both P (not (is_ok (write posix))) (io_error, cache) done (λ _. kept refl)
              (λ q. save-stored write posix parsed cache (holds _ p) (holds _ q))))
  where
    holds : (b : Bool) → not b ≡ false → b ≡ true
    holds true h = refl
    holds false h = absurd (cc h)
