-- ===== src/Feed.antt =====
-- The feed settings in the configuration, firmware/src/feed_config.c. The configuration port is a
-- parameter: its read of a key into a buffer of some size, and its write, on the state of the store.
-- A text is its bytes without the final zero; no pointer is null but the port itself.
pub mod Registers
use xiaomi_feeder_iv.Zone.Text.{strtoul}
use xiaomi_feeder_iv.Decimal.{decimal}
use xiaomi_feeder_iv.Zone.Store.{is_ok}
use Prim.Native.Char.{code}
use Prim.Native.String.{String}
use xiaomi_feeder_iv.Common.{
  ltb, ◌==◌, if◌then◌else◌, u8, ℕ, zero, Bool, true, false, not, ◌&&◌, ◌||◌, Option, none, some,
  List, [], ◌∷◌,
}
use xiaomi_feeder_iv.Common.Port.{PortErr, port_ok, not_found}
use xiaomi_feeder_iv.Dispense.{DispenseMode, open_loop, compensated}

-- The bytes of a text.
abbrev pub codes : String → List ℕ
codes String.[] = []
codes (String.◌∷◌ c s) = code c ∷ codes s

-- `strcmp(a, b) == 0`.
abbrev pub text_eq : List ℕ → List ℕ → Bool
text_eq [] [] = true
text_eq [] (y ∷ ys) = false
text_eq (x ∷ xs) [] = false
text_eq (x ∷ xs) (y ∷ ys) = x == y && text_eq xs ys

pub data FeedKey : Type 0 where
  key_child_lock key_feed_mode key_overfill_enabled key_overfill_threshold_g : FeedKey

pub record FeedPort (S : Type 0) : Type 0 where
  pub read : FeedKey → ℕ → S → PortErr × List ℕ
  pub write : FeedKey → List ℕ → S → PortErr × S

unfoldable pub parse_bool : List ℕ → Option Bool
parse_bool value =
    if text_eq value (codes "true") || text_eq value (codes "1")
    then some true
    else if text_eq value (codes "false") || text_eq value (codes "0")
    then some false
    else none

unfoldable pub feed_config_mode_parse : List ℕ → Option DispenseMode
feed_config_mode_parse value =
    if text_eq value (codes "compensated")
    then some compensated
    else if text_eq value (codes "open_loop")
    then some open_loop
    else none

unfoldable pub feed_config_mode_string : DispenseMode → List ℕ
feed_config_mode_string compensated = codes "compensated"
feed_config_mode_string open_loop = codes "open_loop"

-- What a load gives: the default for a missing key, the parse of the text, or nothing.
abbrev pub loaded {ℓ} : {A : Type ℓ} → A → (List ℕ → Option A) → PortErr × List ℕ → Option A
loaded missing parse (port_ok, buf) = parse buf
loaded missing parse (not_found, buf) = some missing
loaded missing parse (_, buf) = none

abbrev pub or_default {ℓ} : {A : Type ℓ} → A → Option A → A
or_default a none = a
or_default a (some b) = b

abbrev pub feed_overfill_threshold_g_min : ℕ
feed_overfill_threshold_g_min = 30

abbrev pub feed_overfill_threshold_g_max : ℕ
feed_overfill_threshold_g_max = 100

abbrev pub feed_overfill_threshold_g_default : ℕ
feed_overfill_threshold_g_default = 50

unfoldable pub feed_config_clamp_overfill_threshold : ℕ → ℕ
feed_config_clamp_overfill_threshold threshold_g =
    if ltb threshold_g feed_overfill_threshold_g_min
    then feed_overfill_threshold_g_min
    else if ltb feed_overfill_threshold_g_max threshold_g
    then feed_overfill_threshold_g_max
    else threshold_g

-- `strtoul` answers 0 where there is no number.
abbrev pub strtoul_value : Option (ℕ × List ℕ) → ℕ
strtoul_value none = 0
strtoul_value (some (n, rest)) = n

unfoldable pub parse_threshold : List ℕ → Option ℕ
parse_threshold buf = some (feed_config_clamp_overfill_threshold (u8 (strtoul_value (strtoul buf))))

abbrev pub bool_text : Bool → List ℕ
bool_text b = if b then codes "1" else codes "0"

module _ {S : Type 0} where
  unfoldable pub feed_config_child_lock_load : Option (FeedPort S) → S → Option Bool
  feed_config_child_lock_load none s = none
  feed_config_child_lock_load (some port) s = loaded false parse_bool (port.read key_child_lock 8 s)

  unfoldable pub feed_config_child_lock_is_active : Option (FeedPort S) → S → Bool
  feed_config_child_lock_is_active port s = or_default false (feed_config_child_lock_load port s)

  -- The end of a setter: whether the write succeeded, and the store.
  abbrev pub wrote : PortErr × S → Bool × S
  wrote (err, s) = (is_ok err, s)

  unfoldable pub feed_config_child_lock_set : Option (FeedPort S) → Bool → S → Bool × S
  feed_config_child_lock_set none locked s = (false, s)
  feed_config_child_lock_set (some port) locked s =
      wrote (port.write key_child_lock (bool_text locked) s)

  unfoldable pub toggled : Option (FeedPort S) → Option Bool → S → Bool × S
  toggled port none s = (false, s)
  toggled port (some locked) s =
      let r = feed_config_child_lock_set port (not locked) s in
      (if not r.0 then locked else not locked, r.1)

  unfoldable pub feed_config_child_lock_toggle : Option (FeedPort S) → S → Bool × S
  feed_config_child_lock_toggle port s = toggled port (feed_config_child_lock_load port s) s

  unfoldable pub feed_config_mode_load : Option (FeedPort S) → S → Option DispenseMode
  feed_config_mode_load none s = none
  feed_config_mode_load (some port) s =
      loaded open_loop feed_config_mode_parse (port.read key_feed_mode 16 s)

  unfoldable pub feed_config_mode_get : Option (FeedPort S) → S → DispenseMode
  feed_config_mode_get port s = or_default open_loop (feed_config_mode_load port s)

  unfoldable pub feed_config_mode_set : Option (FeedPort S) → DispenseMode → S → Bool × S
  feed_config_mode_set none mode s = (false, s)
  feed_config_mode_set (some port) mode s =
      wrote (port.write key_feed_mode (feed_config_mode_string mode) s)

  unfoldable pub feed_config_overfill_enabled_load : Option (FeedPort S) → S → Option Bool
  feed_config_overfill_enabled_load none s = none
  feed_config_overfill_enabled_load (some port) s =
      loaded false parse_bool (port.read key_overfill_enabled 8 s)

  unfoldable pub feed_config_overfill_enabled_get : Option (FeedPort S) → S → Bool
  feed_config_overfill_enabled_get port s =
      or_default false (feed_config_overfill_enabled_load port s)

  unfoldable pub feed_config_overfill_enabled_set : Option (FeedPort S) → Bool → S → Bool × S
  feed_config_overfill_enabled_set none enabled s = (false, s)
  feed_config_overfill_enabled_set (some port) enabled s =
      wrote (port.write key_overfill_enabled (bool_text enabled) s)

  unfoldable pub feed_config_overfill_threshold_load : Option (FeedPort S) → S → Option ℕ
  feed_config_overfill_threshold_load none s = none
  feed_config_overfill_threshold_load (some port) s =
      loaded feed_overfill_threshold_g_default parse_threshold
        (port.read key_overfill_threshold_g 8 s)

  unfoldable pub feed_config_overfill_threshold_g_get : Option (FeedPort S) → S → ℕ
  feed_config_overfill_threshold_g_get port s =
      or_default feed_overfill_threshold_g_default (feed_config_overfill_threshold_load port s)

  unfoldable pub feed_config_overfill_threshold_g_set : Option (FeedPort S) → ℕ → S → Bool × S
  feed_config_overfill_threshold_g_set none threshold_g s = (false, s)
  feed_config_overfill_threshold_g_set (some port) threshold_g s =
      if ltb threshold_g feed_overfill_threshold_g_min
        || ltb feed_overfill_threshold_g_max threshold_g
      then (false, s)
      else wrote (port.write key_overfill_threshold_g (decimal threshold_g) s)
