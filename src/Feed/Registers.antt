-- ===== src/Feed/Registers.antt =====
-- The four settings as registers: what is set is what is got.
use xiaomi_feeder_iv.Decimal.{decimal, strtoul-decimal, length-decimal}
use mathlib.Core.Path.{subst}
use xiaomi_feeder_iv.Zone.Store.{is_ok}
use xiaomi_feeder_iv.Common.{
  ltb, Bool-cases, length, ℕ, ◌≤◌, ◌<◌, ◌≡◌, refl, sym, ap, ◌∙◌, ◌≢◌, inl, inr, Bool, true, false,
  ◌||◌, some, List, arith,
}
use xiaomi_feeder_iv.Common.Port.{
  PortErr, port_ok, invalid_arg, not_found, io_error, not_supported, port_busy,
}
use xiaomi_feeder_iv.Dispense.{DispenseMode, open_loop, compensated}
use xiaomi_feeder_iv.Feed.{
  FeedKey, key_child_lock, key_feed_mode, key_overfill_enabled, key_overfill_threshold_g, FeedPort,
  parse_bool, feed_config_mode_parse, feed_config_mode_string, loaded, or_default,
  feed_overfill_threshold_g_default, feed_config_clamp_overfill_threshold, parse_threshold,
  bool_text, feed_config_child_lock_load, feed_config_child_lock_is_active, wrote,
  feed_config_child_lock_set, feed_config_mode_load, feed_config_mode_get, feed_config_mode_set,
  feed_config_overfill_enabled_load, feed_config_overfill_enabled_get,
  feed_config_overfill_enabled_set, feed_config_overfill_threshold_load,
  feed_config_overfill_threshold_g_get, feed_config_overfill_threshold_g_set,
}

-- What the configuration port documents of a write that succeeds: the text is read back where the
-- buffer is long enough, and the other keys keep theirs.
pub record Keeps {S : Type 0} (port : FeedPort S) : Type 0 where
  pub same :
      (key : FeedKey) (text : List ℕ) (size : ℕ) (s s' : S)
      → port.write key text s ≡ (port_ok, s')
      → length text < size
      → port.read key size s' ≡ (port_ok, text)
  pub others :
      (key other : FeedKey) (text : List ℕ) (size : ℕ) (s s' : S)
      → port.write key text s ≡ (port_ok, s')
      → other ≢ key
      → port.read other size s' ≡ port.read other size s

pub data Setting : Type 0 where
  set_child_lock : Bool → Setting
  set_mode : DispenseMode → Setting
  set_overfill_enabled : Bool → Setting
  set_overfill_threshold_g : ℕ → Setting

pub record Settings : Type 0 where
  pub child_lock : Bool
  pub mode : DispenseMode
  pub overfill_enabled : Bool
  pub overfill_threshold_g : ℕ

-- The registers after a setting.
pub effect : Setting → Settings → Settings
effect (set_child_lock b) r = record r { child_lock = b }
effect (set_mode m) r = record r { mode = m }
effect (set_overfill_enabled b) r = record r { overfill_enabled = b }
effect (set_overfill_threshold_g n) r = record r { overfill_threshold_g = n }

pub IsAllowed : Setting → Type 0
IsAllowed (set_overfill_threshold_g n) = (30 ≤ n) × (n ≤ 100)
IsAllowed _ = Unit

-- What each setter writes, as the getter parses it.
parse-bool_text : (b : Bool) → parse_bool (bool_text b) ≡ some b
unfolding parse_bool
parse-bool_text true = refl
parse-bool_text false = refl

length-bool_text : (b : Bool) → length (bool_text b) < 8
length-bool_text true = omega arith
length-bool_text false = omega arith

parse-mode_string : (m : DispenseMode) → feed_config_mode_parse (feed_config_mode_string m) ≡ some m
unfolding feed_config_mode_parse feed_config_mode_string
parse-mode_string open_loop = refl
parse-mode_string compensated = refl

length-mode_string : (m : DispenseMode) → length (feed_config_mode_string m) < 16
unfolding feed_config_mode_string
length-mode_string open_loop = omega arith
length-mode_string compensated = omega arith

parse-decimal : (n : ℕ) → (30 ≤ n) × (n ≤ 100) → parse_threshold (decimal n) ≡ some n
unfolding parse_threshold feed_config_clamp_overfill_threshold
parse-decimal n h = rw (strtoul-decimal n (omega (arith, h.1))) (ap some (ground (arith, h)))

module _ {S : Type 0} (port : FeedPort S) where
  pub apply : Setting → S → Bool × S
  apply (set_child_lock b) s = feed_config_child_lock_set (some port) b s
  apply (set_mode m) s = feed_config_mode_set (some port) m s
  apply (set_overfill_enabled b) s = feed_config_overfill_enabled_set (some port) b s
  apply (set_overfill_threshold_g n) s = feed_config_overfill_threshold_g_set (some port) n s

  -- What the getters answer.
  pub settings : S → Settings
  settings s = record {
    child_lock = feed_config_child_lock_is_active (some port) s;
    mode = feed_config_mode_get (some port) s;
    overfill_enabled = feed_config_overfill_enabled_get (some port) s;
    overfill_threshold_g = feed_config_overfill_threshold_g_get (some port) s;
  }

  -- The settings as a function of the four reads.
  read_as : (FeedKey → PortErr × List ℕ) → Settings
  read_as read = record {
    child_lock = or_default false (loaded false parse_bool (read key_child_lock));
    mode = or_default open_loop (loaded open_loop feed_config_mode_parse (read key_feed_mode));
    overfill_enabled = or_default false (loaded false parse_bool (read key_overfill_enabled));
    overfill_threshold_g =
        or_default feed_overfill_threshold_g_default (
          loaded feed_overfill_threshold_g_default parse_threshold (read key_overfill_threshold_g));
  }

  abbrev size_of : FeedKey → ℕ
  size_of key_feed_mode = 16
  size_of _ = 8

  abbrev reads : S → FeedKey → PortErr × List ℕ
  reads s key = port.read key (size_of key) s

  settings-reads : (s : S) → settings s ≡ read_as (reads s)
  unfolding settings read_as feed_config_child_lock_is_active feed_config_child_lock_load
      feed_config_mode_get feed_config_mode_load feed_config_overfill_enabled_get
      feed_config_overfill_enabled_load feed_config_overfill_threshold_g_get
      feed_config_overfill_threshold_load
  settings-reads s = refl

  -- What an applied setting has done: written its text and set its register alone, or failed.
  pub data Applied (c : Setting) (s : S) : Bool × S → Type 0 where
    set_to : (s' : S) → IsAllowed c → settings s' ≡ effect c (settings s) → Applied c s (true, s')
    failed :
        (key : FeedKey) (text : List ℕ)
        → IsAllowed c
        → is_ok (port.write key text s).0 ≡ false
        → Applied c s (false, (port.write key text s).1)
    refused : ¬ IsAllowed c → Applied c s (false, s)

  module _ (keeps : Keeps port) where
    not_written :
        (c : Setting) (key : FeedKey) (text : List ℕ) (s : S) (err : PortErr) (s' : S)
        → port.write key text s ≡ (err, s')
        → is_ok err ≡ false
        → IsAllowed c
        → Applied c s (false, s')
    not_written c key text s err s' e n a =
        subst (λ x. Applied c s (false, x)) (ap (λ (r : PortErr × S). r.1) e)
          (failed key text a (ap (λ (r : PortErr × S). is_ok r.0) e ∙ n))

    wrote-Applied :
        (c : Setting) (key : FeedKey) (text : List ℕ) (s : S) (r : PortErr × S)
        → port.write key text s ≡ r
        → IsAllowed c
        → ((s' : S) → port.write key text s ≡ (port_ok, s') → settings s' ≡ effect c (settings s))
        → Applied c s (wrote r)
    wrote-Applied c key text s (port_ok, s') e a f = set_to s' a (f s' e)
    wrote-Applied c key text s (invalid_arg, s') e a f = not_written c key text s _ s' e refl a
    wrote-Applied c key text s (not_found, s') e a f = not_written c key text s _ s' e refl a
    wrote-Applied c key text s (io_error, s') e a f = not_written c key text s _ s' e refl a
    wrote-Applied c key text s (not_supported, s') e a f = not_written c key text s _ s' e refl a
    wrote-Applied c key text s (port_busy, s') e a f = not_written c key text s _ s' e refl a

    -- The reads after a write that succeeds.
    module _ (key : FeedKey) (text : List ℕ) (s s' : S)
        (e : port.write key text s ≡ (port_ok, s')) where
      read-same : length text < size_of key → reads s' key ≡ (port_ok, text)
      read-same h = keeps.same key text (size_of key) s s' e h

      read-other : (other : FeedKey) → other ≢ key → reads s' other ≡ reads s other
      read-other other n = keeps.others key other text (size_of other) s s' e n

    settings-after :
        (c : Setting) (s s' : S)
        → read_as (reads s') ≡ effect c (read_as (reads s))
        → settings s' ≡ effect c (settings s)
    settings-after c s s' e = settings-reads s' ∙ e ∙ ap (effect c) (sym (settings-reads s))

    -- A setting that is allowed and written sets its register and no other, as the getters tell; one
    -- that is not allowed writes nothing, and a write that fails is reported. The port keeps what it
    -- was given.
    pub apply-Applied : (c : Setting) (s : S) → Applied c s (apply c s)
    unfolding apply IsAllowed feed_config_child_lock_set feed_config_mode_set
        feed_config_overfill_enabled_set feed_config_overfill_threshold_g_set read_as effect
    apply-Applied (set_child_lock b) s =
        let t = bool_text b in
        wrote-Applied (set_child_lock b) key_child_lock t s _ refl tt (λ s' e.
          settings-after (set_child_lock b) s s' (
            rw
              (
                read-same key_child_lock t s s' e (length-bool_text b),
                parse-bool_text b,
                read-other key_child_lock t s s' e key_feed_mode (λ x. cc x),
                read-other key_child_lock t s s' e key_overfill_enabled (λ x. cc x),
                read-other key_child_lock t s s' e key_overfill_threshold_g (λ x. cc x),
              )
              refl))
    apply-Applied (set_mode m) s =
        let t = feed_config_mode_string m in
        wrote-Applied (set_mode m) key_feed_mode t s _ refl tt (λ s' e.
          settings-after (set_mode m) s s' (
            rw
              (
                read-same key_feed_mode t s s' e (length-mode_string m),
                parse-mode_string m,
                read-other key_feed_mode t s s' e key_child_lock (λ x. cc x),
                read-other key_feed_mode t s s' e key_overfill_enabled (λ x. cc x),
                read-other key_feed_mode t s s' e key_overfill_threshold_g (λ x. cc x),
              )
              refl))
    apply-Applied (set_overfill_enabled b) s =
        let t = bool_text b in
        wrote-Applied (set_overfill_enabled b) key_overfill_enabled t s _ refl tt (λ s' e.
          settings-after (set_overfill_enabled b) s s' (
            rw
              (
                read-same key_overfill_enabled t s s' e (length-bool_text b),
                parse-bool_text b,
                read-other key_overfill_enabled t s s' e key_child_lock (λ x. cc x),
                read-other key_overfill_enabled t s s' e key_feed_mode (λ x. cc x),
                read-other key_overfill_enabled t s s' e key_overfill_threshold_g (λ x. cc x),
              )
              refl))
    apply-Applied (set_overfill_threshold_g n) s =
        let t = decimal n in
        elim (Bool-cases (ltb n 30 || ltb 100 n)) [
          | inl bad ↦ rw bad (refused (λ a. absurd (ground (arith, a, bad))))
          | inr good ↦
              let a : (30 ≤ n) × (n ≤ 100) = (ground (arith, good), ground (arith, good)) in
              rw good (
                wrote-Applied (set_overfill_threshold_g n) key_overfill_threshold_g t s _ refl a
                  (λ s' e. settings-after (set_overfill_threshold_g n) s s' (
                    rw
                      (
                        read-same key_overfill_threshold_g t s s' e
                            (omega (arith, length-decimal n (omega (arith, a.1)))),
                        parse-decimal n a,
                        read-other key_overfill_threshold_g t s s' e key_child_lock (λ x. cc x),
                        read-other key_overfill_threshold_g t s s' e key_feed_mode (λ x. cc x),
                        read-other key_overfill_threshold_g t s s' e key_overfill_enabled
                            (λ x. cc x),
                      )
                      refl)))
        ]
