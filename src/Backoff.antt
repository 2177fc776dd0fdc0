-- ===== src/Backoff.antt =====
-- The delay between attempts to reach the broker, firmware/src/mqtt_backoff.c. The struct has one
-- field, a uint32_t of milliseconds; a NULL pointer is `none`.
pub mod Growth
use xiaomi_feeder_iv.Common.{ltb, if◌then◌else◌, u32, ℕ, ◌*◌, Option, none, some}

abbrev pub mqtt_backoff_initial_ms : ℕ
mqtt_backoff_initial_ms = 1000

abbrev pub mqtt_backoff_max_ms : ℕ
mqtt_backoff_max_ms = 60000

unfoldable pub mqtt_backoff_init : Option ℕ → Option ℕ
mqtt_backoff_init none = none
mqtt_backoff_init (some delay_ms) = some mqtt_backoff_initial_ms

unfoldable pub mqtt_backoff_on_failure : Option ℕ → Option ℕ
mqtt_backoff_on_failure none = none
mqtt_backoff_on_failure (some delay_ms) =
    let next = u32 (delay_ms * 2) in
    some (if ltb mqtt_backoff_max_ms next then mqtt_backoff_max_ms else next)

unfoldable pub mqtt_backoff_on_success : Option ℕ → Option ℕ
unfolding mqtt_backoff_init
mqtt_backoff_on_success backoff = mqtt_backoff_init backoff

unfoldable pub mqtt_backoff_current_ms : Option ℕ → ℕ
mqtt_backoff_current_ms none = mqtt_backoff_initial_ms
mqtt_backoff_current_ms (some delay_ms) = delay_ms
