-- ===== src/Battery/Bounds.antt =====
-- The percentage is one.
use xiaomi_feeder_iv.Common.{ℕ, ◌≤◌, ◌<◌, arith}
use xiaomi_feeder_iv.Battery.{on_segment, segments, battery_pct_interpolate, battery_pct_from_mv}

-- The byte that the table gives is at most 100 for every 16-bit voltage, whatever the rounding and
-- the wrapping subtractions do.
from_mv-le : (v : ℕ) → v < 65536 → battery_pct_from_mv v ≤ 100
unfolding battery_pct_from_mv battery_pct_interpolate segments on_segment
from_mv-le v h = ground arith
