-- ===== src/Battery.antt =====
-- The battery percentage, firmware/src/battery_pct.c: a table of knots and the line between them.
-- The pack voltage is a 16-bit number of millivolts; the one chemistry of the code has one table.
pub mod Bounds
use xiaomi_feeder_iv.Common.{
  ltb, leb, if◌then◌else◌, u8, sub32, ℕ, ◌+◌, ◌*◌, ◌/◌, ◌||◌, List, [], ◌∷◌,
}

pub record Knot : Type 0 where
  pub mv : ℕ
  pub pct : ℕ

abbrev pub aa_alk_4s_knots : List Knot
aa_alk_4s_knots =
    record { mv = 6000; pct = 100 }
    ∷ record { mv = 5600; pct = 75 }
    ∷ record { mv = 5200; pct = 50 }
    ∷ record { mv = 4800; pct = 25 }
    ∷ record { mv = 4400; pct = 10 }
    ∷ record { mv = 4000; pct = 0 }
    ∷ []

-- The percentage on the line between two knots, `hi` above `lo`, to the nearest one.
unfoldable pub on_segment : Knot → Knot → ℕ → ℕ
on_segment hi lo pack_mv =
    let span_mv = sub32 hi.mv lo.mv in
    let offset_mv = sub32 pack_mv lo.mv in
    let delta_pct = sub32 hi.pct lo.pct in
    u8 (lo.pct + (offset_mv * delta_pct + span_mv / 2) / span_mv)

-- The loop over the pairs of neighbours.
unfoldable pub segments : List Knot → ℕ → ℕ
unfolding on_segment
segments [] pack_mv = 0
segments (hi ∷ []) pack_mv = 0
segments (hi ∷ lo ∷ knots) pack_mv =
    let rest = segments (lo ∷ knots) pack_mv in
    if ltb hi.mv pack_mv || ltb pack_mv lo.mv then rest else on_segment hi lo pack_mv

pub last_knot : Knot → List Knot → Knot
last_knot k [] = k
last_knot k (l ∷ ls) = last_knot l ls

unfoldable pub battery_pct_interpolate : List Knot → ℕ → ℕ
unfolding segments last_knot
battery_pct_interpolate [] pack_mv = 0
battery_pct_interpolate (first ∷ others) pack_mv =
    let end = last_knot first others in
    if leb first.mv pack_mv
    then first.pct
    else (if leb pack_mv end.mv then end.pct else segments (first ∷ others) pack_mv)

unfoldable pub battery_pct_from_mv : ℕ → ℕ
unfolding battery_pct_interpolate
battery_pct_from_mv pack_mv = battery_pct_interpolate aa_alk_4s_knots pack_mv
