-- ===== src/Weigh.antt =====
-- The calibration of the scale, firmware/src/weigh_cal.c. The configuration port is an argument:
-- `none` for a null pointer, and otherwise what `write_i32` or `read_i32` answers for each key.
pub mod Bowl
use xiaomi_feeder_iv.Common.{
  if◌then◌else◌, eqb, ℕ, ◌+◌, ◌-◌, ◌*◌, ◌/◌, Bool, true, false, not, ◌&&◌, ◌||◌, Option, none, some,
}
use xiaomi_feeder_iv.Common.Int.{ℤ, pos, pos_part, neg_part, sub_ℕ, ◌-ℤ◌, ltb_ℤ, leb_ℤ}
use xiaomi_feeder_iv.Common.Port.{PortErr, port_ok, invalid_arg, not_found, io_error}

abbrev pub weigh_bowl_mass_g : ℕ
weigh_bowl_mass_g = 350

abbrev pub weigh_bowl_mass_dg : ℕ
weigh_bowl_mass_dg = 3500

abbrev pub weigh_cal_span_g : ℤ
weigh_cal_span_g = pos weigh_bowl_mass_g

pub record CalModel : Type 0 where
  pub zero_raw : ℤ
  pub span_g : ℤ
  pub span_raw : ℤ
  pub zero_set : Bool
  pub span_set : Bool

abbrev pub no_calibration : CalModel
no_calibration = record {
  zero_raw = pos 0;
  span_g = pos 0;
  span_raw = pos 0;
  zero_set = false;
  span_set = false;
}

abbrev pub succeeds : PortErr → Bool
succeeds port_ok = true
succeeds _ = false

abbrev pub is_missing : PortErr → Bool
is_missing not_found = true
is_missing _ = false

-- The three answers of `read_i32`, for the zero, the span's weight and the span's raw value.
pub record CalRead : Type 0 where
  pub zero : PortErr × ℤ
  pub weight : PortErr × ℤ
  pub raw : PortErr × ℤ

unfoldable pub check_loaded : CalModel → PortErr × CalModel
check_loaded m =
    if m.zero_set && not m.span_set
    then (port_ok, m)
    else if m.span_set && not m.zero_set
    then (io_error, record m { span_set = false })
    else (port_ok, m)

unfoldable pub load_span_raw : PortErr × ℤ → CalModel → PortErr × CalModel
unfolding check_loaded
load_span_raw (err, value) m =
    if not m.span_set
    then check_loaded m
    else if succeeds err
    then check_loaded (record m { span_raw = value })
    else (if is_missing err then io_error else err, record m { span_set = false })

unfoldable pub load_span : CalRead → CalModel → PortErr × CalModel
unfolding load_span_raw
load_span r m =
    let (err, value) = r.weight in
    if succeeds err
    then load_span_raw r.raw (record m { span_g = value; span_set = true })
    else if is_missing err
    then load_span_raw r.raw m
    else (err, m)

unfoldable pub weigh_cal_load : Option CalRead → PortErr × CalModel
unfolding load_span
weigh_cal_load none = (port_ok, no_calibration)
weigh_cal_load (some r) =
    let (err, value) = r.zero in
    if succeeds err
    then load_span r (record no_calibration { zero_raw = value; zero_set = true })
    else if is_missing err
    then load_span r no_calibration
    else (err, no_calibration)

unfoldable pub with_zero : ℤ → CalModel → CalModel
with_zero zero_raw m = record m {
  zero_raw = zero_raw;
  zero_set = true;
  span_g = pos 0;
  span_raw = pos 0;
  span_set = false;
}

-- The erasures of the span are not checked.
unfoldable pub weigh_cal_save_zero : Option PortErr → ℤ → CalModel → PortErr × CalModel
unfolding with_zero
weigh_cal_save_zero none zero_raw m = (port_ok, with_zero zero_raw m)
weigh_cal_save_zero (some err) zero_raw m =
    if succeeds err then (port_ok, with_zero zero_raw m) else (err, m)

abbrev pub eq_ℤ : ℤ → ℤ → Bool
eq_ℤ a b = leb_ℤ a b && leb_ℤ b a

unfoldable pub write_span : Option (PortErr × PortErr) → ℤ → ℤ → CalModel → PortErr × CalModel
write_span none span_g span_raw m =
    (port_ok, record m { span_g = span_g; span_raw = span_raw; span_set = true })
write_span (some (weight, raw)) span_g span_raw m =
    if not (succeeds weight)
    then (weight, m)
    else if not (succeeds raw)
    then (raw, m)
    else (port_ok, record m { span_g = span_g; span_raw = span_raw; span_set = true })

unfoldable pub weigh_cal_save_span :
    Option (PortErr × PortErr) → ℤ → ℤ → CalModel → PortErr × CalModel
weigh_cal_save_span cfg span_g span_raw m =
    if not m.zero_set || not (eq_ℤ span_g weigh_cal_span_g) || eq_ℤ span_raw m.zero_raw
    then (invalid_arg, m)
    else write_span cfg span_g span_raw m

-- The erasures are not checked.
abbrev pub weigh_cal_clear : CalModel → PortErr × CalModel
weigh_cal_clear m = (port_ok, no_calibration)

unfoldable pub weigh_cal_is_complete : CalModel → Bool
weigh_cal_is_complete m = m.zero_set && m.span_set

unfoldable pub weigh_cal_zero_pending_span : CalModel → Bool
weigh_cal_zero_pending_span m = m.zero_set && not m.span_set

abbrev pub abs_ℤ : ℤ → ℕ
abs_ℤ a = pos_part a + neg_part a

infixl 70 ◌*ℤ◌
unfoldable pub ◌*ℤ◌ : ℤ → ℤ → ℤ
a *ℤ b =
    if eqb (ltb_ℤ a (pos 0)) (ltb_ℤ b (pos 0))
    then pos (abs_ℤ a * abs_ℤ b)
    else sub_ℕ 0 (abs_ℤ a * abs_ℤ b)

-- C's `/` on signed numbers.
unfoldable pub quotient : ℤ → ℤ → ℤ
quotient a b =
    if eqb (ltb_ℤ a (pos 0)) (ltb_ℤ b (pos 0))
    then pos (abs_ℤ a / abs_ℤ b)
    else sub_ℕ 0 (abs_ℤ a / abs_ℤ b)

-- The error, or the weight; `raw - zero_raw` is taken to fit an int32_t.
unfoldable pub weigh_cal_apply_dg : CalModel → ℤ → Option ℤ
unfolding quotient
weigh_cal_apply_dg m raw =
    let den = m.span_raw -ℤ m.zero_raw in
    if not (weigh_cal_is_complete m)
    then none
    else if eq_ℤ den (pos 0)
    then none
    else some (quotient ((raw -ℤ m.zero_raw) *ℤ m.span_g *ℤ pos 10) den)

unfoldable pub less_bowl : Option ℤ → Option ℤ
less_bowl none = none
less_bowl (some total) = some (total -ℤ pos weigh_bowl_mass_dg)

unfoldable pub weigh_cal_food_dg : CalModel → ℤ → Option ℤ
unfolding less_bowl
weigh_cal_food_dg m raw = less_bowl (weigh_cal_apply_dg m raw)
