-- ===== src/Evdev/Axis.antt =====
-- From axis values to stick and trigger values: `evdev_convert_value` and
-- `evdev_convert_value_byte` of src/input/evdev.c. `none` is a division by zero. The differences and
-- products are exact integers: an `int` holds them for axes of up to 2^22 steps.
pub mod Level
pub mod Order
use moonlight_allwinner_h.Prelude.{
  ℕ, ◌+◌, ◌<◌, Bool, true, false, not, Option, none, some, ◌&&◌, ◌||◌, ◌>>=◌, ltb, ◌==◌,
  if◌then◌else◌,
}
use moonlight_allwinner_h.Prelude.Int.{
  ℤ, pos, negsuc, ◌+ℤ◌, ◌-ℤ◌, ◌*ℤ◌, ◌/ℤ◌, neg_ℤ, abs_ℤ, ltb_ℤ, eqb_ℤ, to_short, to_uchar,
}
use moonlight_allwinner_h.Evdev.Device.{AbsParms}

abbrev pub shrt_max : ℤ
shrt_max = pos 32767

abbrev pub shrt_min : ℤ
shrt_min = negsuc 32767

-- SHRT_MAX - SHRT_MIN
abbrev pub shrt_span : ℤ
shrt_span = pos 65535

abbrev pub uchar_max : ℤ
uchar_max = pos 255

-- `parms->max == 0 && parms->min == 0`
abbrev pub not_found : AbsParms → Bool
not_found p = eqb_ℤ p.max (pos 0) && eqb_ℤ p.min (pos 0)

-- `abs(a - b) < flat`
abbrev pub within : ℤ → ℤ → ℤ → Bool
within a b flat = ltb_ℤ (pos (abs_ℤ (a -ℤ b))) flat

-- a / b, or the fault.
abbrev pub divide : ℤ → ℤ → Option ℤ
divide a b = if eqb_ℤ b (pos 0) then none else some (a /ℤ b)

-- `parms->max-parms->min-parms->flat*2`
abbrev pub live_range : AbsParms → ℤ
live_range p = p.max -ℤ p.min -ℤ p.flat *ℤ pos 2

-- The dead zone is taken out on the far side of the centre.
abbrev pub numerator : AbsParms → ℤ → ℤ
numerator p v = v -ℤ (if ltb_ℤ p.avg v then p.flat *ℤ pos 2 else pos 0) -ℤ p.min

abbrev pub numerator_reverse : AbsParms → ℤ → ℤ
numerator_reverse p v = p.max -ℤ (if ltb_ℤ v p.avg then p.flat *ℤ pos 2 else pos 0) -ℤ v

-- `(long long) n * (SHRT_MAX-SHRT_MIN) / d + SHRT_MIN`, returned as a `short`
abbrev pub scale : ℤ → ℤ → Option ℤ
scale n d = divide (n *ℤ shrt_span) d >>= λ q. some (to_short (q +ℤ shrt_min))

unfoldable pub evdev_convert_value : AbsParms → ℤ → Bool → Option ℤ
evdev_convert_value p v reverse =
    if not_found p
    then some (pos 0)
    else if within v p.avg p.flat
    then some (pos 0)
    else if ltb_ℤ p.max v
    then some (if reverse then shrt_min else shrt_max)
    else if ltb_ℤ v p.min
    then some (if reverse then shrt_max else shrt_min)
    else if reverse
    then scale (numerator_reverse p v) (live_range p)
    else scale (numerator p v) (live_range p)

-- The half of the axis that `halfaxis` names, from a stick value.
unfoldable pub half : ℕ → ℤ → ℕ
half halfaxis val =
    if halfaxis == b'-' && ltb_ℤ val (pos 0)
    then to_uchar (neg_ℤ val *ℤ uchar_max /ℤ shrt_span)
    else if halfaxis == b'+' && ltb_ℤ (pos 0) val
    then to_uchar (val *ℤ uchar_max /ℤ shrt_span)
    else 0

unfoldable pub evdev_convert_value_byte : AbsParms → ℤ → ℕ → Option ℕ
evdev_convert_value_byte p v halfaxis =
    if not_found p
    then some 0
    else if halfaxis == 0
    then if within v p.min p.flat
      then some 0
      else if ltb_ℤ p.max v
      then some 255
      else (divide ((v -ℤ p.flat -ℤ p.min) *ℤ uchar_max) (p.diff -ℤ p.flat) >>= λ q.
          some (to_uchar q))
    else evdev_convert_value p v false >>= λ val. some (half halfaxis val)
