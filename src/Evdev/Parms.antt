-- ===== src/Evdev/Parms.antt =====
-- The parameters of an axis: `evdev_get_map` and `evdev_init_parms` of src/input/evdev.c.
use moonlight_allwinner_h.Prelude.{
  ℕ, zero, suc, ◌+◌, ◌≡◌, refl, Bool, true, false, List, [], ◌∷◌, Option, none, some, arith, ◌&&◌,
  if◌then◌else◌,
}
use moonlight_allwinner_h.Prelude.Int.{
  ℤ, pos, negsuc, ◌+ℤ◌, ◌-ℤ◌, ◌/ℤ◌, ◌≤ℤ◌, ◌<ℤ◌, eqb_ℤ, +ℤ_parts,
}
use moonlight_allwinner_h.Evdev.Device.{AbsParms}
use moonlight_allwinner_h.Evdev.Axis.Level.{IsAxis}

-- `libevdev_get_abs_flat`, `libevdev_get_abs_minimum` and `libevdev_get_abs_maximum`
pub record AbsInfo : Type 0 where
  pub flat : ℕ → ℤ
  pub minimum : ℕ → ℤ
  pub maximum : ℕ → ℤ

-- The first index below `length` of a value, from `i` on; `none` is -1. The array is as long as
-- `length` says, or longer.
unfoldable pub evdev_get_map : List ℤ → ℕ → ℤ → ℕ → Option ℕ
evdev_get_map [] length value i = none
evdev_get_map (x ∷ xs) zero value i = none
evdev_get_map (x ∷ xs) (suc length) value i =
    let rest = evdev_get_map xs length value (i + 1) in if eqb_ℤ value x then some i else rest

-- The test for a missing axis.
abbrev pub is_missing : ℤ → ℤ → ℤ → Bool
is_missing flat min max = eqb_ℤ flat (pos 0) && (eqb_ℤ min (pos 0) && eqb_ℤ max (pos 0))

-- The parameters read from an axis, and whether it is one.
unfoldable pub read_parms : AbsInfo → ℕ → AbsParms → Bool × AbsParms
read_parms info i parms =
    let flat = info.flat i in
    let min = info.minimum i in
    let max = info.maximum i in
    let avg = (min +ℤ max) /ℤ pos 2 in
    if is_missing flat min max
    then (false, record parms { flat = flat; min = min; max = max })
    else (
      true,
      record {
        min = min;
        max = max;
        flat = flat;
        avg = avg;
        range = max -ℤ avg;
        diff = max -ℤ min;
      },
    )

-- `abs_max` is ABS_MAX.
unfoldable pub evdev_init_parms : ℕ → AbsInfo → List ℤ → ℤ → AbsParms → Bool × AbsParms
evdev_init_parms abs_max info abs_map code parms = elim (evdev_get_map abs_map abs_max code 0) [
  | none ↦ (true, parms)
  | some i ↦ read_parms info i parms
]

-- The middle of an axis, rounded towards 0.
half_sum :
    (s : ℤ)
    → (s ≤ℤ s /ℤ pos 2 +ℤ (s /ℤ pos 2) +ℤ pos 1) × (s /ℤ pos 2 +ℤ (s /ℤ pos 2) ≤ℤ s +ℤ pos 1)
unfolding ◌/ℤ◌ ◌+ℤ◌
half_sum (pos n) = (ground arith, ground arith)
half_sum (negsuc n) = (ground arith, ground arith)

wide_found : (flat min max : ℤ) → flat +ℤ flat +ℤ min <ℤ max → is_missing flat min max ≡ false
wide_found flat min max h = ground (arith, +ℤ_parts flat flat, +ℤ_parts (flat +ℤ flat) min)

read_parms-IsAxis :
    (info : AbsInfo) (i : ℕ) (parms : AbsParms)
    → pos 0 ≤ℤ info.flat i
    → info.flat i +ℤ info.flat i +ℤ info.minimum i <ℤ info.maximum i
    → ((read_parms info i parms).0 ≡ true) × IsAxis (read_parms info i parms).1
unfolding read_parms
read_parms-IsAxis info i parms nonneg small =
    let middle = half_sum (info.minimum i +ℤ info.maximum i) in
    rw (wide_found (info.flat i) (info.minimum i) (info.maximum i) small) (
      refl,
      record {
        flat_nonneg = nonneg;
        flat_small = small;
        centre_low = middle.0;
        centre_high = middle.1;
      },
    )

-- For an axis of the device whose dead zone is less than half as wide as the axis, the parameters
-- are read, and the centre of the axis is its middle up to rounding, as the conversions rely on.
pub init_parms-IsAxis :
    (abs_max : ℕ) (info : AbsInfo) (abs_map : List ℤ) (code : ℤ) (parms : AbsParms) (i : ℕ)
    → evdev_get_map abs_map abs_max code 0 ≡ some i
    → pos 0 ≤ℤ info.flat i
    → info.flat i +ℤ info.flat i +ℤ info.minimum i <ℤ info.maximum i
    → ((evdev_init_parms abs_max info abs_map code parms).0 ≡ true)
      × IsAxis (evdev_init_parms abs_max info abs_map code parms).1
unfolding evdev_init_parms
init_parms-IsAxis abs_max info abs_map code parms i found nonneg small =
    rw (evdev_init_parms, found) (read_parms-IsAxis info i parms nonneg small)
