-- ===== src/Evdev/Axis/Level.antt =====
-- The axis conversions of src/input/evdev.c by the live steps of an axis.
use native.Mathlib.Nat.{le-div_iff_mul-le, div-mul-le_self, mul-div_cancel_left}
use moonlight_allwinner_h.Prelude.{
  ℕ, Bool-cases, inl, inr, ◌+◌, ◌*◌, ◌/◌, ◌≤◌, ◌<◌, ◌≡◌, refl, true, false, some, arith,
  if◌then◌else◌,
}
use moonlight_allwinner_h.Prelude.Int.{
  ℤ, pos, negsuc, ◌+ℤ◌, ◌-ℤ◌, ◌*ℤ◌, ◌/ℤ◌, neg_ℤ, abs_ℤ, ◌≤ℤ◌, ◌<ℤ◌, int_laws, to_short, to_uchar,
  pos_part, neg_part, ltb_ℤ, to_short-eq_self, parts_disjoint, eq_of_parts, +ℤ_parts, -ℤ_parts,
}
use moonlight_allwinner_h.Evdev.Device.{AbsParms}
use moonlight_allwinner_h.Evdev.Axis.{
  not_found, within, live_range, numerator, scale, half, evdev_convert_value,
}

pub to_short_bounds : (a : ℤ) → (negsuc 32767 ≤ℤ to_short a) × (to_short a ≤ℤ pos 32767)
unfolding to_short
to_short_bounds a = ground arith

-- Half of a stick's way is less than half of a trigger's.
pub half-le_127 : (h : ℕ) (val : ℤ) → negsuc 32767 ≤ℤ val → val ≤ℤ pos 32767 → half h val ≤ 127
unfolding half to_uchar neg_ℤ ◌*ℤ◌ ◌/ℤ◌
half-le_127 h (pos n) lo hi = ground arith
half-le_127 h (negsuc n) lo hi = ground arith

-- An axis with a dead zone less than half as wide, and its middle up to rounding for its centre.
pub record IsAxis (p : AbsParms) : Type 0 where
  pub flat_nonneg : pos 0 ≤ℤ p.flat
  pub flat_small : p.flat +ℤ p.flat +ℤ p.min <ℤ p.max
  pub centre_low : p.min +ℤ p.max ≤ℤ p.avg +ℤ p.avg +ℤ pos 1
  pub centre_high : p.avg +ℤ p.avg ≤ℤ p.min +ℤ p.max +ℤ pos 1

pub div_mono : (m n k : ℕ) → 0 < k → m ≤ n → m / k ≤ n / k
div_mono m n k h le = (le-div_iff_mul-le h).1 (omega (arith, div-mul-le_self m k))

-- The steps between the end of the axis and its dead zone, on both sides.
abbrev pub live : AbsParms → ℕ
live p = pos_part (live_range p)

-- How far along its live steps a value is.
abbrev pub level : AbsParms → ℤ → ℕ
level p v = if ltb_ℤ p.max v then live p else if ltb_ℤ v p.min then 0 else pos_part (numerator p v)

-- The stick value of `n` live steps out of `d`.
abbrev pub stick : ℕ → ℕ → ℤ
stick n d = pos (n * 65535 / d) -ℤ pos 32768

pub twice :
    (a : ℤ) → (pos_part (a *ℤ pos 2) ≡ pos_part a * 2) × (neg_part (a *ℤ pos 2) ≡ neg_part a * 2)
unfolding ◌*ℤ◌
twice a = ground arith

pub abs_parts : (a : ℤ) → abs_ℤ a ≡ pos_part a + neg_part a
unfolding abs_ℤ
abs_parts a = refl

pub nonneg_pos : (a : ℤ) → pos 0 ≤ℤ a → a ≡ pos (pos_part a)
nonneg_pos a h = ground arith

pub ruleset axis_laws = (int_laws, twice, abs_parts, parts_disjoint)

live_range-positive : {p : AbsParms} → IsAxis p → pos 1 ≤ℤ live_range p
live_range-positive {p} a = omega axis_laws

pub live_range_pos : {p : AbsParms} → IsAxis p → (live_range p ≡ pos (live p)) × (0 < live p)
live_range_pos {p} a = (
  nonneg_pos (live_range p) (omega (arith, live_range-positive a)),
  omega (arith, live_range-positive a, parts_disjoint (live_range p)),
)

pub outside : (v c f : ℤ) → within v c f ≡ false → f ≤ℤ pos (abs_ℤ (v -ℤ c))
outside v c f h = ground arith

pub ltb_ℤ→lt : (a b : ℤ) → ltb_ℤ a b ≡ true → a <ℤ b
ltb_ℤ→lt a b h = ground arith

pub ltb_ℤ→le : (a b : ℤ) → ltb_ℤ a b ≡ false → b ≤ℤ a
ltb_ℤ→le a b h = ground arith

-- The `int` difference of a value in range, on either side of the dead zone.
pub numerator_range :
    {p : AbsParms} (v : ℤ)
    → IsAxis p
    → within v p.avg p.flat ≡ false
    → p.min ≤ℤ v
    → v ≤ℤ p.max
    → (pos 0 ≤ℤ numerator p v) × (numerator p v ≤ℤ live_range p)
numerator_range {p} v a out lo hi =
    let far = outside v p.avg p.flat out in
    elim (Bool-cases (ltb_ℤ p.avg v)) [
      | inl above ↦ let side = ltb_ℤ→lt p.avg v above in rw above (omega axis_laws, omega axis_laws)
      | inr below ↦ let side = ltb_ℤ→le p.avg v below in rw below (omega axis_laws, omega axis_laws)
    ]

quotient_le : (n d : ℕ) → 0 < d → n ≤ d → n * 65535 / d ≤ 65535
quotient_le n d h le =
    omega (arith, div_mono (n * 65535) (d * 65535) d h (grind arith), mul-div_cancel_left 65535 h)

pub scale-stick : (n d : ℕ) → 0 < d → n ≤ d → scale (pos n) (pos d) ≡ some (stick n d)
unfolding ◌*ℤ◌ ◌/ℤ◌ ◌+ℤ◌ ◌-ℤ◌
scale-stick n d h le = ground (arith, quotient_le n d h le, to_short-eq_self (stick n d))

pub stick_full : (d : ℕ) → 0 < d → stick d d ≡ pos 32767
unfolding ◌-ℤ◌
stick_full d h = ground (arith, mul-div_cancel_left 65535 h)

pub stick_none : (d : ℕ) → 0 < d → stick 0 d ≡ negsuc 32767
unfolding ◌-ℤ◌
stick_none d h = ground arith

balanced :
    (p : AbsParms)
    → not_found p ≡ true
    → (pos_part p.max ≡ neg_part p.max) × (pos_part p.min ≡ neg_part p.min)
balanced p t = ground arith

pub not_found_lem : {p : AbsParms} → IsAxis p → not_found p ≡ false
not_found_lem {p} a = elim (Bool-cases (not_found p)) [
  | inr f ↦ f
  | inl t ↦ let both = balanced p t in absurd (omega axis_laws)
]

pub level_range :
    {p : AbsParms} (v : ℤ) → IsAxis p → within v p.avg p.flat ≡ false → level p v ≤ live p
level_range {p} v a out = elim (Bool-cases (ltb_ℤ p.max v)) [
  | inl above ↦ rw above (omega arith)
  | inr under ↦ elim (Bool-cases (ltb_ℤ v p.min)) [
    | inl below ↦ rw (under, below) (omega arith)
    | inr over ↦
        let r = numerator_range v a out (ltb_ℤ→le v p.min over) (ltb_ℤ→le p.max v under) in
        rw (under, over)
          (omega (arith, r.0, r.1, parts_disjoint (numerator p v), parts_disjoint (live_range p)))
  ]
]

-- Outside the dead zone the value is converted by its live steps.
pub convert-level :
    {p : AbsParms} (v : ℤ)
    → IsAxis p
    → within v p.avg p.flat ≡ false
    → evdev_convert_value p v false ≡ some (stick (level p v) (live p))
unfolding evdev_convert_value
convert-level {p} v a out = elim (Bool-cases (ltb_ℤ p.max v)) [
  | inl above ↦ rw (not_found_lem a, out, above, stick_full (live p) (live_range_pos a).1)
  | inr under ↦ elim (Bool-cases (ltb_ℤ v p.min)) [
    | inl below ↦ rw (not_found_lem a, out, under, below, stick_none (live p) (live_range_pos a).1)
    | inr over ↦
        let r = numerator_range v a out (ltb_ℤ→le v p.min over) (ltb_ℤ→le p.max v under) in
        let (range, some_range) = live_range_pos a in
        rw (not_found_lem a, out, under, over, nonneg_pos (numerator p v) r.0, range)
          (scale-stick (pos_part (numerator p v)) (live p) some_range
            (omega (arith, r.1, parts_disjoint (numerator p v), parts_disjoint (live_range p))))
  ]
]
