-- ===== src/Evdev/Axis/Order.antt =====
-- Order, ends and mirror image of the axis conversions of src/input/evdev.c.
use native.Mathlib.Nat.{div-mul-le_self, div-add-mod, mod-lt, mul_comm}
use moonlight_allwinner_h.Prelude.{
  ℕ, Bool-cases, inl, inr, ◌+◌, ◌-◌, ◌*◌, ◌/◌, ◌≤◌, ◌<◌, ◌≡◌, true, false, some, arith,
}
use moonlight_allwinner_h.Prelude.Int.{
  ℤ, pos, negsuc, ◌+ℤ◌, ◌-ℤ◌, ◌≤ℤ◌, int_laws, pos_part, ltb_ℤ, eq_of_parts,
}
use moonlight_allwinner_h.Evdev.Device.{AbsParms}
use moonlight_allwinner_h.Evdev.Axis.{
  within, live_range, numerator, numerator_reverse, evdev_convert_value,
}
use moonlight_allwinner_h.Evdev.Axis.Level.{
  IsAxis, live, level, stick, div_mono, live_range_pos, outside, ltb_ℤ→lt, ltb_ℤ→le,
  numerator_range, stick_full, stick_none, level_range, convert-level, scale-stick, not_found_lem,
  axis_laws,
}

numerator_mono :
    {p : AbsParms} (v w : ℤ)
    → IsAxis p
    → within v p.avg p.flat ≡ false
    → within w p.avg p.flat ≡ false
    → v ≤ℤ w
    → numerator p v ≤ℤ numerator p w
numerator_mono {p} v w a outv outw le =
    let farv = outside v p.avg p.flat outv in
    let farw = outside w p.avg p.flat outw in
    elim (Bool-cases (ltb_ℤ p.avg v)) [
      | inl vup ↦ elim (Bool-cases (ltb_ℤ p.avg w)) [
        | inl wup ↦ rw (vup, wup) (omega axis_laws)
        | inr wdown ↦
            let v' = ltb_ℤ→lt p.avg v vup in
            let w' = ltb_ℤ→le p.avg w wdown in absurd (omega axis_laws)
      ]
      | inr vdown ↦
          let v' = ltb_ℤ→le p.avg v vdown in
          elim (Bool-cases (ltb_ℤ p.avg w)) [
            | inl wup ↦ let w' = ltb_ℤ→lt p.avg w wup in rw (vdown, wup) (omega axis_laws)
            | inr wdown ↦ rw (vdown, wdown) (omega axis_laws)
          ]
    ]

pos_part_mono : (a b : ℤ) → a ≤ℤ b → pos_part a ≤ pos_part b
pos_part_mono a b h = ground arith

level_mono :
    {p : AbsParms} (v w : ℤ)
    → IsAxis p
    → within v p.avg p.flat ≡ false
    → within w p.avg p.flat ≡ false
    → v ≤ℤ w
    → level p v ≤ level p w
level_mono {p} v w a outv outw le = ground (
  arith,
  level_range v a outv,
  pos_part_mono (numerator p v) (numerator p w) (numerator_mono v w a outv outw le),
)

stick_mono : (m n d : ℕ) → 0 < d → m ≤ n → stick m d ≤ℤ stick n d
stick_mono m n d h le = omega (int_laws, div_mono (m * 65535) (n * 65535) d h (grind arith))

-- For an axis whose dead zone is less than half as wide as the axis: of two axis values outside the
-- dead zone, in range or not, the greater one never gives a smaller stick value.
pub convert_mono :
    {p : AbsParms} (v w r s : ℤ)
    → IsAxis p
    → within v p.avg p.flat ≡ false
    → within w p.avg p.flat ≡ false
    → v ≤ℤ w
    → evdev_convert_value p v false ≡ some r
    → evdev_convert_value p w false ≡ some s
    → r ≤ℤ s
convert_mono {p} v w r s a outv outw le er es =
    let r' : r ≡ stick (level p v) (live p) = cc (er, convert-level v a outv) in
    let s' : s ≡ stick (level p w) (live p) = cc (es, convert-level w a outw) in
    rw (r', s')
      (stick_mono (level p v) (level p w) (live p) (live_range_pos a).1
        (level_mono v w a outv outw le))

-- Reversed, the numerator counts from the other end.
reverse_sum :
    {p : AbsParms} (v : ℤ)
    → IsAxis p
    → within v p.avg p.flat ≡ false
    → numerator_reverse p v ≡ live_range p -ℤ numerator p v
reverse_sum {p} v a out =
    let far = outside v p.avg p.flat out in
    elim (Bool-cases (ltb_ℤ p.avg v)) [
      | inl up ↦
          let up' = ltb_ℤ→lt p.avg v up in
          let notdown : ltb_ℤ v p.avg ≡ false = ground arith in
          rw (up, notdown) (eq_of_parts _ _ (omega axis_laws))
      | inr down ↦
          let down' = ltb_ℤ→le p.avg v down in
          elim (Bool-cases (ltb_ℤ v p.avg)) [
            | inl below ↦ rw (down, below) (eq_of_parts _ _ (omega axis_laws))
            | inr at ↦
                let at' = ltb_ℤ→le v p.avg at in rw (down, at) (eq_of_parts _ _ (omega axis_laws))
          ]
    ]

-- Of two parts of 65535 that make it up, rounded down, one step may be lost.
cancel_le : (a b d : ℕ) → 0 < d → a * d ≤ b * d → a ≤ b
cancel_le a b d h le = grind arith

cancel_lt : (a b d : ℕ) → a * d < b * d → a < b
cancel_lt a b d lt = grind arith

sub-zero : (n : ℕ) → n - 0 ≡ n
sub-zero n = omega arith

sub_self : (n : ℕ) → n - n ≡ 0
sub_self n = omega arith

quotient_sum :
    (n d : ℕ)
    → 0 < d
    → n ≤ d
    → (n * 65535 / d + (d - n) * 65535 / d ≤ 65535) × (65534 ≤ n * 65535 / d + (d - n) * 65535 / d)
quotient_sum n d h le =
    let x = n * 65535 in
    let y = (d - n) * 65535 in
    let whole : x + y ≡ 65535 * d = omega arith in
    let parts : (x / d + y / d) * d ≡ x / d * d + y / d * d = omega arith in
    (
      cancel_le (x / d + y / d) 65535 d h (omega (arith, div-mul-le_self x d, div-mul-le_self y d)),
      omega (
        arith,
        cancel_lt 65535 (x / d + y / d + 2) d (
            omega (
              arith,
              div-add-mod x d,
              div-add-mod y d,
              mod-lt x h,
              mod-lt y h,
              mul_comm d (x / d),
              mul_comm d (y / d),
            )),
      ),
    )

-- Reversed, the level counts from the other end.
convert_reverse-level :
    {p : AbsParms} (v : ℤ)
    → IsAxis p
    → within v p.avg p.flat ≡ false
    → evdev_convert_value p v true ≡ some (stick (live p - level p v) (live p))
unfolding evdev_convert_value
convert_reverse-level {p} v a out = elim (Bool-cases (ltb_ℤ p.max v)) [
  | inl above ↦
      rw (not_found_lem a, out, above, sub_self (live p), stick_none (live p) (live_range_pos a).1)
  | inr under ↦ elim (Bool-cases (ltb_ℤ v p.min)) [
    | inl below ↦ rw (
      not_found_lem a,
      out,
      under,
      below,
      sub-zero (live p),
      stick_full (live p) (live_range_pos a).1,
    )
    | inr over ↦
        let r = numerator_range v a out (ltb_ℤ→le v p.min over) (ltb_ℤ→le p.max v under) in
        let (range, some_range) = live_range_pos a in
        let rev : numerator_reverse p v ≡ pos (live p - pos_part (numerator p v)) =
          rw (reverse_sum v a out) (eq_of_parts _ _ (omega axis_laws)) in
        rw (not_found_lem a, out, under, over, rev, range)
          (scale-stick (live p - pos_part (numerator p v)) (live p) some_range (omega arith))
  ]
]

-- Reversed, for an axis whose dead zone is less than half as wide as the axis: outside the dead zone
-- the reversed stick value is the mirror image of the plain one, that is -1 minus it or one less.
pub convert_mirror :
    {p : AbsParms} (v r s : ℤ)
    → IsAxis p
    → within v p.avg p.flat ≡ false
    → evdev_convert_value p v false ≡ some r
    → evdev_convert_value p v true ≡ some s
    → (r +ℤ s ≤ℤ negsuc 0) × (negsuc 1 ≤ℤ r +ℤ s)
convert_mirror {p} v r s a out er es =
    let r' : r ≡ stick (level p v) (live p) = cc (er, convert-level v a out) in
    let s' : s ≡ stick (live p - level p v) (live p) = cc (es, convert_reverse-level v a out) in
    rw (r', s')
      (omega
        (int_laws, quotient_sum (level p v) (live p) (live_range_pos a).1 (level_range v a out)))
