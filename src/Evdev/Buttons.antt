-- ===== src/Evdev/Buttons.antt =====
-- What the events of a gamepad do to its buttons in src/input/evdev.c.
use Prim.Native.Nat.{min, max}
use moonlight_allwinner_h.Prelude.{
  ℕ, ◌-◌, ◌^◌, ◌≤◌, ◌<◌, ◌≡◌, ◌≢◌, inl, inr, Bool, true, false, some, arith, Option-cases,
  Bool-cases, >>=-eq-some, some-injective, ltb, if◌then◌else◌,
}
use moonlight_allwinner_h.Prelude.Bits.{
  bit_or, clear_bits, test_bit, test_bit-bit_or, test_bit-clear_bits,
}
use moonlight_allwinner_h.Prelude.Int.{ℤ, negsuc, pos, ◌≤ℤ◌, ◌+ℤ◌, ◌*ℤ◌, to_short}
use moonlight_allwinner_h.Evdev.Host.{Linux, Limelight}
use moonlight_allwinner_h.Evdev.Device.{AbsParms, Device, InputEvent}
use moonlight_allwinner_h.Evdev.Output.{Input}
use moonlight_allwinner_h.Evdev.Axis.{
  evdev_convert_value, evdev_convert_value_byte, scale, divide, numerator, numerator_reverse,
  live_range, shrt_min, shrt_span,
}
use moonlight_allwinner_h.Evdev.Axis.Level.{to_short_bounds, half-le_127}
use moonlight_allwinner_h.Evdev.Keys.{
  is_down, handle_gamepad_button, toggle_emulation, emulate_button,
}
use moonlight_allwinner_h.Evdev.Abs.{byte_step, press}

toggle_keeps :
    (os : Linux) (li : Limelight) (w : Input)
    → (toggle_emulation os li w).dev.button_flags ≡ w.dev.button_flags
unfolding toggle_emulation
toggle_keeps os li w = ground arith

emulate_keeps :
    (os : Linux) (li : Limelight) (flag : ℕ) (e : InputEvent) (w : Input)
    → (emulate_button os li flag e w).dev.button_flags ≡ w.dev.button_flags
unfolding emulate_button
emulate_keeps os li flag e w = ground arith

gamepad_button_flags :
    (os : Linux) (li : Limelight) (flag : ℕ) (e : InputEvent) (w : Input)
    → (handle_gamepad_button os li flag e w).dev.button_flags
      ≡ (if is_down e then bit_or w.dev.button_flags flag else clear_bits w.dev.button_flags flag)
unfolding handle_gamepad_button
gamepad_button_flags os li flag e w =
    let down : Input = record w {
      dev = record (w.dev) {
        button_flags = bit_or w.dev.button_flags flag;
        btn_down_time = e.time;
      };
    } in
    let up : Input = record w {
      dev = record (w.dev) { button_flags = clear_bits w.dev.button_flags flag };
    } in
    ground (
      arith,
      toggle_keeps os li down,
      toggle_keeps os li up,
      emulate_keeps os li flag e down,
      emulate_keeps os li flag e up,
    )

-- Of the 32 button bits, a gamepad button that is pressed sets those of its flag, one that is
-- released clears them, and the others stay; so also while mouse emulation is on or toggled.
pub gamepad_button_bits :
    (os : Linux) (li : Limelight) (flag : ℕ) (e : InputEvent) (w : Input) (i : ℕ)
    → flag < 2 ^ 32
    → i < 32
    → test_bit (handle_gamepad_button os li flag e w).dev.button_flags i ≡ (
        if is_down e
        then max (test_bit w.dev.button_flags i) (test_bit flag i)
        else min (test_bit w.dev.button_flags i) (1 - test_bit flag i))
gamepad_button_bits os li flag e w i small lt = elim (Bool-cases (is_down e)) [
  | inl down ↦
      rw (gamepad_button_flags os li flag e w, down) (test_bit-bit_or w.dev.button_flags flag i)
  | inr up ↦
      rw (gamepad_button_flags os li flag e w, up)
        (test_bit-clear_bits w.dev.button_flags flag i small lt)
]

scale_bounds : (n d r : ℤ) → scale n d ≡ some r → (negsuc 32767 ≤ℤ r) × (r ≤ℤ pos 32767)
scale_bounds n d r h =
    let (q, _, cast) =
      >>=-eq-some (divide (n *ℤ shrt_span) d) (λ q. some (to_short (q +ℤ shrt_min))) h in
    rw (← some-injective cast) (to_short_bounds (q +ℤ shrt_min))

value_bounds :
    (p : AbsParms) (v r : ℤ) (b : Bool)
    → evdev_convert_value p v b ≡ some r
    → (negsuc 32767 ≤ℤ r) × (r ≤ℤ pos 32767)
unfolding evdev_convert_value
value_bounds p v r b h = ground (
  arith,
  scale_bounds (numerator p v) (live_range p) r,
  scale_bounds (numerator_reverse p v) (live_range p) r,
)

half_axis-le_127 :
    (p : AbsParms) (v : ℤ) (h b : ℕ) → h ≢ 0 → evdev_convert_value_byte p v h ≡ some b → b ≤ 127
unfolding evdev_convert_value_byte
half_axis-le_127 p v h b ne e = elim (Option-cases (evdev_convert_value p v false)) [
  | inl fault ↦ ground arith
  | inr (val, plain) ↦
      let bounds = value_bounds p v val false plain in
      ground (arith, half-le_127 h val bounds.0 bounds.1)
]

-- A direction of the D-pad that is mapped to half an axis is never pressed: whatever the axis, its
-- value and the half, an event on it that does not fault clears the direction's flag.
pub half_axis_never_presses :
    (p : AbsParms) (h flag : ℕ) (e : InputEvent) (modified : Bool) (d : Device) (r : Bool × Device)
    → h ≢ 0
    → byte_step true p h e (press flag) (modified, d) ≡ some r
    → r.1.button_flags ≡ clear_bits d.button_flags flag
unfolding byte_step
half_axis_never_presses p h flag e modified d r ne step =
    let (b, byte, done) =
      >>=-eq-some (evdev_convert_value_byte p e.value h) (λ b. some (true, press flag b d)) step in
    let small = half_axis-le_127 p e.value h b ne byte in
    let low : ltb 127 b ≡ false = ground arith in rw (← some-injective done, low)
