-- ===== src/Evdev/Safety.antt =====
-- When the handlers of src/input/evdev.c read and write inside their arrays, divide by no zero and
-- follow no NULL mapping.
pub mod Handler
pub mod Frame
pub mod Keeps
pub mod Axes
pub mod Turn
pub mod Sequence
pub mod Reading
use moonlight_allwinner_h.Prelude.{
  ℕ, zero, suc, ◌-◌, ◌/◌, ◌≤◌, ◌<◌, ◌≡◌, ◌≢◌, refl, ◌⊎◌, inl, inr, Bool, true, false, not, List, [],
  ◌∷◌, Option, none, some, arith, Option-cases, Bool-cases, >>=-eq-some, some-injective, ltb, ◌==◌,
  if◌then◌else◌, length, get_elem?, get_elem?-some, ◌>>=◌,
}
use moonlight_allwinner_h.Prelude.Int.{
  ℤ, negsuc, pos, ◌≤ℤ◌, ◌+ℤ◌, ◌-ℤ◌, ◌*ℤ◌, ◌/ℤ◌, eqb_ℤ, to_short,
}
use moonlight_allwinner_h.Evdev.Host.{Linux, Limelight}
use moonlight_allwinner_h.Evdev.Device.{
  Mapping, AbsParms, Device, InputEvent, EventType, ev_syn, ev_key, ev_rel, ev_abs, ev_other,
}
use moonlight_allwinner_h.Evdev.Output.{Input}
use moonlight_allwinner_h.Evdev.Axis.{
  evdev_convert_value, evdev_convert_value_byte, not_found, live_range, divide, scale, numerator,
  numerator_reverse, shrt_span, shrt_min, uchar_max,
}
use moonlight_allwinner_h.Evdev.Keys.{Flow, handle_key, handle_keyboard, handle_button, key_codes}
use moonlight_allwinner_h.Evdev.Abs.{
  byte_step, press, put, is_hat, hat_index, hat_dir_index, hat_constant, direction, turn,
  handle_hat, handle_stick, handle_axis, handle_mapped, handle_abs,
}
use moonlight_allwinner_h.Evdev.Event.{
  evdev_handle_event, dispatch, handle_syn, finish_event, arrive, assign_controller,
  send_controller_arrival, send_gamepad, send_motion, send_v_scroll, send_h_scroll,
}

pub bind_runs {ℓ κ} :
    {A : Type ℓ} {B : Type κ} (o : Option A) (f : A → Option B)
    → o ≢ none
    → ((a : A) → o ≡ some a → f a ≢ none)
    → (o >>= f) ≢ none
bind_runs none f h k = absurd (h refl)
bind_runs (some a) f h k = k a refl

pub some_runs {ℓ} : {A : Type ℓ} (a : A) → some a ≢ none
some_runs a h = cc

-- Neither conversion divides by zero.
abbrev pub IsDivisible : AbsParms → Type 0
IsDivisible p =
    (not_found p ≡ true)
    ⊎ ((eqb_ℤ (live_range p) (pos 0) ≡ false) × (eqb_ℤ (p.diff -ℤ p.flat) (pos 0) ≡ false))

divide_runs : (a b : ℤ) → eqb_ℤ b (pos 0) ≡ false → divide a b ≢ none
divide_runs a b h = rw h (some_runs (a /ℤ b))

scale_runs : (n d : ℤ) → eqb_ℤ d (pos 0) ≡ false → scale n d ≢ none
scale_runs n d h =
    bind_runs (divide (n *ℤ shrt_span) d) (λ q. some (to_short (q +ℤ shrt_min)))
      (divide_runs (n *ℤ shrt_span) d h) (λ q e. some_runs (to_short (q +ℤ shrt_min)))

value_runs : (p : AbsParms) (v : ℤ) (b : Bool) → IsDivisible p → evdev_convert_value p v b ≢ none
unfolding evdev_convert_value
value_runs p v b (inl absent) = rw absent (some_runs (pos 0))
value_runs p v b (inr (live, near)) = ground (
  arith,
  scale_runs (numerator p v) (live_range p) live,
  scale_runs (numerator_reverse p v) (live_range p) live,
)

byte_runs : (p : AbsParms) (v : ℤ) (h : ℕ) → IsDivisible p → evdev_convert_value_byte p v h ≢ none
unfolding evdev_convert_value_byte
byte_runs p v h (inl absent) = rw absent (some_runs {A = ℕ} 0)
byte_runs p v h (inr (live, near)) = ground (
  arith,
  value_runs p v false (inr (live, near)),
  divide_runs ((v -ℤ p.flat -ℤ p.min) *ℤ uchar_max) (p.diff -ℤ p.flat) near,
)

put_runs {ℓ} : {A : Type ℓ} (o : Option A) (f : A → Device) → o ≢ none → put o f ≢ none
put_runs o f h = bind_runs o (λ v. some (true, f v)) h (λ a e. some_runs (true, f a))

byte_step_runs :
    (here : Bool) (p : AbsParms) (h : ℕ) (e : InputEvent) (f : ℕ → Device → Device)
    (s : Bool × Device)
    → IsDivisible p
    → byte_step here p h e f s ≢ none
unfolding byte_step
byte_step_runs true p h e f (modified, d) ok = put_runs _ _ (byte_runs p e.value h ok)
byte_step_runs false p h e f (modified, d) ok = some_runs (modified, d)

-- Every axis of a device can be converted.
pub record AxesDivisible (d : Device) : Type 0 where
  pub x : IsDivisible d.x_parms
  pub y : IsDivisible d.y_parms
  pub rx : IsDivisible d.rx_parms
  pub ry : IsDivisible d.ry_parms
  pub z : IsDivisible d.z_parms
  pub rz : IsDivisible d.rz_parms
  pub left : IsDivisible d.left_parms
  pub right : IsDivisible d.right_parms
  pub up : IsDivisible d.up_parms
  pub down : IsDivisible d.down_parms

stick_runs :
    (m : Mapping) (index : ℤ) (e : InputEvent) (d : Device)
    → AxesDivisible d
    → handle_stick m index e d ≢ none
unfolding handle_stick
stick_runs m index e d ok = ground (
  arith,
  value_runs d.x_parms e.value m.reverse_leftx ok.x,
  value_runs d.y_parms e.value (not m.reverse_lefty) ok.y,
  value_runs d.rx_parms e.value m.reverse_rightx ok.rx,
  value_runs d.ry_parms e.value (not m.reverse_righty) ok.ry,
)

pub axis_runs :
    (li : Limelight) (m : Mapping) (index : ℤ) (e : InputEvent) (d : Device)
    → AxesDivisible d
    → handle_axis li m index e d ≢ none
unfolding handle_axis
axis_runs li m index e d ok = bind_runs _ _ (stick_runs m index e d ok) λ s _.
    bind_runs _ _ (byte_step_runs _ _ _ e _ s ok.z) λ s _.
      bind_runs _ _ (byte_step_runs _ _ _ e _ s ok.rz) λ s _.
        bind_runs _ _ (byte_step_runs _ _ _ e _ s ok.right) λ s _.
          bind_runs _ _ (byte_step_runs _ _ _ e _ s ok.left) λ s _.
            bind_runs _ _ (byte_step_runs _ _ _ e _ s ok.up)
              λ s _. byte_step_runs _ _ _ e _ s ok.down

-- Every hat points nowhere or in a direction.
abbrev pub IsDirection : ℤ → Type 0
IsDirection d = (d ≡ negsuc 0) ⊎ (d ≡ pos 0) ⊎ (d ≡ pos 1)

abbrev pub AllDirections : List (ℤ × ℤ) → Type 0
AllDirections [] = Unit {0}
AllDirections ((x, y) ∷ rest) = IsDirection x × IsDirection y × AllDirections rest

pub direction-IsDirection : (v : ℤ) → IsDirection (direction v)
direction-IsDirection v = ground arith

pub directions_at :
    (hats : List (ℤ × ℤ)) (i : ℕ) (x y : ℤ)
    → AllDirections hats
    → get_elem? hats i ≡ some (x, y)
    → IsDirection x × IsDirection y
directions_at [] i x y all h = cc
directions_at ((x', y') ∷ rest) zero x y all h = ground arith
directions_at ((x', y') ∷ rest) (suc i) x y all h = directions_at rest i x y all.2 h

pub constant_runs : (x y : ℤ) → IsDirection x → IsDirection y → hat_constant (x, y) ≢ none
unfolding hat_constant
constant_runs x y hx hy = ground arith
