-- ===== src/Evdev/Safety/Frame.antt =====
-- What the handlers of src/input/evdev.c leave alone in a device: its mapping, its tables and its axes.
use moonlight_allwinner_h.Prelude.{
  ℕ, ◌≡◌, refl, ap, ◌∙◌, Bool, true, false, not, List, Option, arith, ◌==◌, ◌&&◌, if◌then◌else◌,
}
use moonlight_allwinner_h.Prelude.Int.{ℤ, pos, eqb_ℤ, ltb_ℤ}
use moonlight_allwinner_h.Prelude.Bits.{bit_or, clear_bits}
use moonlight_allwinner_h.Evdev.Host.{Linux, Limelight}
use moonlight_allwinner_h.Evdev.Device.{Mapping, AbsParms, Device, InputEvent}
use moonlight_allwinner_h.Evdev.Output.{Input}
use moonlight_allwinner_h.Evdev.Keys.{
  handle_touch, toggle_emulation, emulate_button, handle_gamepad_button, is_click, is_down, hold_ms,
}
use moonlight_allwinner_h.Evdev.Abs.{handle_touch_axis}
use moonlight_allwinner_h.Evdev.Event.{handle_rel}
use moonlight_allwinner_h.Evdev.Safety.Handler.{IsSound}

-- All of a device that its soundness is about.
pub record Frame : Type 0 where
  pub map : Option Mapping
  pub keys : List ℤ
  pub axes : List ℤ
  pub hats : List (ℤ × ℤ)
  pub x : AbsParms
  pub y : AbsParms
  pub rx : AbsParms
  pub ry : AbsParms
  pub z : AbsParms
  pub rz : AbsParms
  pub left : AbsParms
  pub right : AbsParms
  pub up : AbsParms
  pub down : AbsParms
  pub modified : Bool

abbrev pub frame : Device → Frame
frame d = record {
  map = d.map;
  keys = d.key_map;
  axes = d.abs_map;
  hats = d.hats_state;
  x = d.x_parms;
  y = d.y_parms;
  rx = d.rx_parms;
  ry = d.ry_parms;
  z = d.z_parms;
  rz = d.rz_parms;
  left = d.left_parms;
  right = d.right_parms;
  up = d.up_parms;
  down = d.down_parms;
  modified = d.gamepad_modified;
}

pub frame-IsSound :
    (os : Linux) (d new : Device) → frame new ≡ frame d → IsSound os d → IsSound os new
frame-IsSound os d new f s = record {
  keys = rw (ap (λ p. p.keys) f) s.keys;
  axes = rw (ap (λ p. p.axes) f) s.axes;
  hats = rw (ap (λ p. p.hats) f) s.hats;
  directions = rw (ap (λ p. p.hats) f) s.directions;
  divisible = record {
    x = rw (ap (λ p. p.x) f) s.divisible.x;
    y = rw (ap (λ p. p.y) f) s.divisible.y;
    rx = rw (ap (λ p. p.rx) f) s.divisible.rx;
    ry = rw (ap (λ p. p.ry) f) s.divisible.ry;
    z = rw (ap (λ p. p.z) f) s.divisible.z;
    rz = rw (ap (λ p. p.rz) f) s.divisible.rz;
    left = rw (ap (λ p. p.left) f) s.divisible.left;
    right = rw (ap (λ p. p.right) f) s.divisible.right;
    up = rw (ap (λ p. p.up) f) s.divisible.up;
    down = rw (ap (λ p. p.down) f) s.divisible.down;
  };
  unmapped = rw (ap (λ p. p.map) f, ap (λ p. p.modified) f) s.unmapped;
}

-- A part of both branches.
pub if_same :
    {A B : Type 0} (f : A → B) (b : Bool) (x y : A) {v : B}
    → f x ≡ v
    → f y ≡ v
    → f (if b then x else y) ≡ v
if_same f true x y hx hy = hx
if_same f false x y hx hy = hy

-- What a handler keeps of the device.
abbrev pub kept : Input → Frame
kept w = frame w.dev

module _ (os : Linux) (li : Limelight) where
  pub touch_kept : (e : InputEvent) (w : Input) → kept (handle_touch os li e w) ≡ kept w
  unfolding handle_touch
  touch_kept e w = if_same kept (eqb_ℤ e.value (pos 1)) _ _ refl (
      if_same
        (λ (v : Input).
          kept (record v { dev = record (v.dev) { touch_down_x = pos 0; touch_down_y = pos 0 } }))
        (is_click os li w.dev) _ w refl refl)

  toggle_kept : (w : Input) → kept (toggle_emulation os li w) ≡ kept w
  unfolding toggle_emulation
  toggle_kept w = if_same kept w.dev.mouse_emulation _ _ refl refl

  emulate_kept :
      (flag : ℕ) (e : InputEvent) (w : Input) → kept (emulate_button os li flag e w) ≡ kept w
  unfolding emulate_button
  emulate_kept flag e w = ground arith

  -- Whatever the button has done so far.
  after_press_kept :
      (a b : Bool) (flag : ℕ) (e : InputEvent) (v : Input) {k : Frame}
      → kept v ≡ k
      → kept (
          if a
          then (if b then v else toggle_emulation os li v)
          else if v.dev.mouse_emulation
          then emulate_button os li flag e v
          else v)
        ≡ k
  after_press_kept a b flag e v h =
      if_same kept a _ _ (if_same kept b v _ h (toggle_kept v ∙ h))
        (if_same kept v.dev.mouse_emulation _ v (emulate_kept flag e v ∙ h) h)

  -- The two states of a gamepad button.
  abbrev pressed : ℕ → InputEvent → Input → Input
  pressed flag e w = record w {
    dev = record (w.dev) { button_flags = bit_or w.dev.button_flags flag; btn_down_time = e.time };
  }

  abbrev released : ℕ → Input → Input
  released flag w = record w {
    dev = record (w.dev) { button_flags = clear_bits w.dev.button_flags flag };
  }

  pub gamepad_kept :
      (flag : ℕ) (e : InputEvent) (w : Input) → kept (handle_gamepad_button os li flag e w) ≡ kept w
  unfolding handle_gamepad_button
  gamepad_kept flag e w =
      let now : Input = if is_down e then pressed flag e w else released flag w in
      after_press_kept (w.emulation_enabled && flag == li.play_flag && not (is_down e))
        (ltb_ℤ (hold_ms (os.timersub e.time now.dev.btn_down_time)) (pos 750)) flag e now
        (if_same kept (is_down e) (pressed flag e w) (released flag w) refl refl)

  pub touch_axis_kept :
      (e : InputEvent) (d : Device) → frame (handle_touch_axis os li e d) ≡ frame d
  unfolding handle_touch_axis
  touch_axis_kept e d =
      if_same frame (e.code == os.abs_x) _ _ (if_same frame _ _ _ refl refl)
        (if_same frame (e.code == os.abs_y) _ _ (if_same frame _ _ _ refl refl) refl)

  pub rel_kept : (e : InputEvent) (w : Input) → kept (handle_rel os li e w) ≡ kept w
  unfolding handle_rel
  rel_kept e w = if_same kept (e.code == os.rel_x) _ _ refl (
      if_same kept (e.code == os.rel_y) _ _ refl (
        if_same kept (e.code == os.rel_hwheel) _ _ refl
          (if_same kept (e.code == os.rel_wheel) _ _ refl refl)))
