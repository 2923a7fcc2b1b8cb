-- ===== src/Sdl/Request.antt =====
-- The requests of the host for a controller of src/input/sdl.c: rumble, sensors and light.
use moonlight_allwinner_h.Prelude.{ℕ, not, Option, none, some, leb, ◌==◌, if◌then◌else◌, get_elem?}
use moonlight_allwinner_h.Evdev.Host.{Limelight}
use moonlight_allwinner_h.Sdl.Host.{Numbers}
use moonlight_allwinner_h.Sdl.Pads.{
  Gamepad, Pads, rumble, rumble_triggers, set_sensor, set_led, send,
}

module _ {F : Type 0} where
  -- `none` is a read past the end of the table.
  abbrev pub act_on : (Gamepad → Pads F → Pads F) → ℕ → Pads F → Option (Pads F)
  act_on act id s = elim (get_elem? s.gamepads id) [
    | none ↦ none
    | some g ↦ some (if g.initialized then act g s else s)
  ]

module _ {F : Type 0} (li : Limelight) (num : Numbers) where
  unfoldable pub sdlinput_rumble : ℕ → ℕ → ℕ → Pads F → Option (Pads F)
  sdlinput_rumble id low high s =
      if leb 16 id then some s else act_on (λ g. send (rumble g.controller low high 30000)) id s

  unfoldable pub sdlinput_rumble_triggers : ℕ → ℕ → ℕ → Pads F → Option (Pads F)
  sdlinput_rumble_triggers id left right s =
      act_on (λ g. send (rumble_triggers g.controller left right 30000)) id s

  -- The `switch` on the kind of motion
  unfoldable pub set_motion : ℕ → ℕ → Gamepad → Pads F → Pads F
  set_motion kind rate g s =
      if kind == li.li_motion_type_accel
      then send (set_sensor g.controller num.sensor_accel (not (rate == 0))) s
      else if kind == li.li_motion_type_gyro
      then send (set_sensor g.controller num.sensor_gyro (not (rate == 0))) s
      else s

  unfoldable pub sdlinput_set_motion_event_state : ℕ → ℕ → ℕ → Pads F → Option (Pads F)
  sdlinput_set_motion_event_state id kind rate s = act_on (set_motion kind rate) id s

  unfoldable pub sdlinput_set_controller_led : ℕ → ℕ → ℕ → ℕ → Pads F → Option (Pads F)
  sdlinput_set_controller_led id r g b s = act_on (λ pad. send (set_led pad.controller r g b)) id s
