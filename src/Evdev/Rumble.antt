-- ===== src/Evdev/Rumble.antt =====
-- `evdev_rumble` and `evdev_get_input_device` of src/input/evdev.c: the effects that the kernel plays
-- on a gamepad.
use moonlight_allwinner_h.Prelude.{
  ℕ, Bool, List, [], ◌∷◌, Option, none, some, ◌==◌, ◌&&◌, if◌then◌else◌,
}
use moonlight_allwinner_h.Prelude.Int.{ℤ, pos, negsuc, ltb_ℤ, eqb_ℤ}
use moonlight_allwinner_h.Evdev.Device.{Device}
pub mod Effects

-- The calls on a device's descriptor: EVIOCRMFF with whether the kernel did it, an EVIOCSFF that stored
-- an effect under a number, with its strong and its weak magnitude, and the event that plays one.
pub data Call : Type 0 where
  erase : ℤ → Bool → Call
  store : ℤ → ℕ → ℕ → Call
  play : ℤ → Call

-- A device of the table, and the calls on its descriptor, newest first.
abbrev pub Gamepad : Type 0
Gamepad = Device × List Call

-- What the kernel answers after the calls so far: to EVIOCRMFF whether it took the effect out, to
-- EVIOCSFF the number of the effect, or -1.
pub record Kernel : Type 0 where
  pub remove : List Call → Bool
  pub upload : List Call → Option ℕ

module _ (kernel : Kernel) where
  -- an effect of before is taken out; the answer is not read
  unfoldable pub stop_effect : Gamepad → Gamepad
  stop_effect (d, calls) = if ltb_ℤ d.haptic_effect_id (pos 0) then (d, calls) else (
    record d { haptic_effect_id = negsuc 0 },
    erase d.haptic_effect_id (kernel.remove calls) ∷ calls,
  )

  -- the new effect
  unfoldable pub start_effect : ℕ → ℕ → Gamepad → Gamepad
  start_effect low high (d, calls) = elim (kernel.upload calls) [
    | none ↦ (d, calls)
    | some id ↦
        (record d { haptic_effect_id = pos id }, play (pos id) ∷ store (pos id) low high ∷ calls)
  ]

  -- after the device is found
  unfoldable pub rumble_on : ℕ → ℕ → Gamepad → Gamepad
  rumble_on low high g =
      let stopped = stop_effect g in
      if low == 0 && high == 0 then stopped else start_effect low high stopped

  -- the first device with the controller's number rumbles
  unfoldable pub evdev_rumble : ℕ → ℕ → ℕ → List Gamepad → List Gamepad
  evdev_rumble controller_id low high [] = []
  evdev_rumble controller_id low high (g ∷ rest) =
      let later = evdev_rumble controller_id low high rest in
      if eqb_ℤ g.0.controller_id (pos controller_id) then rumble_on low high g ∷ rest else g ∷ later
