-- ===== src/Evdev/QuitTests.antt =====
-- A run of the model of src/input/evdev.c that ends with the quit combination of keys.
use moonlight_allwinner_h.Prelude.{◌≡◌, ◌⊎◌, refl, true, false, List, [], ◌∷◌, none, some}
use moonlight_allwinner_h.Prelude.Bits.{has_all, clear_bits, bit_or}
use moonlight_allwinner_h.Prelude.Int.{to_short, pos}
use moonlight_allwinner_h.Evdev.Device.{ev_key}
use moonlight_allwinner_h.Evdev.Output.{Input, keyboard}
use moonlight_allwinner_h.Evdev.Keys.{handle_key, handle_keyboard, next_modifiers, modifier_of}
use moonlight_allwinner_h.Evdev.Event.{dispatch, finish_event, evdev_handle_event}
use moonlight_allwinner_h.Evdev.Read.{Read, success, read_events}
use moonlight_allwinner_h.Evdev.Quit.{HoldsFour, Combined}
use moonlight_allwinner_h.Evdev.Quit.Session.{session-Quits}
use moonlight_allwinner_h.Evdev.Sample.{linux, limelight, input, event}

-- Q is pressed while Shift, Ctrl and Alt are held, then these are released.
abbrev quit_keys : List Read
quit_keys =
    success (event ev_key 16 (pos 1))
    ∷ success (event ev_key 42 (pos 0))
    ∷ success (event ev_key 56 (pos 0))
    ∷ success (event ev_key 29 (pos 0))
    ∷ []

abbrev all_released : Input
all_released = record (input none 0 (pos 0) true) {
  sent =
      keyboard (to_short (pos (bit_or 0x8000 0xA4))) limelight.key_action_up 2
      ∷ keyboard (to_short (pos (bit_or 0x8000 0xA0))) limelight.key_action_up 6
      ∷ [];
}

quit_run :
    read_events (evdev_handle_event linux limelight) quit_keys (input none 7 (pos 0) false)
    ≡ some (false, all_released)
unfolding read_events evdev_handle_event dispatch handle_key handle_keyboard next_modifiers
    finish_event has_all modifier_of clear_bits to_short
quit_run = refl

session-Quits_example :
    HoldsFour limelight all_released
    ⊎ ((all_released.dev.modifiers ≡ 0)
        × Combined linux limelight quit_keys (input none 7 (pos 0) false))
session-Quits_example =
    session-Quits linux limelight quit_keys (input none 7 (pos 0) false) all_released refl quit_run
