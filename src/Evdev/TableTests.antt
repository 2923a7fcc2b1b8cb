-- ===== src/Evdev/TableTests.antt =====
-- Runs of `evdev_rumble` and `evdev_remove` of src/input/evdev.c on small tables of gamepads.
use moonlight_allwinner_h.Prelude.{
  false, ◌+◌, ◌<◌, ◌≡◌, refl, Bool, [], ◌∷◌, some, arith, if◌then◌else◌, List, ℕ,
}
use moonlight_allwinner_h.Prelude.Bits.{test_bit}
use moonlight_allwinner_h.Prelude.Int.{pos, eqb_ℤ}
use moonlight_allwinner_h.Evdev.Device.{Device}
use moonlight_allwinner_h.Evdev.Sample.{hat_mapping, device}
use moonlight_allwinner_h.Evdev.Rumble.{Kernel, store, play, Gamepad, evdev_rumble}
use moonlight_allwinner_h.Evdev.Rumble.Effects.{AllRemember, rumble-AllRemember}
use moonlight_allwinner_h.Evdev.Remove.{Devices, evdev_remove, remove_one}
use moonlight_allwinner_h.Prelude.Removal.{count}

-- a gamepad, its controller's number 0, that plays the effect 3
abbrev rumbling : List Gamepad
rumbling =
    (
      record (device (some hat_mapping) 0 (pos 0)) { haptic_effect_id = pos 3 },
      play (pos 3) ∷ store (pos 3) 10 20 ∷ [],
    )
    ∷ []

-- a kernel that takes no effect out and stores the next one as 4
abbrev stubborn : Kernel
stubborn = record { remove = λ calls. false; upload = λ calls. some 4 }

rumble-AllRemember_example : AllRemember (evdev_rumble stubborn 0 30 0 rumbling)
rumble-AllRemember_example = rumble-AllRemember stubborn 0 30 0 rumbling (refl, tt)

-- two gamepads, of the numbers 0 and 1, of which the first is pulled out
abbrev first_pad : Device
first_pad = device (some hat_mapping) 0 (pos 0)

abbrev two_pads : Devices
two_pads = record {
  devices = first_pad ∷ record first_pad { controller_id = pos 1 } ∷ [];
  assigned = 3;
  calls = [];
}

remove_one_example :
    (t : Devices) × (evdev_remove 0 two_pads ≡ some t)
    × ((q : Device → Bool)
        → count q t.devices + (if q first_pad then 1 else 0) ≡ count q two_pads.devices)
    × ((k : ℕ)
        → k < 32
        → test_bit t.assigned k
          ≡ (if eqb_ℤ first_pad.controller_id (pos k) then 0 else test_bit 3 k))
remove_one_example = remove_one 0 first_pad two_pads refl (omega arith)
