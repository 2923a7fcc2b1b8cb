-- ===== src/Sdl/Tests.antt =====
-- Runs of the model of src/input/sdl.c.
use moonlight_allwinner_h.Prelude.{
  ℕ, ◌+◌, ◌≤◌, ◌<◌, ◌≡◌, ◌↔◌, refl, false, [], ◌∷◌, some, arith, length,
}
use moonlight_allwinner_h.Prelude.Int.{pos, negsuc, ◌+ℤ◌, ◌≤ℤ◌}
use moonlight_allwinner_h.Prelude.Bits.{has_all}
use moonlight_allwinner_h.Evdev.Sample.{limelight}
use moonlight_allwinner_h.Sdl.Sample.{scancodes, numbers, calls, whole}
use moonlight_allwinner_h.Sdl.Vk.{vk_for_sdl_scancode}
use moonlight_allwinner_h.Sdl.Pads.{
  Pads, empty_gamepad, find_id, find_free, update, occupy, new_gamepad, clear_gamepads,
  send_controller_arrival, connect, add_gamepad, add_gamepads, sdlinput_init,
}
use moonlight_allwinner_h.Sdl.Event.{
  Event, key_event, axis_motion, device_added, device_removed, li_modifiers, key_action, flip_axis,
  trigger_byte, sdlinput_handle_event, handle_events,
}
use moonlight_allwinner_h.Sdl.Request.{
  sdlinput_rumble, sdlinput_rumble_triggers, sdlinput_set_motion_event_state,
  sdlinput_set_controller_led,
}
use moonlight_allwinner_h.Sdl.Slots.{is_known}
use moonlight_allwinner_h.Sdl.Sound.{IsSound, init-IsSound}
use moonlight_allwinner_h.Sdl.Session.{session-IsSound}
use moonlight_allwinner_h.Sdl.Quit.{Quits, quit-Quits}
use moonlight_allwinner_h.Sdl.Range.{flip_axis_range, trigger_byte_range, vk_bound, request_returns}
use moonlight_allwinner_h.Sdl.Refine.{event-refines, known_after}

abbrev start : Pads ℕ
start = record { gamepads = []; active_mask = 0; sdl_gamepads = pos 0; sent = [] }

abbrev ready : Pads ℕ
ready = sdlinput_init limelight numbers calls start

abbrev handle : Event ℕ → Pads ℕ → ℕ × Pads ℕ
handle = sdlinput_handle_event limelight scancodes numbers calls whole

-- Both controllers are there: two bits, two counted.
two_controllers : (ready.active_mask ≡ 3) × (ready.sdl_gamepads ≡ pos 2)
unfolding sdlinput_init add_gamepads clear_gamepads add_gamepad find_id find_free empty_gamepad
    connect new_gamepad occupy update send_controller_arrival ◌+ℤ◌
two_controllers = (refl, refl)

-- Q, released with Shift, Alt and Ctrl, ends the session.
quit_combination : (handle (key_event false 20 (1 + 64 + 256) 113) start).0 ≡ 1
unfolding sdlinput_handle_event key_action li_modifiers has_all
quit_combination = refl

session-IsSound_example : IsSound (
    handle_events limelight scancodes numbers calls whole
      (device_removed (pos 0) ∷ axis_motion (pos 1) 1 (negsuc 32767) ∷ device_added (pos 0) ∷ [])
      (sdlinput_init limelight numbers calls start))
session-IsSound_example =
    session-IsSound limelight scancodes numbers calls whole start
      (device_removed (pos 0) ∷ axis_motion (pos 1) 1 (negsuc 32767) ∷ device_added (pos 0) ∷ [])
      refl refl

quit-Quits_example :
    Quits limelight scancodes numbers calls whole
      (key_event false 20 (1 + 64 + 256) 113)
      start
      (handle (key_event false 20 (1 + 64 + 256) 113) start).1
quit-Quits_example =
    quit-Quits limelight scancodes numbers calls whole (key_event false 20 (1 + 64 + 256) 113) start
      (refl, refl, refl, refl) quit_combination

flip_axis_range_example :
    (negsuc 32766 ≤ℤ flip_axis (negsuc 32767))
    × (flip_axis (negsuc 32767) ≤ℤ pos 32767)
    × (flip_axis (pos 100) ≤ℤ flip_axis (negsuc 32767))
flip_axis_range_example = flip_axis_range (negsuc 32767) (pos 100) (omega arith) (omega arith)

abbrev full_axis : ℕ
full_axis = 32767

trigger_byte_range_example :
    (trigger_byte (pos 128) ≤ trigger_byte (pos full_axis))
    × (trigger_byte (pos full_axis) ≤ 255)
    × ((trigger_byte (pos full_axis) ≡ 255) ↔ (full_axis ≡ 32767))
trigger_byte_range_example = trigger_byte_range 128 full_axis (omega arith) (omega arith)

vk_bound_example : vk_for_sdl_scancode scancodes 4 ≤ 226
vk_bound_example =
    vk_bound scancodes (omega arith, omega arith, omega arith, omega arith, omega arith) 4

abbrev sixteen : Pads ℕ
sixteen = clear_gamepads start

sixteen_slots : length sixteen.gamepads ≡ 16
unfolding clear_gamepads
sixteen_slots = refl

request_returns_example :
    ((t : Pads ℕ) × (sdlinput_rumble limelight numbers 16 1 2 sixteen ≡ some t))
    × ((16 < 16)
        ↔ ((t : Pads ℕ) × (sdlinput_rumble_triggers limelight numbers 16 1 2 sixteen ≡ some t)))
    × ((16 < 16) ↔ (
        (t : Pads ℕ) × (sdlinput_set_motion_event_state limelight numbers 16 1 2 sixteen ≡ some t)))
    × ((16 < 16) ↔ (
        (t : Pads ℕ) × (sdlinput_set_controller_led limelight numbers 16 1 2 3 sixteen ≡ some t)))
request_returns_example = request_returns limelight numbers 16 1 2 3 sixteen sixteen_slots

slot_left : find_free ready.gamepads ≡ some 2
unfolding sdlinput_init add_gamepads clear_gamepads add_gamepad find_id find_free empty_gamepad
    connect new_gamepad occupy update send_controller_arrival
slot_left = refl

event-refines_example :
    is_known (pos 1) (handle (device_removed (pos 1)) ready).1.gamepads
    ≡ known_after limelight scancodes numbers calls whole
        (device_removed (pos 1))
        (λ id. is_known id ready.gamepads)
        (pos 1)
event-refines_example =
    event-refines limelight scancodes numbers calls whole (device_removed (pos 1)) ready (pos 1)
      (init-IsSound limelight numbers calls start refl refl) (2, slot_left)
