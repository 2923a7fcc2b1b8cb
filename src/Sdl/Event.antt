-- ===== src/Sdl/Event.antt =====
-- sdlinput_handle_event of src/input/sdl.c, and the requests of the host for a controller.
use moonlight_allwinner_h.Prelude.{
  ℕ, ◌+◌, ◌*◌, ◌/◌, ◌%◌, ◌-◌, ◌^◌, Bool, true, false, List, [], ◌∷◌, Option, none, some, ◌&&◌, not,
  ◌==◌, if◌then◌else◌, get_elem?,
}
use moonlight_allwinner_h.Prelude.Int.{ℤ, negsuc, neg_ℤ, pos_part, neg_part, ltb_ℤ}
use moonlight_allwinner_h.Prelude.Bits.{bit_and, bit_or, clear_bits, has_all}
use moonlight_allwinner_h.Evdev.Host.{Limelight}
use moonlight_allwinner_h.Sdl.Host.{Scancodes, Numbers, Calls, Floats}
use moonlight_allwinner_h.Sdl.Vk.{vk_for_sdl_scancode}
use moonlight_allwinner_h.Sdl.Pads.{
  Gamepad, Pads, mouse_move, mouse_position, h_scroll, scroll, mouse_button, keyboard, touch,
  multi_controller, controller_motion, controller_touch, send, find_id, update, remove_gamepad,
  add_gamepad, sdl_to_li_button_map,
}

pub data Phase : Type 0 where
  down motion up : Phase

-- The types of SDL_Event that the handler knows, with the fields that it reads.
pub data Event (F : Type 0) : Type 0 where
  -- relative and absolute position
  mouse_motion : ℤ → ℤ → ℤ → ℤ → Event F
  mouse_wheel : F → F → Event F
  -- whether it goes down; the button
  button_event : Bool → ℕ → Event F
  -- whether it goes down; scancode, modifiers, keycode
  key_event : Bool → ℕ → ℕ → ℕ → Event F
  -- finger, position, pressure
  finger_event : Phase → ℤ → F → F → F → Event F
  -- instance, axis, value
  axis_motion : ℤ → ℕ → ℤ → Event F
  -- whether it goes down; instance, button
  controller_button : Bool → ℤ → ℕ → Event F
  device_added device_removed : ℤ → Event F
  -- instance, sensor, values
  sensor_update : ℤ → ℕ → F → F → F → Event F
  -- instance, finger, position, pressure
  touchpad_event : Phase → ℤ → ℤ → F → F → F → Event F
  other_event : Event F

-- The answers of src/sdl.h.
abbrev pub sdl_nothing : ℕ
sdl_nothing = 0

abbrev pub sdl_quit_application : ℕ
sdl_quit_application = 1

abbrev pub sdl_mouse_grab : ℕ
sdl_mouse_grab = 2

abbrev pub sdl_mouse_ungrab : ℕ
sdl_mouse_ungrab = 3

abbrev pub sdl_toggle_fullscreen : ℕ
sdl_toggle_fullscreen = 4

-- `-SDL_max(value, (short)-32767)`
unfoldable pub flip_axis : ℤ → ℤ
flip_axis v = neg_ℤ (if ltb_ℤ (negsuc 32766) v then v else negsuc 32766)

-- `(unsigned char)(value * 255UL / 32767)`, with an unsigned long of 64 bits
unfoldable pub trigger_byte : ℤ → ℕ
trigger_byte v =
    let w = (pos_part v + (2 ^ 64 - neg_part v)) % 2 ^ 64 in w * 255 % 2 ^ 64 / 32767 % 2 ^ 8

module _ (li : Limelight) where
  abbrev pub action_modifiers : ℕ
  action_modifiers = bit_or (bit_or li.modifier_shift li.modifier_alt) li.modifier_ctrl

  abbrev pub quit_buttons : ℕ
  quit_buttons = bit_or (bit_or (bit_or li.play_flag li.back_flag) li.lb_flag) li.rb_flag

module _ (li : Limelight) (num : Numbers) (sdl : Calls) where
  unfoldable pub li_button : ℕ → ℕ
  li_button b =
      if b == num.mouse_left
      then li.button_left
      else if b == num.mouse_middle
      then li.button_middle
      else if b == num.mouse_right
      then li.button_right
      else if b == num.mouse_x1
      then li.button_x1
      else if b == num.mouse_x2
      then li.button_x2
      else 0

  abbrev add_modifier : ℕ → ℕ → ℕ → ℕ → ℕ
  add_modifier held kmod flag m = if bit_and held kmod == 0 then m else bit_or m flag

  unfoldable pub li_modifiers : ℕ → ℕ
  li_modifiers held = add_modifier held num.kmod_gui li.modifier_meta (
      add_modifier held num.kmod_shift li.modifier_shift (
        add_modifier held num.kmod_alt li.modifier_alt
          (add_modifier held num.kmod_ctrl li.modifier_ctrl 0)))

  -- The answer to a key event.
  unfoldable pub key_action : Bool → ℕ → ℕ → ℕ
  key_action pressed sym modifiers =
      let combo = has_all modifiers (action_modifiers li) in
      if combo && (sym == num.sdlk_q) && not pressed
      then sdl_quit_application
      else if combo && (sym == num.sdlk_f) && not pressed
      then sdl_toggle_fullscreen
      else if combo && (sym == num.sdlk_z) && not pressed
      then if sdl.relative_mouse_mode then sdl_mouse_ungrab else sdl_mouse_grab
      else sdl_nothing

  unfoldable pub touch_type : Phase → ℕ
  touch_type down = li.li_touch_event_down
  touch_type motion = li.li_touch_event_move
  touch_type up = li.li_touch_event_up

  -- The `switch` on the axis: `none` for an axis that the handler does not know.
  unfoldable pub move_axis : ℕ → ℤ → Option (Gamepad → Gamepad)
  move_axis axis v =
      if axis == num.axis_leftx
      then some (λ g. record g { left_stick_x = v })
      else if axis == num.axis_lefty
      then some (λ g. record g { left_stick_y = flip_axis v })
      else if axis == num.axis_rightx
      then some (λ g. record g { right_stick_x = v })
      else if axis == num.axis_righty
      then some (λ g. record g { right_stick_y = flip_axis v })
      else if axis == num.axis_triggerleft
      then some (λ g. record g { left_trigger = trigger_byte v })
      else if axis == num.axis_triggerright
      then some (λ g. record g { right_trigger = trigger_byte v })
      else none

  unfoldable pub press : Bool → ℕ → Gamepad → Gamepad
  press true flag g = record g { buttons = bit_or g.buttons flag }
  press false flag g = record g { buttons = clear_bits g.buttons flag }

abbrev pub Answer : Type 0 → Type 0
Answer F = ℕ × Pads F

module _ {F : Type 0} (li : Limelight) (sc : Scancodes) (num : Numbers) (sdl : Calls)
    (fl : Floats F) where
  -- `SDL_max(SDL_min(1.0f, x), 0.0f)`, with SDL's macros
  unfoldable pub clamp : F → F
  clamp x =
      let m = if fl.less fl.one_f x then fl.one_f else x in
      if fl.less fl.zero_f m then m else fl.zero_f

  -- LiSendMultiControllerEvent with the state of the gamepad at an index
  unfoldable pub send_state : ℕ → Pads F → Pads F
  send_state i s = elim (get_elem? s.gamepads i) [
    | none ↦ s
    | some g ↦
        send
          (multi_controller g.id s.active_mask g.buttons g.left_trigger g.right_trigger
            g.left_stick_x g.left_stick_y g.right_stick_x g.right_stick_y)
          s
  ]

  -- `(gamepad->buttons & QUIT_BUTTONS) == QUIT_BUTTONS`
  unfoldable pub wants_quit : ℕ → Pads F → Bool
  wants_quit i s = elim (get_elem? s.gamepads i) [
    | none ↦ false
    | some g ↦ has_all g.buttons (quit_buttons li)
  ]

  unfoldable pub axis_case : ℤ → ℕ → ℤ → Pads F → Answer F
  axis_case which axis v s = elim (find_id which s.gamepads) [
    | none ↦ (sdl_nothing, s)
    | some i ↦ elim (move_axis li num sdl axis v) [
      | none ↦ (sdl_nothing, s)
      | some f ↦ (sdl_nothing, send_state i (update f i s))
    ]
  ]

  unfoldable pub button_case : Bool → ℤ → ℕ → Pads F → Answer F
  button_case pressed which button s = elim (find_id which s.gamepads) [
    | none ↦ (sdl_nothing, s)
    | some i ↦ elim (get_elem? (sdl_to_li_button_map li num sdl) button) [
      | none ↦ (sdl_nothing, s)
      | some flag ↦
          let s = update (press li num sdl pressed flag) i s in
          if wants_quit i s then (sdl_quit_application, s) else (sdl_nothing, send_state i s)
    ]
  ]

  abbrev motion_of : ℤ → ℕ → F → F → F → Pads F → Pads F
  motion_of id sensor x y z s =
      if sensor == num.sensor_accel
      then send (controller_motion id li.li_motion_type_accel x y z) s
      else if sensor == num.sensor_gyro
      then send
          (controller_motion id li.li_motion_type_gyro (fl.times x fl.degrees)
            (fl.times y fl.degrees) (fl.times z fl.degrees))
          s
      else s

  -- What is sent about a gamepad that is known, with its number.
  unfoldable pub report : ℤ → (ℤ → Pads F → Pads F) → Pads F → Answer F
  report which act s = elim (find_id which s.gamepads) [
    | none ↦ (sdl_nothing, s)
    | some i ↦ elim (get_elem? s.gamepads i) [
      | none ↦ (sdl_nothing, s)
      | some g ↦ (sdl_nothing, act g.id s)
    ]
  ]

  unfoldable pub sdlinput_handle_event : Event F → Pads F → Answer F
  sdlinput_handle_event (mouse_motion dx dy x y) s = (
    sdl_nothing,
    send
        (if sdl.relative_mouse_mode
          then mouse_move dx dy
          else mouse_position x y sdl.window_width sdl.window_height)
        s,
  )
  sdlinput_handle_event (mouse_wheel x y) s = (
    sdl_nothing,
    send (scroll (fl.to_short_f (fl.times y fl.wheel_delta)))
        (send (h_scroll (fl.to_short_f (fl.times x fl.wheel_delta))) s),
  )
  sdlinput_handle_event (button_event pressed b) s =
      let button = li_button li num sdl b in
      (
        sdl_nothing,
        if button == 0
            then s
            else send
                (mouse_button (if pressed then li.button_action_press else li.button_action_release)
                  button)
                s,
      )
  sdlinput_handle_event (key_event pressed scancode held sym) s =
      let modifiers = li_modifiers li num sdl held in
      (
        key_action li num sdl pressed sym modifiers,
        send
            (keyboard (bit_or (128 * 2 ^ 8) (vk_for_sdl_scancode sc scancode))
              (if pressed then li.key_action_down else li.key_action_up) modifiers)
            s,
      )
  sdlinput_handle_event (finger_event phase id x y p) s = (
    sdl_nothing,
    send
        (touch (touch_type li num sdl phase) id (clamp x) (clamp y) p fl.zero_f fl.zero_f
          li.li_rot_unknown)
        s,
  )
  sdlinput_handle_event (axis_motion which axis v) s = axis_case which axis v s
  sdlinput_handle_event (controller_button pressed which button) s =
      button_case pressed which button s
  sdlinput_handle_event (device_added index) s = (sdl_nothing, add_gamepad li num sdl index s)
  sdlinput_handle_event (device_removed which) s = (sdl_nothing, remove_gamepad which s)
  sdlinput_handle_event (sensor_update which sensor x y z) s =
      report which (λ id. motion_of id sensor x y z) s
  sdlinput_handle_event (touchpad_event phase which finger x y p) s =
      report which (λ id. send (controller_touch id (touch_type li num sdl phase) finger x y p)) s
  sdlinput_handle_event other_event s = (sdl_nothing, s)

  -- The events that a loop hands over one after the other.
  unfoldable pub handle_events : List (Event F) → Pads F → Pads F
  handle_events [] s = s
  handle_events (e ∷ es) s = handle_events es (sdlinput_handle_event e s).1
