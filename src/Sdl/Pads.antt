-- ===== src/Sdl/Pads.antt =====
-- The table of game controllers of src/input/sdl.c: gamepads, activeGamepadMask and sdl_gamepads.
use moonlight_allwinner_h.Prelude.{
  ℕ, zero, suc, ◌^◌, Bool, true, false, List, [], ◌∷◌, Option, none, some, ◌&&◌, ◌==◌,
  if◌then◌else◌, get_elem?, set, replicate,
}
use moonlight_allwinner_h.Prelude.Int.{ℤ, pos, ◌+ℤ◌, ◌-ℤ◌, eqb_ℤ, ltb_ℤ}
use moonlight_allwinner_h.Prelude.Bits.{bit_or, clear_bits}
use moonlight_allwinner_h.Evdev.Host.{Limelight}
use moonlight_allwinner_h.Sdl.Host.{Numbers, Calls}

-- GAMEPAD_STATE, from SDL 2.0.9 on
pub record Gamepad : Type 0 where
  pub left_trigger : ℕ
  pub right_trigger : ℕ
  pub left_stick_x : ℤ
  pub left_stick_y : ℤ
  pub right_stick_x : ℤ
  pub right_stick_y : ℤ
  pub buttons : ℕ
  pub sdl_id : ℤ
  pub controller : ℕ
  pub id : ℤ
  pub initialized : Bool

-- The calls of Limelight, and those of SDL that act on a controller.
pub data Message (F : Type 0) : Type 0 where
  mouse_move : ℤ → ℤ → Message F
  mouse_position : ℤ → ℤ → ℤ → ℤ → Message F
  h_scroll : ℤ → Message F
  scroll : ℤ → Message F
  mouse_button : ℕ → ℕ → Message F
  keyboard : ℕ → ℕ → ℕ → Message F
  -- event, finger, position, pressure, contact area, rotation
  touch : ℕ → ℤ → F → F → F → F → F → ℕ → Message F
  -- controller, mask, buttons, left and right trigger, left stick, right stick
  multi_controller : ℤ → ℕ → ℕ → ℕ → ℕ → ℤ → ℤ → ℤ → ℤ → Message F
  -- controller, mask, type, supported buttons, capabilities
  controller_arrival : ℤ → ℕ → ℕ → ℕ → ℕ → Message F
  controller_motion : ℤ → ℕ → F → F → F → Message F
  controller_touch : ℤ → ℕ → ℤ → F → F → F → Message F
  close : ℕ → Message F
  rumble : ℕ → ℕ → ℕ → ℕ → Message F
  rumble_triggers : ℕ → ℕ → ℕ → ℕ → Message F
  set_sensor : ℕ → ℕ → Bool → Message F
  set_led : ℕ → ℕ → ℕ → ℕ → Message F

-- The three globals, and what was sent, newest first.
pub record Pads (F : Type 0) : Type 0 where
  pub gamepads : List Gamepad
  pub active_mask : ℕ
  pub sdl_gamepads : ℤ
  pub sent : List (Message F)

unfoldable pub empty_gamepad : Gamepad
empty_gamepad = record {
  left_trigger = 0;
  right_trigger = 0;
  left_stick_x = pos 0;
  left_stick_y = pos 0;
  right_stick_x = pos 0;
  right_stick_y = pos 0;
  buttons = 0;
  sdl_id = pos 0;
  controller = 0;
  id = pos 0;
  initialized = false;
}

-- The first search of get_gamepad: the index of the first gamepad in use with this id.
unfoldable pub find_id : ℤ → List Gamepad → Option ℕ
find_id sdl_id [] = none
find_id sdl_id (g ∷ gs) =
    let rest = find_id sdl_id gs in
    if g.initialized && eqb_ℤ g.sdl_id sdl_id
    then some 0
    else elim rest [ none ↦ none | some i ↦ some (suc i) ]

-- The second search: the index of the first gamepad that is not in use.
unfoldable pub find_free : List Gamepad → Option ℕ
find_free [] = none
find_free (g ∷ gs) =
    let rest = find_free gs in
    if g.initialized then elim rest [ none ↦ none | some i ↦ some (suc i) ] else some 0

module _ {F : Type 0} where
  abbrev pub send : Message F → Pads F → Pads F
  send m s = record s { sent = m ∷ s.sent }

  -- A write through a pointer into the table.
  unfoldable pub update : (Gamepad → Gamepad) → ℕ → Pads F → Pads F
  update f i s = elim (get_elem? s.gamepads i) [
    | none ↦ s
    | some g ↦ record s { gamepads = set s.gamepads i (f g) }
  ]

  -- What get_gamepad does to a free gamepad.
  unfoldable pub occupy : ℤ → ℕ → Pads F → Pads F
  occupy sdl_id i s =
      update (λ g. record g { sdl_id = sdl_id; id = pos i; initialized = true }) i
        (record s { active_mask = bit_or s.active_mask (2 ^ i) })

  -- `get_gamepad(sdl_id, true)` where no gamepad in use has this id: a pointer is an index.
  unfoldable pub new_gamepad : ℤ → Pads F → ℕ × Pads F
  new_gamepad sdl_id s = elim (find_free s.gamepads) [
    | none ↦ (0, s)
    | some i ↦ (i, occupy sdl_id i s)
  ]

  -- remove_gamepad
  unfoldable pub remove_gamepad : ℤ → Pads F → Pads F
  remove_gamepad sdl_id s = elim (find_id sdl_id s.gamepads) [
    | none ↦ s
    | some i ↦
        let mask = clear_bits s.active_mask (2 ^ i) in
        elim (get_elem? s.gamepads i) [
          | none ↦ s
          | some g ↦ record s {
            gamepads = set s.gamepads i empty_gamepad;
            active_mask = mask;
            sdl_gamepads = s.sdl_gamepads -ℤ pos 1;
            sent =
                multi_controller (pos i) mask 0 0 0 (pos 0) (pos 0) (pos 0) (pos 0)
                ∷ close g.controller
                ∷ s.sent;
          }
        ]
  ]

  -- `memset(gamepads, 0, sizeof(gamepads))`
  unfoldable pub clear_gamepads : Pads F → Pads F
  clear_gamepads s = record s { gamepads = replicate 16 empty_gamepad }

module _ (li : Limelight) (num : Numbers) (sdl : Calls) where
  -- SDL_TO_LI_BUTTON_MAP
  abbrev pub sdl_to_li_button_map : List ℕ
  sdl_to_li_button_map =
      li.a_flag ∷ li.b_flag ∷ li.x_flag ∷ li.y_flag ∷ li.back_flag ∷ li.special_flag ∷ li.play_flag
      ∷ li.ls_clk_flag ∷ li.rs_clk_flag ∷ li.lb_flag ∷ li.rb_flag ∷ li.up_flag ∷ li.down_flag
      ∷ li.left_flag ∷ li.right_flag ∷ li.misc_flag ∷ li.paddle1_flag ∷ li.paddle2_flag
      ∷ li.paddle3_flag ∷ li.paddle4_flag ∷ li.touchpad_flag ∷ []

  -- The loop over the buttons, from button `i` on.
  unfoldable pub supported_buttons : ℕ → ℕ → List ℕ → ℕ → ℕ
  supported_buttons c i [] flags = flags
  supported_buttons c i (f ∷ fs) flags =
      supported_buttons c (suc i) fs (if sdl.has_button c i then bit_or flags f else flags)

  unfoldable pub add_capability : Bool → ℕ → ℕ → ℕ
  add_capability has flag caps = if has then bit_or caps flag else caps

  unfoldable pub capabilities : ℕ → ℕ
  capabilities c = add_capability (sdl.has_led c) li.li_ccap_rgb_led (
      add_capability (sdl.has_sensor c num.sensor_gyro) li.li_ccap_gyro (
        add_capability (sdl.has_sensor c num.sensor_accel) li.li_ccap_accel (
          add_capability (ltb_ℤ (pos 0) (sdl.num_touchpads c)) li.li_ccap_touchpad (
            add_capability (sdl.has_rumble_triggers c) li.li_ccap_trigger_rumble (
              add_capability (sdl.has_rumble c) li.li_ccap_rumble (
                add_capability
                  (if sdl.has_axis_bind c num.axis_triggerleft
                    then true
                    else sdl.has_axis_bind c num.axis_triggerright)
                  li.li_ccap_analog_triggers 0))))))

  unfoldable pub li_controller_type : ℕ → ℕ
  li_controller_type t =
      if t == num.type_xbox360
      then li.li_ctype_xbox
      else if t == num.type_xboxone
      then li.li_ctype_xbox
      else if t == num.type_ps3
      then li.li_ctype_ps
      else if t == num.type_ps4
      then li.li_ctype_ps
      else if t == num.type_ps5
      then li.li_ctype_ps
      else if t == num.type_switch_pro
      then li.li_ctype_nintendo
      else if t == num.type_joycon_left
      then li.li_ctype_nintendo
      else if t == num.type_joycon_right
      then li.li_ctype_nintendo
      else if t == num.type_joycon_pair
      then li.li_ctype_nintendo
      else li.li_ctype_unknown

module _ {F : Type 0} (li : Limelight) (num : Numbers) (sdl : Calls) where
  -- send_controller_arrival, for the gamepad at an index
  unfoldable pub send_controller_arrival : ℕ → Pads F → Pads F
  send_controller_arrival i s = elim (get_elem? s.gamepads i) [
    | none ↦ s
    | some g ↦
        send
          (controller_arrival g.id s.active_mask
            (li_controller_type li num sdl (sdl.controller_type g.controller))
            (supported_buttons li num sdl g.controller 0 (sdl_to_li_button_map li num sdl) 0)
            (capabilities li num sdl g.controller))
          s
  ]

  -- The rest of add_gamepad, once the new state is found at an index.
  unfoldable pub connect : ℕ → ℕ × Pads F → Pads F
  connect c (i, s) =
      let s = send_controller_arrival i (update (λ g. record g { controller = c }) i s) in
      record s { sdl_gamepads = s.sdl_gamepads +ℤ pos 1 }

  unfoldable pub add_gamepad : ℤ → Pads F → Pads F
  add_gamepad joystick_index s =
      let c = sdl.open_controller joystick_index in
      let joystick_id = sdl.instance_id c in
      if c == 0 then s else elim (find_id joystick_id s.gamepads) [
        | some i ↦ send (close c) (send_controller_arrival i s)
        | none ↦ connect c (new_gamepad joystick_id s)
      ]

  -- The loop of sdlinput_init over `n` joysticks, from joystick `i` on.
  unfoldable pub add_gamepads : ℕ → ℕ → Pads F → Pads F
  add_gamepads i zero s = s
  add_gamepads i (suc n) s =
      add_gamepads (suc i) n (if sdl.is_game_controller i then add_gamepad (pos i) s else s)

  unfoldable pub sdlinput_init : Pads F → Pads F
  sdlinput_init s = add_gamepads 0 sdl.num_joysticks (clear_gamepads s)
