-- ===== src/Evdev/Event.antt =====
-- `evdev_handle_event` of src/input/evdev.c: the synchronisation that sends to the host, and the
-- whole handler of one event.
use moonlight_allwinner_h.Prelude.{
  ℕ, zero, suc, ◌+◌, ◌^◌, Bool, true, false, List, [], ◌∷◌, Option, none, some, ◌&&◌, ◌||◌, ◌==◌,
  if◌then◌else◌, ◌>>=◌,
}
use moonlight_allwinner_h.Prelude.Bits.{bit_and, bit_or, has_all}
use moonlight_allwinner_h.Prelude.Int.{ℤ, pos, neg_ℤ, ltb_ℤ, eqb_ℤ}
use moonlight_allwinner_h.Evdev.Host.{Linux, Limelight}
use moonlight_allwinner_h.Evdev.Device.{
  Mapping, Device, InputEvent, EventType, ev_syn, ev_key, ev_rel, ev_abs, ev_other, max_gamepads,
}
use moonlight_allwinner_h.Evdev.Output.{
  Input, Answer, Message, send, mouse_move, scroll, h_scroll, multi_controller, controller_arrival,
}
use moonlight_allwinner_h.Evdev.Keys.{Flow, return, fall, cleared, handle_key}
use moonlight_allwinner_h.Evdev.Abs.{handle_abs}

-- The first of `rounds` numbers from `i` on whose bit of the mask is clear: the loop that assigns a
-- controller.
unfoldable pub free_id : ℕ → ℕ → ℕ → Option ℕ
free_id zero i mask = none
free_id (suc rounds) i mask =
    let rest = free_id rounds (i + 1) mask in if bit_and mask (2 ^ i) == 0 then some i else rest

-- `LiSendMouseMoveEvent` under the display's rotation
unfoldable pub rotated : ℤ → ℤ → ℤ → Message
rotated rotate dx dy =
    if eqb_ℤ rotate (pos 90)
    then mouse_move dy (neg_ℤ dx)
    else if eqb_ℤ rotate (pos 180)
    then mouse_move (neg_ℤ dx) (neg_ℤ dy)
    else if eqb_ℤ rotate (pos 270)
    then mouse_move (neg_ℤ dy) dx
    else mouse_move dx dy

unfoldable pub send_motion : Input → Input
send_motion w =
    let d = w.dev in
    if eqb_ℤ d.mouse_delta_x (pos 0) && eqb_ℤ d.mouse_delta_y (pos 0)
    then w
    else send (rotated d.rotate d.mouse_delta_x d.mouse_delta_y)
        (record w { dev = record d { mouse_delta_x = pos 0; mouse_delta_y = pos 0 } })

unfoldable pub send_v_scroll : Input → Input
send_v_scroll w =
    if eqb_ℤ w.dev.mouse_v_scroll (pos 0)
    then w
    else send (scroll w.dev.mouse_v_scroll)
        (record w { dev = record (w.dev) { mouse_v_scroll = pos 0 } })

unfoldable pub send_h_scroll : Input → Input
send_h_scroll w =
    if eqb_ℤ w.dev.mouse_h_scroll (pos 0)
    then w
    else send (h_scroll w.dev.mouse_h_scroll)
        (record w { dev = record (w.dev) { mouse_h_scroll = pos 0 } })

module _ (li : Limelight) where
  -- QUIT_BUTTONS
  abbrev pub quit_buttons : ℕ
  quit_buttons = bit_or (bit_or (bit_or li.play_flag li.back_flag) li.lb_flag) li.rb_flag

  -- SET_BTN_FLAG over the members of the mapping
  abbrev pub supported : List (ℤ × ℕ) → ℕ → ℕ
  supported [] flags = flags
  supported ((button, flag) ∷ rest) flags =
      supported rest (bit_or flags (if ltb_ℤ button (pos 0) then 0 else flag))

  abbrev pub supported_table : Mapping → List (ℤ × ℕ)
  supported_table m =
      (m.btn_a, li.a_flag)
      ∷ (m.btn_b, li.b_flag)
      ∷ (m.btn_x, li.x_flag)
      ∷ (m.btn_y, li.y_flag)
      ∷ (m.btn_back, li.back_flag)
      ∷ (m.btn_start, li.play_flag)
      ∷ (m.btn_guide, li.special_flag)
      ∷ (m.btn_leftstick, li.ls_clk_flag)
      ∷ (m.btn_rightstick, li.rs_clk_flag)
      ∷ (m.btn_leftshoulder, li.lb_flag)
      ∷ (m.btn_rightshoulder, li.rb_flag)
      ∷ (m.btn_misc1, li.misc_flag)
      ∷ (m.btn_paddle1, li.paddle1_flag)
      ∷ (m.btn_paddle2, li.paddle2_flag)
      ∷ (m.btn_paddle3, li.paddle3_flag)
      ∷ (m.btn_paddle4, li.paddle4_flag)
      ∷ (m.btn_touchpad, li.touchpad_flag)
      ∷ []

  -- the type of a controller, from its vendor or its name
  unfoldable pub controller_type : Device → ℕ
  controller_type d =
      let by_vendor =
        if d.vendor == 0x045e
        then li.li_ctype_xbox
        else if d.vendor == 0x054c
        then li.li_ctype_ps
        else if d.vendor == 0x057e
        then li.li_ctype_nintendo
        else li.li_ctype_unknown in
      if d.name_has_xbox && by_vendor == li.li_ctype_unknown then li.li_ctype_xbox else by_vendor

  -- `send_controller_arrival`; a device without a mapping is a read through NULL, the fault.
  unfoldable pub send_controller_arrival : Input → Option Input
  send_controller_arrival w = elim w.dev.map [
    | none ↦ none
    | some m ↦
        let analog =
          if ltb_ℤ m.abs_lefttrigger (pos 0) || ltb_ℤ m.abs_righttrigger (pos 0)
          then 0
          else li.li_ccap_analog_triggers in
        some (
          send
            (controller_arrival w.dev.controller_id w.assigned (controller_type w.dev)
              (supported (supported_table m) 0) (bit_or analog li.li_ccap_rumble))
            w)
  ]

  -- the number of a gamepad that has none yet
  unfoldable pub assign_controller : Input → Input
  assign_controller w = elim (free_id max_gamepads 0 w.assigned) [
    | none ↦ record w { dev = record (w.dev) { controller_id = pos 0 } }
    | some i ↦ record w {
      dev = record (w.dev) { controller_id = pos i };
      assigned = bit_or w.assigned (2 ^ i);
    }
  ]

  unfoldable pub arrive : Input → Option Input
  arrive w =
      if ltb_ℤ w.dev.controller_id (pos 0)
      then send_controller_arrival (assign_controller w)
      else some w

  -- the whole state of a gamepad
  abbrev pub state_message : Input → Message
  state_message w =
      multi_controller w.dev.controller_id w.assigned w.dev.button_flags w.dev.left_trigger
        w.dev.right_trigger w.dev.left_stick_x w.dev.left_stick_y w.dev.right_stick_x
        w.dev.right_stick_y

  unfoldable pub send_gamepad : Input → Option Input
  send_gamepad w =
      if w.dev.gamepad_modified
      then (arrive w >>= λ w1.
          let told = if w1.dev.mouse_emulation then w1 else send (state_message w1) w1 in
          some (record told { dev = record (told.dev) { gamepad_modified = false } }))
      else some w

  -- the `EV_SYN` case
  unfoldable pub handle_syn : Input → Option Flow
  handle_syn w =
      send_gamepad (send_h_scroll (send_v_scroll (send_motion w))) >>= λ w1. some (fall false w1)

  -- after the switch
  unfoldable pub finish_event : Flow → Bool × Input
  finish_event (return go w) = (go, w)
  finish_event (fall modified w) =
      if modified && has_all w.dev.button_flags quit_buttons then (false, cleared w) else (
        true,
        record w { dev = record (w.dev) { gamepad_modified = w.dev.gamepad_modified || modified } },
      )

module _ (os : Linux) (li : Limelight) where
  -- the `EV_REL` case
  unfoldable pub handle_rel : InputEvent → Input → Input
  handle_rel e w =
      if e.code == os.rel_x
      then record w { dev = record (w.dev) { mouse_delta_x = e.value } }
      else if e.code == os.rel_y
      then record w { dev = record (w.dev) { mouse_delta_y = e.value } }
      else if e.code == os.rel_hwheel
      then record w { dev = record (w.dev) { mouse_h_scroll = e.value } }
      else if e.code == os.rel_wheel
      then record w { dev = record (w.dev) { mouse_v_scroll = e.value } }
      else w

  -- the switch on the type of the event
  unfoldable pub dispatch : EventType → InputEvent → Input → Option Flow
  dispatch ev_syn e w = handle_syn li w
  dispatch ev_key e w = handle_key os li e w
  dispatch ev_rel e w = some (fall false (handle_rel e w))
  dispatch ev_abs e w = handle_abs os li e w
  dispatch ev_other e w = some (fall false w)

  unfoldable pub evdev_handle_event : InputEvent → Input → Answer
  evdev_handle_event e w = dispatch e.type e w >>= λ flow. some (finish_event li flow)
