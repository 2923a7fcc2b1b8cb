-- ===== src/Evdev/Keys.antt =====
-- The key events of src/input/evdev.c: the `EV_KEY` case of `evdev_handle_event` and the key table
-- of src/input/keyboard.h.
use moonlight_allwinner_h.Prelude.{
  ℕ, Bool, true, false, not, List, [], ◌∷◌, Option, none, some, ◌&&◌, ◌||◌, ltb, ◌==◌,
  if◌then◌else◌, get_elem?, ◌>>=◌,
}
use moonlight_allwinner_h.Prelude.Bits.{bit_or, clear_bits, has_all}
use moonlight_allwinner_h.Prelude.Int.{ℤ, pos, ◌+ℤ◌, ◌-ℤ◌, ◌*ℤ◌, ◌/ℤ◌, ltb_ℤ, eqb_ℤ, to_short}
use moonlight_allwinner_h.Evdev.Host.{Timeval, Linux, Limelight}
use moonlight_allwinner_h.Evdev.Device.{Mapping, Device, InputEvent, touch_up}
use moonlight_allwinner_h.Evdev.Output.{
  Input, send, mouse_button, keyboard, multi_controller, pause, thread_create, thread_join,
}

-- `keyCodes`
abbrev pub key_codes : List ℕ
key_codes =
    0 ∷ 0x1B ∷ 0x31 ∷ 0x32 ∷ 0x33 ∷ 0x34 ∷ 0x35 ∷ 0x36 ∷ 0x37 ∷ 0x38 ∷ 0x39 ∷ 0x30 ∷ 0xBD ∷ 0xBB
    ∷ 0x08 ∷ 0x09 ∷ 0x51 ∷ 0x57 ∷ 0x45 ∷ 0x52 ∷ 0x54 ∷ 0x59 ∷ 0x55 ∷ 0x49 ∷ 0x4F ∷ 0x50 ∷ 0xDB
    ∷ 0xDD ∷ 0x0D ∷ 0xA2 ∷ 0x41 ∷ 0x53 ∷ 0x44 ∷ 0x46 ∷ 0x47 ∷ 0x48 ∷ 0x4A ∷ 0x4B ∷ 0x4C ∷ 0xBA
    ∷ 0xDE ∷ 0xC0 ∷ 0xA0 ∷ 0xDC ∷ 0x5A ∷ 0x58 ∷ 0x43 ∷ 0x56 ∷ 0x42 ∷ 0x4E ∷ 0x4D ∷ 0xBC ∷ 0xBE
    ∷ 0xBF ∷ 0xA1 ∷ 0x6A ∷ 0xA4 ∷ 0x20 ∷ 0x14 ∷ 0x70 ∷ 0x71 ∷ 0x72 ∷ 0x73 ∷ 0x74 ∷ 0x75 ∷ 0x76
    ∷ 0x77 ∷ 0x78 ∷ 0x79 ∷ 0x90 ∷ 0x91 ∷ 0x67 ∷ 0x68 ∷ 0x69 ∷ 0x6D ∷ 0x64 ∷ 0x65 ∷ 0x66 ∷ 0x6B
    ∷ 0x61 ∷ 0x62 ∷ 0x63 ∷ 0x60 ∷ 0x6E ∷ 0 ∷ 0 ∷ 0 ∷ 0x7A ∷ 0x7B ∷ 0 ∷ 0xF1 ∷ 0xF2 ∷ 0 ∷ 0 ∷ 0 ∷ 0
    ∷ 0x0D ∷ 0xA3 ∷ 0x6F ∷ 0x2C ∷ 0xA5 ∷ 0 ∷ 0x24 ∷ 0x26 ∷ 0x21 ∷ 0x25 ∷ 0x27 ∷ 0x23 ∷ 0x28 ∷ 0x22
    ∷ 0x2D ∷ 0x2E ∷ 0 ∷ 0 ∷ 0 ∷ 0 ∷ 0 ∷ 0 ∷ 0 ∷ 0x13 ∷ 0 ∷ 0 ∷ 0 ∷ 0 ∷ 0 ∷ 0x5B ∷ 0x5C ∷ 0 ∷ []

-- What an event tells the code after the switch: whether to go on, and if so whether the gamepad was
-- modified. An early `return` is `stop`.
pub data Flow : Type 0 where
  return : Bool → Input → Flow
  fall : Bool → Input → Flow

abbrev pub is_down : InputEvent → Bool
is_down e = not (eqb_ℤ e.value (pos 0))

-- `holdTimeMs`, from the elapsed time
abbrev pub hold_ms : Timeval → ℤ
hold_ms t = t.sec *ℤ pos 1000 +ℤ t.usec /ℤ pos 1000

-- The flag of a mapped button, by the first member of the mapping that has its index, or 0.
abbrev pub first_match : ℤ → List (ℤ × ℕ) → ℕ
first_match index [] = 0
first_match index ((button, flag) ∷ rest) =
    if eqb_ℤ index button then flag else first_match index rest

-- all zeros, for "clear gamepad state"
abbrev pub cleared : Input → Input
cleared w =
    send (multi_controller w.dev.controller_id w.assigned 0 0 0 (pos 0) (pos 0) (pos 0) (pos 0)) w

module _ (os : Linux) (li : Limelight) where
  -- The modifier that a key is, or 0.
  unfoldable pub modifier_of : ℕ → ℕ
  modifier_of code =
      if code == os.key_leftshift || code == os.key_rightshift
      then li.modifier_shift
      else if code == os.key_leftalt || code == os.key_rightalt
      then li.modifier_alt
      else if code == os.key_leftctrl || code == os.key_rightctrl
      then li.modifier_ctrl
      else if code == os.key_leftmeta || code == os.key_rightmeta
      then li.modifier_meta
      else 0

  -- ACTION_MODIFIERS
  abbrev pub action_modifiers : ℕ
  action_modifiers = bit_or (bit_or li.modifier_shift li.modifier_alt) li.modifier_ctrl

  -- `dev->modifiers` after a key
  unfoldable pub next_modifiers : ℕ → InputEvent → ℕ
  next_modifiers held e =
      let m = modifier_of e.code in
      if m == 0 then held else if is_down e then bit_or held m else clear_bits held m

  -- a key of the table
  unfoldable pub handle_keyboard : InputEvent → ℕ → Input → Flow
  handle_keyboard e vk w =
      let mods = next_modifiers w.dev.modifiers e in
      let w1 = record w { dev = record (w.dev) { modifiers = mods } } in
      if has_all mods action_modifiers && e.code == os.key_q && is_down e
      then return true (record w1 { waiting = true })
      else if w.waiting && mods == 0
      then return false w1
      else fall false (
          send
            (keyboard (to_short (pos (bit_or 0x8000 vk)))
              (if is_down e then li.key_action_down else li.key_action_up) mods)
            w1)

  -- The mouse button that a code is, or 0.
  unfoldable pub mouse_code : ℕ → ℕ
  mouse_code code =
      if code == os.btn_left
      then li.button_left
      else if code == os.btn_middle
      then li.button_middle
      else if code == os.btn_right
      then li.button_right
      else if code == os.btn_side
      then li.button_x1
      else if code == os.btn_extra
      then li.button_x2
      else 0

  -- The switch has a case for the code that sets no gamepad code.
  unfoldable pub is_pointer_code : ℕ → Bool
  is_pointer_code code =
      code == os.btn_left
      || code == os.btn_middle
      || code == os.btn_right
      || code == os.btn_side
      || code == os.btn_extra
      || code == os.btn_touch

  -- TOUCH_CLICK_RADIUS, TOUCH_CLICK_DELAY, TOUCH_RCLICK_TIME
  unfoldable pub is_click : Device → Bool
  is_click d =
      let dx = d.touch_x -ℤ d.touch_down_x in
      let dy = d.touch_y -ℤ d.touch_down_y in
      not (eqb_ℤ d.touch_down_x touch_up)
      && not (eqb_ℤ d.touch_down_y touch_up)
      && ltb_ℤ (dx *ℤ dx +ℤ dy *ℤ dy) (pos 100)

  -- the `BTN_TOUCH` case
  unfoldable pub handle_touch : InputEvent → Input → Input
  handle_touch e w =
      if eqb_ℤ e.value (pos 1)
      then record w { dev = record (w.dev) { touch_down_time = e.time } }
      else (let held = hold_ms (os.timersub e.time w.dev.touch_down_time) in
          let button = if ltb_ℤ held (pos 750) then li.button_left else li.button_right in
          let clicked =
            if is_click w.dev
            then send (mouse_button li.button_action_release button)
                (send (pause 100000) (send (mouse_button li.button_action_press button) w))
            else w in
          record clicked {
            dev = record (clicked.dev) { touch_down_x = touch_up; touch_down_y = touch_up };
          })

  abbrev pub button_table : Mapping → List (ℤ × ℕ)
  button_table m =
      (m.btn_a, li.a_flag)
      ∷ (m.btn_x, li.x_flag)
      ∷ (m.btn_y, li.y_flag)
      ∷ (m.btn_b, li.b_flag)
      ∷ (m.btn_dpup, li.up_flag)
      ∷ (m.btn_dpdown, li.down_flag)
      ∷ (m.btn_dpright, li.right_flag)
      ∷ (m.btn_dpleft, li.left_flag)
      ∷ (m.btn_leftstick, li.ls_clk_flag)
      ∷ (m.btn_rightstick, li.rs_clk_flag)
      ∷ (m.btn_leftshoulder, li.lb_flag)
      ∷ (m.btn_rightshoulder, li.rb_flag)
      ∷ (m.btn_start, li.play_flag)
      ∷ (m.btn_back, li.back_flag)
      ∷ (m.btn_guide, li.special_flag)
      ∷ (m.btn_misc1, li.misc_flag)
      ∷ (m.btn_paddle1, li.paddle1_flag)
      ∷ (m.btn_paddle2, li.paddle2_flag)
      ∷ (m.btn_paddle3, li.paddle3_flag)
      ∷ (m.btn_paddle4, li.paddle4_flag)
      ∷ (m.btn_touchpad, li.touchpad_flag)
      ∷ []

  -- `gamepadCode`
  unfoldable pub gamepad_code : Option Mapping → ℤ → ℕ
  gamepad_code none index = 0
  gamepad_code (some m) index = first_match index (button_table m)

  -- the mouse button that a gamepad button stands for while the stick moves the mouse, or 0
  unfoldable pub emulated_button : ℕ → Option ℕ
  emulated_button flag =
      if flag == li.a_flag
      then some li.button_left
      else if flag == li.b_flag
      then some li.button_right
      else if flag == li.x_flag
      then some li.button_middle
      else if flag == li.lb_flag
      then some li.button_x1
      else if flag == li.rb_flag
      then some li.button_x2
      else none

  unfoldable pub toggle_emulation : Input → Input
  toggle_emulation w =
      if w.dev.mouse_emulation
      then cleared
          (send thread_join (record w { dev = record (w.dev) { mouse_emulation = false } }))
      else cleared
          (send thread_create (record w { dev = record (w.dev) { mouse_emulation = true } }))

  unfoldable pub emulate_button : ℕ → InputEvent → Input → Input
  emulate_button flag e w = elim (emulated_button flag) [
    | none ↦ w
    | some b ↦
        send
          (mouse_button (if is_down e then li.button_action_press else li.button_action_release) b)
          w
  ]

  -- a gamepad button with a flag
  unfoldable pub handle_gamepad_button : ℕ → InputEvent → Input → Input
  handle_gamepad_button flag e w =
      let pressed =
        if is_down e
        then record w {
          dev = record (w.dev) {
            button_flags = bit_or w.dev.button_flags flag;
            btn_down_time = e.time;
          };
        }
        else record w {
          dev = record (w.dev) { button_flags = clear_bits w.dev.button_flags flag };
        } in
      if w.emulation_enabled && flag == li.play_flag && not (is_down e)
      then (let held = hold_ms (os.timersub e.time pressed.dev.btn_down_time) in
          if ltb_ℤ held (pos 750) then pressed else toggle_emulation pressed)
      else if pressed.dev.mouse_emulation
      then emulate_button flag e pressed
      else pressed

  -- a trigger that is a button, or a button that is not mapped
  unfoldable pub handle_trigger_button : ℤ → InputEvent → Bool → Input → Flow
  handle_trigger_button index e modified w = elim w.dev.map [
    | none ↦ fall false w
    | some m ↦
        let level : ℕ = if is_down e then 255 else 0 in
        if eqb_ℤ index m.btn_lefttrigger
        then fall modified (record w { dev = record (w.dev) { left_trigger = level } })
        else if eqb_ℤ index m.btn_righttrigger
        then fall modified (record w { dev = record (w.dev) { right_trigger = level } })
        else fall false w
  ]

  -- the codes beyond the key table, `index` being `dev->key_map[ev->code]`
  unfoldable pub handle_button : InputEvent → ℤ → Input → Flow
  handle_button e index w =
      let touched = if e.code == os.btn_touch then handle_touch e w else w in
      let mouse = mouse_code e.code in
      let pointer = is_pointer_code e.code in
      let flag : ℕ = if pointer then 0 else gamepad_code w.dev.map index in
      if not (mouse == 0)
      then fall false (
          send
            (mouse_button (if is_down e then li.button_action_press else li.button_action_release)
              mouse)
            touched)
      else if not (flag == 0)
      then fall true (handle_gamepad_button flag e touched)
      else handle_trigger_button index e (not pointer) touched

  -- The `EV_KEY` case; `none` is a read past the end of `key_map`.
  unfoldable pub handle_key : InputEvent → Input → Option Flow
  handle_key e w =
      if ltb os.key_max e.code then some (return true w) else elim (get_elem? key_codes e.code) [
        | some vk ↦ some (handle_keyboard e vk w)
        | none ↦ get_elem? w.dev.key_map e.code >>= λ index. some (handle_button e index w)
      ]
