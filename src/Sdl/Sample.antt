-- ===== src/Sdl/Sample.antt =====
-- SDL's own numbers, and a desk with two controllers, for the runs of src/input/sdl.c.
use moonlight_allwinner_h.Prelude.{ℕ, ◌+◌, ◌-◌, ◌*◌, true, false, ltb}
use moonlight_allwinner_h.Prelude.Int.{ℤ, pos}
use moonlight_allwinner_h.Sdl.Host.{Scancodes, Numbers, Calls, Floats}

abbrev pub scancodes : Scancodes
scancodes = record {
  scancode_1 = 30;
  scancode_9 = 38;
  scancode_a = 4;
  scancode_z = 29;
  scancode_f1 = 58;
  scancode_f12 = 69;
  scancode_f13 = 104;
  scancode_f24 = 115;
  scancode_kp_1 = 89;
  scancode_kp_9 = 97;
  scancode_backspace = 42;
  scancode_tab = 43;
  scancode_clear = 156;
  scancode_kp_enter = 88;
  scancode_return = 40;
  scancode_pause = 72;
  scancode_capslock = 57;
  scancode_escape = 41;
  scancode_space = 44;
  scancode_pageup = 75;
  scancode_pagedown = 78;
  scancode_end = 77;
  scancode_home = 74;
  scancode_left = 80;
  scancode_up = 82;
  scancode_right = 79;
  scancode_down = 81;
  scancode_select = 119;
  scancode_execute = 116;
  scancode_printscreen = 70;
  scancode_insert = 73;
  scancode_delete = 76;
  scancode_help = 117;
  scancode_kp_0 = 98;
  scancode_0 = 39;
  scancode_kp_multiply = 85;
  scancode_kp_plus = 87;
  scancode_kp_comma = 133;
  scancode_kp_minus = 86;
  scancode_kp_period = 99;
  scancode_kp_divide = 84;
  scancode_numlockclear = 83;
  scancode_scrolllock = 71;
  scancode_lshift = 225;
  scancode_rshift = 229;
  scancode_lctrl = 224;
  scancode_rctrl = 228;
  scancode_lalt = 226;
  scancode_ralt = 230;
  scancode_lgui = 227;
  scancode_rgui = 231;
  scancode_application = 101;
  scancode_ac_back = 270;
  scancode_ac_forward = 271;
  scancode_ac_refresh = 273;
  scancode_ac_stop = 272;
  scancode_ac_search = 268;
  scancode_ac_bookmarks = 274;
  scancode_ac_home = 269;
  scancode_semicolon = 51;
  scancode_equals = 46;
  scancode_comma = 54;
  scancode_minus = 45;
  scancode_period = 55;
  scancode_slash = 56;
  scancode_grave = 53;
  scancode_leftbracket = 47;
  scancode_backslash = 49;
  scancode_rightbracket = 48;
  scancode_apostrophe = 52;
  scancode_nonusbackslash = 100;
}

abbrev pub numbers : Numbers
numbers = record {
  sdlk_q = 113;
  sdlk_f = 102;
  sdlk_z = 122;
  kmod_ctrl = 192;
  kmod_alt = 768;
  kmod_shift = 3;
  kmod_gui = 3072;
  mouse_left = 1;
  mouse_middle = 2;
  mouse_right = 3;
  mouse_x1 = 4;
  mouse_x2 = 5;
  axis_leftx = 0;
  axis_lefty = 1;
  axis_rightx = 2;
  axis_righty = 3;
  axis_triggerleft = 4;
  axis_triggerright = 5;
  sensor_accel = 1;
  sensor_gyro = 2;
  type_xbox360 = 1;
  type_xboxone = 2;
  type_ps3 = 3;
  type_ps4 = 4;
  type_switch_pro = 5;
  type_ps5 = 7;
  type_joycon_left = 11;
  type_joycon_right = 12;
  type_joycon_pair = 13;
}

-- Device `i` is controller `i + 1` with instance `i`; all can rumble and have every button.
abbrev index_of : ℤ → ℕ
index_of (pos n) = n + 1
index_of other = 0

abbrev pub calls : Calls
calls = record {
  open_controller = index_of;
  instance_id = λ c. pos (c - 1);
  has_button = λ c b. ltb b 15;
  has_axis_bind = λ c a. true;
  has_rumble = λ c. true;
  has_rumble_triggers = λ c. false;
  num_touchpads = λ c. pos 0;
  has_sensor = λ c s. false;
  has_led = λ c. false;
  controller_type = λ c. 2;
  num_joysticks = 2;
  is_game_controller = λ i. true;
  relative_mouse_mode = true;
  window_width = pos 1280;
  window_height = pos 720;
}

-- Whole numbers in place of `float`.
abbrev pub whole : Floats ℕ
whole = record {
  zero_f = 0;
  one_f = 1;
  wheel_delta = 120;
  degrees = 57;
  times = λ a b. a * b;
  less = ltb;
  to_short_f = pos;
}
