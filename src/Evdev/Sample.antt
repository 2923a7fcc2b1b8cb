-- ===== src/Evdev/Sample.antt =====
-- A keyboard and a gamepad for the runs of src/input/evdev.c, with the numbers of Linux and
-- Limelight.
use moonlight_allwinner_h.Prelude.{ℕ, Bool, false, [], Option, replicate, if◌then◌else◌}
use moonlight_allwinner_h.Prelude.Int.{ℤ, pos, negsuc, ◌+ℤ◌, ◌-ℤ◌, ltb_ℤ}
use moonlight_allwinner_h.Evdev.Host.{Timeval, Linux, Limelight}
use moonlight_allwinner_h.Evdev.Device.{Mapping, AbsParms, Device, InputEvent, EventType}
use moonlight_allwinner_h.Evdev.Output.{Input}

-- `timersub`, with the microseconds kept from 0 to 999999
abbrev subtract_time : Timeval → Timeval → Timeval
subtract_time a b =
    let u = a.usec -ℤ b.usec in
    if ltb_ℤ u (pos 0)
    then record { sec = a.sec -ℤ b.sec -ℤ pos 1; usec = u +ℤ pos 1000000 }
    else record { sec = a.sec -ℤ b.sec; usec = u }

abbrev pub linux : Linux
linux = record {
  key_max = 767;
  key_leftshift = 42;
  key_rightshift = 54;
  key_leftalt = 56;
  key_rightalt = 100;
  key_leftctrl = 29;
  key_rightctrl = 97;
  key_leftmeta = 125;
  key_rightmeta = 126;
  key_q = 16;
  btn_left = 272;
  btn_middle = 274;
  btn_right = 273;
  btn_side = 275;
  btn_extra = 276;
  btn_touch = 330;
  rel_x = 0;
  rel_y = 1;
  rel_hwheel = 6;
  rel_wheel = 8;
  abs_max = 63;
  abs_x = 0;
  abs_y = 1;
  abs_hat0x = 16;
  abs_hat0y = 17;
  abs_hat1x = 18;
  abs_hat1y = 19;
  abs_hat2x = 20;
  abs_hat2y = 21;
  abs_hat3x = 22;
  abs_hat3y = 23;
  timersub = subtract_time;
}

abbrev pub limelight : Limelight
limelight = record {
  a_flag = 4096;
  b_flag = 8192;
  x_flag = 16384;
  y_flag = 32768;
  up_flag = 1;
  down_flag = 2;
  left_flag = 4;
  right_flag = 8;
  ls_clk_flag = 64;
  rs_clk_flag = 128;
  lb_flag = 256;
  rb_flag = 512;
  play_flag = 16;
  back_flag = 32;
  special_flag = 1024;
  misc_flag = 2097152;
  paddle1_flag = 65536;
  paddle2_flag = 131072;
  paddle3_flag = 262144;
  paddle4_flag = 524288;
  touchpad_flag = 1048576;
  modifier_shift = 1;
  modifier_ctrl = 2;
  modifier_alt = 4;
  modifier_meta = 8;
  button_left = 1;
  button_middle = 2;
  button_right = 3;
  button_x1 = 4;
  button_x2 = 5;
  button_action_press = 7;
  button_action_release = 8;
  key_action_down = 3;
  key_action_up = 4;
  li_ctype_unknown = 0;
  li_ctype_xbox = 1;
  li_ctype_ps = 2;
  li_ctype_nintendo = 3;
  li_ccap_analog_triggers = 1;
  li_ccap_rumble = 2;
  li_ccap_trigger_rumble = 4;
  li_ccap_touchpad = 8;
  li_ccap_accel = 16;
  li_ccap_gyro = 32;
  li_ccap_rgb_led = 64;
  li_touch_event_down = 1;
  li_touch_event_move = 3;
  li_touch_event_up = 2;
  li_motion_type_accel = 1;
  li_motion_type_gyro = 2;
  li_rot_unknown = 65535;
}

-- A device without any axis, and one axis from -128 to 127 with a dead zone of 15.
abbrev pub no_axis : AbsParms
no_axis = record {
  min = pos 0;
  max = pos 0;
  flat = pos 0;
  avg = pos 0;
  range = pos 0;
  diff = pos 0;
}

abbrev pub stick_axis : AbsParms
stick_axis = record {
  min = negsuc 127;
  max = pos 127;
  flat = pos 15;
  avg = pos 0;
  range = pos 127;
  diff = pos 255;
}

abbrev pub start_of_time : Timeval
start_of_time = record { sec = pos 0; usec = pos 0 }

-- A mapping with the D-pad on the first hat, and no button.
abbrev pub hat_mapping : Mapping
hat_mapping = record {
  reverse_leftx = false;
  reverse_lefty = false;
  reverse_rightx = false;
  reverse_righty = false;
  halfaxis_lefttrigger = 0;
  halfaxis_righttrigger = 0;
  halfaxis_dpright = 0;
  halfaxis_dpleft = 0;
  halfaxis_dpup = 0;
  halfaxis_dpdown = 0;
  abs_leftx = negsuc 0;
  abs_lefty = negsuc 0;
  abs_rightx = negsuc 0;
  abs_righty = negsuc 0;
  hat_dpright = pos 0;
  hat_dpleft = pos 0;
  hat_dpup = pos 0;
  hat_dpdown = pos 0;
  hat_dir_dpright = pos 2;
  hat_dir_dpleft = pos 8;
  hat_dir_dpup = pos 1;
  hat_dir_dpdown = pos 4;
  btn_dpup = negsuc 0;
  btn_dpdown = negsuc 0;
  btn_dpleft = negsuc 0;
  btn_dpright = negsuc 0;
  abs_dpright = negsuc 0;
  abs_dpleft = negsuc 0;
  abs_dpup = negsuc 0;
  abs_dpdown = negsuc 0;
  btn_a = negsuc 0;
  btn_x = negsuc 0;
  btn_y = negsuc 0;
  btn_b = negsuc 0;
  btn_back = negsuc 0;
  btn_start = negsuc 0;
  btn_guide = negsuc 0;
  btn_leftstick = negsuc 0;
  btn_rightstick = negsuc 0;
  btn_leftshoulder = negsuc 0;
  btn_rightshoulder = negsuc 0;
  btn_misc1 = negsuc 0;
  btn_paddle1 = negsuc 0;
  btn_paddle2 = negsuc 0;
  btn_paddle3 = negsuc 0;
  btn_paddle4 = negsuc 0;
  btn_touchpad = negsuc 0;
  abs_lefttrigger = negsuc 0;
  abs_righttrigger = negsuc 0;
  btn_lefttrigger = negsuc 0;
  btn_righttrigger = negsuc 0;
}

abbrev pub device : Option Mapping → ℕ → ℤ → Device
device map modifiers delta = record {
  vendor = 0;
  name_has_xbox = false;
  is_touchscreen = false;
  rotate = pos 0;
  map = map;
  key_map = replicate 768 (negsuc 0);
  abs_map = replicate 64 (negsuc 0);
  hats_state = replicate 3 (pos 0, pos 0);
  fd = pos 5;
  modifiers = modifiers;
  mouse_delta_x = delta;
  mouse_delta_y = pos 0;
  mouse_v_scroll = pos 0;
  mouse_h_scroll = pos 0;
  touch_down_x = pos 0;
  touch_down_y = pos 0;
  touch_x = pos 0;
  touch_y = pos 0;
  touch_down_time = start_of_time;
  btn_down_time = start_of_time;
  controller_id = pos 0;
  haptic_effect_id = pos 0;
  button_flags = 0;
  left_trigger = 0;
  right_trigger = 0;
  left_stick_x = pos 0;
  left_stick_y = pos 0;
  right_stick_x = pos 0;
  right_stick_y = pos 0;
  gamepad_modified = false;
  mouse_emulation = false;
  x_parms = stick_axis;
  y_parms = stick_axis;
  rx_parms = stick_axis;
  ry_parms = stick_axis;
  z_parms = no_axis;
  rz_parms = no_axis;
  left_parms = no_axis;
  right_parms = no_axis;
  up_parms = no_axis;
  down_parms = no_axis;
}

abbrev pub input : Option Mapping → ℕ → ℤ → Bool → Input
input map modifiers delta waiting = record {
  dev = device map modifiers delta;
  assigned = 1;
  waiting = waiting;
  emulation_enabled = false;
  sent = [];
}

abbrev pub event : EventType → ℕ → ℤ → InputEvent
event type code value = record { type = type; code = code; value = value; time = start_of_time }
