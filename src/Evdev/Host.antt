-- ===== src/Evdev/Host.antt =====
-- What src/input/evdev.c takes from Linux, libevdev and Limelight, none of it in the repository: the
-- numbers of the input codes and of the protocol's flags, and `timersub`.
use moonlight_allwinner_h.Prelude.{ℕ}
use moonlight_allwinner_h.Prelude.Int.{ℤ}

-- `struct timeval`
pub record Timeval : Type 0 where
  pub sec : ℤ
  pub usec : ℤ

-- <linux/input-event-codes.h> and <sys/time.h>
pub record Linux : Type 0 where
  pub key_max : ℕ
  pub key_leftshift : ℕ
  pub key_rightshift : ℕ
  pub key_leftalt : ℕ
  pub key_rightalt : ℕ
  pub key_leftctrl : ℕ
  pub key_rightctrl : ℕ
  pub key_leftmeta : ℕ
  pub key_rightmeta : ℕ
  pub key_q : ℕ
  pub btn_left : ℕ
  pub btn_middle : ℕ
  pub btn_right : ℕ
  pub btn_side : ℕ
  pub btn_extra : ℕ
  pub btn_touch : ℕ
  pub rel_x : ℕ
  pub rel_y : ℕ
  pub rel_hwheel : ℕ
  pub rel_wheel : ℕ
  pub abs_max : ℕ
  pub abs_x : ℕ
  pub abs_y : ℕ
  pub abs_hat0x : ℕ
  pub abs_hat0y : ℕ
  pub abs_hat1x : ℕ
  pub abs_hat1y : ℕ
  pub abs_hat2x : ℕ
  pub abs_hat2y : ℕ
  pub abs_hat3x : ℕ
  pub abs_hat3y : ℕ
  pub timersub : Timeval → Timeval → Timeval

-- <Limelight.h>
pub record Limelight : Type 0 where
  pub a_flag : ℕ
  pub b_flag : ℕ
  pub x_flag : ℕ
  pub y_flag : ℕ
  pub up_flag : ℕ
  pub down_flag : ℕ
  pub left_flag : ℕ
  pub right_flag : ℕ
  pub ls_clk_flag : ℕ
  pub rs_clk_flag : ℕ
  pub lb_flag : ℕ
  pub rb_flag : ℕ
  pub play_flag : ℕ
  pub back_flag : ℕ
  pub special_flag : ℕ
  pub misc_flag : ℕ
  pub paddle1_flag : ℕ
  pub paddle2_flag : ℕ
  pub paddle3_flag : ℕ
  pub paddle4_flag : ℕ
  pub touchpad_flag : ℕ
  pub modifier_shift : ℕ
  pub modifier_ctrl : ℕ
  pub modifier_alt : ℕ
  pub modifier_meta : ℕ
  pub button_left : ℕ
  pub button_middle : ℕ
  pub button_right : ℕ
  pub button_x1 : ℕ
  pub button_x2 : ℕ
  pub button_action_press : ℕ
  pub button_action_release : ℕ
  pub key_action_down : ℕ
  pub key_action_up : ℕ
  pub li_ctype_unknown : ℕ
  pub li_ctype_xbox : ℕ
  pub li_ctype_ps : ℕ
  pub li_ctype_nintendo : ℕ
  pub li_ccap_analog_triggers : ℕ
  pub li_ccap_rumble : ℕ
  pub li_ccap_trigger_rumble : ℕ
  pub li_ccap_touchpad : ℕ
  pub li_ccap_accel : ℕ
  pub li_ccap_gyro : ℕ
  pub li_ccap_rgb_led : ℕ
  pub li_touch_event_down : ℕ
  pub li_touch_event_move : ℕ
  pub li_touch_event_up : ℕ
  pub li_motion_type_accel : ℕ
  pub li_motion_type_gyro : ℕ
  pub li_rot_unknown : ℕ
