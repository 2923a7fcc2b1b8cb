-- ===== src/Evdev/Device.antt =====
-- The state of src/input/evdev.c (`struct input_device`, the file's globals) and of
-- src/input/mapping.h (`struct mapping`).
use moonlight_allwinner_h.Prelude.{ℕ, Bool, List, Option}
use moonlight_allwinner_h.Prelude.Int.{ℤ, negsuc}
use moonlight_allwinner_h.Evdev.Host.{Timeval}

-- `struct mapping`, without its texts and its link. A half axis is '+', '-' or 0.
pub record Mapping : Type 0 where
  pub reverse_leftx : Bool
  pub reverse_lefty : Bool
  pub reverse_rightx : Bool
  pub reverse_righty : Bool
  pub halfaxis_lefttrigger : ℕ
  pub halfaxis_righttrigger : ℕ
  pub halfaxis_dpright : ℕ
  pub halfaxis_dpleft : ℕ
  pub halfaxis_dpup : ℕ
  pub halfaxis_dpdown : ℕ
  pub abs_leftx : ℤ
  pub abs_lefty : ℤ
  pub abs_rightx : ℤ
  pub abs_righty : ℤ
  pub hat_dpright : ℤ
  pub hat_dpleft : ℤ
  pub hat_dpup : ℤ
  pub hat_dpdown : ℤ
  pub hat_dir_dpright : ℤ
  pub hat_dir_dpleft : ℤ
  pub hat_dir_dpup : ℤ
  pub hat_dir_dpdown : ℤ
  pub btn_dpup : ℤ
  pub btn_dpdown : ℤ
  pub btn_dpleft : ℤ
  pub btn_dpright : ℤ
  pub abs_dpright : ℤ
  pub abs_dpleft : ℤ
  pub abs_dpup : ℤ
  pub abs_dpdown : ℤ
  pub btn_a : ℤ
  pub btn_x : ℤ
  pub btn_y : ℤ
  pub btn_b : ℤ
  pub btn_back : ℤ
  pub btn_start : ℤ
  pub btn_guide : ℤ
  pub btn_leftstick : ℤ
  pub btn_rightstick : ℤ
  pub btn_leftshoulder : ℤ
  pub btn_rightshoulder : ℤ
  pub btn_misc1 : ℤ
  pub btn_paddle1 : ℤ
  pub btn_paddle2 : ℤ
  pub btn_paddle3 : ℤ
  pub btn_paddle4 : ℤ
  pub btn_touchpad : ℤ
  pub abs_lefttrigger : ℤ
  pub abs_righttrigger : ℤ
  pub btn_lefttrigger : ℤ
  pub btn_righttrigger : ℤ

-- `struct input_abs_parms`
pub record AbsParms : Type 0 where
  pub min : ℤ
  pub max : ℤ
  pub flat : ℤ
  pub avg : ℤ
  pub range : ℤ
  pub diff : ℤ

-- `struct input_device`. `vendor` and `name_has_xbox` are what libevdev says of the device: its
-- vendor number, and whether it has a name with one of the four spellings. `modifiers`, `buttonFlags` and the triggers
-- are read and written as bits, and are their unsigned values.
pub record Device : Type 0 where
  pub vendor : ℕ
  pub name_has_xbox : Bool
  pub is_touchscreen : Bool
  pub rotate : ℤ
  pub map : Option Mapping
  pub key_map : List ℤ
  pub abs_map : List ℤ
  pub hats_state : List (ℤ × ℤ)
  pub fd : ℤ
  pub modifiers : ℕ
  pub mouse_delta_x : ℤ
  pub mouse_delta_y : ℤ
  pub mouse_v_scroll : ℤ
  pub mouse_h_scroll : ℤ
  pub touch_down_x : ℤ
  pub touch_down_y : ℤ
  pub touch_x : ℤ
  pub touch_y : ℤ
  pub touch_down_time : Timeval
  pub btn_down_time : Timeval
  pub controller_id : ℤ
  pub haptic_effect_id : ℤ
  pub button_flags : ℕ
  pub left_trigger : ℕ
  pub right_trigger : ℕ
  pub left_stick_x : ℤ
  pub left_stick_y : ℤ
  pub right_stick_x : ℤ
  pub right_stick_y : ℤ
  pub gamepad_modified : Bool
  pub mouse_emulation : Bool
  pub x_parms : AbsParms
  pub y_parms : AbsParms
  pub rx_parms : AbsParms
  pub ry_parms : AbsParms
  pub z_parms : AbsParms
  pub rz_parms : AbsParms
  pub left_parms : AbsParms
  pub right_parms : AbsParms
  pub up_parms : AbsParms
  pub down_parms : AbsParms

-- TOUCH_UP
abbrev pub touch_up : ℤ
touch_up = negsuc 0

-- MAX_GAMEPADS
abbrev pub max_gamepads : ℕ
max_gamepads = 16

-- `struct input_event`: its type, and the fields that the handlers read.
pub data EventType : Type 0 where
  ev_syn ev_key ev_rel ev_abs ev_other : EventType

pub record InputEvent : Type 0 where
  pub type : EventType
  pub code : ℕ
  pub value : ℤ
  pub time : Timeval
