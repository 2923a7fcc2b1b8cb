-- ===== src/Sdl/Host.antt =====
-- What src/input/sdl.c takes from SDL 2.24 or later, which is not in the repository: the numbers of
-- its enumerations, its answers about controllers and the window, and the arithmetic of `float`.
use moonlight_allwinner_h.Prelude.{ℕ, Bool}
use moonlight_allwinner_h.Prelude.Int.{ℤ}

-- <SDL_scancode.h>
pub record Scancodes : Type 0 where
  pub scancode_1 : ℕ
  pub scancode_9 : ℕ
  pub scancode_a : ℕ
  pub scancode_z : ℕ
  pub scancode_f1 : ℕ
  pub scancode_f12 : ℕ
  pub scancode_f13 : ℕ
  pub scancode_f24 : ℕ
  pub scancode_kp_1 : ℕ
  pub scancode_kp_9 : ℕ
  pub scancode_backspace : ℕ
  pub scancode_tab : ℕ
  pub scancode_clear : ℕ
  pub scancode_kp_enter : ℕ
  pub scancode_return : ℕ
  pub scancode_pause : ℕ
  pub scancode_capslock : ℕ
  pub scancode_escape : ℕ
  pub scancode_space : ℕ
  pub scancode_pageup : ℕ
  pub scancode_pagedown : ℕ
  pub scancode_end : ℕ
  pub scancode_home : ℕ
  pub scancode_left : ℕ
  pub scancode_up : ℕ
  pub scancode_right : ℕ
  pub scancode_down : ℕ
  pub scancode_select : ℕ
  pub scancode_execute : ℕ
  pub scancode_printscreen : ℕ
  pub scancode_insert : ℕ
  pub scancode_delete : ℕ
  pub scancode_help : ℕ
  pub scancode_kp_0 : ℕ
  pub scancode_0 : ℕ
  pub scancode_kp_multiply : ℕ
  pub scancode_kp_plus : ℕ
  pub scancode_kp_comma : ℕ
  pub scancode_kp_minus : ℕ
  pub scancode_kp_period : ℕ
  pub scancode_kp_divide : ℕ
  pub scancode_numlockclear : ℕ
  pub scancode_scrolllock : ℕ
  pub scancode_lshift : ℕ
  pub scancode_rshift : ℕ
  pub scancode_lctrl : ℕ
  pub scancode_rctrl : ℕ
  pub scancode_lalt : ℕ
  pub scancode_ralt : ℕ
  pub scancode_lgui : ℕ
  pub scancode_rgui : ℕ
  pub scancode_application : ℕ
  pub scancode_ac_back : ℕ
  pub scancode_ac_forward : ℕ
  pub scancode_ac_refresh : ℕ
  pub scancode_ac_stop : ℕ
  pub scancode_ac_search : ℕ
  pub scancode_ac_bookmarks : ℕ
  pub scancode_ac_home : ℕ
  pub scancode_semicolon : ℕ
  pub scancode_equals : ℕ
  pub scancode_comma : ℕ
  pub scancode_minus : ℕ
  pub scancode_period : ℕ
  pub scancode_slash : ℕ
  pub scancode_grave : ℕ
  pub scancode_leftbracket : ℕ
  pub scancode_backslash : ℕ
  pub scancode_rightbracket : ℕ
  pub scancode_apostrophe : ℕ
  pub scancode_nonusbackslash : ℕ

-- The keycodes, modifiers, buttons, axes, sensors and types of controllers.
pub record Numbers : Type 0 where
  pub sdlk_q : ℕ
  pub sdlk_f : ℕ
  pub sdlk_z : ℕ
  pub kmod_ctrl : ℕ
  pub kmod_alt : ℕ
  pub kmod_shift : ℕ
  pub kmod_gui : ℕ
  pub mouse_left : ℕ
  pub mouse_middle : ℕ
  pub mouse_right : ℕ
  pub mouse_x1 : ℕ
  pub mouse_x2 : ℕ
  pub axis_leftx : ℕ
  pub axis_lefty : ℕ
  pub axis_rightx : ℕ
  pub axis_righty : ℕ
  pub axis_triggerleft : ℕ
  pub axis_triggerright : ℕ
  pub sensor_accel : ℕ
  pub sensor_gyro : ℕ
  pub type_xbox360 : ℕ
  pub type_xboxone : ℕ
  pub type_ps3 : ℕ
  pub type_ps4 : ℕ
  pub type_switch_pro : ℕ
  pub type_ps5 : ℕ
  pub type_joycon_left : ℕ
  pub type_joycon_right : ℕ
  pub type_joycon_pair : ℕ

-- What SDL answers. A controller is a number, 0 where it is NULL.
pub record Calls : Type 0 where
  pub open_controller : ℤ → ℕ
  pub instance_id : ℕ → ℤ
  pub has_button : ℕ → ℕ → Bool
  pub has_axis_bind : ℕ → ℕ → Bool
  pub has_rumble : ℕ → Bool
  pub has_rumble_triggers : ℕ → Bool
  pub num_touchpads : ℕ → ℤ
  pub has_sensor : ℕ → ℕ → Bool
  pub has_led : ℕ → Bool
  pub controller_type : ℕ → ℕ
  pub num_joysticks : ℕ
  pub is_game_controller : ℕ → Bool
  pub relative_mouse_mode : Bool
  pub window_width : ℤ
  pub window_height : ℤ

-- `float`, with the comparisons of SDL_min and SDL_max and the conversion to `short`
pub record Floats (F : Type 0) : Type 0 where
  pub zero_f : F
  pub one_f : F
  pub wheel_delta : F
  pub degrees : F
  pub times : F → F → F
  pub less : F → F → Bool
  pub to_short_f : F → ℤ
