-- ===== src/Mappings/Print.antt =====
-- mapping_print of src/input/mapping.c.
use moonlight_allwinner_h.Prelude.{Bool, true, false, ◌∷◌, ◌++◌}
use moonlight_allwinner_h.Prelude.Int.{ℤ, negsuc, ltb_ℤ}
use moonlight_allwinner_h.Gamestream.Text.{Text, codes}
use moonlight_allwinner_h.Config.File.{print_int}
use moonlight_allwinner_h.Evdev.Device.{Mapping}
use moonlight_allwinner_h.Mappings.Parse.{GamepadMapping}

-- An option that is printed on a condition, with its comma, before what follows.
abbrev pub printed_if : Bool → Text → Text → Text
printed_if true option rest = option ++ (b',' ∷ rest)
printed_if false option rest = rest

-- `code > -1`
abbrev pub is_set : ℤ → Bool
is_set v = ltb_ℤ (negsuc 0) v

-- print_btn
abbrev pub print_btn : Text → ℤ → Text → Text
print_btn key v rest = printed_if (is_set v) (key ++ (codes ":b" ++ print_int v)) rest

-- print_abs
abbrev pub print_abs : Text → ℤ → Text → Text
print_abs key v rest = printed_if (is_set v) (key ++ (codes ":a" ++ print_int v)) rest

-- print_hat
abbrev pub print_hat : Text → ℤ → ℤ → Text → Text
print_hat key v d rest =
    printed_if (is_set v) (key ++ (codes ":h" ++ (print_int v ++ (b'.' ∷ print_int d)))) rest

-- The options, in the order of the calls.
unfoldable pub print_indices : Mapping → Text
print_indices m =
    (print_btn (codes "a") m.btn_a (
      print_btn (codes "b") m.btn_b (
        print_btn (codes "x") m.btn_x (
          print_btn (codes "y") m.btn_y (
            print_btn (codes "start") m.btn_start (
              print_btn (codes "guide") m.btn_guide (
                print_btn (codes "back") m.btn_back (
                  print_btn (codes "leftstick") m.btn_leftstick (
                    print_btn (codes "rightstick") m.btn_rightstick (
                      print_btn (codes "leftshoulder") m.btn_leftshoulder (
                        print_btn (codes "rightshoulder") m.btn_rightshoulder (
                          print_btn (codes "dpup") m.btn_dpup (
                            print_btn (codes "dpleft") m.btn_dpleft (
                              print_btn (codes "dpdown") m.btn_dpdown (
                                print_btn (codes "dpright") m.btn_dpright (
                                  print_hat (codes "dpup") m.hat_dpup m.hat_dir_dpup (
                                    print_hat (codes "dpleft") m.hat_dpleft m.hat_dir_dpleft (
                                      print_hat (codes "dpdown") m.hat_dpdown m.hat_dir_dpdown (
                                        print_hat (codes "dpright") m.hat_dpright m.hat_dir_dpright
                                          (print_abs (codes "leftx") m.abs_leftx (
                                            print_abs (codes "lefty") m.abs_lefty (
                                              print_abs (codes "rightx") m.abs_rightx (
                                                print_abs (codes "righty") m.abs_righty (
                                                  print_abs (codes "lefttrigger") m.abs_lefttrigger
                                                    (print_abs (codes "righttrigger")
                                                      m.abs_righttrigger
                                                      (print_btn (codes "lefttrigger")
                                                        m.btn_lefttrigger
                                                        (print_btn (codes "righttrigger")
                                                          m.btn_righttrigger
                                                          (print_btn (codes "misc1") m.btn_misc1 (
                                                            print_btn (codes "paddle1")
                                                            m.btn_paddle1
                                                            (print_btn (codes "paddle2")
                                                            m.btn_paddle2
                                                            (print_btn (codes "paddle3")
                                                            m.btn_paddle3
                                                            (print_btn (codes "paddle4")
                                                            m.btn_paddle4
                                                            (print_btn (codes "touchpad")
                                                            m.btn_touchpad
                                                            (codes
                                                            "platform:Linux\n"))))))))))))))))))))))))))))))))))

unfoldable pub mapping_print : GamepadMapping → Text
mapping_print m = m.guid ++ (b',' ∷ (m.name ++ (b',' ∷ print_indices m.indices)))
