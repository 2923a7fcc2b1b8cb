-- ===== src/Mappings/Groups.antt =====
-- The groups of options that mapping_print of src/input/mapping.c prints, read back one group at a time.
use moonlight_allwinner_h.Prelude.{◌≡◌, ◌∙◌, refl, false, if◌then◌else◌}
use moonlight_allwinner_h.Prelude.Int.{ℤ, to_short}
use moonlight_allwinner_h.Gamestream.Text.{Text, codes, text_eq}
use moonlight_allwinner_h.Evdev.Device.{Mapping}
use moonlight_allwinner_h.Mappings.Parse.{
  GamepadMapping, tokens, set_button, set_axis, set_hat, parse_options,
}
use moonlight_allwinner_h.Mappings.Print.{is_set, print_btn, print_abs, print_hat}
use moonlight_allwinner_h.Mappings.Indices.{read_btn, read_abs, read_hat}

-- An index as it is printed and read again, in place of an old one: a number from 0 on, or the old one.
abbrev pub or_old {ℓ} : {A : Type ℓ} → ℤ → A → A → A
or_old code new old = if is_set code then new else old

-- Each group sets what is printed of `src`.
module _ (src : Mapping) where
  unfoldable pub face_buttons : GamepadMapping → GamepadMapping
  face_buttons m = record m {
    indices = record m.indices {
      btn_a = or_old src.btn_a (to_short src.btn_a) m.indices.btn_a;
      btn_b = or_old src.btn_b (to_short src.btn_b) m.indices.btn_b;
      btn_x = or_old src.btn_x (to_short src.btn_x) m.indices.btn_x;
      btn_y = or_old src.btn_y (to_short src.btn_y) m.indices.btn_y;
      btn_start = or_old src.btn_start (to_short src.btn_start) m.indices.btn_start;
      btn_guide = or_old src.btn_guide (to_short src.btn_guide) m.indices.btn_guide;
      btn_back = or_old src.btn_back (to_short src.btn_back) m.indices.btn_back;
    };
  }

  unfoldable pub side_buttons : GamepadMapping → GamepadMapping
  side_buttons m = record m {
    indices = record m.indices {
      btn_leftstick = or_old src.btn_leftstick (to_short src.btn_leftstick) m.indices.btn_leftstick;
      btn_rightstick =
          or_old src.btn_rightstick (to_short src.btn_rightstick) m.indices.btn_rightstick;
      btn_leftshoulder =
          or_old src.btn_leftshoulder (to_short src.btn_leftshoulder) m.indices.btn_leftshoulder;
      btn_rightshoulder =
          or_old src.btn_rightshoulder (to_short src.btn_rightshoulder) m.indices.btn_rightshoulder;
      btn_dpup = or_old src.btn_dpup (to_short src.btn_dpup) m.indices.btn_dpup;
      btn_dpleft = or_old src.btn_dpleft (to_short src.btn_dpleft) m.indices.btn_dpleft;
      btn_dpdown = or_old src.btn_dpdown (to_short src.btn_dpdown) m.indices.btn_dpdown;
      btn_dpright = or_old src.btn_dpright (to_short src.btn_dpright) m.indices.btn_dpright;
    };
  }

  unfoldable pub hats : GamepadMapping → GamepadMapping
  hats m = record m {
    indices = record m.indices {
      hat_dpup = or_old src.hat_dpup (to_short src.hat_dpup) m.indices.hat_dpup;
      hat_dir_dpup = or_old src.hat_dpup (to_short src.hat_dir_dpup) m.indices.hat_dir_dpup;
      hat_dpleft = or_old src.hat_dpleft (to_short src.hat_dpleft) m.indices.hat_dpleft;
      hat_dir_dpleft = or_old src.hat_dpleft (to_short src.hat_dir_dpleft) m.indices.hat_dir_dpleft;
      hat_dpdown = or_old src.hat_dpdown (to_short src.hat_dpdown) m.indices.hat_dpdown;
      hat_dir_dpdown = or_old src.hat_dpdown (to_short src.hat_dir_dpdown) m.indices.hat_dir_dpdown;
      hat_dpright = or_old src.hat_dpright (to_short src.hat_dpright) m.indices.hat_dpright;
      hat_dir_dpright =
          or_old src.hat_dpright (to_short src.hat_dir_dpright) m.indices.hat_dir_dpright;
    };
  }

  unfoldable pub axes : GamepadMapping → GamepadMapping
  axes m = record m {
    indices = record m.indices {
      abs_leftx = or_old src.abs_leftx (to_short src.abs_leftx) m.indices.abs_leftx;
      reverse_leftx = or_old src.abs_leftx false m.indices.reverse_leftx;
      abs_lefty = or_old src.abs_lefty (to_short src.abs_lefty) m.indices.abs_lefty;
      reverse_lefty = or_old src.abs_lefty false m.indices.reverse_lefty;
      abs_rightx = or_old src.abs_rightx (to_short src.abs_rightx) m.indices.abs_rightx;
      reverse_rightx = or_old src.abs_rightx false m.indices.reverse_rightx;
      abs_righty = or_old src.abs_righty (to_short src.abs_righty) m.indices.abs_righty;
      reverse_righty = or_old src.abs_righty false m.indices.reverse_righty;
      abs_lefttrigger =
          or_old src.abs_lefttrigger (to_short src.abs_lefttrigger) m.indices.abs_lefttrigger;
      halfaxis_lefttrigger = or_old src.abs_lefttrigger 0 m.indices.halfaxis_lefttrigger;
      abs_righttrigger =
          or_old src.abs_righttrigger (to_short src.abs_righttrigger) m.indices.abs_righttrigger;
      halfaxis_righttrigger = or_old src.abs_righttrigger 0 m.indices.halfaxis_righttrigger;
    };
  }

  unfoldable pub more_buttons : GamepadMapping → GamepadMapping
  more_buttons m = record m {
    indices = record m.indices {
      btn_lefttrigger =
          or_old src.btn_lefttrigger (to_short src.btn_lefttrigger) m.indices.btn_lefttrigger;
      btn_righttrigger =
          or_old src.btn_righttrigger (to_short src.btn_righttrigger) m.indices.btn_righttrigger;
      btn_misc1 = or_old src.btn_misc1 (to_short src.btn_misc1) m.indices.btn_misc1;
      btn_paddle1 = or_old src.btn_paddle1 (to_short src.btn_paddle1) m.indices.btn_paddle1;
      btn_paddle2 = or_old src.btn_paddle2 (to_short src.btn_paddle2) m.indices.btn_paddle2;
      btn_paddle3 = or_old src.btn_paddle3 (to_short src.btn_paddle3) m.indices.btn_paddle3;
      btn_paddle4 = or_old src.btn_paddle4 (to_short src.btn_paddle4) m.indices.btn_paddle4;
      btn_touchpad = or_old src.btn_touchpad (to_short src.btn_touchpad) m.indices.btn_touchpad;
    };
  }

module _ (src : Mapping) (rest : Text) (m : GamepadMapping) where
  pub read_face_buttons :
      parse_options
        (tokens (
          (print_btn (codes "a") src.btn_a (
            print_btn (codes "b") src.btn_b (
              print_btn (codes "x") src.btn_x (
                print_btn (codes "y") src.btn_y (
                  print_btn (codes "start") src.btn_start (
                    print_btn
                      (codes "guide")
                      src.btn_guide
                      (print_btn (codes "back") src.btn_back rest)))))))))
        m
      ≡ parse_options (tokens rest) (face_buttons src m)
  unfolding face_buttons set_button text_eq
  read_face_buttons =
      read_btn (λ b i. record i { btn_a = if b then to_short src.btn_a else i.btn_a }) (λ i. refl)
        b'a' (codes "") src.btn_a _ _ refl refl refl
      ∙ read_btn (λ b i. record i { btn_b = if b then to_short src.btn_b else i.btn_b }) (λ i. refl)
          b'b' (codes "") src.btn_b _ _ refl refl refl
      ∙ read_btn (λ b i. record i { btn_x = if b then to_short src.btn_x else i.btn_x }) (λ i. refl)
          b'x' (codes "") src.btn_x _ _ refl refl refl
      ∙ read_btn (λ b i. record i { btn_y = if b then to_short src.btn_y else i.btn_y }) (λ i. refl)
          b'y' (codes "") src.btn_y _ _ refl refl refl
      ∙ read_btn (λ b i. record i { btn_start = if b then to_short src.btn_start else i.btn_start })
          (λ i. refl) b's' (codes "tart") src.btn_start _ _ refl refl refl
      ∙ read_btn (λ b i. record i { btn_guide = if b then to_short src.btn_guide else i.btn_guide })
          (λ i. refl) b'g' (codes "uide") src.btn_guide _ _ refl refl refl
      ∙ read_btn (λ b i. record i { btn_back = if b then to_short src.btn_back else i.btn_back })
          (λ i. refl) b'b' (codes "ack") src.btn_back _ _ refl refl refl

  pub read_side_buttons :
      parse_options
        (tokens (
          (print_btn (codes "leftstick") src.btn_leftstick (
            print_btn (codes "rightstick") src.btn_rightstick (
              print_btn (codes "leftshoulder") src.btn_leftshoulder (
                print_btn (codes "rightshoulder") src.btn_rightshoulder (
                  print_btn (codes "dpup") src.btn_dpup (
                    print_btn (codes "dpleft") src.btn_dpleft (
                      print_btn
                        (codes "dpdown")
                        src.btn_dpdown
                        (print_btn (codes "dpright") src.btn_dpright rest))))))))))
        m
      ≡ parse_options (tokens rest) (side_buttons src m)
  unfolding side_buttons set_button text_eq
  read_side_buttons =
      read_btn
        (λ b i. record i {
          btn_leftstick = if b then to_short src.btn_leftstick else i.btn_leftstick;
        })
        (λ i. refl) b'l' (codes "eftstick") src.btn_leftstick _ _ refl refl refl
      ∙ read_btn
          (λ b i. record i {
            btn_rightstick = if b then to_short src.btn_rightstick else i.btn_rightstick;
          })
          (λ i. refl) b'r' (codes "ightstick") src.btn_rightstick _ _ refl refl refl
      ∙ read_btn
          (λ b i. record i {
            btn_leftshoulder = if b then to_short src.btn_leftshoulder else i.btn_leftshoulder;
          })
          (λ i. refl) b'l' (codes "eftshoulder") src.btn_leftshoulder _ _ refl refl refl
      ∙ read_btn
          (λ b i. record i {
            btn_rightshoulder = if b then to_short src.btn_rightshoulder else i.btn_rightshoulder;
          })
          (λ i. refl) b'r' (codes "ightshoulder") src.btn_rightshoulder _ _ refl refl refl
      ∙ read_btn (λ b i. record i { btn_dpup = if b then to_short src.btn_dpup else i.btn_dpup })
          (λ i. refl) b'd' (codes "pup") src.btn_dpup _ _ refl refl refl
      ∙ read_btn
          (λ b i. record i { btn_dpleft = if b then to_short src.btn_dpleft else i.btn_dpleft })
          (λ i. refl) b'd' (codes "pleft") src.btn_dpleft _ _ refl refl refl
      ∙ read_btn
          (λ b i. record i { btn_dpdown = if b then to_short src.btn_dpdown else i.btn_dpdown })
          (λ i. refl) b'd' (codes "pdown") src.btn_dpdown _ _ refl refl refl
      ∙ read_btn
          (λ b i. record i { btn_dpright = if b then to_short src.btn_dpright else i.btn_dpright })
          (λ i. refl) b'd' (codes "pright") src.btn_dpright _ _ refl refl refl

  pub read_hats :
      parse_options
        (tokens (
          (print_hat (codes "dpup") src.hat_dpup src.hat_dir_dpup (
            print_hat (codes "dpleft") src.hat_dpleft src.hat_dir_dpleft (
              print_hat
                (codes "dpdown")
                src.hat_dpdown
                src.hat_dir_dpdown
                (print_hat (codes "dpright") src.hat_dpright src.hat_dir_dpright rest))))))
        m
      ≡ parse_options (tokens rest) (hats src m)
  unfolding hats set_hat text_eq
  read_hats =
      read_hat
        (λ b i. record i {
          hat_dpup = if b then to_short src.hat_dpup else i.hat_dpup;
          hat_dir_dpup = if b then to_short src.hat_dir_dpup else i.hat_dir_dpup;
        })
        (λ i. refl) b'd' (codes "pup") src.hat_dpup src.hat_dir_dpup _ _ refl refl refl
      ∙ read_hat
          (λ b i. record i {
            hat_dpleft = if b then to_short src.hat_dpleft else i.hat_dpleft;
            hat_dir_dpleft = if b then to_short src.hat_dir_dpleft else i.hat_dir_dpleft;
          })
          (λ i. refl) b'd' (codes "pleft") src.hat_dpleft src.hat_dir_dpleft _ _ refl refl refl
      ∙ read_hat
          (λ b i. record i {
            hat_dpdown = if b then to_short src.hat_dpdown else i.hat_dpdown;
            hat_dir_dpdown = if b then to_short src.hat_dir_dpdown else i.hat_dir_dpdown;
          })
          (λ i. refl) b'd' (codes "pdown") src.hat_dpdown src.hat_dir_dpdown _ _ refl refl refl
      ∙ read_hat
          (λ b i. record i {
            hat_dpright = if b then to_short src.hat_dpright else i.hat_dpright;
            hat_dir_dpright = if b then to_short src.hat_dir_dpright else i.hat_dir_dpright;
          })
          (λ i. refl) b'd' (codes "pright") src.hat_dpright src.hat_dir_dpright _ _ refl refl refl

  pub read_axes :
      parse_options
        (tokens (
          (print_abs (codes "leftx") src.abs_leftx (
            print_abs (codes "lefty") src.abs_lefty (
              print_abs (codes "rightx") src.abs_rightx (
                print_abs (codes "righty") src.abs_righty (
                  print_abs
                    (codes "lefttrigger")
                    src.abs_lefttrigger
                    (print_abs (codes "righttrigger") src.abs_righttrigger rest))))))))
        m
      ≡ parse_options (tokens rest) (axes src m)
  unfolding axes set_axis text_eq
  read_axes =
      read_abs
        (λ b i. record i {
          abs_leftx = if b then to_short src.abs_leftx else i.abs_leftx;
          reverse_leftx = if b then false else i.reverse_leftx;
        })
        (λ i. refl) b'l' (codes "eftx") src.abs_leftx _ _ refl refl refl
      ∙ read_abs
          (λ b i. record i {
            abs_lefty = if b then to_short src.abs_lefty else i.abs_lefty;
            reverse_lefty = if b then false else i.reverse_lefty;
          })
          (λ i. refl) b'l' (codes "efty") src.abs_lefty _ _ refl refl refl
      ∙ read_abs
          (λ b i. record i {
            abs_rightx = if b then to_short src.abs_rightx else i.abs_rightx;
            reverse_rightx = if b then false else i.reverse_rightx;
          })
          (λ i. refl) b'r' (codes "ightx") src.abs_rightx _ _ refl refl refl
      ∙ read_abs
          (λ b i. record i {
            abs_righty = if b then to_short src.abs_righty else i.abs_righty;
            reverse_righty = if b then false else i.reverse_righty;
          })
          (λ i. refl) b'r' (codes "ighty") src.abs_righty _ _ refl refl refl
      ∙ read_abs
          (λ b i. record i {
            abs_lefttrigger = if b then to_short src.abs_lefttrigger else i.abs_lefttrigger;
            halfaxis_lefttrigger = if b then 0 else i.halfaxis_lefttrigger;
          })
          (λ i. refl) b'l' (codes "efttrigger") src.abs_lefttrigger _ _ refl refl refl
      ∙ read_abs
          (λ b i. record i {
            abs_righttrigger = if b then to_short src.abs_righttrigger else i.abs_righttrigger;
            halfaxis_righttrigger = if b then 0 else i.halfaxis_righttrigger;
          })
          (λ i. refl) b'r' (codes "ighttrigger") src.abs_righttrigger _ _ refl refl refl

  pub read_more_buttons :
      parse_options
        (tokens (
          (print_btn (codes "lefttrigger") src.btn_lefttrigger (
            print_btn (codes "righttrigger") src.btn_righttrigger (
              print_btn (codes "misc1") src.btn_misc1 (
                print_btn (codes "paddle1") src.btn_paddle1 (
                  print_btn (codes "paddle2") src.btn_paddle2 (
                    print_btn (codes "paddle3") src.btn_paddle3 (
                      print_btn
                        (codes "paddle4")
                        src.btn_paddle4
                        (print_btn (codes "touchpad") src.btn_touchpad rest))))))))))
        m
      ≡ parse_options (tokens rest) (more_buttons src m)
  unfolding more_buttons set_button text_eq
  read_more_buttons =
      read_btn
        (λ b i. record i {
          btn_lefttrigger = if b then to_short src.btn_lefttrigger else i.btn_lefttrigger;
        })
        (λ i. refl) b'l' (codes "efttrigger") src.btn_lefttrigger _ _ refl refl refl
      ∙ read_btn
          (λ b i. record i {
            btn_righttrigger = if b then to_short src.btn_righttrigger else i.btn_righttrigger;
          })
          (λ i. refl) b'r' (codes "ighttrigger") src.btn_righttrigger _ _ refl refl refl
      ∙ read_btn (λ b i. record i { btn_misc1 = if b then to_short src.btn_misc1 else i.btn_misc1 })
          (λ i. refl) b'm' (codes "isc1") src.btn_misc1 _ _ refl refl refl
      ∙ read_btn
          (λ b i. record i { btn_paddle1 = if b then to_short src.btn_paddle1 else i.btn_paddle1 })
          (λ i. refl) b'p' (codes "addle1") src.btn_paddle1 _ _ refl refl refl
      ∙ read_btn
          (λ b i. record i { btn_paddle2 = if b then to_short src.btn_paddle2 else i.btn_paddle2 })
          (λ i. refl) b'p' (codes "addle2") src.btn_paddle2 _ _ refl refl refl
      ∙ read_btn
          (λ b i. record i { btn_paddle3 = if b then to_short src.btn_paddle3 else i.btn_paddle3 })
          (λ i. refl) b'p' (codes "addle3") src.btn_paddle3 _ _ refl refl refl
      ∙ read_btn
          (λ b i. record i { btn_paddle4 = if b then to_short src.btn_paddle4 else i.btn_paddle4 })
          (λ i. refl) b'p' (codes "addle4") src.btn_paddle4 _ _ refl refl refl
      ∙ read_btn
          (λ b i. record i {
            btn_touchpad = if b then to_short src.btn_touchpad else i.btn_touchpad;
          })
          (λ i. refl) b't' (codes "ouchpad") src.btn_touchpad _ _ refl refl refl
