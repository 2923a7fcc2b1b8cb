-- ===== src/Mappings/RoundTrip.antt =====
-- The round trip of a gamepad mapping through mapping_print and mapping_parse of src/input/mapping.c.
use moonlight_allwinner_h.Prelude.{
  ℕ, ◌≡◌, ◌∙◌, refl, ap, Bool, true, false, zero, suc, List, [], ◌∷◌, ◌++◌, some, ◌≤◌, arith,
  if◌then◌else◌, length, take,
}
use moonlight_allwinner_h.Prelude.Int.{ℤ, negsuc, to_short}
use moonlight_allwinner_h.Gamestream.Text.{Text, codes, text_eq}
use moonlight_allwinner_h.Config.File.{skip_space, word}
use moonlight_allwinner_h.Evdev.Device.{Mapping}
use moonlight_allwinner_h.Mappings.Parse.{
  GamepadMapping, split, tokens, until_colon, scan_option, set_option, parse_option, parse_options,
  parse_tokens, no_indices, mapping_parse,
}
use moonlight_allwinner_h.Mappings.Print.{is_set, print_indices, mapping_print}
use moonlight_allwinner_h.Mappings.Scan.{all_of, no_comma, tokens-comma}
use moonlight_allwinner_h.Mappings.Groups.{
  face_buttons, side_buttons, hats, axes, more_buttons, read_face_buttons, read_side_buttons,
  read_hats, read_axes, read_more_buttons,
}

-- The option on the last line.
last_option :
    (m : GamepadMapping)
    → parse_options (tokens (codes "platform:Linux\n")) m ≡ record m { platform = codes "Linux" }
unfolding parse_options tokens split parse_option scan_option until_colon word skip_space set_option
    text_eq
last_option m = refl

-- An index as it is printed and read again: a number from 0 on stays, the others become -1.
abbrev pub kept : ℤ → ℤ → ℤ
kept code v = if is_set code then to_short v else negsuc 0

-- What is left of the indices: mapping_print prints neither the flags nor the axes of the D-pad.
abbrev pub printed_indices : Mapping → Mapping
printed_indices m = record no_indices {
  btn_a = kept m.btn_a m.btn_a;
  btn_b = kept m.btn_b m.btn_b;
  btn_x = kept m.btn_x m.btn_x;
  btn_y = kept m.btn_y m.btn_y;
  btn_start = kept m.btn_start m.btn_start;
  btn_guide = kept m.btn_guide m.btn_guide;
  btn_back = kept m.btn_back m.btn_back;
  btn_leftstick = kept m.btn_leftstick m.btn_leftstick;
  btn_rightstick = kept m.btn_rightstick m.btn_rightstick;
  btn_leftshoulder = kept m.btn_leftshoulder m.btn_leftshoulder;
  btn_rightshoulder = kept m.btn_rightshoulder m.btn_rightshoulder;
  btn_dpup = kept m.btn_dpup m.btn_dpup;
  btn_dpleft = kept m.btn_dpleft m.btn_dpleft;
  btn_dpdown = kept m.btn_dpdown m.btn_dpdown;
  btn_dpright = kept m.btn_dpright m.btn_dpright;
  hat_dpup = kept m.hat_dpup m.hat_dpup;
  hat_dir_dpup = kept m.hat_dpup m.hat_dir_dpup;
  hat_dpleft = kept m.hat_dpleft m.hat_dpleft;
  hat_dir_dpleft = kept m.hat_dpleft m.hat_dir_dpleft;
  hat_dpdown = kept m.hat_dpdown m.hat_dpdown;
  hat_dir_dpdown = kept m.hat_dpdown m.hat_dir_dpdown;
  hat_dpright = kept m.hat_dpright m.hat_dpright;
  hat_dir_dpright = kept m.hat_dpright m.hat_dir_dpright;
  abs_leftx = kept m.abs_leftx m.abs_leftx;
  abs_lefty = kept m.abs_lefty m.abs_lefty;
  abs_rightx = kept m.abs_rightx m.abs_rightx;
  abs_righty = kept m.abs_righty m.abs_righty;
  abs_lefttrigger = kept m.abs_lefttrigger m.abs_lefttrigger;
  abs_righttrigger = kept m.abs_righttrigger m.abs_righttrigger;
  btn_lefttrigger = kept m.btn_lefttrigger m.btn_lefttrigger;
  btn_righttrigger = kept m.btn_righttrigger m.btn_righttrigger;
  btn_misc1 = kept m.btn_misc1 m.btn_misc1;
  btn_paddle1 = kept m.btn_paddle1 m.btn_paddle1;
  btn_paddle2 = kept m.btn_paddle2 m.btn_paddle2;
  btn_paddle3 = kept m.btn_paddle3 m.btn_paddle3;
  btn_paddle4 = kept m.btn_paddle4 m.btn_paddle4;
  btn_touchpad = kept m.btn_touchpad m.btn_touchpad;
}

same_kept : {A : Type 0} (b : Bool) (x : A) → (if b then x else x) ≡ x
same_kept true x = refl
same_kept false x = refl

-- The flags of the axes, which are off where they are read and where they are not.
flags_off :
    (i : Mapping) (a b c d : Bool) (x y : ℕ)
    → a ≡ false
    → b ≡ false
    → c ≡ false
    → d ≡ false
    → x ≡ 0
    → y ≡ 0
    → record i {
      reverse_leftx = a;
      reverse_lefty = b;
      reverse_rightx = c;
      reverse_righty = d;
      halfaxis_lefttrigger = x;
      halfaxis_righttrigger = y;
    }
      ≡ record i {
        reverse_leftx = false;
        reverse_lefty = false;
        reverse_rightx = false;
        reverse_righty = false;
        halfaxis_lefttrigger = 0;
        halfaxis_righttrigger = 0;
      }
flags_off i a b c d x y ea eb ec ed ex ey = rw (ea, eb, ec, ed, ex, ey) refl

read_indices :
    (m : Mapping) (guid name : Text)
    → parse_options
        (tokens (print_indices m))
        (record { guid = guid; platform = []; name = name; indices = no_indices })
      ≡ record { guid = guid; platform = codes "Linux"; name = name; indices = printed_indices m }
unfolding print_indices no_indices face_buttons side_buttons hats axes more_buttons
read_indices m guid name =
    read_face_buttons m _ _
    ∙ read_side_buttons m _ _
    ∙ read_hats m _ _
    ∙ read_axes m _ _
    ∙ read_more_buttons m _ _
    ∙ last_option _
    ∙ ap (λ i. record { guid = guid; platform = codes "Linux"; name = name; indices = i })
        (flags_off (printed_indices m) _ _ _ _ _ _ (same_kept (is_set m.abs_leftx) false)
          (same_kept (is_set m.abs_lefty) false) (same_kept (is_set m.abs_rightx) false)
          (same_kept (is_set m.abs_righty) false) (same_kept (is_set m.abs_lefttrigger) 0)
          (same_kept (is_set m.abs_righttrigger) 0))

-- A text that can be a field of a printed mapping: it has no comma and is not empty.
abbrev pub is_field : Text → Bool
is_field [] = false
is_field (c ∷ t) = all_of no_comma (c ∷ t)

take-all : {A : Type 0} (n : ℕ) (xs : List A) → length xs ≤ n → take n xs ≡ xs
take-all zero [] h = refl
take-all zero (x ∷ xs) h = absurd (omega arith)
take-all (suc n) [] h = refl
take-all (suc n) (x ∷ xs) h = ap (λ ys. x ∷ ys) (take-all n xs (omega arith))

-- A mapping that is printed and parsed again has its GUID, its name and every button, hat and
-- stick, where the GUID and the name are texts that are not empty, have no comma and fit their
-- arrays: an index from 0 on stays and every other one is -1. Its platform is Linux, and the
-- reversed sticks, the half axes and the axes of the D-pad are lost.
pub print_round_trip :
    (m : GamepadMapping)
    → is_field m.guid ≡ true
    → length m.guid ≤ 32
    → is_field m.name ≡ true
    → length m.name ≤ 256
    → mapping_parse (mapping_print m)
      ≡ some (record {
        guid = m.guid;
        platform = codes "Linux";
        name = m.name;
        indices = printed_indices m.indices;
      })
unfolding mapping_parse mapping_print
print_round_trip m hg lg hn ln = fields m.guid m.name hg lg hn ln
  where
    fields :
        (guid name : Text)
        → is_field guid ≡ true
        → length guid ≤ 32
        → is_field name ≡ true
        → length name ≤ 256
        → parse_tokens (tokens (guid ++ (b',' ∷ (name ++ (b',' ∷ print_indices m.indices)))))
          ≡ some (record {
            guid = guid;
            platform = codes "Linux";
            name = name;
            indices = printed_indices m.indices;
          })
    fields [] name hg lg hn ln = cc
    fields (g ∷ gs) [] hg lg hn ln = cc
    fields (g ∷ gs) (n ∷ ns) hg lg hn ln =
        rw
          (
            tokens-comma g gs ((n ∷ ns) ++ (b',' ∷ print_indices m.indices)) hg,
            tokens-comma n ns (print_indices m.indices) hn,
          )
          (ap some (
            rw (take-all 31 gs (omega arith), take-all 255 ns (omega arith))
              (read_indices m.indices (g ∷ gs) (n ∷ ns))))
