-- ===== src/Mappings/Tests.antt =====
-- Runs of the model of src/input/mapping.c.
use moonlight_allwinner_h.Prelude.{◌≡◌, refl, true, [], some, arith}
use moonlight_allwinner_h.Prelude.Int.{pos, to_short}
use moonlight_allwinner_h.Gamestream.Text.{codes, text_eq, digits_value}
use moonlight_allwinner_h.Config.File.{skip_space, word}
use moonlight_allwinner_h.Evdev.Sample.{hat_mapping}
use moonlight_allwinner_h.Mappings.Parse.{
  GamepadMapping, split, tokens, until_colon, scan_option, span_digits, scan_int, scan_button,
  scan_axis, scan_hat, set_button, set_axis, set_hat, set_index, set_option, parse_option,
  parse_options, no_indices, mapping_parse,
}
use moonlight_allwinner_h.Mappings.Print.{mapping_print}
use moonlight_allwinner_h.Mappings.RoundTrip.{printed_indices, print_round_trip}

abbrev pad : GamepadMapping
pad = record { guid = codes "03000000"; platform = []; name = codes "A Pad"; indices = hat_mapping }

-- A button, a reversed stick and half an axis are read.
reads_line :
    mapping_parse (codes "0,Pad,a:b3,leftx:a1~,lefttrigger:+a2,dpup:h0.1,\n")
    ≡ some (record {
      guid = codes "0";
      platform = [];
      name = codes "Pad";
      indices = record no_indices {
        btn_a = pos 3;
        abs_leftx = pos 1;
        reverse_leftx = true;
        abs_lefttrigger = pos 2;
        halfaxis_lefttrigger = b'+';
        hat_dpup = pos 0;
        hat_dir_dpup = pos 1;
      };
    })
unfolding mapping_parse tokens split parse_options parse_option scan_option until_colon word
    skip_space scan_int span_digits scan_button scan_axis scan_hat set_button set_axis set_hat
    set_index set_option text_eq digits_value to_short no_indices
reads_line = refl

print_round_trip_example :
    mapping_parse (mapping_print pad)
    ≡ some (record {
      guid = codes "03000000";
      platform = codes "Linux";
      name = codes "A Pad";
      indices = printed_indices hat_mapping;
    })
print_round_trip_example = print_round_trip pad refl (omega arith) refl (omega arith)
