-- ===== src/Config/Tests.antt =====
-- Runs of the model of src/config.c.
use moonlight_allwinner_h.Prelude.{
  Bool, List, [], arith, false, get_elem?, if◌then◌else◌, length, none, refl, some, some-injective,
  sym, true, ℕ, ◌+◌, ◌∙◌, ◌∷◌, ◌≡◌, ◌≤◌,
}
use moonlight_allwinner_h.Prelude.Int.{to_int, pos, negsuc, ◌≤ℤ◌, ◌*ℤ◌}
use moonlight_allwinner_h.Gamestream.Text.{Text, codes, text_eq}
use moonlight_allwinner_h.Config.Types.{Config, Constants, System, ok}
use moonlight_allwinner_h.Config.Path.{
  segments, data_dirs, or_else, candidate, search_dirs, get_path, data_dirs_size, path_size,
}
use moonlight_allwinner_h.Config.Argument.{add_input, set_key_dir, parse_argument}
use moonlight_allwinner_h.Config.File.{
  scan_line, word, skip_space, lines, config_file_parse, decimal_on, decimal, print_int,
  write_config_string, saved,
}
use moonlight_allwinner_h.Config.Defaults.{
  default_config, default_encryption, read_default_file, parse_options, parse_command, base_bitrate,
  set_bitrate, set_default_key_dir, save_config, finish_config, config_parse,
}
use moonlight_allwinner_h.Config.RoundTrip.{saved_round_trip, with_settings}
use moonlight_allwinner_h.Config.Fits.{IsShort, empty_short, FilesAllowed, config_parse-key_dir}
use moonlight_allwinner_h.Config.Search.{get_path_fits, set_bitrate_mono}

abbrev constants : Constants
constants = record {
  stream_cfg_auto = pos 2;
  stream_cfg_remote = pos 1;
  stream_cfg_local = pos 0;
  audio_configuration_stereo = pos 770;
  audio_configuration_51_surround = pos 4128522;
  audio_configuration_71_surround = pos 104859850;
  scm_h264 = pos 1;
  encflg_all = negsuc 0;
  encflg_none = pos 0;
  encflg_audio = pos 1;
}

-- Full HD pictures for `Game`, in packets of 1392 bytes.
abbrev text : Text
text = codes "width = 1920\nheight = 1080\npacketsize = 1392\nsops = false\napp = Game\n"

-- One file, `f`, that holds a text; `double` as exact fractions of whole rates.
abbrev system_of : Text → System
system_of t = record {
  read_file = λ f. if text_eq f (codes "f") then some t else none;
  is_readable = λ f. false;
  xdg_config_dir = none;
  xdg_data_dirs = none;
  xdg_cache_dir = none;
  home = some (codes "/home/a");
  user_dir = codes "/home/a";
  is_writable = λ f. true;
  has_fast_aes = false;
  has_slow_aes = false;
  scale_bitrate = λ base fps. pos base;
}

abbrev game : Config
game = record (default_config constants (system_of text)) {
  width = pos 1920;
  height = pos 1080;
  sops = false;
  app = codes "Game";
}

-- config_save writes the text.
saves_text : saved game ≡ text
unfolding saved default_config text_eq write_config_string print_int decimal decimal_on
saves_text = refl

holds_saved : (system_of (saved game)).read_file (codes "f") ≡ some (saved game)
unfolding text_eq
holds_saved = refl

saved_round_trip_example :
    config_file_parse constants
      (system_of (saved game))
      1
      (codes "f")
      (default_config constants (system_of (saved game)))
    ≡ ok (true, with_settings constants (system_of (saved game)) game)
saved_round_trip_example =
    saved_round_trip constants (system_of (saved game)) 0 (codes "f") game (refl, refl) holds_saved

abbrev options : List (ℕ × Text)
options = (b'j', codes "/dev/input/event0") ∷ (b'r', codes "/keys") ∷ []

abbrev parsed : Config
parsed = record (default_config constants (system_of text)) {
  bitrate = pos 5000;
  key_dir = codes "/keys";
  inputs = codes "/dev/input/event0" ∷ [];
  input_added = true;
}

-- The only file has one line, with a short value.
abbrev line : Text
line = codes "app = Game\n"

scans_line : scan_line (codes "app = Game") ≡ some (codes "app", codes "Game")
unfolding scan_line word skip_space
scans_line = refl

only_text : (b : Bool) (t : Text) → (if b then some line else none) ≡ some t → line ≡ t
only_text true t h = some-injective h
only_text false t h = absurd cc

short_value : (kv : Text × Text) → scan_line (codes "app = Game") ≡ some kv → IsShort kv.1
short_value kv h = rw (← some-injective (sym scans_line ∙ h)) (omega arith)

short_files : FilesAllowed IsShort empty_short (system_of line)
unfolding lines
short_files f t h = rw (← only_text (text_eq f (codes "f")) t h) (short_value, tt)

parses_short : config_parse constants (system_of line) 1 none options ≡ ok (parsed, none)
unfolding config_parse read_default_file get_path search_dirs segments data_dirs or_else candidate
    parse_command parse_options parse_argument add_input default_config set_key_dir finish_config
    save_config set_bitrate set_default_key_dir base_bitrate ◌*ℤ◌ default_encryption to_int
parses_short = refl

config_parse-key_dir_example : IsShort parsed.key_dir
config_parse-key_dir_example =
    config_parse-key_dir constants (system_of line) 1 none options {c = parsed} {written = none}
      short_files (omega arith, (omega arith, tt)) parses_short

first_segment : get_elem? (segments (data_dirs (system_of text) none)) 1 ≡ some (codes "/home/a")
unfolding segments data_dirs or_else
first_segment = refl

get_path_fits_example :
    (length (data_dirs (system_of text) none) + 1 ≡ data_dirs_size (system_of text) none)
    × (length (candidate b'/' (codes "/home/a") (codes "f")) + 1
        ≤ path_size (system_of text) none (codes "f"))
get_path_fits_example =
    get_path_fits (system_of text) none (codes "f") b'/' 1 (codes "/home/a") first_segment

abbrev sized : ℕ → ℕ → Config
sized w h = record parsed { bitrate = negsuc 0; width = pos w; height = pos h }

set_bitrate_mono_example :
    (set_bitrate (system_of text) (sized 640 360)).bitrate
    ≤ℤ (set_bitrate (system_of text) (sized 1920 1080)).bitrate
unfolding ◌*ℤ◌
set_bitrate_mono_example =
    set_bitrate_mono (system_of text) (sized 640 360) (sized 1920 1080)
      (λ a b le. omega (arith, le)) refl refl refl (omega arith) (omega arith) (omega arith)
