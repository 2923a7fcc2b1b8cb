-- ===== src/Config/Defaults.antt =====
-- config_parse of src/config.c: the defaults and the bitrate.
use moonlight_allwinner_h.Prelude.{
  ℕ, ◌+◌, ◌*◌, true, false, List, [], ◌∷◌, ◌++◌, Option, none, some, if◌then◌else◌, take,
}
use moonlight_allwinner_h.Prelude.Int.{to_int, ℤ, pos, negsuc, eqb_ℤ, ◌*ℤ◌, ltb_ℤ}
use moonlight_allwinner_h.Gamestream.Text.{Text, codes}
use moonlight_allwinner_h.Config.Types.{
  codec_unspecified, Config, Constants, System, Outcome, ok, ◌>>-◌,
}
use moonlight_allwinner_h.Config.Path.{get_path, home_dir, moonlight_path}
use moonlight_allwinner_h.Config.Argument.{parse_argument, or_exit}
use moonlight_allwinner_h.Config.File.{config_file_parse, config_save}

module _ (k : Constants) (sys : System) where
  -- The encryption that the processor is fast enough for.
  unfoldable pub default_encryption : ℤ
  default_encryption =
      if sys.has_fast_aes
      then k.encflg_all
      else if sys.has_slow_aes
      then k.encflg_none
      else k.encflg_audio

  -- The assignments that config_parse starts with.
  unfoldable pub default_config : Config
  default_config = record {
    width = pos 1280;
    height = pos 720;
    fps = pos 60;
    bitrate = negsuc 0;
    packet_size = pos 1392;
    streaming_remotely = k.stream_cfg_auto;
    audio_configuration = k.audio_configuration_stereo;
    supported_video_formats = k.scm_h264;
    encryption_flags = default_encryption;
    debug_level = pos 0;
    app = codes "Steam";
    action = none;
    address = none;
    mapping = get_path sys (codes "gamecontrollerdb.txt") sys.xdg_data_dirs;
    platform = codes "auto";
    audio_device = none;
    config_file = none;
    key_dir = [];
    sops = true;
    localaudio = false;
    fullscreen = true;
    rotate = pos 0;
    unsupported = true;
    quitappafter = false;
    viewonly = false;
    mouse_emulation = true;
    inputs = [];
    codec = codec_unspecified;
    hdr = false;
    pin = pos 0;
    port = 47989;
    input_added = false;
  }

  -- `moonlight.conf`, whose failure to open does not matter
  unfoldable pub read_default_file : ℕ → Config → Outcome Config
  read_default_file depth c = elim (get_path sys (codes "moonlight.conf") (some (codes "/etc"))) [
    | none ↦ ok c
    | some path ↦ config_file_parse k sys depth path c >>- λ r. ok r.1
  ]

  -- The options that `getopt_long_only` finds, each a character with its argument, in their order.
  unfoldable pub parse_options : ℕ → List (ℕ × Text) → Config → Outcome Config
  parse_options depth [] c = ok c
  parse_options depth ((o, value) ∷ os) c =
      parse_argument k sys (config_file_parse k sys depth) o value c >>- λ c.
      parse_options depth os c

-- The bitrate at 30 frames per second, in kbit/s.
unfoldable pub base_bitrate : ℤ → ℕ
base_bitrate pixels =
    if ltb_ℤ pixels (pos (640 * 360 + 1))
    then 1000
    else if ltb_ℤ pixels (pos (854 * 480 + 1))
    then 1500
    else if ltb_ℤ pixels (pos (1366 * 768 + 1))
    then 5000
    else if ltb_ℤ pixels (pos (1920 * 1200 + 1))
    then 10000
    else if ltb_ℤ pixels (pos (2560 * 1600 + 1))
    then 20000
    else 40000

-- `if (config->stream.bitrate == -1)`; the product of the sides is an `int` and wraps.
unfoldable pub set_bitrate : System → Config → Config
set_bitrate sys c =
    if eqb_ℤ c.bitrate (negsuc 0)
    then record c {
      bitrate = sys.scale_bitrate (base_bitrate (to_int (c.width *ℤ c.height))) c.fps;
    }
    else c

-- DEFAULT_CACHE_DIR
abbrev pub default_cache_dir : Text
default_cache_dir = codes "/.cache"

-- The key directory where none is given
unfoldable pub default_key_dir : System → Text
default_key_dir sys = elim sys.xdg_cache_dir [
  | some dir ↦ dir ++ moonlight_path
  | none ↦ home_dir sys ++ default_cache_dir ++ moonlight_path
]

-- `snprintf` into the 4096 bytes of key_dir
unfoldable pub set_default_key_dir : System → Config → Config
set_default_key_dir sys c = elim c.key_dir [
  | [] ↦ record c { key_dir = take 4095 (default_key_dir sys) }
  | _ ∷ _ ↦ c
]

-- The file that config_save writes, with its contents.
abbrev pub Written : Type 0
Written = Option (Text × Text)

unfoldable pub save_config : System → Config → Outcome Written
save_config sys c = elim c.config_file [
  | none ↦ ok none
  | some filename ↦ config_save (sys.is_writable filename) c >>- λ text. ok (some (filename, text))
]

-- The end of config_parse
unfoldable pub finish_config : System → Config → Outcome (Config × Written)
finish_config sys c =
    save_config sys c >>- λ written. ok (set_bitrate sys (set_default_key_dir sys c), written)

module _ (k : Constants) (sys : System) (depth : ℕ) where
  -- The single argument that is a file, or else the options.
  unfoldable pub parse_command : Option Text → List (ℕ × Text) → Config → Outcome Config
  parse_command none os c = parse_options k sys depth os c
  parse_command (some filename) os c =
      or_exit (config_file_parse k sys depth filename (record c { action = some (codes "stream") }))

  -- config_parse. `single` is the argument where it is the only one and names a file; it ends with
  -- the configuration and the file written.
  unfoldable pub config_parse : Option Text → List (ℕ × Text) → Outcome (Config × Written)
  config_parse single os =
      read_default_file k sys depth (default_config k sys)
      >>- (λ c. parse_command single os c)
      >>- λ c. finish_config sys c
