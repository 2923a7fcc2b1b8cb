-- ===== src/Config/Argument.antt =====
-- The options of src/config.c: the table, and parse_argument.
use moonlight_allwinner_h.Prelude.{
  ℕ, ◌+◌, ◌%◌, ◌-◌, ◌^◌, Bool, true, false, List, [], ◌∷◌, ◌++◌, none, some, ◌&&◌, ◌||◌, leb, ◌==◌,
  if◌then◌else◌, length, map,
}
use moonlight_allwinner_h.Prelude.Int.{ℤ, pos, pos_part, neg_part}
use moonlight_allwinner_h.Gamestream.Text.{Text, codes, text_eq, atoi}
use moonlight_allwinner_h.Config.Types.{
  codec_unspecified, codec_h264, codec_hevc, codec_av1, Config, Constants, System, Outcome, ok,
  exits,
}
use moonlight_allwinner_h.Config.Path.{get_path}

-- `struct option`, of which only these are used: whether it has an argument, and its character
pub record LongOption : Type 0 where
  pub name : Text
  pub required : Bool
  pub val : ℕ

abbrev with_value : Text → ℕ → LongOption
with_value name val = record { name = name; required = true; val = val }

abbrev plain : Text → ℕ → LongOption
plain name val = record { name = name; required = false; val = val }

abbrev pub long_options : List LongOption
long_options =
    plain (codes "720") b'a'
    ∷ plain (codes "1080") b'b'
    ∷ plain (codes "4k") b'0'
    ∷ with_value (codes "width") b'c'
    ∷ with_value (codes "height") b'd'
    ∷ with_value (codes "bitrate") b'g'
    ∷ with_value (codes "packetsize") b'h'
    ∷ with_value (codes "app") b'i'
    ∷ with_value (codes "input") b'j'
    ∷ with_value (codes "mapping") b'k'
    ∷ plain (codes "nosops") b'l'
    ∷ with_value (codes "audio") b'm'
    ∷ plain (codes "localaudio") b'n'
    ∷ with_value (codes "config") b'o'
    ∷ with_value (codes "platform") b'p'
    ∷ with_value (codes "save") b'q'
    ∷ with_value (codes "keydir") b'r'
    ∷ with_value (codes "remote") b's'
    ∷ plain (codes "windowed") b't'
    ∷ with_value (codes "surround") b'u'
    ∷ with_value (codes "fps") b'v'
    ∷ with_value (codes "codec") b'x'
    ∷ plain (codes "nounsupported") b'y'
    ∷ plain (codes "quitappafter") b'1'
    ∷ plain (codes "viewonly") b'2'
    ∷ with_value (codes "rotate") b'3'
    ∷ plain (codes "verbose") b'z'
    ∷ plain (codes "debug") b'Z'
    ∷ plain (codes "nomouseemulation") b'4'
    ∷ with_value (codes "pin") b'5'
    ∷ with_value (codes "port") b'6'
    ∷ plain (codes "hdr") b'7'
    ∷ []

-- MAX_INPUTS
abbrev pub max_inputs : ℕ
max_inputs = 6

abbrev lower : ℕ → ℕ
lower c = if leb b'A' c && leb c b'Z' then c + 32 else c

-- `strcasecmp(a, b) == 0`
abbrev pub text_eq_case : Text → Text → Bool
text_eq_case a b = text_eq (map lower a) (map lower b)

-- `(unsigned short) a`
abbrev to_ushort : ℤ → ℕ
to_ushort a = (pos_part a + (2 ^ 16 - neg_part a % 2 ^ 16)) % 2 ^ 16

module _ (k : Constants) where
  unfoldable pub set_remote : Text → Config → Config
  set_remote value c =
      if text_eq_case value (codes "auto")
      then record c { streaming_remotely = k.stream_cfg_auto }
      else if text_eq_case value (codes "true") || text_eq_case value (codes "yes")
      then record c { streaming_remotely = k.stream_cfg_remote }
      else if text_eq_case value (codes "false") || text_eq_case value (codes "no")
      then record c { streaming_remotely = k.stream_cfg_local }
      else c

  unfoldable pub set_surround : Text → Config → Config
  set_surround value c =
      if text_eq_case value (codes "5.1")
      then record c { audio_configuration = k.audio_configuration_51_surround }
      else if text_eq_case value (codes "7.1")
      then record c { audio_configuration = k.audio_configuration_71_surround }
      else c

unfoldable pub set_codec : Text → Config → Config
set_codec value c =
    if text_eq_case value (codes "auto")
    then record c { codec = codec_unspecified }
    else if text_eq_case value (codes "h264")
    then record c { codec = codec_h264 }
    else if text_eq_case value (codes "h265") || text_eq_case value (codes "hevc")
    then record c { codec = codec_hevc }
    else if text_eq_case value (codes "av1")
    then record c { codec = codec_av1 }
    else c

unfoldable pub add_input : Text → Config → Outcome Config
add_input value c =
    if leb max_inputs (length c.inputs)
    then exits
    else ok (record c { inputs = c.inputs ++ (value ∷ []); input_added = true })

unfoldable pub set_mapping : System → Text → Config → Outcome Config
set_mapping sys value c = elim (get_path sys value sys.xdg_data_dirs) [
  | none ↦ exits
  | some path ↦ ok (record c { mapping = some path })
]

-- `strcpy` into an array of 4096 bytes, of which nothing tests the length: the text of a longer
-- value is written past the end.
unfoldable pub set_key_dir : Text → Config → Config
set_key_dir value c = record c { key_dir = value }

-- An argument that is no option: the action, then the address
unfoldable pub set_positional : Text → Config → Outcome Config
set_positional value c = elim c.action [
  | none ↦ ok (record c { action = some value })
  | some _ ↦ elim c.address [ none ↦ ok (record c { address = some value }) | some _ ↦ exits ]
]

-- `if (!config_file_parse(value, config)) exit(EXIT_FAILURE)`
abbrev pub or_exit : Outcome (Bool × Config) → Outcome Config
or_exit (ok (true, c)) = ok c
or_exit (ok (false, c)) = exits
or_exit exits = exits

-- parse_argument, given config_file_parse; an option without an argument does not read `value`.
unfoldable pub parse_argument :
    Constants
    → System
    → (Text → Config → Outcome (Bool × Config))
    → ℕ
    → Text
    → Config
    → Outcome Config
parse_argument k sys parse_file o value c =
    if o == b'a'
    then ok (record c { width = pos 1280; height = pos 720 })
    else if o == b'b'
    then ok (record c { width = pos 1920; height = pos 1080 })
    else if o == b'0'
    then ok (record c { width = pos 3840; height = pos 2160 })
    else if o == b'c'
    then ok (record c { width = atoi value })
    else if o == b'd'
    then ok (record c { height = atoi value })
    else if o == b'g'
    then ok (record c { bitrate = atoi value })
    else if o == b'h'
    then ok (record c { packet_size = atoi value })
    else if o == b'i'
    then ok (record c { app = value })
    else if o == b'j'
    then add_input value c
    else if o == b'k'
    then set_mapping sys value c
    else if o == b'l'
    then ok (record c { sops = false })
    else if o == b'm'
    then ok (record c { audio_device = some value })
    else if o == b'n'
    then ok (record c { localaudio = true })
    else if o == b'o'
    then or_exit (parse_file value c)
    else if o == b'p'
    then ok (record c { platform = value })
    else if o == b'q'
    then ok (record c { config_file = some value })
    else if o == b'r'
    then ok (set_key_dir value c)
    else if o == b's'
    then ok (set_remote k value c)
    else if o == b't'
    then ok (record c { fullscreen = false })
    else if o == b'u'
    then ok (set_surround k value c)
    else if o == b'v'
    then ok (record c { fps = atoi value })
    else if o == b'x'
    then ok (set_codec value c)
    else if o == b'y'
    then ok (record c { unsupported = false })
    else if o == b'1'
    then ok (record c { quitappafter = true })
    else if o == b'2'
    then ok (record c { viewonly = true })
    else if o == b'3'
    then ok (record c { rotate = atoi value })
    else if o == b'z'
    then ok (record c { debug_level = pos 1 })
    else if o == b'Z'
    then ok (record c { debug_level = pos 2 })
    else if o == b'4'
    then ok (record c { mouse_emulation = false })
    else if o == b'5'
    then ok (record c { pin = atoi value })
    else if o == b'6'
    then ok (record c { port = to_ushort (atoi value) })
    else if o == b'7'
    then ok (record c { hdr = true })
    else if o == 1
    then set_positional value c
    else ok c
