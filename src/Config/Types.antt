-- ===== src/Config/Types.antt =====
-- The configuration of src/config.h, and what src/config.c takes from the system and from Limelight.
use moonlight_allwinner_h.Prelude.{ℕ, Bool, List, Option}
use moonlight_allwinner_h.Prelude.Int.{ℤ}
use moonlight_allwinner_h.Gamestream.Text.{Text}

-- `enum codecs` of src/video/video.h
pub data Codec : Type 0 where
  codec_unspecified codec_h264 codec_hevc codec_av1 : Codec

-- CONFIGURATION, with the fields of `stream` that the program sets, and the global `inputAdded`
pub record Config : Type 0 where
  pub width : ℤ
  pub height : ℤ
  pub fps : ℤ
  pub bitrate : ℤ
  pub packet_size : ℤ
  pub streaming_remotely : ℤ
  pub audio_configuration : ℤ
  pub supported_video_formats : ℤ
  pub encryption_flags : ℤ
  pub debug_level : ℤ
  pub app : Text
  pub action : Option Text
  pub address : Option Text
  pub mapping : Option Text
  pub platform : Text
  pub audio_device : Option Text
  pub config_file : Option Text
  pub key_dir : Text
  pub sops : Bool
  pub localaudio : Bool
  pub fullscreen : Bool
  pub rotate : ℤ
  pub unsupported : Bool
  pub quitappafter : Bool
  pub viewonly : Bool
  pub mouse_emulation : Bool
  pub inputs : List Text
  pub codec : Codec
  pub hdr : Bool
  pub pin : ℤ
  pub port : ℕ
  pub input_added : Bool

-- <Limelight.h>
pub record Constants : Type 0 where
  pub stream_cfg_auto : ℤ
  pub stream_cfg_remote : ℤ
  pub stream_cfg_local : ℤ
  pub audio_configuration_stereo : ℤ
  pub audio_configuration_51_surround : ℤ
  pub audio_configuration_71_surround : ℤ
  pub scm_h264 : ℤ
  pub encflg_all : ℤ
  pub encflg_none : ℤ
  pub encflg_audio : ℤ

-- The environment: the files that can be read, with their contents, `access`, the variables, the
-- processor and `double`. The
-- home directory is HOME, or that of the user where HOME is not set.
pub record System : Type 0 where
  pub read_file : Text → Option Text
  pub is_readable : Text → Bool
  pub xdg_config_dir : Option Text
  pub xdg_data_dirs : Option Text
  pub xdg_cache_dir : Option Text
  pub home : Option Text
  pub user_dir : Text
  pub is_writable : Text → Bool
  pub has_fast_aes : Bool
  pub has_slow_aes : Bool
  -- `(int) (base * (fps / 30.0))`, in the arithmetic of `double`
  pub scale_bitrate : ℕ → ℤ → ℤ

-- A part of the program returns, or ends the program.
pub data Outcome {ℓ} (A : Type ℓ) : Type ℓ where
  ok : A → Outcome A
  exits : Outcome A

infixl 5 ◌>>-◌
abbrev pub ◌>>-◌ {ℓ κ} : {A : Type ℓ} {B : Type κ} → Outcome A → (A → Outcome B) → Outcome B
ok a >>- f = f a
exits >>- f = exits
