-- ===== src/Config/Keys.antt =====
-- What a key of a configuration file sets, in config_file_parse of src/config.c.
use moonlight_allwinner_h.Prelude.{◌≡◌, refl, ap, Bool, true, false}
use moonlight_allwinner_h.Prelude.Int.{ℤ}
use moonlight_allwinner_h.Gamestream.Text.{Text, codes, text_eq}
use moonlight_allwinner_h.Config.Types.{Config, Constants, System, Outcome, ok}
use moonlight_allwinner_h.Config.Argument.{parse_argument}
use moonlight_allwinner_h.Config.File.{set_option, set_key, print_int}
use moonlight_allwinner_h.Config.Number.{atoi-print_int}

module _ (k : Constants) (sys : System) (parse_file : Text → Config → Outcome (Bool × Config)) where
  abbrev pub set_to : Text → Text → Config → Outcome Config
  set_to key value d = set_key k sys parse_file key value d

  pub width_key :
      (v : ℤ) (d : Config) → set_to (codes "width") (print_int v) d ≡ ok (record d { width = v })
  unfolding set_key set_option parse_argument text_eq
  width_key v d = ap (λ w. ok (record d { width = w })) (atoi-print_int v)

  pub height_key :
      (v : ℤ) (d : Config) → set_to (codes "height") (print_int v) d ≡ ok (record d { height = v })
  unfolding set_key set_option parse_argument text_eq
  height_key v d = ap (λ w. ok (record d { height = w })) (atoi-print_int v)

  pub fps_key :
      (v : ℤ) (d : Config) → set_to (codes "fps") (print_int v) d ≡ ok (record d { fps = v })
  unfolding set_key set_option parse_argument text_eq
  fps_key v d = ap (λ w. ok (record d { fps = w })) (atoi-print_int v)

  pub bitrate_key :
      (v : ℤ) (d : Config)
      → set_to (codes "bitrate") (print_int v) d ≡ ok (record d { bitrate = v })
  unfolding set_key set_option parse_argument text_eq
  bitrate_key v d = ap (λ w. ok (record d { bitrate = w })) (atoi-print_int v)

  pub packetsize_key :
      (v : ℤ) (d : Config)
      → set_to (codes "packetsize") (print_int v) d ≡ ok (record d { packet_size = v })
  unfolding set_key set_option parse_argument text_eq
  packetsize_key v d = ap (λ w. ok (record d { packet_size = w })) (atoi-print_int v)

  pub rotate_key :
      (v : ℤ) (d : Config) → set_to (codes "rotate") (print_int v) d ≡ ok (record d { rotate = v })
  unfolding set_key set_option parse_argument text_eq
  rotate_key v d = ap (λ w. ok (record d { rotate = w })) (atoi-print_int v)

  pub app_key : (v : Text) (d : Config) → set_to (codes "app") v d ≡ ok (record d { app = v })
  unfolding set_key set_option parse_argument text_eq
  app_key v d = refl

  pub sops_key :
      (d : Config) → set_to (codes "sops") (codes "false") d ≡ ok (record d { sops = false })
  unfolding set_key text_eq
  sops_key d = refl

  pub localaudio_key :
      (d : Config)
      → set_to (codes "localaudio") (codes "true") d ≡ ok (record d { localaudio = true })
  unfolding set_key set_option parse_argument text_eq
  localaudio_key d = refl

  pub quitappafter_key :
      (d : Config)
      → set_to (codes "quitappafter") (codes "true") d ≡ ok (record d { quitappafter = true })
  unfolding set_key set_option parse_argument text_eq
  quitappafter_key d = refl

  pub viewonly_key :
      (d : Config) → set_to (codes "viewonly") (codes "true") d ≡ ok (record d { viewonly = true })
  unfolding set_key set_option parse_argument text_eq
  viewonly_key d = refl
