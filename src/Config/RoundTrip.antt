-- ===== src/Config/RoundTrip.antt =====
-- The round trip of a configuration through config_save and config_file_parse of src/config.c.
use moonlight_allwinner_h.Prelude.{
  ℕ, suc, ◌≡◌, refl, sym, ap, Bool, true, false, not, Bool-cases, inl, inr, some, arith,
  if◌then◌else◌,
}
use moonlight_allwinner_h.Prelude.Int.{ℤ, pos, negsuc, eqb_ℤ, eq_of_parts}
use moonlight_allwinner_h.Gamestream.Text.{Text, codes, text_eq}
use moonlight_allwinner_h.Config.Types.{Config, Constants, System, ok}
use moonlight_allwinner_h.Config.File.{config_file_parse, saved}
use moonlight_allwinner_h.Config.Defaults.{default_config}
use moonlight_allwinner_h.Config.Saved.{IsValue, restored, read_saved, text_eq-eq}

same_int : (v d : ℤ) → (if not (eqb_ℤ v d) then v else d) ≡ v
same_int v d = elim (Bool-cases (eqb_ℤ v d)) [
  | inl same ↦ let e : v ≡ d = eq_of_parts v d (ground arith) in rw same (sym e)
  | inr apart ↦ rw apart refl
]

same_text : (t d : Text) → (if not (text_eq t d) then t else d) ≡ t
same_text t d = elim (Bool-cases (text_eq t d)) [
  | inl same ↦ rw same (sym (text_eq-eq t d same))
  | inr apart ↦ rw apart refl
]

same_flag : (b : Bool) → (if b then true else false) ≡ b
same_flag b = ground arith

same_flag_off : (b : Bool) → (if not b then false else true) ≡ b
same_flag_off b = ground arith

module _ (k : Constants) (sys : System) where
  -- The defaults with the settings that config_save saves.
  abbrev pub with_settings : Config → Config
  with_settings c = record (default_config k sys) {
    width = c.width;
    height = c.height;
    fps = c.fps;
    bitrate = c.bitrate;
    packet_size = if not (eqb_ℤ c.packet_size (pos 1024)) then c.packet_size else pos 1392;
    sops = c.sops;
    localaudio = c.localaudio;
    quitappafter = c.quitappafter;
    viewonly = c.viewonly;
    rotate = c.rotate;
    app = c.app;
  }

  restored_defaults :
      (c : Config)
      → restored k sys (config_file_parse k sys 0) c (default_config k sys) ≡ with_settings c
  unfolding default_config
  restored_defaults c =
      rw
        (
          same_int c.width (pos 1280),
          same_int c.height (pos 720),
          same_int c.fps (pos 60),
          same_int c.bitrate (negsuc 0),
          same_int c.rotate (pos 0),
          same_flag_off c.sops,
          same_flag c.localaudio,
          same_flag c.quitappafter,
          same_flag c.viewonly,
          same_text c.app (codes "Steam"),
        )
        refl

  -- Reading a file that config_save has written over the defaults gives back all eleven settings that
  -- it saves and leaves every other one at its default, where the application is named by a text on
  -- one line that is not empty and does not start with a space; only a packet size of 1024, which is
  -- not saved, becomes the default of 1392.
  pub saved_round_trip :
      (depth : ℕ) (filename : Text) (c : Config)
      → IsValue c.app
      → sys.read_file filename ≡ some (saved c)
      → config_file_parse k sys (suc depth) filename (default_config k sys)
        ≡ ok (true, with_settings c)
  unfolding config_file_parse
  saved_round_trip depth filename c value there =
      rw
        (
          there,
          config_file_parse,
          read_saved k sys (config_file_parse k sys depth) c (default_config k sys) value,
        )
        (ap (λ c. ok (true, c)) (restored_defaults c))
