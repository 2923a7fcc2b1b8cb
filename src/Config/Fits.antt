-- ===== src/Config/Fits.antt =====
-- What config_parse of src/config.c puts into the arrays of the configuration.
use moonlight_allwinner_h.Prelude.{
  ◌<◌, take, length, ℕ, zero, suc, ◌≡◌, refl, Bool, true, Bool-cases, Option-cases, inl, inr, List,
  [], ◌∷◌, Option, none, some, arith, length-take_le,
}
use moonlight_allwinner_h.Prelude.Int.{negsuc, eqb_ℤ}
use moonlight_allwinner_h.Gamestream.Text.{Text, codes}
use moonlight_allwinner_h.Config.Types.{Config, Constants, System, Outcome, ok, exits, ◌>>-◌}
use moonlight_allwinner_h.Config.Path.{get_path}
use moonlight_allwinner_h.Config.File.{lines, parse_lines, config_file_parse}
use moonlight_allwinner_h.Config.Defaults.{
  default_config, read_default_file, parse_options, parse_command, set_bitrate, set_default_key_dir,
  default_key_dir, Written, save_config, finish_config, config_parse,
}
use moonlight_allwinner_h.Config.Kept.{
  LinesAllowed, Fits, AllFit, ReadFits, then_Fits, or_exit-Fits, argument-Fits, lines-Fits,
}

module _ (Allowed : Text → Type 0) (empty : Allowed []) where
  bind_read :
      (o : Outcome Config)
      → AllFit Allowed empty o
      → ReadFits Allowed empty (o >>- λ c. ok (true, c))
  bind_read (ok c) t = t
  bind_read exits t = _

  bind_config :
      (o : Outcome (Bool × Config))
      → ReadFits Allowed empty o
      → AllFit Allowed empty (o >>- λ r. ok r.1)
  bind_config (ok r) t = t
  bind_config exits t = _

  abbrev EndFits : Outcome (Config × Written) → Type 0
  EndFits (ok r) = Fits Allowed empty r.0
  EndFits exits = Unit {0}

  bind_final :
      (o : Outcome Config) (f : Config → Outcome (Config × Written))
      → AllFit Allowed empty o
      → ((c : Config) → Fits Allowed empty c → EndFits (f c))
      → EndFits (o >>- f)
  bind_final (ok c) f t next = next c t
  bind_final exits f t next = _

  bind_saved :
      (o : Outcome Written) (f : Written → Outcome (Config × Written))
      → ((w : Written) → EndFits (f w))
      → EndFits (o >>- f)
  bind_saved (ok w) f next = next w
  bind_saved exits f next = _

  -- Every value of every line of every file is allowed.
  abbrev pub FilesAllowed : System → Type 0
  FilesAllowed sys =
      (filename text : Text)
      → sys.read_file filename ≡ some text
      → LinesAllowed Allowed empty (lines text)

  -- The values of the options are allowed.
  abbrev pub OptionsAllowed : List (ℕ × Text) → Type 0
  OptionsAllowed [] = Unit {0}
  OptionsAllowed ((o, value) ∷ os) = Allowed value × OptionsAllowed os

  module _ (k : Constants) (sys : System) (files : FilesAllowed sys) where
    file-Fits :
        (depth : ℕ) (filename : Text) (c : Config)
        → Fits Allowed empty c
        → ReadFits Allowed empty (config_file_parse k sys depth filename c)
    unfolding config_file_parse
    file-Fits zero filename c t = t
    file-Fits (suc depth) filename c t = elim (Option-cases (sys.read_file filename)) [
      | inl gone ↦ rw (gone, config_file_parse) t
      | inr (text, found) ↦
          rw (found, config_file_parse)
            (bind_read (parse_lines k sys (config_file_parse k sys depth) (lines text) c) (
              lines-Fits Allowed empty k sys (config_file_parse k sys depth) (file-Fits depth)
                (lines text) c (files filename text found) t))
    ]

    default-Fits :
        (depth : ℕ) (c : Config)
        → Fits Allowed empty c
        → AllFit Allowed empty (read_default_file k sys depth c)
    unfolding read_default_file
    default-Fits depth c t =
        elim (Option-cases (get_path sys (codes "moonlight.conf") (some (codes "/etc")))) [
          | inl gone ↦ rw (gone, read_default_file) t
          | inr (path, found) ↦
              rw (found, read_default_file)
                (bind_config (config_file_parse k sys depth path c) (file-Fits depth path c t))
        ]

    options-Fits :
        (depth : ℕ) (os : List (ℕ × Text)) (c : Config)
        → OptionsAllowed os
        → Fits Allowed empty c
        → AllFit Allowed empty (parse_options k sys depth os c)
    unfolding parse_options
    options-Fits depth [] c given t = t
    options-Fits depth ((o, value) ∷ os) c given t =
        then_Fits Allowed empty _ (λ c. parse_options k sys depth os c)
          (argument-Fits Allowed empty k sys (config_file_parse k sys depth) (file-Fits depth) o
            value c given.0 t)
          (λ c t. options-Fits depth os c given.1 t)

    command-Fits :
        (depth : ℕ) (single : Option Text) (os : List (ℕ × Text)) (c : Config)
        → OptionsAllowed os
        → Fits Allowed empty c
        → AllFit Allowed empty (parse_command k sys depth single os c)
    unfolding parse_command
    command-Fits depth none os c given t = options-Fits depth os c given t
    command-Fits depth (some filename) os c given t =
        or_exit-Fits Allowed empty _
          (file-Fits depth filename (record c { action = some (codes "stream") }) t)

  module _ (sys : System) (cut : Allowed (take 4095 (default_key_dir sys))) where
    key_dir-Fits :
        (c : Config) → Fits Allowed empty c → Fits Allowed empty (set_default_key_dir sys c)
    unfolding set_default_key_dir
    key_dir-Fits c (few, short) = split c.key_dir refl
      where
        split : (d : Text) → c.key_dir ≡ d → Fits Allowed empty (set_default_key_dir sys c)
        split [] e = rw (e, set_default_key_dir) (few, cut)
        split (b ∷ bs) e = rw (e, set_default_key_dir) (few, short)

    bitrate-Fits : (c : Config) → Fits Allowed empty c → Fits Allowed empty (set_bitrate sys c)
    unfolding set_bitrate
    bitrate-Fits c t = elim (Bool-cases (eqb_ℤ c.bitrate (negsuc 0))) [
      | inl unset ↦ rw (unset, set_bitrate) t
      | inr chosen ↦ rw (chosen, set_bitrate) t
    ]

    finish-EndFits : (c : Config) → Fits Allowed empty c → EndFits (finish_config sys c)
    unfolding finish_config
    finish-EndFits c t =
        bind_saved (save_config sys c) _
          (λ w. bitrate-Fits (set_default_key_dir sys c) (key_dir-Fits c t))

  module _ (k : Constants) (sys : System) (files : FilesAllowed sys)
      (cut : Allowed (take 4095 (default_key_dir sys))) where
    parse-EndFits :
        (depth : ℕ) (single : Option Text) (os : List (ℕ × Text))
        → OptionsAllowed os
        → EndFits (config_parse k sys depth single os)
    unfolding config_parse default_config
    parse-EndFits depth single os given =
        let start = default-Fits k sys files depth (default_config k sys) (omega arith, empty) in
        let parsed =
          then_Fits Allowed empty _ (λ c. parse_command k sys depth single os c) start
            (λ c t. command-Fits k sys files depth single os c given t) in
        bind_final _ (finish_config sys) parsed (finish-EndFits sys cut)

-- A text that fits the key directory of the configuration, with its NUL.
abbrev pub IsShort : Text → Type 0
IsShort t = length t < 4096

pub empty_short : IsShort []
empty_short = omega arith

-- Every text.
abbrev IsAny : Text → Type 0
IsAny t = Unit {0}

module _ (k : Constants) (sys : System) where
  -- Where no value of the options or of a line of a file is of 4096 bytes or more, the key directory
  -- that config_parse returns fits its array, with the NUL.
  pub config_parse-key_dir :
      (depth : ℕ) (single : Option Text) (os : List (ℕ × Text)) {c : Config} {written : Written}
      → FilesAllowed IsShort empty_short sys
      → OptionsAllowed IsShort empty_short os
      → config_parse k sys depth single os ≡ ok (c, written)
      → IsShort c.key_dir
  config_parse-key_dir depth single os {c} {written} files given h =
      let cut : IsShort (take 4095 (default_key_dir sys)) =
        omega (arith, length-take_le 4095 (default_key_dir sys)) in
      let ends = parse-EndFits IsShort empty_short k sys files cut depth single os given in
      (rw h at ends).1
