-- ===== src/Config/Kept.antt =====
-- No option of src/config.c puts more into the arrays of the configuration than they hold.
use moonlight_allwinner_h.Prelude.{
  some, ℕ, ◌≤◌, ◌<◌, ◌≡◌, Bool, true, false, Bool-cases, Option-cases, inl, inr, List, [], ◌∷◌,
  arith, ◌||◌, leb, ◌==◌, if◌then◌else◌, length, length-append,
}
use moonlight_allwinner_h.Gamestream.Text.{Text, codes, text_eq}
use moonlight_allwinner_h.Config.Types.{Config, Constants, System, Outcome, ok, exits, ◌>>-◌}
use moonlight_allwinner_h.Config.Path.{get_path}
use moonlight_allwinner_h.Config.Argument.{
  LongOption, long_options, max_inputs, set_remote, set_surround, set_codec, add_input, set_mapping,
  set_key_dir, set_positional, or_exit, parse_argument, text_eq_case,
}
use moonlight_allwinner_h.Config.File.{scan_line, set_option, set_key, parse_line, parse_lines}

-- What may be a key directory, the empty text among it.
module _ (Allowed : Text → Type 0) (empty : Allowed []) where
  -- `inputs` holds what is in it, and the key directory is one of those allowed.
  abbrev pub Fits : Config → Type 0
  Fits c = (length c.inputs ≤ 6) × Allowed c.key_dir

  -- The values of the lines of a file are allowed.
  abbrev pub LinesAllowed : List Text → Type 0
  LinesAllowed [] = Unit {0}
  LinesAllowed (l ∷ ls) =
      ((kv : Text × Text) → scan_line l ≡ some kv → Allowed kv.1) × LinesAllowed ls

  abbrev pub AllFit : Outcome Config → Type 0
  AllFit (ok c) = Fits c
  AllFit exits = Unit {0}

  abbrev pub ReadFits : Outcome (Bool × Config) → Type 0
  ReadFits (ok r) = Fits r.1
  ReadFits exits = Unit {0}

  if_Fits : (b : Bool) (x y : Outcome Config) → AllFit x → AllFit y → AllFit (if b then x else y)
  if_Fits true x y p q = p
  if_Fits false x y p q = q

  pub then_Fits :
      (o : Outcome Config) (f : Config → Outcome Config)
      → AllFit o
      → ((c : Config) → Fits c → AllFit (f c))
      → AllFit (o >>- f)
  then_Fits (ok c) f p q = q c p
  then_Fits exits f p q = _

  if_Config : (b : Bool) (x y : Config) → Fits x → Fits y → Fits (if b then x else y)
  if_Config true x y p q = p
  if_Config false x y p q = q

  remote-Fits : (k : Constants) (value : Text) (c : Config) → Fits c → Fits (set_remote k value c)
  unfolding set_remote
  remote-Fits k value c t = if_Config (text_eq_case value (codes "auto")) _ _ t (
      if_Config (text_eq_case value (codes "true") || text_eq_case value (codes "yes")) _ _ t
        (if_Config (text_eq_case value (codes "false") || text_eq_case value (codes "no")) _ _ t t))

  surround-Fits :
      (k : Constants) (value : Text) (c : Config) → Fits c → Fits (set_surround k value c)
  unfolding set_surround
  surround-Fits k value c t =
      if_Config (text_eq_case value (codes "5.1")) _ _ t
        (if_Config (text_eq_case value (codes "7.1")) _ _ t t)

  codec-Fits : (value : Text) (c : Config) → Fits c → Fits (set_codec value c)
  unfolding set_codec
  codec-Fits value c t = if_Config (text_eq_case value (codes "auto")) _ _ t (
      if_Config (text_eq_case value (codes "h264")) _ _ t (
        if_Config (text_eq_case value (codes "h265") || text_eq_case value (codes "hevc")) _ _ t
          (if_Config (text_eq_case value (codes "av1")) _ _ t t)))

  add_input-Fits : (value : Text) (c : Config) → Fits c → AllFit (add_input value c)
  unfolding add_input
  add_input-Fits value c (few, short) = elim (Bool-cases (leb max_inputs (length c.inputs))) [
    | inl full ↦ rw (full, add_input) _
    | inr room ↦
        rw (room, add_input) (omega (arith, length-append c.inputs (value ∷ []), below room), short)
  ]
    where
      below : leb max_inputs (length c.inputs) ≡ false → length c.inputs < 6
      below room = ground arith

  set_mapping-Fits :
      (sys : System) (value : Text) (c : Config) → Fits c → AllFit (set_mapping sys value c)
  unfolding set_mapping
  set_mapping-Fits sys value c t = elim (Option-cases (get_path sys value sys.xdg_data_dirs)) [
    | inl gone ↦ rw (gone, set_mapping) _
    | inr (path, found) ↦ rw (found, set_mapping) t
  ]

  set_key_dir-Fits :
      (value : Text) (c : Config) → Allowed value → Fits c → Fits (set_key_dir value c)
  unfolding set_key_dir
  set_key_dir-Fits value c allowed (few, short) = (few, allowed)

  positional-Fits : (value : Text) (c : Config) → Fits c → AllFit (set_positional value c)
  unfolding set_positional
  positional-Fits value c t = elim (Option-cases c.action) [
    | inl gone ↦ rw (gone, set_positional) t
    | inr (a, here) ↦ elim (Option-cases c.address) [
      | inl gone ↦ rw (here, gone, set_positional) t
      | inr (b, there) ↦ rw (here, there, set_positional) _
    ]
  ]

  pub or_exit-Fits : (o : Outcome (Bool × Config)) → ReadFits o → AllFit (or_exit o)
  or_exit-Fits (ok (true, c)) t = t
  or_exit-Fits (ok (false, c)) t = _
  or_exit-Fits exits t = _

  module _ (k : Constants) (sys : System) (parse_file : Text → Config → Outcome (Bool × Config))
      (reads : (t : Text) (c : Config) → Fits c → ReadFits (parse_file t c)) where
    pub argument-Fits :
        (o : ℕ) (value : Text) (c : Config)
        → Allowed value
        → Fits c
        → AllFit (parse_argument k sys parse_file o value c)
    unfolding parse_argument
    argument-Fits o value c allowed t = if_Fits (o == b'a') _ _ t (
        if_Fits (o == b'b') _ _ t (
          if_Fits (o == b'0') _ _ t (
            if_Fits (o == b'c') _ _ t (
              if_Fits (o == b'd') _ _ t (
                if_Fits (o == b'g') _ _ t (
                  if_Fits (o == b'h') _ _ t (
                    if_Fits (o == b'i') _ _ t (
                      if_Fits (o == b'j') _ _ (add_input-Fits value c t) (
                        if_Fits (o == b'k') _ _ (set_mapping-Fits sys value c t) (
                          if_Fits (o == b'l') _ _ t (
                            if_Fits (o == b'm') _ _ t (
                              if_Fits (o == b'n') _ _ t (
                                if_Fits (o == b'o') _ _
                                  (or_exit-Fits (parse_file value c) (reads value c t))
                                  (if_Fits (o == b'p') _ _ t (
                                    if_Fits (o == b'q') _ _ t (
                                      if_Fits (o == b'r') _ _ (set_key_dir-Fits value c allowed t) (
                                        if_Fits (o == b's') _ _ (remote-Fits k value c t) (
                                          if_Fits (o == b't') _ _ t (
                                            if_Fits (o == b'u') _ _ (surround-Fits k value c t) (
                                              if_Fits (o == b'v') _ _ t (
                                                if_Fits (o == b'x') _ _ (codec-Fits value c t) (
                                                  if_Fits (o == b'y') _ _ t (
                                                    if_Fits (o == b'1') _ _ t (
                                                      if_Fits (o == b'2') _ _ t (
                                                        if_Fits (o == b'3') _ _ t (
                                                          if_Fits (o == b'z') _ _ t (
                                                            if_Fits (o == b'Z') _ _ t (
                                                            if_Fits (o == b'4') _ _ t (
                                                            if_Fits (o == b'5') _ _ t (
                                                            if_Fits (o == b'6') _ _ t (
                                                            if_Fits (o == b'7') _ _ t (
                                                            if_Fits (o == 1) _ _
                                                            (positional-Fits value c t)
                                                            t))))))))))))))))))))))))))))))))

    option-Fits :
        (os : List LongOption) (key value : Text) (c : Config)
        → Allowed value
        → Fits c
        → AllFit (set_option k sys parse_file os key value c)
    unfolding set_option
    option-Fits [] key value c allowed t = t
    option-Fits (o ∷ os) key value c allowed t =
        then_Fits _ (λ c. set_option k sys parse_file os key value c)
          (if_Fits (text_eq o.name key) _ _
            (if_Fits o.required _ _ (argument-Fits o.val value c allowed t)
              (if_Fits (text_eq (codes "true") value) _ _ (argument-Fits o.val [] c empty t) t))
            t)
          (λ c t. option-Fits os key value c allowed t)

    key-Fits :
        (key value : Text) (c : Config)
        → Allowed value
        → Fits c
        → AllFit (set_key k sys parse_file key value c)
    unfolding set_key
    key-Fits key value c allowed t = if_Fits (text_eq key (codes "address")) _ _ t (
        if_Fits (text_eq key (codes "sops")) _ _ t (option-Fits long_options key value c allowed t))

    pub lines-Fits :
        (ls : List Text) (c : Config)
        → LinesAllowed ls
        → Fits c
        → AllFit (parse_lines k sys parse_file ls c)
    unfolding parse_lines parse_line
    lines-Fits [] c given t = t
    lines-Fits (l ∷ ls) c given t = elim (Option-cases (scan_line l)) [
      | inl gone ↦ rw (gone, parse_lines, parse_line) (lines-Fits ls c given.1 t)
      | inr (kv, found) ↦
          rw (found, parse_lines, parse_line)
            (then_Fits (set_key k sys parse_file kv.0 kv.1 c)
              (λ c. parse_lines k sys parse_file ls c) (key-Fits kv.0 kv.1 c (given.0 kv found) t)
              (λ c t. lines-Fits ls c given.1 t))
    ]
