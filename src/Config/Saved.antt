-- ===== src/Config/Saved.antt =====
-- What config_save of src/config.c writes and config_file_parse reads back.
use moonlight_allwinner_h.Prelude.{
  ℕ, suc, ◌≡◌, ◌∙◌, refl, Bool, true, false, not, both_of, [], ◌∷◌, arith, ◌==◌, ==_iff,
  if◌then◌else◌,
}
use moonlight_allwinner_h.Prelude.Int.{ℤ, pos, negsuc, eqb_ℤ}
use moonlight_allwinner_h.Gamestream.Text.{Text, codes, is_digit, text_eq}
use moonlight_allwinner_h.Config.Types.{Config, Constants, System, Outcome, ok}
use moonlight_allwinner_h.Config.File.{
  lines, parse_line, parse_lines, written_if, write_config_string, saved, print_int, decimal,
}
use moonlight_allwinner_h.Config.Number.{all_digits, decimal-first, decimal-all_digits}
use moonlight_allwinner_h.Config.Keys.{
  set_to, width_key, height_key, fps_key, bitrate_key, packetsize_key, rotate_key, app_key,
  sops_key, localaudio_key, quitappafter_key, viewonly_key,
}
use moonlight_allwinner_h.Config.Line.{
  one_line, no_space, starts_dark, lines-written, scan_line-written,
}

-- A value that a line can hold: it is not empty, is on one line and does not start with a space.
abbrev pub IsValue : Text → Type 0
IsValue t = (one_line t ≡ true) × (starts_dark t ≡ true)

digits-one_line : (t : Text) → all_digits t ≡ true → one_line t ≡ true
digits-one_line [] h = refl
digits-one_line (c ∷ t) h =
    let (digit, rest) = both_of (is_digit c) (all_digits t) h in
    rw (digits-one_line t rest) (ground arith)

number-IsValue : (v : ℤ) → IsValue (print_int v)
unfolding print_int
number-IsValue (pos n) =
    let (c, t, e, digit) = decimal-first n in
    (digits-one_line (decimal n) (decimal-all_digits n), rw e (ground arith))
number-IsValue (negsuc n) = (digits-one_line (decimal (suc n)) (decimal-all_digits (suc n)), refl)

pub text_eq-eq : (a b : Text) → text_eq a b ≡ true → a ≡ b
unfolding text_eq
text_eq-eq [] [] h = refl
text_eq-eq [] (b ∷ bs) h = cc
text_eq-eq (a ∷ s) [] h = cc
text_eq-eq (a ∷ s) (b ∷ bs) h =
    let (same, rest) = both_of (a == b) (text_eq s bs) h in
    rw ((==_iff a b).0 same, text_eq-eq s bs rest) refl

module _ (k : Constants) (sys : System) (parse_file : Text → Config → Outcome (Bool × Config)) where
  abbrev parse : Text → Config → Outcome Config
  parse t d = parse_lines k sys parse_file (lines t) d

  -- A line that is written or not is read before what follows.
  read_line :
      (written : Bool) (c : ℕ) (key value rest : Text) (d new : Config)
      → no_space (c ∷ key) ≡ true
      → one_line (c ∷ key) ≡ true
      → IsValue value
      → (written ≡ true → set_to k sys parse_file (c ∷ key) value d ≡ ok new)
      → (written ≡ false → d ≡ new)
      → parse (written_if written (write_config_string (c ∷ key) value) rest) d ≡ parse rest new
  unfolding parse_lines parse_line
  read_line true c key value rest d new hs hl (one, dark) yes_set no_set =
      rw
        (
          lines-written (c ∷ key) value rest hl one,
          scan_line-written c key value hs dark,
          yes_set refl,
          parse_line,
        )
        refl
  read_line false c key value rest d new hs hl v yes_set no_set = rw (no_set refl) refl

  -- One setting: it is read where it was written, and kept where it was not.
  read_field {ℓ} :
      {A : Type ℓ} (upd : A → Config → Config) (get : Config → A) (written : Bool) (c : ℕ)
      (key : Text) (value rest : Text) (d : Config) (v : A)
      → no_space (c ∷ key) ≡ true
      → one_line (c ∷ key) ≡ true
      → IsValue value
      → set_to k sys parse_file (c ∷ key) value d ≡ ok (upd v d)
      → d ≡ upd (get d) d
      → parse (written_if written (write_config_string (c ∷ key) value) rest) d
        ≡ parse rest (upd (if written then v else get d) d)
  read_field upd get true c key value rest d v hs hl h set same =
      read_line true c key value rest d (upd v d) hs hl h (λ w. set) (λ w. cc)
  read_field upd get false c key value rest d v hs hl h set same =
      read_line false c key value rest d (upd (get d) d) hs hl h (λ w. cc) (λ w. same)

  -- A flag that is written only where it is not the default.
  read_sops :
      (b : Bool) (rest : Text) (d : Config)
      → parse
          (written_if
            (not b)
            (write_config_string (codes "sops") (if b then codes "true" else codes "false"))
            rest)
          d
        ≡ parse rest (record d { sops = if not b then false else d.sops })
  read_sops true rest d = refl
  read_sops false rest d =
      read_line true b's' (codes "ops") (codes "false") rest d _ refl refl (refl, refl)
        (λ w. sops_key k sys parse_file d) (λ w. cc)

  read_localaudio :
      (b : Bool) (rest : Text) (d : Config)
      → parse
          (written_if b
            (write_config_string (codes "localaudio") (if b then codes "true" else codes "false"))
            rest)
          d
        ≡ parse rest (record d { localaudio = if b then true else d.localaudio })
  read_localaudio true rest d =
      read_line true b'l' (codes "ocalaudio") (codes "true") rest d _ refl refl (refl, refl)
        (λ w. localaudio_key k sys parse_file d) (λ w. cc)
  read_localaudio false rest d = refl

  read_quitappafter :
      (b : Bool) (rest : Text) (d : Config)
      → parse
          (written_if b
            (write_config_string (codes "quitappafter") (if b then codes "true" else codes "false"))
            rest)
          d
        ≡ parse rest (record d { quitappafter = if b then true else d.quitappafter })
  read_quitappafter true rest d =
      read_line true b'q' (codes "uitappafter") (codes "true") rest d _ refl refl (refl, refl)
        (λ w. quitappafter_key k sys parse_file d) (λ w. cc)
  read_quitappafter false rest d = refl

  read_viewonly :
      (b : Bool) (rest : Text) (d : Config)
      → parse
          (written_if b
            (write_config_string (codes "viewonly") (if b then codes "true" else codes "false"))
            rest)
          d
        ≡ parse rest (record d { viewonly = if b then true else d.viewonly })
  read_viewonly true rest d =
      read_line true b'v' (codes "iewonly") (codes "true") rest d _ refl refl (refl, refl)
        (λ w. viewonly_key k sys parse_file d) (λ w. cc)
  read_viewonly false rest d = refl

  -- What a saved configuration changes.
  abbrev pub restored : Config → Config → Config
  restored c d = record d {
    width = if not (eqb_ℤ c.width (pos 1280)) then c.width else d.width;
    height = if not (eqb_ℤ c.height (pos 720)) then c.height else d.height;
    fps = if not (eqb_ℤ c.fps (pos 60)) then c.fps else d.fps;
    bitrate = if not (eqb_ℤ c.bitrate (negsuc 0)) then c.bitrate else d.bitrate;
    packet_size = if not (eqb_ℤ c.packet_size (pos 1024)) then c.packet_size else d.packet_size;
    sops = if not c.sops then false else d.sops;
    localaudio = if c.localaudio then true else d.localaudio;
    quitappafter = if c.quitappafter then true else d.quitappafter;
    viewonly = if c.viewonly then true else d.viewonly;
    rotate = if not (eqb_ℤ c.rotate (pos 0)) then c.rotate else d.rotate;
    app = if not (text_eq c.app (codes "Steam")) then c.app else d.app;
  }

  pub read_saved : (c d : Config) → IsValue c.app → parse (saved c) d ≡ ok (restored c d)
  unfolding saved parse_lines lines
  read_saved c d app_value =
      read_field (λ v d. record d { width = v }) (λ d. d.width) (not (eqb_ℤ c.width (pos 1280)))
        b'w' (codes "idth") _ _ _ _ refl refl (number-IsValue c.width)
        (width_key k sys parse_file c.width _) refl
      ∙ read_field (λ v d. record d { height = v }) (λ d. d.height) (not (eqb_ℤ c.height (pos 720)))
          b'h' (codes "eight") _ _ _ _ refl refl (number-IsValue c.height)
          (height_key k sys parse_file c.height _) refl
      ∙ read_field (λ v d. record d { fps = v }) (λ d. d.fps) (not (eqb_ℤ c.fps (pos 60))) b'f'
          (codes "ps") _ _ _ _ refl refl (number-IsValue c.fps) (fps_key k sys parse_file c.fps _)
          refl
      ∙ read_field (λ v d. record d { bitrate = v }) (λ d. d.bitrate)
          (not (eqb_ℤ c.bitrate (negsuc 0))) b'b' (codes "itrate") _ _ _ _ refl refl
          (number-IsValue c.bitrate) (bitrate_key k sys parse_file c.bitrate _) refl
      ∙ read_field (λ v d. record d { packet_size = v }) (λ d. d.packet_size)
          (not (eqb_ℤ c.packet_size (pos 1024))) b'p' (codes "acketsize") _ _ _ _ refl refl
          (number-IsValue c.packet_size) (packetsize_key k sys parse_file c.packet_size _) refl
      ∙ read_sops c.sops _ _
      ∙ read_localaudio c.localaudio _ _
      ∙ read_quitappafter c.quitappafter _ _
      ∙ read_viewonly c.viewonly _ _
      ∙ read_field (λ v d. record d { rotate = v }) (λ d. d.rotate) (not (eqb_ℤ c.rotate (pos 0)))
          b'r' (codes "otate") _ _ _ _ refl refl (number-IsValue c.rotate)
          (rotate_key k sys parse_file c.rotate _) refl
      ∙ read_field (λ v d. record d { app = v }) (λ d. d.app) (not (text_eq c.app (codes "Steam")))
          b'a' (codes "pp") _ _ _ _ refl refl app_value (app_key k sys parse_file c.app _) refl
