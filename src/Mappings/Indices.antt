-- ===== src/Mappings/Indices.antt =====
-- Each option that mapping_print of src/input/mapping.c prints sets its index again.
use moonlight_allwinner_h.Prelude.{
  ℕ, ◌≡◌, ◌∙◌, refl, ap, Bool, true, false, both_of, ◌∷◌, ◌++◌, some, arith, ◌&&◌,
}
use moonlight_allwinner_h.Prelude.Int.{ℤ}
use moonlight_allwinner_h.Gamestream.Text.{Text, codes, text_eq}
use moonlight_allwinner_h.Config.File.{print_int}
use moonlight_allwinner_h.Evdev.Device.{Mapping}
use moonlight_allwinner_h.Mappings.Parse.{
  GamepadMapping, tokens, scan_button, scan_axis, scan_hat, set_button, set_axis, set_hat,
  set_index, strip_sign, set_option, parse_option, parse_options,
}
use moonlight_allwinner_h.Mappings.Print.{printed_if, is_set, print_btn, print_abs, print_hat}
use moonlight_allwinner_h.Mappings.Scan.{
  all_of, is_plain, no_comma, no_colon, all_of-append, all_of-imp, number-plain, tokens-comma,
  scan_option-printed, scan_int-printed, scan_int-alone,
}

-- A key of an option: no space, no comma, no colon.
abbrev pub is_key : Text → Bool
is_key t = all_of is_plain t && all_of no_colon t

plain-no_comma : (c : ℕ) → is_plain c ≡ true → no_comma c ≡ true
plain-no_comma c h = ground arith

-- An option that is printed or not is read before what follows.
read_option :
    (printed : Bool) (c : ℕ) (key : Text) (v : ℕ) (vs rest : Text) (m new : GamepadMapping)
    → is_key (c ∷ key) ≡ true
    → all_of is_plain (v ∷ vs) ≡ true
    → (printed ≡ true → parse_option ((c ∷ key) ++ (b':' ∷ v ∷ vs)) m ≡ new)
    → (printed ≡ false → m ≡ new)
    → parse_options (tokens (printed_if printed ((c ∷ key) ++ (b':' ∷ v ∷ vs)) rest)) m
      ≡ parse_options (tokens rest) new
unfolding parse_options
read_option true c key v vs rest m new hk hv read kept =
    let (plain, apart) = both_of (all_of is_plain (c ∷ key)) (all_of no_colon (c ∷ key)) hk in
    let option : all_of is_plain ((c ∷ key) ++ (b':' ∷ v ∷ vs)) ≡ true =
      all_of-append is_plain (c ∷ key) (b':' ∷ v ∷ vs) plain hv in
    rw
      (
        tokens-comma c (key ++ (b':' ∷ v ∷ vs)) rest
            (all_of-imp is_plain no_comma ((c ∷ key) ++ (b':' ∷ v ∷ vs)) plain-no_comma option),
        parse_options,
        read refl,
      )
      refl
read_option false c key v vs rest m new hk hv read kept = rw (kept refl) refl

parse_printed :
    (c : ℕ) (key : Text) (v : ℕ) (vs : Text) (m : GamepadMapping)
    → is_key (c ∷ key) ≡ true
    → all_of is_plain (v ∷ vs) ≡ true
    → parse_option ((c ∷ key) ++ (b':' ∷ v ∷ vs)) m ≡ set_option (c ∷ key) (strip_sign (v ∷ vs)) m
unfolding parse_option
parse_printed c key v vs m hk hv =
    let (plain, apart) = both_of (all_of is_plain (c ∷ key)) (all_of no_colon (c ∷ key)) hk in
    rw (scan_option-printed c key v vs apart hv, parse_option) refl

scan_button-printed : (v : ℤ) → scan_button (b'b' ∷ print_int v) ≡ some v
unfolding scan_button
scan_button-printed v = rw (scan_int-alone v, scan_button) refl

scan_axis-printed : (v : ℤ) → scan_axis (b'a' ∷ print_int v) ≡ some (v, 0)
unfolding scan_axis
scan_axis-printed v = rw (scan_int-alone v, scan_axis) refl

scan_hat-printed : (v d : ℤ) → scan_hat (b'h' ∷ (print_int v ++ (b'.' ∷ print_int d))) ≡ some (v, d)
unfolding scan_hat
scan_hat-printed v d =
    rw (scan_int-printed v (b'.' ∷ print_int d) refl, scan_int-alone d, scan_hat) refl

-- What an option does to the indices, whether it is printed or not.
module _ (f : Bool → Mapping → Mapping) (same : (i : Mapping) → i ≡ f false i) where
  abbrev pub after : Bool → GamepadMapping → GamepadMapping
  after printed m = record m { indices = f printed m.indices }

  read_index :
      (printed : Bool) (c : ℕ) (key : Text) (v : ℕ) (vs rest : Text) (m : GamepadMapping)
      → is_key (c ∷ key) ≡ true
      → all_of is_plain (v ∷ vs) ≡ true
      → set_option (c ∷ key) (strip_sign (v ∷ vs)) m ≡ after true m
      → parse_options (tokens (printed_if printed ((c ∷ key) ++ (b':' ∷ v ∷ vs)) rest)) m
        ≡ parse_options (tokens rest) (after printed m)
  read_index true c key v vs rest m hk hv sets =
      read_option true c key v vs rest m (after true m) hk hv
        (λ w. parse_printed c key v vs m hk hv ∙ sets) (λ w. cc)
  read_index false c key v vs rest m hk hv sets =
      read_option false c key v vs rest m (after false m) hk hv (λ w. cc)
        (λ w. ap (λ i. record m { indices = i }) (same m.indices))

  pub read_btn :
      (c : ℕ) (key : Text) (v : ℤ) (rest : Text) (m : GamepadMapping)
      → is_key (c ∷ key) ≡ true
      → text_eq (codes "platform") (c ∷ key) ≡ false
      → set_button (c ∷ key) v m.indices ≡ f true m.indices
      → parse_options (tokens (print_btn (c ∷ key) v rest)) m
        ≡ parse_options (tokens rest) (after (is_set v) m)
  unfolding set_option set_index
  read_btn c key v rest m hk other sets =
      read_index (is_set v) c key b'b' (print_int v) rest m hk (number-plain v)
        (rw (other, set_option, scan_button-printed v, set_index, sets) refl)

  pub read_abs :
      (c : ℕ) (key : Text) (v : ℤ) (rest : Text) (m : GamepadMapping)
      → is_key (c ∷ key) ≡ true
      → text_eq (codes "platform") (c ∷ key) ≡ false
      → set_axis (c ∷ key) v 0 0 m.indices ≡ f true m.indices
      → parse_options (tokens (print_abs (c ∷ key) v rest)) m
        ≡ parse_options (tokens rest) (after (is_set v) m)
  unfolding set_option set_index scan_button
  read_abs c key v rest m hk other sets =
      read_index (is_set v) c key b'a' (print_int v) rest m hk (number-plain v)
        (rw (other, set_option, scan_axis-printed v, set_index, sets) refl)

  pub read_hat :
      (c : ℕ) (key : Text) (v d : ℤ) (rest : Text) (m : GamepadMapping)
      → is_key (c ∷ key) ≡ true
      → text_eq (codes "platform") (c ∷ key) ≡ false
      → set_hat (c ∷ key) v d m.indices ≡ f true m.indices
      → parse_options (tokens (print_hat (c ∷ key) v d rest)) m
        ≡ parse_options (tokens rest) (after (is_set v) m)
  unfolding set_option set_index scan_button scan_axis
  read_hat c key v d rest m hk other sets =
      read_index (is_set v) c key b'h' (print_int v ++ (b'.' ∷ print_int d)) rest m hk
        (all_of-append is_plain (print_int v) (b'.' ∷ print_int d) (number-plain v)
          (number-plain d))
        (rw (other, set_option, scan_hat-printed v d, set_index, sets) refl)
