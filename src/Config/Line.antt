-- ===== src/Config/Line.antt =====
-- A line that src/config.c writes is read back as its key and its value.
use moonlight_allwinner_h.Prelude.{
  ℕ, ◌≡◌, refl, Bool, true, false, not, both_of, List, [], ◌∷◌, ◌++◌, some, arith, ◌&&◌, ◌==◌,
}
use moonlight_allwinner_h.Gamestream.Text.{Text, codes, is_space}
use moonlight_allwinner_h.Config.File.{
  lines, skip_space, word, after_equals, scan_line, write_config_string,
}

-- A text on one line.
abbrev pub one_line : Text → Bool
one_line [] = true
one_line (c ∷ t) = not (c == 10) && one_line t

-- A text without spaces.
abbrev pub no_space : Text → Bool
no_space [] = true
no_space (c ∷ t) = not (is_space c) && no_space t

-- A text that starts with a character other than a space.
abbrev pub starts_dark : Text → Bool
starts_dark [] = false
starts_dark (c ∷ t) = not (is_space c)

lines-end : (t rest : Text) → one_line t ≡ true → lines ((t ++ (10 ∷ [])) ++ rest) ≡ t ∷ lines rest
unfolding lines
lines-end [] rest h = refl
lines-end (c ∷ t) rest h =
    let (here, more) = both_of (not (c == 10)) (one_line t) h in
    rw (lines-end t rest more) (ground arith)

lines-prefix :
    (key body rest : Text) {l : Text} {ls : List Text}
    → one_line key ≡ true
    → lines (body ++ rest) ≡ l ∷ ls
    → lines ((key ++ body) ++ rest) ≡ (key ++ l) ∷ ls
unfolding lines
lines-prefix [] body rest h e = e
lines-prefix (c ∷ t) body rest h e =
    let (here, more) = both_of (not (c == 10)) (one_line t) h in
    rw (lines-prefix t body rest more e) (ground arith)

-- The line that is written is the next one that is read.
pub lines-written :
    (key value rest : Text)
    → one_line key ≡ true
    → one_line value ≡ true
    → lines (write_config_string key value ++ rest) ≡ (key ++ (codes " = " ++ value)) ∷ lines rest
unfolding write_config_string
lines-written key value rest hk hv =
    lines-prefix key (codes " = " ++ (value ++ (10 ∷ []))) rest hk
      (lines-prefix (codes " = ") (value ++ (10 ∷ [])) rest refl (lines-end value rest hv))

pub dark : (b : Bool) → not b ≡ true → b ≡ false
dark b h = ground arith

word-key : (key rest : Text) → no_space key ≡ true → word (key ++ (32 ∷ rest)) ≡ (key, 32 ∷ rest)
unfolding word
word-key [] rest h = refl
word-key (c ∷ t) rest h =
    let (here, more) = both_of (not (is_space c)) (no_space t) h in
    rw (word-key t rest more, dark (is_space c) here) refl

pub skip_space-dark : (t : Text) → starts_dark t ≡ true → skip_space t ≡ t
unfolding skip_space
skip_space-dark [] h = refl
skip_space-dark (c ∷ t) h = rw (dark (is_space c) h) refl

after_equals-value :
    (key value : Text)
    → starts_dark value ≡ true
    → after_equals key (skip_space (32 ∷ 61 ∷ 32 ∷ value)) ≡ some (key, value)
unfolding skip_space
after_equals-value key [] h = cc
after_equals-value key (v ∷ vs) h = rw (dark (is_space v) h) refl

-- It holds its key and its value.
pub scan_line-written :
    (c : ℕ) (key value : Text)
    → no_space (c ∷ key) ≡ true
    → starts_dark value ≡ true
    → scan_line ((c ∷ key) ++ (codes " = " ++ value)) ≡ some (c ∷ key, value)
unfolding scan_line
scan_line-written c key value hk hv =
    let (here, more) = both_of (not (is_space c)) (no_space key) hk in
    rw
      (
        skip_space-dark ((c ∷ key) ++ (codes " = " ++ value)) here,
        word-key (c ∷ key) (61 ∷ 32 ∷ value) hk,
        scan_line,
      )
      (after_equals-value (c ∷ key) value hv)
