-- ===== src/Mappings/Scan.antt =====
-- What src/input/mapping.c prints of one option is what it scans.
use moonlight_allwinner_h.Prelude.{
  ℕ, suc, ◌≡◌, refl, Bool, true, false, not, both_of, [], ◌∷◌, ◌++◌, some, arith, ◌&&◌, ◌==◌,
}
use moonlight_allwinner_h.Prelude.Int.{ℤ, pos, negsuc, neg_ℤ}
use moonlight_allwinner_h.Gamestream.Text.{Text, is_digit, is_space, digits_value}
use moonlight_allwinner_h.Config.File.{skip_space, word, decimal, print_int}
use moonlight_allwinner_h.Config.Number.{
  all_digits, decimal-all_digits, decimal-first, decimal-value,
}
use moonlight_allwinner_h.Config.Line.{skip_space-dark, dark}
use moonlight_allwinner_h.Mappings.Parse.{
  split, tokens, until_colon, scan_option, span_digits, found_number, signed_number, scan_int,
}

-- Every character passes a test.
abbrev pub all_of : (ℕ → Bool) → Text → Bool
all_of q [] = true
all_of q (c ∷ t) = q c && all_of q t

-- A character of an option: no space and no comma.
abbrev pub is_plain : ℕ → Bool
is_plain c = not (is_space c) && not (c == b',')

abbrev pub no_comma : ℕ → Bool
no_comma c = not (c == b',')

abbrev pub no_colon : ℕ → Bool
no_colon c = not (c == b':')

pub all_of-append :
    (q : ℕ → Bool) (s t : Text) → all_of q s ≡ true → all_of q t ≡ true → all_of q (s ++ t) ≡ true
all_of-append q [] t hs ht = ht
all_of-append q (c ∷ s) t hs ht =
    let (here, more) = both_of (q c) (all_of q s) hs in rw (here, all_of-append q s t more ht) refl

pub all_of-imp :
    (q r : ℕ → Bool) (t : Text)
    → ((c : ℕ) → q c ≡ true → r c ≡ true)
    → all_of q t ≡ true
    → all_of r t ≡ true
all_of-imp q r [] f h = refl
all_of-imp q r (c ∷ t) f h =
    let (here, more) = both_of (q c) (all_of q t) h in rw (f c here, all_of-imp q r t f more) refl

digits-plain : (t : Text) → all_digits t ≡ true → all_of is_plain t ≡ true
digits-plain [] h = refl
digits-plain (c ∷ t) h =
    let (digit, rest) = both_of (is_digit c) (all_digits t) h in
    rw (digits-plain t rest) (ground arith)

pub number-plain : (v : ℤ) → all_of is_plain (print_int v) ≡ true
unfolding print_int
number-plain (pos n) = digits-plain (decimal n) (decimal-all_digits n)
number-plain (negsuc n) = digits-plain (decimal (suc n)) (decimal-all_digits (suc n))

-- The first token ends at the comma.
split-comma :
    (t rest : Text) → all_of no_comma t ≡ true → split (t ++ (b',' ∷ rest)) ≡ t ∷ split rest
unfolding split
split-comma [] rest h = refl
split-comma (c ∷ t) rest h =
    let (here, more) = both_of (no_comma c) (all_of no_comma t) h in
    rw (split-comma t rest more) (ground arith)

pub tokens-comma :
    (c : ℕ) (t rest : Text)
    → all_of no_comma (c ∷ t) ≡ true
    → tokens ((c ∷ t) ++ (b',' ∷ rest)) ≡ (c ∷ t) ∷ tokens rest
unfolding tokens
tokens-comma c t rest h = rw (split-comma (c ∷ t) rest h) refl

until_colon-key :
    (key rest : Text)
    → all_of no_colon key ≡ true
    → until_colon (key ++ (b':' ∷ rest)) ≡ (key, b':' ∷ rest)
unfolding until_colon
until_colon-key [] rest h = refl
until_colon-key (c ∷ t) rest h =
    let (here, more) = both_of (no_colon c) (all_of no_colon t) h in
    rw (until_colon-key t rest more) (ground arith)

word-plain : (t : Text) → all_of is_plain t ≡ true → word t ≡ (t, [])
unfolding word
word-plain [] h = refl
word-plain (c ∷ t) h =
    let (here, more) = both_of (is_plain c) (all_of is_plain t) h in
    rw (word-plain t more) (ground arith)

-- An option holds its key and its value.
pub scan_option-printed :
    (c : ℕ) (key : Text) (v : ℕ) (vs : Text)
    → all_of no_colon (c ∷ key) ≡ true
    → all_of is_plain (v ∷ vs) ≡ true
    → scan_option ((c ∷ key) ++ (b':' ∷ v ∷ vs)) ≡ some (c ∷ key, v ∷ vs)
unfolding scan_option
scan_option-printed c key v vs hk hv =
    let (here, more) = both_of (is_plain v) (all_of is_plain vs) hv in
    let (dark_v, apart) = both_of (not (is_space v)) (not (v == b',')) here in
    rw
      (
        until_colon-key (c ∷ key) (v ∷ vs) hk,
        skip_space-dark (v ∷ vs) dark_v,
        word-plain (v ∷ vs) hv,
      )
      refl

-- A text that does not start with a digit.
abbrev pub no_digit_first : Text → Bool
no_digit_first [] = true
no_digit_first (c ∷ t) = not (is_digit c)

span-digits :
    (t rest : Text)
    → all_digits t ≡ true
    → no_digit_first rest ≡ true
    → span_digits (t ++ rest) ≡ (t, rest)
unfolding span_digits
span-digits [] [] h hr = refl
span-digits [] (c ∷ t) h hr = rw (dark (is_digit c) hr) refl
span-digits (c ∷ t) rest h hr =
    let (digit, more) = both_of (is_digit c) (all_digits t) h in
    rw (span-digits t rest more hr, digit) refl

found_decimal :
    (n : ℕ) (rest : Text)
    → no_digit_first rest ≡ true
    → found_number (span_digits (decimal n ++ rest)) ≡ some (n, rest)
found_decimal n rest hr =
    let (c, t, e, digit) = decimal-first n in
    let value : digits_value (c ∷ t) 0 ≡ n = rw e at (decimal-value n) in
    rw (span-digits (decimal n) rest (decimal-all_digits n) hr, e, value) refl

signed_digit :
    (c : ℕ) (t : Text) {n : ℕ} {rest : Text}
    → is_digit c ≡ true
    → found_number (span_digits (c ∷ t)) ≡ some (n, rest)
    → signed_number (c ∷ t) ≡ some (pos n, rest)
signed_digit c t digit h =
    let no_minus : (c == b'-') ≡ false = ground arith in
    let no_plus : (c == b'+') ≡ false = ground arith in rw (no_minus, no_plus, h) refl

negated : (n : ℕ) → neg_ℤ (pos (suc n)) ≡ negsuc n
unfolding neg_ℤ
negated n = ground arith

-- A printed number is scanned, with what follows it.
pub scan_int-printed :
    (v : ℤ) (rest : Text)
    → no_digit_first rest ≡ true
    → scan_int (print_int v ++ rest) ≡ some (v, rest)
unfolding scan_int print_int skip_space
scan_int-printed (pos n) rest hr =
    let (c, t, e, digit) = decimal-first n in
    let found : found_number (span_digits (c ∷ (t ++ rest))) ≡ some (n, rest) =
      rw e at (found_decimal n rest hr) in
    rw (e, skip_space-dark (c ∷ (t ++ rest)) (ground arith), scan_int)
      (signed_digit c (t ++ rest) digit found)
scan_int-printed (negsuc n) rest hr = rw (found_decimal (suc n) rest hr, negated n) refl

append_nil : (t : Text) → t ++ [] ≡ t
append_nil [] = refl
append_nil (c ∷ t) = rw (append_nil t) refl

pub scan_int-alone : (v : ℤ) → scan_int (print_int v) ≡ some (v, [])
scan_int-alone v = rw (append_nil (print_int v)) at (scan_int-printed v [] refl)
