-- ===== src/Config/Number.antt =====
-- A number that src/config.c writes with `%d` is read back by `atoi`.
use moonlight_allwinner_h.Prelude.{
  ℕ, zero, suc, ◌+◌, ◌-◌, ◌*◌, ◌/◌, ◌%◌, ◌≤◌, ◌<◌, ◌≡◌, ◌∙◌, refl, ap, Bool, true, Bool-cases, inl,
  inr, [], ◌∷◌, ◌++◌, arith, ◌&&◌, ltb, ltb→lt, both_of,
}
use moonlight_allwinner_h.Prelude.Int.{ℤ, pos, negsuc, neg_ℤ}
use moonlight_allwinner_h.Gamestream.Text.{Text, is_digit, digits_value, atoi}
use moonlight_allwinner_h.Config.File.{decimal_on, decimal, print_int}

-- A text of digits only.
abbrev pub all_digits : Text → Bool
all_digits [] = true
all_digits (c ∷ t) = is_digit c && all_digits t

digits_value-snoc :
    (t : Text) (d acc : ℕ)
    → all_digits t ≡ true
    → d < 10
    → digits_value (t ++ ((b'0' + d) ∷ [])) acc ≡ digits_value t acc * 10 + d
unfolding digits_value
digits_value-snoc [] d acc h lt = ground arith
digits_value-snoc (c ∷ t) d acc h lt =
    let (digit, rest) = both_of (is_digit c) (all_digits t) h in
    rw digit (digits_value-snoc t d (acc * 10 + (c - b'0')) rest lt)

all_digits-snoc :
    (t : Text) (d : ℕ) → all_digits t ≡ true → d < 10 → all_digits (t ++ ((b'0' + d) ∷ [])) ≡ true
all_digits-snoc [] d h lt = ground arith
all_digits-snoc (c ∷ t) d h lt =
    let (digit, rest) = both_of (is_digit c) (all_digits t) h in
    rw digit (all_digits-snoc t d rest lt)

decimal_on-all_digits : (fuel n : ℕ) → all_digits (decimal_on fuel n) ≡ true
unfolding decimal_on
decimal_on-all_digits zero n = ground arith
decimal_on-all_digits (suc fuel) n = ground (
  arith,
  all_digits-snoc (decimal_on fuel (n / 10)) (n % 10) (decimal_on-all_digits fuel (n / 10))
      (omega arith),
)

-- Enough fuel: as many rounds as the number.
decimal_on-value : (fuel n : ℕ) → n ≤ fuel → digits_value (decimal_on fuel n) 0 ≡ n
unfolding decimal_on digits_value
decimal_on-value zero n le = ground arith
decimal_on-value (suc fuel) n le = elim (Bool-cases (ltb n 10)) [
  | inl small ↦ rw small (ground (arith, ltb→lt n 10 small))
  | inr large ↦
      let high = decimal_on-value fuel (n / 10) (ground arith) in
      let all = decimal_on-all_digits fuel (n / 10) in
      rw large (
        omega
          (arith, high, digits_value-snoc (decimal_on fuel (n / 10)) (n % 10) 0 all (omega arith)))
]

decimal_on-first : (fuel n : ℕ) → (c : ℕ) × (t : Text) × (decimal_on fuel n ≡ c ∷ t)
unfolding decimal_on
decimal_on-first zero n = (_, [], refl)
decimal_on-first (suc fuel) n = elim (Bool-cases (ltb n 10)) [
  | inl small ↦ (b'0' + n, [], rw small refl)
  | inr large ↦
      let (c, t, e) = decimal_on-first fuel (n / 10) in
      (c, t ++ ((b'0' + n % 10) ∷ []), rw (large, e) refl)
]

pub decimal-first : (n : ℕ) → (c : ℕ) × (t : Text) × (decimal n ≡ c ∷ t) × (is_digit c ≡ true)
unfolding decimal
decimal-first n =
    let (c, t, e) = decimal_on-first n n in
    let all : all_digits (c ∷ t) ≡ true = rw e at (decimal_on-all_digits n n) in
    (c, t, e, (both_of (is_digit c) (all_digits t) all).0)

pub decimal-all_digits : (n : ℕ) → all_digits (decimal n) ≡ true
unfolding decimal
decimal-all_digits n = decimal_on-all_digits n n

pub decimal-value : (n : ℕ) → digits_value (decimal n) 0 ≡ n
unfolding decimal
decimal-value n = decimal_on-value n n (omega arith)

atoi-digits : (c : ℕ) (t : Text) → is_digit c ≡ true → atoi (c ∷ t) ≡ pos (digits_value (c ∷ t) 0)
unfolding atoi
atoi-digits c t h = ground arith

-- What `%d` prints is what `atoi` reads.
pub atoi-print_int : (v : ℤ) → atoi (print_int v) ≡ v
unfolding print_int atoi neg_ℤ
atoi-print_int (pos n) =
    let (c, t, e, digit) = decimal-first n in
    rw e (atoi-digits c t digit ∙ ap pos (rw (← e) (decimal-value n)))
atoi-print_int (negsuc n) = rw (decimal-value (suc n)) (ground arith)
