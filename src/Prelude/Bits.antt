-- ===== src/Prelude/Bits.antt =====
-- Flag words: `|`, `&` and `~` on the native numbers, with their meaning bit by bit.
use Prim.Native.Nat.{ℕ, zero, suc, ◌+◌, ◌-◌, ◌*◌, ◌/◌, ◌%◌, ◌^◌, ◌≤◌, ◌<◌, min, max}
use Prim.Native.Nat.{digits, bitwise, bit_and, bit_or, bit_and-bitwise, bit_or-bitwise}
use mathlib.Core.Path.{◌≡◌, refl}
use mathlib.Core.Logic.{◌↔◌, inl, inr}
use mathlib.Core.Bool.{Bool, true}
use native.Mathlib.Nat.{pow-suc, one-le-pow}
use native.Mathlib.Omega.{arith}
use moonlight_allwinner_h.Prelude.Tests.{◌==◌, ==_iff, Bool-cases, if◌then◌else◌}
pub use Prim.Native.Nat.{bit_and, bit_or}

-- Bit `i` of `a`, as 0 or 1.
unfoldable pub test_bit : ℕ → ℕ → ℕ
test_bit a zero = a % 2
test_bit a (suc i) = test_bit (a / 2) i

-- `a & ~f` for an `int` with no sign bit in play: `f` is taken from the 32 bits.
unfoldable pub clear_bits : ℕ → ℕ → ℕ
clear_bits a f = bit_and a (2 ^ 32 - 1 - f)

-- `(a & f) == f`.
unfoldable pub has_all : ℕ → ℕ → Bool
has_all a f = bit_and a f == f

-- The library's operations run on fuel; a round beyond the size of the left number changes nothing.
module _ (rest : ℕ → ℕ) (op : ℕ → ℕ → ℕ) where
  extra_round :
      (rounds x y : ℕ) → x ≤ rounds → digits rest op (suc rounds) x y ≡ digits rest op rounds x y
  extra_round rounds zero y le = no_digits rounds y
    where
      no_digits : (k w : ℕ) → digits rest op (suc k) 0 w ≡ digits rest op k 0 w
      no_digits zero w = refl
      no_digits (suc k) w = refl
  extra_round zero (suc x) y le = absurd (omega arith)
  extra_round (suc rounds) (suc x) y le =
      omega (arith, extra_round rounds (suc x / 2) (y / 2) (omega arith))

  extra_rounds :
      (more x y : ℕ)
      → (all : ℕ) × (all ≡ more + x) × (digits rest op all x y ≡ digits rest op x x y)
  extra_rounds zero x y = (x, omega arith, refl)
  extra_rounds (suc more) x y =
      let (all, sum, same) = extra_rounds more x y in
      (suc all, omega arith, omega (arith, extra_round all x y (omega arith)))

  lowest_digit :
      (x y : ℕ)
      → bitwise rest op (suc x) y ≡ op (suc x % 2) (y % 2) + 2 * bitwise rest op (suc x / 2) (y / 2)
  lowest_digit x y =
      let (all, sum, same) = extra_rounds (x - suc x / 2) (suc x / 2) (y / 2) in
      let rounds : all ≡ x = omega arith in omega (arith, rw rounds at same)

bit_or_step : (x y : ℕ) → bit_or x y ≡ max (x % 2) (y % 2) + 2 * bit_or (x / 2) (y / 2)
bit_or_step zero y = simp bit_or-bitwise (omega arith)
bit_or_step (suc x) y = simp bit_or-bitwise (lowest_digit (λ w. w) max x y)

bit_and_step : (x y : ℕ) → bit_and x y ≡ min (x % 2) (y % 2) + 2 * bit_and (x / 2) (y / 2)
bit_and_step zero y = simp bit_and-bitwise (omega arith)
bit_and_step (suc x) y = simp bit_and-bitwise (lowest_digit (λ w. 0) min x y)

pub test_bit-le_one : (a i : ℕ) → test_bit a i ≤ 1
unfolding test_bit
test_bit-le_one a zero = omega arith
test_bit-le_one a (suc i) = test_bit-le_one (a / 2) i

pub test_bit-bit_or : (a b i : ℕ) → test_bit (bit_or a b) i ≡ max (test_bit a i) (test_bit b i)
unfolding test_bit
test_bit-bit_or a b zero = omega (arith, bit_or_step a b)
test_bit-bit_or a b (suc i) =
    let half : bit_or a b / 2 ≡ bit_or (a / 2) (b / 2) = omega (arith, bit_or_step a b) in
    rw half (test_bit-bit_or (a / 2) (b / 2) i)

pub test_bit-bit_and : (a b i : ℕ) → test_bit (bit_and a b) i ≡ min (test_bit a i) (test_bit b i)
unfolding test_bit
test_bit-bit_and a b zero = omega (arith, bit_and_step a b)
test_bit-bit_and a b (suc i) =
    let half : bit_and a b / 2 ≡ bit_and (a / 2) (b / 2) = omega (arith, bit_and_step a b) in
    rw half (test_bit-bit_and (a / 2) (b / 2) i)

pub two_pow_suc : (k : ℕ) → 2 ^ suc k ≡ 2 * 2 ^ k
two_pow_suc k = omega (arith, pow-suc 2 k)

pub two_pow_pos : (k : ℕ) → 1 ≤ 2 ^ k
two_pow_pos k = one-le-pow k 2 (omega arith)

pub test_bit-zero : (i : ℕ) → test_bit 0 i ≡ 0
unfolding test_bit
test_bit-zero zero = omega arith
test_bit-zero (suc i) = test_bit-zero i

-- `1 << k` has one bit.
pub test_bit-two_pow : (k i : ℕ) → test_bit (2 ^ k) i ≡ (if k == i then 1 else 0)
unfolding test_bit
test_bit-two_pow zero zero = omega arith
test_bit-two_pow zero (suc i) = ground (arith, test_bit-zero i)
test_bit-two_pow (suc k) zero = ground (arith, two_pow_suc k)
test_bit-two_pow (suc k) (suc i) =
    let half : 2 ^ suc k / 2 ≡ 2 ^ k = omega (arith, two_pow_suc k) in
    rw half (ground (arith, test_bit-two_pow k i))

test_bit-complement :
    (w x i : ℕ) → x < 2 ^ w → i < w → test_bit (2 ^ w - 1 - x) i ≡ 1 - test_bit x i
unfolding test_bit
test_bit-complement zero x i hx hi = absurd (omega arith)
test_bit-complement (suc w) x zero hx hi = omega (arith, two_pow_suc w, two_pow_pos w)
test_bit-complement (suc w) x (suc i) hx hi =
    let half : (2 ^ suc w - 1 - x) / 2 ≡ 2 ^ w - 1 - x / 2 =
      omega (arith, two_pow_suc w, two_pow_pos w) in
    rw half (test_bit-complement w (x / 2) i (omega (arith, two_pow_suc w)) (omega arith))

-- `a & ~f` keeps the bits of `a` that `f` lacks.
pub test_bit-clear_bits :
    (a f i : ℕ)
    → f < 2 ^ 32
    → i < 32
    → test_bit (clear_bits a f) i ≡ min (test_bit a i) (1 - test_bit f i)
unfolding clear_bits
test_bit-clear_bits a f i hf hi =
    omega (arith, test_bit-bit_and a (2 ^ 32 - 1 - f) i, test_bit-complement 32 f i hf hi)

-- Two numbers with the same bits are equal.
bits_ext_fuel : (n a b : ℕ) → a ≤ n → b ≤ n → ((i : ℕ) → test_bit a i ≡ test_bit b i) → a ≡ b
unfolding test_bit
bits_ext_fuel zero a b ha hb h = omega arith
bits_ext_fuel (suc n) a b ha hb h =
    omega (arith, h 0, bits_ext_fuel n (a / 2) (b / 2) (omega arith) (omega arith) (λ i. h (suc i)))

pub bits_ext : (a b : ℕ) → ((i : ℕ) → test_bit a i ≡ test_bit b i) → a ≡ b
bits_ext a b h = bits_ext_fuel (a + b) a b (omega arith) (omega arith) h

bit_of_eq : {x y : ℕ} → x ≡ y → (j : ℕ) → test_bit x j ≡ test_bit y j
bit_of_eq p j = rw p

-- `(a & f) == f` holds exactly when `a` has every bit of `f`.
pub has_all_iff : (a f : ℕ) → (has_all a f ≡ true) ↔ ((i : ℕ) → test_bit f i ≤ test_bit a i)
unfolding has_all
has_all_iff a f = (to, from)
  where
    to : (bit_and a f == f) ≡ true → (i : ℕ) → test_bit f i ≤ test_bit a i
    to h i =
        let e : bit_and a f ≡ f = (==_iff _ _).0 h in
        omega (arith, test_bit-bit_and a f i, bit_of_eq e i)

    from : ((i : ℕ) → test_bit f i ≤ test_bit a i) → (bit_and a f == f) ≡ true
    from h = (==_iff _ _).1 (bits_ext _ _ (λ i. omega (arith, test_bit-bit_and a f i, h i)))

-- `(m & (1 << i)) == 0` holds exactly when bit `i` of `m` is clear.
-- Of two flags that are all set each is set.
pub has_all-bit_or :
    (a f g : ℕ) → has_all a (bit_or f g) ≡ true → (has_all a f ≡ true) × (has_all a g ≡ true)
has_all-bit_or a f g h = (
  (has_all_iff a f).1
      (λ i. omega (arith, (has_all_iff a (bit_or f g)).0 h i, test_bit-bit_or f g i)),
  (has_all_iff a g).1
      (λ i. omega (arith, (has_all_iff a (bit_or f g)).0 h i, test_bit-bit_or f g i)),
)

pub bit_clear_iff : (m i : ℕ) → ((bit_and m (2 ^ i) == 0) ≡ true) ↔ (test_bit m i ≡ 0)
bit_clear_iff m i = (to, from)
  where
    to : (bit_and m (2 ^ i) == 0) ≡ true → test_bit m i ≡ 0
    to h =
        let e = bit_of_eq ((==_iff _ _).0 h) i in
        ground (
          arith,
          e,
          test_bit-bit_and m (2 ^ i) i,
          test_bit-two_pow i i,
          test_bit-zero i,
          test_bit-le_one m i,
        )

    from : test_bit m i ≡ 0 → (bit_and m (2 ^ i) == 0) ≡ true
    from h = (==_iff _ _).1 (
        bits_ext _ _ (λ j. elim (Bool-cases (i == j)) [
          | inl same ↦
              let e : i ≡ j = (==_iff i j).0 same in
              rw (← e) (omega (arith, h, test_bit-bit_and m (2 ^ i) i, test_bit-zero i))
          | inr apart ↦
              ground (arith, test_bit-bit_and m (2 ^ i) j, test_bit-two_pow i j, test_bit-zero j)
        ]))
