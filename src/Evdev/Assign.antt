-- ===== src/Evdev/Assign.antt =====
-- The number that src/input/evdev.c gives to a gamepad.
use moonlight_allwinner_h.Prelude.{
  ℕ, zero, suc, ◌+◌, ◌^◌, ◌≤◌, ◌<◌, ◌≡◌, inl, inr, Option, none, some, arith, ◌==◌, Bool-cases,
}
use moonlight_allwinner_h.Prelude.Bits.{bit_and, test_bit, bit_clear_iff, test_bit-le_one}
use moonlight_allwinner_h.Evdev.Event.{free_id}

-- What the loop answers: the lowest number in reach whose bit is clear, or that there is none.
abbrev pub IsLowestFree : ℕ → ℕ → ℕ → Option ℕ → Type 0
IsLowestFree first limit mask none = (j : ℕ) → first ≤ j → j < limit → test_bit mask j ≡ 1
IsLowestFree first limit mask (some i) =
    (first ≤ i)
    × (i < limit)
    × (test_bit mask i ≡ 0)
    × ((j : ℕ) → first ≤ j → j < i → test_bit mask j ≡ 1)

step_free :
    (i limit mask : ℕ) (r : Option ℕ)
    → test_bit mask i ≡ 1
    → IsLowestFree (i + 1) limit mask r
    → IsLowestFree i limit mask r
step_free i limit mask none taken h = λ j lo hi. elim (Bool-cases (i == j)) [
  | inl same ↦ let e : i ≡ j = ground arith in rw e at taken
  | inr apart ↦ h j (ground arith) hi
]
step_free i limit mask (some k) taken h = (
  omega arith,
  h.1,
  h.2,
  λ j lo hi. elim (Bool-cases (i == j)) [
    | inl same ↦ let e : i ≡ j = ground arith in rw e at taken
    | inr apart ↦ h.3 j (ground arith) hi
  ],
)

free_id-IsLowestFree :
    (rounds i limit mask : ℕ)
    → i + rounds ≡ limit
    → IsLowestFree i limit mask (free_id rounds i mask)
unfolding free_id
free_id-IsLowestFree zero i limit mask e = λ j lo hi. absurd (omega arith)
free_id-IsLowestFree (suc rounds) i limit mask e = elim (Bool-cases (bit_and mask (2 ^ i) == 0)) [
  | inl free ↦
      rw free
        (omega arith, omega arith, (bit_clear_iff mask i).0 free, λ j lo hi. absurd (omega arith))
  | inr taken ↦
      let bit : test_bit mask i ≡ 1 =
        ground (arith, bit_clear_iff mask i, test_bit-le_one mask i) in
      rw taken (
        step_free i limit mask (free_id rounds (i + 1) mask) bit
          (free_id-IsLowestFree rounds (i + 1) limit mask (omega arith)))
]

-- The loop over the controller numbers 0 to 15 finds the lowest number whose bit is clear in the
-- mask of the numbers in use, and finds none exactly when all sixteen bits are set.
pub free_id_lowest : (mask : ℕ) → IsLowestFree 0 16 mask (free_id 16 0 mask)
free_id_lowest mask = free_id-IsLowestFree 16 0 16 mask (omega arith)
