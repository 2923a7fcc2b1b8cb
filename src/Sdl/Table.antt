-- ===== src/Sdl/Table.antt =====
-- The invariant of the table of game controllers in src/input/sdl.c.
use native.Mathlib.Nat.{pow-le-pow_right}
use moonlight_allwinner_h.Prelude.{
  ℕ, zero, suc, ◌^◌, ◌≤◌, ◌<◌, ◌≡◌, ◌≢◌, refl, sym, inl, inr, true, false, Bool-cases, List, [],
  ◌∷◌, some, arith, ◌==◌, ==_iff, if◌then◌else◌, length, get_elem?, set, length-set, get_elem?-lt,
}
use moonlight_allwinner_h.Prelude.Int.{ℤ, pos, ◌+ℤ◌, ◌-ℤ◌, ◌≤ℤ◌, eqb_ℤ, +ℤ_parts, -ℤ_parts}
use moonlight_allwinner_h.Prelude.Bits.{
  bit_or, clear_bits, test_bit, test_bit-bit_or, test_bit-two_pow, test_bit-clear_bits,
  test_bit-le_one,
}
use moonlight_allwinner_h.Sdl.Pads.{Gamepad}
use moonlight_allwinner_h.Sdl.Slots.{
  used, used_count, used-get, used-set_ne, used_count-set, set_inversion,
}

-- The slots in use carry their own numbers.
abbrev OwnIds : List Gamepad → Type 0
OwnIds gs = (i : ℕ) (g : Gamepad) → get_elem? gs i ≡ some g → g.initialized ≡ true → g.id ≡ pos i

-- No two slots in use are of the same instance.
abbrev pub OneEach : List Gamepad → Type 0
OneEach gs =
    (i j : ℕ) (g h : Gamepad)
    → get_elem? gs i ≡ some g
    → get_elem? gs j ≡ some h
    → g.initialized ≡ true
    → h.initialized ≡ true
    → eqb_ℤ g.sdl_id h.sdl_id ≡ true
    → i ≡ j

-- No slot in use but `i` is of this instance.
abbrev pub IsFresh : List Gamepad → ℕ → ℤ → Type 0
IsFresh gs i sdl_id =
    (j : ℕ) (h : Gamepad)
    → i ≢ j
    → get_elem? gs j ≡ some h
    → h.initialized ≡ true
    → eqb_ℤ h.sdl_id sdl_id ≡ false

-- The table has sixteen slots. The mask has exactly the bits of those in use, which carry their own
-- numbers; no two of them are of the same instance; and sdl_gamepads is not less than their number.
pub record IsTable (gs : List Gamepad) (mask : ℕ) (n : ℤ) : Type 0 where
  pub full : length gs ≡ 16
  pub mask_bits : (i : ℕ) → i < 32 → test_bit mask i ≡ used gs i
  pub own_ids : OwnIds gs
  pub one_each : OneEach gs
  pub counted : pos (used_count gs) ≤ℤ n

used-set_self :
    (gs : List Gamepad) (i : ℕ) (v : Gamepad) {g : Gamepad}
    → get_elem? gs i ≡ some g
    → used (set gs i v) i ≡ (if v.initialized then 1 else 0)
used-set_self [] i v h = cc
used-set_self (g ∷ gs) zero v h = refl
used-set_self (g ∷ gs) (suc i) v h = used-set_self gs i v h

used-set :
    (gs : List Gamepad) (i j : ℕ) (v : Gamepad) {g : Gamepad}
    → get_elem? gs i ≡ some g
    → used (set gs i v) j ≡ (if i == j then if v.initialized then 1 else 0 else used gs j)
used-set gs i j v h = elim (Bool-cases (i == j)) [
  | inl same ↦ let e : i ≡ j = (==_iff i j).0 same in rw (same, ← e) (used-set_self gs i v h)
  | inr apart ↦ rw apart (used-set_ne gs i j v (λ e. ground (arith, e)))
]

set-OwnIds :
    (gs : List Gamepad) (i : ℕ) (v : Gamepad)
    → (v.initialized ≡ true → v.id ≡ pos i)
    → OwnIds gs
    → OwnIds (set gs i v)
set-OwnIds gs i v new old j g at busy = elim (set_inversion gs i j v at) [
  | inl (e, p) ↦ rw (← p, ← e) (new (rw p busy))
  | inr (ne, p) ↦ old j g p busy
]

clash : (v g h : ℤ) → v ≡ g → eqb_ℤ g h ≡ true → eqb_ℤ h v ≡ false → ⊥
clash v g h e p q = ground (arith, rw e at q)

clash2 : (v g h : ℤ) → v ≡ h → eqb_ℤ g h ≡ true → eqb_ℤ g v ≡ false → ⊥
clash2 v g h e p q = ground (arith, rw e at q)

pub OneEach-IsFresh :
    (gs : List Gamepad) (i : ℕ) {g : Gamepad}
    → OneEach gs
    → get_elem? gs i ≡ some g
    → g.initialized ≡ true
    → IsFresh gs i g.sdl_id
OneEach-IsFresh gs i {g} one here busy j h ne at u = elim (Bool-cases (eqb_ℤ h.sdl_id g.sdl_id)) [
  | inl same ↦ absurd (ne (sym (one j i h g at here u busy same)))
  | inr apart ↦ apart
]

set-OneEach :
    (gs : List Gamepad) (i : ℕ) (v : Gamepad)
    → (v.initialized ≡ true → IsFresh gs i v.sdl_id)
    → OneEach gs
    → OneEach (set gs i v)
set-OneEach gs i v new old j k g h at_j at_k busy_g busy_h same =
    elim (set_inversion gs i j v at_j) [
      | inl (e, p) ↦ elim (set_inversion gs i k v at_k) [
        | inl (e2, p2) ↦ omega (arith, e, e2)
        | inr (ne, p2) ↦
            let apart = new (rw p busy_g) k h ne p2 busy_h in
            absurd (clash v.sdl_id g.sdl_id h.sdl_id (rw p) same apart)
      ]
      | inr (ne, p) ↦ elim (set_inversion gs i k v at_k) [
        | inl (e2, p2) ↦
            let apart = new (rw p2 busy_h) j g ne p busy_g in
            absurd (clash2 v.sdl_id g.sdl_id h.sdl_id (rw p2) same apart)
        | inr (ne2, p2) ↦ old j k g h p p2 busy_g busy_h same
      ]
    ]

module _ (gs : List Gamepad) (mask : ℕ) (n : ℤ) (i : ℕ) {g : Gamepad} (v : Gamepad)
    (t : IsTable gs mask n) (here : get_elem? gs i ≡ some g) where
  -- A write that leaves use, instance and number of the slot alone.
  pub write-IsTable :
      v.initialized ≡ g.initialized
      → v.sdl_id ≡ g.sdl_id
      → v.id ≡ g.id
      → IsTable (set gs i v) mask n
  write-IsTable same_use same_sdl same_id = record {
    full = omega (arith, length-set gs i v, t.full);
    mask_bits = λ j lt.
        ground (arith, used-set gs i j v here, used-get gs i here, t.mask_bits j lt, same_use);
    own_ids =
        set-OwnIds gs i v (λ u. rw same_id (t.own_ids i g here (rw (← same_use) u))) t.own_ids;
    one_each =
        set-OneEach gs i v
          (λ u. rw same_sdl (OneEach-IsFresh gs i t.one_each here (rw (← same_use) u))) t.one_each;
    counted = ground (arith, used_count-set gs i v here, t.counted, same_use);
  }

  -- A free slot is taken by a new instance.
  pub take-IsTable :
      g.initialized ≡ false
      → v.initialized ≡ true
      → v.id ≡ pos i
      → IsFresh gs i v.sdl_id
      → IsTable (set gs i v) (bit_or mask (2 ^ i)) (n +ℤ pos 1)
  take-IsTable idle busy own fresh = record {
    full = omega (arith, length-set gs i v, t.full);
    mask_bits = λ j lt. ground (
      arith,
      used-set gs i j v here,
      used-get gs i here,
      t.mask_bits j lt,
      test_bit-bit_or mask (2 ^ i) j,
      test_bit-two_pow i j,
      test_bit-le_one mask j,
    );
    own_ids = set-OwnIds gs i v (λ u. own) t.own_ids;
    one_each = set-OneEach gs i v (λ u. fresh) t.one_each;
    counted = ground (arith, used_count-set gs i v here, t.counted, +ℤ_parts n (pos 1));
  }

  -- A slot in use is given back.
  pub free-IsTable :
      g.initialized ≡ true
      → v.initialized ≡ false
      → IsTable (set gs i v) (clear_bits mask (2 ^ i)) (n -ℤ pos 1)
  free-IsTable busy idle =
      let slot : i ≤ 15 = omega (arith, get_elem?-lt gs i here, t.full) in
      let small : 2 ^ i < 2 ^ 32 = omega (arith, pow-le-pow_right {n = 2} (omega arith) slot) in
      record {
        full = omega (arith, length-set gs i v, t.full);
        mask_bits = λ j lt. ground (
          arith,
          used-set gs i j v here,
          used-get gs i here,
          t.mask_bits j lt,
          test_bit-clear_bits mask (2 ^ i) j small lt,
          test_bit-two_pow i j,
          test_bit-le_one mask j,
        );
        own_ids = set-OwnIds gs i v (λ u. cc) t.own_ids;
        one_each = set-OneEach gs i v (λ u. cc) t.one_each;
        counted = ground (arith, used_count-set gs i v here, t.counted, -ℤ_parts n (pos 1));
      }
