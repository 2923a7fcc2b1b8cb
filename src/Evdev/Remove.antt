-- ===== src/Evdev/Remove.antt =====
-- `evdev_remove` of src/input/evdev.c.
use native.Mathlib.Nat.{pow-le-pow_right}
use moonlight_allwinner_h.Prelude.{
  ℕ, ◌-◌, ◌<◌, ◌≤◌, ◌^◌, ◌+◌, ◌≡◌, refl, Bool, true, false, not, List, ◌∷◌, Option, some, arith,
  inl, inr, Bool-cases, ◌&&◌, ltb, ◌==◌, if◌then◌else◌, length, get_elem?, get_elem?-lt, take,
  ◌>>=◌,
}
use moonlight_allwinner_h.Prelude.Removal.{move, count, remove_at}
use moonlight_allwinner_h.Prelude.Bits.{
  clear_bits, test_bit, test_bit-clear_bits, test_bit-two_pow, test_bit-le_one,
}
use moonlight_allwinner_h.Prelude.Int.{ℤ, pos, negsuc, ltb_ℤ, eqb_ℤ, pos_part}
use moonlight_allwinner_h.Evdev.Device.{Device}
use moonlight_allwinner_h.Evdev.Output.{Message, multi_controller, thread_join}

-- The calls of `evdev_remove`; a device is named by its descriptor.
pub data Release : Type 0 where
  tell : Message → Release
  free_device remove_fd close_fd : ℤ → Release

-- `devices` up to `numDevices`, `assignedControllerIds`, and the calls so far, newest first.
pub record Devices : Type 0 where
  pub devices : List Device
  pub assigned : ℕ
  pub calls : List Release

-- the host is told that the controller is gone
unfoldable pub disconnected : Device → Devices → Devices
disconnected d s =
    if ltb_ℤ d.controller_id (pos 0)
    then s
    else (let mask = clear_bits s.assigned (2 ^ pos_part d.controller_id) in
        record s {
          assigned = mask;
          calls =
              tell (multi_controller d.controller_id mask 0 0 0 (pos 0) (pos 0) (pos 0) (pos 0))
              ∷ s.calls;
        })

-- the mouse emulation ends, the descriptor is closed
unfoldable pub closed : Device → Devices → Devices
closed d s =
    let joined = if d.mouse_emulation then tell thread_join ∷ s.calls else s.calls in
    record s { calls = close_fd d.fd ∷ remove_fd d.fd ∷ free_device d.fd ∷ joined }

-- `none` is an index past the end.
unfoldable pub evdev_remove : ℕ → Devices → Option Devices
evdev_remove i s = get_elem? s.devices i >>= λ d.
    let last = length s.devices - 1 in
    let left = if not (i == last) && ltb 0 last then move i last s.devices else s.devices in
    some (record (closed d (disconnected d s)) { devices = take last left })

cleared_bit :
    (mask k : ℕ) (id : ℤ)
    → ltb_ℤ id (pos 0) ≡ false
    → pos_part id < 32
    → k < 32
    → test_bit (clear_bits mask (2 ^ pos_part id)) k
      ≡ (if eqb_ℤ id (pos k) then 0 else test_bit mask k)
cleared_bit mask k (pos i) nonneg small near =
    let low : i ≤ 31 = omega (arith, small) in
    let in_word : 2 ^ i < 2 ^ 32 = omega (arith, pow-le-pow_right {n = 2} (omega arith) low) in
    let bit = test_bit-clear_bits mask (2 ^ i) k in_word near in
    let own = test_bit-two_pow i k in
    elim (Bool-cases (i == k)) [
      | inl same ↦
          let here : eqb_ℤ (pos i) (pos k) ≡ true = ground arith in
          let set_bit : test_bit (2 ^ i) k ≡ 1 = rw same at own in
          rw here (omega (arith, bit, set_bit))
      | inr apart ↦
          let other : eqb_ℤ (pos i) (pos k) ≡ false = ground arith in
          let clear_bit : test_bit (2 ^ i) k ≡ 0 = rw apart at own in
          rw other (omega (arith, bit, clear_bit, test_bit-le_one mask k))
    ]
cleared_bit mask k (negsuc n) nonneg small near = absurd (ground arith)

assigned_bit :
    (d : Device) (s : Devices) (k : ℕ)
    → pos_part d.controller_id < 32
    → k < 32
    → test_bit (closed d (disconnected d s)).assigned k
      ≡ (if eqb_ℤ d.controller_id (pos k) then 0 else test_bit s.assigned k)
unfolding closed disconnected
assigned_bit d s k small near = elim (Bool-cases (ltb_ℤ d.controller_id (pos 0))) [
  | inl none_yet ↦
      let other : eqb_ℤ d.controller_id (pos k) ≡ false = ground arith in rw (none_yet, other) refl
  | inr given ↦ rw given (cleared_bit s.assigned k d.controller_id given small near)
]

-- A device of the table whose controller's number, if it has one, is below 32 is taken out: every
-- other one stays, and of the numbers below 32 its own is free afterwards and all others are as before.
pub remove_one :
    (i : ℕ) (d : Device) (s : Devices)
    → get_elem? s.devices i ≡ some d
    → pos_part d.controller_id < 32
    → (t : Devices) × (evdev_remove i s ≡ some t)
      × ((q : Device → Bool) → count q t.devices + (if q d then 1 else 0) ≡ count q s.devices)
      × ((k : ℕ)
          → k < 32
          → test_bit t.assigned k
            ≡ (if eqb_ℤ d.controller_id (pos k) then 0 else test_bit s.assigned k))
unfolding evdev_remove
remove_one i d s here small =
    let last = length s.devices - 1 in
    let inside = get_elem?-lt s.devices i here in
    let left = if not (i == last) && ltb 0 last then move i last s.devices else s.devices in
    (
      record (closed d (disconnected d s)) { devices = take last left },
      rw here refl,
      λ q. remove_at q s.devices last i (omega (arith, inside)) here,
      λ k near. assigned_bit d s k small near,
    )
