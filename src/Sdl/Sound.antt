-- ===== src/Sdl/Sound.antt =====
-- The operations on the table of game controllers in src/input/sdl.c keep it well-formed.
use moonlight_allwinner_h.Prelude.{
  ℕ, zero, suc, ◌≡◌, refl, inl, inr, Bool, true, false, Bool-cases, Option-cases, List, none, some,
  arith, ◌==◌, if◌then◌else◌, get_elem?, replicate, some-injective,
}
use moonlight_allwinner_h.Prelude.Int.{ℤ, pos, ◌+ℤ◌, +ℤ_parts}
use moonlight_allwinner_h.Evdev.Host.{Limelight}
use moonlight_allwinner_h.Sdl.Host.{Numbers, Calls}
use moonlight_allwinner_h.Sdl.Pads.{
  Gamepad, Pads, empty_gamepad, find_id, find_free, update, occupy, new_gamepad, remove_gamepad,
  clear_gamepads, send_controller_arrival, connect, add_gamepad, add_gamepads, sdlinput_init,
}
use moonlight_allwinner_h.Prelude.Bits.{test_bit-zero}
use moonlight_allwinner_h.Sdl.Slots.{used, find_id-some, find_id-none, find_free-some}
use moonlight_allwinner_h.Sdl.Table.{IsTable, write-IsTable, take-IsTable, free-IsTable}

-- A change of a gamepad that leaves its use, instance and number alone.
abbrev pub Keeps : (Gamepad → Gamepad) → Type 0
Keeps f =
    (g : Gamepad)
    → ((f g).initialized ≡ g.initialized) × ((f g).sdl_id ≡ g.sdl_id) × ((f g).id ≡ g.id)

used-empty : (n i : ℕ) → used (replicate n empty_gamepad) i ≡ 0
unfolding empty_gamepad
used-empty zero i = refl
used-empty (suc n) zero = refl
used-empty (suc n) (suc i) = used-empty n i

get-empty :
    (n i : ℕ) {g : Gamepad}
    → get_elem? (replicate n empty_gamepad) i ≡ some g
    → g.initialized ≡ false
unfolding empty_gamepad
get-empty zero i h = cc
get-empty (suc n) zero h = rw (← some-injective h) refl
get-empty (suc n) (suc i) h = get-empty n i h

empty-IsTable : IsTable (replicate 16 empty_gamepad) 0 (pos 0)
unfolding empty_gamepad
empty-IsTable = record {
  full = refl;
  mask_bits = λ i lt. omega (arith, test_bit-zero i, used-empty 16 i);
  own_ids = λ i g at busy. let idle = get-empty 16 i at in cc;
  one_each = λ i j g h at_i at_j busy_g busy_h same. let idle = get-empty 16 i at_i in cc;
  counted = omega arith;
}

-- One count more does no harm.
more-IsTable :
    (gs : List Gamepad) (mask : ℕ) (n : ℤ) → IsTable gs mask n → IsTable gs mask (n +ℤ pos 1)
more-IsTable gs mask n t = record {
  full = t.full;
  mask_bits = t.mask_bits;
  own_ids = t.own_ids;
  one_each = t.one_each;
  counted = omega (arith, t.counted, +ℤ_parts n (pos 1));
}

module _ {F : Type 0} where
  -- The table and the mask of a state, with a count that may differ from the one kept.
  abbrev SoundAt : ℤ → Pads F → Type 0
  SoundAt n s = IsTable s.gamepads s.active_mask n

  abbrev pub IsSound : Pads F → Type 0
  IsSound s = SoundAt s.sdl_gamepads s

  update-count :
      (f : Gamepad → Gamepad) (i : ℕ) (s : Pads F) → (update f i s).sdl_gamepads ≡ s.sdl_gamepads
  unfolding update
  update-count f i s = ground arith

  pub update-SoundAt :
      (n : ℤ) (f : Gamepad → Gamepad) (i : ℕ) (s : Pads F)
      → Keeps f
      → SoundAt n s
      → SoundAt n (update f i s)
  unfolding update
  update-SoundAt n f i s keeps t = elim (Option-cases (get_elem? s.gamepads i)) [
    | inl gone ↦ rw (gone, update) t
    | inr (g, here) ↦
        let (u, q, d) = keeps g in
        rw (here, update) (write-IsTable s.gamepads s.active_mask n i (f g) t here u q d)
  ]

  pub update-IsSound :
      (f : Gamepad → Gamepad) (i : ℕ) (s : Pads F) → Keeps f → IsSound s → IsSound (update f i s)
  update-IsSound f i s keeps t =
      rw (update-count f i s) (update-SoundAt s.sdl_gamepads f i s keeps t)

  occupy-count :
      (sdl_id : ℤ) (i : ℕ) (s : Pads F) → (occupy sdl_id i s).sdl_gamepads ≡ s.sdl_gamepads
  unfolding occupy update
  occupy-count sdl_id i s = ground arith

  -- A new instance takes a free slot.
  occupy-SoundAt :
      (sdl_id : ℤ) (i : ℕ) (s : Pads F)
      → find_free s.gamepads ≡ some i
      → find_id sdl_id s.gamepads ≡ none
      → IsSound s
      → SoundAt (s.sdl_gamepads +ℤ pos 1) (occupy sdl_id i s)
  unfolding occupy update
  occupy-SoundAt sdl_id i s free absent t =
      let (g, here, idle) = find_free-some s.gamepads free in
      let new = record g { sdl_id = sdl_id; id = pos i; initialized = true } in
      rw (here, occupy, update)
        (take-IsTable s.gamepads s.active_mask s.sdl_gamepads i new t here idle refl refl
          (λ j h ne at busy. find_id-none sdl_id s.gamepads absent j at busy))

  pub remove-IsSound : (sdl_id : ℤ) (s : Pads F) → IsSound s → IsSound (remove_gamepad sdl_id s)
  unfolding empty_gamepad remove_gamepad
  remove-IsSound sdl_id s t = elim (Option-cases (find_id sdl_id s.gamepads)) [
    | inl gone ↦ rw (gone, remove_gamepad) t
    | inr (i, found) ↦
        let (g, here, busy, same) = find_id-some sdl_id s.gamepads found in
        rw (found, here, remove_gamepad)
          (free-IsTable s.gamepads s.active_mask s.sdl_gamepads i empty_gamepad t here busy refl)
  ]

  pub clear-IsSound :
      (s : Pads F) → s.active_mask ≡ 0 → s.sdl_gamepads ≡ pos 0 → IsSound (clear_gamepads s)
  unfolding clear_gamepads
  clear-IsSound s m n = rw (m, n) empty-IsTable

  pub if-IsSound : (b : Bool) (x y : Pads F) → IsSound x → IsSound y → IsSound (if b then x else y)
  if-IsSound true x y p q = p
  if-IsSound false x y p q = q

module _ {F : Type 0} (li : Limelight) (num : Numbers) (sdl : Calls) where
  arrival-count :
      (i : ℕ) (s : Pads F) → (send_controller_arrival li num sdl i s).sdl_gamepads ≡ s.sdl_gamepads
  unfolding send_controller_arrival
  arrival-count i s = ground arith

  arrival-SoundAt :
      (n : ℤ) (i : ℕ) (s : Pads F)
      → SoundAt n s
      → SoundAt n (send_controller_arrival li num sdl i s)
  unfolding send_controller_arrival
  arrival-SoundAt n i s t = elim (Option-cases (get_elem? s.gamepads i)) [
    | inl gone ↦ rw (gone, send_controller_arrival) t
    | inr (g, here) ↦ rw (here, send_controller_arrival) t
  ]

  connect-IsSound :
      (c i : ℕ) (s : Pads F)
      → SoundAt (s.sdl_gamepads +ℤ pos 1) s
      → IsSound (connect li num sdl c (i, s))
  unfolding connect update
  connect-IsSound c i s t =
      let f : Gamepad → Gamepad = λ g. record g { controller = c } in
      rw (arrival-count i (update f i s), update-count f i s)
        (arrival-SoundAt (s.sdl_gamepads +ℤ pos 1) i (update f i s)
          (update-SoundAt (s.sdl_gamepads +ℤ pos 1) f i s (λ g. (refl, refl, refl)) t))

  new-IsSound :
      (c : ℕ) (sdl_id : ℤ) (s : Pads F)
      → find_id sdl_id s.gamepads ≡ none
      → IsSound s
      → IsSound (connect li num sdl c (new_gamepad sdl_id s))
  unfolding new_gamepad
  new-IsSound c sdl_id s absent t = elim (Option-cases (find_free s.gamepads)) [
    | inl full ↦
        rw (full, new_gamepad)
          (connect-IsSound c 0 s (more-IsTable s.gamepads s.active_mask s.sdl_gamepads t))
    | inr (i, free) ↦
        rw (free, new_gamepad)
          (connect-IsSound c i (occupy sdl_id i s)
            (rw (occupy-count sdl_id i s) (occupy-SoundAt sdl_id i s free absent t)))
  ]

  pub add-IsSound : (i : ℤ) (s : Pads F) → IsSound s → IsSound (add_gamepad li num sdl i s)
  unfolding add_gamepad
  add-IsSound i s t = elim (Bool-cases (sdl.open_controller i == 0)) [
    | inl failed ↦ rw (failed, add_gamepad) t
    | inr opened ↦
        let c = sdl.open_controller i in
        elim (Option-cases (find_id (sdl.instance_id c) s.gamepads)) [
          | inl absent ↦
              rw (opened, absent, add_gamepad) (new-IsSound c (sdl.instance_id c) s absent t)
          | inr (j, found) ↦
              rw (opened, found, add_gamepad)
                (rw (arrival-count j s) (arrival-SoundAt s.sdl_gamepads j s t))
        ]
  ]

  add_gamepads-IsSound :
      (i n : ℕ) (s : Pads F) → IsSound s → IsSound (add_gamepads li num sdl i n s)
  unfolding add_gamepads
  add_gamepads-IsSound i zero s t = t
  add_gamepads-IsSound i (suc n) s t =
      add_gamepads-IsSound (suc i) n _
        (if-IsSound (sdl.is_game_controller i) _ s (add-IsSound (pos i) s t) t)

  pub init-IsSound :
      (s : Pads F)
      → s.active_mask ≡ 0
      → s.sdl_gamepads ≡ pos 0
      → IsSound (sdlinput_init li num sdl s)
  unfolding sdlinput_init
  init-IsSound s m n =
      add_gamepads-IsSound 0 sdl.num_joysticks (clear_gamepads s) (clear-IsSound s m n)
