-- ===== src/Evdev/Rumble/Effects.antt =====
-- `evdev_rumble` of src/input/evdev.c forgets no effect in the kernel but those that could not be taken out.
use moonlight_allwinner_h.Prelude.{
  ◌++◌, ℕ, ◌+◌, ltb, ◌≡◌, refl, inl, inr, Bool, true, false, List, [], ◌∷◌, arith, Option-cases,
  Bool-cases, ◌==◌, ◌&&◌, if◌then◌else◌,
}
use moonlight_allwinner_h.Prelude.Int.{ℤ, pos, negsuc, ltb_ℤ, eqb_ℤ}
use moonlight_allwinner_h.Evdev.Device.{Device}
use moonlight_allwinner_h.Evdev.Rumble.{
  Kernel, Call, erase, store, play, Gamepad, stop_effect, start_effect, rumble_on, evdev_rumble,
}

-- the numbers without the first that is the given one
abbrev pub without : ℤ → List ℤ → List ℤ
without id [] = []
without id (x ∷ rest) = if eqb_ℤ x id then rest else x ∷ without id rest

-- The effects that the kernel has stored after some calls.
abbrev pub live : List Call → List ℤ
live [] = []
live (erase id done ∷ rest) = if done then without id (live rest) else live rest
live (store id low high ∷ rest) = id ∷ live rest
live (play id ∷ rest) = live rest

-- The effects that the kernel refused to take out.
abbrev pub refused : List Call → List ℤ
refused [] = []
refused (erase id done ∷ rest) = if done then refused rest else id ∷ refused rest
refused (store id low high ∷ rest) = refused rest
refused (play id ∷ rest) = refused rest

-- The effect that a device remembers, if any.
abbrev pub held : Device → List ℤ
held d = if ltb_ℤ d.haptic_effect_id (pos 0) then [] else d.haptic_effect_id ∷ []

-- What is stored is what the device remembers and what could not be taken out.
abbrev pub Remembers : Gamepad → Type 0
Remembers g = live g.1 ≡ held g.0 ++ refused g.1

abbrev pub AllRemember : List Gamepad → Type 0
AllRemember [] = Unit {0}
AllRemember (g ∷ rest) = Remembers g × AllRemember rest

-- Nothing is remembered.
abbrev Silent : Gamepad → Type 0
Silent g = (live g.1 ≡ refused g.1) × (ltb_ℤ g.0.haptic_effect_id (pos 0) ≡ true)

without_first : (id : ℤ) (rest : List ℤ) → without id (id ∷ rest) ≡ rest
without_first id rest = let same : eqb_ℤ id id ≡ true = ground arith in rw same refl

erased :
    (id : ℤ) (calls : List Call) (done : Bool)
    → live calls ≡ id ∷ refused calls
    → live (erase id done ∷ calls) ≡ refused (erase id done ∷ calls)
erased id calls true h = rw h (without_first id (refused calls))
erased id calls false h = h

module _ (kernel : Kernel) where
  silenced :
      (d : Device) (calls : List Call) (idle : Bool)
      → ltb_ℤ d.haptic_effect_id (pos 0) ≡ idle
      → live calls ≡ (if idle then [] else d.haptic_effect_id ∷ []) ++ refused calls
      → Silent (
          if idle then (d, calls) else (
            record d { haptic_effect_id = negsuc 0 },
            erase d.haptic_effect_id (kernel.remove calls) ∷ calls,
          ))
  silenced d calls true quiet h = (h, quiet)
  silenced d calls false loud h = (erased d.haptic_effect_id calls (kernel.remove calls) h, refl)

  stop_effect-Silent : (g : Gamepad) → Remembers g → Silent (stop_effect kernel g)
  unfolding stop_effect
  stop_effect-Silent (d, calls) h = silenced d calls _ refl h

  Silent-Remembers : (g : Gamepad) → Silent g → Remembers g
  Silent-Remembers g (none_live, quiet) = rw (none_live, quiet) refl

  start_effect-Remembers :
      (low high : ℕ) (g : Gamepad) → Silent g → Remembers (start_effect kernel low high g)
  unfolding start_effect
  start_effect-Remembers low high (d, calls) s = elim (Option-cases (kernel.upload calls)) [
    | inl failed ↦ rw (failed, start_effect) (Silent-Remembers (d, calls) s)
    | inr (id, given) ↦
        let remembered : ltb (id + 0) 0 ≡ false = ground arith in
        rw (given, s.0, start_effect, remembered) refl
  ]

  rumble_on-Remembers :
      (low high : ℕ) (g : Gamepad) → Remembers g → Remembers (rumble_on kernel low high g)
  unfolding rumble_on
  rumble_on-Remembers low high g h =
      let quiet = stop_effect-Silent g h in
      elim (Bool-cases (low == 0 && high == 0)) [
        | inl off ↦ rw off (Silent-Remembers (stop_effect kernel g) quiet)
        | inr on ↦ rw on (start_effect-Remembers low high (stop_effect kernel g) quiet)
      ]

  -- Where the kernel has stored for every device just the effect that the device remembers, if any,
  -- and those that it refused to take out, it is so after a request to rumble, whatever the kernel
  -- answers.
  pub rumble-AllRemember :
      (controller_id low high : ℕ) (table : List Gamepad)
      → AllRemember table
      → AllRemember (evdev_rumble kernel controller_id low high table)
  unfolding evdev_rumble
  rumble-AllRemember controller_id low high [] all = _
  rumble-AllRemember controller_id low high (g ∷ rest) (h, all) =
      elim (Bool-cases (eqb_ℤ g.0.controller_id (pos controller_id))) [
        | inl this ↦ rw this (rumble_on-Remembers low high g h, all)
        | inr other ↦ rw other (h, rumble-AllRemember controller_id low high rest all)
      ]
