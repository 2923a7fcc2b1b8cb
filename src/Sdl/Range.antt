-- ===== src/Sdl/Range.antt =====
-- The numbers that src/input/sdl.c computes stay in the ranges of their types.
use moonlight_allwinner_h.Prelude.{
  ℕ, ◌+◌, ◌≤◌, ◌<◌, ◌≡◌, ◌↔◌, refl, inl, inr, Bool, true, false, Bool-cases, both_of, List, [], ◌∷◌,
  none, some, arith, ltb, ltb→lt, leb, leb→le, ◌&&◌, if◌then◌else◌, get_elem?-some, get_elem?-past,
  length,
}
use moonlight_allwinner_h.Prelude.Int.{ℤ, pos, negsuc, ◌≤ℤ◌, neg_ℤ}
use moonlight_allwinner_h.Evdev.Host.{Limelight}
use moonlight_allwinner_h.Sdl.Host.{Scancodes, Numbers}
use moonlight_allwinner_h.Sdl.Pads.{Gamepad, Pads, rumble, rumble_triggers, set_led, send}
use moonlight_allwinner_h.Sdl.Vk.{vk_for_sdl_scancode, lookup_key, scancode_keys}
use moonlight_allwinner_h.Sdl.Event.{flip_axis, trigger_byte}
use moonlight_allwinner_h.Sdl.Request.{
  act_on, set_motion, sdlinput_rumble, sdlinput_rumble_triggers, sdlinput_set_motion_event_state,
  sdlinput_set_controller_led,
}

-- The stick's vertical axis is turned round without overflow: every short has a value from -32767 to
-- 32767, and a greater axis value never gives a greater stick value.
pub flip_axis_range :
    (v w : ℤ)
    → v ≤ℤ w
    → w ≤ℤ pos 32767
    → (negsuc 32766 ≤ℤ flip_axis v) × (flip_axis v ≤ℤ pos 32767) × (flip_axis w ≤ℤ flip_axis v)
unfolding flip_axis neg_ℤ
flip_axis_range v w le hi = ground arith

-- For axis values from 0 to 32767 the trigger is a byte: it never falls when the axis rises, and it
-- is 255 at full deflection only.
pub trigger_byte_range :
    (v w : ℕ)
    → v ≤ w
    → w ≤ 32767
    → (trigger_byte (pos v) ≤ trigger_byte (pos w))
      × (trigger_byte (pos w) ≤ 255)
      × ((trigger_byte (pos w) ≡ 255) ↔ (w ≡ 32767))
unfolding trigger_byte
trigger_byte_range v w le hi = ground arith

module _ (sc : Scancodes) where
  -- The ranges of scancodes are as long as their names say.
  abbrev pub IsOrdered : Type 0
  IsOrdered =
      (sc.scancode_9 ≤ sc.scancode_1 + 8)
      × (sc.scancode_z ≤ sc.scancode_a + 25)
      × (sc.scancode_f12 ≤ sc.scancode_f1 + 11)
      × (sc.scancode_f24 ≤ sc.scancode_f13 + 11)
      × (sc.scancode_kp_9 ≤ sc.scancode_kp_1 + 8)

  abbrev all_below : ℕ → List (ℕ × ℕ) → Bool
  all_below n [] = true
  all_below n ((c, vk) ∷ rest) = leb vk n && all_below n rest

  lookup_key_below :
      (n s : ℕ) (keys : List (ℕ × ℕ)) → all_below n keys ≡ true → lookup_key sc s keys ≤ n
  unfolding lookup_key
  lookup_key_below n s [] h = omega arith
  lookup_key_below n s ((c, vk) ∷ rest) h =
      let (here, more) = both_of (leb vk n) (all_below n rest) h in
      ground (arith, lookup_key_below n s rest more, leb→le vk n here)

  below_if : (b : Bool) (v k : ℕ) → (b ≡ true → v ≤ 226) → k ≤ 226 → (if b then v else k) ≤ 226
  below_if true v k p q = p refl
  below_if false v k p q = q

  -- Where SDL's ranges of scancodes are as long as their names say, every key code is at most 0xE2,
  -- so it fits the byte that the protocol has for it.
  pub vk_bound : IsOrdered → (s : ℕ) → vk_for_sdl_scancode sc s ≤ 226
  unfolding vk_for_sdl_scancode
  vk_bound (digits, letters, functions, more_functions, keypad) s =
      below_if (leb sc.scancode_1 s && leb s sc.scancode_9) _ _ (λ h. ground (arith, h))
        (below_if (leb sc.scancode_a s && leb s sc.scancode_z) _ _ (λ h. ground (arith, h))
          (below_if (leb sc.scancode_f1 s && leb s sc.scancode_f12) _ _ (λ h. ground (arith, h))
            (below_if (leb sc.scancode_f13 s && leb s sc.scancode_f24) _ _ (λ h. ground (arith, h))
              (below_if (leb sc.scancode_kp_1 s && leb s sc.scancode_kp_9) _ _
                (λ h. ground (arith, h)) (lookup_key_below 226 s (scancode_keys sc) refl)))))

module _ {F : Type 0} where
  act_returns :
      (act : Gamepad → Pads F → Pads F) (id : ℕ) (s : Pads F)
      → length s.gamepads ≡ 16
      → (id < 16) ↔ ((t : Pads F) × (act_on act id s ≡ some t))
  act_returns act id s full = (to, from)
    where
      to : id < 16 → (t : Pads F) × (act_on act id s ≡ some t)
      to lt =
          let (g, here) = get_elem?-some s.gamepads id (omega (arith, full)) in
          (if g.initialized then act g s else s, rw (here, act_on) refl)

      from : ((t : Pads F) × (act_on act id s ≡ some t)) → id < 16
      from (t, h) = elim (Bool-cases (ltb id 16)) [
        | inl lt ↦ ltb→lt id 16 lt
        | inr past ↦
            let gone = get_elem?-past s.gamepads id (ground (arith, full)) in
            let no : none ≡ some t = rw (gone, act_on) at h in cc
      ]

module _ {F : Type 0} (li : Limelight) (num : Numbers) where
  -- On a table of sixteen slots, a request to rumble returns for every controller number, and the
  -- requests for the triggers, the sensors and the light return exactly for the numbers below 16:
  -- for all others they read past the end of the table.
  pub request_returns :
      (id a b c : ℕ) (s : Pads F)
      → length s.gamepads ≡ 16
      → ((t : Pads F) × (sdlinput_rumble li num id a b s ≡ some t))
        × ((id < 16) ↔ ((t : Pads F) × (sdlinput_rumble_triggers li num id a b s ≡ some t)))
        × ((id < 16) ↔ ((t : Pads F) × (sdlinput_set_motion_event_state li num id a b s ≡ some t)))
        × ((id < 16) ↔ ((t : Pads F) × (sdlinput_set_controller_led li num id a b c s ≡ some t)))
  unfolding sdlinput_rumble sdlinput_rumble_triggers sdlinput_set_motion_event_state
      sdlinput_set_controller_led
  request_returns id a b c s full = (
    rumbles,
    act_returns (λ g. send (rumble_triggers g.controller a b 30000)) id s full,
    act_returns (set_motion li num a b) id s full,
    act_returns (λ g. send (set_led g.controller a b c)) id s full,
  )
    where
      rumbles : (t : Pads F) × (sdlinput_rumble li num id a b s ≡ some t)
      rumbles = elim (Bool-cases (leb 16 id)) [
        | inl past ↦ (s, rw past refl)
        | inr inside ↦
            let (t, h) =
              (act_returns (λ g. send (rumble g.controller a b 30000)) id s full).0
                (ground arith) in
            (t, rw inside h)
      ]
