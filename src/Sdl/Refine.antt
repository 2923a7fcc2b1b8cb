-- ===== src/Sdl/Refine.antt =====
-- The table of game controllers in src/input/sdl.c as a set of instances: the arrival of a controller
-- adds its instance, its removal takes it out, and no other event changes the set.
use moonlight_allwinner_h.Prelude.{
  ℕ, ◌≡◌, refl, ◌∙◌, inl, inr, Bool, true, false, Bool-cases, Option-cases, List, none, some, arith,
  ◌==◌, ◌&&◌, ◌||◌, not, if◌then◌else◌, get_elem?,
}
use moonlight_allwinner_h.Prelude.Int.{ℤ, pos, eqb_ℤ, eq_of_parts}
use moonlight_allwinner_h.Evdev.Host.{Limelight}
use moonlight_allwinner_h.Sdl.Host.{Scancodes, Numbers, Calls, Floats}
use moonlight_allwinner_h.Sdl.Pads.{
  Gamepad, Pads, empty_gamepad, find_id, find_free, update, occupy, new_gamepad, remove_gamepad,
  send_controller_arrival, connect, add_gamepad,
}
use moonlight_allwinner_h.Sdl.Event.{Event, device_added, device_removed, sdlinput_handle_event}
use moonlight_allwinner_h.Sdl.Slots.{is_known, find_id-some, find_free-some}
use moonlight_allwinner_h.Sdl.Table.{OneEach-IsFresh}
use moonlight_allwinner_h.Sdl.Sound.{IsSound, Keeps}
use moonlight_allwinner_h.Sdl.Cases.{event_kept}
use moonlight_allwinner_h.Sdl.Known.{known-write, known-take, known-free}

eq_of_eqb : (a b : ℤ) → eqb_ℤ a b ≡ true → a ≡ b
eq_of_eqb a b h = eq_of_parts a b (ground arith)

or_same : (k e : Bool) → (e ≡ true → k ≡ true) → k ≡ (k || e)
or_same k true h = rw (h refl) refl
or_same k false h = ground arith

and_same : (k e : Bool) → (e ≡ true → k ≡ false) → k ≡ (k && not e)
and_same k true h = rw (h refl) refl
and_same k false h = ground arith

known_some : (id : ℤ) (gs : List Gamepad) {i : ℕ} → find_id id gs ≡ some i → is_known id gs ≡ true
unfolding is_known
known_some id gs h = rw (h, is_known) refl

known_none : (id : ℤ) (gs : List Gamepad) → find_id id gs ≡ none → is_known id gs ≡ false
unfolding is_known
known_none id gs h = rw (h, is_known) refl

module _ {F : Type 0} where
  known-update :
      (id : ℤ) (f : Gamepad → Gamepad) (i : ℕ) (s : Pads F)
      → Keeps f
      → is_known id (update f i s).gamepads ≡ is_known id s.gamepads
  unfolding update
  known-update id f i s keeps = elim (Option-cases (get_elem? s.gamepads i)) [
    | inl gone ↦ rw (gone, update) refl
    | inr (g, here) ↦
        let (u, q, d) = keeps g in rw (here, update) (known-write id s.gamepads i (f g) here u q)
  ]

  known-occupy :
      (id sdl_id : ℤ) (i : ℕ) (s : Pads F)
      → find_free s.gamepads ≡ some i
      → is_known id (occupy sdl_id i s).gamepads ≡ (is_known id s.gamepads || eqb_ℤ sdl_id id)
  unfolding occupy update
  known-occupy id sdl_id i s free =
      let (g, here, idle) = find_free-some s.gamepads free in
      let new = record g { sdl_id = sdl_id; id = pos i; initialized = true } in
      rw (here, occupy, update) (known-take id s.gamepads i new here idle refl)

  known-remove :
      (id which : ℤ) (s : Pads F)
      → IsSound s
      → is_known id (remove_gamepad which s).gamepads
        ≡ (is_known id s.gamepads && not (eqb_ℤ which id))
  unfolding remove_gamepad empty_gamepad
  known-remove id which s t = elim (Option-cases (find_id which s.gamepads)) [
    | inl gone ↦
        rw (gone, remove_gamepad)
          (and_same (is_known id s.gamepads) (eqb_ℤ which id)
            (λ same. rw (← eq_of_eqb which id same) (known_none which s.gamepads gone)))
    | inr (i, found) ↦
        let (g, here, busy, same) = find_id-some which s.gamepads found in
        let e : g.sdl_id ≡ which = eq_of_eqb g.sdl_id which same in
        rw (found, here, remove_gamepad, ← e)
          (known-free id s.gamepads i empty_gamepad here busy refl
            (OneEach-IsFresh s.gamepads i t.one_each here busy))
  ]

module _ {F : Type 0} (li : Limelight) (num : Numbers) (sdl : Calls) where
  arrival-gamepads :
      (i : ℕ) (s : Pads F) → (send_controller_arrival li num sdl i s).gamepads ≡ s.gamepads
  unfolding send_controller_arrival
  arrival-gamepads i s = ground arith

  known_opened :
      (id index : ℤ) (s : Pads F)
      → (j : ℕ) × (find_free s.gamepads ≡ some j)
      → (sdl.open_controller index == 0) ≡ false
      → is_known id (add_gamepad li num sdl index s).gamepads
        ≡ (is_known id s.gamepads || eqb_ℤ (sdl.instance_id (sdl.open_controller index)) id)
  unfolding add_gamepad new_gamepad connect
  known_opened id index s (j, free) opened =
      let jid = sdl.instance_id (sdl.open_controller index) in
      elim (Option-cases (find_id jid s.gamepads)) [
        | inr (i, found) ↦
            rw (opened, found, add_gamepad, arrival-gamepads i s)
              (or_same (is_known id s.gamepads) (eqb_ℤ jid id)
                (λ same. rw (← eq_of_eqb jid id same) (known_some jid s.gamepads found)))
        | inl absent ↦
            let f : Gamepad → Gamepad = λ g. record g { controller = sdl.open_controller index } in
            let taken = occupy jid j s in
            rw
              (
                opened,
                absent,
                add_gamepad,
                free,
                new_gamepad,
                connect,
                arrival-gamepads j (update f j taken),
              )
              (known-update id f j taken (λ g. (refl, refl, refl)) ∙ known-occupy id jid j s free)
      ]

  known-add :
      (id index : ℤ) (s : Pads F)
      → (j : ℕ) × (find_free s.gamepads ≡ some j)
      → is_known id (add_gamepad li num sdl index s).gamepads ≡ (
          if sdl.open_controller index == 0
          then is_known id s.gamepads
          else is_known id s.gamepads || eqb_ℤ (sdl.instance_id (sdl.open_controller index)) id)
  unfolding add_gamepad
  known-add id index s free = elim (Bool-cases (sdl.open_controller index == 0)) [
    | inl failed ↦ rw (failed, add_gamepad) refl
    | inr opened ↦ rw opened (rw opened at (known_opened id index s free opened))
  ]

module _ {F : Type 0} (li : Limelight) (sc : Scancodes) (num : Numbers) (sdl : Calls)
    (fl : Floats F) where
  -- What an event does to a set of instances.
  abbrev pub known_after : Event F → (ℤ → Bool) → ℤ → Bool
  known_after (device_added index) known id =
      let c = sdl.open_controller index in
      if c == 0 then known id else known id || eqb_ℤ (sdl.instance_id c) id
  known_after (device_removed which) known id = known id && not (eqb_ℤ which id)
  known_after other known id = known id

  -- On a well-formed table with a free slot, an event does to the set of the known instances what it
  -- should: the arrival of a controller that can be opened adds its instance, a removal takes out the
  -- instance that it names, and every other event leaves the set alone.
  pub event-refines :
      (e : Event F) (s : Pads F) (id : ℤ)
      → IsSound s
      → (j : ℕ) × (find_free s.gamepads ≡ some j)
      → is_known id (sdlinput_handle_event li sc num sdl fl e s).1.gamepads
        ≡ known_after e (λ id. is_known id s.gamepads) id
  unfolding sdlinput_handle_event
  event-refines (device_added index) s id t free = known-add li num sdl id index s free
  event-refines (device_removed which) s id t free = known-remove id which s t
  event-refines other s id t free =
      event_kept li sc num sdl fl (λ u. is_known id u.gamepads ≡ is_known id s.gamepads)
        (λ m u p. p) (λ f i u keeps p. known-update id f i u keeps ∙ p) other s (λ d. cc) refl
