-- ===== src/Sdl/Cases.antt =====
-- What the events of src/input/sdl.c other than the arrival and the removal of a controller do to
-- the state: they send, and change the sticks, triggers and buttons of gamepads.
use moonlight_allwinner_h.Prelude.{
  ℕ, ◌≡◌, refl, inl, inr, Bool, true, false, Bool-cases, Option-cases, Option, none, some, ◌==◌,
  if◌then◌else◌, get_elem?,
}
use moonlight_allwinner_h.Prelude.Int.{ℤ}
use moonlight_allwinner_h.Evdev.Host.{Limelight}
use moonlight_allwinner_h.Sdl.Host.{Scancodes, Numbers, Calls, Floats}
use moonlight_allwinner_h.Sdl.Pads.{
  Gamepad, Pads, send, find_id, update, Message, sdl_to_li_button_map,
}
use moonlight_allwinner_h.Sdl.Event.{
  Event, mouse_motion, mouse_wheel, button_event, key_event, finger_event, axis_motion,
  controller_button, device_added, device_removed, sensor_update, touchpad_event, other_event,
  li_button, move_axis, press, wants_quit, send_state, axis_case, button_case, report,
  sdlinput_handle_event,
}
use moonlight_allwinner_h.Sdl.Sound.{Keeps}

module _ (li : Limelight) (num : Numbers) (sdl : Calls) where
  pub press-Keeps : (pressed : Bool) (flag : ℕ) → Keeps (press li num sdl pressed flag)
  unfolding press
  press-Keeps true flag g = (refl, refl, refl)
  press-Keeps false flag g = (refl, refl, refl)

  abbrev KeepsAny : Option (Gamepad → Gamepad) → Type 0
  KeepsAny none = Unit {0}
  KeepsAny (some f) = Keeps f

  if-KeepsAny :
      (b : Bool) (x y : Option (Gamepad → Gamepad))
      → KeepsAny x
      → KeepsAny y
      → KeepsAny (if b then x else y)
  if-KeepsAny true x y p q = p
  if-KeepsAny false x y p q = q

  move_axis-KeepsAny : (axis : ℕ) (v : ℤ) → KeepsAny (move_axis li num sdl axis v)
  unfolding move_axis
  move_axis-KeepsAny axis v =
      if-KeepsAny (axis == num.axis_leftx) _ _ (λ g. (refl, refl, refl))
        (if-KeepsAny (axis == num.axis_lefty) _ _ (λ g. (refl, refl, refl))
          (if-KeepsAny (axis == num.axis_rightx) _ _ (λ g. (refl, refl, refl))
            (if-KeepsAny (axis == num.axis_righty) _ _ (λ g. (refl, refl, refl))
              (if-KeepsAny (axis == num.axis_triggerleft) _ _ (λ g. (refl, refl, refl))
                (if-KeepsAny (axis == num.axis_triggerright) _ none (λ g. (refl, refl, refl)) _)))))

  pub move_axis-Keeps :
      (axis : ℕ) (v : ℤ) {f : Gamepad → Gamepad} → move_axis li num sdl axis v ≡ some f → Keeps f
  move_axis-Keeps axis v h = rw h at (move_axis-KeepsAny axis v)

-- The arrival and the removal of a controller.
abbrev pub is_device : {F : Type 0} → Event F → Bool
is_device (device_added index) = true
is_device (device_removed which) = true
is_device other = false

module _ {F : Type 0} (li : Limelight) (sc : Scancodes) (num : Numbers) (sdl : Calls)
    (fl : Floats F) (P : Pads F → Type 0)
    (sends : (m : Message F) (s : Pads F) → P s → P (send m s))
    (updates : (f : Gamepad → Gamepad) (i : ℕ) (s : Pads F)
      → Keeps f
      → P s
      → P (update f i s)) where
  if_both : (b : Bool) (x y : Pads F) → P x → P y → P (if b then x else y)
  if_both true x y p q = p
  if_both false x y p q = q

  state_kept : (i : ℕ) (s : Pads F) → P s → P (send_state li sc num sdl fl i s)
  unfolding send_state
  state_kept i s t = elim (Option-cases (get_elem? s.gamepads i)) [
    | inl gone ↦ rw (gone, send_state) t
    | inr (g, here) ↦ rw (here, send_state) (sends _ s t)
  ]

  axis_kept :
      (which : ℤ) (axis : ℕ) (v : ℤ) (s : Pads F)
      → P s
      → P (axis_case li sc num sdl fl which axis v s).1
  unfolding axis_case
  axis_kept which axis v s t = elim (Option-cases (find_id which s.gamepads)) [
    | inl gone ↦ rw (gone, axis_case) t
    | inr (i, found) ↦ elim (Option-cases (move_axis li num sdl axis v)) [
      | inl unknown ↦ rw (found, unknown, axis_case) t
      | inr (f, known) ↦
          rw (found, known, axis_case)
            (state_kept i (update f i s)
              (updates f i s (move_axis-Keeps li num sdl axis v known) t))
    ]
  ]

  button_kept :
      (pressed : Bool) (which : ℤ) (button : ℕ) (s : Pads F)
      → P s
      → P (button_case li sc num sdl fl pressed which button s).1
  unfolding button_case
  button_kept pressed which button s t = elim (Option-cases (find_id which s.gamepads)) [
    | inl gone ↦ rw (gone, button_case) t
    | inr (i, found) ↦ elim (Option-cases (get_elem? (sdl_to_li_button_map li num sdl) button)) [
      | inl unknown ↦ rw (found, unknown, button_case) t
      | inr (flag, known) ↦
          let f = press li num sdl pressed flag in
          let kept = updates f i s (press-Keeps li num sdl pressed flag) t in
          elim (Bool-cases (wants_quit li sc num sdl fl i (update f i s))) [
            | inl quit ↦ rw (found, known, quit, button_case) kept
            | inr on ↦ rw (found, known, on, button_case) (state_kept i (update f i s) kept)
          ]
    ]
  ]

  report_kept :
      (which : ℤ) (act : ℤ → Pads F → Pads F) (s : Pads F)
      → ((id : ℤ) → P s → P (act id s))
      → P s
      → P (report li sc num sdl fl which act s).1
  unfolding report
  report_kept which act s keeps t = elim (Option-cases (find_id which s.gamepads)) [
    | inl gone ↦ rw (gone, report) t
    | inr (i, found) ↦ elim (Option-cases (get_elem? s.gamepads i)) [
      | inl missing ↦ rw (found, missing, report) t
      | inr (g, here) ↦ rw (found, here, report) (keeps g.id t)
    ]
  ]

  -- A property that no message and no change of a gamepad's sticks, triggers and buttons affects is
  -- kept by an event, given that the arrival and the removal of a controller keep it.
  pub event_kept :
      (e : Event F) (s : Pads F)
      → (is_device e ≡ true → P (sdlinput_handle_event li sc num sdl fl e s).1)
      → P s
      → P (sdlinput_handle_event li sc num sdl fl e s).1
  unfolding sdlinput_handle_event
  event_kept (mouse_motion dx dy x y) s d t = sends _ s t
  event_kept (mouse_wheel x y) s d t = sends _ _ (sends _ s t)
  event_kept (button_event pressed b) s d t =
      if_both (li_button li num sdl b == 0) s _ t (sends _ s t)
  event_kept (key_event pressed scancode held sym) s d t = sends _ s t
  event_kept (finger_event phase id x y p) s d t = sends _ s t
  event_kept (axis_motion which axis v) s d t = axis_kept which axis v s t
  event_kept (controller_button pressed which button) s d t = button_kept pressed which button s t
  event_kept (device_added index) s d t = d refl
  event_kept (device_removed which) s d t = d refl
  event_kept (sensor_update which sensor x y z) s d t =
      report_kept which _ s
        (λ id t.
          if_both (sensor == num.sensor_accel) _ _ (sends _ s t)
            (if_both (sensor == num.sensor_gyro) _ s (sends _ s t) t))
        t
  event_kept (touchpad_event phase which finger x y p) s d t =
      report_kept which _ s (λ id t. sends _ s t) t
  event_kept other_event s d t = t
