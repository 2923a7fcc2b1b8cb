-- ===== src/Sdl/Quit.antt =====
-- When sdlinput_handle_event of src/input/sdl.c asks to end the session.
use moonlight_allwinner_h.Prelude.{
  ℕ, ◌≡◌, ◌≢◌, ◌==◌, if◌then◌else◌, refl, inl, inr, Bool, true, false, Bool-cases, Option-cases,
  some, arith, get_elem?,
}
use moonlight_allwinner_h.Prelude.Bits.{has_all, has_all-bit_or, bit_and, bit_or}
use moonlight_allwinner_h.Prelude.Int.{ℤ}
use moonlight_allwinner_h.Evdev.Host.{Limelight}
use moonlight_allwinner_h.Sdl.Host.{Scancodes, Numbers, Calls, Floats}
use moonlight_allwinner_h.Sdl.Pads.{Gamepad, Pads, find_id, update, sdl_to_li_button_map}
use moonlight_allwinner_h.Sdl.Event.{
  Event, mouse_motion, mouse_wheel, button_event, key_event, finger_event, axis_motion,
  controller_button, device_added, device_removed, sensor_update, touchpad_event, other_event,
  li_modifiers, key_action, press, wants_quit, axis_case, button_case, report,
  sdlinput_handle_event, action_modifiers, quit_buttons, sdl_quit_application,
}

-- A modifier that is added where it is not idle.
abbrev with_held : Bool → ℕ → ℕ → ℕ
with_held idle flag m = if idle then m else bit_or m flag

all_held :
    (gui shift alt ctrl : Bool)
    → has_all
        (with_held gui 8 (with_held shift 1 (with_held alt 4 (with_held ctrl 2 0))))
        (bit_or (bit_or 1 4) 2)
      ≡ true
    → (shift ≡ false) × (alt ≡ false) × (ctrl ≡ false)
unfolding has_all
all_held true true true true h = cc
all_held true true true false h = cc
all_held true true false true h = cc
all_held true true false false h = cc
all_held true false true true h = cc
all_held true false true false h = cc
all_held true false false true h = cc
all_held true false false false h = (refl, refl, refl)
all_held false true true true h = cc
all_held false true true false h = cc
all_held false true false true h = cc
all_held false true false false h = cc
all_held false false true true h = cc
all_held false false true false h = cc
all_held false false false true h = cc
all_held false false false false h = (refl, refl, refl)

module _ {F : Type 0} (li : Limelight) (sc : Scancodes) (num : Numbers) (sdl : Calls)
    (fl : Floats F) where
  -- The four quit buttons are held.
  abbrev pub HoldsFour : ℕ → Type 0
  HoldsFour buttons =
      (has_all buttons li.play_flag ≡ true)
      × (has_all buttons li.back_flag ≡ true)
      × (has_all buttons li.lb_flag ≡ true)
      × (has_all buttons li.rb_flag ≡ true)

  -- The two reasons to end a session: Q is released while SDL reports Shift, Alt and Ctrl, or the
  -- controller of a button event holds the four quit buttons after it.
  abbrev pub Quits : Event F → Pads F → Pads F → Type 0
  Quits (key_event pressed scancode held sym) s after =
      (pressed ≡ false)
      × (sym ≡ num.sdlk_q)
      × (bit_and held num.kmod_shift ≢ 0)
      × (bit_and held num.kmod_alt ≢ 0)
      × (bit_and held num.kmod_ctrl ≢ 0)
  Quits (controller_button pressed which button) s after =
      (i : ℕ) × (g : Gamepad) × (find_id which s.gamepads ≡ some i)
      × (get_elem? after.gamepads i ≡ some g)
      × HoldsFour g.buttons
  Quits other s after = ⊥

  -- MODIFIER_SHIFT, MODIFIER_CTRL, MODIFIER_ALT and MODIFIER_META as <Limelight.h> has them.
  abbrev pub ModifierBits : Type 0
  ModifierBits =
      (li.modifier_shift ≡ 1)
      × (li.modifier_ctrl ≡ 2)
      × (li.modifier_alt ≡ 4)
      × (li.modifier_meta ≡ 8)

  axis_answer :
      (which : ℤ) (axis : ℕ) (v : ℤ) (s : Pads F)
      → (axis_case li sc num sdl fl which axis v s).0 ≡ 0
  unfolding axis_case
  axis_answer which axis v s = ground arith

  report_answer :
      (which : ℤ) (act : ℤ → Pads F → Pads F) (s : Pads F)
      → (report li sc num sdl fl which act s).0 ≡ 0
  unfolding report
  report_answer which act s = ground arith

  holds_four :
      (i : ℕ) (s : Pads F)
      → wants_quit li sc num sdl fl i s ≡ true
      → (g : Gamepad) × (get_elem? s.gamepads i ≡ some g) × HoldsFour g.buttons
  unfolding wants_quit
  holds_four i s h = elim (Option-cases (get_elem? s.gamepads i)) [
    | inl gone ↦ let answer : false ≡ true = rw (gone, wants_quit) at h in absurd cc
    | inr (g, at) ↦
        let all : has_all g.buttons (quit_buttons li) ≡ true = rw (at, wants_quit) at h in
        let (three, rb) = has_all-bit_or g.buttons _ li.rb_flag all in
        let (two, lb) = has_all-bit_or g.buttons _ li.lb_flag three in
        let (play, back) = has_all-bit_or g.buttons li.play_flag li.back_flag two in
        (g, at, (play, back, lb, rb))
  ]

  button_answer :
      (pressed : Bool) (which : ℤ) (button : ℕ) (s : Pads F)
      → (button_case li sc num sdl fl pressed which button s).0 ≡ 1
      → Quits
          (controller_button pressed which button)
          s
          (button_case li sc num sdl fl pressed which button s).1
  unfolding button_case
  button_answer pressed which button s h = elim (Option-cases (find_id which s.gamepads)) [
    | inl gone ↦ let answer : 0 ≡ 1 = rw (gone, button_case) at h in absurd (omega (arith, answer))
    | inr (i, found) ↦ elim (Option-cases (get_elem? (sdl_to_li_button_map li num sdl) button)) [
      | inl unknown ↦
          let answer : 0 ≡ 1 = rw (found, unknown, button_case) at h in
          absurd (omega (arith, answer))
      | inr (flag, known) ↦
          let after = update (press li num sdl pressed flag) i s in
          elim (Bool-cases (wants_quit li sc num sdl fl i after)) [
            | inl quit ↦
                let (g, at, four) = holds_four i after quit in
                (i, g, found, rw (found, known, quit, button_case) at, four)
            | inr on ↦
                let answer : 0 ≡ 1 = rw (found, known, on, button_case) at h in
                absurd (omega (arith, answer))
          ]
    ]
  ]

  -- The modifiers from what SDL reports of the four pairs of keys.
  combo_held :
      (held : ℕ)
      → ModifierBits
      → has_all (li_modifiers li num sdl held) (action_modifiers li) ≡ true
      → (bit_and held num.kmod_shift ≢ 0)
        × (bit_and held num.kmod_alt ≢ 0)
        × (bit_and held num.kmod_ctrl ≢ 0)
  unfolding li_modifiers has_all
  combo_held held (shift, ctrl, alt, meta) h =
      let (s, a, c) =
        all_held (bit_and held num.kmod_gui == 0) (bit_and held num.kmod_shift == 0)
          (bit_and held num.kmod_alt == 0) (bit_and held num.kmod_ctrl == 0)
          (rw (shift, ctrl, alt, meta) at h) in
      (λ e. ground arith, λ e. ground arith, λ e. ground arith)

  key_answer :
      (pressed : Bool) (scancode held sym : ℕ) (s after : Pads F)
      → ModifierBits
      → key_action li num sdl pressed sym (li_modifiers li num sdl held) ≡ 1
      → Quits (key_event pressed scancode held sym) s after
  unfolding key_action
  key_answer pressed scancode held sym s after bits h =
      let combo : has_all (li_modifiers li num sdl held) (action_modifiers li) ≡ true =
        ground arith in
      let released : pressed ≡ false = ground arith in
      let q : sym ≡ num.sdlk_q = ground arith in
      let (shift, alt, ctrl) = combo_held held bits combo in (released, q, shift, alt, ctrl)

  -- Where the handler answers SDL_QUIT_APPLICATION, and Limelight's modifiers have their values, the
  -- event is the release of Q while SDL reports Shift, Alt and Ctrl as held, or a button event of a
  -- controller of the table that holds all four quit buttons after it.
  pub quit-Quits :
      (e : Event F) (s : Pads F)
      → ModifierBits
      → (sdlinput_handle_event li sc num sdl fl e s).0 ≡ sdl_quit_application
      → Quits e s (sdlinput_handle_event li sc num sdl fl e s).1
  unfolding sdlinput_handle_event
  quit-Quits (mouse_motion dx dy x y) s bits h = absurd (omega arith)
  quit-Quits (mouse_wheel x y) s bits h = absurd (omega arith)
  quit-Quits (button_event pressed b) s bits h = absurd (omega arith)
  quit-Quits (key_event pressed scancode held sym) s bits h =
      key_answer pressed scancode held sym s s bits h
  quit-Quits (finger_event phase id x y p) s bits h = absurd (omega arith)
  quit-Quits (axis_motion which axis v) s bits h =
      absurd (omega (arith, axis_answer which axis v s))
  quit-Quits (controller_button pressed which button) s bits h =
      button_answer pressed which button s h
  quit-Quits (device_added index) s bits h = absurd (omega arith)
  quit-Quits (device_removed which) s bits h = absurd (omega arith)
  quit-Quits (sensor_update which sensor x y z) s bits h =
      absurd (omega (arith, h, report_answer which _ s))
  quit-Quits (touchpad_event phase which finger x y p) s bits h =
      absurd (omega (arith, h, report_answer which _ s))
  quit-Quits other_event s bits h = absurd (omega arith)
