-- ===== src/Evdev/Quit.antt =====
-- When src/input/evdev.c ends the session.
pub mod Waiting
pub mod Session
use moonlight_allwinner_h.Prelude.{
  ℕ, ◌≡◌, ◌⊎◌, inl, inr, Bool, true, false, not, List, [], ◌∷◌, Option, none, some, arith,
  get_elem?, Option-cases, Bool-cases, >>=-eq-some, some-injective, ap, sym, ◌∙◌, refl, ltb, ◌==◌,
  ==_iff, ◌&&◌, if◌then◌else◌,
}
use moonlight_allwinner_h.Prelude.Bits.{has_all, has_all-bit_or, bit_or}
use moonlight_allwinner_h.Prelude.Int.{ℤ, pos, eqb_ℤ}
use moonlight_allwinner_h.Evdev.Host.{Linux, Limelight}
use moonlight_allwinner_h.Evdev.Device.{
  Mapping, InputEvent, EventType, ev_syn, ev_key, ev_rel, ev_abs, ev_other,
}
use moonlight_allwinner_h.Evdev.Output.{Input}
use moonlight_allwinner_h.Evdev.Keys.{
  Flow, return, key_codes, fall, handle_key, handle_keyboard, handle_button, action_modifiers,
  next_modifiers, is_down,
}
use moonlight_allwinner_h.Evdev.Event.{evdev_handle_event, dispatch, finish_event, quit_buttons}
use moonlight_allwinner_h.Evdev.Read.{Read, sync, success, other_status, read_events}
use moonlight_allwinner_h.Evdev.Quit.Waiting.{
  Waits, MaybeWaits, button-Waits, abs_waits, rel_waits, syn_waits,
}

-- The quit combination: an event that presses Q or repeats it, after which Shift, Alt and Ctrl are
-- among the modifiers of the device.
abbrev pub IsCombination : Linux → Limelight → EventType → InputEvent → Input → Type 0
IsCombination os li t e after =
    (t ≡ ev_key)
    × (e.code ≡ os.key_q)
    × (eqb_ℤ e.value (pos 0) ≡ false)
    × (has_all after.dev.modifiers li.modifier_shift ≡ true)
    × (has_all after.dev.modifiers li.modifier_alt ≡ true)
    × (has_all after.dev.modifiers li.modifier_ctrl ≡ true)

-- The four quit buttons are held.
abbrev pub HoldsFour : Limelight → Input → Type 0
HoldsFour li w =
    (has_all w.dev.button_flags li.play_flag ≡ true)
    × (has_all w.dev.button_flags li.back_flag ≡ true)
    × (has_all w.dev.button_flags li.lb_flag ≡ true)
    × (has_all w.dev.button_flags li.rb_flag ≡ true)

-- One of the events that are read is the quit combination.
abbrev pub Combined : Linux → Limelight → List Read → Input → Type 0
Combined os li [] w = ⊥
Combined os li (sync ∷ rest) w = Combined os li rest w
Combined os li (other_status ∷ rest) w = Combined os li rest w
Combined os li (success e ∷ rest) w =
    (r : Bool × Input) × (evdev_handle_event os li e w ≡ some r)
    × (IsCombination os li e.type e r.1 ⊎ Combined os li rest r.1)

module _ (os : Linux) (li : Limelight) (t : EventType) (e : InputEvent) where
  -- Whoever waits after the event has waited before, or the event is the combination.
  abbrev pub Because : Bool → Input → Type 0
  Because before v = v.waiting ≡ true → (before ≡ true) ⊎ IsCombination os li t e v

  -- A case gives a reason to wait, and ends only where it waits and no modifier is held.
  abbrev Reason : Bool → Flow → Type 0
  Reason b (return true v) = Because b v
  Reason b (return false v) = Because b v × (v.waiting ≡ true) × (v.dev.modifiers ≡ 0)
  Reason b (fall m v) = Because b v

  abbrev MaybeReason : Bool → Option Flow → Type 0
  MaybeReason b none = Unit {0}
  MaybeReason b (some f) = Reason b f

  Waits-Reason : (b : Bool) (f : Flow) → Waits b f → Reason b f
  Waits-Reason b (return true v) h = λ waiting. inl (sym h ∙ waiting)
  Waits-Reason b (return false v) h = absurd h
  Waits-Reason b (fall m v) h = λ waiting. inl (sym h ∙ waiting)

  MaybeWaits-Reason : (b : Bool) (o : Option Flow) → MaybeWaits b o → MaybeReason b o
  MaybeWaits-Reason b none h = tt
  MaybeWaits-Reason b (some f) h = Waits-Reason b f h

  if_Reason :
      (w b : Bool) (x y : Flow)
      → (b ≡ true → Reason w x)
      → Reason w y
      → Reason w (if b then x else y)
  if_Reason w true x y p q = p refl
  if_Reason w false x y p q = q

module _ (os : Linux) (li : Limelight) where
  keyboard-Reason :
      (e : InputEvent) (vk : ℕ) (w : Input)
      → Reason os li ev_key e w.waiting (handle_keyboard os li e vk w)
  unfolding handle_keyboard
  keyboard-Reason e vk w =
      let mods = next_modifiers os li w.dev.modifiers e in
      if_Reason os li ev_key e w.waiting
        (has_all mods (action_modifiers os li) && e.code == os.key_q && is_down e) _ _
        (λ h.
          let all : has_all mods (action_modifiers os li) ≡ true = ground arith in
          let (two, ctrl) = has_all-bit_or mods _ li.modifier_ctrl all in
          let (shift, alt) = has_all-bit_or mods li.modifier_shift li.modifier_alt two in
          let q : e.code ≡ os.key_q = ground arith in
          let down : eqb_ℤ e.value (pos 0) ≡ false = ground arith in
          λ waiting. inr (refl, q, down, shift, alt, ctrl))
        (if_Reason os li ev_key e w.waiting (w.waiting && mods == 0) _ _
          (λ h.
            let waits : w.waiting ≡ true = ground arith in
            let none_held : mods ≡ 0 = ground arith in (λ waiting. inl waiting, waits, none_held))
          (λ waiting. inl waiting))

  key-Reason :
      (e : InputEvent) (w : Input) → MaybeReason os li ev_key e w.waiting (handle_key os li e w)
  unfolding handle_key
  key-Reason e w = elim (Bool-cases (ltb os.key_max e.code)) [
    | inl high ↦ rw high (λ waiting. inl waiting)
    | inr low ↦ elim (Option-cases (get_elem? key_codes e.code)) [
      | inr (vk, known) ↦ rw (low, known) (keyboard-Reason e vk w)
      | inl unknown ↦ elim (Option-cases (get_elem? w.dev.key_map e.code)) [
        | inl past ↦ rw (low, unknown, past) tt
        | inr (index, mapped) ↦
            rw (low, unknown, mapped)
              (Waits-Reason os li ev_key e w.waiting _ (button-Waits os li e index w))
      ]
    ]
  ]

  dispatch-Reason :
      (t : EventType) (e : InputEvent) (w : Input)
      → MaybeReason os li t e w.waiting (dispatch os li t e w)
  unfolding dispatch
  dispatch-Reason ev_syn e w = MaybeWaits-Reason os li ev_syn e w.waiting _ (syn_waits li w)
  dispatch-Reason ev_key e w = key-Reason e w
  dispatch-Reason ev_abs e w = MaybeWaits-Reason os li ev_abs e w.waiting _ (abs_waits os li e w)
  dispatch-Reason ev_rel e w = λ waiting. inl (sym (rel_waits os li e w) ∙ waiting)
  dispatch-Reason ev_other e w = λ waiting. inl waiting

  -- Why an event ends the session.
  abbrev pub Ends : Input → Type 0
  Ends v = HoldsFour li v ⊎ ((v.waiting ≡ true) × (v.dev.modifiers ≡ 0))

  four_held : (v : Input) → has_all v.dev.button_flags (quit_buttons li) ≡ true → HoldsFour li v
  four_held v all =
      let (three, rb) = has_all-bit_or v.dev.button_flags _ li.rb_flag all in
      let (two, lb) = has_all-bit_or v.dev.button_flags _ li.lb_flag three in
      let (play, back) = has_all-bit_or v.dev.button_flags li.play_flag li.back_flag two in
      (play, back, lb, rb)

  finished :
      (t : EventType) (e : InputEvent) (b : Bool) (f : Flow)
      → Reason os li t e b f
      → Because os li t e b (finish_event li f).1
        × ((finish_event li f).0 ≡ false → Ends (finish_event li f).1)
  unfolding finish_event
  finished t e b (return true v) r = (r, λ h. absurd cc)
  finished t e b (return false v) r = (r.0, λ h. inr (r.1, r.2))
  finished t e b (fall m v) r =
      elim (Bool-cases (m && has_all v.dev.button_flags (quit_buttons li))) [
        | inl quit ↦
            let all : has_all v.dev.button_flags (quit_buttons li) ≡ true = ground arith in
            rw (quit, finish_event) (r, λ h. inl (four_held v all))
        | inr on ↦ rw (on, finish_event) (r, λ h. absurd cc)
      ]

  pub event_reason :
      (e : InputEvent) (w : Input) (r : Bool × Input)
      → evdev_handle_event os li e w ≡ some r
      → Because os li e.type e w.waiting r.1 × (r.0 ≡ false → Ends r.1)
  unfolding evdev_handle_event
  event_reason e w r h =
      let (f, flow, done) =
        >>=-eq-some (dispatch os li e.type e w) (λ f. some (finish_event li f)) h in
      let result : finish_event li f ≡ r = some-injective done in
      let why : Reason os li e.type e w.waiting f = rw flow at (dispatch-Reason e.type e w) in
      rw result at (finished e.type e w.waiting f why)
