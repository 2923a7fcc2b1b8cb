-- ===== src/Evdev/Quit/Waiting.antt =====
-- Which handlers of src/input/evdev.c leave `waitingToExitOnModifiersUp` alone.
use moonlight_allwinner_h.Prelude.{
  ℕ, ◌≡◌, refl, ◌∙◌, inl, inr, Bool, true, false, not, Option, none, some, arith, Option-cases,
  ◌==◌, if◌then◌else◌,
}
use moonlight_allwinner_h.Prelude.Int.{ℤ}
use moonlight_allwinner_h.Evdev.Host.{Linux, Limelight}
use moonlight_allwinner_h.Evdev.Device.{Mapping, InputEvent}
use moonlight_allwinner_h.Evdev.Output.{Input}
use moonlight_allwinner_h.Evdev.Keys.{
  Flow, return, fall, handle_touch, toggle_emulation, emulate_button, handle_gamepad_button,
  handle_trigger_button, handle_button, is_pointer_code, gamepad_code, mouse_code,
}
use moonlight_allwinner_h.Evdev.Abs.{handle_abs, handle_mapped, handle_hat}
use moonlight_allwinner_h.Evdev.Safety.Frame.{if_same}
use moonlight_allwinner_h.Evdev.Event.{
  handle_syn, handle_rel, send_gamepad, send_h_scroll, send_v_scroll, send_motion, arrive,
  assign_controller, send_controller_arrival,
}

-- A case goes on, and waits as before.
abbrev pub Waits : Bool → Flow → Type 0
Waits b (return true w) = w.waiting ≡ b
Waits b (return false w) = ⊥
Waits b (fall m w) = w.waiting ≡ b

abbrev pub MaybeWaits : Bool → Option Flow → Type 0
MaybeWaits b none = Unit {0}
MaybeWaits b (some f) = Waits b f

if_Waits : (w b : Bool) (x y : Flow) → Waits w x → Waits w y → Waits w (if b then x else y)
if_Waits w true x y p q = p
if_Waits w false x y p q = q

module _ (os : Linux) (li : Limelight) where
  touch_waits : (e : InputEvent) (w : Input) → (handle_touch os li e w).waiting ≡ w.waiting
  unfolding handle_touch
  touch_waits e w = ground arith

  gamepad_waits :
      (flag : ℕ) (e : InputEvent) (w : Input)
      → (handle_gamepad_button os li flag e w).waiting ≡ w.waiting
  unfolding handle_gamepad_button toggle_emulation emulate_button
  gamepad_waits flag e w = ground arith

  trigger-Waits :
      (index : ℤ) (e : InputEvent) (m : Bool) (w : Input)
      → Waits w.waiting (handle_trigger_button os li index e m w)
  unfolding handle_trigger_button
  trigger-Waits index e m w = ground arith

  pub button-Waits :
      (e : InputEvent) (index : ℤ) (w : Input) → Waits w.waiting (handle_button os li e index w)
  unfolding handle_button
  button-Waits e index w =
      let touched : Input = if e.code == os.btn_touch then handle_touch os li e w else w in
      let same : touched.waiting ≡ w.waiting =
        if_same (λ (v : Input). v.waiting) (e.code == os.btn_touch) (handle_touch os li e w) w
          (touch_waits e w) refl in
      let pointer = is_pointer_code os li e.code in
      let flag : ℕ = if pointer then 0 else gamepad_code os li w.dev.map index in
      if_Waits w.waiting (not (mouse_code os li e.code == 0)) _ _ same (
        if_Waits w.waiting (not (flag == 0)) _ _ (gamepad_waits flag e touched ∙ same)
          (rw same at (trigger-Waits index e (not pointer) touched)))

  mapped_waits :
      (m : Mapping) (e : InputEvent) (w : Input) → MaybeWaits w.waiting (handle_mapped os li m e w)
  unfolding handle_mapped handle_hat
  mapped_waits m e w = ground arith

  pub abs_waits : (e : InputEvent) (w : Input) → MaybeWaits w.waiting (handle_abs os li e w)
  unfolding handle_abs
  abs_waits e w = elim (Option-cases w.dev.map) [
    | inl unmapped ↦ ground arith
    | inr (m, mapped) ↦ ground (arith, mapped_waits m e w)
  ]

  pub rel_waits : (e : InputEvent) (w : Input) → (handle_rel os li e w).waiting ≡ w.waiting
  unfolding handle_rel
  rel_waits e w = ground arith

module _ (li : Limelight) where
  before_waits : (w : Input) → (send_h_scroll (send_v_scroll (send_motion w))).waiting ≡ w.waiting
  unfolding send_h_scroll send_v_scroll send_motion
  before_waits w = ground arith

  gamepad_sent_waits : (w v : Input) → send_gamepad li w ≡ some v → v.waiting ≡ w.waiting
  unfolding send_gamepad arrive assign_controller send_controller_arrival
  gamepad_sent_waits w v h = ground arith

  pub syn_waits : (w : Input) → MaybeWaits w.waiting (handle_syn li w)
  unfolding handle_syn
  syn_waits w =
      let before = send_h_scroll (send_v_scroll (send_motion w)) in
      elim (Option-cases (send_gamepad li before)) [
        | inl fault ↦ rw fault tt
        | inr (v, sent) ↦ rw sent (gamepad_sent_waits before v sent ∙ before_waits w)
      ]
