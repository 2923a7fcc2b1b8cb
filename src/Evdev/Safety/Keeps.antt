-- ===== src/Evdev/Safety/Keeps.antt =====
-- The keyboards and the buttons of src/input/evdev.c leave a sound device sound.
use moonlight_allwinner_h.Prelude.{
  ℕ, ◌≡◌, refl, sym, ap, ◌∙◌, inl, inr, Bool, true, false, not, Option, none, some, arith,
  Option-cases, ◌==◌, ◌&&◌, if◌then◌else◌,
}
use moonlight_allwinner_h.Prelude.Bits.{has_all}
use moonlight_allwinner_h.Prelude.Int.{ℤ, eqb_ℤ}
use moonlight_allwinner_h.Evdev.Host.{Linux, Limelight}
use moonlight_allwinner_h.Evdev.Device.{Mapping, InputEvent}
use moonlight_allwinner_h.Evdev.Output.{Input}
use moonlight_allwinner_h.Evdev.Keys.{
  Flow, return, fall, handle_keyboard, handle_button, handle_touch, handle_gamepad_button,
  handle_trigger_button, next_modifiers, action_modifiers, gamepad_code, is_pointer_code,
  mouse_code, is_down,
}
use moonlight_allwinner_h.Evdev.Safety.Handler.{IsSound}
use moonlight_allwinner_h.Evdev.Safety.Frame.{
  frame-IsSound, if_same, kept, touch_kept, gamepad_kept,
}

-- A case leaves a sound device, and marks a gamepad only if it has a mapping.
abbrev pub Next : Linux → Flow → Type 0
Next os (return go w) = IsSound os w.dev
Next os (fall m w) = IsSound os w.dev × (w.dev.map ≡ none → m ≡ false)

abbrev pub MaybeNext : Linux → Option Flow → Type 0
MaybeNext os none = Unit {0}
MaybeNext os (some f) = Next os f

if_Next :
    (os : Linux) (b : Bool) (x y : Flow)
    → (b ≡ true → Next os x)
    → Next os y
    → Next os (if b then x else y)
if_Next os true x y p q = p refl
if_Next os false x y p q = q

pub if_MaybeNext :
    (os : Linux) (b : Bool) (x y : Option Flow)
    → (b ≡ true → MaybeNext os x)
    → (b ≡ false → MaybeNext os y)
    → MaybeNext os (if b then x else y)
if_MaybeNext os true x y p q = p refl
if_MaybeNext os false x y p q = q refl

module _ (os : Linux) (li : Limelight) where
  pub keyboard-Next :
      (e : InputEvent) (vk : ℕ) (w : Input)
      → IsSound os w.dev
      → Next os (handle_keyboard os li e vk w)
  unfolding handle_keyboard
  keyboard-Next e vk w s =
      let mods = next_modifiers os li w.dev.modifiers e in
      let t : IsSound os (record (w.dev) { modifiers = mods }) =
        frame-IsSound os w.dev (record (w.dev) { modifiers = mods }) refl s in
      if_Next os (has_all mods (action_modifiers os li) && e.code == os.key_q && is_down e) _ _
        (λ h. t) (if_Next os (w.waiting && mods == 0) _ _ (λ h. t) (t, λ n. refl))

  trigger-Next :
      (index : ℤ) (e : InputEvent) (m : Bool) (w : Input)
      → IsSound os w.dev
      → Next os (handle_trigger_button os li index e m w)
  unfolding handle_trigger_button
  trigger-Next index e m w s = elim (Option-cases w.dev.map) [
    | inl gone ↦ rw (gone, handle_trigger_button) (s, λ n. refl)
    | inr (map, here) ↦
        rw (here, handle_trigger_button)
          (if_Next os (eqb_ℤ index map.btn_lefttrigger) _ _
            (λ h. (frame-IsSound os w.dev _ refl s, λ n. cc))
            (if_Next os (eqb_ℤ index map.btn_righttrigger) _ _
              (λ h. (frame-IsSound os w.dev _ refl s, λ n. cc)) (s, λ n. refl)))
  ]

  no_flag :
      (pointer : Bool) (map : Option Mapping) (index : ℤ)
      → map ≡ none
      → (if pointer then 0 else gamepad_code os li map index) ≡ 0
  unfolding gamepad_code
  no_flag true map index h = refl
  no_flag false map index h = rw (h, gamepad_code) refl

  pub button-Next :
      (e : InputEvent) (index : ℤ) (w : Input)
      → IsSound os w.dev
      → Next os (handle_button os li e index w)
  unfolding handle_button
  button-Next e index w s =
      let touched : Input = if e.code == os.btn_touch then handle_touch os li e w else w in
      let same : kept touched ≡ kept w =
        if_same kept (e.code == os.btn_touch) (handle_touch os li e w) w (touch_kept os li e w)
          refl in
      let t = frame-IsSound os w.dev touched.dev same s in
      let pointer = is_pointer_code os li e.code in
      let flag : ℕ = if pointer then 0 else gamepad_code os li w.dev.map index in
      let after : kept (handle_gamepad_button os li flag e touched) ≡ kept w =
        gamepad_kept os li flag e touched ∙ same in
      if_Next os (not (mouse_code os li e.code == 0)) _ _
        (λ h. (frame-IsSound os w.dev _ same s, λ n. refl))
        (if_Next os (not (flag == 0)) _ _
          (λ h. (
            frame-IsSound os w.dev _ after s,
            λ n.
                let unmapped : w.dev.map ≡ none = sym (ap (λ p. p.map) after) ∙ n in
                let none_set = no_flag pointer w.dev.map index unmapped in
                ground (arith, h, none_set),
          ))
          (trigger-Next index e (not pointer) touched t))
