-- ===== src/Evdev/Safety/Sequence.antt =====
-- Each kind of event of `evdev_handle_event` of src/input/evdev.c leaves a sound device sound.
use moonlight_allwinner_h.Prelude.{
  ◌≡◌, refl, sym, ap, ◌∙◌, inl, inr, Bool, true, false, Option, none, some, arith, Option-cases,
  Bool-cases, ltb, ◌&&◌, if◌then◌else◌, get_elem?, ◌>>=◌,
}
use moonlight_allwinner_h.Prelude.Int.{pos, eqb_ℤ, ltb_ℤ}
use moonlight_allwinner_h.Evdev.Host.{Linux, Limelight}
use moonlight_allwinner_h.Evdev.Device.{
  Device, InputEvent, EventType, ev_syn, ev_key, ev_rel, ev_abs, ev_other,
}
use moonlight_allwinner_h.Evdev.Output.{Input, send}
use moonlight_allwinner_h.Evdev.Keys.{fall, handle_key, key_codes}
use moonlight_allwinner_h.Evdev.Event.{
  dispatch, handle_syn, arrive, assign_controller, send_controller_arrival, send_gamepad,
  state_message, send_motion, send_v_scroll, send_h_scroll,
}
use moonlight_allwinner_h.Evdev.Safety.Handler.{IsSound}
use moonlight_allwinner_h.Evdev.Safety.Frame.{Frame, frame, frame-IsSound, if_same, kept, rel_kept}
use moonlight_allwinner_h.Evdev.Safety.Keeps.{MaybeNext, if_MaybeNext, keyboard-Next, button-Next}
use moonlight_allwinner_h.Evdev.Safety.Turn.{abs_next}

module _ (os : Linux) (li : Limelight) where
  key_next : (e : InputEvent) (w : Input) → IsSound os w.dev → MaybeNext os (handle_key os li e w)
  unfolding handle_key
  key_next e w s =
      if_MaybeNext os (ltb os.key_max e.code) _ _ (λ h. s)
        (λ h. elim (Option-cases (get_elem? key_codes e.code)) [
          | inr (vk, known) ↦ rw known (keyboard-Next os li e vk w s)
          | inl unknown ↦ elim (Option-cases (get_elem? w.dev.key_map e.code)) [
            | inl gone ↦ rw (unknown, gone) _
            | inr (index, at) ↦ rw (unknown, at) (button-Next os li e index w s)
          ]
        ])

  before_kept : (w : Input) → kept (send_h_scroll (send_v_scroll (send_motion w))) ≡ kept w
  unfolding send_h_scroll send_v_scroll send_motion
  before_kept w =
      let a = send_motion w in
      let b = send_v_scroll a in
      if_same kept (eqb_ℤ b.dev.mouse_h_scroll (pos 0)) b _ refl refl
      ∙ if_same kept (eqb_ℤ a.dev.mouse_v_scroll (pos 0)) a _ refl refl
      ∙ if_same kept (eqb_ℤ w.dev.mouse_delta_x (pos 0) && eqb_ℤ w.dev.mouse_delta_y (pos 0)) w _
          refl refl

  -- A result, if there is one, that keeps what soundness is about.
  abbrev KeptBy : Frame → Option Input → Type 0
  KeptBy k none = Unit {0}
  KeptBy k (some v) = kept v ≡ k

  if_KeptBy :
      (k : Frame) (b : Bool) (x y : Option Input)
      → KeptBy k x
      → KeptBy k y
      → KeptBy k (if b then x else y)
  if_KeptBy k true x y p q = p
  if_KeptBy k false x y p q = q

  result_kept :
      (k : Frame) (o : Option Input) → ((v : Input) → o ≡ some v → kept v ≡ k) → KeptBy k o
  result_kept k none h = _
  result_kept k (some v) h = h v refl

  announce_same : (w v : Input) → send_controller_arrival li w ≡ some v → v.dev ≡ w.dev
  unfolding send_controller_arrival
  announce_same w v h = ground arith

  announce_kept : (w : Input) → KeptBy (kept w) (send_controller_arrival li w)
  announce_kept w =
      result_kept (kept w) (send_controller_arrival li w) (λ v h. ap frame (announce_same w v h))

  assign_kept : (w : Input) → kept (assign_controller li w) ≡ kept w
  unfolding assign_controller
  assign_kept w = ground arith

  arrive-kept : (w : Input) → KeptBy (kept w) (arrive li w)
  unfolding arrive
  arrive-kept w =
      if_KeptBy (kept w) (ltb_ℤ w.dev.controller_id (pos 0)) _ _
        (rw (sym (assign_kept w)) (announce_kept (assign_controller li w))) refl

  -- A device whose gamepad is marked, if it has a mapping, or not.
  pub mark-IsSound :
      (d : Device) (b : Bool)
      → IsSound os d
      → (d.map ≡ none → b ≡ false)
      → IsSound os (record d { gamepad_modified = b })
  mark-IsSound d b s h = record {
    keys = s.keys;
    axes = s.axes;
    hats = s.hats;
    directions = s.directions;
    divisible = record {
      x = s.divisible.x;
      y = s.divisible.y;
      rx = s.divisible.rx;
      ry = s.divisible.ry;
      z = s.divisible.z;
      rz = s.divisible.rz;
      left = s.divisible.left;
      right = s.divisible.right;
      up = s.divisible.up;
      down = s.divisible.down;
    };
    unmapped = h;
  }

  told_next :
      (w : Input) (o : Option Input)
      → IsSound os w.dev
      → KeptBy (kept w) o
      → MaybeNext os (
          o
          >>= (λ w1.
              let told = if w1.dev.mouse_emulation then w1 else send (state_message li w1) w1 in
              some (record told { dev = record (told.dev) { gamepad_modified = false } }))
          >>= λ w1. some (fall false w1))
  told_next w none s k = _
  told_next w (some v) s k =
      let told : Input = if v.dev.mouse_emulation then v else send (state_message li v) v in
      let same : kept told ≡ kept w =
        if_same kept v.dev.mouse_emulation v (send (state_message li v) v) refl refl ∙ k in
      (
        frame-IsSound os (record (w.dev) { gamepad_modified = false }) _
            (ap (λ (f : Frame). record f { modified = false }) same)
            (mark-IsSound w.dev false s (λ n. refl)),
        λ n. refl,
      )

  gamepad_next :
      (w : Input)
      → IsSound os w.dev
      → MaybeNext os (send_gamepad li w >>= λ w1. some (fall false w1))
  unfolding send_gamepad
  gamepad_next w s = elim (Bool-cases w.dev.gamepad_modified) [
    | inl changed ↦ simp changed (told_next w (arrive li w) s (arrive-kept w))
    | inr still ↦ simp still (s, λ n. refl)
  ]

  syn_next : (w : Input) → IsSound os w.dev → MaybeNext os (handle_syn li w)
  unfolding handle_syn
  syn_next w s =
      let sent = send_h_scroll (send_v_scroll (send_motion w)) in
      gamepad_next sent (frame-IsSound os w.dev sent.dev (before_kept w) s)

  pub dispatch_next :
      (t : EventType) (e : InputEvent) (w : Input)
      → IsSound os w.dev
      → MaybeNext os (dispatch os li t e w)
  unfolding dispatch
  dispatch_next ev_syn e w s = syn_next w s
  dispatch_next ev_key e w s = key_next e w s
  dispatch_next ev_rel e w s = (frame-IsSound os w.dev _ (rel_kept os li e w) s, λ n. refl)
  dispatch_next ev_abs e w s = abs_next os li e w s
  dispatch_next ev_other e w s = (s, λ n. refl)
