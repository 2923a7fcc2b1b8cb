-- ===== src/Evdev/Safety/Handler.antt =====
-- The whole handler of one event of src/input/evdev.c does not fault, but for the fourth hat.
use moonlight_allwinner_h.Prelude.{
  ◌≤◌, ◌<◌, ◌≡◌, ◌≢◌, inl, inr, Bool, true, false, none, some, arith, Option-cases, Bool-cases, ltb,
  length, get_elem?, get_elem?-some, get_elem?-past,
}
use moonlight_allwinner_h.Evdev.Host.{Linux, Limelight}
use moonlight_allwinner_h.Evdev.Device.{
  Mapping, Device, InputEvent, EventType, ev_syn, ev_key, ev_rel, ev_abs, ev_other,
}
use moonlight_allwinner_h.Evdev.Output.{Input}
use moonlight_allwinner_h.Evdev.Keys.{
  return, fall, handle_key, handle_keyboard, handle_button, key_codes,
}
use moonlight_allwinner_h.Evdev.Abs.{
  is_hat, hat_index, direction, handle_hat, handle_mapped, handle_abs,
}
use moonlight_allwinner_h.Evdev.Event.{
  evdev_handle_event, dispatch, handle_syn, finish_event, arrive, assign_controller,
  send_controller_arrival, send_gamepad, send_motion, send_v_scroll, send_h_scroll, handle_rel,
}
use moonlight_allwinner_h.Evdev.Safety.{
  bind_runs, some_runs, AxesDivisible, AllDirections, axis_runs, direction-IsDirection,
  directions_at, constant_runs,
}

-- What the handlers rely on: arrays as long as the codes reach, three hats that point somewhere,
-- axes that can be converted, and no gamepad waiting to be reported without a mapping.
pub record IsSound (os : Linux) (d : Device) : Type 0 where
  pub keys : os.key_max < length d.key_map
  pub axes : os.abs_max < length d.abs_map
  pub hats : length d.hats_state ≡ 3
  pub directions : AllDirections d.hats_state
  pub divisible : AxesDivisible d
  pub unmapped : d.map ≡ none → d.gamepad_modified ≡ false

hat_runs :
    (os : Linux) (li : Limelight) (m : Mapping) (e : InputEvent) (w : Input)
    → IsSound os w.dev
    → hat_index os li e.code < 3
    → handle_hat os li m e w ≢ none
unfolding handle_hat
hat_runs os li m e w ok near =
    let (old, at) =
      get_elem?-some w.dev.hats_state (hat_index os li e.code) (omega (arith, near, ok.hats)) in
    let both =
      directions_at w.dev.hats_state (hat_index os li e.code) old.0 old.1 ok.directions at in
    let now = direction-IsDirection e.value in
    ground (
      arith,
      constant_runs (direction e.value) old.1 now both.1,
      constant_runs old.0 (direction e.value) both.0 now,
    )

mapped_runs :
    (os : Linux) (li : Limelight) (m : Mapping) (e : InputEvent) (w : Input)
    → IsSound os w.dev
    → e.code ≤ os.abs_max
    → (is_hat os li e.code ≡ true → hat_index os li e.code < 3)
    → handle_mapped os li m e w ≢ none
unfolding handle_mapped
mapped_runs os li m e w ok low near =
    let (index, at) = get_elem?-some w.dev.abs_map e.code (omega (arith, ok.axes)) in
    ground (arith, axis_runs li m index e w.dev ok.divisible, hat_runs os li m e w ok)

gamepad_runs :
    (li : Limelight) (w : Input)
    → (w.dev.map ≡ none → w.dev.gamepad_modified ≡ false)
    → send_gamepad li w ≢ none
unfolding send_gamepad arrive assign_controller send_controller_arrival
gamepad_runs li w mapped = ground arith

before_keeps :
    (w : Input)
    → ((send_h_scroll (send_v_scroll (send_motion w))).dev.map ≡ w.dev.map)
      × ((send_h_scroll (send_v_scroll (send_motion w))).dev.gamepad_modified
          ≡ w.dev.gamepad_modified)
unfolding send_h_scroll send_v_scroll send_motion
before_keeps w = ground arith

syn_runs : (os : Linux) (li : Limelight) (w : Input) → IsSound os w.dev → handle_syn li w ≢ none
unfolding handle_syn
syn_runs os li w ok =
    bind_runs (send_gamepad li (send_h_scroll (send_v_scroll (send_motion w))))
      (λ v. some (fall false v))
      (gamepad_runs li (send_h_scroll (send_v_scroll (send_motion w)))
        (rw ((before_keeps w).0, (before_keeps w).1) ok.unmapped))
      (λ v _. some_runs (fall false v))

key_runs :
    (os : Linux) (li : Limelight) (e : InputEvent) (w : Input)
    → IsSound os w.dev
    → handle_key os li e w ≢ none
unfolding handle_key
key_runs os li e w ok = elim (Bool-cases (ltb os.key_max e.code)) [
  | inl high ↦ rw high (some_runs (return true w))
  | inr low ↦
      let inside : e.code < length w.dev.key_map = ground (arith, ok.keys) in
      let (index, at) = get_elem?-some w.dev.key_map e.code inside in
      elim (Option-cases (get_elem? key_codes e.code)) [
        | inr (vk, known) ↦ rw (low, known) (some_runs (handle_keyboard os li e vk w))
        | inl unknown ↦ rw (low, unknown, at) (some_runs (handle_button os li e index w))
      ]
]

-- The hat of an axis event on a mapped gamepad, if it is a hat, is one of the three that the device
-- keeps.
abbrev pub HatKept : Linux → Limelight → InputEvent → Type 0
HatKept os li e = is_hat os li e.code ≡ true → hat_index os li e.code < 3

abs_runs :
    (os : Linux) (li : Limelight) (e : InputEvent) (w : Input)
    → IsSound os w.dev
    → HatKept os li e
    → handle_abs os li e w ≢ none
unfolding handle_abs
abs_runs os li e w ok near = elim (Option-cases w.dev.map) [
  | inl unmapped ↦ ground arith
  | inr (m, mapped) ↦
      ground (arith, λ (low : e.code ≤ os.abs_max). mapped_runs os li m e w ok low near)
]

dispatch_runs :
    (os : Linux) (li : Limelight) (t : EventType) (e : InputEvent) (w : Input)
    → IsSound os w.dev
    → HatKept os li e
    → dispatch os li t e w ≢ none
unfolding dispatch
dispatch_runs os li ev_syn e w ok near = syn_runs os li w ok
dispatch_runs os li ev_key e w ok near = key_runs os li e w ok
dispatch_runs os li ev_abs e w ok near = abs_runs os li e w ok near
dispatch_runs os li ev_rel e w ok near = some_runs (fall false (handle_rel os li e w))
dispatch_runs os li ev_other e w ok near = some_runs (fall false w)

-- On a sound device the handler of an event returns: it reads and writes inside its arrays, divides
-- by no zero and follows no NULL mapping, unless the event is about a hat beyond the third.
pub event_runs :
    (os : Linux) (li : Limelight) (e : InputEvent) (w : Input)
    → IsSound os w.dev
    → HatKept os li e
    → (r : Bool × Input) × (evdev_handle_event os li e w ≡ some r)
unfolding evdev_handle_event
event_runs os li e w ok near = elim (Option-cases (dispatch os li e.type e w)) [
  | inl fault ↦ absurd (dispatch_runs os li e.type e w ok near fault)
  | inr (f, flow) ↦ (finish_event li f, rw flow)
]

-- An axis event about the fourth hat, on a gamepad with a mapping and three hats, faults: the
-- handler writes past the end of `hats_state`.
pub fourth_hat_faults :
    (os : Linux) (li : Limelight) (m : Mapping) (e : InputEvent) (w : Input)
    → e.type ≡ ev_abs
    → e.code ≤ os.abs_max
    → w.dev.is_touchscreen ≡ false
    → w.dev.map ≡ some m
    → length w.dev.hats_state ≡ 3
    → is_hat os li e.code ≡ true
    → hat_index os li e.code ≡ 3
    → evdev_handle_event os li e w ≡ none
unfolding evdev_handle_event dispatch handle_abs handle_mapped handle_hat
fourth_hat_faults os li m e w t low touch mapped three hat fourth =
    ground (arith, get_elem?-past w.dev.hats_state 3)
