-- ===== src/Evdev/Flush.antt =====
-- What an `EV_SYN` event leaves in the device of src/input/evdev.c.
use moonlight_allwinner_h.Prelude.{◌≡◌, Bool, true, false, some, arith, Option-cases, inl, inr}
use moonlight_allwinner_h.Prelude.Int.{pos}
use moonlight_allwinner_h.Evdev.Host.{Linux, Limelight}
use moonlight_allwinner_h.Evdev.Device.{Device, InputEvent, ev_syn}
use moonlight_allwinner_h.Evdev.Output.{Input}
use moonlight_allwinner_h.Evdev.Event.{
  evdev_handle_event, handle_syn, finish_event, dispatch, send_motion, send_v_scroll, send_h_scroll,
  send_gamepad, assign_controller, arrive, send_controller_arrival,
}

-- Nothing of the motion since the last synchronisation is left to send.
pub record NoMotion (d : Device) : Type 0 where
  pub no_x : d.mouse_delta_x ≡ pos 0
  pub no_y : d.mouse_delta_y ≡ pos 0
  pub no_v : d.mouse_v_scroll ≡ pos 0
  pub no_h : d.mouse_h_scroll ≡ pos 0

motion_sent :
    (w : Input)
    → ((send_motion w).dev.mouse_delta_x ≡ pos 0) × ((send_motion w).dev.mouse_delta_y ≡ pos 0)
unfolding send_motion
motion_sent w = ground arith

v_scroll_sent :
    (w : Input)
    → ((send_v_scroll w).dev.mouse_v_scroll ≡ pos 0)
      × ((send_v_scroll w).dev.mouse_delta_x ≡ w.dev.mouse_delta_x)
      × ((send_v_scroll w).dev.mouse_delta_y ≡ w.dev.mouse_delta_y)
unfolding send_v_scroll
v_scroll_sent w = ground arith

h_scroll_sent :
    (w : Input)
    → ((send_h_scroll w).dev.mouse_h_scroll ≡ pos 0)
      × ((send_h_scroll w).dev.mouse_v_scroll ≡ w.dev.mouse_v_scroll)
      × ((send_h_scroll w).dev.mouse_delta_x ≡ w.dev.mouse_delta_x)
      × ((send_h_scroll w).dev.mouse_delta_y ≡ w.dev.mouse_delta_y)
unfolding send_h_scroll
h_scroll_sent w = ground arith

arrive_keeps :
    (li : Limelight) (w w' : Input) → arrive li w ≡ some w' → NoMotion w.dev → NoMotion w'.dev
unfolding arrive assign_controller send_controller_arrival
arrive_keeps li w w' h n = ground arith

gamepad_sent :
    (li : Limelight) (w w' : Input)
    → send_gamepad li w ≡ some w'
    → NoMotion w.dev
    → NoMotion w'.dev × (w'.dev.gamepad_modified ≡ false)
unfolding send_gamepad
gamepad_sent li w w' h n = elim (Option-cases (arrive li w)) [
  | inl fault ↦ ground arith
  | inr (w1, here) ↦ ground (arith, arrive_keeps li w w1 here n)
]

-- After an `EV_SYN` event the handler goes on, and nothing is left to send: the two motion sums and
-- the two scroll counts are 0, and the gamepad is not marked as modified.
pub syn_flushes :
    (os : Linux) (li : Limelight) (e : InputEvent) (w w' : Input) (go : Bool)
    → e.type ≡ ev_syn
    → evdev_handle_event os li e w ≡ some (go, w')
    → (go ≡ true) × NoMotion w'.dev × (w'.dev.gamepad_modified ≡ false)
unfolding evdev_handle_event dispatch handle_syn finish_event
syn_flushes os li e w w' go t h =
    let before = send_h_scroll (send_v_scroll (send_motion w)) in
    let still : NoMotion before.dev = ground (
      arith,
      motion_sent w,
      v_scroll_sent (send_motion w),
      h_scroll_sent (send_v_scroll (send_motion w)),
    ) in
    elim (Option-cases (send_gamepad li before)) [
      | inl fault ↦ ground arith
      | inr (w1, sent) ↦ ground (arith, gamepad_sent li before w1 sent still)
    ]
