-- ===== src/Sdl/Session.antt =====
-- Every event that src/input/sdl.c handles keeps the table of game controllers well-formed.
use moonlight_allwinner_h.Prelude.{◌≡◌, List, [], ◌∷◌, true}
use moonlight_allwinner_h.Prelude.Int.{pos}
use moonlight_allwinner_h.Evdev.Host.{Limelight}
use moonlight_allwinner_h.Sdl.Host.{Scancodes, Numbers, Calls, Floats}
use moonlight_allwinner_h.Sdl.Pads.{Pads, sdlinput_init}
use moonlight_allwinner_h.Sdl.Event.{
  Event, device_added, device_removed, sdlinput_handle_event, handle_events,
}
use moonlight_allwinner_h.Sdl.Sound.{
  IsSound, update-IsSound, remove-IsSound, add-IsSound, init-IsSound,
}
use moonlight_allwinner_h.Sdl.Cases.{event_kept, is_device}

module _ {F : Type 0} (li : Limelight) (sc : Scancodes) (num : Numbers) (sdl : Calls)
    (fl : Floats F) where
  device-IsSound :
      (e : Event F) (s : Pads F)
      → IsSound s
      → is_device e ≡ true
      → IsSound (sdlinput_handle_event li sc num sdl fl e s).1
  unfolding sdlinput_handle_event
  device-IsSound (device_added index) s t d = add-IsSound li num sdl index s t
  device-IsSound (device_removed which) s t d = remove-IsSound which s t
  device-IsSound other s t d = cc

  event-IsSound :
      (e : Event F) (s : Pads F)
      → IsSound s
      → IsSound (sdlinput_handle_event li sc num sdl fl e s).1
  event-IsSound e s t =
      event_kept li sc num sdl fl IsSound (λ m s t. t) update-IsSound e s (device-IsSound e s t) t

  events-IsSound :
      (es : List (Event F)) (s : Pads F) → IsSound s → IsSound (handle_events li sc num sdl fl es s)
  unfolding handle_events
  events-IsSound [] s t = t
  events-IsSound (e ∷ es) s t =
      events-IsSound es (sdlinput_handle_event li sc num sdl fl e s).1 (event-IsSound e s t)

  -- Started with no controller counted and an empty mask, the table is well-formed after
  -- sdlinput_init and after any sequence of events: the mask has exactly the bits of the slots in
  -- use, these carry their own numbers, no two are of the same instance, and sdl_gamepads is not
  -- less than their number.
  pub session-IsSound :
      (s : Pads F) (es : List (Event F))
      → s.active_mask ≡ 0
      → s.sdl_gamepads ≡ pos 0
      → IsSound (handle_events li sc num sdl fl es (sdlinput_init li num sdl s))
  session-IsSound s es m n =
      events-IsSound es (sdlinput_init li num sdl s) (init-IsSound li num sdl s m n)
