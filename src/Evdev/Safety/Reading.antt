-- ===== src/Evdev/Safety/Reading.antt =====
-- Sequences of events through the handler of src/input/evdev.c, in the loop that reads a device.
use moonlight_allwinner_h.Prelude.{
  ◌≡◌, refl, ap, ◌∙◌, Bool, true, false, List, [], ◌∷◌, Option, none, some, some-injective,
  if◌then◌else◌, ◌>>=◌, ◌||◌, ◌&&◌, arith,
}
use moonlight_allwinner_h.Prelude.Bits.{has_all}
use moonlight_allwinner_h.Evdev.Host.{Linux, Limelight}
use moonlight_allwinner_h.Evdev.Device.{InputEvent}
use moonlight_allwinner_h.Evdev.Output.{Input, Answer}
use moonlight_allwinner_h.Evdev.Keys.{Flow, return, fall}
use moonlight_allwinner_h.Evdev.Event.{evdev_handle_event, dispatch, finish_event, quit_buttons}
use moonlight_allwinner_h.Evdev.Read.{
  Read, sync, success, other_status, Ending, no_device, again, failed, Handled, loop_return,
  loop_ok, to_remove, exit_failure, ended, read_events, read_device,
}
use moonlight_allwinner_h.Evdev.Safety.Handler.{IsSound, HatKept, event_runs}
use moonlight_allwinner_h.Evdev.Safety.Keeps.{Next, MaybeNext}
use moonlight_allwinner_h.Evdev.Safety.Sequence.{mark-IsSound, dispatch_next}

-- The events that are read are about no fourth hat.
abbrev pub HatsKept : Linux → Limelight → List Read → Type 0
HatsKept os li [] = Unit {0}
HatsKept os li (sync ∷ rest) = HatsKept os li rest
HatsKept os li (other_status ∷ rest) = HatsKept os li rest
HatsKept os li (success e ∷ rest) = HatKept os li e × HatsKept os li rest

abbrev pub after : Handled → Input
after (loop_return w) = w
after (loop_ok w) = w
after (to_remove w) = w
after (exit_failure w) = w

module _ (os : Linux) (li : Limelight) where
  if_IsSound :
      (b : Bool) (x y : Bool × Input)
      → IsSound os x.1.dev
      → IsSound os y.1.dev
      → IsSound os (if b then x else y).1.dev
  if_IsSound true x y p q = p
  if_IsSound false x y p q = q

  finish-IsSound : (f : Flow) → Next os f → IsSound os (finish_event li f).1.dev
  unfolding finish_event
  finish-IsSound (return go w) s = s
  finish-IsSound (fall m w) (s, h) =
      if_IsSound (m && has_all w.dev.button_flags (quit_buttons li)) _ _ s (
        mark-IsSound os li w.dev (w.dev.gamepad_modified || m) s
          (λ n. ground (arith, s.unmapped n, h n)))

  answer-IsSound :
      (o : Option Flow) (r : Bool × Input)
      → MaybeNext os o
      → (o >>= λ f. some (finish_event li f)) ≡ some r
      → IsSound os r.1.dev
  answer-IsSound none r m e = absurd cc
  answer-IsSound (some f) r m e =
      rw⁻¹ (some-injective {a = finish_event li f} {b = r} e) (finish-IsSound f m)

  -- The handler of an event leaves a sound device sound, whatever the event is and whatever it
  -- answers.
  pub event-IsSound :
      (e : InputEvent) (w : Input) (r : Bool × Input)
      → IsSound os w.dev
      → evdev_handle_event os li e w ≡ some r
      → IsSound os r.1.dev
  unfolding evdev_handle_event
  event-IsSound e w r s h =
      answer-IsSound (dispatch os li e.type e w) r (dispatch_next os li e.type e w s) h

  -- A run that ends somewhere, with a sound device.
  abbrev Runs : Answer → Type 0
  Runs o = (r : Bool × Input) × (o ≡ some r) × IsSound os r.1.dev

  continued :
      (go : Bool) (v : Input) (next : Answer)
      → IsSound os v.dev
      → Runs next
      → Runs (if go then next else some (false, v))
  continued true v next t later = later
  continued false v next t later = ((false, v), refl, t)

  events_run :
      (reads : List Read) (w : Input)
      → IsSound os w.dev
      → HatsKept os li reads
      → (r : Bool × Input) × (read_events (evdev_handle_event os li) reads w ≡ some r)
        × IsSound os r.1.dev
  unfolding read_events
  events_run [] w s near = ((true, w), refl, s)
  events_run (sync ∷ rest) w s near = events_run rest w s near
  events_run (other_status ∷ rest) w s near = events_run rest w s near
  events_run (success e ∷ rest) w s (near, later) =
      let ((go, v), run) = event_runs os li e w s near in
      let t = event-IsSound e w (go, v) s run in
      let (r, later_run, sound) = continued go v _ t (events_run rest v t later) in
      (
        r,
        ap
              (λ (o : Answer). o >>= λ x.
                if x.0 then read_events (evdev_handle_event os li) rest x.1 else some (false, x.1))
              run
            ∙ later_run,
        sound,
      )

  after-ended : (end : Ending) (w : Input) → after (ended end w) ≡ w
  unfolding ended
  after-ended no_device w = refl
  after-ended again w = refl
  after-ended failed w = refl

  if_after :
      (go : Bool) (end : Ending) (w : Input) → after (if go then ended end w else loop_return w) ≡ w
  if_after true end w = after-ended end w
  if_after false end w = refl

  -- However many events are read from a sound device, the loop handles them without a fault, if none
  -- is about a hat beyond the third, and it leaves the device sound, however the reading ends.
  pub reading_runs :
      (reads : List Read) (end : Ending) (w : Input)
      → IsSound os w.dev
      → HatsKept os li reads
      → (h : Handled) × (read_device (evdev_handle_event os li) reads end w ≡ some h)
        × IsSound os (after h).dev
  unfolding read_device
  reading_runs reads end w s near =
      let (r, run, t) = events_run reads w s near in
      (if r.0 then ended end r.1 else loop_return r.1, rw run refl, rw (if_after r.0 end r.1) t)
