-- ===== src/Evdev/Read.antt =====
-- `evdev_handle` of src/input/evdev.c for the device whose descriptor is ready: the events that are
-- read go to the handler one by one.
use moonlight_allwinner_h.Prelude.{true, false, List, [], ◌∷◌, Option, some, if◌then◌else◌, ◌>>=◌}
use moonlight_allwinner_h.Evdev.Device.{InputEvent}
use moonlight_allwinner_h.Evdev.Output.{Input, Answer}

-- What `libevdev_next_event` gives: LIBEVDEV_READ_STATUS_SYNC, LIBEVDEV_READ_STATUS_SUCCESS with an
-- event, or another number that is not negative.
pub data Read : Type 0 where
  sync : Read
  success : InputEvent → Read
  other_status : Read

-- The negative number that ends the loop: -ENODEV, -EAGAIN or another.
pub data Ending : Type 0 where
  no_device : Ending
  again : Ending
  failed : Ending

-- How the device is left: the handler asked to stop, the loop goes on, the device goes to
-- `evdev_remove`, or the program exits.
pub data Handled : Type 0 where
  loop_return : Input → Handled
  loop_ok : Input → Handled
  to_remove : Input → Handled
  exit_failure : Input → Handled

unfoldable pub ended : Ending → Input → Handled
ended no_device w = to_remove w
ended again w = loop_ok w
ended failed w = exit_failure w

module _ (handler : InputEvent → Input → Answer) where
  -- the loop, with what it reads; `false` is the early return
  unfoldable pub read_events : List Read → Input → Answer
  read_events [] w = some (true, w)
  read_events (sync ∷ rest) w = read_events rest w
  read_events (other_status ∷ rest) w = read_events rest w
  read_events (success e ∷ rest) w =
      handler e w >>= λ r. if r.0 then read_events rest r.1 else some (false, r.1)

  -- the body of the `if` on the descriptor
  unfoldable pub read_device : List Read → Ending → Input → Option Handled
  read_device reads end w =
      read_events reads w >>= λ r. some (if r.0 then ended end r.1 else loop_return r.1)
