-- ===== src/Evdev/Output.antt =====
-- What src/input/evdev.c sends to the host, and its state while it handles one event.
use moonlight_allwinner_h.Prelude.{ℕ, Bool, List, ◌∷◌, Option}
use moonlight_allwinner_h.Prelude.Int.{ℤ}
use moonlight_allwinner_h.Evdev.Device.{Device}

-- The calls of Limelight, and the start and the end of the mouse emulation thread.
pub data Message : Type 0 where
  mouse_move : ℤ → ℤ → Message
  scroll : ℤ → Message
  h_scroll : ℤ → Message
  mouse_button : ℕ → ℕ → Message
  keyboard : ℤ → ℕ → ℕ → Message
  -- controller, mask, buttons, left and right trigger, left stick, right stick
  multi_controller : ℤ → ℕ → ℕ → ℕ → ℕ → ℤ → ℤ → ℤ → ℤ → Message
  -- controller, mask, type, supported buttons, capabilities
  controller_arrival : ℤ → ℕ → ℕ → ℕ → ℕ → Message
  pause : ℕ → Message
  thread_create thread_join : Message

-- The device whose event is handled, the globals `assignedControllerIds`,
-- `waitingToExitOnModifiersUp` and `mouseEmulationEnabled`, and what was sent, newest first.
pub record Input : Type 0 where
  pub dev : Device
  pub assigned : ℕ
  pub waiting : Bool
  pub emulation_enabled : Bool
  pub sent : List Message

abbrev pub send : Message → Input → Input
send m w = record w { sent = m ∷ w.sent }

-- A handler faults (`none`), or answers whether to go on, with the new state.
abbrev pub Answer : Type 0
Answer = Option (Bool × Input)
