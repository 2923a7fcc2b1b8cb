-- ===== src/Evdev/Tests.antt =====
-- Runs of the model of src/input/evdev.c on a keyboard and on a gamepad.
use Prim.Native.Nat.{max, min}
use moonlight_allwinner_h.Prelude.{
  ◌-◌, ◌≡◌, refl, Bool, true, false, [], ◌∷◌, none, some, arith, inl, inr, length-replicate,
  if◌then◌else◌, List,
}
use moonlight_allwinner_h.Prelude.Bits.{test_bit, clear_bits}
use moonlight_allwinner_h.Prelude.Int.{
  abs_ℤ, to_short, to_uchar, pos, negsuc, ◌+ℤ◌, ◌-ℤ◌, ◌*ℤ◌, ◌/ℤ◌, ◌≤ℤ◌,
}
use moonlight_allwinner_h.Evdev.Device.{ev_syn, ev_key, ev_abs}
use moonlight_allwinner_h.Evdev.Output.{Input, mouse_move}
use moonlight_allwinner_h.Evdev.Axis.{half, evdev_convert_value, evdev_convert_value_byte}
use moonlight_allwinner_h.Evdev.Axis.Level.{IsAxis}
use moonlight_allwinner_h.Evdev.Axis.Order.{convert_mono, convert_mirror}
use moonlight_allwinner_h.Evdev.Keys.{handle_gamepad_button, is_down}
use moonlight_allwinner_h.Evdev.Abs.{is_hat, byte_step, press}
use moonlight_allwinner_h.Evdev.Event.{
  free_id, dispatch, handle_syn, send_gamepad, send_h_scroll, send_v_scroll, send_motion, rotated,
  finish_event, evdev_handle_event,
}
use moonlight_allwinner_h.Evdev.Assign.{IsLowestFree, free_id_lowest}
use moonlight_allwinner_h.Evdev.Flush.{NoMotion, syn_flushes}
use moonlight_allwinner_h.Evdev.Buttons.{gamepad_button_bits, half_axis_never_presses}
use moonlight_allwinner_h.Evdev.Safety.{IsDivisible}
use moonlight_allwinner_h.Evdev.Safety.Handler.{IsSound, event_runs, fourth_hat_faults}
use moonlight_allwinner_h.Evdev.Safety.Reading.{after, reading_runs}
use moonlight_allwinner_h.Evdev.Read.{Read, sync, success, no_device, Handled, read_device}
use moonlight_allwinner_h.Evdev.Parms.{AbsInfo, evdev_get_map, evdev_init_parms, init_parms-IsAxis}
use moonlight_allwinner_h.Evdev.Sample.{
  linux, limelight, no_axis, stick_axis, hat_mapping, device, input, event,
}

no_axis-IsDivisible : IsDivisible no_axis
no_axis-IsDivisible = inl refl

stick-IsDivisible : IsDivisible stick_axis
unfolding ◌-ℤ◌ ◌*ℤ◌
stick-IsDivisible = inr (refl, refl)

gamepad-IsSound : IsSound linux (device (some hat_mapping) 0 (pos 0))
gamepad-IsSound = record {
  keys = omega (arith, length-replicate 768 (negsuc 0));
  axes = omega (arith, length-replicate 64 (negsuc 0));
  hats = refl;
  directions = (
    inr (inl refl),
    inr (inl refl),
    (inr (inl refl), inr (inl refl), (inr (inl refl), inr (inl refl), tt)),
  );
  divisible = record {
    x = stick-IsDivisible;
    y = stick-IsDivisible;
    rx = stick-IsDivisible;
    ry = stick-IsDivisible;
    z = no_axis-IsDivisible;
    rz = no_axis-IsDivisible;
    left = no_axis-IsDivisible;
    right = no_axis-IsDivisible;
    up = no_axis-IsDivisible;
    down = no_axis-IsDivisible;
  };
  unmapped = λ e. refl;
}

-- the first hat pushed to the right
event_runs_example :
    (r : Bool × Input) × (evdev_handle_event linux limelight
        (event ev_abs 0x10 (pos 1))
        (input (some hat_mapping) 0 (pos 0) false)
      ≡ some r)
event_runs_example =
    event_runs linux limelight (event ev_abs 0x10 (pos 1))
      (input (some hat_mapping) 0 (pos 0) false) gamepad-IsSound (λ e. omega arith)

-- the first hat pushed to the right and let go again, then the gamepad is pulled out
abbrev hat_moves : List Read
hat_moves = success (event ev_abs 0x10 (pos 1)) ∷ sync ∷ success (event ev_abs 0x10 (pos 0)) ∷ []

reading_runs_example :
    (h : Handled) × (read_device
        (evdev_handle_event linux limelight)
        hat_moves
        no_device
        (input (some hat_mapping) 0 (pos 0) false)
      ≡ some h)
    × IsSound linux (after h).dev
reading_runs_example =
    reading_runs linux limelight hat_moves no_device (input (some hat_mapping) 0 (pos 0) false)
      gamepad-IsSound ((λ e. omega arith), ((λ e. omega arith), tt))

fourth_hat_faults_example :
    evdev_handle_event linux limelight
      (event ev_abs 0x16 (pos 1))
      (input (some hat_mapping) 0 (pos 0) false)
    ≡ none
unfolding is_hat
fourth_hat_faults_example =
    fourth_hat_faults linux limelight hat_mapping (event ev_abs 0x16 (pos 1))
      (input (some hat_mapping) 0 (pos 0) false) refl (omega arith) refl refl refl refl refl

-- a synchronisation after a motion of five
abbrev moved : Input
moved = record (input none 0 (pos 0) false) { sent = mouse_move (pos 5) (pos 0) ∷ [] }

syn_run :
    evdev_handle_event linux limelight (event ev_syn 0 (pos 0)) (input none 0 (pos 5) false)
    ≡ some (true, moved)
unfolding evdev_handle_event dispatch handle_syn send_gamepad send_h_scroll send_v_scroll
    send_motion rotated finish_event
syn_run = refl

syn_flushes_example : (true ≡ true) × NoMotion moved.dev × (moved.dev.gamepad_modified ≡ false)
syn_flushes_example =
    syn_flushes linux limelight (event ev_syn 0 (pos 0)) (input none 0 (pos 5) false) moved true
      refl syn_run

gamepad_button_bits_example :
    test_bit
      (handle_gamepad_button linux limelight 0x1000
        (event ev_key 304 (pos 1))
        (input none 0 (pos 0) false)).dev.button_flags
      12
    ≡ (if is_down (event ev_key 304 (pos 1))
        then max (test_bit 0 12) (test_bit 0x1000 12)
        else min (test_bit 0 12) (1 - test_bit 0x1000 12))
gamepad_button_bits_example =
    gamepad_button_bits linux limelight 0x1000 (event ev_key 304 (pos 1))
      (input none 0 (pos 0) false) 12 (omega arith) (omega arith)

-- the right half of an axis at its end
half_run :
    byte_step true stick_axis b'+'
      (event ev_abs 0 (pos 127))
      (press 8)
      (false, device none 0 (pos 0))
    ≡ some (true, device none 0 (pos 0))
unfolding byte_step evdev_convert_value_byte evdev_convert_value abs_ℤ ◌-ℤ◌ ◌*ℤ◌ half to_short ◌+ℤ◌
    ◌/ℤ◌ to_uchar clear_bits
half_run = refl

half_axis_never_presses_example : 0 ≡ clear_bits 0 8
half_axis_never_presses_example =
    half_axis_never_presses stick_axis b'+' 8 (event ev_abs 0 (pos 127)) false
      (device none 0 (pos 0)) (true, device none 0 (pos 0)) (omega arith) half_run

free_id_lowest_example : IsLowestFree 0 16 0b1011 (free_id 16 0 0b1011)
free_id_lowest_example = free_id_lowest 0b1011

stick_axis-IsAxis : IsAxis stick_axis
unfolding ◌+ℤ◌
stick_axis-IsAxis = record {
  flat_nonneg = omega arith;
  flat_small = omega arith;
  centre_low = omega arith;
  centre_high = omega arith;
}

convert_20 : evdev_convert_value stick_axis (pos 20) false ≡ some (pos 1601)
unfolding evdev_convert_value abs_ℤ ◌-ℤ◌ ◌*ℤ◌ to_short ◌+ℤ◌ ◌/ℤ◌
convert_20 = refl

convert_100 : evdev_convert_value stick_axis (pos 100) false ≡ some (pos 24902)
unfolding evdev_convert_value abs_ℤ ◌-ℤ◌ ◌*ℤ◌ to_short ◌+ℤ◌ ◌/ℤ◌
convert_100 = refl

convert_20_reversed : evdev_convert_value stick_axis (pos 20) true ≡ some (negsuc 1602)
unfolding evdev_convert_value abs_ℤ ◌-ℤ◌ ◌*ℤ◌ to_short ◌+ℤ◌ ◌/ℤ◌
convert_20_reversed = refl

convert_mono_example : pos 1601 ≤ℤ pos 24902
unfolding abs_ℤ ◌-ℤ◌
convert_mono_example =
    convert_mono (pos 20) (pos 100) (pos 1601) (pos 24902) stick_axis-IsAxis refl refl (omega arith)
      convert_20 convert_100

convert_mirror_example :
    (pos 1601 +ℤ negsuc 1602 ≤ℤ negsuc 0) × (negsuc 1 ≤ℤ pos 1601 +ℤ negsuc 1602)
unfolding abs_ℤ ◌-ℤ◌
convert_mirror_example =
    convert_mirror (pos 20) (pos 1601) (negsuc 1602) stick_axis-IsAxis refl convert_20
      convert_20_reversed

-- the second axis of a device, from -128 to 127
abbrev axis_info : AbsInfo
axis_info = record { flat = λ i. pos 15; minimum = λ i. negsuc 127; maximum = λ i. pos 127 }

second_found : evdev_get_map (pos 7 ∷ pos 9 ∷ []) 63 (pos 9) 0 ≡ some 1
unfolding evdev_get_map
second_found = refl

init_parms-IsAxis_example :
    ((evdev_init_parms 63 axis_info (pos 7 ∷ pos 9 ∷ []) (pos 9) no_axis).0 ≡ true)
    × IsAxis (evdev_init_parms 63 axis_info (pos 7 ∷ pos 9 ∷ []) (pos 9) no_axis).1
unfolding ◌+ℤ◌
init_parms-IsAxis_example =
    init_parms-IsAxis 63 axis_info (pos 7 ∷ pos 9 ∷ []) (pos 9) no_axis 1 second_found (omega arith)
      (omega arith)
