-- ===== src/Evdev/Abs.antt =====
-- The axis events of src/input/evdev.c: the `EV_ABS` case of `evdev_handle_event`.
use moonlight_allwinner_h.Prelude.{
  ℕ, suc, ◌-◌, ◌/◌, ◌%◌, Bool, true, false, not, List, [], ◌∷◌, Option, none, some, ◌||◌, ltb, ◌==◌,
  if◌then◌else◌, get_elem?, set, ◌>>=◌,
}
use moonlight_allwinner_h.Prelude.Bits.{bit_or, clear_bits, has_all}
use moonlight_allwinner_h.Prelude.Int.{ℤ, pos, negsuc, ◌+ℤ◌, ◌-ℤ◌, ltb_ℤ, eqb_ℤ}
use moonlight_allwinner_h.Evdev.Host.{Linux, Limelight}
use moonlight_allwinner_h.Evdev.Device.{Mapping, AbsParms, Device, InputEvent, touch_up}
use moonlight_allwinner_h.Evdev.Axis.{evdev_convert_value, evdev_convert_value_byte}
use moonlight_allwinner_h.Evdev.Output.{Input}
use moonlight_allwinner_h.Evdev.Keys.{Flow, return, fall}

-- `hat_constants`: HAT_UP 1, HAT_RIGHT 2, HAT_DOWN 4, HAT_LEFT 8
abbrev pub hat_constants : List (List ℕ)
hat_constants = (9 ∷ 1 ∷ 3 ∷ []) ∷ (8 ∷ 0 ∷ 2 ∷ []) ∷ (12 ∷ 4 ∷ 6 ∷ []) ∷ []

-- `ev->value < 0 ? -1 : (ev->value == 0 ? 0 : 1)`
abbrev pub direction : ℤ → ℤ
direction v = if ltb_ℤ v (pos 0) then negsuc 0 else if eqb_ℤ v (pos 0) then pos 0 else pos 1

-- `d + 1` as an index; what is below -1 is no index.
abbrev pub dir_index : ℤ → ℕ
dir_index (pos n) = suc n
dir_index (negsuc n) = if n == 0 then 0 else 3

-- `hat_constants[y + 1][x + 1]`, or the fault
unfoldable pub hat_constant : ℤ × ℤ → Option ℕ
hat_constant (x, y) = get_elem? hat_constants (dir_index y) >>= λ row. get_elem? row (dir_index x)

-- `(hat & hat_flag) == hat_flag`; a negative flag has bits that no hat has.
abbrev pub hat_has : ℕ → ℤ → Bool
hat_has hat (pos flag) = has_all hat flag
hat_has hat (negsuc n) = false

-- `set_hat`, where `here` says that the event is about the mapped hat
unfoldable pub set_hat : Bool → ℕ → ℕ → ℤ → ℕ → ℕ
set_hat here flag hat hat_flag flags =
    if here
    then (if hat_has hat hat_flag then bit_or flags flag else clear_bits flags flag)
    else flags

-- The pair of a hat, with the direction of its axis `axis` replaced.
abbrev pub turn : ℕ → ℤ → ℤ × ℤ → ℤ × ℤ
turn axis d (x, y) = if axis == 0 then (d, y) else (x, d)

module _ (os : Linux) (li : Limelight) where
  unfoldable pub is_hat : ℕ → Bool
  is_hat code =
      code == os.abs_hat0x
      || code == os.abs_hat0y
      || code == os.abs_hat1x
      || code == os.abs_hat1y
      || code == os.abs_hat2x
      || code == os.abs_hat2y
      || code == os.abs_hat3x
      || code == os.abs_hat3y

  -- The hat codes stand in one run from ABS_HAT0X on, so the difference is not negative.
  abbrev pub hat_index : ℕ → ℕ
  hat_index code = (code - os.abs_hat0x) / 2

  abbrev pub hat_dir_index : ℕ → ℕ
  hat_dir_index code = (code - os.abs_hat0x) % 2

  -- the four `set_hat` calls
  unfoldable pub hat_flags : Mapping → ℕ → ℕ → ℕ → ℕ
  hat_flags m index hat flags =
      let is = λ (mapped : ℤ). eqb_ℤ (pos index) mapped in
      set_hat (is m.hat_dpleft) li.left_flag hat m.hat_dir_dpleft (
        set_hat (is m.hat_dpright) li.right_flag hat m.hat_dir_dpright (
          set_hat (is m.hat_dpdown) li.down_flag hat m.hat_dir_dpdown
            (set_hat (is m.hat_dpup) li.up_flag hat m.hat_dir_dpup flags)))

  -- the hat cases; `hats_state` has three hats, and what lies beyond is the fault
  unfoldable pub handle_hat : Mapping → InputEvent → Input → Option Flow
  handle_hat m e w =
      let i = hat_index e.code in
      let d = w.dev in
      get_elem? d.hats_state i >>= λ old.
      let new = turn (hat_dir_index e.code) (direction e.value) old in
      hat_constant new >>= λ hat. some (
        fall true (record w {
          dev = record d {
            hats_state = set d.hats_state i new;
            button_flags = hat_flags m i hat d.button_flags;
          };
        }))

-- A value that may be a fault, put where it belongs; the flag is `gamepadModified`.
abbrev pub put {ℓ} : {A : Type ℓ} → Option A → (A → Device) → Option (Bool × Device)
put r f = r >>= λ v. some (true, f v)

-- The sticks: the first member of the mapping that has the index.
unfoldable pub handle_stick : Mapping → ℤ → InputEvent → Device → Option (Bool × Device)
handle_stick m index e d =
    if eqb_ℤ index m.abs_leftx
    then put (evdev_convert_value d.x_parms e.value m.reverse_leftx)
        (λ v. record d { left_stick_x = v })
    else if eqb_ℤ index m.abs_lefty
    then put (evdev_convert_value d.y_parms e.value (not m.reverse_lefty))
        (λ v. record d { left_stick_y = v })
    else if eqb_ℤ index m.abs_rightx
    then put (evdev_convert_value d.rx_parms e.value m.reverse_rightx)
        (λ v. record d { right_stick_x = v })
    else if eqb_ℤ index m.abs_righty
    then put (evdev_convert_value d.ry_parms e.value (not m.reverse_righty))
        (λ v. record d { right_stick_y = v })
    else some (false, d)

-- `if (index == mapped) { …(evdev_convert_value_byte(…))…; gamepadModified = true; }`
unfoldable pub byte_step :
    Bool
    → AbsParms
    → ℕ
    → InputEvent
    → (ℕ → Device → Device)
    → Bool × Device
    → Option (Bool × Device)
byte_step here p halfaxis e f (modified, d) =
    if here
    then put (evdev_convert_value_byte p e.value halfaxis) (λ b. f b d)
    else some (modified, d)

-- A direction of the D-pad from an axis.
abbrev pub press : ℕ → ℕ → Device → Device
press flag b d = record d {
  button_flags = if ltb 127 b then bit_or d.button_flags flag else clear_bits d.button_flags flag;
}

module _ (li : Limelight) where
  -- the `default` case: the sticks, the two triggers and the four directions
  unfoldable pub handle_axis : Mapping → ℤ → InputEvent → Device → Option (Bool × Device)
  handle_axis m index e d = handle_stick m index e d >>= λ s.
      byte_step (eqb_ℤ index m.abs_lefttrigger) d.z_parms m.halfaxis_lefttrigger e
        (λ b t. record t { left_trigger = b }) s
      >>= λ s.
          byte_step (eqb_ℤ index m.abs_righttrigger) d.rz_parms m.halfaxis_righttrigger e
            (λ b t. record t { right_trigger = b }) s
          >>= λ s.
              byte_step (eqb_ℤ index m.abs_dpright) d.right_parms m.halfaxis_dpright e
                (press li.right_flag) s
              >>= λ s.
                  byte_step (eqb_ℤ index m.abs_dpleft) d.left_parms m.halfaxis_dpleft e
                    (press li.left_flag) s
                  >>= λ s.
                      byte_step (eqb_ℤ index m.abs_dpup) d.up_parms m.halfaxis_dpup e
                        (press li.up_flag) s
                      >>= λ s.
                          byte_step (eqb_ℤ index m.abs_dpdown) d.down_parms m.halfaxis_dpdown e
                            (press li.down_flag) s

module _ (os : Linux) (li : Limelight) where
  -- the two axes of a touchscreen
  unfoldable pub handle_touch_axis : InputEvent → Device → Device
  handle_touch_axis e d =
      if e.code == os.abs_x
      then (if eqb_ℤ d.touch_down_x touch_up
          then record d { touch_down_x = e.value; touch_x = e.value }
          else record d {
            mouse_delta_x = d.mouse_delta_x +ℤ (e.value -ℤ d.touch_x);
            touch_x = e.value;
          })
      else if e.code == os.abs_y
      then (if eqb_ℤ d.touch_down_y touch_up
          then record d { touch_down_y = e.value; touch_y = e.value }
          else record d {
            mouse_delta_y = d.mouse_delta_y +ℤ (e.value -ℤ d.touch_y);
            touch_y = e.value;
          })
      else d

  -- A gamepad with a mapping; `none` is a read past the end of `abs_map` too.
  unfoldable pub handle_mapped : Mapping → InputEvent → Input → Option Flow
  handle_mapped m e w = get_elem? w.dev.abs_map e.code >>= λ index.
      if is_hat os li e.code
      then handle_hat os li m e w
      else (handle_axis li m index e w.dev >>= λ s. some (fall s.0 (record w { dev = s.1 })))

  -- the `EV_ABS` case
  unfoldable pub handle_abs : InputEvent → Input → Option Flow
  handle_abs e w =
      if ltb os.abs_max e.code
      then some (return true w)
      else if w.dev.is_touchscreen
      then some (fall false (record w { dev = handle_touch_axis e w.dev }))
      else elim w.dev.map [ none ↦ some (fall false w) | some m ↦ handle_mapped m e w ]
