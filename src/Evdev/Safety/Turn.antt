-- ===== src/Evdev/Safety/Turn.antt =====
-- The hats and the axes of src/input/evdev.c leave a sound device sound.
use moonlight_allwinner_h.Prelude.{
  ℕ, zero, suc, ◌≡◌, refl, sym, ap, ◌∙◌, inl, inr, Bool, List, [], ◌∷◌, Option, none, some, arith,
  Option-cases, ltb, length-set, set, get_elem?, ◌>>=◌,
}
use moonlight_allwinner_h.Prelude.Int.{ℤ}
use moonlight_allwinner_h.Evdev.Host.{Linux, Limelight}
use moonlight_allwinner_h.Evdev.Device.{Mapping, Device, InputEvent}
use moonlight_allwinner_h.Evdev.Output.{Input}
use moonlight_allwinner_h.Evdev.Keys.{fall}
use moonlight_allwinner_h.Evdev.Abs.{
  handle_hat, handle_mapped, handle_abs, hat_index, turn, hat_dir_index, direction, is_hat,
  hat_constant,
}
use moonlight_allwinner_h.Evdev.Safety.{
  AllDirections, IsDirection, direction-IsDirection, directions_at,
}
use moonlight_allwinner_h.Evdev.Safety.Handler.{IsSound}
use moonlight_allwinner_h.Evdev.Safety.Frame.{frame, frame-IsSound, touch_axis_kept}
use moonlight_allwinner_h.Evdev.Safety.Keeps.{MaybeNext, if_MaybeNext}
use moonlight_allwinner_h.Evdev.Safety.Axes.{AllFrame, axis_frame}

directions-set :
    (hats : List (ℤ × ℤ)) (i : ℕ) (x y : ℤ)
    → AllDirections hats
    → IsDirection x
    → IsDirection y
    → AllDirections (set hats i (x, y))
directions-set [] i x y all hx hy = _
directions-set ((a, b) ∷ rest) zero x y all hx hy = (hx, hy, all.2)
directions-set ((a, b) ∷ rest) (suc i) x y all hx hy =
    (all.0, all.1, directions-set rest i x y all.2 hx hy)

turn_directions :
    (axis : ℕ) (d : ℤ) (p : ℤ × ℤ)
    → IsDirection d
    → IsDirection p.0
    → IsDirection p.1
    → IsDirection (turn axis d p).0 × IsDirection (turn axis d p).1
turn_directions axis d (x, y) hd hx hy = ground arith

module _ (os : Linux) (li : Limelight) where
  hat_next :
      (m : Mapping) (e : InputEvent) (w : Input)
      → w.dev.map ≡ some m
      → IsSound os w.dev
      → MaybeNext os (handle_hat os li m e w)
  unfolding handle_hat
  hat_next m e w mapped s =
      let i = hat_index os li e.code in
      elim (Option-cases (get_elem? w.dev.hats_state i)) [
        | inl gone ↦ rw (gone, handle_hat) _
        | inr (old, at) ↦
            let new = turn (hat_dir_index os li e.code) (direction e.value) old in
            let both = directions_at w.dev.hats_state i old.0 old.1 s.directions at in
            let turned =
              turn_directions (hat_dir_index os li e.code) (direction e.value) old
                (direction-IsDirection e.value) both.0 both.1 in
            elim (Option-cases (hat_constant new)) [
              | inl gone ↦ rw (at, gone, handle_hat) _
              | inr (hat, here) ↦
                  rw (at, here, handle_hat)
                    (
                      record {
                        keys = s.keys;
                        axes = s.axes;
                        hats = length-set w.dev.hats_state i new ∙ s.hats;
                        directions =
                            directions-set w.dev.hats_state i new.0 new.1 s.directions turned.0
                              turned.1;
                        divisible = record {
                          x = s.divisible.x;
                          y = s.divisible.y;
                          rx = s.divisible.rx;
                          ry = s.divisible.ry;
                          z = s.divisible.z;
                          rz = s.divisible.rz;
                          left = s.divisible.left;
                          right = s.divisible.right;
                          up = s.divisible.up;
                          down = s.divisible.down;
                        };
                        unmapped = λ n. cc;
                      },
                      λ n. cc,
                    )
            ]
      ]

  axis_next :
      (w : Input) (m : Mapping) (o : Option (Bool × Device))
      → w.dev.map ≡ some m
      → IsSound os w.dev
      → AllFrame (frame w.dev) o
      → MaybeNext os (o >>= λ s. some (fall s.0 (record w { dev = s.1 })))
  axis_next w m none mapped s h = _
  axis_next w m (some (b, d)) mapped s h = (
    frame-IsSound os w.dev d h s,
    λ n. let gone : none ≡ some m = sym n ∙ ap (λ p. p.map) h ∙ mapped in cc,
  )

  mapped_next :
      (m : Mapping) (e : InputEvent) (w : Input)
      → w.dev.map ≡ some m
      → IsSound os w.dev
      → MaybeNext os (handle_mapped os li m e w)
  unfolding handle_mapped
  mapped_next m e w mapped s = elim (Option-cases (get_elem? w.dev.abs_map e.code)) [
    | inl gone ↦ rw (gone, handle_mapped) _
    | inr (index, at) ↦
        rw (at, handle_mapped)
          (if_MaybeNext os (is_hat os li e.code) _ _ (λ h. hat_next m e w mapped s)
            (λ h. axis_next w m _ mapped s (axis_frame li m index e w.dev)))
  ]

  pub abs_next :
      (e : InputEvent) (w : Input) → IsSound os w.dev → MaybeNext os (handle_abs os li e w)
  unfolding handle_abs
  abs_next e w s =
      if_MaybeNext os (ltb os.abs_max e.code) _ _ (λ h. s)
        (λ h.
          if_MaybeNext os w.dev.is_touchscreen _ _
            (λ h. (frame-IsSound os w.dev _ (touch_axis_kept os li e w.dev) s, λ n. refl))
            (λ h. elim (Option-cases w.dev.map) [
              | inl gone ↦ rw gone (s, λ n. refl)
              | inr (m, mapped) ↦ rw mapped (mapped_next m e w mapped s)
            ]))
