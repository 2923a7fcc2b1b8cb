-- ===== src/Evdev/Safety/Axes.antt =====
-- The axes of a gamepad of src/input/evdev.c change only its sticks, its triggers and its buttons.
use moonlight_allwinner_h.Prelude.{
  ℕ, ◌≡◌, refl, ◌∙◌, Bool, true, false, Option, none, some, if◌then◌else◌, ◌>>=◌,
}
use moonlight_allwinner_h.Prelude.Int.{ℤ, eqb_ℤ}
use moonlight_allwinner_h.Evdev.Host.{Limelight}
use moonlight_allwinner_h.Evdev.Device.{Mapping, AbsParms, Device, InputEvent}
use moonlight_allwinner_h.Evdev.Abs.{byte_step, put, handle_stick, handle_axis}
use moonlight_allwinner_h.Evdev.Axis.{evdev_convert_value_byte}
use moonlight_allwinner_h.Evdev.Safety.Frame.{Frame, frame}

-- All that a chain of axis conversions leaves.
abbrev pub AllFrame : Frame → Option (Bool × Device) → Type 0
AllFrame k none = Unit {0}
AllFrame k (some s) = frame s.1 ≡ k

bind_frame :
    (k : Frame) (o : Option (Bool × Device)) (f : Bool × Device → Option (Bool × Device))
    → AllFrame k o
    → ((s : Bool × Device) → frame s.1 ≡ k → AllFrame k (f s))
    → AllFrame k (o >>= f)
bind_frame k none f h next = _
bind_frame k (some s) f h next = next s h

put-frame :
    {A : Type 0} (k : Frame) (o : Option A) (f : A → Device)
    → ((a : A) → frame (f a) ≡ k)
    → AllFrame k (put o f)
put-frame k none f h = _
put-frame k (some a) f h = h a

byte_frame :
    (k : Frame) (here : Bool) (p : AbsParms) (h : ℕ) (e : InputEvent) (f : ℕ → Device → Device)
    (s : Bool × Device)
    → ((b : ℕ) (d : Device) → frame (f b d) ≡ frame d)
    → frame s.1 ≡ k
    → AllFrame k (byte_step here p h e f s)
unfolding byte_step
byte_frame k true p h e f (m, d) keeps same =
    put-frame k (evdev_convert_value_byte p e.value h) (λ b. f b d) (λ b. keeps b d ∙ same)
byte_frame k false p h e f (m, d) keeps same = same

if_frame :
    (k : Frame) (b : Bool) (x y : Option (Bool × Device))
    → AllFrame k x
    → AllFrame k y
    → AllFrame k (if b then x else y)
if_frame k true x y p q = p
if_frame k false x y p q = q

stick_frame :
    (m : Mapping) (index : ℤ) (e : InputEvent) (d : Device)
    → AllFrame (frame d) (handle_stick m index e d)
unfolding handle_stick
stick_frame m index e d = if_frame _ (eqb_ℤ index m.abs_leftx) _ _ (put-frame _ _ _ (λ v. refl)) (
    if_frame _ (eqb_ℤ index m.abs_lefty) _ _ (put-frame _ _ _ (λ v. refl)) (
      if_frame _ (eqb_ℤ index m.abs_rightx) _ _ (put-frame _ _ _ (λ v. refl))
        (if_frame _ (eqb_ℤ index m.abs_righty) _ _ (put-frame _ _ _ (λ v. refl)) refl)))

pub axis_frame :
    (li : Limelight) (m : Mapping) (index : ℤ) (e : InputEvent) (d : Device)
    → AllFrame (frame d) (handle_axis li m index e d)
unfolding handle_axis
axis_frame li m index e d = bind_frame _ _ _ (stick_frame m index e d) λ s h.
    bind_frame _ _ _ (byte_frame _ _ _ _ e _ s (λ b d. refl) h) λ s h.
      bind_frame _ _ _ (byte_frame _ _ _ _ e _ s (λ b d. refl) h) λ s h.
        bind_frame _ _ _ (byte_frame _ _ _ _ e _ s (λ b d. refl) h) λ s h.
          bind_frame _ _ _ (byte_frame _ _ _ _ e _ s (λ b d. refl) h) λ s h.
            bind_frame _ _ _ (byte_frame _ _ _ _ e _ s (λ b d. refl) h)
              λ s h. byte_frame _ _ _ _ e _ s (λ b d. refl) h
