-- ===== src/Evdev/Quit/Session.antt =====
-- When the loop of src/input/evdev.c that reads a device ends the session.
use moonlight_allwinner_h.Prelude.{
  ◌≡◌, ◌⊎◌, inl, inr, Bool, true, false, List, [], ◌∷◌, some, Bool-cases, >>=-eq-some,
  some-injective, ap, if◌then◌else◌,
}
use moonlight_allwinner_h.Evdev.Host.{Linux, Limelight}
use moonlight_allwinner_h.Evdev.Device.{InputEvent}
use moonlight_allwinner_h.Evdev.Output.{Input, Answer}
use moonlight_allwinner_h.Evdev.Event.{evdev_handle_event}
use moonlight_allwinner_h.Evdev.Read.{Read, sync, success, other_status, read_events}
use moonlight_allwinner_h.Evdev.Quit.{
  IsCombination, HoldsFour, Combined, Because, Ends, event_reason,
}

if_true : (b : Bool) → b ≡ true → (x y : Answer) {v : Answer} → (if b then x else y) ≡ v → x ≡ v
if_true true h x y e = e
if_true false h x y e = absurd cc

if_false : (b : Bool) → b ≡ false → (x y : Answer) {v : Answer} → (if b then x else y) ≡ v → y ≡ v
if_false true h x y e = absurd cc
if_false false h x y e = e

contradiction : {A : Type 0} → true ≡ false → A
contradiction h = absurd cc

module _ (os : Linux) (li : Limelight) where
  -- What the end of a run tells of the run.
  abbrev Ended : List Read → Input → Input → Type 0
  Ended reads w w' =
      HoldsFour li w' ⊎ ((w'.dev.modifiers ≡ 0) × ((w.waiting ≡ true) ⊎ Combined os li reads w))

  -- An event before a run that ended.
  earlier :
      (e : InputEvent) (rest : List Read) (w w' : Input) (r : Bool × Input)
      → evdev_handle_event os li e w ≡ some r
      → Because os li e.type e w.waiting r.1
      → Ended rest r.1 w'
      → Ended (success e ∷ rest) w w'
  earlier e rest w w' r run why (inl four) = inl four
  earlier e rest w w' r run why (inr (free, inr later)) = inr (free, inr (r, run, inr later))
  earlier e rest w w' r run why (inr (free, inl waits)) = inr (free, from (why waits))
    where
      from :
          (w.waiting ≡ true) ⊎ IsCombination os li e.type e r.1
          → (w.waiting ≡ true) ⊎ Combined os li (success e ∷ rest) w
      from (inl waited) = inl waited
      from (inr combination) = inr (r, run, inl combination)

  -- The event that ended the run.
  last_event :
      (e : InputEvent) (rest : List Read) (w w' : Input) (r : Bool × Input)
      → evdev_handle_event os li e w ≡ some r
      → Because os li e.type e w.waiting r.1
      → Ends os li r.1
      → r.1 ≡ w'
      → Ended (success e ∷ rest) w w'
  last_event e rest w w' r run why (inl four) same = inl (rw same at four)
  last_event e rest w w' r run why (inr (waits, free)) same =
      earlier e rest w w' r run why (inr (rw same at free, inl waits))

  ran :
      (reads : List Read) (w w' : Input)
      → read_events (evdev_handle_event os li) reads w ≡ some (false, w')
      → Ended reads w w'
  unfolding read_events
  ran [] w w' h =
      let same : (true, w) ≡ (false, w') = some-injective h in
      let never : true ≡ false = ap {B = Bool} (λ (r : Bool × Input). r.0) same in
      contradiction never
  ran (sync ∷ rest) w w' h = ran rest w w' h
  ran (other_status ∷ rest) w w' h = ran rest w w' h
  ran (success e ∷ rest) w w' h =
      let (r, run, after) =
        >>=-eq-some (evdev_handle_event os li e w)
          (λ x. if x.0 then read_events (evdev_handle_event os li) rest x.1 else some (false, x.1))
          h in
      let (why, ends) = event_reason os li e w r run in
      elim (Bool-cases r.0) [
        | inl on ↦
            let next : read_events (evdev_handle_event os li) rest r.1 ≡ some (false, w') =
              if_true r.0 on _ _ after in
            earlier e rest w w' r run why (ran rest r.1 w' next)
        | inr stop ↦
            let last : (false, r.1) ≡ (false, w') = some-injective (if_false r.0 stop _ _ after) in
            last_event e rest w w' r run why (ends stop) (ap (λ (x : Bool × Input). x.1) last)
      ]

  fresh_run :
      (reads : List Read) (w w' : Input)
      → w.waiting ≡ false
      → Ended reads w w'
      → HoldsFour li w' ⊎ ((w'.dev.modifiers ≡ 0) × Combined os li reads w)
  fresh_run reads w w' fresh (inl four) = inl four
  fresh_run reads w w' fresh (inr (free, inl waits)) = absurd cc
  fresh_run reads w w' fresh (inr (free, inr combined)) = inr (free, combined)

  -- Where the loop that reads a device ends the session, started while it did not wait for the
  -- modifiers to be released, the four quit buttons of the device are held, or no modifier is held
  -- and one of the events that were read was the quit combination.
  pub session-Quits :
      (reads : List Read) (w w' : Input)
      → w.waiting ≡ false
      → read_events (evdev_handle_event os li) reads w ≡ some (false, w')
      → HoldsFour li w' ⊎ ((w'.dev.modifiers ≡ 0) × Combined os li reads w)
  session-Quits reads w w' fresh h = fresh_run reads w w' fresh (ran reads w w' h)
