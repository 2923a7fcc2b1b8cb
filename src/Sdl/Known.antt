-- ===== src/Sdl/Known.antt =====
-- The controllers that src/input/sdl.c knows, as a set of instances: what an event does to the set.
use moonlight_allwinner_h.Prelude.{
  ℕ, zero, suc, ◌≡◌, refl, inl, inr, Bool, true, false, Bool-cases, List, [], ◌∷◌, some, arith,
  ◌&&◌, ◌||◌, not, get_elem?, set, some-injective,
}
use moonlight_allwinner_h.Prelude.Int.{ℤ, eqb_ℤ}
use moonlight_allwinner_h.Sdl.Pads.{Gamepad, find_id}
use moonlight_allwinner_h.Sdl.Slots.{is_known}
use moonlight_allwinner_h.Sdl.Table.{IsFresh}

known_cons :
    (id : ℤ) (g : Gamepad) (gs : List Gamepad)
    → is_known id (g ∷ gs) ≡ ((g.initialized && eqb_ℤ g.sdl_id id) || is_known id gs)
unfolding find_id is_known
known_cons id g gs = ground arith

eqb_apart : (a b c : ℤ) → eqb_ℤ a b ≡ true → eqb_ℤ c a ≡ false → eqb_ℤ c b ≡ false
eqb_apart a b c p q = ground arith

eqb_other : (a b c : ℤ) → eqb_ℤ a c ≡ true → eqb_ℤ a b ≡ false → eqb_ℤ b c ≡ false
eqb_other a b c p q = ground arith

and_true : (k : Bool) → k ≡ (k && true)
and_true k = ground arith

and_spread :
    (b e k f : Bool)
    → (b ≡ true → e ≡ true → f ≡ false)
    → ((b && e) || (k && not f)) ≡ (((b && e) || k) && not f)
and_spread true true k f h = rw (h refl refl) refl
and_spread true false k f h = refl
and_spread false e k f h = refl

or_swap : (k e : Bool) → (e || k) ≡ (k || e)
or_swap k e = ground arith

-- A write that keeps use and instance of a slot.
pub known-write :
    (id : ℤ) (gs : List Gamepad) (i : ℕ) (v : Gamepad) {g : Gamepad}
    → get_elem? gs i ≡ some g
    → v.initialized ≡ g.initialized
    → v.sdl_id ≡ g.sdl_id
    → is_known id (set gs i v) ≡ is_known id gs
known-write id [] i v here u q = cc
known-write id (x ∷ gs) zero v {g} here u q =
    let e : x ≡ g = some-injective here in rw (e, known_cons id v gs, known_cons id g gs, u, q) refl
known-write id (x ∷ gs) (suc i) v here u q =
    ground (arith, known_cons id x gs, known_cons id x (set gs i v), known-write id gs i v here u q)

-- A free slot that is taken.
pub known-take :
    (id : ℤ) (gs : List Gamepad) (i : ℕ) (v : Gamepad) {g : Gamepad}
    → get_elem? gs i ≡ some g
    → g.initialized ≡ false
    → v.initialized ≡ true
    → is_known id (set gs i v) ≡ (is_known id gs || eqb_ℤ v.sdl_id id)
known-take id [] i v here u q = cc
known-take id (x ∷ gs) zero v {g} here u q =
    let e : x ≡ g = some-injective here in
    rw (e, known_cons id v gs, known_cons id g gs, u, q)
      (or_swap (is_known id gs) (eqb_ℤ v.sdl_id id))
known-take id (x ∷ gs) (suc i) v here u q =
    ground (arith, known_cons id x gs, known_cons id x (set gs i v), known-take id gs i v here u q)

not_known :
    (id : ℤ) (gs : List Gamepad)
    → ((j : ℕ) (h : Gamepad)
        → get_elem? gs j ≡ some h
        → h.initialized ≡ true
        → eqb_ℤ h.sdl_id id ≡ false)
    → is_known id gs ≡ false
unfolding find_id is_known
not_known id [] all = refl
not_known id (x ∷ gs) all =
    let rest = not_known id gs (λ j h. all (suc j) h) in
    elim (Bool-cases x.initialized) [
      | inl busy ↦ rw (known_cons id x gs, busy, all 0 x refl busy) rest
      | inr idle ↦ rw (known_cons id x gs, idle) rest
    ]

-- A slot in use that is given back.
pub known-free :
    (id : ℤ) (gs : List Gamepad) (i : ℕ) (v : Gamepad) {g : Gamepad}
    → get_elem? gs i ≡ some g
    → g.initialized ≡ true
    → v.initialized ≡ false
    → IsFresh gs i g.sdl_id
    → is_known id (set gs i v) ≡ (is_known id gs && not (eqb_ℤ g.sdl_id id))
known-free id [] i v here u q fresh = cc
known-free id (x ∷ gs) zero v {g} here u q fresh =
    let e : x ≡ g = some-injective here in
    elim (Bool-cases (eqb_ℤ g.sdl_id id)) [
      | inl same ↦
          let rest = not_known id gs (λ j h at busy.
            eqb_apart g.sdl_id id h.sdl_id same
              (fresh (suc j) h (λ e. omega (arith, e)) at busy)) in
          rw (e, known_cons id v gs, known_cons id g gs, u, q, same) rest
      | inr apart ↦
          rw (e, known_cons id v gs, known_cons id g gs, u, q, apart) (and_true (is_known id gs))
    ]
known-free id (x ∷ gs) (suc i) v {g} here u q fresh =
    let rest =
      known-free id gs i v {g = g} here u q
        (λ j h ne at busy. fresh (suc j) h (λ e. ne (omega (arith, e))) at busy) in
    rw (known_cons id x (set gs i v), known_cons id x gs, rest)
      (and_spread x.initialized (eqb_ℤ x.sdl_id id) (is_known id gs) (eqb_ℤ g.sdl_id id)
        (λ busy same.
          eqb_other x.sdl_id g.sdl_id id same (fresh 0 x (λ e. omega (arith, e)) refl busy)))
