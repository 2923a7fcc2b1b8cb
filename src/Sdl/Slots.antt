-- ===== src/Sdl/Slots.antt =====
-- The slots of the table of game controllers in src/input/sdl.c, one by one.
use moonlight_allwinner_h.Prelude.{
  ℕ, zero, suc, ◌+◌, ◌≡◌, ◌≢◌, refl, ◌⊎◌, inl, inr, Bool, true, false, Bool-cases, Option-cases,
  both_of, List, [], ◌∷◌, none, some, arith, ◌&&◌, if◌then◌else◌, get_elem?, set, ap,
  some-injective,
}
use moonlight_allwinner_h.Prelude.Int.{ℤ, eqb_ℤ}
use moonlight_allwinner_h.Sdl.Pads.{Gamepad, find_id, find_free}

-- Whether slot `i` is in use, as 0 or 1.
abbrev pub used : List Gamepad → ℕ → ℕ
used [] i = 0
used (g ∷ gs) zero = if g.initialized then 1 else 0
used (g ∷ gs) (suc i) = used gs i

-- How many slots are in use.
abbrev pub used_count : List Gamepad → ℕ
used_count [] = 0
used_count (g ∷ gs) = (if g.initialized then 1 else 0) + used_count gs

-- Whether a controller with this instance is in the table.
unfoldable pub is_known : ℤ → List Gamepad → Bool
is_known sdl_id gs = elim (find_id sdl_id gs) [ none ↦ false | some i ↦ true ]

pub used-get :
    (gs : List Gamepad) (i : ℕ) {g : Gamepad}
    → get_elem? gs i ≡ some g
    → used gs i ≡ (if g.initialized then 1 else 0)
used-get [] i h = cc
used-get (g ∷ gs) zero h = cc
used-get (g ∷ gs) (suc i) h = used-get gs i h

pub used-set_ne :
    (gs : List Gamepad) (i j : ℕ) (v : Gamepad) → (i ≢ j) → used (set gs i v) j ≡ used gs j
used-set_ne [] i j v h = refl
used-set_ne (g ∷ gs) zero zero v h = absurd (h refl)
used-set_ne (g ∷ gs) zero (suc j) v h = refl
used-set_ne (g ∷ gs) (suc i) zero v h = refl
used-set_ne (g ∷ gs) (suc i) (suc j) v h = used-set_ne gs i j v (λ e. h (ap suc e))

pub used_count-set :
    (gs : List Gamepad) (i : ℕ) (v : Gamepad) {g : Gamepad}
    → get_elem? gs i ≡ some g
    → used_count (set gs i v) + (if g.initialized then 1 else 0)
      ≡ used_count gs + (if v.initialized then 1 else 0)
used_count-set [] i v h = cc
used_count-set (g ∷ gs) zero v h = ground arith
used_count-set (g ∷ gs) (suc i) v h = omega (arith, used_count-set gs i v h)

-- What stands in the table after a write: the new gamepad, or an old one of another slot.
pub set_inversion :
    (gs : List Gamepad) (i j : ℕ) (v : Gamepad) {g : Gamepad}
    → get_elem? (set gs i v) j ≡ some g
    → ((i ≡ j) × (v ≡ g)) ⊎ ((i ≢ j) × (get_elem? gs j ≡ some g))
set_inversion [] i j v h = cc
set_inversion (g ∷ gs) zero zero v h = inl (refl, some-injective h)
set_inversion (g ∷ gs) zero (suc j) v h = inr ((λ e. omega arith), h)
set_inversion (g ∷ gs) (suc i) zero v h = inr ((λ e. omega arith), h)
set_inversion (g ∷ gs) (suc i) (suc j) v h = elim (set_inversion gs i j v h) [
  | inl (e, p) ↦ inl (ap suc e, p)
  | inr (ne, p) ↦ inr ((λ e. ne (omega arith)), p)
]

-- The search finds a gamepad in use with the id.
pub find_id-some :
    (sdl_id : ℤ) (gs : List Gamepad) {i : ℕ}
    → find_id sdl_id gs ≡ some i
    → (g : Gamepad) × (get_elem? gs i ≡ some g)
      × (g.initialized ≡ true)
      × (eqb_ℤ g.sdl_id sdl_id ≡ true)
unfolding find_id
find_id-some sdl_id [] h = cc
find_id-some sdl_id (g ∷ gs) {i} h = elim (Bool-cases (g.initialized && eqb_ℤ g.sdl_id sdl_id)) [
  | inl hit ↦
      let here : some 0 ≡ some i = rw hit at h in
      let at = some-injective here in
      let (u, q) = both_of g.initialized (eqb_ℤ g.sdl_id sdl_id) hit in (g, rw (← at) refl, u, q)
  | inr miss ↦ elim (Option-cases (find_id sdl_id gs)) [
    | inl gone ↦ let no : none ≡ some i = rw (miss, gone) at h in cc
    | inr (j, found) ↦
        let here : some (suc j) ≡ some i = rw (miss, found) at h in
        let at = some-injective here in
        let (x, p, u, q) = find_id-some sdl_id gs found in (x, rw (← at) p, u, q)
  ]
]

-- It finds nothing only where no gamepad in use has the id.
pub find_id-none :
    (sdl_id : ℤ) (gs : List Gamepad)
    → find_id sdl_id gs ≡ none
    → (i : ℕ) {g : Gamepad} → get_elem? gs i ≡ some g
    → g.initialized ≡ true
    → eqb_ℤ g.sdl_id sdl_id ≡ false
unfolding find_id
find_id-none sdl_id [] h i p u = cc
find_id-none sdl_id (g ∷ gs) h zero p u = ground arith
find_id-none sdl_id (g ∷ gs) h (suc i) p u = find_id-none sdl_id gs (ground arith) i p u

pub find_free-some :
    (gs : List Gamepad) {i : ℕ}
    → find_free gs ≡ some i
    → (g : Gamepad) × (get_elem? gs i ≡ some g) × (g.initialized ≡ false)
unfolding find_free
find_free-some [] h = cc
find_free-some (g ∷ gs) {i} h = elim (Bool-cases g.initialized) [
  | inl busy ↦ elim (Option-cases (find_free gs)) [
    | inl gone ↦ let no : none ≡ some i = rw (busy, gone) at h in cc
    | inr (j, found) ↦
        let here : some (suc j) ≡ some i = rw (busy, found) at h in
        let at = some-injective here in
        let (x, p, q) = find_free-some gs found in (x, rw (← at) p, q)
  ]
  | inr idle ↦
      let here : some 0 ≡ some i = rw idle at h in
      let at = some-injective here in (g, rw (← at) refl, idle)
]
