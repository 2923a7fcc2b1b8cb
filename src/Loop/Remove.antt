-- ===== src/Loop/Remove.antt =====
-- What `loop_remove_fd` of src/loop.c removes.
use moonlight_allwinner_h.Prelude.{
  ℕ, suc, ◌+◌, ◌-◌, ◌≡◌, refl, inl, inr, Bool, true, false, Bool-cases, List, [], ◌∷◌, some, arith,
  if◌then◌else◌, length, get_elem?,
}
use moonlight_allwinner_h.Prelude.Int.{ℤ, eqb_ℤ}
use moonlight_allwinner_h.Prelude.Removal.{count, remove_at}
use moonlight_allwinner_h.Loop.{Entry, fd_index, loop_remove_fd}

module _ {H : Type 0} where
  -- Whether a descriptor is in the table.
  abbrev pub knows : ℤ → List (Entry H) → Bool
  knows fd [] = false
  knows fd (e ∷ es) = if eqb_ℤ e.fd fd then true else knows fd es

  -- A descriptor that is known is found.
  fd_index-found :
      (fd : ℤ) (other : ℕ) (es : List (Entry H)) (i : ℕ)
      → knows fd es ≡ true
      → (j : ℕ) × (e : Entry H) × (fd_index fd other es i ≡ i + j)
        × (get_elem? es j ≡ some e)
        × (eqb_ℤ e.fd fd ≡ true)
  unfolding fd_index
  fd_index-found fd other [] i h = cc
  fd_index-found fd other (e ∷ es) i h = elim (Bool-cases (eqb_ℤ e.fd fd)) [
    | inl same ↦ (0, e, rw same (omega arith), refl, same)
    | inr apart ↦
        let known : knows fd es ≡ true = rw apart at h in
        let (j, e2, at, here, same) = fd_index-found fd other es (i + 1) known in
        (suc j, e2, rw apart (omega arith), here, same)
  ]

  known_length :
      (fd : ℤ) (es : List (Entry H)) → knows fd es ≡ true → length es ≡ suc (length es - 1)
  known_length fd [] h = cc
  known_length fd (e ∷ es) h = omega arith

  -- Removing a descriptor that is in the table removes one entry of that descriptor and keeps all
  -- others, each as often as before, with its events and its handler.
  pub remove_known :
      (fd : ℤ) (es : List (Entry H))
      → knows fd es ≡ true
      → (e : Entry H) × (eqb_ℤ e.fd fd ≡ true)
        × ((q : Entry H → Bool)
            → count q (loop_remove_fd fd es) + (if q e then 1 else 0) ≡ count q es)
  unfolding loop_remove_fd
  remove_known fd es h =
      let last = length es - 1 in
      let (j, e, at, here, same) = fd_index-found fd last es 0 h in
      let start : fd_index fd last es 0 ≡ j = omega (arith, at) in
      (e, same, λ q. rw start (remove_at q es last j (known_length fd es h) here))
