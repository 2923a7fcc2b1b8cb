-- ===== src/Prelude/Removal.antt =====
-- An element of an array is taken out by moving the last one to its place.
use moonlight_allwinner_h.Prelude.{
  none, ==_iff, ℕ, zero, suc, ◌+◌, ◌≡◌, ◌≢◌, inl, inr, Bool, true, Bool-cases, not, List, [], ◌∷◌,
  some, arith, ◌&&◌, ltb, ◌==◌, if◌then◌else◌, length, get_elem?, set, take, get_elem?-some,
  get_elem?-set_ne, get_elem?-lt, length-set,
}

module _ {A : Type 0} where
  -- the entry at `last` over the one at `i`
  abbrev pub move : ℕ → ℕ → List A → List A
  move i last es = elim (get_elem? es last) [ none ↦ es | some e ↦ set es i e ]

  -- How many elements pass a test.
  abbrev pub count : (A → Bool) → List A → ℕ
  count q [] = 0
  count q (e ∷ es) = (if q e then 1 else 0) + count q es

  count-set :
      (q : A → Bool) (es : List A) (i : ℕ) {old : A} (new : A)
      → get_elem? es i ≡ some old
      → count q (set es i new) + (if q old then 1 else 0) ≡ count q es + (if q new then 1 else 0)
  count-set q [] i new h = cc
  count-set q (e ∷ es) zero new h = ground arith
  count-set q (e ∷ es) (suc i) new h = omega (arith, count-set q es i new h)

  count-take :
      (q : A → Bool) (es : List A) (last : ℕ) {e : A}
      → length es ≡ suc last
      → get_elem? es last ≡ some e
      → count q (take last es) + (if q e then 1 else 0) ≡ count q es
  count-take q [] last n h = cc
  count-take q (e ∷ []) zero n h = ground arith
  count-take q (e ∷ e2 ∷ es) zero n h = absurd (omega arith)
  count-take q (e ∷ es) (suc last) n h = omega (arith, count-take q es last (omega arith) h)

  move-last :
      (q : A → Bool) (es : List A) (last i : ℕ) {e : A}
      → length es ≡ suc last
      → i ≢ last
      → get_elem? es i ≡ some e
      → count q (take last (move i last es)) + (if q e then 1 else 0) ≡ count q es
  move-last q es last i n apart here =
      let (end, at) = get_elem?-some es last (omega (arith, n)) in
      let still =
        count-take q (set es i end) last {e = end} (omega (arith, n, length-set es i end))
          (rw (get_elem?-set_ne es end apart) at) in
      rw (at, move) (omega (arith, still, count-set q es i end here))

  -- Taking out the element at an index, with the last one in its place, keeps all others.
  pub remove_at :
      (q : A → Bool) (es : List A) (last i : ℕ) {e : A}
      → length es ≡ suc last
      → get_elem? es i ≡ some e
      → count q (take last (if not (i == last) && ltb 0 last then move i last es else es))
          + (if q e then 1 else 0)
        ≡ count q es
  remove_at q es last i {e} n here = elim (Bool-cases (i == last)) [
    | inl same ↦
        let at : get_elem? es last ≡ some e = rw (← (==_iff i last).0 same) here in
        rw same (count-take q es last n at)
    | inr apart ↦
        let inside = get_elem?-lt es i here in
        let ne : i ≢ last = λ eq. ground arith in
        let some_left : ltb 0 last ≡ true = ground arith in
        rw (apart, some_left) (move-last q es last i n ne here)
  ]
