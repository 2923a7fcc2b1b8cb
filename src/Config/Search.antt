-- ===== src/Config/Search.antt =====
-- What get_path and the bitrate table of src/config.c compute.
use moonlight_allwinner_h.Prelude.{
  ℕ, zero, suc, ◌+◌, ◌≤◌, ◌≡◌, refl, Bool-cases, inl, inr, List, [], ◌∷◌, Option, some,
  some-injective, arith, ◌==◌, length, length-append, get_elem?, ◌^◌, ◌-◌,
}
use moonlight_allwinner_h.Prelude.Int.{pos, to_int-eq_self, ℤ, negsuc, ◌≤ℤ◌, ◌*ℤ◌}
use moonlight_allwinner_h.Gamestream.Text.{Text}
use moonlight_allwinner_h.Config.Types.{Config, System}
use moonlight_allwinner_h.Config.Path.{segments, data_dirs, data_dirs_size, path_size, candidate}
use moonlight_allwinner_h.Config.Defaults.{base_bitrate, set_bitrate}

segments-head : (t : Text) → (s : Text) × (more : List Text) × (segments t ≡ s ∷ more)
unfolding segments
segments-head [] = ([], [], refl)
segments-head (c ∷ t) = elim (Bool-cases (c == b':')) [
  | inl colon ↦ ([], segments t, rw colon refl)
  | inr other ↦ let (s, more, e) = segments-head t in (c ∷ s, more, rw (other, e) refl)
]

-- A bound on all segments, kept by a new empty one and by one more byte of the first.
abbrev AllWithin : ℕ → List Text → Type 0
AllWithin n ss = (i : ℕ) (dir : Text) → get_elem? ss i ≡ some dir → length dir ≤ n

new_segment : (n : ℕ) (ss : List Text) → AllWithin n ss → AllWithin (suc n) ([] ∷ ss)
new_segment n ss all zero dir h = rw (← some-injective h) (omega arith)
new_segment n ss all (suc i) dir h = omega (arith, all i dir h)

longer_segment :
    (n c : ℕ) (s : Text) (ss : List Text) → AllWithin n (s ∷ ss) → AllWithin (suc n) ((c ∷ s) ∷ ss)
longer_segment n c s ss all zero dir h = rw (← some-injective h) (omega (arith, all 0 s refl))
longer_segment n c s ss all (suc i) dir h = omega (arith, all (suc i) dir h)

only_empty : AllWithin 0 ([] ∷ [])
only_empty zero dir h = rw (← some-injective h) (omega arith)
only_empty (suc i) dir h = cc

segments-AllWithin : (t : Text) → AllWithin (length t) (segments t)
unfolding segments
segments-AllWithin [] = only_empty
segments-AllWithin (c ∷ t) = elim (Bool-cases (c == b':')) [
  | inl colon ↦ rw colon (new_segment (length t) (segments t) (segments-AllWithin t))
  | inr other ↦
      let (s, more, e) = segments-head t in
      let all : AllWithin (length t) (s ∷ more) = rw e at (segments-AllWithin t) in
      rw (other, e) (longer_segment (length t) c s more all)
]

length-candidate :
    (first : ℕ) (dir name : Text)
    → length (candidate first dir name) ≤ length dir + 11 + length name
unfolding candidate
length-candidate first dir name = elim (Bool-cases (first == b'/')) [
  | inl slash ↦ rw slash (grind (arith, length-append))
  | inr other ↦ rw other (grind (arith, length-append))
]

length-data_dirs :
    (sys : System) (extra : Option Text)
    → length (data_dirs sys extra) + 1 ≡ data_dirs_size sys extra
unfolding data_dirs data_dirs_size
length-data_dirs sys extra = grind (arith, length-append)

-- get_path writes no byte past the end of its two buffers: the list of directories fills the first
-- one exactly, and every path that it tries fits the second one.
pub get_path_fits :
    (sys : System) (extra : Option Text) (name : Text) (first i : ℕ) (dir : Text)
    → get_elem? (segments (data_dirs sys extra)) i ≡ some dir
    → (length (data_dirs sys extra) + 1 ≡ data_dirs_size sys extra)
      × (length (candidate first dir name) + 1 ≤ path_size sys extra name)
unfolding path_size
get_path_fits sys extra name first i dir h = (
  length-data_dirs sys extra,
  omega (arith, length-candidate first dir name, segments-AllWithin (data_dirs sys extra) i dir h),
)

base_bitrate_mono : (p q : ℤ) → p ≤ℤ q → base_bitrate p ≤ base_bitrate q
unfolding base_bitrate
base_bitrate_mono p q le = ground arith

-- Where the bitrate is left open, `double` keeps the order of the table's rates, and the products of
-- the sides are values of an int, a picture of at least as many pixels at the same rate of frames
-- never gets a smaller bitrate.
pub set_bitrate_mono :
    (sys : System) (c d : Config)
    → ((a b : ℕ) → a ≤ b → sys.scale_bitrate a c.fps ≤ℤ sys.scale_bitrate b c.fps)
    → c.bitrate ≡ negsuc 0
    → d.bitrate ≡ negsuc 0
    → c.fps ≡ d.fps
    → negsuc (2 ^ 31 - 1) ≤ℤ c.width *ℤ c.height
    → c.width *ℤ c.height ≤ℤ d.width *ℤ d.height
    → d.width *ℤ d.height ≤ℤ pos (2 ^ 31 - 1)
    → (set_bitrate sys c).bitrate ≤ℤ (set_bitrate sys d).bitrate
unfolding set_bitrate
set_bitrate_mono sys c d mono open_c open_d same low le high =
    let exact_c = to_int-eq_self (c.width *ℤ c.height) low (omega (arith, le, high)) in
    let exact_d = to_int-eq_self (d.width *ℤ d.height) (omega (arith, low, le)) high in
    rw (open_c, open_d, ← same, exact_c, exact_d)
      (mono _ _ (base_bitrate_mono (c.width *ℤ c.height) (d.width *ℤ d.height) le))
