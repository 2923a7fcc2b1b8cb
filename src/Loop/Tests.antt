-- ===== src/Loop/Tests.antt =====
-- Runs of the model of src/loop.c.
use moonlight_allwinner_h.Prelude.{ℕ, ◌+◌, ◌≡◌, refl, Bool, true, List, [], ◌∷◌, if◌then◌else◌}
use moonlight_allwinner_h.Prelude.Int.{pos, eqb_ℤ}
use moonlight_allwinner_h.Loop.{Entry, loop_remove_fd, fd_index}
use moonlight_allwinner_h.Prelude.Removal.{count}
use moonlight_allwinner_h.Loop.Remove.{remove_known}

-- Three descriptors; the handlers are numbers.
abbrev three : List (Entry ℕ)
three =
    record { fd = pos 4; events = 1; handler = 0 }
    ∷ record { fd = pos 5; events = 1; handler = 1 }
    ∷ record { fd = pos 6; events = 1; handler = 2 }
    ∷ []

-- The last entry takes the place of the one removed.
remove_first :
    loop_remove_fd (pos 4) three
    ≡ record { fd = pos 6; events = 1; handler = 2 }
      ∷ record { fd = pos 5; events = 1; handler = 1 }
      ∷ []
unfolding loop_remove_fd fd_index
remove_first = refl

remove_known_example :
    (e : Entry ℕ) × (eqb_ℤ e.fd (pos 5) ≡ true)
    × ((q : Entry ℕ → Bool)
        → count q (loop_remove_fd (pos 5) three) + (if q e then 1 else 0) ≡ count q three)
remove_known_example = remove_known (pos 5) three refl
