-- ===== src/Loop.antt =====
-- src/loop.c: the descriptors that the program waits on, with their handlers.
pub mod Remove
mod Tests
use moonlight_allwinner_h.Prelude.{
  ℕ, zero, suc, ◌+◌, ◌-◌, Bool, not, List, [], ◌∷◌, ◌++◌, none, some, ◌&&◌, ltb, ◌==◌,
  if◌then◌else◌, length, get_elem?, set, take,
}
use moonlight_allwinner_h.Prelude.Removal.{move}
use moonlight_allwinner_h.Prelude.Int.{ℤ, eqb_ℤ}

-- `fds[i]` and `fdHandlers[i]`, which stay side by side; a handler is any value of `H`.
pub record Entry (H : Type 0) : Type 0 where
  pub fd : ℤ
  pub events : ℕ
  pub handler : H

module _ {H : Type 0} where
  unfoldable pub loop_add_fd : ℤ → H → ℕ → List (Entry H) → List (Entry H)
  loop_add_fd fd handler events es =
      es ++ (record { fd = fd; events = events; handler = handler } ∷ [])

  -- The search of `loop_remove_fd`, `other` being the index where the descriptor is unknown.
  unfoldable pub fd_index : ℤ → ℕ → List (Entry H) → ℕ → ℕ
  fd_index fd other [] i = other
  fd_index fd other (e ∷ es) i =
      let rest = fd_index fd other es (i + 1) in if eqb_ℤ e.fd fd then i else rest

  -- From a table that is not empty, as `loop_init` leaves it.
  unfoldable pub loop_remove_fd : ℤ → List (Entry H) → List (Entry H)
  loop_remove_fd fd es =
      let last = length es - 1 in
      let i = fd_index fd last es 0 in
      take last (if not (i == last) && ltb 0 last then move i last es else es)
