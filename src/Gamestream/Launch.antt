-- ===== src/Gamestream/Launch.antt =====
-- What `gs_start_app` of libgamestream/client.c guarantees.
use moonlight_allwinner_h.Prelude.{ℕ, ◌≡◌, ◌⊎◌, Bool, true, false, not, ◌∷◌, arith, if◌then◌else◌}
use moonlight_allwinner_h.Prelude.Int.{ℤ, pos, eqb_ℤ}
use moonlight_allwinner_h.Gamestream.Server.{
  is_ok, Server, Request, start, Reply, Session, Host, ◌>>=◌, ◌>>◌, guard,
}
use moonlight_allwinner_h.Gamestream.Pair.{ask}
use moonlight_allwinner_h.Gamestream.Info.{ending}
use moonlight_allwinner_h.Gamestream.App.{has_mode, sent_fps, read_start, gs_start_app}

module _ (host : Host) where
  -- What reading the answer can change.
  read_start-keeps :
      (r : Reply) (s : Session)
      → ((ending (read_start host r s)).1.sent ≡ s.sent)
        × ((ending (read_start host r s)).1.server.current_game ≡ s.server.current_game)
        × ((ending (read_start host r s)).1.server.paired ≡ s.server.paired)
  unfolding read_start ending guard ◌>>=◌ ◌>>◌
  read_start-keeps r s = ground arith

  -- The request for an application.
  abbrev pub start_request : ℤ → ℕ → ℕ → ℕ → Server → Request
  start_request id w h f v =
      start (not (eqb_ℤ v.current_game (pos 0))) id w h (sent_fps v.is_nvidia_software f)

  -- Starting an application either fails and asks nothing, or sends one request, for a mode that
  -- the host has or for a host whose modes are not to be heeded; the request resumes exactly if a
  -- game runs. Then the server's data name the application as the game that runs exactly if the
  -- request got through, even where its answer is a refusal, and the pairing stays as it was.
  pub start_app_sound :
      (alloc : Bool) (id : ℤ) (w h f : ℕ) (s : Session)
      → let r = gs_start_app host alloc id w h f s in
        let q = start_request id w h f s.server in
        ((r.1 ≡ s) × (is_ok r.0 ≡ false))
        ⊎ (((has_mode w h f s.server.modes ≡ true) ⊎ (s.server.unsupported ≡ true))
            × (r.1.sent ≡ q ∷ s.sent)
            × (r.1.server.current_game
                ≡ (if is_ok (host s.sent q).code then id else s.server.current_game))
            × (r.1.server.paired ≡ s.server.paired))
  unfolding gs_start_app ending ask guard ◌>>=◌ ◌>>◌
  start_app_sound alloc id w h f s =
      let q = start_request id w h f s.server in
      let r = host s.sent q in
      ground (
        arith,
        read_start-keeps r
            (record { server = record s.server { current_game = id }; sent = q ∷ s.sent }),
      )
