-- ===== src/Gamestream/App.antt =====
-- Applications: `gs_applist`, `gs_start_app` and `gs_quit_app` of libgamestream/client.c.
use moonlight_allwinner_h.Prelude.{
  ℕ, Bool, false, not, List, [], ◌∷◌, some, ltb, ◌==◌, ◌||◌, ◌&&◌, if◌then◌else◌,
}
use moonlight_allwinner_h.Prelude.Int.{ℤ, pos, eqb_ℤ}
use moonlight_allwinner_h.Gamestream.Text.{Text, codes, text_eq}
use moonlight_allwinner_h.Gamestream.Server.{
  gs_ok, gs_failed, gs_out_of_memory, gs_invalid, gs_io_error, gs_not_supported_mode, gs_error,
  is_ok, Mode, app_list, start, cancel, Reply, Session, Host, M, ◌>>=◌, ◌>>◌, pure, guard,
  get_server, put_server,
}
use moonlight_allwinner_h.Gamestream.Pair.{ask}
use moonlight_allwinner_h.Gamestream.Info.{ending}

-- The loop over the host's modes, which goes on after a match.
unfoldable pub has_mode : ℕ → ℕ → ℕ → List Mode → Bool
has_mode width height fps [] = false
has_mode width height fps (m ∷ ms) =
    (m.width == width && m.height == height && m.refresh == fps) || has_mode width height fps ms

-- The frame rate that is asked for.
unfoldable pub sent_fps : Bool → ℕ → ℕ
sent_fps nvidia fps = if nvidia && ltb 60 fps then 0 else fps

-- `xml_search` of one field, or else of another
unfoldable pub search_either : Reply → Text → Text → ℤ × Text
search_either r name other = if is_ok (r.search name).0 then r.search name else r.search other

module _ (host : Host) where
  -- `gs_applist`; `applist` is the code of `xml_applist`.
  unfoldable pub gs_applist : (Reply → ℤ) → Bool → Session → ℤ × Session
  gs_applist applist alloc s =
      if alloc
      then ending (
          (do
            r ← ask host app_list
            guard (is_ok r.code) gs_io_error
            guard (not (eqb_ℤ r.status gs_error)) gs_error
            guard (is_ok (applist r)) gs_invalid
            pure gs_ok)
            s)
      else (gs_out_of_memory, s)

  -- What `gs_start_app` reads from the answer.
  unfoldable pub read_start : Reply → M ℤ
  read_start r = do
    guard (is_ok r.status) r.status
    let found = search_either r (codes "gamesession") (codes "resume")
    guard (is_ok found.0) found.0
    guard (not (text_eq found.1 (codes "0"))) gs_failed
    v ← get_server
    let url = r.search (codes "sessionUrl0")
    put_server (if is_ok url.0 then record v { rtsp_session_url = some url.1 } else v)
    pure gs_ok

  -- `gs_start_app` of an application and the configured width, height and frame rate
  unfoldable pub gs_start_app : Bool → ℤ → ℕ → ℕ → ℕ → Session → ℤ × Session
  gs_start_app alloc app_id width height fps s =
      if not (has_mode width height fps s.server.modes) && not s.server.unsupported
      then (gs_not_supported_mode, s)
      else if alloc
      then ending (
          (do
            r ← ask host (
                start (not (eqb_ℤ s.server.current_game (pos 0))) app_id width height
                  (sent_fps s.server.is_nvidia_software fps))
            guard (is_ok r.code) r.code
            v ← get_server
            put_server (record v { current_game = app_id })
            read_start r)
            s)
      else (gs_out_of_memory, s)

  unfoldable pub gs_quit_app : Bool → Session → ℤ × Session
  gs_quit_app alloc s =
      if alloc
      then ending (
          (do
            r ← ask host cancel
            guard (is_ok r.code) r.code
            guard (is_ok r.status) r.status
            guard (is_ok (r.search (codes "cancel")).0) (r.search (codes "cancel")).0
            guard (not (text_eq (r.search (codes "cancel")).1 (codes "0"))) gs_failed
            pure gs_ok)
            s)
      else (gs_out_of_memory, s)
