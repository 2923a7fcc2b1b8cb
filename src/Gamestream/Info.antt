-- ===== src/Gamestream/Info.antt =====
-- What the host says of itself: `load_serverinfo`, `load_server_status` and the part of `gs_init`
-- of libgamestream/client.c that fills the server's data.
use moonlight_allwinner_h.Prelude.{
  ℕ, ◌-◌, ◌%◌, Bool, true, false, not, [], ◌∷◌, ◌==◌, ◌||◌, ◌&&◌, if◌then◌else◌,
}
use moonlight_allwinner_h.Prelude.Int.{ℤ, pos, negsuc, ltb_ℤ, eqb_ℤ}
use moonlight_allwinner_h.Gamestream.Text.{Text, codes, text_eq, contains, atoi}
use moonlight_allwinner_h.Gamestream.Server.{
  gs_ok, gs_out_of_memory, gs_invalid, gs_io_error, gs_unsupported_version, gs_error, is_ok,
  server_info, Reply, Session, Host, Step, jump, go, M, ◌>>=◌, ◌>>◌, pure, guard, get_server,
  put_server,
}
use moonlight_allwinner_h.Gamestream.Pair.{ask}

abbrev pub min_supported_gfe_version : ℤ
min_supported_gfe_version = pos 3

abbrev pub max_supported_gfe_version : ℤ
max_supported_gfe_version = pos 7

-- `xml_search` into a variable, and the jump when it fails
abbrev pub field : Reply → Text → M Text
field r name = do guard (is_ok (r.search name).0) gs_invalid; pure (r.search name).1

abbrev pub is_empty : Text → Bool
is_empty [] = true
is_empty (c ∷ t) = false

-- An `int` kept in an `unsigned short`.
abbrev pub to_port : ℤ → ℕ
to_port (pos n) = n % 65536
to_port (negsuc n) = 65535 - n % 65536

-- `cleanup` of `load_serverinfo` gives `ret` back.
unfoldable pub ending : Step ℤ × Session → ℤ × Session
ending (jump ret, s) = (ret, s)
ending (go ret, s) = (ret, s)

-- `httpsPort`, which falls back on the usual one
unfoldable pub https_port_of : Text → ℕ
https_port_of t = let port = to_port (atoi t) in if port == 0 then 47984 else port

-- The game that runs, if the host says that it streams.
unfoldable pub current_game_of : Text → Text → ℤ
current_game_of game state = if contains (codes "_SERVER_BUSY") state then atoi game else pos 0

module _ (host : Host) where
  -- The answer read field by field; a field before the one that fails is kept, as in the source.
  unfoldable pub read_info : Reply → M ℤ
  read_info r = do
    game ← field r (codes "currentgame")
    paired ← field r (codes "PairStatus")
    app_version ← field r (codes "appversion")
    v1 ← get_server
    put_server (record v1 { app_version = app_version })
    state ← field r (codes "state")
    codec_mode ← field r (codes "ServerCodecModeSupport")
    gpu_type ← field r (codes "gputype")
    v2 ← get_server
    put_server (record v2 { gpu_type = gpu_type })
    gs_version ← field r (codes "GsVersion")
    v3 ← get_server
    put_server (record v3 { gs_version = gs_version })
    gfe_version ← field r (codes "GfeVersion")
    v4 ← get_server
    put_server (record v4 { gfe_version = gfe_version })
    https_port ← field r (codes "HttpsPort")
    guard (is_ok r.modelist.0) gs_invalid
    v5 ← get_server
    put_server (record v5 { modes = r.modelist.1 })
    guard (not (is_empty game || is_empty paired || is_empty app_version || is_empty state))
        gs_invalid
    v6 ← get_server
    put_server (record v6 {
      paired = text_eq paired (codes "1");
      current_game = current_game_of game state;
      codec_mode_support = atoi codec_mode;
      server_major_version = atoi app_version;
      is_nvidia_software = contains (codes "MJOLNIR") state;
      https_port = https_port_of https_port;
    })
    pure gs_ok

  unfoldable pub load_serverinfo : Bool → Bool → Session → ℤ × Session
  load_serverinfo alloc https s =
      if alloc
      then ending (
          (do
            r ← ask host (server_info https)
            guard (is_ok r.code) gs_io_error
            guard (not (eqb_ℤ r.status gs_error)) gs_error
            read_info r)
            s)
      else (gs_out_of_memory, s)

  -- The test on the version after a successful request.
  unfoldable pub check_version : ℤ × Session → ℤ × Session
  check_version (ret, s) =
      if is_ok ret && not s.server.unsupported
      then if ltb_ℤ max_supported_gfe_version s.server.server_major_version
          || ltb_ℤ s.server.server_major_version min_supported_gfe_version
        then (gs_unsupported_version, s)
        else (ret, s)
      else (ret, s)

  -- The loop of at most two requests, over https and then over http.
  unfoldable pub retry : (ℕ → Bool) → ℤ × Session → ℤ × Session
  retry alloc (ret, s) = if is_ok ret then (ret, s) else load_serverinfo (alloc 2) false s

  -- `alloc` is whether `http_create_data` succeeds, by the number of the call.
  unfoldable pub load_server_status : (ℕ → Bool) → Session → ℤ × Session
  load_server_status alloc s =
      let first =
        (if s.server.https_port == 0 then load_serverinfo (alloc 0) false s else (gs_ok, s)) in
      if is_ok first.0
      then check_version (retry alloc (load_serverinfo (alloc 1) true first.1))
      else first

  -- The end of `gs_init`, once the identifier and the certificate are loaded.
  unfoldable pub gs_init : (ℕ → Bool) → ℕ → Bool → Session → ℤ × Session
  gs_init alloc http_port unsupported s = load_server_status alloc (record s {
    server = record s.server {
      unsupported = unsupported;
      http_port = if http_port == 0 then 47989 else http_port;
      https_port = 0;
    };
  })
