-- ===== src/Gamestream/Tests.antt =====
-- Runs of the model of libgamestream/client.c against a host that accepts everything and against
-- one that refuses.
use moonlight_allwinner_h.Prelude.{
  ◌+◌, ◌*◌, ◌≤◌, ◌≡◌, ◌⊎◌, refl, Bool, true, false, List, [], ◌∷◌, ◌++◌, none, some, arith, length,
  if◌then◌else◌, replicate,
}
use moonlight_allwinner_h.Prelude.Int.{pos, eqb_ℤ}
use moonlight_allwinner_h.Gamestream.Text.{Text, codes, text_eq, bytes_to_hex, hex_to_bytes}
use moonlight_allwinner_h.Gamestream.Server.{
  gs_ok, gs_failed, gs_wrong_state, is_ok, Server, Mode, Request, Session, Host, unpair, guard,
  ◌>>=◌, ◌>>◌,
}
use moonlight_allwinner_h.Gamestream.Pair.{
  Crypto, gs_pair, ask, stage, cleanup, prove_host, prove_client,
}
use moonlight_allwinner_h.Gamestream.Info.{load_server_status}
use moonlight_allwinner_h.Gamestream.App.{has_mode, gs_start_app}
use moonlight_allwinner_h.Gamestream.Hex.{hex_round_trip}
use moonlight_allwinner_h.Gamestream.Pairing.{pair_succeeds, pair_fails}
use moonlight_allwinner_h.Gamestream.Exchange.{HostProof, ClientProof}
use moonlight_allwinner_h.Gamestream.Reads.{HasPort}
use moonlight_allwinner_h.Gamestream.Status.{Supported, status_sound}
use moonlight_allwinner_h.Gamestream.Launch.{start_request, start_app_sound}

-- `xml_search` of an answer in which `paired` is 1, the host's secret is 17 bytes long, and every
-- other field is 7.
abbrev found : Text → Text
found name =
    if text_eq name (codes "paired")
    then codes "1"
    else if text_eq name (codes "pairingsecret")
    then replicate 34 b'0'
    else codes "7"

abbrev mode : Mode
mode = record { width = 1280; height = 720; refresh = 60 }

abbrev accepting : Host
accepting asked q = record {
  code = gs_ok;
  status = gs_ok;
  search = λ name. (gs_ok, found name);
  modelist = (gs_ok, mode ∷ []);
}

abbrev refusing : Host
refusing asked q = record {
  code = gs_failed;
  status = gs_ok;
  search = λ name. (gs_ok, []);
  modelist = (gs_ok, []);
}

abbrev server : Bool → Server
server paired = record {
  gpu_type = [];
  paired = paired;
  unsupported = false;
  is_nvidia_software = true;
  current_game = pos 0;
  server_major_version = pos 7;
  gs_version = [];
  modes = mode ∷ [];
  app_version = [];
  gfe_version = [];
  codec_mode_support = pos 0;
  rtsp_session_url = none;
  http_port = 47989;
  https_port = 0;
}

abbrev session : Session
session = record { server = server false; sent = [] }

abbrev crypto : Crypto
crypto = record {
  salt_data = replicate 16 1;
  challenge_data = replicate 16 2;
  client_secret_data = replicate 16 3;
  response_rest = replicate 64 0;
  hash_rest = replicate 32 0;
  cert_signature = 9 ∷ [];
  sha = λ wide bytes. replicate 32 4;
  encrypt = λ key bytes. bytes;
  decrypt = λ key bytes. bytes;
  verify_signature = λ bytes signature cert. true;
  sign_it = λ bytes. some (5 ∷ []);
  odd_hex = λ t. 0;
}

hex_round_trip_example :
    hex_to_bytes (λ t. 0) (bytes_to_hex (0 ∷ 171 ∷ 255 ∷ []) ++ codes "zz") (3 * 2)
    ≡ 0 ∷ 171 ∷ 255 ∷ []
hex_round_trip_example =
    hex_round_trip (λ t. 0) (0 ∷ 171 ∷ 255 ∷ []) (codes "zz")
      (omega arith, (omega arith, (omega arith, tt)))

-- the session at the end of a pairing
abbrev paired_session : Session
paired_session = (gs_pair accepting crypto true true (codes "1234") session).1

pair_run : (gs_pair accepting crypto true true (codes "1234") session).0 ≡ gs_ok
unfolding gs_pair cleanup ◌>>◌ ◌>>=◌ prove_host stage ask guard text_eq prove_client
pair_run = refl

pair_run_whole : gs_pair accepting crypto true true (codes "1234") session ≡ (gs_ok, paired_session)
pair_run_whole = cc pair_run

pair_succeeds_example :
    (false ≡ false)
    × (true ≡ true)
    × ((s1 : Session) × HostProof accepting crypto session s1
        × ClientProof accepting crypto s1 paired_session)
pair_succeeds_example =
    pair_succeeds accepting crypto true true (codes "1234") session pair_run_whole

refused_run : is_ok (gs_pair refusing crypto true true (codes "1234") session).0 ≡ false
unfolding gs_pair cleanup ◌>>◌ ◌>>=◌ prove_host stage ask guard
refused_run = refl

pair_fails_example :
    ((gs_pair refusing crypto true true (codes "1234") session).1.server ≡ server false)
    × ((asked : List Request) × ((gs_pair refusing crypto true true (codes "1234") session).1.sent
          ≡ unpair ∷ asked))
    × ((eqb_ℤ (pos 0) (pos 0) ≡ true)
        ⊎ ((gs_pair refusing crypto true true (codes "1234") session).0 ≡ gs_wrong_state))
pair_fails_example = pair_fails refusing crypto (codes "1234") session refused_run

status_sound_example :
    let r = load_server_status accepting (λ n. true) session in
    (length r.1.sent ≤ 0 + 3)
    × ((is_ok r.0 ≡ false)
        ⊎ (HasPort r.1.server × ((r.1.server.unsupported ≡ true) ⊎ Supported accepting r.1.server)))
status_sound_example = status_sound accepting (λ n. true) session

start_app_sound_example :
    let r = gs_start_app accepting true (pos 5) 1280 720 60 session in
    let q = start_request accepting (pos 5) 1280 720 60 (server false) in
    ((r.1 ≡ session) × (is_ok r.0 ≡ false))
    ⊎ (((has_mode 1280 720 60 (mode ∷ []) ≡ true) ⊎ (false ≡ true))
        × (r.1.sent ≡ q ∷ [])
        × (r.1.server.current_game ≡ (if is_ok gs_ok then pos 5 else pos 0))
        × (r.1.server.paired ≡ false))
start_app_sound_example = start_app_sound accepting true (pos 5) 1280 720 60 session
