-- ===== src/Gamestream/Pair.antt =====
-- Pairing: `gs_unpair` and `gs_pair` of libgamestream/client.c.
use moonlight_allwinner_h.Prelude.{
  ℕ, ◌*◌, ◌/◌, Bool, true, not, List, ◌∷◌, ◌++◌, Option, none, some, leb, ltb, if◌then◌else◌,
  length, take, drop,
}
use moonlight_allwinner_h.Prelude.Int.{ℤ, pos, ltb_ℤ, eqb_ℤ}
use moonlight_allwinner_h.Gamestream.Text.{Text, codes, text_eq, bytes_to_hex, hex_to_bytes}
use moonlight_allwinner_h.Gamestream.Server.{
  gs_ok, gs_failed, gs_out_of_memory, gs_invalid, gs_wrong_state, is_ok, Server, Request,
  get_server_cert, client_challenge, server_challenge_resp, client_pairing_secret, pair_challenge,
  unpair, Reply, Session, Host, Step, jump, go, M, ◌>>=◌, ◌>>◌, pure, guard, get_server, put_server,
}

-- OpenSSL, and the random bytes of one pairing. `sha` is SHA-256 for `true` and SHA-1 for `false`;
-- `response_rest` and `hash_rest` are what two buffers hold beyond what is written there.
pub record Crypto : Type 0 where
  pub salt_data : List ℕ
  pub challenge_data : List ℕ
  pub client_secret_data : List ℕ
  pub response_rest : List ℕ
  pub hash_rest : List ℕ
  pub cert_signature : List ℕ
  pub sha : Bool → List ℕ → List ℕ
  pub encrypt : List ℕ → List ℕ → List ℕ
  pub decrypt : List ℕ → List ℕ → List ℕ
  pub verify_signature : List ℕ → List ℕ → List ℕ → Bool
  pub sign_it : List ℕ → Option (List ℕ)
  pub odd_hex : Text → ℕ

module _ (host : Host) where
  -- `http_request`; the answer is kept for the reader to test.
  unfoldable pub ask : Request → M Reply
  ask q s = (go (host s.sent q), record s { sent = q ∷ s.sent })

  -- `http_create_data` may fail; then nothing is sent.
  unfoldable pub gs_unpair : Bool → Session → ℤ × Session
  gs_unpair alloc s =
      if alloc
      then ((host s.sent unpair).code, record s { sent = unpair ∷ s.sent })
      else (gs_out_of_memory, s)

  -- A request and the tests after it: its code, `ret = xml_status(…) != GS_OK`, the field `paired`.
  unfoldable pub stage : Request → M Reply
  stage q = do
    r ← ask q
    guard (is_ok r.code) r.code
    guard (is_ok r.status) (pos 1)
    guard (is_ok (r.search (codes "paired")).0) (r.search (codes "paired")).0
    guard (text_eq (r.search (codes "paired")).1 (codes "1")) gs_failed
    pure r

  -- The end of `gs_pair` from `cleanup`; the test on the game comes after the frees.
  unfoldable pub cleanup : Bool → Step (Unit {0}) × Session → ℤ × Session
  cleanup alloc (go tt, s) = (gs_ok, s)
  cleanup alloc (jump ret, s) = if is_ok ret then (ret, s) else (
    if eqb_ℤ s.server.current_game (pos 0) then ret else gs_wrong_state,
    (gs_unpair alloc s).1,
  )

  module _ (c : Crypto) where
    abbrev pub sha256 : Server → Bool
    sha256 v = not (ltb_ℤ v.server_major_version (pos 7))

    abbrev pub hash_length : Server → ℕ
    hash_length v = if sha256 v then 32 else 20

    -- the key from the salt and the PIN
    abbrev pub aes_key : Server → Text → List ℕ
    aes_key v pin = c.sha (sha256 v) (c.salt_data ++ take 4 pin)

    -- the 64 bytes that are decrypted; the 65th byte that an answer of 129 characters has is written
    -- past the array, and not modelled
    abbrev pub response_data : List ℕ → Text → List ℕ
    response_data key answer =
        c.decrypt key (take 64 (hex_to_bytes c.odd_hex answer (length answer) ++ c.response_rest))

    -- the 32 bytes that are encrypted
    abbrev pub response_hash : Server → List ℕ → Text → List ℕ
    response_hash v key answer = take 32 (
        c.sha (sha256 v) (
          take 16 (drop (hash_length v) (response_data key answer))
          ++ (c.cert_signature ++ c.client_secret_data))
        ++ c.hash_rest)

    -- a text as bytes, without an odd last character
    abbrev pub whole_bytes : Text → List ℕ
    whole_bytes t = hex_to_bytes c.odd_hex t (length t / 2 * 2)

    abbrev pub sign_step : M (List ℕ)
    sign_step = elim (c.sign_it c.client_secret_data) [
      | none ↦ λ s. (jump gs_failed, s)
      | some b ↦ pure b
    ]

    -- The host's certificate, the challenge, and the host's proof that it knows the PIN.
    unfoldable pub prove_host : Server → Text → M (Unit {0})
    prove_host v pin = do
      r1 ← stage (get_server_cert (bytes_to_hex c.salt_data))
      guard (is_ok (r1.search (codes "plaincert")).0) (r1.search (codes "plaincert")).0
      let plaincert = whole_bytes (r1.search (codes "plaincert")).1
      let key = aes_key v pin
      r2 ← stage (client_challenge (bytes_to_hex (c.encrypt key c.challenge_data)))
      guard (is_ok (r2.search (codes "challengeresponse")).0) gs_invalid
      let answer = (r2.search (codes "challengeresponse")).1
      guard (leb (length answer / 2) 64) gs_failed
      r3 ← stage (server_challenge_resp (bytes_to_hex (c.encrypt key (response_hash v key answer))))
      guard (is_ok (r3.search (codes "pairingsecret")).0) gs_invalid
      let secret = whole_bytes (r3.search (codes "pairingsecret")).1
      guard (ltb 16 (length (r3.search (codes "pairingsecret")).1 / 2)) gs_invalid
      guard (c.verify_signature (take 16 secret) (drop 16 secret) plaincert) gs_failed

    -- The client's proof, and the last request, on the encrypted port.
    unfoldable pub prove_client : M (Unit {0})
    prove_client = do
      signature ← sign_step
      r4 ← stage (client_pairing_secret (bytes_to_hex (c.client_secret_data ++ signature)))
      r5 ← stage pair_challenge
      v ← get_server
      put_server (record v { paired = true })

    -- `gs_pair`, the flags being whether `http_create_data` succeeds here and in `gs_unpair`
    unfoldable pub gs_pair : Bool → Bool → Text → Session → ℤ × Session
    gs_pair alloc unpair_alloc pin s =
        if s.server.paired
        then cleanup unpair_alloc (jump gs_wrong_state, s)
        else if alloc
        then cleanup unpair_alloc ((prove_host s.server pin >> prove_client) s)
        else (gs_out_of_memory, s)
