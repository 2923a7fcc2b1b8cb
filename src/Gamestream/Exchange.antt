-- ===== src/Gamestream/Exchange.antt =====
-- The exchange of `gs_pair` (libgamestream/client.c): what its two halves establish, and that a
-- failure leaves the server's data alone.
use moonlight_allwinner_h.Prelude.{ℕ, ◌≡◌, refl, sym, ap, true, List, ◌∷◌, arith, take, drop}
use moonlight_allwinner_h.Gamestream.Text.{Text, codes, bytes_to_hex}
use moonlight_allwinner_h.Gamestream.Server.{
  Server, get_server_cert, client_challenge, server_challenge_resp, client_pairing_secret,
  pair_challenge, Session, Host, go, M, ◌>>=◌, ◌>>◌, guard, get_server, put_server, continue,
  continue-go,
}
use moonlight_allwinner_h.Gamestream.Pair.{
  Crypto, stage, whole_bytes, prove_host, prove_client, sign_step,
}
use moonlight_allwinner_h.Gamestream.Keeps.{
  Failed, Quiet, accepted, Keeps, Fails, bind-Keeps, bind-Fails, then-Keeps, then-Fails,
  guard-Keeps, stage-Keeps, stage-then, guard-go, guard-end,
}

module _ (host : Host) where
  module _ (c : Crypto) where
    prove_host-Keeps : (v : Server) (pin : Text) → Keeps v (prove_host host c v pin)
    unfolding prove_host
    prove_host-Keeps v pin = bind-Keeps v (stage host _) _ (stage-Keeps host v _) λ r1.
        then-Keeps v (guard _ _) _ (guard-Keeps v _ _ (λ x. x)) (
          bind-Keeps v (stage host _) _ (stage-Keeps host v _) λ r2.
            then-Keeps v (guard _ _) _ (guard-Keeps v _ _ (λ x. refl)) (
              then-Keeps v (guard _ _) _ (guard-Keeps v _ _ (λ x. refl)) (
                bind-Keeps v (stage host _) _ (stage-Keeps host v _) λ r3.
                  then-Keeps v (guard _ _) _ (guard-Keeps v _ _ (λ x. refl)) (
                    then-Keeps v (guard _ _) _ (guard-Keeps v _ _ (λ x. refl))
                      (guard-Keeps v _ _ (λ x. refl))))))

    sign-Keeps : (v : Server) → Keeps v (sign_step host c)
    unfolding Keeps Quiet
    sign-Keeps v s h = ground arith

    finish-Fails :
        (v : Server) → Fails v (get_server >>= λ w. put_server (record w { paired = true }))
    unfolding Fails Failed ◌>>=◌
    finish-Fails v s h = tt

    prove_client-Fails : (v : Server) → Fails v (prove_client host c)
    unfolding prove_client
    prove_client-Fails v = bind-Fails v (sign_step host c) _ (sign-Keeps v) λ b.
        bind-Fails v (stage host _) _ (stage-Keeps host v _)
          λ r4. bind-Fails v (stage host _) _ (stage-Keeps host v _) λ r5. finish-Fails v

    -- What the first three requests have established: they were accepted, and the certificate that
    -- the host sent with the first verifies the signature of the secret that it sent with the third.
    unfoldable pub HostProof : Session → Session → Type 0
    HostProof s s' =
        let cert = get_server_cert (bytes_to_hex c.salt_data) in
        (a : Text) × (b : Text) × (s'.server ≡ s.server)
        × (s'.sent ≡ server_challenge_resp b ∷ client_challenge a ∷ cert ∷ s.sent)
        × (accepted (host s.sent cert) ≡ true)
        × (accepted (host (cert ∷ s.sent) (client_challenge a)) ≡ true)
        × (accepted (host (client_challenge a ∷ cert ∷ s.sent) (server_challenge_resp b)) ≡ true)
        × (let secret =
              whole_bytes host c
                ((host (client_challenge a ∷ cert ∷ s.sent) (server_challenge_resp b)).search
                  (codes "pairingsecret")).1 in
            c.verify_signature (take 16 secret) (drop 16 secret)
              (whole_bytes host c ((host s.sent cert).search (codes "plaincert")).1)
            ≡ true)

    pub prove_host-go :
        (v : Server) (pin : Text) (s : Session) {s' : Session}
        → prove_host host c v pin s ≡ (go tt, s')
        → HostProof s s'
    unfolding prove_host HostProof ◌>>=◌ ◌>>◌
    prove_host-go v pin s h =
        let (a1, h1) = stage-then host _ s _ h in
        let (_, h2) = guard-go _ _ _ _ h1 in
        let (a2, h3) = stage-then host _ _ _ h2 in
        let (_, h4) = guard-go _ _ _ _ h3 in
        let (_, h5) = guard-go _ _ _ _ h4 in
        let (a3, h6) = stage-then host _ _ _ h5 in
        let (_, h7) = guard-go _ _ _ _ h6 in
        let (_, h8) = guard-go _ _ _ _ h7 in
        let (signed, end) = guard-end _ _ _ h8 in
        (_, _, ap (λ w. w.server) (sym end), ap (λ w. w.sent) (sym end), a1, a2, a3, signed)

    -- The two requests after that, the second of them over https, were accepted too.
    unfoldable pub ClientProof : Session → Session → Type 0
    ClientProof s s' =
        (d : Text) × (s'.server ≡ record s.server { paired = true })
        × (s'.sent ≡ pair_challenge ∷ client_pairing_secret d ∷ s.sent)
        × (accepted (host s.sent (client_pairing_secret d)) ≡ true)
        × (accepted (host (client_pairing_secret d ∷ s.sent) pair_challenge) ≡ true)

    sign-go : (s : Session) {d : List ℕ} {s1 : Session} → sign_step host c s ≡ (go d, s1) → s1 ≡ s
    sign-go s h = ground arith

    sign-then :
        {B : Type 0} (s : Session) (f : List ℕ → M B) {x : B} {s' : Session}
        → continue (sign_step host c s) f ≡ (go x, s')
        → (d : List ℕ) × (f d s ≡ (go x, s'))
    sign-then s f h =
        let (d, s1, e, h1) = continue-go (sign_step host c s) f h in (d, cc (sign-go s e, h1))

    client-rest :
        (s : Session) (d : Text) {s' : Session}
        → continue (stage host (client_pairing_secret d) s) (λ r4.
          stage host pair_challenge >>= λ r5.
          get_server >>= λ v. put_server (record v { paired = true }))
          ≡ (go tt, s')
        → ClientProof s s'
    unfolding ClientProof ◌>>=◌
    client-rest s d h =
        let (a1, h2) = stage-then host _ s _ h in
        let (a2, h3) = stage-then host _ _ _ h2 in
        (d, ap (λ w. w.1.server) (sym h3), ap (λ w. w.1.sent) (sym h3), a1, a2)

    pub prove_client-go :
        (s : Session) {s' : Session} → prove_client host c s ≡ (go tt, s') → ClientProof s s'
    unfolding prove_client ◌>>=◌
    prove_client-go s h = let (d, h1) = sign-then s _ h in client-rest s _ h1

    pub exchange-Fails :
        (v : Server) (pin : Text) → Fails v (prove_host host c v pin >> prove_client host c)
    exchange-Fails v pin =
        then-Fails v (prove_host host c v pin) (prove_client host c) (prove_host-Keeps v pin)
          (prove_client-Fails v)
