-- ===== src/Gamestream/Pairing.antt =====
-- What `gs_pair` of libgamestream/client.c guarantees.
use moonlight_allwinner_h.Prelude.{
  ◌≡◌, ◌≢◌, refl, ap, ◌⊎◌, Bool, true, false, List, ◌∷◌, arith, if◌then◌else◌,
}
use moonlight_allwinner_h.Prelude.Int.{ℤ, pos, eqb_ℤ}
use moonlight_allwinner_h.Gamestream.Text.{Text}
use moonlight_allwinner_h.Gamestream.Server.{
  gs_ok, gs_out_of_memory, gs_wrong_state, is_ok, Server, Request, unpair, Session, Host, Step,
  jump, go, ◌>>=◌, ◌>>◌, continue-go,
}
use moonlight_allwinner_h.Gamestream.Pair.{
  Crypto, gs_unpair, cleanup, prove_host, prove_client, gs_pair,
}
use moonlight_allwinner_h.Gamestream.Keeps.{Failed, Fails}
use moonlight_allwinner_h.Gamestream.Exchange.{
  HostProof, ClientProof, prove_host-go, prove_client-go, exchange-Fails,
}

module _ (host : Host) where
  module _ (c : Crypto) where
    cleanup-go :
        (v : Server) (alloc : Bool) (r : Step (Unit {0}) × Session) {s' : Session}
        → Failed v r
        → cleanup host alloc r ≡ (gs_ok, s')
        → r ≡ (go tt, s')
    unfolding cleanup Failed
    cleanup-go v alloc (go tt, s) f h = cc h
    cleanup-go v alloc (jump e, s) (bad, same) h = ground arith

    cleanup-jump :
        (alloc : Bool) (s : Session) {s' : Session}
        → cleanup host alloc (jump gs_wrong_state, s) ≢ (gs_ok, s')
    unfolding cleanup
    cleanup-jump alloc s h = ground arith

    game-code :
        (a b e : ℤ)
        → a ≡ b
        → (eqb_ℤ b (pos 0) ≡ true)
          ⊎ ((if eqb_ℤ a (pos 0) then e else gs_wrong_state) ≡ gs_wrong_state)
    game-code a b e h = ground arith

    pair-go :
        (v : Server) (pin : Text) (s : Session) {s' : Session}
        → (prove_host host c v pin >> prove_client host c) s ≡ (go tt, s')
        → (s1 : Session) × HostProof host c s s1 × ClientProof host c s1 s'
    unfolding ◌>>◌ ◌>>=◌
    pair-go v pin s h =
        let (u, s1, e, h1) = continue-go (prove_host host c v pin s) _ h in
        (s1, prove_host-go host c v pin s e, prove_client-go host c s1 h1)

    cleanup-fails :
        (v : Server) (r : Step (Unit {0}) × Session)
        → Failed v r
        → is_ok (cleanup host true r).0 ≡ false
        → ((cleanup host true r).1.server ≡ v)
          × ((asked : List Request) × ((cleanup host true r).1.sent ≡ unpair ∷ asked))
          × ((eqb_ℤ v.current_game (pos 0) ≡ true) ⊎ ((cleanup host true r).0 ≡ gs_wrong_state))
    unfolding cleanup Failed gs_unpair
    cleanup-fails v (go tt, s) f h = ground arith
    cleanup-fails v (jump e, s) (bad, same) h = rw bad (
      same,
      (s.sent, refl),
      game-code s.server.current_game v.current_game e (ap (λ w. w.current_game) same),
    )

    -- the tests before the exchange
    pair-go-if :
        (v : Server) (pin : Text) (paired alloc unpair_alloc : Bool) (s : Session) {s' : Session}
        → (if paired
            then cleanup host unpair_alloc (jump gs_wrong_state, s)
            else if alloc
            then cleanup host unpair_alloc ((prove_host host c v pin >> prove_client host c) s)
            else (gs_out_of_memory, s))
          ≡ (gs_ok, s')
        → (paired ≡ false)
          × (alloc ≡ true)
          × (cleanup host unpair_alloc ((prove_host host c v pin >> prove_client host c) s)
              ≡ (gs_ok, s'))
    pair-go-if v pin true alloc unpair_alloc s h = absurd (cleanup-jump unpair_alloc s h)
    pair-go-if v pin false true unpair_alloc s h = (refl, refl, h)
    pair-go-if v pin false false unpair_alloc s h = cc

    -- A pairing that succeeds: the server was not paired and the buffer for the answers was there;
    -- the host accepted five requests, in this order, and the host's secret was signed with the
    -- certificate that it had sent; then the server's data say that it is paired, and nothing else
    -- of them has changed.
    pub pair_succeeds :
        (alloc unpair_alloc : Bool) (pin : Text) (s : Session) {s' : Session}
        → gs_pair host c alloc unpair_alloc pin s ≡ (gs_ok, s')
        → (s.server.paired ≡ false)
          × (alloc ≡ true)
          × ((s1 : Session) × HostProof host c s s1 × ClientProof host c s1 s')
    unfolding gs_pair Fails
    pair_succeeds alloc unpair_alloc pin s h =
        let e = pair-go-if s.server pin s.server.paired alloc unpair_alloc s h in
        (
          e.0,
          e.1,
          pair-go s.server pin s
              (cleanup-go s.server unpair_alloc _ (exchange-Fails host c s.server pin s refl) e.2),
        )

    wrong-Failed : (s : Session) → Failed {A = Unit {0}} s.server (jump gs_wrong_state, s)
    unfolding Failed
    wrong-Failed s = (refl, refl)

    -- the end of both branches
    fails-if :
        (v : Server) (paired : Bool) (r1 r2 : Step (Unit {0}) × Session)
        → Failed v r1
        → Failed v r2
        → let r = (if paired then cleanup host true r1 else cleanup host true r2) in
          is_ok r.0 ≡ false
          → (r.1.server ≡ v)
            × ((asked : List Request) × (r.1.sent ≡ unpair ∷ asked))
            × ((eqb_ℤ v.current_game (pos 0) ≡ true) ⊎ (r.0 ≡ gs_wrong_state))
    fails-if v true r1 r2 f1 f2 h = cleanup-fails v r1 f1 h
    fails-if v false r1 r2 f1 f2 h = cleanup-fails v r2 f2 h

    -- When memory can be had, a pairing that fails leaves the server's data as they were, and its
    -- last request unpairs; if a game runs, its code is that of a wrong state.
    pub pair_fails :
        (pin : Text) (s : Session)
        → is_ok (gs_pair host c true true pin s).0 ≡ false
        → ((gs_pair host c true true pin s).1.server ≡ s.server)
          × ((asked : List Request) × ((gs_pair host c true true pin s).1.sent ≡ unpair ∷ asked))
          × ((eqb_ℤ s.server.current_game (pos 0) ≡ true)
              ⊎ ((gs_pair host c true true pin s).0 ≡ gs_wrong_state))
    unfolding gs_pair Fails
    pair_fails pin s h =
        fails-if s.server s.server.paired (jump gs_wrong_state, s)
          ((prove_host host c s.server pin >> prove_client host c) s) (wrong-Failed s)
          (exchange-Fails host c s.server pin s refl) h
