-- ===== src/Gamestream/Status.antt =====
-- What `load_server_status` of libgamestream/client.c guarantees.
use moonlight_allwinner_h.Prelude.{
  ℕ, ◌+◌, ◌≤◌, ◌≡◌, refl, ap, ◌⊎◌, inl, inr, Bool, true, false, Bool-cases, ◌∷◌, arith, length,
  ◌==◌,
}
use moonlight_allwinner_h.Prelude.Int.{ℤ, ltb_ℤ}
use moonlight_allwinner_h.Gamestream.Server.{
  gs_out_of_memory, is_ok, Server, Request, server_info, Session, Host, Step, jump, go, ◌>>=◌, ◌>>◌,
  guard,
}
use moonlight_allwinner_h.Gamestream.Pair.{ask}
use moonlight_allwinner_h.Gamestream.Info.{
  ending, load_serverinfo, check_version, retry, load_server_status, min_supported_gfe_version,
  max_supported_gfe_version,
}
use moonlight_allwinner_h.Gamestream.Reads.{
  HasPort, After, then-Reads, guard-Reads, Reads-at, read_info-Reads,
}

module _ (host : Host) where
  unfoldable pub Outcome : Session → ℤ × Session → Type 0
  Outcome s (ret, s') =
      (length s'.sent ≤ length s.sent + 1) × ((is_ok ret ≡ false) ⊎ HasPort s'.server)

  ending-Outcome :
      (s : Session) (q : Request) (r : Step ℤ × Session)
      → After HasPort (q ∷ s.sent) r
      → Outcome s (ending r)
  unfolding Outcome ending After
  ending-Outcome s q (jump e, s1) (bad, asked) = (omega (arith, ap length asked), inl bad)
  ending-Outcome s q (go e, s1) (asked, port) = (omega (arith, ap length asked), inr port)

  oom-Outcome : (s : Session) → Outcome s (gs_out_of_memory, s)
  unfolding Outcome
  oom-Outcome s = (omega arith, inl refl)

  load_serverinfo-Outcome :
      (alloc https : Bool) (s : Session) → Outcome s (load_serverinfo host alloc https s)
  unfolding load_serverinfo ◌>>=◌ ◌>>◌ ask
  load_serverinfo-Outcome true https s = ending-Outcome s (server_info https) _ (
      Reads-at HasPort _ _ (
        then-Reads HasPort (guard _ _) _ (guard-Reads _ _ refl)
          (then-Reads HasPort (guard _ _) _ (guard-Reads _ _ refl) (read_info-Reads host _))))
  load_serverinfo-Outcome false https s = oom-Outcome s

  -- Two requests at most after the first, and what success means.
  unfoldable pub Twice : Session → ℤ × Session → Type 0
  Twice s (ret, s') =
      (length s'.sent ≤ length s.sent + 2) × ((is_ok ret ≡ false) ⊎ HasPort s'.server)

  retry-Twice :
      (alloc : ℕ → Bool) (s : Session) (r : ℤ × Session)
      → Outcome s r
      → Twice s (retry host alloc r)
  unfolding retry Outcome Twice
  retry-Twice alloc s (ret, s1) h = elim (Bool-cases (is_ok ret)) [
    | inl good ↦ rw good (omega (arith, h.0), h.1)
    | inr bad ↦
        let o = load_serverinfo-Outcome (alloc 2) false s1 in rw bad (omega (arith, h.0, o.0), o.1)
  ]

  -- The supported versions.
  abbrev pub Supported : Server → Type 0
  Supported v =
      (ltb_ℤ max_supported_gfe_version v.server_major_version ≡ false)
      × (ltb_ℤ v.server_major_version min_supported_gfe_version ≡ false)

  check_version-ok :
      (r : ℤ × Session)
      → is_ok (check_version host r).0 ≡ true
      → (is_ok r.0 ≡ true) × ((r.1.server.unsupported ≡ true) ⊎ Supported r.1.server)
  unfolding check_version
  check_version-ok (ret, s) h = ground arith

  check_version-session : (r : ℤ × Session) → (check_version host r).1 ≡ r.1
  unfolding check_version
  check_version-session (ret, s) = ground arith

  check_version-fails :
      (r : ℤ × Session) → is_ok r.0 ≡ false → is_ok (check_version host r).0 ≡ false
  unfolding check_version
  check_version-fails (ret, s) h = ground arith

  -- the part of `load_server_status` after the first request
  status_rest :
      (alloc : ℕ → Bool) (s s1 : Session)
      → length s1.sent ≤ length s.sent + 1
      → let r = check_version host (retry host alloc (load_serverinfo host (alloc 1) true s1)) in
        (length r.1.sent ≤ length s.sent + 3)
        × ((is_ok r.0 ≡ false)
            ⊎ (HasPort r.1.server × ((r.1.server.unsupported ≡ true) ⊎ Supported r.1.server)))
  unfolding Twice
  status_rest alloc s s1 h =
      let x = retry host alloc (load_serverinfo host (alloc 1) true s1) in
      let t =
        retry-Twice alloc s1 (load_serverinfo host (alloc 1) true s1)
          (load_serverinfo-Outcome (alloc 1) true s1) in
      rw (check_version-session x) (
        omega (arith, t.0),
        elim t.1 [
          | inl bad ↦ inl (check_version-fails x bad)
          | inr port ↦ elim (Bool-cases (is_ok (check_version host x).0)) [
            | inl good ↦ inr (port, (check_version-ok x good).1)
            | inr bad ↦ inl bad
          ]
        ],
      )

  -- Loading the server's status sends three requests at most. It fails, or the https port is known
  -- and the version is a supported one unless the caller allows unsupported ones.
  pub status_sound :
      (alloc : ℕ → Bool) (s : Session)
      → let r = load_server_status host alloc s in
        (length r.1.sent ≤ length s.sent + 3)
        × ((is_ok r.0 ≡ false)
            ⊎ (HasPort r.1.server × ((r.1.server.unsupported ≡ true) ⊎ Supported r.1.server)))
  unfolding load_server_status Outcome
  status_sound alloc s =
      let first = load_serverinfo-Outcome (alloc 0) false s in
      elim (Bool-cases (s.server.https_port == 0)) [
        | inr known ↦ rw known (status_rest alloc s s (omega arith))
        | inl unknown ↦ elim (Bool-cases (is_ok (load_serverinfo host (alloc 0) false s).0)) [
          | inl good ↦
              rw (unknown, good)
                (status_rest alloc s (load_serverinfo host (alloc 0) false s).1 first.0)
          | inr bad ↦ rw (unknown, bad) (omega (arith, first.0), inl bad)
        ]
      ]
