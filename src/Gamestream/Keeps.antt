-- ===== src/Gamestream/Keeps.antt =====
-- Actions of libgamestream/client.c that leave the server's data alone, and the stages of a pairing
-- among them.
use moonlight_allwinner_h.Prelude.{◌≡◌, refl, Bool, true, false, ◌∷◌, arith, ◌&&◌}
use moonlight_allwinner_h.Prelude.Int.{ℤ}
use moonlight_allwinner_h.Gamestream.Text.{codes, text_eq}
use moonlight_allwinner_h.Gamestream.Server.{
  is_ok, Server, Request, Reply, Session, Host, Step, jump, go, M, ◌>>=◌, ◌>>◌, guard, continue,
  continue-go,
}
use moonlight_allwinner_h.Gamestream.Pair.{ask, stage}

-- A failure that leaves the server's data alone.
unfoldable pub Failed : {A : Type 0} → Server → Step A × Session → Type 0
Failed v (jump e, s) = (is_ok e ≡ false) × (s.server ≡ v)
Failed v (go a, s) = Unit {0}

-- Success leaves them alone too.
unfoldable pub Quiet : {A : Type 0} → Server → Step A × Session → Type 0
Quiet v (jump e, s) = (is_ok e ≡ false) × (s.server ≡ v)
Quiet v (go a, s) = s.server ≡ v

-- An answer that passes the tests after a request.
abbrev pub accepted : Reply → Bool
accepted r =
    is_ok r.code
    && (is_ok r.status
        && (is_ok (r.search (codes "paired")).0
            && text_eq (r.search (codes "paired")).1 (codes "1")))

-- An action that only fails in that way, from the server's data `v` on.
unfoldable pub Keeps : {A : Type 0} → Server → M A → Type 0
Keeps v m = (s : Session) → s.server ≡ v → Quiet v (m s)

unfoldable pub Fails : {A : Type 0} → Server → M A → Type 0
Fails v m = (s : Session) → s.server ≡ v → Failed v (m s)

continue-Quiet :
    {A B : Type 0} (v : Server) (r : Step A × Session) (f : A → M B)
    → Quiet v r
    → ((a : A) → Keeps v (f a))
    → Quiet v (continue r f)
unfolding Keeps Quiet
continue-Quiet v (jump e, s) f h k = h
continue-Quiet v (go a, s) f h k = k a s h

continue-Failed :
    {A B : Type 0} (v : Server) (r : Step A × Session) (f : A → M B)
    → Quiet v r
    → ((a : A) → Fails v (f a))
    → Failed v (continue r f)
unfolding Fails Quiet Failed
continue-Failed v (jump e, s) f h k = h
continue-Failed v (go a, s) f h k = k a s h

pub bind-Keeps :
    {A B : Type 0} (v : Server) (m : M A) (f : A → M B)
    → Keeps v m
    → ((a : A) → Keeps v (f a))
    → Keeps v (m >>= f)
unfolding Keeps Quiet ◌>>=◌
bind-Keeps v m f hm hf s h = continue-Quiet v (m s) f (hm s h) hf

pub bind-Fails :
    {A B : Type 0} (v : Server) (m : M A) (f : A → M B)
    → Keeps v m
    → ((a : A) → Fails v (f a))
    → Fails v (m >>= f)
unfolding Keeps Fails Quiet Failed ◌>>=◌
bind-Fails v m f hm hf s h = continue-Failed v (m s) f (hm s h) hf

pub then-Keeps :
    {B : Type 0} (v : Server) (m : M (Unit {0})) (k : M B)
    → Keeps v m
    → Keeps v k
    → Keeps v (m >> k)
unfolding ◌>>◌
then-Keeps v m k hm hk = bind-Keeps v m _ hm (λ a. hk)

pub then-Fails :
    {B : Type 0} (v : Server) (m : M (Unit {0})) (k : M B)
    → Keeps v m
    → Fails v k
    → Fails v (m >> k)
unfolding ◌>>◌
then-Fails v m k hm hk = bind-Fails v m _ hm (λ a. hk)

pub guard-Keeps :
    (v : Server) (b : Bool) (e : ℤ) → (b ≡ false → is_ok e ≡ false) → Keeps v (guard b e)
unfolding Keeps Quiet guard
guard-Keeps v true e h s k = k
guard-Keeps v false e h s k = (h refl, k)

module _ (host : Host) where
  pub stage-Keeps : (v : Server) (q : Request) → Keeps v (stage host q)
  unfolding Keeps Quiet stage ask guard ◌>>◌ ◌>>=◌
  stage-Keeps v q s h = ground arith

  stage-go :
      (q : Request) (s : Session) {r : Reply} {s' : Session}
      → stage host q s ≡ (go r, s')
      → (r ≡ host s.sent q)
        × (s' ≡ record s { sent = q ∷ s.sent })
        × (accepted (host s.sent q) ≡ true)
  unfolding stage ask guard ◌>>◌ ◌>>=◌
  stage-go q s h = ground arith

  -- Inversion of a chain that a stage starts.
  pub stage-then :
      {B : Type 0} (q : Request) (s : Session) (f : Reply → M B) {x : B} {s' : Session}
      → continue (stage host q s) f ≡ (go x, s')
      → (accepted (host s.sent q) ≡ true)
        × (f (host s.sent q) (record s { sent = q ∷ s.sent }) ≡ (go x, s'))
  stage-then q s f h =
      let (r, s1, e, h1) = continue-go (stage host q s) f h in
      let (q1, t1, a) = stage-go q s e in (a, cc (q1, t1, h1))

pub guard-go :
    {B : Type 0} (b : Bool) (e : ℤ) (s : Session) (f : Unit {0} → M B) {x : B} {s' : Session}
    → continue (guard b e s) f ≡ (go x, s')
    → (b ≡ true) × (f tt s ≡ (go x, s'))
unfolding guard
guard-go true e s f h = (refl, h)
guard-go false e s f h = cc

pub guard-end :
    (b : Bool) (e : ℤ) (s : Session) {x : Unit {0}} {s' : Session}
    → guard b e s ≡ (go x, s')
    → (b ≡ true) × (s ≡ s')
unfolding guard
guard-end true e s h = (refl, cc)
guard-end false e s h = cc
