-- ===== src/Gamestream/Reads.antt =====
-- Reading the answer to `serverinfo` (libgamestream/client.c): it asks nothing more, and it ends with
-- the https port known.
use moonlight_allwinner_h.Prelude.{◌≡◌, refl, Bool, true, false, List, arith, ◌==◌}
use moonlight_allwinner_h.Prelude.Int.{ℤ}
use moonlight_allwinner_h.Gamestream.Text.{Text, codes, text_eq, contains, atoi}
use moonlight_allwinner_h.Gamestream.Server.{
  gs_ok, is_ok, Server, Request, Reply, Session, Host, Step, jump, go, M, ◌>>=◌, ◌>>◌, pure, guard,
  get_server, put_server, continue,
}
use moonlight_allwinner_h.Gamestream.Info.{field, current_game_of, https_port_of, read_info}

-- A server whose https port is known.
abbrev pub HasPort : Server → Type 0
HasPort v = (v.https_port == 0) ≡ false

-- The outcome of an action that asks nothing, fails with a code that says so, and ends with a
-- server for which `P` holds.
unfoldable pub After : {A : Type 0} → (Server → Type 0) → List Request → Step A × Session → Type 0
After P asked (jump e, s) = (is_ok e ≡ false) × (s.sent ≡ asked)
After P asked (go a, s) = (s.sent ≡ asked) × P s.server

unfoldable pub Reads : {A : Type 0} → (Server → Type 0) → M A → Type 0
Reads P m = (s : Session) (asked : List Request) → s.sent ≡ asked → After P asked (m s)

abbrev pub Any : Server → Type 0
Any v = Unit {0}

continue-After :
    {A B : Type 0} (P : Server → Type 0) (asked : List Request) (r : Step A × Session) (f : A → M B)
    → After Any asked r
    → ((a : A) → Reads P (f a))
    → After P asked (continue r f)
unfolding After Reads
continue-After P asked (jump e, s) f h k = h
continue-After P asked (go a, s) f h k = k a s asked h.0

bind-Reads :
    {A B : Type 0} (P : Server → Type 0) (m : M A) (f : A → M B)
    → Reads Any m
    → ((a : A) → Reads P (f a))
    → Reads P (m >>= f)
unfolding Reads ◌>>=◌
bind-Reads P m f hm hf s asked h = continue-After P asked (m s) f (hm s asked h) hf

pub then-Reads :
    {B : Type 0} (P : Server → Type 0) (m : M (Unit {0})) (k : M B)
    → Reads Any m
    → Reads P k
    → Reads P (m >> k)
unfolding ◌>>◌
then-Reads P m k hm hk = bind-Reads P m _ hm (λ a. hk)

pub guard-Reads : (b : Bool) (e : ℤ) → is_ok e ≡ false → Reads Any (guard b e)
unfolding Reads After guard
guard-Reads true e bad s asked h = (h, tt)
guard-Reads false e bad s asked h = (bad, h)

pure-Reads : {A : Type 0} (a : A) → Reads Any (pure a)
unfolding Reads After
pure-Reads a s asked h = (h, tt)

field-Reads : (r : Reply) (name : Text) → Reads Any (field r name)
field-Reads r name = then-Reads Any (guard _ _) (pure _) (guard-Reads _ _ refl) (pure-Reads _)

-- a field kept in the server's data
keep-Reads :
    {B : Type 0} (P : Server → Type 0) (f : Server → Server) (k : M B)
    → Reads P k
    → Reads P (get_server >>= λ v. (put_server (f v) >> k))
unfolding Reads ◌>>=◌ ◌>>◌
keep-Reads P f k hk s asked h = hk _ asked h

last-Reads :
    (f : Server → Server)
    → ((v : Server) → HasPort (f v))
    → Reads HasPort (get_server >>= λ v. (put_server (f v) >> pure gs_ok))
unfolding Reads After ◌>>=◌ ◌>>◌
last-Reads f hf s asked h = (h, hf s.server)

pub Reads-at :
    {A : Type 0} (P : Server → Type 0) (m : M A) (s : Session) → Reads P m → After P s.sent (m s)
unfolding Reads
Reads-at P m s h = h s s.sent refl

https_port_of-pos : (t : Text) → (https_port_of t == 0) ≡ false
unfolding https_port_of
https_port_of-pos t = ground arith

module _ (host : Host) where
  finish-Reads :
      (game paired app_version state codec_mode https_port : Text)
      → Reads HasPort (
          get_server >>= λ v6.
          (put_server (record v6 {
            paired = text_eq paired (codes "1");
            current_game = current_game_of game state;
            codec_mode_support = atoi codec_mode;
            server_major_version = atoi app_version;
            is_nvidia_software = contains (codes "MJOLNIR") state;
            https_port = https_port_of https_port;
          })
            >> pure gs_ok))
  finish-Reads game paired app_version state codec_mode https_port =
      last-Reads
        (λ v6. record v6 {
          paired = text_eq paired (codes "1");
          current_game = current_game_of game state;
          codec_mode_support = atoi codec_mode;
          server_major_version = atoi app_version;
          is_nvidia_software = contains (codes "MJOLNIR") state;
          https_port = https_port_of https_port;
        })
        (λ v. https_port_of-pos https_port)

  pub read_info-Reads : (r : Reply) → Reads HasPort (read_info host r)
  unfolding read_info
  read_info-Reads r = bind-Reads HasPort (field r _) _ (field-Reads r _) λ game.
      bind-Reads HasPort (field r _) _ (field-Reads r _) λ paired.
        bind-Reads HasPort (field r _) _ (field-Reads r _) λ app_version.
          keep-Reads HasPort (λ v. record v { app_version = app_version }) _
            (bind-Reads HasPort (field r _) _ (field-Reads r _) λ state.
              bind-Reads HasPort (field r _) _ (field-Reads r _) λ codec_mode.
                bind-Reads HasPort (field r _) _ (field-Reads r _) λ gpu_type.
                  keep-Reads HasPort (λ v. record v { gpu_type = gpu_type }) _
                    (bind-Reads HasPort (field r _) _ (field-Reads r _) λ gs_version.
                      keep-Reads HasPort (λ v. record v { gs_version = gs_version }) _
                        (bind-Reads HasPort (field r _) _ (field-Reads r _) λ gfe_version.
                          keep-Reads HasPort (λ v. record v { gfe_version = gfe_version }) _
                            (bind-Reads HasPort (field r _) _ (field-Reads r _) λ https_port.
                              then-Reads HasPort (guard _ _) _ (guard-Reads _ _ refl) (
                                keep-Reads HasPort (λ v. record v { modes = r.modelist.1 }) _
                                  (then-Reads HasPort (guard _ _) _ (guard-Reads _ _ refl) (
                                    finish-Reads game paired app_version state codec_mode
                                      https_port)))))))
