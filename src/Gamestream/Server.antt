-- ===== src/Gamestream/Server.antt =====
-- What libgamestream/client.c knows of the host, what it asks and what it hears, and the chain of
-- steps that its functions are.
use moonlight_allwinner_h.Prelude.{ℕ, ◌≡◌, refl, Bool, true, false, List, Option}
use moonlight_allwinner_h.Prelude.Int.{ℤ, pos, negsuc, eqb_ℤ}
use moonlight_allwinner_h.Gamestream.Text.{Text}

-- errors.h
abbrev pub gs_ok : ℤ
gs_ok = pos 0

abbrev pub gs_failed : ℤ
gs_failed = negsuc 0

abbrev pub gs_out_of_memory : ℤ
gs_out_of_memory = negsuc 1

abbrev pub gs_invalid : ℤ
gs_invalid = negsuc 2

abbrev pub gs_wrong_state : ℤ
gs_wrong_state = negsuc 3

abbrev pub gs_io_error : ℤ
gs_io_error = negsuc 4

abbrev pub gs_unsupported_version : ℤ
gs_unsupported_version = negsuc 6

abbrev pub gs_not_supported_mode : ℤ
gs_not_supported_mode = negsuc 7

abbrev pub gs_error : ℤ
gs_error = negsuc 8

abbrev pub is_ok : ℤ → Bool
is_ok ret = eqb_ℤ ret gs_ok

-- `struct _DISPLAY_MODE`, and the list by its elements
pub record Mode : Type 0 where
  pub width : ℕ
  pub height : ℕ
  pub refresh : ℕ

-- `struct _SERVER_DATA`
pub record Server : Type 0 where
  pub gpu_type : Text
  pub paired : Bool
  pub unsupported : Bool
  pub is_nvidia_software : Bool
  pub current_game : ℤ
  pub server_major_version : ℤ
  pub gs_version : Text
  pub modes : List Mode
  pub app_version : Text
  pub gfe_version : Text
  pub codec_mode_support : ℤ
  pub rtsp_session_url : Option Text
  pub http_port : ℕ
  pub https_port : ℕ

-- The requests by the part of their address that differs; `true` is https.
pub data Request : Type 0 where
  server_info : Bool → Request
  get_server_cert : Text → Request
  client_challenge : Text → Request
  server_challenge_resp : Text → Request
  client_pairing_secret : Text → Request
  pair_challenge : Request
  unpair : Request
  app_list : Request
  -- resume or launch, the application, the mode and the frame rate sent
  start : Bool → ℤ → ℕ → ℕ → ℕ → Request
  cancel : Request

-- An answer: the code of `http_request`, and what `xml_status`, `xml_search` and `xml_modelist` make
-- of its body.
pub record Reply : Type 0 where
  pub code : ℤ
  pub status : ℤ
  pub search : Text → ℤ × Text
  pub modelist : ℤ × List Mode

-- The state of a session: the server's data, and the requests so far, newest first.
pub record Session : Type 0 where
  pub server : Server
  pub sent : List Request

-- The host answers by all that it was asked before.
abbrev pub Host : Type 0
Host = List Request → Request → Reply

-- A step ends with a value, or jumps to `cleanup` with `ret`.
pub data Step {ℓ} (A : Type ℓ) : Type ℓ where
  jump : ℤ → Step A
  go : A → Step A

abbrev pub M {ℓ} : Type ℓ → Type ℓ
M A = Session → Step A × Session

abbrev pub continue : {A B : Type 0} → Step A × Session → (A → M B) → Step B × Session
continue (jump e, s) f = (jump e, s)
continue (go a, s) f = f a s

infixl 5 ◌>>=◌ ◌>>◌
unfoldable pub ◌>>=◌ : {A B : Type 0} → M A → (A → M B) → M B
◌>>=◌ m f s = continue (m s) f

unfoldable pub ◌>>◌ : {B : Type 0} → M (Unit {0}) → M B → M B
m >> k = m >>= λ _. k

abbrev pub pure : {A : Type 0} → A → M A
pure a s = (go a, s)

-- `if (!ok) { ret = code; goto cleanup; }`
unfoldable pub guard : Bool → ℤ → M (Unit {0})
guard true code s = (go tt, s)
guard false code s = (jump code, s)

abbrev pub get_server : M Server
get_server s = (go s.server, s)

abbrev pub put_server : Server → M (Unit {0})
put_server v s = (go tt, record s { server = v })

-- Inversion of a chain that reached its end.
pub continue-go :
    {A B : Type 0} (r : Step A × Session) (f : A → M B) {b : B} {s' : Session}
    → continue r f ≡ (go b, s')
    → (a : A) × (s1 : Session) × (r ≡ (go a, s1)) × (f a s1 ≡ (go b, s'))
continue-go (jump e, s1) f h = cc
continue-go (go a, s1) f h = (a, s1, refl, h)
