-- ===== src/Rfb/Session/Auth.antt =====
-- The authentication in core/rfb.js: `_negotiateAuthentication`, with None, XVP and Plain.
use proxmox_self_service_por.Prelude.{
  ℕ, Bool, true, false, ◌||◌, Option, none, some, List, ltb, ◌==◌, length, if◌then◌else◌,
}
use proxmox_self_service_por.Prelude.Int.{pos}
use proxmox_self_service_por.Websock.Send.{sq_push8, sq_push32, sq_push_string, flush}
use proxmox_self_service_por.Rfb.Session.State.{
  security_result, client_initialisation, credentials_required, Method, ◌>>=◌, ◌>>◌, pure, modify,
  asks, on_sock, send, dispatch,
}
use proxmox_self_service_por.Rfb.Session.Connection.{failing}
use proxmox_self_service_por.Rfb.Session.Handshake.{Parts}

-- texts and bytes
abbrev Codes : Type 0
Codes = List ℕ

-- "None"
abbrev pub negotiate_none : Method Bool
negotiate_none = do
  modify (λ r. record r {
    init_state = if ltb r.version 38 then client_initialisation else security_result;
  })
  pure true

abbrev pub ask_credentials : Method Bool
ask_credentials = do dispatch credentials_required; pure false

-- both texts of the credentials, or all three
abbrev pub with_two : Option Codes → Option Codes → (Codes → Codes → Method Bool) → Method Bool
with_two (some a) (some b) f = f a b
with_two _ _ f = ask_credentials

abbrev pub with_three :
    Option Codes → Option Codes → Option Codes → (Codes → Codes → Codes → Method Bool) → Method Bool
with_three (some a) (some b) (some c) f = f a b c
with_three _ _ _ f = ask_credentials

module _ (parts : Parts) where
  -- `user` and `pass` are the credentials in UTF-8.
  abbrev pub send_plain : Codes → Codes → Method Bool
  send_plain user pass = do
    on_sock (sq_push32 (pos (length user)))
    on_sock (sq_push32 (pos (length pass)))
    send (sq_push_string user)
    send (sq_push_string pass)
    on_sock flush
    modify (λ r. record r { init_state = security_result })
    pure true

  unfoldable pub negotiate_plain_auth : Method Bool
  negotiate_plain_auth = do
    c ← asks (λ r. r.credentials)
    with_two c.username c.password (λ u p. send_plain (parts.encode_utf8 u) (parts.encode_utf8 p))

  abbrev pub send_xvp : Codes → Codes → Method Bool
  send_xvp username target = do
    on_sock (sq_push8 (pos (length username)))
    on_sock (sq_push8 (pos (length target)))
    send (sq_push_string username)
    send (sq_push_string target)
    on_sock flush
    modify (λ r. record r { auth_scheme = some 2 })
    parts.authenticate 2

  unfoldable pub negotiate_xvp_auth : Method Bool
  negotiate_xvp_auth = do
    c ← asks (λ r. r.credentials)
    with_three c.username c.password c.target (λ u p t. send_xvp u t)

  -- VNC, RA2ne, Tight, VeNCrypt, ARD, MSLogonII and UnixLogon are the other ones that are known.
  abbrev pub is_other_scheme : ℕ → Bool
  is_other_scheme s = s == 2 || s == 6 || s == 16 || s == 19 || s == 30 || s == 113 || s == 129

  abbrev pub by_scheme : Option ℕ → Method Bool
  by_scheme none = failing
  by_scheme (some s) =
      if s == 1
      then negotiate_none
      else if s == 22
      then negotiate_xvp_auth
      else if s == 256
      then negotiate_plain_auth
      else if is_other_scheme s
      then parts.authenticate s
      else failing

  unfoldable pub negotiate_authentication : Method Bool
  negotiate_authentication = do scheme ← asks (λ r. r.auth_scheme); by_scheme scheme
