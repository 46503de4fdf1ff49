-- ===== src/Rfb/Session/KeepsStart.antt =====
-- The authentication and the server's initialisation in core/rfb.js keep the connection legal.
use proxmox_self_service_por.Prelude.{ℕ, Bool, true, false, Option, none, some, List}
use proxmox_self_service_por.Rfb.Session.State.{
  Method, InitState, connected, not_open, protocol_version, security, authentication,
  security_result, security_reason, client_initialisation, server_initialisation,
}
use proxmox_self_service_por.Rfb.Session.Handshake.{Parts}
use proxmox_self_service_por.Rfb.Session.Auth.{
  with_two, with_three, by_scheme, negotiate_plain_auth, negotiate_xvp_auth,
  negotiate_authentication,
}
use proxmox_self_service_por.Rfb.Session.Start.{
  update_continuous_updates, resize, set_desktop_name, send_encodings, become_connected,
  read_tight_header, tight_header, finish_server_init, negotiate_server_init, init_step, init_msg,
}
use proxmox_self_service_por.Rfb.Session.Legal.{update-Legal}
use proxmox_self_service_por.Rfb.Session.Keeps.{Keeps, keeping, bind-Keeps}
use proxmox_self_service_por.Rfb.Session.KeepsInit.{
  negotiate_protocol_version-Keeps, negotiate_security-Keeps, handle_security_reason-Keeps,
  handle_security_result-Keeps,
}

-- What the session relies on: the methods of the other parts end the connection by `_fail` only, and
-- dispatch no event that tells of it.
pub record PartsKeep (parts : Parts) : Type 0 where
  pub authenticate : (scheme : ℕ) → Keeps (parts.authenticate scheme)
  pub data_rect : Keeps parts.handle_data_rect
  pub cursor : Keeps parts.handle_cursor
  pub vmware_cursor : Keeps parts.handle_vmware_cursor
  pub extended_desktop_size : Keeps parts.handle_extended_desktop_size
  pub extended_clipboard : (n : ℕ) → Keeps (parts.handle_extended_clipboard n)

with_two-Keeps :
    (a b : Option (List ℕ)) (f : List ℕ → List ℕ → Method Bool)
    → ((x y : List ℕ) → Keeps (f x y))
    → Keeps (with_two a b f)
with_two-Keeps (some a) (some b) f k = k a b
with_two-Keeps (some a) none f k = search keeping depth 20
with_two-Keeps none (some b) f k = search keeping depth 20
with_two-Keeps none none f k = search keeping depth 20

with_three-Keeps :
    (a b c : Option (List ℕ)) (f : List ℕ → List ℕ → List ℕ → Method Bool)
    → ((x y z : List ℕ) → Keeps (f x y z))
    → Keeps (with_three a b c f)
with_three-Keeps (some a) (some b) (some c) f k = k a b c
with_three-Keeps (some a) (some b) none f k = search keeping depth 20
with_three-Keeps (some a) none (some c) f k = search keeping depth 20
with_three-Keeps (some a) none none f k = search keeping depth 20
with_three-Keeps none (some b) (some c) f k = search keeping depth 20
with_three-Keeps none (some b) none f k = search keeping depth 20
with_three-Keeps none none (some c) f k = search keeping depth 20
with_three-Keeps none none none f k = search keeping depth 20

module _ (parts : Parts) (keep : PartsKeep parts) where
  negotiate_plain_auth-Keeps : Keeps (negotiate_plain_auth parts)
  unfolding negotiate_plain_auth
  negotiate_plain_auth-Keeps = search (keeping, with_two-Keeps) depth 20

  negotiate_xvp_auth-Keeps : Keeps (negotiate_xvp_auth parts)
  unfolding negotiate_xvp_auth
  negotiate_xvp_auth-Keeps = search (keeping, with_three-Keeps, keep.authenticate) depth 20

  by_scheme-Keeps : (s : Option ℕ) → Keeps (by_scheme parts s)
  by_scheme-Keeps none = search keeping depth 20
  by_scheme-Keeps (some s) =
      search (keeping, keep.authenticate, negotiate_plain_auth-Keeps, negotiate_xvp_auth-Keeps)
        depth 20

  negotiate_authentication-Keeps : Keeps (negotiate_authentication parts)
  unfolding negotiate_authentication
  negotiate_authentication-Keeps = search (keeping, by_scheme-Keeps) depth 20

  pub update_continuous_updates-Keeps : Keeps (update_continuous_updates parts)
  unfolding update_continuous_updates
  update_continuous_updates-Keeps = search keeping depth 20

  pub resize-Keeps : (w h : ℕ) → Keeps (resize parts w h)
  unfolding resize
  resize-Keeps w h = search (keeping, update_continuous_updates-Keeps) depth 20

  pub set_desktop_name-Keeps : (name : List ℕ) → Keeps (set_desktop_name parts name)
  unfolding set_desktop_name
  set_desktop_name-Keeps name = search keeping depth 20

  send_encodings-Keeps : Keeps (send_encodings parts)
  unfolding send_encodings
  send_encodings-Keeps = search keeping depth 20

  become_connected-Keeps : Keeps (become_connected parts)
  become_connected-Keeps = record { legal = λ r h. update-Legal connected r h }

  finish-Keeps : (w h : ℕ) (name : List ℕ) → Keeps (finish_server_init parts w h name)
  finish-Keeps w h name =
      search
        (
          keeping, set_desktop_name-Keeps, resize-Keeps, send_encodings-Keeps,
          become_connected-Keeps,
        )
        depth 20

  read_tight_header-Keeps :
      (n : ℕ) (m : Method Bool) → Keeps m → Keeps (read_tight_header parts n m)
  read_tight_header-Keeps n m k = search keeping depth 20

  tight_header-Keeps :
      (tight : Bool) (n : ℕ) (m : Method Bool) → Keeps m → Keeps (tight_header parts tight n m)
  tight_header-Keeps false n m k = k
  tight_header-Keeps true n m k =
      bind-Keeps _ _ (search keeping depth 20)
        (λ short. search (keeping, read_tight_header-Keeps) depth 20)

  negotiate_server_init-Keeps : Keeps (negotiate_server_init parts)
  unfolding negotiate_server_init
  negotiate_server_init-Keeps = search (keeping, tight_header-Keeps, finish-Keeps) depth 30

  init_step-Keeps : (s : InitState) → Keeps (init_step parts s)
  init_step-Keeps protocol_version = negotiate_protocol_version-Keeps
  init_step-Keeps security = negotiate_security-Keeps
  init_step-Keeps authentication = negotiate_authentication-Keeps
  init_step-Keeps security_result = handle_security_result-Keeps
  init_step-Keeps security_reason = handle_security_reason-Keeps
  init_step-Keeps client_initialisation = search keeping depth 20
  init_step-Keeps server_initialisation = negotiate_server_init-Keeps
  init_step-Keeps not_open = search keeping

  pub init_msg-Keeps : Keeps (init_msg parts)
  unfolding init_msg
  init_msg-Keeps = record { legal = λ r h. (init_step-Keeps r.init_state).legal r h }
