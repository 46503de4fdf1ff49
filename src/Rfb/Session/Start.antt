-- ===== src/Rfb/Session/Start.antt =====
-- The rest of the handshake of core/rfb.js: the server's initialisation, `_initMsg`.
use proxmox_self_service_por.Prelude.{
  ℕ, ◌+◌, ◌*◌, Bool, true, false, List, [], ◌∷◌, ◌++◌, ◌==◌, if◌then◌else◌,
}
use proxmox_self_service_por.Prelude.Int.{ℤ, pos, negsuc, ◌+ℤ◌}
use proxmox_self_service_por.Websock.Receive.{rq_shift8, rq_shift16, rq_shift32, rq_shift_str}
use proxmox_self_service_por.Websock.Send.{sq_push8, flush}
use proxmox_self_service_por.Rfb.Messages.{
  pixel_format, client_encodings, fb_update_request, enable_continuous_updates,
}
use proxmox_self_service_por.Display.Viewport as Viewport
use proxmox_self_service_por.Rfb.Session.State.{
  InitState, not_open, protocol_version, security, authentication, security_result, security_reason,
  client_initialisation, server_initialisation, desktop_name, Rfb, Method, ◌>>=◌, ◌>>◌, pure,
  modify, asks, read, on_sock, dispatch, returned, connected,
}
use proxmox_self_service_por.Rfb.Session.Connection.{update_connection_state, failing}
use proxmox_self_service_por.Rfb.Session.Handshake.{
  Parts, wait, skip, unless, same_text, negotiate_protocol_version, negotiate_security,
  handle_security_reason, handle_security_result,
}
use proxmox_self_service_por.Rfb.Session.Auth.{negotiate_authentication}

-- texts and bytes
abbrev Codes : Type 0
Codes = List ℕ

-- "Intel(r) AMT KVM"
abbrev pub amt_name : Codes
amt_name = 73 ∷ 110 ∷ 116 ∷ 101 ∷ 108 ∷ 40 ∷ 114 ∷ 41 ∷ 32 ∷ 65 ∷ 77 ∷ 84 ∷ 32 ∷ 75 ∷ 86 ∷ 77 ∷ []

module _ (parts : Parts) where
  -- `_updateContinuousUpdates`
  unfoldable pub update_continuous_updates : Method (Unit {0})
  update_continuous_updates = do
    on ← asks (λ r. r.enabled_continuous_updates)
    w ← asks (λ r. r.fb_width)
    h ← asks (λ r. r.fb_height)
    if on
        then on_sock (enable_continuous_updates (pos 1) (pos 0) (pos 0) (pos w) (pos h))
        else pure tt

  -- `_resize`
  unfoldable pub resize : ℕ → ℕ → Method (Unit {0})
  resize width height = do
    modify (λ r. record r {
      fb_width = width;
      fb_height = height;
      display = parts.fit_window (Viewport.resize (pos width) (pos height) r.display);
    })
    update_continuous_updates

  -- `_setDesktopName`
  unfoldable pub set_desktop_name : Codes → Method (Unit {0})
  set_desktop_name name = do modify (λ r. record r { fb_name = name }); dispatch (desktop_name name)

  -- the encodings in the order of preference; those between CopyRect and Raw need the full depth
  abbrev pub full_depth_encodings : List ℤ
  full_depth_encodings =
      (if parts.decodes_h264 then pos 50 ∷ [] else [])
      ++ (pos 7 ∷ negsuc 259 ∷ pos 16 ∷ pos 21 ∷ pos 5 ∷ pos 2 ∷ pos 6 ∷ [])

  abbrev pub encodings_of : Rfb → List ℤ
  encodings_of r =
      (pos 1 ∷ [])
      ++ (if r.fb_depth == 24 then full_depth_encodings else [])
      ++ (pos 0
          ∷ (negsuc 31 +ℤ pos r.quality_level)
          ∷ (negsuc 255 +ℤ pos r.compression_level)
          ∷ negsuc 222
          ∷ negsuc 223
          ∷ negsuc 257
          ∷ negsuc 260
          ∷ negsuc 307
          ∷ negsuc 308
          ∷ negsuc 311
          ∷ negsuc 312
          ∷ negsuc 306
          ∷ pos 3231835598
          ∷ negsuc 315
          ∷ [])
      ++ (if r.fb_depth == 24 then pos 1464686180 ∷ negsuc 238 ∷ [] else [])

  unfoldable pub send_encodings : Method (Unit {0})
  send_encodings = do encodings ← asks encodings_of; on_sock (client_encodings encodings)

  -- PIXEL_FORMAT, which is read for the log, and the padding
  abbrev pub read_pixel_format : Method (Unit {0})
  read_pixel_format = do
    read rq_shift32 >>= (λ _. pure tt)
    read rq_shift16 >>= (λ _. pure tt)
    read rq_shift16 >>= (λ _. pure tt)
    read rq_shift16 >>= (λ _. pure tt)
    read rq_shift8 >>= (λ _. pure tt)
    read rq_shift8 >>= (λ _. pure tt)
    read rq_shift8 >>= (λ _. pure tt)
    skip 3

  -- `this._updateConnectionState('connected')`
  abbrev pub become_connected : Method (Unit {0})
  become_connected r = returned tt (update_connection_state connected r)

  abbrev pub finish_server_init : ℕ → ℕ → Codes → Method Bool
  finish_server_init width height name = do
    set_desktop_name (parts.decode_utf8 name)
    resize width height
    modify (λ r. record r { fb_depth = if same_text r.fb_name amt_name then 8 else 24 })
    depth ← asks (λ r. r.fb_depth)
    on_sock (pixel_format depth true)
    send_encodings
    w ← asks (λ r. r.fb_width)
    h ← asks (λ r. r.fb_height)
    on_sock (fb_update_request false (pos 0) (pos 0) (pos w) (pos h))
    become_connected
    pure true

  -- the capabilities of TightVNC's extended header, which are skipped
  abbrev pub skip_capabilities : ℕ → ℕ → ℕ → ℕ → Method Bool → Method Bool
  skip_capabilities servers clients encodings name_length m = do
    short ← wait ((servers + clients + encodings) * 16) (32 + name_length)
    unless short (skip (16 * servers) >> skip (16 * clients) >> skip (16 * encodings) >> m)

  abbrev pub read_tight_header : ℕ → Method Bool → Method Bool
  read_tight_header name_length m = do
    servers ← read rq_shift16
    clients ← read rq_shift16
    encodings ← read rq_shift16
    skip 2
    skip_capabilities servers clients encodings name_length m

  abbrev pub tight_header : Bool → ℕ → Method Bool → Method Bool
  tight_header false name_length m = m
  tight_header true name_length m = do
    short ← wait 8 (24 + name_length)
    unless short (read_tight_header name_length m)

  abbrev pub read_name : ℕ → ℕ → ℕ → Method Bool
  read_name width height name_length = do
    short ← wait name_length 24
    unless short (do
      name ← read (λ ws. rq_shift_str ws name_length)
      tight ← asks (λ r. r.tight_vnc)
      tight_header tight name_length (finish_server_init width height name))

  abbrev pub read_server_init : Method Bool
  read_server_init = do
    width ← read rq_shift16
    height ← read rq_shift16
    read_pixel_format
    name_length ← read rq_shift32
    read_name width height name_length

  unfoldable pub negotiate_server_init : Method Bool
  negotiate_server_init = do short ← wait 24 0; unless short read_server_init

  abbrev pub client_init : Method Bool
  client_init = do
    shared ← asks (λ r. r.shared)
    on_sock (sq_push8 (pos (if shared then 1 else 0)))
    on_sock flush
    modify (λ r. record r { init_state = server_initialisation })
    pure true

  abbrev pub init_step : InitState → Method Bool
  init_step protocol_version = negotiate_protocol_version
  init_step security = negotiate_security
  init_step authentication = negotiate_authentication parts
  init_step security_result = handle_security_result
  init_step security_reason = handle_security_reason
  init_step client_initialisation = client_init
  init_step server_initialisation = negotiate_server_init
  init_step not_open = failing

  -- `_initMsg`
  unfoldable pub init_msg : Method Bool
  init_msg r = init_step r.init_state r
