-- ===== src/Rfb/Session/Handshake.antt =====
-- The handshake of core/rfb.js: the methods that `_initMsg` calls, up to the server's initialisation.
use Prim.Native.String.{String}
use proxmox_self_service_por.Prelude.{
  ℕ, zero, suc, ◌+◌, ◌-◌, ◌/◌, ◌%◌, Bool, true, false, ◌&&◌, ◌||◌, Option, none, some, List, [],
  ◌∷◌, ◌++◌, ltb, ◌==◌, length, if◌then◌else◌,
}
use proxmox_self_service_por.Prelude.Int.{pos}
use proxmox_self_service_por.Websock.Receive.{
  rq_wait, rq_shift8, rq_shift32, rq_shift_bytes, rq_shift_str, rq_skip_bytes,
}
use proxmox_self_service_por.Websock.Send.{sq_push8, sq_push_string, flush}
use proxmox_self_service_por.Display.Queue.{Display}
use proxmox_self_service_por.Rfb.Session.State.{
  security, authentication, security_reason, client_initialisation, security_failure, Rfb, Method,
  ◌>>=◌, ◌>>◌, pure, modify, asks, read, on_sock, send, dispatch,
}
use proxmox_self_service_por.Rfb.Session.Connection.{failing}

-- What the session uses of other code: the browser's UTF-8 and whether it decodes H.264; the
-- authentication schemes that encrypt; `_updateClip` and `_updateScale`, which fit the display to
-- the window; the decoders behind `_handleDataRect`, the two kinds of cursor, the extended desktop
-- size, and the extended clipboard, which is given its length. `rounds` bounds every loop whose number
-- of rounds depends on what is received: it is any number, and what holds of a session holds for all.
pub record Parts : Type 0 where
  pub rounds : ℕ
  pub decode_utf8 : List ℕ → List ℕ
  pub encode_utf8 : List ℕ → List ℕ
  pub decodes_h264 : Bool
  pub authenticate : ℕ → Method Bool
  pub fit_window : Display → Display
  pub handle_data_rect : Method Bool
  pub handle_cursor : Method Bool
  pub handle_vmware_cursor : Method Bool
  pub handle_extended_desktop_size : Method Bool
  pub handle_extended_clipboard : ℕ → Method Bool

abbrev pub same_text : List ℕ → List ℕ → Bool
same_text [] [] = true
same_text (c ∷ cs) (d ∷ ds) = c == d && same_text cs ds
same_text _ _ = false

-- `rQwait`, and the reads
abbrev pub wait : ℕ → ℕ → Method Bool
wait num goback = on_sock (λ ws. rq_wait ws num goback)

abbrev pub skip : ℕ → Method (Unit {0})
skip n = read (λ ws. (tt, rq_skip_bytes ws n))

-- what is done once the bytes are there; `return false` if they are not
abbrev pub unless : Bool → Method Bool → Method Bool
unless short m = if short then pure false else m

-- "000.000" with the major and the minor version
abbrev pub version_text : ℕ → ℕ → ℕ → List ℕ
version_text major tens minor =
    48 ∷ 48 ∷ (48 + major) ∷ 46 ∷ (48 + tens / 10) ∷ (48 + tens % 10) ∷ (48 + minor) ∷ []

-- the version to speak; `none` if the server's is unknown
abbrev pub known_version : List ℕ → Option ℕ
known_version v =
    if same_text v (version_text 3 0 3) || same_text v (version_text 3 0 6)
    then some 33
    else if same_text v (version_text 3 0 7)
    then some 37
    else if same_text v (version_text 3 0 8)
        || same_text v (version_text 3 88 9)
        || same_text v (version_text 4 0 0)
        || same_text v (version_text 4 0 1)
        || same_text v (version_text 5 0 0)
    then some 38
    else none

-- "ID:" and the repeater's id, up to 250 characters with zeros
abbrev pub zeros : ℕ → List ℕ
zeros zero = []
zeros (suc n) = 0 ∷ zeros n

abbrev pub repeater_text : List ℕ → List ℕ
repeater_text id = let text = 73 ∷ 68 ∷ 58 ∷ id in text ++ zeros (250 - length text)

-- "RFB 00x.00y" and a line feed
abbrev pub client_version : ℕ → List ℕ
client_version v =
    82 ∷ 70 ∷ 66 ∷ 32 ∷ 48 ∷ 48 ∷ (48 + v / 10) ∷ 46 ∷ 48 ∷ 48 ∷ (48 + v % 10) ∷ 10 ∷ []

-- `substr(4, 7)`
abbrev pub version_part : List ℕ → List ℕ
version_part (a ∷ b ∷ c ∷ d ∷ e ∷ f ∷ g ∷ h ∷ i ∷ j ∷ k ∷ l ∷ rest) = e ∷ f ∷ g ∷ h ∷ i ∷ j ∷ k ∷ []
version_part _ = []

abbrev pub min_version : Rfb → Rfb
min_version r = record r {
  version = if ltb r.max_version r.version then r.max_version else r.version;
}

abbrev pub answer_version : Option ℕ → Method Bool
answer_version none = failing
answer_version (some v) = do
  modify (λ r. min_version (record r { version = v }))
  used ← asks (λ r. r.version)
  send (sq_push_string (client_version used))
  on_sock flush
  modify (λ r. record r { init_state = security })
  pure false

abbrev pub answer_repeater : Method Bool
answer_repeater = do
  id ← asks (λ r. r.repeater_id)
  send (sq_push_string (repeater_text id))
  on_sock flush
  pure true

abbrev pub answer : List ℕ → Method Bool
answer sversion =
    if same_text sversion (version_text 0 0 0)
    then answer_repeater
    else answer_version (known_version sversion)

-- It ends without a `return`, which counts as false.
unfoldable pub negotiate_protocol_version : Method Bool
negotiate_protocol_version = do
  short ← wait 12 0
  unless short (read (λ ws. rq_shift_str ws 12) >>= (λ text. answer (version_part text)))

-- None, VNC, RA2ne, Tight, VeNCrypt, XVP, ARD, MSLogonII, Plain
abbrev pub is_supported_security_type : ℕ → Bool
is_supported_security_type type =
    type == 1
    || type == 2
    || type == 6
    || type == 16
    || type == 19
    || type == 22
    || type == 30
    || type == 113
    || type == 256

-- the first type that is supported, in the server's order
abbrev pub matching_type : List ℕ → Option ℕ
matching_type [] = none
matching_type (t ∷ types) = if is_supported_security_type t then some t else matching_type types

abbrev pub to_security_reason : String → ℕ → Method Bool
to_security_reason context status = do
  modify (λ r. record r {
    init_state = security_reason;
    security_context = context;
    security_status = status;
  })
  pure true

abbrev pub to_authentication : Method Bool
to_authentication = do modify (λ r. record r { init_state = authentication }); pure true

abbrev pub take_type : Option ℕ → Method Bool
take_type none = failing
take_type (some t) = do
  modify (λ r. record r { auth_scheme = some t })
  on_sock (sq_push8 (pos t))
  on_sock flush
  to_authentication

abbrev pub choose_type : ℕ → Method Bool
choose_type num_types = do
  types ← read (λ ws. rq_shift_bytes ws num_types)
  modify (λ r. record r { auth_scheme = none })
  take_type (matching_type types)

abbrev pub client_decides : Method Bool
client_decides = do
  num_types ← read rq_shift8
  short ← wait num_types 1
  unless short
      (if num_types == 0 then to_security_reason "no security types" 1 else choose_type num_types)

abbrev pub take_scheme : ℕ → Method Bool
take_scheme scheme = do
  modify (λ r. record r { auth_scheme = some scheme })
  if scheme == 0 then to_security_reason "authentication scheme" 1 else to_authentication

abbrev pub server_decides : Method Bool
server_decides = do short ← wait 4 0; unless short (read rq_shift32 >>= take_scheme)

unfoldable pub negotiate_security : Method Bool
negotiate_security = do
  v ← asks (λ r. r.version)
  if ltb v 37 then server_decides else client_decides

abbrev pub give_reason : List ℕ → Method Bool
give_reason reason = do
  status ← asks (λ r. r.security_status)
  dispatch (security_failure status (if ltb 0 (length reason) then some reason else none))
  failing

abbrev pub read_reason : ℕ → Method Bool
read_reason strlen = do
  short ← wait strlen 4
  unless short (read (λ ws. rq_shift_str ws strlen) >>= give_reason)

abbrev pub reason_of : ℕ → Method Bool
reason_of strlen = if ltb 0 strlen then read_reason strlen else give_reason []

unfoldable pub handle_security_reason : Method Bool
handle_security_reason = do short ← wait 4 0; unless short (read rq_shift32 >>= reason_of)

abbrev pub authenticated : Method Bool
authenticated = do modify (λ r. record r { init_state = client_initialisation }); pure true

abbrev pub refused : ℕ → ℕ → Method Bool
refused v status =
    if ltb v 38
    then dispatch (security_failure status none) >> failing
    else to_security_reason "security result" status

abbrev pub result_of : ℕ → Method Bool
result_of status = do
  v ← asks (λ r. r.version)
  if status == 0 then authenticated else refused v status

unfoldable pub handle_security_result : Method Bool
handle_security_result = do short ← wait 4 0; unless short (read rq_shift32 >>= result_of)
