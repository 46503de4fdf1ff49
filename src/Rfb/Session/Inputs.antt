-- ===== src/Rfb/Session/Inputs.antt =====
-- What reaches an RFB object (core/rfb.js) from outside, in any order: `_handleMessage`, the socket's
-- events, the timeout, and the calls of the page. And the constructor.
use Prim.Native.String.{String}
use proxmox_self_service_por.Prelude.{
  ℕ, zero, suc, ◌+◌, Bool, true, false, Option, none, some, List, [], ◌∷◌, if◌then◌else◌,
}
use proxmox_self_service_por.Prelude.Int.{pos}
use proxmox_self_service_por.Websock.State as Socket
use proxmox_self_service_por.Websock.State.{
  Websock, RawChannel, ReadyState, new_websock, Outcome, done, raised, is_open_state, ready_state,
}
use proxmox_self_service_por.Websock.Lifecycle.{on, attach}
use proxmox_self_service_por.Websock.Receive.{recv_message}
use proxmox_self_service_por.Display.Viewport.{new_display}
use proxmox_self_service_por.Rfb.Session.State.{
  ConnectionState, unset, connecting, connected, not_open, Credentials, Rfb, Ended, returned,
  thrown, endless, Method, ◌>>=◌, ◌>>◌, pure, modify, asks,
}
use proxmox_self_service_por.Rfb.Session.Connection.{
  same_state, update_connection_state, socket_open, socket_close, disconnect_now, timed_out,
}
use proxmox_self_service_por.Rfb.Session.Handshake.{Parts, wait}
use proxmox_self_service_por.Rfb.Session.Start.{init_msg}
use proxmox_self_service_por.Rfb.Session.Updates.{normal_msg}

-- `resume` is a call of `_resumeAuthentication` by the parts that are not modelled, `resumed` the timer
-- that such a call sets.
pub data Input : Type 0 where
  opened : Input
  received : List ℕ → Input
  closed : Input
  timeout : Input
  disconnect : Input
  resume : Input
  resumed : Input
  flushed : Input
  send_credentials : Credentials → Input

module _ (parts : Parts) where
  -- the loops of `_handleMessage`, for as many rounds
  unfoldable pub normal_loop : ℕ → Method (Unit {0})
  normal_loop zero = λ r. endless r
  normal_loop (suc rounds) = do
    flushing ← asks (λ r. r.flushing)
    if flushing
        then pure tt
        else normal_msg parts >>= (λ ok.
          if ok
          then wait 1 0 >>= (λ empty. if empty then pure tt else normal_loop rounds)
          else pure tt)

  unfoldable pub init_loop : ℕ → Method (Unit {0})
  init_loop zero = λ r. endless r
  init_loop (suc rounds) = do
    state ← asks (λ r. r.link.connection_state)
    if same_state state connecting
        then init_msg parts >>= (λ ok. if ok then init_loop rounds else pure tt)
        else pure tt

  abbrev pub by_state : ConnectionState → Method (Unit {0})
  by_state connected = normal_loop parts.rounds
  by_state connecting = init_loop parts.rounds
  by_state _ = pure tt

  unfoldable pub handle_message : Method (Unit {0})
  handle_message = do
    empty ← wait 1 0
    state ← asks (λ r. r.link.connection_state)
    if empty then pure tt else by_state state

  -- a handler that is registered for the socket's event
  abbrev pub if_registered : Socket.Event → Method (Unit {0}) → Method (Unit {0})
  if_registered evt m r = elim (r.sock.event_handlers evt) [ none ↦ pure tt r | some h ↦ m r ]

  abbrev pub call : (Rfb → Rfb) → Method (Unit {0})
  call f r = returned tt (f r)

  -- the message as core/websock.js takes it in, and the handler if any byte is unread
  abbrev pub taken_in : Rfb → Outcome Bool → Ended (Unit {0})
  taken_in r (raised e ws) = thrown e (record r { sock = ws })
  taken_in r (done true ws) = if_registered Socket.message handle_message (record r { sock = ws })
  taken_in r (done false ws) = returned tt (record r { sock = ws })

  abbrev pub receive : List ℕ → Method (Unit {0})
  receive data₀ r = taken_in r (recv_message r.sock data₀)

  abbrev pub takes_messages : Option RawChannel → Bool
  takes_messages none = false
  takes_messages (some c) = c.on_message

  -- `setTimeout(this._initMsg.bind(this), 0)`
  unfoldable pub resume_authentication : Method (Unit {0})
  resume_authentication = modify (λ r. record r { resumes = r.resumes + 1 })

  -- One of the scheduled calls is made. Without one nothing happens.
  abbrev pub resume_due : ℕ → Method (Unit {0})
  resume_due zero = pure tt
  resume_due (suc left) =
      modify (λ r. record r { resumes = left }) >> init_msg parts >>= (λ _. pure tt)

  abbrev pub react : Input → Method (Unit {0})
  react opened = if_registered Socket.opened (call socket_open)
  react (received data₀) =
      asks (λ r. takes_messages r.sock.websocket) >>= (λ on. if on then receive data₀ else pure tt)
  react closed = if_registered Socket.close (call socket_close)
  react timeout = call timed_out
  react disconnect = call disconnect_now
  react resume = resume_authentication
  react resumed = asks (λ r. r.resumes) >>= resume_due
  react flushed =
      modify (λ r. record r { flushing = false })
      >> wait 1 0
      >>= (λ empty. if empty then pure tt else handle_message)
  react (send_credentials c) = modify (λ r. record r { credentials = c }) >> resume_authentication

  -- An exception ends the call, and the fields stay as they are then. After a call that is endless
  -- nothing more happens.
  abbrev pub and_then : Method (Unit {0}) → Ended (Unit {0}) → Ended (Unit {0})
  and_then f (returned a r) = f r
  and_then f (thrown e r) = f r
  and_then f (endless r) = endless r

  unfoldable pub run : List Input → Method (Unit {0})
  run [] r = returned tt r
  run (i ∷ inputs) r = and_then (run inputs) (react i r)

-- The handlers that the constructor registers, by a number each.
abbrev pub session_sock : Websock
session_sock =
    on Socket.error 4 (on Socket.message 3 (on Socket.close 2 (on Socket.opened 1 new_websock)))

-- the fields that the constructor sets, given the size of the canvas on the page
abbrev pub initial : Credentials → Bool → List ℕ → Rfb
initial credentials shared repeater_id = record {
  link = record {
    connection_state = unset;
    clean_disconnect = true;
    disconn_timer = false;
    events = [];
  };
  sock = session_sock;
  display = new_display (pos 300) (pos 150);
  init_state = not_open;
  version = 0;
  max_version = 38;
  tight_vnc = false;
  xvp_ver = 0;
  auth_scheme = none;
  security_context = "";
  security_status = 0;
  credentials = credentials;
  shared = shared;
  repeater_id = repeater_id;
  view_only = false;
  quality_level = 6;
  compression_level = 2;
  fb_width = 0;
  fb_height = 0;
  fb_depth = 0;
  fb_name = [];
  fbu = record { rects = 0; x = 0; y = 0; width = 0; height = 0; encoding = none };
  flushing = false;
  supports_fence = false;
  supports_continuous_updates = false;
  enabled_continuous_updates = false;
  qemu_ext_key_event_supported = false;
  extended_pointer_event_supported = false;
  remote_caps_lock = none;
  remote_num_lock = none;
  resumes = 0;
}

-- `_connect` once the channel is attached
abbrev pub by_ready_state : ReadyState → Rfb → Option Rfb
by_ready_state Socket.closed r = none
by_ready_state Socket.is_open r = some (socket_open r)
by_ready_state _ r = some r

abbrev pub connected_to : Outcome (Unit {0}) → Rfb → Option Rfb
connected_to (raised e ws) r = none
connected_to (done _ ws) r = by_ready_state (ready_state ws) (record r { sock = ws })

-- The constructor, over a channel with the properties that are named; `none` if it throws.
unfoldable pub new_rfb : RawChannel → List String → Credentials → Bool → List ℕ → Option Rfb
new_rfb channel props credentials shared repeater_id =
    let r = update_connection_state connecting (initial credentials shared repeater_id) in
    connected_to (attach channel props r.sock) r
