-- ===== src/Rfb/Session/Connection.antt =====
-- The state of the connection in core/rfb.js: `_updateConnectionState`, `_fail`, the handlers of the
-- socket's events, `disconnect`, and the constructor.
use proxmox_self_service_por.Prelude.{Bool, true, false, ◌&&◌, if◌then◌else◌}
use proxmox_self_service_por.Websock.State as Socket
use proxmox_self_service_por.Websock.State.{
  Websock, RawChannel, new_websock, Outcome, done, raised, is_open_state, ready_state,
}
use proxmox_self_service_por.Websock.Lifecycle.{off, close_socket}
use proxmox_self_service_por.Rfb.Session.State.{
  ConnectionState, unset, connecting, connected, disconnecting, disconnected, InitState, not_open,
  protocol_version, Link, Rfb, Method, returned, notify, connect, disconnect,
}

abbrev pub same_state : ConnectionState → ConnectionState → Bool
same_state unset unset = true
same_state connecting connecting = true
same_state connected connected = true
same_state disconnecting disconnecting = true
same_state disconnected disconnected = true
same_state _ _ = false

-- "Ensure proper transitions": from the old state to the new one
abbrev pub proper : ConnectionState → ConnectionState → Bool
proper connecting connected = true
proper disconnecting disconnected = true
proper unset connecting = true
proper connected disconnecting = true
proper connecting disconnecting = true
proper _ _ = false

-- the state change actions
abbrev pub enter : ConnectionState → Link → Link
enter connected l = notify connect l
enter disconnecting l = record l { disconn_timer = true }
enter disconnected l = notify (disconnect l.clean_disconnect) l
enter _ l = l

-- the pending timeout is cleared by every state but "disconnecting"
abbrev pub clears : ConnectionState → Link → Bool
clears state l = l.disconn_timer && (if same_state state disconnecting then false else true)

abbrev pub changed : ConnectionState → Link → Link
changed state l = enter state (record l {
  connection_state = state;
  disconn_timer = if clears state l then false else l.disconn_timer;
})

-- the changes of the socket: the handler is taken off with the timeout, and `_disconnect` closes it
abbrev pub sock_changed : ConnectionState → Link → Websock → Websock
sock_changed state l ws =
    let ws' = if clears state l then off Socket.close ws else ws in
    if same_state state disconnecting then close_socket ws' else ws'

-- the tests before a change; "disconnected" is permanent
abbrev pub accepts : ConnectionState → ConnectionState → Bool
accepts state old =
    if same_state state old
    then false
    else if same_state old disconnected
    then false
    else proper old state

-- `_connect`, for "connecting", follows in the constructor.
unfoldable pub update_connection_state : ConnectionState → Rfb → Rfb
update_connection_state state r =
    if accepts state r.link.connection_state
    then record r { link = changed state r.link; sock = sock_changed state r.link r.sock }
    else r

unfoldable pub fail : Rfb → Rfb
unfolding update_connection_state
fail r = update_connection_state disconnected (
    update_connection_state disconnecting
      (record r { link = record r.link { clean_disconnect = false } }))

-- `return this._fail(...)`
unfoldable pub failing : Method Bool
failing r = returned false (fail r)

abbrev pub is_not_open : InitState → Bool
is_not_open not_open = true
is_not_open _ = false

unfoldable pub socket_open : Rfb → Rfb
socket_open r =
    if same_state r.link.connection_state connecting && is_not_open r.init_state
    then record r { init_state = protocol_version }
    else fail r

abbrev pub close_from : ConnectionState → Rfb → Rfb
close_from connected r =
    update_connection_state disconnected (update_connection_state disconnecting r)
close_from disconnecting r = update_connection_state disconnected r
close_from _ r = fail r

unfoldable pub socket_close : Rfb → Rfb
socket_close r =
    let r' = close_from r.link.connection_state r in record r' { sock = off Socket.close r'.sock }

-- the public method
unfoldable pub disconnect_now : Rfb → Rfb
disconnect_now r =
    let r' = update_connection_state disconnecting r in
    record r' { sock = off Socket.opened (off Socket.message (off Socket.error r'.sock)) }

-- the timeout that "disconnecting" has set
unfoldable pub timed_out : Rfb → Rfb
timed_out r = if r.link.disconn_timer then update_connection_state disconnected r else r
