-- ===== src/Rfb/Session/Tests.antt =====
-- Runs of the model of the session in core/rfb.js.
use proxmox_self_service_por.Prelude.{
  ◌≡◌, ◌≢◌, refl, true, false, none, some, List, [], ◌∷◌, Option,
}
use proxmox_self_service_por.Websock.State.{RawChannel, web_socket}
use proxmox_self_service_por.Websock.Lifecycle.{raw_channel_props}
use proxmox_self_service_por.Rfb.Session.State.{
  unset, connected, disconnected, Credentials, Rfb, pure, connect,
}
use proxmox_self_service_por.Rfb.Session.Connection.{failing, fail, disconnect_now, timed_out}
use proxmox_self_service_por.Rfb.Session.Handshake.{Parts}
use proxmox_self_service_por.Rfb.Session.Inputs.{Input, opened, received, timeout, initial}
use proxmox_self_service_por.Rfb.Session.Keeps.{pure-Keeps, failing-Keeps}
use proxmox_self_service_por.Rfb.Session.KeepsStart.{PartsKeep}
use proxmox_self_service_por.Rfb.Session.Legal.{Legal}
use proxmox_self_service_por.Rfb.Session.Life.{RunLegal, session, session-RunLegal}
use proxmox_self_service_por.Rfb.Session.Ends.{failed, fail-failed, disconnect_now-timed_out}
use proxmox_self_service_por.Rfb.Session.Updates.{normal_msg}
use proxmox_self_service_por.Rfb.Session.Connection.{update_connection_state, socket_open}
use proxmox_self_service_por.Rfb.Session.Auth.{negotiate_authentication}
use proxmox_self_service_por.Rfb.Session.State.{
  Event, Ended, returned, bell, desktop_name, disconnect, ◌>>◌, modify, asks, read, on_sock, send,
  dispatch,
}
use proxmox_self_service_por.Rfb.Session.Inputs.{
  normal_loop, init_loop, handle_message, run, new_rfb,
}
use proxmox_self_service_por.Rfb.Session.Handshake.{
  negotiate_protocol_version, negotiate_security, handle_security_reason, handle_security_result,
}
use proxmox_self_service_por.Rfb.Session.Start.{
  update_continuous_updates, resize, set_desktop_name, send_encodings, negotiate_server_init,
  init_msg,
}
use proxmox_self_service_por.Rfb.Messages.{
  key_event, enable_continuous_updates, pixel_format, push_encodings, client_encodings,
  fb_update_request, xvp_op,
}
use proxmox_self_service_por.Websock.Receive.{
  rq_peek8, rq_skip_bytes, rq_shift8, rq_shift16, rq_shift32, rq_shift_bytes, rq_shift_str_loop,
  rq_shift_str, rq_wait, move_unread, expand_compact_rq, append_message, recv_message,
}
use proxmox_self_service_por.Websock.Lifecycle.{
  off, on, allocate_buffers, init, attach, close_socket,
}
use proxmox_self_service_por.Websock.State.{new_websock, sub_ready_state, ready_state}
use proxmox_self_service_por.Websock.Send.{
  send_pending, flush, sq_ensure_space, put, sq_push8, sq_push16, sq_push32, push_chunk, push_loop,
  sq_push_bytes, sq_push_string,
}
use proxmox_self_service_por.Display.Draw.{flip_display}
use proxmox_self_service_por.Util.Int.{to_unsigned32bit, to_signed32bit, shift_left}
use proxmox_self_service_por.Prelude.Int.{◌+ℤ◌}

-- Parts that know no scheme but None, and take no rectangle.
abbrev parts : Parts
parts = record {
  rounds = 9;
  decode_utf8 = λ s. s;
  encode_utf8 = λ s. s;
  decodes_h264 = false;
  authenticate = λ _. failing;
  fit_window = λ d. d;
  handle_data_rect = failing;
  handle_cursor = pure true;
  handle_vmware_cursor = pure true;
  handle_extended_desktop_size = pure true;
  handle_extended_clipboard = λ _. pure true;
}

parts-Keep : PartsKeep parts
parts-Keep = record {
  authenticate = λ _. failing-Keeps;
  data_rect = failing-Keeps;
  cursor = pure-Keeps true;
  vmware_cursor = pure-Keeps true;
  extended_desktop_size = pure-Keeps true;
  extended_clipboard = λ _. pure-Keeps true;
}

-- a WebSocket that is connecting
abbrev channel : RawChannel
channel = record { sub_state = web_socket 0; sent = []; close_called = false; on_message = false }

abbrev nobody : Credentials
nobody = record { username = none; password = none; target = none }

-- A server of version 3.8 that offers None and accepts; then its screen, a bell, and the end.
abbrev events : List Input
events =
    opened
    ∷ received (82 ∷ 70 ∷ 66 ∷ 32 ∷ 48 ∷ 48 ∷ 51 ∷ 46 ∷ 48 ∷ 48 ∷ 56 ∷ 10 ∷ [])
    ∷ received (1 ∷ 1 ∷ [])
    ∷ received (0 ∷ 0 ∷ 0 ∷ 0 ∷ [])
    ∷ received (0 ∷ 8 ∷ 0 ∷ 8 ∷ 32 ∷ 24 ∷ 0 ∷ 1 ∷ 0 ∷ 255 ∷ 0 ∷ 255 ∷ 0 ∷ 255 ∷ [])
    ∷ received (16 ∷ 8 ∷ 0 ∷ 0 ∷ 0 ∷ 0 ∷ 0 ∷ 0 ∷ 0 ∷ 0 ∷ [])
    ∷ received (2 ∷ 2 ∷ [])
    ∷ Input.disconnect
    ∷ timeout
    ∷ []

-- what the page has heard of a session that goes on, the last event first
page_events : Option (Ended (Unit {0})) → Option (List Event)
page_events (some (returned a r)) = some r.link.events
page_events _ = none

-- The rounds are enough for these events: the session runs to its end.
session_events :
    page_events (session parts channel raw_channel_props nobody true [] events)
    ≡ some (disconnect true ∷ bell ∷ bell ∷ connect ∷ desktop_name [] ∷ [])
unfolding page_events normal_msg update_connection_state socket_open disconnect_now timed_out
    negotiate_authentication pure ◌>>◌ modify asks read on_sock send dispatch normal_loop init_loop
    handle_message run new_rfb negotiate_protocol_version negotiate_security handle_security_reason
    handle_security_result update_continuous_updates resize set_desktop_name send_encodings
    negotiate_server_init init_msg key_event enable_continuous_updates pixel_format push_encodings
    client_encodings fb_update_request xvp_op rq_peek8 rq_skip_bytes rq_shift8 rq_shift16 rq_shift32
    rq_shift_bytes rq_shift_str_loop rq_shift_str rq_wait move_unread expand_compact_rq
    append_message recv_message off on allocate_buffers init attach close_socket new_websock
    sub_ready_state ready_state send_pending flush sq_ensure_space put sq_push8 sq_push16 sq_push32
    push_chunk push_loop sq_push_bytes sq_push_string flip_display to_unsigned32bit to_signed32bit
    shift_left ◌+ℤ◌
session_events = refl

session-RunLegal_example : RunLegal (session parts channel raw_channel_props nobody true [] events)
session-RunLegal_example =
    session-RunLegal parts channel raw_channel_props nobody true [] events parts-Keep

-- an object that is connected
abbrev at_work : Rfb
at_work = record (initial nobody true []) {
  link = record {
    connection_state = connected;
    clean_disconnect = true;
    disconn_timer = false;
    events = connect ∷ [];
  };
}

at_work-Legal : Legal at_work.link
at_work-Legal = record { log = refl; timer = refl }

fail-failed_example : (fail at_work).link ≡ failed at_work.link
fail-failed_example = fail-failed at_work at_work-Legal refl

connected≢unset : connected ≢ unset
connected≢unset e = cc e

disconnect_now-timed_out_example :
    (timed_out (disconnect_now at_work)).link.connection_state ≡ disconnected
disconnect_now-timed_out_example = disconnect_now-timed_out at_work at_work-Legal connected≢unset
