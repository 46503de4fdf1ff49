-- ===== src/Websock/Tests.antt =====
-- The theorems about core/websock.js at concrete inputs, and runs of its functions.
use proxmox_self_service_por.Prelude.{◌≡◌, refl, true, false, none, some, List, [], ◌∷◌, arith}
use proxmox_self_service_por.Prelude.Int.{negsuc}
use proxmox_self_service_por.Js.Bytes.{overlay}
use proxmox_self_service_por.Websock.State.{
  RawChannel, web_socket, Websock, new_websock, Outcome, ready_state, sub_ready_state,
}
use proxmox_self_service_por.Websock.Receive.{recv_message}
use proxmox_self_service_por.Websock.Send.{sq_push32, sq_push_bytes, push_loop, byte_at}
use proxmox_self_service_por.Websock.Lifecycle.{attach, raw_channel_props}
use proxmox_self_service_por.Websock.Unread.{unread, IsValid, Received}
use proxmox_self_service_por.Websock.ReceiveLaws.{recv_message-Received}
use proxmox_self_service_por.Websock.Calls.{
  Op, receive, wait_for, read8, read16, read_bytes, Reply, fired, must_wait, number, bytes,
  queue_step, sock_step, run, StandsFor,
}
use proxmox_self_service_por.Websock.Session.{run_refines}
use proxmox_self_service_por.Websock.SendLaws.{IsReady, Sent, wire}
use proxmox_self_service_por.Websock.PushLaws.{sq_push32-Sent}
use proxmox_self_service_por.Websock.PushBytes.{sq_push_bytes-Sent, IsStuck, push_loop_stuck}
use proxmox_self_service_por.Websock.LifecycleLaws.{Attached, attach_new, attach_used}

-- an open channel to which nothing was sent
abbrev channel : RawChannel
channel = record { sub_state = web_socket 1; sent = []; close_called = false; on_message = true }

-- an array of six cells with four bytes in it, the first of them read; room for four bytes to send
abbrev small : Websock
small = record {
  websocket = some channel;
  rq_i = 1;
  rq_len = 4;
  rq_buffer_size = 6;
  rq = record { size = 6; cell = overlay (λ _. 0) (9 ∷ 1 ∷ 2 ∷ 3 ∷ []) 0 };
  sq_buffer_size = 4;
  sq_len = 2;
  sq = record { size = 4; cell = overlay (λ _. 0) (7 ∷ 8 ∷ []) 0 };
  event_handlers = λ _. none;
}

small-IsValid : IsValid small
small-IsValid = omega arith

small-StandsFor : StandsFor small (1 ∷ 2 ∷ 3 ∷ [])
small-StandsFor = record { contents = refl; valid = small-IsValid; all_bytes = omega arith }

-- The array has to grow for the message, and 513 is read across the two messages.
abbrev calls : List Op
calls =
    read8
    ∷ wait_for 4
    ∷ receive (4 ∷ 5 ∷ 6 ∷ 255 ∷ [])
    ∷ wait_for 6
    ∷ read16
    ∷ read_bytes 2
    ∷ read16
    ∷ []

abbrev replies : List Reply
replies =
    number 1
    ∷ must_wait true
    ∷ fired true
    ∷ must_wait false
    ∷ number 515
    ∷ bytes (4 ∷ 5 ∷ [])
    ∷ number 1791
    ∷ []

queue_replies : run queue_step (1 ∷ 2 ∷ 3 ∷ []) calls ≡ some replies
unfolding run queue_step
queue_replies = refl

run_refines_example : run sock_step small calls ≡ some replies
run_refines_example =
    run_refines small (1 ∷ 2 ∷ 3 ∷ []) calls small-StandsFor (omega arith) queue_replies

recv_message-Received_example :
    Received small (4 ∷ 5 ∷ 6 ∷ []) (recv_message small (4 ∷ 5 ∷ 6 ∷ []))
recv_message-Received_example =
    recv_message-Received small (4 ∷ 5 ∷ 6 ∷ []) small-IsValid (omega arith)

small-IsReady : IsReady small
unfolding ready_state sub_ready_state
small-IsReady = record {
  channel_open = refl;
  within = omega arith;
  sized = refl;
  roomy = omega arith;
}

-- -2 in 32 bits; the two bytes that wait have to be sent first
sq_push32-Sent_example :
    Sent small
      (byte_at (negsuc 1) 24
        ∷ byte_at (negsuc 1) 16
        ∷ byte_at (negsuc 1) 8
        ∷ byte_at (negsuc 1) 0
        ∷ [])
      (sq_push32 (negsuc 1) small)
sq_push32-Sent_example = sq_push32-Sent (negsuc 1) small small-IsReady

-- more bytes than the buffer holds at once
sq_push_bytes-Sent_example :
    (o : Outcome (Unit {0})) × (sq_push_bytes (1 ∷ 2 ∷ 3 ∷ 4 ∷ 5 ∷ 6 ∷ 7 ∷ []) small ≡ some o)
    × Sent small (1 ∷ 2 ∷ 3 ∷ 4 ∷ 5 ∷ 6 ∷ 7 ∷ []) o
sq_push_bytes-Sent_example = sq_push_bytes-Sent (1 ∷ 2 ∷ 3 ∷ 4 ∷ 5 ∷ 6 ∷ 7 ∷ []) small small-IsReady

-- the channel has closed, and four bytes wait
abbrev stuck : Websock
stuck = record small { websocket = some (record channel { sub_state = web_socket 3 }); sq_len = 4 }

stuck-IsStuck : IsStuck stuck
unfolding ready_state sub_ready_state
stuck-IsStuck = record { not_open = λ e. cc; full = refl; sized = refl }

push_loop_stuck_example : push_loop 1000 (1 ∷ []) 0 stuck ≡ none
push_loop_stuck_example = push_loop_stuck 1000 (1 ∷ []) 0 stuck stuck-IsStuck (omega arith)

attach_new_example :
    Attached
      (attach channel raw_channel_props new_websock)
      (λ ws. (unread ws ≡ []) × IsValid ws × IsReady ws × (wire ws ≡ []))
unfolding sub_ready_state
attach_new_example = attach_new channel raw_channel_props refl refl

attach_used_example :
    Attached (attach channel raw_channel_props small) (λ ws. unread ws ≡ 0 ∷ 0 ∷ 0 ∷ 0 ∷ [])
attach_used_example = attach_used channel raw_channel_props small refl
