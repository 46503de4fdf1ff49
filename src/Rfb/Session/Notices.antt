-- ===== src/Rfb/Session/Notices.antt =====
-- Server messages of core/rfb.js that concern the session alone: `_handleLedEvent`, a pseudo-encoding,
-- `_handleServerFenceMsg` and `_handleXvpMsg`.
use proxmox_self_service_por.Prelude.{
  ℕ, ◌/◌, ◌%◌, ◌^◌, Bool, true, some, List, ltb, ◌==◌, if◌then◌else◌,
}
use proxmox_self_service_por.Prelude.Int.{pos}
use proxmox_self_service_por.Websock.Receive.{rq_shift8, rq_shift32, rq_shift_str}
use proxmox_self_service_por.Rfb.Messages.{client_fence}
use proxmox_self_service_por.Rfb.Session.State.{
  power_capability, Method, ◌>>=◌, ◌>>◌, pure, modify, read, send, dispatch,
}
use proxmox_self_service_por.Rfb.Session.Connection.{failing}
use proxmox_self_service_por.Rfb.Session.Handshake.{wait, skip, unless}

-- `_handleLedEvent`
abbrev pub take_leds : ℕ → Method Bool
take_leds leds = do
  modify (λ r. record r {
    remote_caps_lock = some (leds / 4 % 2 == 1);
    remote_num_lock = some (leds / 2 % 2 == 1);
  })
  pure true

unfoldable pub handle_led_event : Method Bool
handle_led_event = do short ← wait 1 0; unless short (read rq_shift8 >>= take_leds)

-- `_handleServerFenceMsg`; the payload is at most 64 bytes, of those that the server has sent
abbrev pub fence_length : ℕ → ℕ
fence_length n = if ltb 64 n then 64 else n

abbrev pub answer_fence : ℕ → List ℕ → Method Bool
answer_fence flags payload = do send (client_fence (pos (flags % 4)) payload); pure true

abbrev pub take_fence : ℕ → ℕ → Method Bool
take_fence flags payload_length = do
  payload ← read (λ ws. rq_shift_str ws (fence_length payload_length))
  modify (λ r. record r { supports_fence = true })
  if ltb flags (2 ^ 31) then failing else answer_fence flags payload

abbrev pub read_fence : Method Bool
read_fence = do
  skip 3
  flags ← read rq_shift32
  payload_length ← read rq_shift8
  short ← wait payload_length 9
  unless short (take_fence flags payload_length)

unfoldable pub handle_server_fence_msg : Method Bool
handle_server_fence_msg = do short ← wait 8 1; unless short read_fence

-- `_handleXvpMsg`; a message that is illegal ends the connection, and the value is true all the same
abbrev pub take_xvp : ℕ → ℕ → Method Bool
take_xvp ver msg =
    if msg == 0
    then pure true
    else if msg == 1
    then modify (λ r. record r { xvp_ver = ver }) >> dispatch power_capability >> pure true
    else failing >>= (λ _. pure true)

abbrev pub read_xvp : Method Bool
read_xvp = do skip 1; ver ← read rq_shift8; msg ← read rq_shift8; take_xvp ver msg

unfoldable pub handle_xvp_msg : Method Bool
handle_xvp_msg = do short ← wait 3 1; unless short read_xvp
