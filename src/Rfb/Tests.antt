-- ===== src/Rfb/Tests.antt =====
-- The theorems about core/rfb.js at concrete inputs.
use proxmox_self_service_por.Prelude.{true, false, none, some, List, [], ◌∷◌}
use proxmox_self_service_por.Prelude.Int.{pos, negsuc}
use proxmox_self_service_por.Js.Bytes.{new_array}
use proxmox_self_service_por.Websock.State.{RawChannel, data_channel, Websock}
use proxmox_self_service_por.Rfb.Server.{
  ClientMessage, key, pointer, set_encodings, update_request, cut_text, xvp, continuous_updates,
  desktop_size, extended_pointer, qemu_key, fence, set_pixel_format,
}
use proxmox_self_service_por.Rfb.Heard.{Heard}

-- an open channel that was given two bytes before
abbrev channel : RawChannel
channel = record {
  sub_state = data_channel "open";
  sent = (1 ∷ 2 ∷ []) ∷ [];
  close_called = false;
  on_message = true;
}

-- room for five bytes only
abbrev idle : Websock
idle = record {
  websocket = some channel;
  rq_i = 0;
  rq_len = 0;
  rq_buffer_size = 0;
  rq = new_array 0;
  sq_buffer_size = 5;
  sq_len = 0;
  sq = new_array 5;
  event_handlers = λ _. none;
}

abbrev some_messages : List ClientMessage
some_messages =
    set_encodings (pos 16 ∷ negsuc 222 ∷ [])
    ∷ update_request true 0 0 1024 768
    ∷ key 65307 1
    ∷ pointer 700 300 4
    ∷ cut_text (72 ∷ 105 ∷ [])
    ∷ xvp 1 2
    ∷ continuous_updates 1 0 0 1024 768
    ∷ desktop_size 800 600 4000000000 0
    ∷ extended_pointer 700 300 260
    ∷ qemu_key 65507 1 57373
    ∷ fence 2147483648 (1 ∷ 255 ∷ [])
    ∷ set_pixel_format 24 true
    ∷ []
