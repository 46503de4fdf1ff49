-- ===== src/Websock/Unread.antt =====
-- What a client of the receive queue of core/websock.js sees: the bytes that are not read yet.
use proxmox_self_service_por.Prelude.{ℕ, ◌-◌, ◌≤◌, ◌≡◌, Bool, List, ◌++◌, ltb, length}
use proxmox_self_service_por.Js.Bytes.{window, length-window}
use proxmox_self_service_por.Websock.State.{Websock, Outcome, done, raised, max_rq_grow_size}

abbrev pub unread : Websock → List ℕ
unread ws = window ws.rq.cell ws.rq_i (ws.rq_len - ws.rq_i)

-- The indices lie in the array, whose size is `_rQbufferSize` and at most the maximum.
pub record IsValid (ws : Websock) : Type 0 where
  pub read_le : ws.rq_i ≤ ws.rq_len
  pub len_le : ws.rq_len ≤ ws.rq_buffer_size
  pub sized : ws.rq_buffer_size ≡ ws.rq.size
  pub capped : ws.rq_buffer_size ≤ max_rq_grow_size

-- The fields of the send queue, the channel and the handlers are those of before.
pub record SameRest (ws ws' : Websock) : Type 0 where
  pub same_channel : ws'.websocket ≡ ws.websocket
  pub same_sq_size : ws'.sq_buffer_size ≡ ws.sq_buffer_size
  pub same_sq_len : ws'.sq_len ≡ ws.sq_len
  pub same_sq : ws'.sq ≡ ws.sq
  pub same_handlers : ws'.event_handlers ≡ ws.event_handlers

pub length-unread : (ws : Websock) → length (unread ws) ≡ ws.rq_len - ws.rq_i
length-unread ws = length-window ws.rq.cell ws.rq_i (ws.rq_len - ws.rq_i)

-- A message was taken in: the queue has grown by its bytes, and the flag tells if any byte is unread.
abbrev pub Received : Websock → List ℕ → Outcome Bool → Type 0
Received ws u8 (raised e ws') = ⊥
Received ws u8 (done fires ws') =
    (unread ws' ≡ unread ws ++ u8)
    × (fires ≡ ltb 0 (length (unread ws ++ u8)))
    × IsValid ws'
    × SameRest ws ws'
