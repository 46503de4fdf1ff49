-- ===== src/Websock/State.antt =====
-- The fields of a Websock object (core/websock.js), its raw channel, and how its methods end.
use Prim.Native.String.{String}
use text.Mathlib.Text.{◌==◌ as str_eq}
use proxmox_self_service_por.Prelude.{ℕ, ◌*◌, Bool, Option, none, some, List, ◌==◌, if◌then◌else◌}
use proxmox_self_service_por.Js.Bytes.{Uint8Array, new_array}

-- `MAX_RQ_GROW_SIZE`: 40 MiB
abbrev pub max_rq_grow_size : ℕ
max_rq_grow_size = 40 * 1024 * 1024

-- What `readyState` of a raw channel holds: a number of a WebSocket, a text of an RTCDataChannel.
pub data SubState : Type 0 where
  web_socket : ℕ → SubState
  data_channel : String → SubState

-- the getter's texts; `is_open` is "open"
pub data ReadyState : Type 0 where
  unused connecting is_open closing closed unknown : ReadyState

-- The WebSocket or RTCDataChannel: its state, the messages given to `send` (oldest first), whether
-- `close` was called on it, and whether `onmessage` still leads to `_recvMessage`.
pub record RawChannel : Type 0 where
  pub sub_state : SubState
  pub sent : List (List ℕ)
  pub close_called : Bool
  pub on_message : Bool

-- the keys of `_eventHandlers`
pub data Event : Type 0 where
  message opened close error : Event

-- The fields. Both arrays are null until `init`; an array of no cells stands for that. A handler is
-- a number, and `none` is the function that does nothing.
pub record Websock : Type 0 where
  pub websocket : Option RawChannel
  pub rq_i : ℕ
  pub rq_len : ℕ
  pub rq_buffer_size : ℕ
  pub rq : Uint8Array
  pub sq_buffer_size : ℕ
  pub sq_len : ℕ
  pub sq : Uint8Array
  pub event_handlers : Event → Option ℕ

-- the constructor
unfoldable pub new_websock : Websock
new_websock = record {
  websocket = none;
  rq_i = 0;
  rq_len = 0;
  rq_buffer_size = 1024 * 1024 * 4;
  rq = new_array 0;
  sq_buffer_size = 1024 * 10;
  sq_len = 0;
  sq = new_array 0;
  event_handlers = λ _. none;
}

-- the exceptions
pub data Error : Type 0 where
  cannot_backup rq_exceeded range_error : Error
  missing_property : String → Error

-- How a method ends: with a value or an exception, and with the fields as they are then.
pub data Outcome (A : Type 0) : Type 0 where
  done : A → Websock → Outcome A
  raised : Error → Websock → Outcome A

-- `ReadyStates`: each state under the names of both kinds of channel
unfoldable pub sub_ready_state : SubState → ReadyState
sub_ready_state (web_socket n) =
    if n == 0
    then connecting
    else if n == 1
    then is_open
    else if n == 2
    then closing
    else if n == 3
    then closed
    else unknown
sub_ready_state (data_channel s) =
    if str_eq s "connecting"
    then connecting
    else if str_eq s "open"
    then is_open
    else if str_eq s "closing"
    then closing
    else if str_eq s "closed"
    then closed
    else unknown

-- `get readyState()`
unfoldable pub ready_state : Websock → ReadyState
ready_state ws = elim ws.websocket [ none ↦ unused | some c ↦ sub_ready_state c.sub_state ]

abbrev pub is_open_state : ReadyState → Bool
is_open_state is_open = Bool.true
is_open_state _ = Bool.false
